-- ===== src/Session/Tests.antt =====
-- The session of internal/session/manager.go on concrete histories.
use rook_servicechannel_gate.Base.{
  map, ◌≡◌, refl, true, false, none, some, List, [], ◌∷◌, ◌++◌, ok, err, All, arith,
}
use rook_servicechannel_gate.Base.Int.{pos}
use rook_servicechannel_gate.Base.Text.{Bytes, text}
use rook_servicechannel_gate.Websocket.{
  Message, text_frame, binary_frame, ClientMessage, input, resize,
}
use rook_servicechannel_gate.Websocket.Errors.{Failure, read_message}
use rook_servicechannel_gate.Websocket.Protocol.{client_message}
use rook_servicechannel_gate.Session.Types.{
  Session, server_shutdown, active, untouched, running, LoopResult,
}
use rook_servicechannel_gate.Session.Results.{internal_error_result}
use rook_servicechannel_gate.Session.Close.{enqueue}
use rook_servicechannel_gate.Session.Loops.{
  output_round, write_round, ReadInput, read_loop, read_round,
}
use rook_servicechannel_gate.Session.Step.{
  SessionEvent, reads, outputs, writes, collects, closes, advances, step, outputter_ends, run,
}
use rook_servicechannel_gate.Config.Types.{info}
use rook_servicechannel_gate.Session.Invariant.{IsValid}
use rook_servicechannel_gate.Session.Invariant.Steps.{run-IsValid}
use rook_servicechannel_gate.Session.Rounds.{Follows}
use rook_servicechannel_gate.Session.Ending.{run-Follows}
use rook_servicechannel_gate.Session.Forwarding.{read_loop-refuses}
use rook_servicechannel_gate.Session.Progress.{Ended, run-Ended}
use rook_servicechannel_gate.Session.Delivery.{delivered, run-delivered}
use rook_servicechannel_gate.Websocket.Server.{new_server_output}
use rook_servicechannel_gate.Session.Verdicts.{IsProper}
use rook_servicechannel_gate.Session.Reports.{run-IsProper, oversize_internal_error}

-- A session whose loops have just started.
abbrev started : Session
started = record {
  id = b'1' ∷ [];
  grant = record { ip_address = b'h' ∷ []; raw_response = [] };
  ssh_account = b'r' ∷ [];
  audit_sink = true;
  cleanup = true;
  outbound = [];
  depth = 2;
  is_closed = false;
  state = active;
  started_at = 5;
  last_active = 5;
  ended_at = none;
  end_reason = none;
  stage = untouched;
  close_code = 1000;
  close_reason = [];
  phase = running;
  reader = true;
  outputter = true;
  keepalive = true;
  writer = true;
  results = [];
  collected = false;
  browser_calls = [];
  console_calls = [];
  audit = record { name = b's' ∷ []; session = b'1' ∷ []; fields = [] } ∷ [];
  cleanups = [];
  enqueued = [];
  taken = [];
  log = record { level = info; message = b's' ∷ []; args = [] } ∷ [];
}

started-IsValid : IsValid started
started-IsValid = ground arith

abbrev lost : Failure
lost = record {
  canceled = false;
  deadline_exceeded = false;
  timeout = false;
  close_code = some 1006;
  close_sent = false;
  read_limit = false;
  eof = false;
  protocol = none;
  message = b'x' ∷ [];
}

abbrev binary_message : Message
binary_message = record { frame = binary_frame; payload = b'l' ∷ b's' ∷ [] }

-- Input, output, a write, a lost connection, and a shutdown that overtakes its report.
abbrev history : List SessionEvent
history =
    reads 6 (ok binary_message) none
    ∷ outputs 7 (b'o' ∷ []) none
    ∷ writes 8 none
    ∷ reads 9 (err lost) none
    ∷ closes 10 server_shutdown 1001 []
    ∷ advances
    ∷ collects 11
    ∷ []

run-IsValid_example : IsValid (run history started)
run-IsValid_example = run-IsValid history started started-IsValid

run-Follows_example : Follows started (run history started)
run-Follows_example = run-Follows history started

run-IsProper_example : All IsProper (run history started).results
run-IsProper_example = run-IsProper history started started-IsValid tt

abbrev text_message : Bytes → Message
text_message s = record { frame = text_frame; payload = s }

abbrev resize_message : Message
resize_message = text_message (text "{\"type\":\"resize\",\"rows\":40,\"columns\":120}")

abbrev inputs : List ReadInput
inputs =
    record { now = 6; message = ok binary_message; reply = none }
    ∷ record { now = 7; message = ok resize_message; reply = none }
    ∷ []

abbrev parsed_inputs : List ClientMessage
parsed_inputs =
    record (client_message input) { binary_data = some (b'l' ∷ b's' ∷ []) }
    ∷ record (client_message resize) { rows = pos 40; columns = pos 120 }
    ∷ []

abbrev messages : List Message
messages = binary_message ∷ resize_message ∷ []

abbrev lost_input : ReadInput
lost_input = record { now = 6; message = err lost; reply = none }

read_loop-refuses_example :
    ((read_loop (lost_input ∷ inputs) started).0.console_calls ≡ started.console_calls)
    × ((r : LoopResult) × ((read_loop (lost_input ∷ inputs) started).1 ≡ some r))
read_loop-refuses_example = read_loop-refuses lost_input inputs started tt

abbrev oversize : Failure
oversize = record lost { read_limit = true; close_code = none }

oversize_internal_error_example :
    read_round 6 (read_message none none (err oversize) none) none started ≡ (
      started,
      some (internal_error_result (text "websocket_read_failed") (text "websocket read failed")),
    )
oversize_internal_error_example = oversize_internal_error 6 oversize none none started refl

-- The lost connection is reported; more output and a shutdown come before the report is received.
abbrev before_receipt : List SessionEvent
before_receipt = outputs 7 (b'o' ∷ []) none ∷ closes 8 server_shutdown 1001 [] ∷ advances ∷ []

abbrev after_receipt : List SessionEvent
after_receipt = advances ∷ writes 12 none ∷ advances ∷ advances ∷ []

run-Ended_example :
    Ended (run (reads 6 (err lost) none ∷ before_receipt ++ collects 9 ∷ after_receipt) started)
unfolding read_round
run-Ended_example =
    run-Ended (reads 6 (err lost) none) before_receipt after_receipt 9 started started-IsValid refl
      refl refl (omega arith)

-- Two pieces of output, an empty one, and the write of the first.
abbrev outputs_only : List SessionEvent
outputs_only =
    outputs 6 (b'o' ∷ []) none ∷ outputs 7 [] none ∷ writes 8 none ∷ outputs 9 (b'k' ∷ []) none ∷ []

outputs_only-open : (run outputs_only started).is_closed ≡ false
unfolding run step output_round outputter_ends enqueue write_round
outputs_only-open = refl

run-delivered_example :
    let t = run outputs_only started in
    t.taken ++ t.outbound ≡ map new_server_output (delivered outputs_only started)
run-delivered_example = run-delivered outputs_only started started-IsValid refl outputs_only-open
