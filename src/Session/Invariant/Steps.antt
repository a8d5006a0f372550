-- ===== src/Session/Invariant/Steps.antt =====
-- Every event keeps a session valid.
use mathlib.Core.List.{append_assoc}
use rook_servicechannel_gate.Base.{
  ℕ, ◌≡◌, refl, true, Option, none, some, List, [], ◌∷◌, length-append, Result, ok, err, arith,
}
use rook_servicechannel_gate.Base.Text.{Bytes, text}
use rook_servicechannel_gate.Websocket.{Message, MessageType, ClientMessage, ProtocolError}
use rook_servicechannel_gate.Websocket
use rook_servicechannel_gate.Websocket.Errors.{Failure}
use rook_servicechannel_gate.Websocket.Protocol.{parse_client_message}
use rook_servicechannel_gate.Websocket.Server.{new_server_output}
use rook_servicechannel_gate.Session.Types.{
  Phase, unlogged, unrecorded, greeting, running, abandoned, write_message, write_ping,
  close_console, write_console, resize_console, Session, LoopResult,
}
use rook_servicechannel_gate.Session.Audit.{audit_event, record_audit_event}
use rook_servicechannel_gate.Session.Close.{begin_close, enqueue}
use rook_servicechannel_gate.Session.Loops.{
  touch, input_payload, handle_message, handle_parsed, read_round, output_round, keepalive_round,
  write_round, write_next, flush, run_result, run_with,
}
use rook_servicechannel_gate.Session.Step.{
  SessionEvent, greets, reads, outputs, pings, keepalive_exits, writes, writer_exits, collects,
  closes, advances, launch, greet, reader_ends, outputter_ends, keepalive_ends, step, run,
}
use rook_servicechannel_gate.Session.Invariant.{IsValid, browser_closes}
use rook_servicechannel_gate.Session.Invariant.Frame.{
  browser_closes-append, console_closes-append, begin_close-IsValid, enqueue-IsValid,
  advance-IsValid,
}

-- The goroutines, their channel and the phase are as they were.
abbrev pub SameLoops : Session → Session → Type 0
SameLoops s t =
    (t.reader ≡ s.reader)
    × (t.outputter ≡ s.outputter)
    × (t.keepalive ≡ s.keepalive)
    × (t.results ≡ s.results)
    × (t.phase ≡ s.phase)

enqueue-SameLoops : (now : ℕ) (m : Message) (s : Session) → SameLoops s (enqueue now m s).0
unfolding enqueue begin_close
enqueue-SameLoops now m s = ground arith

touch-IsValid : (now : ℕ) (s : Session) → IsValid s → IsValid (touch now s)
unfolding touch
touch-IsValid now s v = ground arith

greet-IsValid :
    (now : ℕ) (p : Phase) (s : Session) → s.phase ≡ p → IsValid s → IsValid (greet now p s)
unfolding greet launch record_audit_event
greet-IsValid now (unlogged line fields ms) s e v = ground (arith, length-append s.log (line ∷ []))
greet-IsValid now (unrecorded fields ms) s e v =
    ground (arith, length-append s.audit (audit_event (text "session_started") fields s ∷ []))
greet-IsValid now (greeting []) s e v = ground arith
greet-IsValid now (greeting (m ∷ rest)) s e v = ground (
  arith,
  enqueue-IsValid now m s v,
  enqueue-SameLoops now m s,
  console_closes-append (enqueue now m s).0.console_calls (close_console ∷ []),
)
greet-IsValid now running s e v = v
greet-IsValid now abandoned s e v = v

handle_message-IsValid :
    (t : MessageType) (m : ClientMessage) (reply : Option Failure) (s : Session)
    → IsValid s
    → IsValid (handle_message t m reply s).0 × SameLoops s (handle_message t m reply s).0
unfolding handle_message
handle_message-IsValid Websocket.input m reply s v =
    ground (arith, console_closes-append s.console_calls (write_console (input_payload m) ∷ []))
handle_message-IsValid Websocket.resize m reply s v =
    ground (arith, console_closes-append s.console_calls (resize_console m.rows m.columns ∷ []))
handle_message-IsValid _ m reply s v = ground arith

handle_parsed-IsValid :
    (r : Result ProtocolError ClientMessage) (reply : Option Failure) (s : Session)
    → IsValid s
    → IsValid (handle_parsed r reply s).0 × SameLoops s (handle_parsed r reply s).0
unfolding handle_parsed
handle_parsed-IsValid (err e) reply s v = ground arith
handle_parsed-IsValid (ok m) reply s v = handle_message-IsValid m.type m reply s v

pub read_round-IsValid :
    (now : ℕ) (r : Result Failure Message) (reply : Option Failure) (s : Session)
    → IsValid s
    → IsValid (read_round now r reply s).0 × SameLoops s (read_round now r reply s).0
unfolding read_round
read_round-IsValid now (err e) reply s v = ground arith
read_round-IsValid now (ok m) reply s v =
    handle_parsed-IsValid (parse_client_message m) reply (touch now s) (touch-IsValid now s v)

pub output_round-IsValid :
    (now : ℕ) (chunk : Bytes) (failure : Option Failure) (s : Session)
    → IsValid s
    → IsValid (output_round now chunk failure s).0
      × SameLoops s (output_round now chunk failure s).0
unfolding output_round
output_round-IsValid now chunk failure s v = ground (
  arith,
  enqueue-IsValid now (new_server_output chunk) (touch now s) (touch-IsValid now s v),
  enqueue-SameLoops now (new_server_output chunk) (touch now s),
)

reader_ends-IsValid :
    (p : Session × Option LoopResult) → p.0.reader ≡ true → IsValid p.0 → IsValid (reader_ends p)
unfolding reader_ends
reader_ends-IsValid (s, none) e v = v
reader_ends-IsValid (s, some r) e v = ground (arith, length-append s.results (r ∷ []))

outputter_ends-IsValid :
    (p : Session × Option LoopResult)
    → p.0.outputter ≡ true
    → IsValid p.0
    → IsValid (outputter_ends p)
unfolding outputter_ends
outputter_ends-IsValid (s, none) e v = v
outputter_ends-IsValid (s, some r) e v = ground (arith, length-append s.results (r ∷ []))

keepalive_ends-IsValid :
    (p : Session × Option LoopResult)
    → p.0.keepalive ≡ true
    → IsValid p.0
    → IsValid (keepalive_ends p)
unfolding keepalive_ends
keepalive_ends-IsValid (s, none) e v = v
keepalive_ends-IsValid (s, some r) e v = ground (arith, length-append s.results (r ∷ []))

pub keepalive_round-IsValid :
    (failure : Option Failure) (s : Session)
    → IsValid s
    → IsValid (keepalive_round failure s).0 × SameLoops s (keepalive_round failure s).0
unfolding keepalive_round
keepalive_round-IsValid failure s v =
    ground (arith, browser_closes-append s.browser_calls (write_ping ∷ []))

write_next-IsValid :
    (now : ℕ) (l : List Message) (failure : Option Failure) (s : Session)
    → s.outbound ≡ l
    → IsValid s
    → IsValid (write_next now l failure s)
unfolding write_next begin_close
write_next-IsValid now [] failure s e v = v
write_next-IsValid now (m ∷ rest) failure s e v = ground (
  arith,
  browser_closes-append s.browser_calls (write_message m ∷ []),
  append_assoc s.taken (m ∷ []) rest,
)

browser_closes-flush : (r : LoopResult) → browser_closes (flush r) ≡ 0
unfolding flush
browser_closes-flush r = ground arith

run_with-IsValid :
    (now : ℕ) (l : List LoopResult) (s : Session)
    → s.results ≡ l
    → IsValid s
    → IsValid (run_with now l s)
unfolding run_with begin_close
run_with-IsValid now [] s e v = v
run_with-IsValid now (r ∷ rest) s e v =
    ground (arith, browser_closes-append s.browser_calls (flush r), browser_closes-flush r)

pub step-IsValid : (e : SessionEvent) (s : Session) → IsValid s → IsValid (step e s)
unfolding step write_round run_result
step-IsValid (greets now) s v = greet-IsValid now s.phase s refl v
step-IsValid (reads now m reply) s v =
    let (w, same) = read_round-IsValid now m reply s v in
    ground (arith, reader_ends-IsValid (read_round now m reply s))
step-IsValid (outputs now chunk failure) s v =
    let (w, same) = output_round-IsValid now chunk failure s v in
    ground (arith, outputter_ends-IsValid (output_round now chunk failure s))
step-IsValid (pings failure) s v =
    let (w, same) = keepalive_round-IsValid failure s v in
    ground (arith, keepalive_ends-IsValid (keepalive_round failure s))
step-IsValid keepalive_exits s v = ground arith
step-IsValid (writes now failure) s v = ground (arith, write_next-IsValid now s.outbound failure s)
step-IsValid writer_exits s v = ground arith
step-IsValid (collects now) s v = ground (arith, run_with-IsValid now s.results s)
step-IsValid (closes now reason code why) s v = begin_close-IsValid now reason code why s v
step-IsValid advances s v = advance-IsValid s v

-- A valid session stays valid under every sequence of events of its goroutines, whatever the
-- connection and the console answer: its queue is bounded by its capacity and keeps the order of the
-- messages, the channel of results has room for every loop that runs, the steps of its close (state,
-- reason, closing the browser, log line, audit event, clean-up hook) have each happened as far as
-- the close has come, and once, and so have the log line and the audit event of its start; the
-- console is closed once by the close and once more where the start was abandoned.
pub run-IsValid : (es : List SessionEvent) (s : Session) → IsValid s → IsValid (run es s)
unfolding run
run-IsValid [] s v = v
run-IsValid (e ∷ es) s v = run-IsValid es (step e s) (step-IsValid e s v)
