-- ===== src/Session/Loops.antt =====
-- The goroutines of a session in internal/session/manager.go, one round of each loop at a time: a
-- round takes what the connection, the console and the clock answer.
use rook_servicechannel_gate.Base.{
  ℕ, true, false, Option, none, some, List, [], ◌∷◌, ◌++◌, Result, ok, err, if◌then◌else◌,
}
use rook_servicechannel_gate.Base.Text.{Bytes, text, is_empty}
use rook_servicechannel_gate.Websocket.{Message, ClientMessage, MessageType, ProtocolError}
use rook_servicechannel_gate.Websocket
use rook_servicechannel_gate.Websocket.Errors.{Failure, is_peer_closed}
use rook_servicechannel_gate.Websocket.Protocol.{parse_client_message}
use rook_servicechannel_gate.Websocket.Server.{
  new_server_output, new_server_error, new_server_close,
}
use rook_servicechannel_gate.Session.Types.{
  client_close, browser_disconnect, reason_text, close_abnormal_closure, LoopResult, write_message,
  write_ping, BrowserCall, write_console, resize_console, Session,
}
use rook_servicechannel_gate.Session.Results.{
  protocol_violation_result, internal_error_result, ssh_error_result, console_closed_result,
  browser_disconnect_result, server_shutdown_result, client_close_result, keepalive_timeout_result,
  exhausted_result,
}
use rook_servicechannel_gate.Session.Close.{begin_close, enqueue}

unfoldable pub touch : ℕ → Session → Session
touch now s = record s { last_active = now }

-- `readLoop` on an error of `ReadMessage`.
unfoldable pub read_error_result : Failure → LoopResult
read_error_result e =
    if e.canceled
    then server_shutdown_result
    else if e.timeout
    then keepalive_timeout_result
    else if is_peer_closed e
    then browser_disconnect_result
    else internal_error_result (text "websocket_read_failed") (text "websocket read failed")

-- The bytes of an input message.
unfoldable pub input_payload : ClientMessage → Bytes
input_payload m = elim m.binary_data [ none ↦ m.input_text | some s ↦ s ]

-- The result for a call on the console that may fail.
abbrev failing : Option Failure → (Failure → LoopResult) → Option LoopResult
failing none f = none
failing (some e) f = some (f e)

-- The `switch` of `readLoop`: `reply` is what the console answers if it is called.
unfoldable pub handle_message :
    MessageType → ClientMessage → Option Failure → Session → Session × Option LoopResult
handle_message Websocket.authorize m reply s = (
  s,
  some (
      protocol_violation_result (record {
        code = text "unexpected_authorize";
        message = text "authorize is only allowed before the session is active";
      })),
)
handle_message Websocket.input m reply s = if is_empty (input_payload m) then (s, none) else (
  record s { console_calls = s.console_calls ++ write_console (input_payload m) ∷ [] },
  failing reply (λ e.
      ssh_error_result (text "ssh_write_failed") (text "failed to write input to ssh session")),
)
handle_message Websocket.resize m reply s = (
  record s { console_calls = s.console_calls ++ resize_console m.rows m.columns ∷ [] },
  failing reply (λ e. ssh_error_result (text "resize_failed") e.message),
)
handle_message Websocket.close m reply s = (
  s,
  some (client_close_result (if is_empty m.reason then reason_text client_close else m.reason)),
)
handle_message _ m reply s = (
  s,
  some (
      protocol_violation_result (record {
        code = text "unsupported_message";
        message = text "message type is not supported in the current plan";
      })),
)

unfoldable pub handle_parsed :
    Result ProtocolError ClientMessage → Option Failure → Session → Session × Option LoopResult
unfolding handle_message
handle_parsed (err e) reply s = (s, some (protocol_violation_result e))
handle_parsed (ok m) reply s = handle_message m.type m reply s

-- One round of `readLoop`.
unfoldable pub read_round :
    ℕ → Result Failure Message → Option Failure → Session → Session × Option LoopResult
unfolding handle_parsed touch
read_round now (err e) reply s = (s, some (read_error_result e))
read_round now (ok m) reply s = handle_parsed (parse_client_message m) reply (touch now s)

-- What a round of `readLoop` is given: the time, the answer of `ReadMessage`, and what the console
-- answers if the round calls it.
pub record ReadInput : Type 0 where
  pub now : ℕ
  pub message : Result Failure Message
  pub reply : Option Failure

-- `readLoop`: the result is `none` where it still runs behind the inputs given.
unfoldable pub read_loop : List ReadInput → Session → Session × Option LoopResult
read_loop [] s = (s, none)
read_loop (i ∷ is) s =
    let (t, r) = read_round i.now i.message i.reply s in
    let rest = read_loop is t in elim r [ none ↦ rest | some result ↦ (t, some result) ]

-- `outputLoop` on the error of `console.Read`.
unfoldable pub output_error_result : Option Failure → Option LoopResult
output_error_result none = none
output_error_result (some e) =
    some
      (if e.eof then console_closed_result else ssh_error_result (text "ssh_read_failed") e.message)

-- One round of `outputLoop`: the bytes that `console.Read` delivers, and its error.
unfoldable pub output_round : ℕ → Bytes → Option Failure → Session → Session × Option LoopResult
unfolding output_error_result touch
output_round now chunk failure s =
    if is_empty chunk
    then (s, output_error_result failure)
    else (let (t, refused) = enqueue now (new_server_output chunk) (touch now s) in
        elim refused [
          | none ↦ (t, output_error_result failure)
          | some why ↦ (t, some exhausted_result)
        ])

-- One tick of `keepaliveLoop`.
unfoldable pub keepalive_round : Option Failure → Session → Session × Option LoopResult
keepalive_round failure s = (
  record s { browser_calls = s.browser_calls ++ write_ping ∷ [] },
  failing failure (λ e.
      if is_peer_closed e
      then browser_disconnect_result
      else internal_error_result (text "keepalive_ping_failed")
          (text "failed to write websocket keepalive ping")),
)

unfoldable pub write_next : ℕ → List Message → Option Failure → Session → Session
write_next now [] failure s = s
write_next now (m ∷ rest) failure s =
    let t = record s {
      outbound = rest;
      taken = s.taken ++ m ∷ [];
      browser_calls = s.browser_calls ++ write_message m ∷ [];
    } in
    elim failure [
      | none ↦ t
      | some e ↦
          record (begin_close now browser_disconnect close_abnormal_closure (text "write_failed")
            t) { writer = false }
    ]

-- One round of `writeLoop` that receives from `outbound`; an empty channel blocks it.
unfoldable pub write_round : ℕ → Option Failure → Session → Session
unfolding write_next begin_close
write_round now failure s = write_next now s.outbound failure s

abbrev unless_empty : Bytes → List BrowserCall → List BrowserCall
unless_empty [] calls = []
unless_empty (c ∷ s) calls = calls

-- `loopResult.flush`: the calls of `writeImmediate`, whose errors are only logged.
unfoldable pub flush : LoopResult → List BrowserCall
flush r =
    unless_empty r.client_error_code
      (write_message (new_server_error r.client_error_code r.client_error_text) ∷ [])
    ++ unless_empty r.client_close_reason
        (write_message (new_server_close r.client_close_reason) ∷ [])

unfoldable pub run_with : ℕ → List LoopResult → Session → Session
run_with now [] s = s
run_with now (r ∷ rest) s =
    begin_close now r.reason r.close_code r.close_reason
      (record s { results = rest; collected = true; browser_calls = s.browser_calls ++ flush r })

-- `run` from its receipt of the first result to its call of `close`.
unfoldable pub run_result : ℕ → Session → Session
unfolding run_with begin_close
run_result now s = run_with now s.results s
