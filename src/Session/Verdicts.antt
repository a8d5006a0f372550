-- ===== src/Session/Verdicts.antt =====
-- What the loops report: the close code and the frames for the browser follow from the reason.
use rook_servicechannel_gate.Base.{
  ℕ, ◌≡◌, Bool, true, false, Option, none, some, [], Result, ok, err, arith, inl, inr,
  if◌then◌else◌, Bool-cases,
}
use rook_servicechannel_gate.Base.Text.{Bytes, text, is_empty}
use rook_servicechannel_gate.Websocket.{Message, ClientMessage, MessageType, ProtocolError}
use rook_servicechannel_gate.Websocket
use rook_servicechannel_gate.Websocket.Errors.{Failure}
use rook_servicechannel_gate.Websocket.Protocol.{parse_client_message}
use rook_servicechannel_gate.Session.Types.{
  EndReason, client_close, browser_disconnect, protocol_violation, slow_client, server_shutdown,
  internal_error, console_closed, ssh_error, keepalive_timeout, session_limit, reason_text,
  LoopResult, Session,
}
use rook_servicechannel_gate.Session.Results.{
  protocol_violation_result, internal_error_result, ssh_error_result, console_closed_result,
  browser_disconnect_result, server_shutdown_result, client_close_result, keepalive_timeout_result,
  exhausted_result,
}
use rook_servicechannel_gate.Session.Loops.{
  touch, input_payload, read_error_result, handle_message, handle_parsed, read_round,
  output_error_result, output_round, keepalive_round,
}

-- The close code for each reason that a loop can report.
abbrev pub code_for : EndReason → ℕ
code_for client_close = 1000
code_for browser_disconnect = 1000
code_for console_closed = 1000
code_for server_shutdown = 1001
code_for keepalive_timeout = 1001
code_for internal_error = 1011
code_for ssh_error = 1011
code_for session_limit = 1013
code_for _ = 1008

-- What the browser is told in a `close` message. Nobody is told who has left or does not read.
abbrev pub notice_for : EndReason → Bytes → Bytes
notice_for client_close why = why
notice_for browser_disconnect why = []
notice_for keepalive_timeout why = []
notice_for slow_client why = []
notice_for r why = reason_text r

-- The reasons with an `error` message.
abbrev pub is_fault : EndReason → Bool
is_fault protocol_violation = true
is_fault internal_error = true
is_fault ssh_error = true
is_fault _ = false

pub record IsProper (r : LoopResult) : Type 0 where
  pub code : r.close_code ≡ code_for r.reason
  pub notice : r.client_close_reason ≡ notice_for r.reason r.close_reason
  pub fault : r.client_error_code ≡ (if is_fault r.reason then r.close_reason else [])

abbrev pub IsProper? : Option LoopResult → Type 0
IsProper? none = Unit
IsProper? (some r) = IsProper r

violation : (e : ProtocolError) → IsProper (protocol_violation_result e)
unfolding protocol_violation_result
violation e = ground arith

internal : (code message : Bytes) → IsProper (internal_error_result code message)
unfolding internal_error_result
internal code message = ground arith

ssh : (code message : Bytes) → IsProper (ssh_error_result code message)
unfolding ssh_error_result
ssh code message = ground arith

left : IsProper browser_disconnect_result
unfolding browser_disconnect_result
left = ground arith

by_client : (why : Bytes) → IsProper (client_close_result why)
unfolding client_close_result
by_client why = ground arith

read_error_result-IsProper : (e : Failure) → IsProper (read_error_result e)
unfolding read_error_result server_shutdown_result keepalive_timeout_result
read_error_result-IsProper e =
    ground (arith, left, internal (text "websocket_read_failed") (text "websocket read failed"))

handle_message-IsProper :
    (t : MessageType) (m : ClientMessage) (reply : Option Failure) (s : Session)
    → IsProper? (handle_message t m reply s).1
unfolding handle_message
handle_message-IsProper Websocket.authorize m reply s = violation _
handle_message-IsProper Websocket.input m none s = ground arith
handle_message-IsProper Websocket.input m (some e) s =
    elim (Bool-cases (is_empty (input_payload m))) [
      | inl nothing ↦ simp nothing tt
      | inr bytes ↦ simp bytes (ssh _ _)
    ]
handle_message-IsProper Websocket.resize m none s = tt
handle_message-IsProper Websocket.resize m (some e) s = ssh _ _
handle_message-IsProper Websocket.close m reply s = by_client _
handle_message-IsProper _ m reply s = violation _

handle_parsed-IsProper :
    (p : Result ProtocolError ClientMessage) (reply : Option Failure) (s : Session)
    → IsProper? (handle_parsed p reply s).1
unfolding handle_parsed
handle_parsed-IsProper (ok c) reply s = handle_message-IsProper c.type c reply s
handle_parsed-IsProper (err e) reply s = violation e

pub read_round-IsProper :
    (now : ℕ) (m : Result Failure Message) (reply : Option Failure) (s : Session)
    → IsProper? (read_round now m reply s).1
unfolding read_round
read_round-IsProper now (err e) reply s = read_error_result-IsProper e
read_round-IsProper now (ok m) reply s =
    handle_parsed-IsProper (parse_client_message m) reply (touch now s)

output_error_result-IsProper : (failure : Option Failure) → IsProper? (output_error_result failure)
unfolding output_error_result console_closed_result
output_error_result-IsProper none = tt
output_error_result-IsProper (some e) = ground (arith, ssh (text "ssh_read_failed") e.message)

exhausted : IsProper exhausted_result
unfolding exhausted_result
exhausted = ground arith

pub output_round-IsProper :
    (now : ℕ) (chunk : Bytes) (failure : Option Failure) (s : Session)
    → IsProper? (output_round now chunk failure s).1
unfolding output_round
output_round-IsProper now chunk failure s =
    ground (arith, output_error_result-IsProper failure, exhausted)

pub keepalive_round-IsProper :
    (failure : Option Failure) (s : Session) → IsProper? (keepalive_round failure s).1
unfolding keepalive_round
keepalive_round-IsProper none s = tt
keepalive_round-IsProper (some e) s = ground (
  arith,
  left,
  internal (text "keepalive_ping_failed") (text "failed to write websocket keepalive ping"),
)
