-- ===== src/Server/Socket.antt =====
-- `handleBrowserSocket` of internal/httpserver/server.go and what it calls: from the first message of
-- an upgraded connection to a session, or to the close of the connection.
pub mod Authorized
pub mod Closing
pub mod Served
use rook_servicechannel_gate.Base.{
  ℕ, Bool, true, false, ◌||◌, Option, none, some, List, [], ◌∷◌, ◌++◌, Result, ok, err,
  if◌then◌else◌,
}
use rook_servicechannel_gate.Base.Text.{Bytes, text, is_empty}
use rook_servicechannel_gate.Base.Text.Trim.{trim_space}
use rook_servicechannel_gate.Grants.{
  ValidationResult, GrantError, transport, invalid_grant, backend, other, ErrorResponse,
}
use rook_servicechannel_gate.Websocket.{Message, MessageType, ClientMessage, ProtocolError}
use rook_servicechannel_gate.Websocket
use rook_servicechannel_gate.Websocket.Errors.{Failure, is_peer_closed}
use rook_servicechannel_gate.Websocket.Protocol.{parse_client_message}
use rook_servicechannel_gate.Websocket.Server.{
  new_server_authorized, new_server_error, new_server_close,
}
use rook_servicechannel_gate.Session.{
  client_close, browser_disconnect, protocol_violation, internal_error, authorize_timeout,
  session_limit, reason_text, BrowserCall, write_message, close_browser, close_normal_closure,
  close_policy_violation, close_internal_server_err, close_try_again_later, ConsoleCall,
}
use rook_servicechannel_gate.Sshbridge.{SessionRequest}
use rook_servicechannel_gate.Registry.{Registry}
use rook_servicechannel_gate.Registry.Start.{
  StartRequest, StartError, no_browser, no_bridge, no_target, limit_reached, open_failed,
  keepalive_failed, greeting_failed, Opening, Started, start,
}

abbrev when_filled : Bytes → Message → List BrowserCall
when_filled [] m = []
when_filled (c ∷ s) m = write_message m ∷ []

-- `writeWebSocketFailure`
unfoldable pub write_web_socket_failure : ℕ → Bytes → Bytes → Bytes → List BrowserCall
write_web_socket_failure code error_code message close_reason =
    when_filled error_code (new_server_error error_code message)
    ++ when_filled close_reason (new_server_close close_reason)
    ++ close_browser code close_reason ∷ []

abbrev or_default : Bytes → Bytes → Bytes
or_default s default = if is_empty (trim_space s) then default else s

-- `classifyGrantError`: the status and the error.
unfoldable pub classify_grant_error : GrantError → ℕ × ErrorResponse
classify_grant_error (invalid_grant status code message) =
    (403, record { code = code; message = message })
classify_grant_error (backend status code message cause) = (
  502,
  record {
    code = or_default code (text "backend_validation_failed");
    message = or_default message (text "backend validation failed");
  },
)
classify_grant_error (transport e) = (
  502,
  record {
    code = text "backend_unreachable";
    message = text "grant validation transport failed: " ++ e.message;
  },
)
classify_grant_error (other e) =
    (502, record { code = text "grant_validation_failed"; message = e.message })

-- `classifyGrantClose`
unfoldable pub classify_grant_close : GrantError → ℕ × Bytes
classify_grant_close (invalid_grant status code message) =
    (close_policy_violation, text "authorization_failed")
classify_grant_close _ = (close_internal_server_err, reason_text internal_error)

-- `err.Error()` of the errors of `Start`.
unfoldable pub start_error_text : StartError → Bytes
start_error_text no_browser = text "browser connection is required"
start_error_text no_bridge = text "ssh bridge is required"
start_error_text no_target = text "validated grant is missing target ip"
start_error_text limit_reached = text "session limit reached"
start_error_text (open_failed e) = text "open ssh bridge: " ++ e.message
start_error_text (keepalive_failed e) = text "configure websocket keepalive: " ++ e.message
start_error_text (greeting_failed why) = text "enqueue initial websocket message: " ++ why

-- What the handler is given: the username of the configuration, whether a bridge is there, the
-- validator if there is one, the first read, and the answers for `Start`.
pub record Surroundings : Type 0 where
  pub username : Bytes
  pub bridge : Bool
  pub validator : Option (Bytes → Result GrantError ValidationResult)
  pub first_read : Result Failure Message
  pub meanwhile : Registry → Registry
  pub opening : Opening

-- What the handler does: the tokens that it has validated, the SSH sessions that it asks for, its own
-- calls on the connection, and the session that it starts.
pub record Outcome : Type 0 where
  pub registry : Registry
  pub tokens : List Bytes
  pub requests : List SessionRequest
  pub calls : List BrowserCall
  pub orphan : List ConsoleCall
  pub session : Option ℕ

-- Nothing is started.
abbrev refusal : Registry → List Bytes → List BrowserCall → Outcome
refusal r tokens calls = record {
  registry = r;
  tokens = tokens;
  requests = [];
  calls = calls;
  orphan = [];
  session = none;
}

unfoldable pub read_failure_calls : Failure → List BrowserCall
read_failure_calls e =
    if e.deadline_exceeded
    then write_web_socket_failure close_policy_violation (text "authorize_timeout")
        (text "authorization message not received before timeout") (reason_text authorize_timeout)
    else if e.canceled || is_peer_closed e
    then close_browser close_normal_closure (reason_text browser_disconnect) ∷ []
    else write_web_socket_failure close_internal_server_err (text "websocket_read_failed")
        (text "failed to read authorization message") (reason_text internal_error)

unfoldable pub start_failure_calls : StartError → List BrowserCall
start_failure_calls limit_reached =
    write_web_socket_failure close_try_again_later (text "session_limit_reached")
      (text "gateway session capacity exhausted") (reason_text session_limit)
start_failure_calls e =
    write_web_socket_failure close_internal_server_err (text "ssh_bridge_failed")
      (start_error_text e) (text "session_start_failed")

unfoldable pub start_request : Surroundings → ValidationResult → StartRequest
start_request w v = record {
  grant = v;
  browser = true;
  bridge = w.bridge;
  ssh_account = w.username;
  initial_messages = new_server_authorized ∷ [];
  cleanup = false;
}

-- The outcome of `Start` with the answer `a`.
concluded : Bytes → Started → Result StartError ℕ → Outcome
concluded token s (ok p) = record {
  registry = s.registry;
  tokens = token ∷ [];
  requests = s.requests;
  calls = [];
  orphan = s.orphan;
  session = some p;
}
concluded token s (err e) = record {
  registry = s.registry;
  tokens = token ∷ [];
  requests = s.requests;
  calls = start_failure_calls e;
  orphan = s.orphan;
  session = none;
}

after_start : Bytes → Started → Outcome
unfolding concluded
after_start token s = concluded token s s.answer

unfoldable pub grant_failure_calls : GrantError → List BrowserCall
grant_failure_calls e =
    let payload = (classify_grant_error e).1 in
    write_web_socket_failure (classify_grant_close e).0 payload.code payload.message
      (classify_grant_close e).1

after_validation : Surroundings → Bytes → Result GrantError ValidationResult → Registry → Outcome
unfolding after_start
after_validation w token (err e) r = refusal r (token ∷ []) (grant_failure_calls e)
after_validation w token (ok v) r =
    after_start token (start w.meanwhile w.opening (start_request w v) r)

validated_by :
    Option (Bytes → Result GrantError ValidationResult)
    → Surroundings
    → ClientMessage
    → Registry
    → Outcome
unfolding after_validation
validated_by none w m r = refusal r [] (
    write_web_socket_failure close_internal_server_err (text "grant_validator_unavailable")
      (text "grant validation is not configured") (reason_text internal_error))
validated_by (some validate_token) w m r = after_validation w m.token (validate_token m.token) r

validated : Surroundings → ClientMessage → Registry → Outcome
unfolding validated_by
validated w m r = validated_by w.validator w m r

-- The `switch` over the type of the first message.
first_message : MessageType → Surroundings → ClientMessage → Registry → Outcome
unfolding validated
first_message Websocket.authorize w m r = validated w m r
first_message Websocket.close w m r =
    let reason = if is_empty m.reason then reason_text client_close else m.reason in
    refusal r []
      (write_message (new_server_close reason) ∷ close_browser close_normal_closure reason ∷ [])
first_message _ w m r = refusal r [] (
    write_web_socket_failure close_policy_violation (text "unexpected_first_message")
      (text "authorize must be the first client message") (reason_text protocol_violation))

first_parsed : Surroundings → Result ProtocolError ClientMessage → Registry → Outcome
unfolding first_message
first_parsed w (ok m) r = first_message m.type w m r
first_parsed w (err e) r = refusal r [] (
    write_web_socket_failure close_policy_violation e.code e.message
      (reason_text protocol_violation))

after_read : Surroundings → Result Failure Message → Registry → Outcome
unfolding first_parsed
after_read w (err e) r = refusal r [] (read_failure_calls e)
after_read w (ok m) r = first_parsed w (parse_client_message m) r

unfoldable pub handle_browser_socket : Surroundings → Registry → Outcome
unfolding after_read
handle_browser_socket w r = after_read w w.first_read r
