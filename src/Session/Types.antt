-- ===== src/Session/Types.antt =====
-- The types of internal/session/interfaces.go, and of a session in internal/session/manager.go.
use rook_servicechannel_gate.Base.{ℕ, Bool, Option, List}
use rook_servicechannel_gate.Base.Int.{ℤ}
use rook_servicechannel_gate.Base.Text.{Bytes, text}
use rook_servicechannel_gate.Config.Types.{Level}
use rook_servicechannel_gate.Grants.{ValidationResult}
use rook_servicechannel_gate.Websocket.{Message}

pub data BrowserState : Type 0 where
  active closing closed : BrowserState

pub data EndReason : Type 0 where
  client_close browser_disconnect protocol_violation slow_client server_shutdown : EndReason
  internal_error console_closed ssh_error authorize_timeout keepalive_timeout : EndReason
  session_limit : EndReason

unfoldable pub reason_text : EndReason → Bytes
unfolding text
reason_text client_close = text "client_close"
reason_text browser_disconnect = text "browser_disconnect"
reason_text protocol_violation = text "protocol_violation"
reason_text slow_client = text "slow_client"
reason_text server_shutdown = text "server_shutdown"
reason_text internal_error = text "internal_error"
reason_text console_closed = text "console_closed"
reason_text ssh_error = text "ssh_error"
reason_text authorize_timeout = text "authorize_timeout"
reason_text keepalive_timeout = text "keepalive_timeout"
reason_text session_limit = text "session_limit_reached"

-- The close codes of RFC 6455 under the names of the WebSocket library.
abbrev pub close_normal_closure : ℕ
close_normal_closure = 1000

abbrev pub close_going_away : ℕ
close_going_away = 1001

abbrev pub close_abnormal_closure : ℕ
close_abnormal_closure = 1006

abbrev pub close_policy_violation : ℕ
close_policy_violation = 1008

abbrev pub close_internal_server_err : ℕ
close_internal_server_err = 1011

abbrev pub close_try_again_later : ℕ
close_try_again_later = 1013

pub record LoopResult : Type 0 where
  pub reason : EndReason
  pub close_code : ℕ
  pub close_reason : Bytes
  pub client_error_code : Bytes
  pub client_error_text : Bytes
  pub client_close_reason : Bytes

-- The calls on `gatewayws.Connection` that write, and those on `sshbridge.Session`.
pub data BrowserCall : Type 0 where
  write_message : Message → BrowserCall
  write_ping : BrowserCall
  close_browser : ℕ → Bytes → BrowserCall

pub data ConsoleCall : Type 0 where
  write_console : Bytes → ConsoleCall
  resize_console : ℤ → ℤ → ConsoleCall
  close_console : ConsoleCall

-- A value of an audit event's field, before `fmt` or `Duration.String` writes it as text.
pub data FieldValue : Type 0 where
  words : Bytes → FieldValue
  number : ℤ → FieldValue
  span : ℤ → FieldValue
  flag : Bool → FieldValue

-- `audit.Event`
pub record AuditEvent : Type 0 where
  pub name : Bytes
  pub session : Bytes
  pub fields : List (Bytes × FieldValue)

-- A call of a method of `slog.Logger`: its level, its message and its attributes.
pub record LogLine : Type 0 where
  pub level : Level
  pub message : Bytes
  pub args : List (Bytes × FieldValue)

-- `ended_at` and `end_reason` are `none` for Go's zero values.
pub record Snapshot : Type 0 where
  pub id : Bytes
  pub state : BrowserState
  pub grant : ValidationResult
  pub started_at : ℕ
  pub last_activity : ℕ
  pub ended_at : Option ℕ
  pub end_reason : Option EndReason
  pub output_backlog : ℕ

-- Where the goroutine that called `Registry.Start` is: it enqueues the initial messages that are
-- left, it has started the loops, or it has given up.
pub data Phase : Type 0 where
  unlogged : LogLine → List (Bytes × FieldValue) → List Message → Phase
  unrecorded : List (Bytes × FieldValue) → List Message → Phase
  greeting : List Message → Phase
  running abandoned : Phase

-- How far the body of `closeOnce` has come.
pub data CloseStage : Type 0 where
  untouched begun disconnected unregistered finished : CloseStage

pub record Session : Type 0 where
  pub id : Bytes
  pub grant : ValidationResult
  pub ssh_account : Bytes
  pub audit_sink : Bool
  pub cleanup : Bool
  -- The channel `outbound`, oldest message first, and its capacity.
  pub outbound : List Message
  pub depth : ℕ
  -- The channel `closed` is closed.
  pub is_closed : Bool
  pub state : BrowserState
  pub started_at : ℕ
  pub last_active : ℕ
  pub ended_at : Option ℕ
  pub end_reason : Option EndReason
  pub stage : CloseStage
  pub close_code : ℕ
  pub close_reason : Bytes
  pub phase : Phase
  -- The goroutines that still run, and the channel `results` of `run`.
  pub reader : Bool
  pub outputter : Bool
  pub keepalive : Bool
  pub writer : Bool
  pub results : List LoopResult
  pub collected : Bool
  -- What has happened so far, oldest first.
  pub browser_calls : List BrowserCall
  pub console_calls : List ConsoleCall
  pub audit : List AuditEvent
  -- The lines of `logStart` and `logEnd`.
  pub log : List LogLine
  pub cleanups : List Snapshot
  pub enqueued : List Message
  pub taken : List Message
