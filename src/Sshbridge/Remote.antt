-- ===== src/Sshbridge/Remote.antt =====
-- `remoteSession` of internal/sshbridge/client.go.
use rook_servicechannel_gate.Base.{
  Bool, true, ◌||◌, Option, none, some, List, [], ◌∷◌, ◌++◌, if◌then◌else◌,
}
use rook_servicechannel_gate.Base.Int.{ℤ, is_nonpos}
use rook_servicechannel_gate.Base.Text.{Bytes}
use rook_servicechannel_gate.Websocket.Errors.{Failure}

-- The calls on the parts of the session.
pub data RemoteCall : Type 0 where
  closes_stdin closes_writer closes_session closes_client : RemoteCall
  changes_window : ℤ → ℤ → RemoteCall
  writes_stdin : Bytes → RemoteCall

-- `is_closed` says that `closeOnce` has run.
pub record RemoteSession : Type 0 where
  pub is_closed : Bool
  pub calls : List RemoteCall

pub data ResizeError : Type 0 where
  bad_size : ResizeError
  window_error : Failure → ResizeError

abbrev pub window_answer : Option Failure → Option ResizeError
window_answer none = none
window_answer (some e) = some (window_error e)

-- `Resize`, with the answer of `WindowChange`.
unfoldable pub resize : ℤ → ℤ → Option Failure → RemoteSession → RemoteSession × Option ResizeError
resize rows columns answer s =
    if is_nonpos rows || is_nonpos columns
    then (s, some bad_size)
    else (record s { calls = s.calls ++ changes_window rows columns ∷ [] }, window_answer answer)

-- `Write`
unfoldable pub write : Bytes → Option Failure → RemoteSession → RemoteSession × Option Failure
write payload answer s = (record s { calls = s.calls ++ writes_stdin payload ∷ [] }, answer)

abbrev pub first_error : Option Failure → Option Failure → Option Failure
first_error (some e) other = some e
first_error none other = other

-- `Close`, with the answers of `session.Close` and `client.Close`.
unfoldable pub close_remote :
    Option Failure → Option Failure → RemoteSession → RemoteSession × Option Failure
close_remote session_answer client_answer s = if s.is_closed then (s, none) else (
  record s {
    is_closed = true;
    calls = s.calls ++ closes_stdin ∷ closes_writer ∷ closes_session ∷ closes_client ∷ [];
  },
  first_error session_answer client_answer,
)
