-- ===== src/Sshbridge/Sizes.antt =====
-- The calls of a session on its console, on `remoteSession` of internal/sshbridge/client.go.
use rook_servicechannel_gate.Base.{◌≡◌, Option, [], ◌∷◌, ◌++◌, ok, arith}
use rook_servicechannel_gate.Base.Int.{ℤ, pos, ◌<ℤ◌}
use rook_servicechannel_gate.Websocket.{Message, ClientMessage}
use rook_servicechannel_gate.Websocket
use rook_servicechannel_gate.Websocket.Errors.{Failure}
use rook_servicechannel_gate.Websocket.Protocol.{parse_client_message}
use rook_servicechannel_gate.Websocket.Protocol.Sound.{Fits, parse_client_message-IsWellFormed}
use rook_servicechannel_gate.Sshbridge.Remote.{RemoteSession, changes_window, resize, window_answer}

positive_sizes :
    (t : Websocket.MessageType) (c : ClientMessage)
    → t ≡ Websocket.resize
    → Fits t c
    → (pos 0 <ℤ c.rows) × (pos 0 <ℤ c.columns)
positive_sizes Websocket.resize c e f = f
positive_sizes _ c e f = cc

resize_positive :
    (rows columns : ℤ) (answer : Option Failure) (s : RemoteSession)
    → pos 0 <ℤ rows
    → pos 0 <ℤ columns
    → resize rows columns answer s
      ≡ (record s { calls = s.calls ++ changes_window rows columns ∷ [] }, window_answer answer)
unfolding resize
resize_positive rows columns answer s h k = ground arith

-- The size of every `resize` message that the parser accepts reaches the SSH session: `Resize` does
-- not refuse it, and its answer is that of `WindowChange`.
pub resize-parse_client_message :
    (m : Message) (c : ClientMessage) (answer : Option Failure) (s : RemoteSession)
    → parse_client_message m ≡ ok c
    → c.type ≡ Websocket.resize
    → resize c.rows c.columns answer s
      ≡ (record s { calls = s.calls ++ changes_window c.rows c.columns ∷ [] }, window_answer answer)
resize-parse_client_message m c answer s parsed kind =
    let (formed, _) = parse_client_message-IsWellFormed m c parsed in
    let (rows, columns) = positive_sizes c.type c kind formed.fits in
    resize_positive c.rows c.columns answer s rows columns
