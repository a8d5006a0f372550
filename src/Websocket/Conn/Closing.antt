-- ===== src/Websocket/Conn/Closing.antt =====
-- How `GorillaConn` of internal/websocket/conn.go passes messages on.
use rook_servicechannel_gate.Base.{
  ℕ, ◌+◌, ◌≤◌, ◌≡◌, refl, Option, none, some, [], ◌∷◌, ◌++◌, ok, arith,
}
use rook_servicechannel_gate.Base.Text.{Bytes}
use rook_servicechannel_gate.Websocket.Types.{Message, FrameType, text_frame, binary_frame}
use rook_servicechannel_gate.Websocket.Errors.{Failure, read_message}
use rook_servicechannel_gate.Websocket.Conn.{
  Conn, sets_write_deadline, writes_message, to_gorilla_type, write_until, write_message, read_from,
}

write_until_bounds :
    (ctx : Option ℕ) (now : ℕ) (c : Conn) → write_until ctx now c ≤ now + c.write_timeout
unfolding write_until
write_until_bounds none now c = omega arith
write_until_bounds (some d) now c = ground arith

-- A message that one `GorillaConn` writes is the one that another reads, and its write is bounded by
-- the write time-out, whatever the deadline of the context is.
pub read_from-write_message :
    (ctx : Option ℕ) (now : ℕ) (answer : Option Failure) (m : Message) (c d : Conn)
    → (until : ℕ) × (kind : ℕ) × ((write_message ctx now none answer m c).0.calls
        ≡ c.calls
          ++ sets_write_deadline (some until)
            ∷ writes_message kind m.payload
            ∷ sets_write_deadline none
            ∷ [])
      × (until ≤ now + c.write_timeout)
      × ((read_from none none none (ok (kind, m.payload)) none d).1 ≡ ok m)
unfolding write_message read_from read_message
read_from-write_message ctx now answer m c d = (
  write_until ctx now c,
  to_gorilla_type m.frame,
  refl,
  write_until_bounds ctx now c,
  read_back m.frame m.payload,
)
  where
    read_back :
        (f : FrameType) (payload : Bytes)
        → read_message none none (ok (to_gorilla_type f, payload)) none
          ≡ ok (record { frame = f; payload = payload })
    read_back text_frame payload = refl
    read_back binary_frame payload = refl
