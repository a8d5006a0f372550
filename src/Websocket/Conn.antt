-- ===== src/Websocket/Conn.antt =====
-- `GorillaConn` and `Upgrader` of internal/websocket/conn.go, over the answers of gorilla/websocket.
pub mod Deadlines
pub mod Closing
mod Tests
use rook_servicechannel_gate.Base.{
  ℕ, ◌+◌, Bool, true, false, Option, none, some, List, [], ◌∷◌, ◌++◌, Result, ok, err, leb,
  if◌then◌else◌,
}
use rook_servicechannel_gate.Base.Int.{ℤ, pos, pos_part, is_nonpos}
use rook_servicechannel_gate.Base.Text.{Bytes}
use rook_servicechannel_gate.Websocket.Types.{Message, FrameType, text_frame, binary_frame}
use rook_servicechannel_gate.Websocket.Errors.{Failure, read_message}

-- The calls on gorilla's `Conn`; an unset deadline is `none`, and 9 and 8 are the control frames for
-- a ping and for a close.
pub data SocketCall : Type 0 where
  sets_write_deadline : Option ℕ → SocketCall
  writes_message : ℕ → Bytes → SocketCall
  writes_ping : ℕ → SocketCall
  writes_close : ℕ → Bytes → ℕ → SocketCall
  sets_read_deadline : Option ℕ → SocketCall
  reads_message : SocketCall
  sets_pong_handler : ℤ → SocketCall
  closes_socket : SocketCall

-- `pong_timeout` is what the pong handler adds to the time of a pong, once it is set.
pub record Conn : Type 0 where
  pub write_timeout : ℕ
  pub read_limit : ℤ
  pub read_deadline : Option ℕ
  pub write_deadline : Option ℕ
  pub pong_timeout : Option ℕ
  pub calls : List SocketCall

-- `UpgraderConfig`, and what `NewUpgrader` makes of it.
pub record UpgraderConfig : Type 0 where
  pub max_message_bytes : ℤ
  pub write_timeout : ℤ

unfoldable pub new_upgrader : UpgraderConfig → UpgraderConfig
new_upgrader cfg = record {
  max_message_bytes = if is_nonpos cfg.max_message_bytes then pos 65536 else cfg.max_message_bytes;
  write_timeout = if is_nonpos cfg.write_timeout then pos 5000000000 else cfg.write_timeout;
}

-- `Upgrade`, where the library has upgraded the connection.
unfoldable pub upgraded : UpgraderConfig → Conn
upgraded u = record {
  write_timeout = pos_part u.write_timeout;
  read_limit = u.max_message_bytes;
  read_deadline = none;
  write_deadline = none;
  pong_timeout = none;
  calls = [];
}

abbrev pub earlier : ℕ → ℕ → ℕ
earlier a b = if leb a b then a else b

-- The deadline of `context.WithTimeout(ctx, c.writeTimeout)`, for the deadline of `ctx`.
unfoldable pub write_until : Option ℕ → ℕ → Conn → ℕ
write_until none now c = now + c.write_timeout
write_until (some d) now c = earlier d (now + c.write_timeout)

abbrev pub calls_also : List SocketCall → Conn → Conn
calls_also l c = record c { calls = c.calls ++ l }

unfoldable pub to_gorilla_type : FrameType → ℕ
to_gorilla_type binary_frame = 2
to_gorilla_type text_frame = 1

-- The end of `WriteMessage`, for the answer of setting the deadline: the deadline is unset at the end.
unfoldable pub write_set :
    ℕ → Option Failure → Option Failure → Message → Conn → Conn × Option Failure
unfolding to_gorilla_type
write_set until (some e) answer m c = (calls_also (sets_write_deadline (some until) ∷ []) c, some e)
write_set until none answer m c = (
  record c {
    write_deadline = none;
    calls =
        c.calls
        ++ sets_write_deadline (some until)
          ∷ writes_message (to_gorilla_type m.frame) m.payload
          ∷ sets_write_deadline none
          ∷ [];
  },
  answer,
)

-- `WriteMessage`: the deadline of the context, the time, and the answers of the library.
unfoldable pub write_message :
    Option ℕ → ℕ → Option Failure → Option Failure → Message → Conn → Conn × Option Failure
unfolding write_set write_until
write_message ctx now set answer m c = write_set (write_until ctx now c) set answer m c

-- `WritePing`
unfoldable pub write_ping : Option ℕ → ℕ → Option Failure → Conn → Conn × Option Failure
unfolding write_until
write_ping ctx now answer c = (calls_also (writes_ping (write_until ctx now c) ∷ []) c, answer)

abbrev configured : ℕ → ℕ → Option Failure → Conn → Conn × Option Failure
configured until timeout (some e) c = (calls_also (sets_read_deadline (some until) ∷ []) c, some e)
configured until timeout none c = (
  record c {
    read_deadline = some until;
    pong_timeout = some timeout;
    calls = c.calls ++ sets_read_deadline (some until) ∷ sets_pong_handler (pos timeout) ∷ [];
  },
  none,
)

-- `ConfigureKeepalive`
unfoldable pub configure_keepalive : ℤ → ℕ → Option Failure → Conn → Conn × Option Failure
configure_keepalive timeout now answer c =
    if is_nonpos timeout
    then (c, none)
    else configured (now + pos_part timeout) (pos_part timeout) answer c

-- A pong arrives; the answer is that of `SetReadDeadline`.
unfoldable pub pong : ℕ → Option Failure → Conn → Conn
pong now answer c = elim c.pong_timeout [
  | none ↦ c
  | some t ↦
      let called = calls_also (sets_read_deadline (some (now + t)) ∷ []) c in
      elim answer [ none ↦ record called { read_deadline = some (now + t) } | some e ↦ called ]
]

-- The deadlines that `ReadMessage` sets: the context's at the start, and none at the end.
unfoldable pub read_calls : Option ℕ → Option Failure → Option Failure → Conn → Conn
read_calls ctx (some gone) set c = c
read_calls none none set c = calls_also (reads_message ∷ []) c
read_calls (some d) none (some e) c = calls_also (sets_read_deadline (some d) ∷ []) c
read_calls (some d) none none c = record c {
  read_deadline = none;
  calls = c.calls ++ sets_read_deadline (some d) ∷ reads_message ∷ sets_read_deadline none ∷ [];
}

-- An answer counts only where the call is made.
abbrev set_answer : Option ℕ → Option Failure → Option Failure
set_answer none set = none
set_answer (some d) set = set

-- `ReadMessage`: the deadline of the context, its error before the call, the answer of setting the
-- deadline, the frame, and the context's error afterwards.
unfoldable pub read_from :
    Option ℕ
    → Option Failure
    → Option Failure
    → Result Failure (ℕ × Bytes)
    → Option Failure
    → Conn
    → Conn × Result Failure Message
unfolding read_calls
read_from ctx before set raw after c =
    (read_calls ctx before set c, read_message before (set_answer ctx set) raw after)

-- `Close`, where the answers are those of the control frame and of the library's `Close`.
unfoldable pub close_conn :
    ℕ → Bytes → ℕ → Option Failure → Option Failure → Conn → Conn × Option Failure
close_conn code reason now control answer c =
    let written = calls_also (writes_close code reason (now + c.write_timeout) ∷ []) c in
    elim control [
      | none ↦ (calls_also (closes_socket ∷ []) written, answer)
      | some e ↦
          if e.close_sent
          then (calls_also (closes_socket ∷ []) written, answer)
          else (calls_also (closes_socket ∷ []) written, some e)
    ]
