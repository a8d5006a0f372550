-- ===== src/Websocket/Conn/Deadlines.antt =====
-- The read deadline of a connection under keepalive.
use rook_servicechannel_gate.Base.{ℕ, ◌+◌, ◌≡◌, Option, none, some, List, [], ◌∷◌, Result, arith}
use rook_servicechannel_gate.Base.Int.{ℤ, pos, pos_part, ◌<ℤ◌}
use rook_servicechannel_gate.Base.Text.{Bytes}
use rook_servicechannel_gate.Websocket.Types.{Message}
use rook_servicechannel_gate.Websocket.Errors.{Failure}
use rook_servicechannel_gate.Websocket.Conn.{
  Conn, write_message, write_set, write_ping, configure_keepalive, pong, read_from,
}

-- What a session does with its connection, and the pongs that arrive. The contexts of a session have no
-- deadline.
pub data ConnEvent : Type 0 where
  reads : Option Failure → Result Failure (ℕ × Bytes) → Option Failure → ConnEvent
  writes : ℕ → Option Failure → Option Failure → Message → ConnEvent
  pings : ℕ → Option Failure → ConnEvent
  pongs : ℕ → ConnEvent

unfoldable pub conn_step : ConnEvent → Conn → Conn
conn_step (reads before raw after) c = (read_from none before none raw after c).0
conn_step (writes now set answer m) c = (write_message none now set answer m c).0
conn_step (pings now answer) c = (write_ping none now answer c).0
conn_step (pongs now) c = pong now none c

unfoldable pub conn_run : List ConnEvent → Conn → Conn
unfolding conn_step
conn_run [] c = c
conn_run (e ∷ es) c = conn_run es (conn_step e c)

-- The time of the last pong, or `since` where there is none.
abbrev pub last_sign : ℕ → List ConnEvent → ℕ
last_sign since [] = since
last_sign since (pongs now ∷ es) = last_sign now es
last_sign since (_ ∷ es) = last_sign since es

record Watches (timeout since : ℕ) (c : Conn) : Type 0 where
  pub armed : c.pong_timeout ≡ some timeout
  pub until : c.read_deadline ≡ some (since + timeout)

abbrev sign : ConnEvent → ℕ → ℕ
sign (pongs now) since = now
sign _ since = since

conn_step-Watches :
    (e : ConnEvent) (timeout since : ℕ) (c : Conn)
    → Watches timeout since c
    → Watches timeout (sign e since) (conn_step e c)
unfolding conn_step read_from write_message write_set write_ping pong
conn_step-Watches (reads (some gone) raw after) timeout since c w = ground arith
conn_step-Watches (reads none raw after) timeout since c w = ground arith
conn_step-Watches (writes now (some e) answer m) timeout since c w = ground arith
conn_step-Watches (writes now none answer m) timeout since c w = ground arith
conn_step-Watches (pings now answer) timeout since c w = ground arith
conn_step-Watches (pongs now) timeout since c w = ground arith

conn_run-Watches :
    (es : List ConnEvent) (timeout since : ℕ) (c : Conn)
    → Watches timeout since c
    → Watches timeout (last_sign since es) (conn_run es c)
unfolding conn_run
conn_run-Watches [] timeout since c w = w
conn_run-Watches (reads before raw after ∷ es) timeout since c w =
    conn_run-Watches es timeout since _
      (conn_step-Watches (reads before raw after) timeout since c w)
conn_run-Watches (writes now set answer m ∷ es) timeout since c w =
    conn_run-Watches es timeout since _
      (conn_step-Watches (writes now set answer m) timeout since c w)
conn_run-Watches (pings now answer ∷ es) timeout since c w =
    conn_run-Watches es timeout since _ (conn_step-Watches (pings now answer) timeout since c w)
conn_run-Watches (pongs now ∷ es) timeout since c w =
    conn_run-Watches es timeout now _ (conn_step-Watches (pongs now) timeout since c w)

-- After `ConfigureKeepalive` with a positive time-out, and whatever a session then reads and writes,
-- the read deadline is the time of the last pong, or of the configuration where none has arrived, plus
-- the time-out: neither reads, writes nor pings move it.
pub conn_run-read_deadline :
    (es : List ConnEvent) (timeout : ℤ) (now : ℕ) (c : Conn)
    → pos 0 <ℤ timeout
    → (conn_run es (configure_keepalive timeout now none c).0).read_deadline
      ≡ some (last_sign now es + pos_part timeout)
conn_run-read_deadline es timeout now c h =
    (conn_run-Watches es (pos_part timeout) now _ armed).until
  where
    armed : Watches (pos_part timeout) now (configure_keepalive timeout now none c).0
    armed = unfold configure_keepalive in ground arith
