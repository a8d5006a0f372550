-- ===== src/Websocket/Conn/Tests.antt =====
-- A connection of internal/websocket/conn.go on concrete calls.
use rook_servicechannel_gate.Base.{
  refl, ℕ, ◌+◌, ◌≤◌, ◌≡◌, false, none, some, List, [], ◌∷◌, ok, err, arith,
}
use rook_servicechannel_gate.Base.Int.{pos}
use rook_servicechannel_gate.Base.Text.{text}
use rook_servicechannel_gate.Websocket.Types.{Message, text_frame}
use rook_servicechannel_gate.Websocket.Errors.{Failure}
use rook_servicechannel_gate.Websocket.Conn.{
  Conn, sets_write_deadline, writes_message, writes_close, closes_socket, write_message, read_from,
  close_conn, configure_keepalive,
}
use rook_servicechannel_gate.Websocket.Conn.Deadlines.{
  ConnEvent, reads, writes, pings, pongs, conn_run, conn_run-read_deadline,
}
use rook_servicechannel_gate.Websocket.Conn.Closing.{read_from-write_message}

abbrev fresh : Conn
fresh = record {
  write_timeout = 5000;
  read_limit = pos 65536;
  read_deadline = none;
  write_deadline = none;
  pong_timeout = none;
  calls = [];
}

abbrev lost : Failure
lost = record {
  canceled = false;
  deadline_exceeded = false;
  timeout = false;
  close_code = some 1006;
  close_sent = false;
  read_limit = false;
  eof = false;
  protocol = none;
  message = text "lost";
}

abbrev greeting : Message
greeting = record { frame = text_frame; payload = text "hello" }

-- Two pongs, and between them a read, a write and a ping.
abbrev traffic : List ConnEvent
traffic =
    pongs 10
    ∷ reads none (ok (2, text "ls")) none
    ∷ writes 11 none none greeting
    ∷ pings 12 none
    ∷ pongs 20
    ∷ reads none (err lost) none
    ∷ []

conn_run-read_deadline_example :
    (conn_run traffic (configure_keepalive (pos 75) 5 none fresh).0).read_deadline ≡ some 95
conn_run-read_deadline_example = conn_run-read_deadline traffic (pos 75) 5 fresh (omega arith)

-- The close frame cannot be written, and the socket is closed all the same.
close_conn_test :
    (close_conn 1000 (text "bye") 7 (some lost) none fresh).0.calls
    ≡ writes_close 1000 (text "bye") 5007 ∷ closes_socket ∷ []
unfolding close_conn
close_conn_test = refl

read_from-write_message_example :
    (until : ℕ) × (kind : ℕ) × ((write_message (some 6000) 7 none none greeting fresh).0.calls
      ≡ sets_write_deadline (some until)
        ∷ writes_message kind (text "hello")
        ∷ sets_write_deadline none
        ∷ [])
    × (until ≤ 7 + 5000)
    × ((read_from none none none (ok (kind, text "hello")) none fresh).1 ≡ ok greeting)
read_from-write_message_example = read_from-write_message (some 6000) 7 none greeting fresh fresh
