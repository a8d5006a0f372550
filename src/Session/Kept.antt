-- ===== src/Session/Kept.antt =====
-- What the steps of a session of internal/session/manager.go leave of the channel `results`.
use rook_servicechannel_gate.Base.{ℕ, ◌≡◌, Option, List, [], ◌∷◌, Result, ok, err, arith}
use rook_servicechannel_gate.Base.Text.{Bytes}
use rook_servicechannel_gate.Websocket.{Message, MessageType, ClientMessage, ProtocolError}
use rook_servicechannel_gate.Websocket
use rook_servicechannel_gate.Websocket.Errors.{Failure}
use rook_servicechannel_gate.Websocket.Protocol.{parse_client_message}
use rook_servicechannel_gate.Websocket.Server.{new_server_output}
use rook_servicechannel_gate.Session.Types.{EndReason, Session}
use rook_servicechannel_gate.Session.Close.{begin_close, advance, enqueue}
use rook_servicechannel_gate.Session.Loops.{
  touch, handle_message, handle_parsed, read_round, output_round, keepalive_round, write_next,
}

-- No report is lost and none is received.
pub record Holds (s t : Session) : Type 0 where
  pub same_collected : t.collected ≡ s.collected
  pub same_results : t.results ≡ s.results

pub begin_close-Holds :
    (now : ℕ) (reason : EndReason) (code : ℕ) (why : Bytes) (s : Session)
    → Holds s (begin_close now reason code why s)
unfolding begin_close
begin_close-Holds now reason code why s = ground arith

pub enqueue-Holds : (now : ℕ) (m : Message) (s : Session) → Holds s (enqueue now m s).0
unfolding enqueue begin_close
enqueue-Holds now m s = ground arith

pub handle_message-Holds :
    (t : MessageType) (m : ClientMessage) (reply : Option Failure) (s : Session)
    → Holds s (handle_message t m reply s).0
unfolding handle_message
handle_message-Holds Websocket.authorize m reply s = ground arith
handle_message-Holds _ m reply s = ground arith

pub read_round-Holds :
    (now : ℕ) (r : Result Failure Message) (reply : Option Failure) (s : Session)
    → Holds s (read_round now r reply s).0
unfolding read_round touch handle_parsed
read_round-Holds now (err e) reply s = ground arith
read_round-Holds now (ok m) reply s = of_parsed (parse_client_message m)
  where
    of_parsed :
        (r : Result ProtocolError ClientMessage) → Holds s (handle_parsed r reply (touch now s)).0
    of_parsed (err e) = ground arith
    of_parsed (ok c) = ground (arith, handle_message-Holds c.type c reply (touch now s))

pub output_round-Holds :
    (now : ℕ) (chunk : Bytes) (failure : Option Failure) (s : Session)
    → Holds s (output_round now chunk failure s).0
unfolding output_round touch
output_round-Holds now chunk failure s =
    ground (arith, enqueue-Holds now (new_server_output chunk) (touch now s))

pub keepalive_round-Holds :
    (failure : Option Failure) (s : Session) → Holds s (keepalive_round failure s).0
unfolding keepalive_round
keepalive_round-Holds failure s = ground arith

pub advance-Holds : (s : Session) → Holds s (advance s)
unfolding advance
advance-Holds s = ground arith

pub write_next-Holds :
    (now : ℕ) (l : List Message) (failure : Option Failure) (s : Session)
    → Holds s (write_next now l failure s)
unfolding write_next begin_close
write_next-Holds now [] failure s = ground arith
write_next-Holds now (m ∷ rest) failure s = ground arith
