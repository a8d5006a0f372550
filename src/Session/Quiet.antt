-- ===== src/Session/Quiet.antt =====
-- Which steps of a session of internal/session/manager.go put nothing into the queue `outbound`.
use rook_servicechannel_gate.Base.{
  ℕ, ◌≡◌, refl, Bool, true, false, Option, none, some, List, [], ◌∷◌, Result, ok, err, arith,
  if◌then◌else◌,
}
use rook_servicechannel_gate.Base.Text.{Bytes}
use rook_servicechannel_gate.Websocket.{Message, MessageType, ClientMessage, ProtocolError}
use rook_servicechannel_gate.Websocket
use rook_servicechannel_gate.Websocket.Errors.{Failure}
use rook_servicechannel_gate.Websocket.Protocol.{parse_client_message}
use rook_servicechannel_gate.Session.Types.{
  EndReason, LoopResult, Phase, unlogged, unrecorded, greeting, running, abandoned, Session,
}
use rook_servicechannel_gate.Session.Close.{begin_close, advance, finish}
use rook_servicechannel_gate.Session.Loops.{
  touch, handle_message, handle_parsed, read_round, keepalive_round, write_next, run_with,
}
use rook_servicechannel_gate.Session.Step.{greet, reader_ends, keepalive_ends}

-- No message has been put into the queue.
abbrev pub Quiet : Session → Session → Type 0
Quiet s t = t.enqueued ≡ s.enqueued

pub handle_message-Quiet :
    (t : MessageType) (m : ClientMessage) (reply : Option Failure) (s : Session)
    → Quiet s (handle_message t m reply s).0
unfolding handle_message
handle_message-Quiet Websocket.authorize m reply s = ground arith
handle_message-Quiet _ m reply s = ground arith

pub read_round-Quiet :
    (now : ℕ) (r : Result Failure Message) (reply : Option Failure) (s : Session)
    → Quiet s (read_round now r reply s).0
unfolding read_round touch handle_parsed
read_round-Quiet now (err e) reply s = refl
read_round-Quiet now (ok m) reply s = of_parsed (parse_client_message m)
  where
    of_parsed :
        (r : Result ProtocolError ClientMessage) → Quiet s (handle_parsed r reply (touch now s)).0
    of_parsed (err e) = refl
    of_parsed (ok c) = ground (arith, handle_message-Quiet c.type c reply (touch now s))

pub write_next-Quiet :
    (now : ℕ) (l : List Message) (failure : Option Failure) (s : Session)
    → Quiet s (write_next now l failure s)
unfolding write_next begin_close
write_next-Quiet now [] failure s = refl
write_next-Quiet now (m ∷ rest) failure s = ground arith

pub run_with-Quiet : (now : ℕ) (l : List LoopResult) (s : Session) → Quiet s (run_with now l s)
unfolding run_with begin_close
run_with-Quiet now [] s = refl
run_with-Quiet now (r ∷ rest) s = ground arith

pub reader_ends-Quiet : (t : Session) (r : Option LoopResult) → Quiet t (reader_ends (t, r))
unfolding reader_ends
reader_ends-Quiet t none = refl
reader_ends-Quiet t (some r) = refl

pub keepalive_ends-Quiet : (t : Session) (r : Option LoopResult) → Quiet t (keepalive_ends (t, r))
unfolding keepalive_ends
keepalive_ends-Quiet t none = refl
keepalive_ends-Quiet t (some r) = refl

pub keepalive_round-Quiet :
    (failure : Option Failure) (s : Session) → Quiet s (keepalive_round failure s).0
unfolding keepalive_round
keepalive_round-Quiet failure s = refl

pub begin_close-Quiet :
    (now : ℕ) (reason : EndReason) (code : ℕ) (why : Bytes) (s : Session)
    → Quiet s (begin_close now reason code why s)
unfolding begin_close
begin_close-Quiet now reason code why s = ground arith

pub advance-Quiet : (s : Session) → Quiet s (advance s)
unfolding advance finish
advance-Quiet s = ground arith

pub greet-Quiet : (now : ℕ) (p : Phase) (s : Session) → p ≡ running → Quiet s (greet now p s)
unfolding greet
greet-Quiet now (unlogged line fields ms) s e = cc
greet-Quiet now (unrecorded fields ms) s e = cc
greet-Quiet now (greeting ms) s e = cc
greet-Quiet now running s e = refl
greet-Quiet now abandoned s e = cc

pub gated : (b : Bool) (s t : Session) → Quiet s t → Quiet s (if b then t else s)
gated true s t h = h
gated false s t h = refl
