-- ===== src/Session/Ending.antt =====
-- The parts of `close` and the state of a session in internal/session/manager.go as it ends.
use rook_servicechannel_gate.Base.{ℕ, ◌≤◌, ◌≡◌, refl, false, List, [], ◌∷◌, if◌then◌else◌, arith}
use rook_servicechannel_gate.Base.Text.{Bytes}
use rook_servicechannel_gate.Session.Types.{
  BrowserState, active, closing, closed, EndReason, Phase, unlogged, unrecorded, greeting, running,
  abandoned, untouched, Session,
}
use rook_servicechannel_gate.Session.Close.{begin_close, finish, advance, close}
use rook_servicechannel_gate.Session.Step.{
  SessionEvent, greets, reads, outputs, pings, keepalive_exits, writes, writer_exits, collects,
  closes, advances, launch, greet, deletes, step, run,
}
use rook_servicechannel_gate.Session.Invariant.{IsValid}
use rook_servicechannel_gate.Session.Invariant.Steps.{run-IsValid}
use rook_servicechannel_gate.Session.Rounds.{Follows, Round, is_live, step-Round, enqueue-Round}

pub advance-Follows : (s : Session) → Follows s (advance s)
unfolding advance
advance-Follows s = ground arith

pub greet-Follows : (now : ℕ) (p : Phase) (s : Session) → Follows s (greet now p s)
unfolding greet
greet-Follows now (unlogged line fields ms) s = ground arith
greet-Follows now (unrecorded fields ms) s = ground arith
greet-Follows now (greeting []) s = ground arith
greet-Follows now (greeting (m ∷ rest)) s = ground (arith, enqueue-Round now m s)
greet-Follows now _ s = ground arith

pub step-Follows : (e : SessionEvent) (s : Session) → Follows s (step e s)
unfolding step
step-Follows (greets now) s = greet-Follows now s.phase s
step-Follows advances s = advance-Follows s
step-Follows (reads now m reply) s = (step-Round (reads now m reply) s refl).follows
step-Follows (outputs now chunk failure) s = (step-Round (outputs now chunk failure) s refl).follows
step-Follows (pings failure) s = (step-Round (pings failure) s refl).follows
step-Follows keepalive_exits s = (step-Round keepalive_exits s refl).follows
step-Follows (writes now failure) s = (step-Round (writes now failure) s refl).follows
step-Follows writer_exits s = (step-Round writer_exits s refl).follows
step-Follows (collects now) s = (step-Round (collects now) s refl).follows
step-Follows (closes now reason code why) s =
    (step-Round (closes now reason code why) s refl).follows

-- A step keeps the identifier, and ends the session's registration exactly where it deletes it.
pub record Registers (e : SessionEvent) (s t : Session) : Type 0 where
  pub same_id : t.id ≡ s.id
  pub lives : is_live t ≡ (if deletes e s then false else is_live s)

Round-Registers :
    {e : SessionEvent} {s t : Session} → deletes e s ≡ false → Round s t → Registers e s t
Round-Registers d r = ground arith

greet-phase :
    (now : ℕ) (p : Phase) (s : Session) → s.phase ≡ p → Registers (greets now) s (greet now p s)
unfolding greet launch deletes
greet-phase now (unlogged line fields ms) s e = ground arith
greet-phase now (unrecorded fields ms) s e = ground arith
greet-phase now (greeting []) s e = ground arith
greet-phase now (greeting (m ∷ rest)) s e = ground (arith, enqueue-Round now m s)
greet-phase now running s e = ground arith
greet-phase now abandoned s e = ground arith

advance-Registers : (s : Session) → Registers advances s (advance s)
unfolding advance deletes
advance-Registers s = ground arith

pub step-Registers : (e : SessionEvent) (s : Session) → Registers e s (step e s)
unfolding step deletes
step-Registers (greets now) s = greet-phase now s.phase s refl
step-Registers advances s = advance-Registers s
step-Registers (reads now m reply) s = Round-Registers refl (step-Round (reads now m reply) s refl)
step-Registers (outputs now chunk failure) s =
    Round-Registers refl (step-Round (outputs now chunk failure) s refl)
step-Registers (pings failure) s = Round-Registers refl (step-Round (pings failure) s refl)
step-Registers keepalive_exits s = Round-Registers refl (step-Round keepalive_exits s refl)
step-Registers (writes now failure) s =
    Round-Registers refl (step-Round (writes now failure) s refl)
step-Registers writer_exits s = Round-Registers refl (step-Round writer_exits s refl)
step-Registers (collects now) s = Round-Registers refl (step-Round (collects now) s refl)
step-Registers (closes now reason code why) s =
    Round-Registers refl (step-Round (closes now reason code why) s refl)

Follows-trans : {s t u : Session} → Follows s t → Follows t u → Follows s u
Follows-trans f g = ground (arith)

-- Once a close has begun nothing changes its reason, its code, its text or its time: the first close
-- wins; and the stage of the close never falls.
pub run-Follows : (es : List SessionEvent) (s : Session) → Follows s (run es s)
unfolding run
run-Follows [] s = ground arith
run-Follows (e ∷ es) s = Follows-trans (step-Follows e s) (run-Follows es (step e s))

-- The parts of the body of `closeOnce`, one after the other, make up `close`.
run-close :
    (now : ℕ) (reason : EndReason) (code : ℕ) (why : Bytes) (s : Session)
    → s.stage ≡ untouched
    → run (closes now reason code why ∷ advances ∷ advances ∷ advances ∷ []) s
      ≡ close now reason code why s
unfolding run step close begin_close advance finish
run-close now reason code why s e = ground arith

-- A second close does nothing.
close_twice :
    (now later : ℕ) (reason other : EndReason) (code code' : ℕ) (why why' : Bytes) (s : Session)
    → close later other code' why' (close now reason code why s) ≡ close now reason code why s
unfolding close finish
close_twice now later reason other code code' why why' s = ground arith

abbrev order : BrowserState → ℕ
order active = 0
order closing = 1
order closed = 2

-- The state of a valid session goes from active through closing to closed and never back.
run-state_order :
    (es : List SessionEvent) (s : Session) → IsValid s → order s.state ≤ order (run es s).state
run-state_order es s v = ground (arith, run-IsValid es s v, run-Follows es s)
