-- ===== src/Session/Progress.antt =====
-- From the report of a loop to the end of a session, by `run` and `closeOnce` of
-- internal/session/manager.go.
use rook_servicechannel_gate.Base.{
  ℕ, suc, ◌+◌, ◌≤◌, ◌≡◌, refl, ◌∙◌, true, false, List, [], ◌∷◌, ◌++◌, length, arith,
}
use rook_servicechannel_gate.Session.Types.{
  closed, finished, Phase, unlogged, unrecorded, greeting, running, abandoned, Session,
}
use rook_servicechannel_gate.Session.Close.{advance, finish}
use rook_servicechannel_gate.Session.Step.{
  SessionEvent, greets, reads, outputs, pings, keepalive_exits, writes, writer_exits, collects,
  closes, advances, greet, launch, step, run,
}
use rook_servicechannel_gate.Session.Invariant.{
  IsValid, one, closed_at, browser_closes, console_closes,
}
use rook_servicechannel_gate.Session.Invariant.Steps.{run-IsValid}
use rook_servicechannel_gate.Session.Rounds.{progress, step-Round}
use rook_servicechannel_gate.Session.Ending.{step-Follows}
use rook_servicechannel_gate.Session.Due.{reports, run-due, collects-closed, reports-due}

-- How often the goroutine that closes goes on.
abbrev pub advances_in : List SessionEvent → ℕ
advances_in [] = 0
advances_in (advances ∷ es) = suc (advances_in es)
advances_in (_ ∷ es) = advances_in es

pub run-append : (es fs : List SessionEvent) (s : Session) → run (es ++ fs) s ≡ run fs (run es s)
unfolding run
run-append [] fs s = refl
run-append (e ∷ es) fs s = run-append es fs (step e s)

advance-progress :
    (s : Session) (n : ℕ)
    → closed_at s.stage ≡ true
    → 4 ≤ progress s.stage + suc n
    → 4 ≤ progress (advance s).stage + n
unfolding advance finish
advance-progress s n c h = ground arith

step-progress :
    (e : SessionEvent) (s : Session) (es : List SessionEvent)
    → closed_at s.stage ≡ true
    → 4 ≤ progress s.stage + advances_in (e ∷ es)
    → 4 ≤ progress (step e s).stage + advances_in es
unfolding step
step-progress advances s es c h = advance-progress s (advances_in es) c h
step-progress (greets now) s es c h = omega (arith, (step-Follows (greets now) s).forward, h)
step-progress (reads now m reply) s es c h =
    omega (arith, (step-Follows (reads now m reply) s).forward, h)
step-progress (outputs now chunk failure) s es c h =
    omega (arith, (step-Follows (outputs now chunk failure) s).forward, h)
step-progress (pings failure) s es c h = omega (arith, (step-Follows (pings failure) s).forward, h)
step-progress keepalive_exits s es c h = omega (arith, (step-Follows keepalive_exits s).forward, h)
step-progress (writes now failure) s es c h =
    omega (arith, (step-Follows (writes now failure) s).forward, h)
step-progress writer_exits s es c h = omega (arith, (step-Follows writer_exits s).forward, h)
step-progress (collects now) s es c h = omega (arith, (step-Follows (collects now) s).forward, h)
step-progress (closes now reason code why) s es c h =
    omega (arith, (step-Follows (closes now reason code why) s).forward, h)

stays_closed :
    (e : SessionEvent) (s : Session) → closed_at s.stage ≡ true → closed_at (step e s).stage ≡ true
stays_closed e s c = ground (arith, step-Follows e s)

-- A close that has begun takes at most three more parts.
pub run-finished :
    (es : List SessionEvent) (s : Session)
    → closed_at s.stage ≡ true
    → 4 ≤ progress s.stage + advances_in es
    → (run es s).stage ≡ finished
unfolding run
run-finished [] s c h = ground arith
run-finished (e ∷ es) s c h =
    run-finished es (step e s) (stays_closed e s c) (step-progress e s es c h)

-- The loops have been started for good.
greet-running :
    (now : ℕ) (p : Phase) (s : Session)
    → s.phase ≡ p
    → p ≡ running
    → (greet now p s).phase ≡ running
unfolding greet launch
greet-running now (unlogged line fields ms) s e r = cc
greet-running now (unrecorded fields ms) s e r = cc
greet-running now (greeting ms) s e r = cc
greet-running now running s e r = e
greet-running now abandoned s e r = cc

advance-running : (s : Session) → s.phase ≡ running → (advance s).phase ≡ running
unfolding advance finish
advance-running s r = ground arith

pub step-running : (e : SessionEvent) (s : Session) → s.phase ≡ running → (step e s).phase ≡ running
unfolding step
step-running (greets now) s r = greet-running now s.phase s refl r
step-running advances s r = advance-running s r
step-running (reads now m reply) s r = (step-Round (reads now m reply) s refl).same_phase ∙ r
step-running (outputs now chunk failure) s r =
    (step-Round (outputs now chunk failure) s refl).same_phase ∙ r
step-running (pings failure) s r = (step-Round (pings failure) s refl).same_phase ∙ r
step-running keepalive_exits s r = (step-Round keepalive_exits s refl).same_phase ∙ r
step-running (writes now failure) s r = (step-Round (writes now failure) s refl).same_phase ∙ r
step-running writer_exits s r = (step-Round writer_exits s refl).same_phase ∙ r
step-running (collects now) s r = (step-Round (collects now) s refl).same_phase ∙ r
step-running (closes now reason code why) s r =
    (step-Round (closes now reason code why) s refl).same_phase ∙ r

run-running :
    (es : List SessionEvent) (s : Session) → s.phase ≡ running → (run es s).phase ≡ running
unfolding run
run-running [] s r = r
run-running (e ∷ es) s r = run-running es (step e s) (step-running e s r)

-- What a session that has ended has done: the state is closed, the connection of the browser has been
-- closed once, the console too, and the cleanup has run once where there is one.
pub record Ended (s : Session) : Type 0 where
  pub is_over : s.state ≡ closed
  pub browser_once : browser_closes s.browser_calls ≡ 1
  pub console_once : console_closes s.console_calls ≡ 1
  pub cleaned_up : length s.cleanups ≡ one s.cleanup

finished-Ended : (s : Session) → IsValid s → s.phase ≡ running → s.stage ≡ finished → Ended s
finished-Ended s v r f = ground arith

-- Once a loop of a running session has reported, the session ends, whatever else happens in whatever
-- order, if only `run` receives a report and the goroutine that closes then goes on three times.
pub run-Ended :
    (e : SessionEvent) (before after : List SessionEvent) (now : ℕ) (s : Session)
    → IsValid s
    → s.phase ≡ running
    → s.collected ≡ false
    → reports e s ≡ true
    → 3 ≤ advances_in after
    → Ended (run (e ∷ before ++ collects now ∷ after) s)
unfolding run
run-Ended e before after now s v p c r h =
    let all = e ∷ before ++ collects now ∷ after in
    let waiting = run-due before (step e s) (reports-due e s r p c) in
    let closing = collects-closed now (run before (step e s)) waiting in
    finished-Ended (run all s) (run-IsValid all s v) (run-running all s p) (
      rw (run-append before (collects now ∷ after) (step e s))
        (run-finished after (step (collects now) (run before (step e s))) closing (ground arith)))
