-- ===== src/Session/Due.antt =====
-- Whether a report of a loop still waits to be received by `run` of internal/session/manager.go.
use rook_servicechannel_gate.Base.{
  ℕ, ◌≡◌, refl, Bool, true, false, not, ◌&&◌, ◌||◌, Option, none, some, List, [], ◌∷◌, ◌++◌,
  is_some, arith, if◌then◌else◌,
}
use rook_servicechannel_gate.Websocket.Errors.{Failure}
use rook_servicechannel_gate.Session.Types.{
  LoopResult, Phase, unlogged, unrecorded, greeting, running, abandoned, Session,
}
use rook_servicechannel_gate.Session.Close.{begin_close, advance}
use rook_servicechannel_gate.Session.Loops.{
  read_round, output_round, keepalive_round, write_round, run_with, run_result,
}
use rook_servicechannel_gate.Session.Step.{
  SessionEvent, greets, reads, outputs, pings, keepalive_exits, writes, writer_exits, collects,
  closes, advances, greet, launch, reader_ends, outputter_ends, keepalive_ends, is_running, step,
  run,
}
use rook_servicechannel_gate.Session.Invariant.{closed_at}
use rook_servicechannel_gate.Session.Rounds.{
  Round, read_round-Round, output_round-Round, keepalive_round-Round, step-Round,
}
use rook_servicechannel_gate.Session.Ending.{advance-Follows, greet-Follows, step-Follows}
use rook_servicechannel_gate.Session.Kept.{
  Holds, begin_close-Holds, read_round-Holds, output_round-Holds, keepalive_round-Holds,
  advance-Holds, write_next-Holds,
}

-- The event lets a loop send its result to the channel `results`.
abbrev pub reports : SessionEvent → Session → Bool
reports (reads now m reply) s = s.reader && is_some (read_round now m reply s).1
reports (outputs now chunk failure) s = s.outputter && is_some (output_round now chunk failure s).1
reports (pings failure) s = s.keepalive && is_some (keepalive_round failure s).1
reports _ s = false

abbrev waits_in : List LoopResult → Bool
waits_in [] = false
waits_in (r ∷ l) = true

-- A report waits in the channel that `run` receives from, or the close has begun.
abbrev pub is_due : Session → Bool
is_due s = closed_at s.stage || (is_running s.phase && not s.collected && waits_in s.results)

-- What stays due under a step that keeps the channel.
Holds-due : (s t : Session) → Holds s t → Round s t → is_due s ≡ true → is_due t ≡ true
Holds-due s t h r d = ground arith

waits_in-append : (l : List LoopResult) (r : LoopResult) → waits_in (l ++ r ∷ []) ≡ true
waits_in-append [] r = refl
waits_in-append (q ∷ l) r = refl

reader_ends-due :
    (t : Session) (r : Option LoopResult) → is_due t ≡ true → is_due (reader_ends (t, r)) ≡ true
unfolding reader_ends
reader_ends-due t none d = d
reader_ends-due t (some r) d = ground (arith, waits_in-append t.results r)

outputter_ends-due :
    (t : Session) (r : Option LoopResult) → is_due t ≡ true → is_due (outputter_ends (t, r)) ≡ true
unfolding outputter_ends
outputter_ends-due t none d = d
outputter_ends-due t (some r) d = ground (arith, waits_in-append t.results r)

keepalive_ends-due :
    (t : Session) (r : Option LoopResult) → is_due t ≡ true → is_due (keepalive_ends (t, r)) ≡ true
unfolding keepalive_ends
keepalive_ends-due t none d = d
keepalive_ends-due t (some r) d = ground (arith, waits_in-append t.results r)

greet-due :
    (now : ℕ) (p : Phase) (s : Session)
    → s.phase ≡ p
    → is_due s ≡ true
    → is_due (greet now p s) ≡ true
unfolding greet launch
greet-due now (unlogged line fields ms) s e d = ground arith
greet-due now (unrecorded fields ms) s e d = ground arith
greet-due now (greeting []) s e d = ground arith
greet-due now (greeting (m ∷ rest)) s e d =
    ground (arith, greet-Follows now (greeting (m ∷ rest)) s)
greet-due now running s e d = d
greet-due now abandoned s e d = d

advance-due : (s : Session) → is_due s ≡ true → is_due (advance s) ≡ true
unfolding advance
advance-due s d = ground (arith, advance-Follows s, advance-Holds s)

writes-Holds :
    (now : ℕ) (failure : Option Failure) (s : Session) → Holds s (step (writes now failure) s)
unfolding step write_round
writes-Holds now failure s = ground (arith, write_next-Holds now s.outbound failure s)

-- Where a report waits, its receipt begins the close.
run_with-closed :
    (now : ℕ) (l : List LoopResult) (s : Session)
    → waits_in l ≡ true
    → closed_at (run_with now l s).stage ≡ true
unfolding run_with begin_close
run_with-closed now [] s w = cc
run_with-closed now (r ∷ rest) s w = ground arith

pub collects-closed :
    (now : ℕ) (s : Session) → is_due s ≡ true → closed_at (step (collects now) s).stage ≡ true
unfolding step run_result
collects-closed now s d =
    ground (arith, run_with-closed now s.results s, step-Follows (collects now) s)

chosen :
    (b : Bool) (s t : Session)
    → is_due s ≡ true
    → is_due t ≡ true
    → is_due (if b then t else s) ≡ true
chosen true s t d e = e
chosen false s t d e = d

step-due : (e : SessionEvent) (s : Session) → is_due s ≡ true → is_due (step e s) ≡ true
unfolding step
step-due (greets now) s d = greet-due now s.phase s refl d
step-due (reads now m reply) s d = chosen s.reader s _ d (
    reader_ends-due (read_round now m reply s).0 (read_round now m reply s).1
      (Holds-due s _ (read_round-Holds now m reply s) (read_round-Round now m reply s) d))
step-due (outputs now chunk failure) s d = chosen s.outputter s _ d (
    outputter_ends-due (output_round now chunk failure s).0 (output_round now chunk failure s).1 (
      Holds-due s _ (output_round-Holds now chunk failure s)
        (output_round-Round now chunk failure s) d))
step-due (pings failure) s d = chosen s.keepalive s _ d (
    keepalive_ends-due (keepalive_round failure s).0 (keepalive_round failure s).1
      (Holds-due s _ (keepalive_round-Holds failure s) (keepalive_round-Round failure s) d))
step-due keepalive_exits s d = ground arith
step-due (writes now failure) s d =
    Holds-due s (step (writes now failure) s) (writes-Holds now failure s)
      (step-Round (writes now failure) s refl) d
step-due writer_exits s d = ground arith
step-due (collects now) s d = ground (arith, collects-closed now s d)
step-due (closes now reason code why) s d =
    Holds-due s _ (begin_close-Holds now reason code why s)
      (step-Round (closes now reason code why) s refl) d
step-due advances s d = ground (arith, advance-due s d)

pub run-due : (es : List SessionEvent) (s : Session) → is_due s ≡ true → is_due (run es s) ≡ true
unfolding run
run-due [] s d = d
run-due (e ∷ es) s d = run-due es (step e s) (step-due e s d)

reader_reports :
    (s t : Session) (r : Option LoopResult)
    → Holds s t
    → Round s t
    → s.phase ≡ running
    → s.collected ≡ false
    → is_some r ≡ true
    → is_due (reader_ends (t, r)) ≡ true
unfolding reader_ends
reader_reports s t none h f p c d = cc
reader_reports s t (some r) h f p c d = ground (arith, waits_in-append t.results r)

outputter_reports :
    (s t : Session) (r : Option LoopResult)
    → Holds s t
    → Round s t
    → s.phase ≡ running
    → s.collected ≡ false
    → is_some r ≡ true
    → is_due (outputter_ends (t, r)) ≡ true
unfolding outputter_ends
outputter_reports s t none h f p c d = cc
outputter_reports s t (some r) h f p c d = ground (arith, waits_in-append t.results r)

keepalive_reports :
    (s t : Session) (r : Option LoopResult)
    → Holds s t
    → Round s t
    → s.phase ≡ running
    → s.collected ≡ false
    → is_some r ≡ true
    → is_due (keepalive_ends (t, r)) ≡ true
unfolding keepalive_ends
keepalive_reports s t none h f p c d = cc
keepalive_reports s t (some r) h f p c d = ground (arith, waits_in-append t.results r)

under :
    (b : Bool) (i : Bool) (s t : Session)
    → (i ≡ true → is_due t ≡ true)
    → b && i ≡ true
    → is_due (if b then t else s) ≡ true
under true i s t f d = f d
under false i s t f d = cc

pub reports-due :
    (e : SessionEvent) (s : Session)
    → reports e s ≡ true
    → s.phase ≡ running
    → s.collected ≡ false
    → is_due (step e s) ≡ true
unfolding step
reports-due (reads now m reply) s r p c =
    let q = read_round now m reply s in
    under s.reader (is_some q.1) s _
      (reader_reports s q.0 q.1 (read_round-Holds now m reply s) (read_round-Round now m reply s) p
        c)
      r
reports-due (outputs now chunk failure) s r p c =
    let q = output_round now chunk failure s in
    under s.outputter (is_some q.1) s _
      (outputter_reports s q.0 q.1 (output_round-Holds now chunk failure s)
        (output_round-Round now chunk failure s) p c)
      r
reports-due (pings failure) s r p c =
    let q = keepalive_round failure s in
    under s.keepalive (is_some q.1) s _
      (keepalive_reports s q.0 q.1 (keepalive_round-Holds failure s)
        (keepalive_round-Round failure s) p c)
      r
reports-due (greets now) s r p c = cc
reports-due keepalive_exits s r p c = cc
reports-due (writes now failure) s r p c = cc
reports-due writer_exits s r p c = cc
reports-due (collects now) s r p c = cc
reports-due (closes now reason code why) s r p c = cc
reports-due advances s r p c = cc
