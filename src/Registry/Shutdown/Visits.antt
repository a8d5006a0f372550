-- ===== src/Registry/Shutdown/Visits.antt =====
-- One call of `close` by `CloseAll` of internal/session/manager.go among the other goroutines.
use rook_servicechannel_gate.Base.{
  ℕ, ◌+◌, ◌≤◌, ◌≡◌, ==_iff, refl, ap, ◌∙◌, true, Option, some, List, [], ◌∷◌, ◌++◌, length, arith,
  get_elem?, is_some, if◌then◌else◌,
}
use rook_servicechannel_gate.Base.Text.{Bytes}
use rook_servicechannel_gate.Session.{
  closed, CloseStage, untouched, begun, disconnected, unregistered, finished, EndReason,
  close_going_away, reason_text, Session,
}
use rook_servicechannel_gate.Session.Close.{begin_close}
use rook_servicechannel_gate.Session.Step.{SessionEvent, closes, step, run, is_abandoned}
use rook_servicechannel_gate.Session.Invariant.{
  IsValid, one, recorded_in, closed_at, browser_closes, console_closes,
}
use rook_servicechannel_gate.Session.Rounds.{progress}
use rook_servicechannel_gate.Session.Ending.{run-Follows}
use rook_servicechannel_gate.Session.Progress.{advances_in, run-append, run-finished}
use rook_servicechannel_gate.Registry.Types.{Registry}
use rook_servicechannel_gate.Registry.Step.{RegistryEvent, acts, apply, run_registry}
use rook_servicechannel_gate.Registry.Projected.{
  events_of, events_at, apply-object, run_registry-object,
}
use rook_servicechannel_gate.Registry.Shutdown.{Visit, visit}

-- How many parts of the body of `closeOnce` are left once `close` has been called.
abbrev pub left_at : CloseStage → ℕ
left_at untouched = 3
left_at begun = 3
left_at disconnected = 2
left_at unregistered = 1
left_at finished = 0

-- The session has ended, and all that its close does has been done, and once.
pub record IsOver (s : Session) : Type 0 where
  pub at_end : s.stage ≡ finished
  pub is_closed : s.state ≡ closed
  pub has_reason : is_some s.end_reason ≡ true
  pub browser_once : browser_closes s.browser_calls ≡ 1
  pub console_closed : console_closes s.console_calls ≡ 1 + one (is_abandoned s.phase)
  pub cleaned_up : length s.cleanups ≡ one s.cleanup
  pub audited : length s.audit ≡ (if s.audit_sink then recorded_in s.phase + 1 else 0)

finished-IsOver : (s : Session) → IsValid s → s.stage ≡ finished → IsOver s
finished-IsOver s v f = ground arith

pub run_registry-append :
    (es fs : List RegistryEvent) (r : Registry)
    → run_registry (es ++ fs) r ≡ run_registry fs (run_registry es r)
unfolding run_registry
run_registry-append [] fs r = refl
run_registry-append (e ∷ es) fs r = run_registry-append es fs (apply e r)

-- The reason for which a session ends when `close` is called for this one: the first call decides.
abbrev pub decided : EndReason → Session → Option EndReason
decided reason s = elim s.stage [ untouched ↦ some reason | _ ↦ s.end_reason ]

begins :
    (now : ℕ) (reason : EndReason) (code : ℕ) (why : Bytes) (s : Session) (n : ℕ)
    → left_at s.stage ≤ n
    → let t = step (closes now reason code why) s in
      (closed_at t.stage ≡ true) × (4 ≤ progress t.stage + n)
unfolding step begin_close
begins now reason code why s n h = ground arith

decides :
    (now : ℕ) (reason : EndReason) (code : ℕ) (why : Bytes) (s : Session)
    → (step (closes now reason code why) s).end_reason ≡ decided reason s
unfolding step begin_close
decides now reason code why s = ground arith

events_of-acts : (p : ℕ) (e : SessionEvent) → events_of p (acts p e) ≡ e ∷ []
events_of-acts p e = rw ((==_iff p p).1 refl)

-- A call of `close` lasts until the parts that are left of the body have been done: `closeOnce` makes
-- every caller wait for the one that runs it.
abbrev pub Lasts : ℕ → Visit → Registry → Type 0
Lasts p v r =
    (s : Session)
    → get_elem? (run_registry v.before r).objects p ≡ some s
    → left_at s.stage ≤ advances_in (events_at p v.during)

-- The session behind the pointer is over, for this reason unless another close came before the visit.
abbrev pub Settles : EndReason → ℕ → Visit → Registry → Registry → Type 0
Settles reason p v r q =
    (s t : Session) × (get_elem? (run_registry v.before r).objects p ≡ some s)
    × (get_elem? q.objects p ≡ some t)
    × IsOver t
    × (t.end_reason ≡ decided reason s)

abbrev pub AllValid : Registry → Type 0
AllValid r = (p : ℕ) (s : Session) → get_elem? r.objects p ≡ some s → IsValid s

is_finished : (c : CloseStage) → 4 ≤ progress c → c ≡ finished
is_finished c h = ground arith

run_finished :
    (es : List SessionEvent) (s : Session) → s.stage ≡ finished → (run es s).stage ≡ finished
run_finished es s f =
    is_finished (run es s).stage (omega (arith, (run-Follows es s).forward, ap progress f))

reason_kept :
    (es fs : List SessionEvent) (s : Session)
    → closed_at s.stage ≡ true
    → (run fs (run es s)).end_reason ≡ s.end_reason
reason_kept es fs s c = rw (← run-append es fs s) ((run-Follows (es ++ fs) s).reason c)

module _ (reason : EndReason) (p : ℕ) (v : Visit) where
  abbrev call : SessionEvent
  call = closes v.now reason close_going_away (reason_text reason)

  -- The session when `close` has been called, where it was `s` when the visit began.
  abbrev called : Session → Session
  called s = step call (run (events_at p v.before) s)

  visit-object :
      (r : Registry) (s : Session)
      → get_elem? r.objects p ≡ some s
      → get_elem? (run_registry (visit reason p v) r).objects p
        ≡ some (run (events_at p v.during) (called s))
  unfolding visit run_registry
  visit-object r s found = rw (run_registry-append v.before (acts p call ∷ v.during) r) (
      run_registry-object v.during (apply (acts p call) (run_registry v.before r)) p (called s) (
        rw (← events_of-call) (
          apply-object (acts p call) (run_registry v.before r) p (run (events_at p v.before) s)
            (run_registry-object v.before r p s found))))
    where
      events_of-call : run (events_of p (acts p call)) (run (events_at p v.before) s) ≡ called s
      events_of-call = unfold run in rw (events_of-acts p call)

  pub visit-Settles :
      (after : List RegistryEvent) (r : Registry) (s : Session)
      → let q = run_registry after (run_registry (visit reason p v) r) in
        AllValid q → get_elem? r.objects p ≡ some s → Lasts p v r → Settles reason p v r q
  visit-Settles after r s valid found lasts =
      let before = run_registry-object v.before r p s found in
      let (shut, enough) =
        begins v.now reason close_going_away (reason_text reason) (run (events_at p v.before) s)
          (advances_in (events_at p v.during)) (lasts (run (events_at p v.before) s) before) in
      let there =
        run_registry-object after (run_registry (visit reason p v) r) p
          (run (events_at p v.during) (called s)) (visit-object r s found) in
      (
        run (events_at p v.before) s,
        run (events_at p after) (run (events_at p v.during) (called s)),
        before,
        there,
        finished-IsOver _ (valid p _ there) (
            run_finished (events_at p after) (run (events_at p v.during) (called s))
              (run-finished (events_at p v.during) (called s) shut enough)),
        reason_kept (events_at p v.during) (events_at p after) (called s) shut
            ∙ decides v.now reason close_going_away (reason_text reason)
                (run (events_at p v.before) s),
      )
