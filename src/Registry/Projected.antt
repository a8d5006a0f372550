-- ===== src/Registry/Projected.antt =====
-- One session of internal/session/manager.go within the history of the registry.
use native.Mathlib.Decide.{ℕ_discrete}
use rook_servicechannel_gate.Base.{
  ℕ, ◌==◌, ◌≡◌, refl, ◌∙◌, ap, some, List, [], ◌∷◌, ◌++◌, arith, get_elem?, get_elem?-set_self,
  get_elem?-set_ne, get_elem?-append_old, Option-cases, inl, inr, All, All-append, All-set,
  All-get_elem?, if◌then◌else◌,
}
use rook_servicechannel_gate.Base.Text.{Bytes}
use rook_servicechannel_gate.Session.{Session}
use rook_servicechannel_gate.Session.Step.{SessionEvent, step, run}
use rook_servicechannel_gate.Session.Progress.{run-append}
use rook_servicechannel_gate.Session.Invariant.{IsValid}
use rook_servicechannel_gate.Session.Invariant.Steps.{step-IsValid}
use rook_servicechannel_gate.Registry.Types.{
  RegistryConfig, Registry, effective, new_registry, record_rejection,
}
use rook_servicechannel_gate.Registry.Start.{StartRequest, published, admit, commit}
use rook_servicechannel_gate.Registry.Step.{
  RegistryEvent, admits, commits, acts, act, apply, run_registry,
}

-- What an event of the registry is for the session behind a pointer.
abbrev pub events_of : ℕ → RegistryEvent → List SessionEvent
events_of p (acts q e) = if q == p then e ∷ [] else []
events_of p _ = []

-- The session's own history.
abbrev pub events_at : ℕ → List RegistryEvent → List SessionEvent
events_at p [] = []
events_at p (e ∷ es) = events_of p e ++ events_at p es

-- The configuration of a registry never changes.
pub apply-cfg : (e : RegistryEvent) (r : Registry) → (apply e r).cfg ≡ r.cfg
unfolding apply admit commit act record_rejection
apply-cfg e r = ground arith

admit-objects : (request : StartRequest) (r : Registry) → (admit request r).0.objects ≡ r.objects
unfolding admit record_rejection
admit-objects request r = ground arith

commit-object :
    (now : ℕ) (id : Bytes) (request : StartRequest) (r : Registry) (p : ℕ) (s : Session)
    → get_elem? r.objects p ≡ some s
    → get_elem? (commit now id request r).0.objects p ≡ some s
unfolding commit record_rejection
commit-object now id request r p s h =
    ground (arith, get_elem?-append_old r.objects (published now id request r ∷ []) s p h)

pub apply-object :
    (e : RegistryEvent) (r : Registry) (p : ℕ) (s : Session)
    → get_elem? r.objects p ≡ some s
    → get_elem? (apply e r).objects p ≡ some (run (events_of p e) s)
unfolding apply act run
apply-object (admits request) r p s h = rw (admit-objects request r) h
apply-object (commits now id request) r p s h = commit-object now id request r p s h
apply-object (acts q e) r p s h = elim (ℕ_discrete q p) [
  | yes same ↦
      let at_q : get_elem? r.objects q ≡ some s = rw same h in
      ground (arith, get_elem?-set_self r.objects q (step e s) s at_q)
  | no ne ↦ elim (Option-cases (get_elem? r.objects q)) [
    | inl missing ↦ ground arith
    | inr (t, found) ↦ ground (arith, get_elem?-set_ne r.objects q p (step e t) ne)
  ]
]

-- In the history of the registry each session runs through its own history, and nothing else reaches
-- it.
pub run_registry-object :
    (es : List RegistryEvent) (r : Registry) (p : ℕ) (s : Session)
    → get_elem? r.objects p ≡ some s
    → get_elem? (run_registry es r).objects p ≡ some (run (events_at p es) s)
unfolding run_registry run
run_registry-object [] r p s h = h
run_registry-object (e ∷ es) r p s h =
    run_registry-object es (apply e r) p (run (events_of p e) s) (apply-object e r p s h)
    ∙ ap some (sym_run (events_of p e) (events_at p es))
  where
    sym_run : (fs gs : List SessionEvent) → run gs (run fs s) ≡ run (fs ++ gs) s
    sym_run fs gs = rw (run-append fs gs s)

-- What a registry gives to the sessions that it starts, and what none of their steps takes away, all of
-- them have.
module _ (P : Session → Type 0) (c : RegistryConfig)
    (step-P : (e : SessionEvent) (s : Session) → P s → P (step e s))
    (published-P : (now : ℕ) (id : Bytes) (request : StartRequest) (r : Registry)
      → r.cfg ≡ c
      → P (published now id request r)) where
  act-All : (p : ℕ) (e : SessionEvent) (r : Registry) → All P r.objects → All P (act p e r).objects
  unfolding act
  act-All p e r v = elim (Option-cases (get_elem? r.objects p)) [
    | inl missing ↦ ground arith
    | inr (s, found) ↦ ground (
      arith,
      All-set P r.objects p (step e s) v (step-P e s (All-get_elem? P r.objects p s v found)),
    )
  ]

  apply-All :
      (e : RegistryEvent) (r : Registry) → r.cfg ≡ c → All P r.objects → All P (apply e r).objects
  unfolding apply commit record_rejection
  apply-All (admits request) r k v = rw (admit-objects request r) v
  apply-All (commits now id request) r k v = ground (
    arith,
    All-append P r.objects (published now id request r ∷ []) v (published-P now id request r k, tt),
  )
  apply-All (acts p e) r k v = act-All p e r v

  pub run_registry-All :
      (es : List RegistryEvent) (r : Registry)
      → r.cfg ≡ c
      → All P r.objects
      → All P (run_registry es r).objects
  unfolding run_registry
  run_registry-All [] r k v = v
  run_registry-All (e ∷ es) r k v =
      run_registry-All es (apply e r) (apply-cfg e r ∙ k) (apply-All e r k v)

  -- Every session that a registry has started has it.
  pub run_registry-Has :
      (cs : List RegistryConfig) (es : List RegistryEvent) (p : ℕ) (s : Session)
      → effective cs ≡ c
      → get_elem? (run_registry es (new_registry cs)).objects p ≡ some s
      → P s
  run_registry-Has cs es p s k h =
      All-get_elem? P (run_registry es (new_registry cs)).objects p s
        (run_registry-All es (new_registry cs) (unfold new_registry in k)
          (unfold new_registry in tt))
        h

published-IsValid :
    (now : ℕ) (id : Bytes) (request : StartRequest) (r : Registry)
    → IsValid (published now id request r)
unfolding published
published-IsValid now id request r = ground arith

-- Every session that a registry has started is valid.
pub run_registry-IsValid :
    (cs : List RegistryConfig) (es : List RegistryEvent) (p : ℕ) (s : Session)
    → get_elem? (run_registry es (new_registry cs)).objects p ≡ some s
    → IsValid s
run_registry-IsValid cs es p s h =
    run_registry-Has IsValid (effective cs) step-IsValid
      (λ now id request r k. published-IsValid now id request r) cs es p s refl h
