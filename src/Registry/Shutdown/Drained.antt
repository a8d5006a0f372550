-- ===== src/Registry/Shutdown/Drained.antt =====
-- What `CloseAll` of internal/session/manager.go leaves, whatever other goroutines do meanwhile.
use native.Mathlib.Decide.{dec_lt}
use rook_servicechannel_gate.Base.{
  ℕ, zero, suc, inl, inr, Bool-cases, ◌≤◌, ◌<◌, ◌≡◌, refl, false, some, List, [], ◌∷◌, ◌++◌, length,
  arith, get_elem?, All, All-map,
}
use rook_servicechannel_gate.Base.Dict.{lookup, IsUnique}
use rook_servicechannel_gate.Base.Text.{Bytes, bytes_eq, bytes_eq_iff, bytes_eq_refl}
use rook_servicechannel_gate.Session.{EndReason, Session}
use rook_servicechannel_gate.Session.Step.{SessionEvent, step, run}
use rook_servicechannel_gate.Session.Rounds.{is_live}
use rook_servicechannel_gate.Session.Ending.{step-Registers}
use rook_servicechannel_gate.Registry.Types.{RegistryConfig, Registry, new_registry}
use rook_servicechannel_gate.Registry.Step.{RegistryEvent, run_registry}
use rook_servicechannel_gate.Registry.Projected.{
  events_at, run_registry-object, run_registry-IsValid,
}
use rook_servicechannel_gate.Registry.Roster.Refined.{run_registry-roster}
use rook_servicechannel_gate.Registry.Links.Types.{IsLinked, get_unique}
use rook_servicechannel_gate.Registry.Links.{HasFreshIds, run_registry-IsLinked, run_registry-links}
use rook_servicechannel_gate.Registry.Shutdown.{Visit, visit, close_each, close_all}
use rook_servicechannel_gate.Registry.Shutdown.Visits.{
  AllValid, Lasts, Settles, IsOver, visit-Settles, run_registry-append,
}

-- The map leads to a session.
abbrev pub IsPresent : Registry → Bytes × ℕ → Type 0
IsPresent r (id, p) = (s : Session) × (get_elem? r.objects p ≡ some s)

IsPresent-run :
    (es : List RegistryEvent) (r : Registry) (e : Bytes × ℕ)
    → IsPresent r e
    → IsPresent (run_registry es r) e
IsPresent-run es r (id, p) (s, found) = (run (events_at p es) s, run_registry-object es r p s found)

module _ (reason : EndReason) (around : ℕ → Visit) where
  -- Each call of `close` returns.
  abbrev pub Returns : List (Bytes × ℕ) → Registry → Type 0
  Returns [] r = Unit
  Returns ((id, p) ∷ m) r =
      Lasts p (around p) r × Returns m (run_registry (visit reason p (around p)) r)

  -- Each of the sessions is over in the end.
  abbrev pub AllSettle : List (Bytes × ℕ) → Registry → Registry → Type 0
  AllSettle [] r q = Unit
  AllSettle ((id, p) ∷ m) r q =
      Settles reason p (around p) r q × AllSettle m (run_registry (visit reason p (around p)) r) q

  close_each-settles :
      (m : List (Bytes × ℕ)) (after : List RegistryEvent) (r : Registry)
      → let q = run_registry after (run_registry (close_each reason around m) r) in
        AllValid q → All (IsPresent r) m → Returns m r → AllSettle m r q
  unfolding close_each
  close_each-settles [] after r valid here returns = tt
  close_each-settles ((id, p) ∷ m) after r valid ((s, found), here) (lasts, returns) =
      let rest = close_each reason around m in
      let r' = run_registry (visit reason p (around p)) r in
      let split = run_registry-append (visit reason p (around p)) rest r in
      let valid' = rw split at valid in
      rw split (
        rw (← run_registry-append rest after r') (
            visit-Settles reason p (around p) (rest ++ after) r s
              (rw (run_registry-append rest after r') valid') found lasts),
        close_each-settles m after r' valid'
            (All-map m (IsPresent-run (visit reason p (around p)) r) here) returns,
      )

live-run : (es : List SessionEvent) (s : Session) → is_live s ≡ false → is_live (run es s) ≡ false
unfolding run
live-run [] s h = h
live-run (e ∷ es) s h = live-run es (step e s) (ground (arith, step-Registers e s))

get_elem?-below {ℓ} :
    {A : Type ℓ} (xs : List A) (i : ℕ) → i < length xs → (a : A) × (get_elem? xs i ≡ some a)
get_elem?-below [] i h = absurd (omega arith)
get_elem?-below (x ∷ xs) zero h = (x, refl)
get_elem?-below (x ∷ xs) (suc i) h = get_elem?-below xs i (omega arith)

AllSettle-lookup :
    (reason : EndReason) (around : ℕ → Visit) (m : List (Bytes × ℕ)) (r q : Registry) (id : Bytes)
    (p : ℕ)
    → AllSettle reason around m r q
    → lookup id m ≡ some p
    → (t : Session) × (get_elem? q.objects p ≡ some t) × IsOver t
unfolding lookup
AllSettle-lookup reason around [] r q id p h e = absurd (ground arith)
AllSettle-lookup reason around ((j, p') ∷ m) r q id p ((s, t, before, there, over, why), h) e =
    elim (Bool-cases (bytes_eq j id)) [
      | inl same ↦ let at : p' ≡ p = ground arith in (t, rw (← at) there, over)
      | inr other ↦
          AllSettle-lookup reason around m (run_registry (visit reason p' (around p')) r) q id p h
            (ground arith)
    ]

-- A session that the copied map leads to is over, so that the map does not lead to it any more; and
-- no other session of that time is registered again.
only_newer :
    (reason : EndReason) (around : ℕ → Visit) (es : List RegistryEvent) (r : Registry)
    → let q = run_registry es r in
      IsLinked r
      → IsLinked q
      → AllSettle reason around r.sessions r q
      → (id : Bytes) (p : ℕ) → lookup id q.sessions ≡ some p
      → length r.objects ≤ p
only_newer reason around es r linked linked' settled id p led = elim (dec_lt p (length r.objects)) [
  | no newer ↦ omega arith
  | yes older ↦
      let (s, found) = get_elem?-below r.objects p older in
      let (t, there, name, live) = linked'.leads id p led in
      let same : t ≡ run (events_at p es) s =
        get_unique _ p t _ there (run_registry-object es r p s found) in
      elim (Bool-cases (is_live s)) [
        | inl lives ↦
            let (u, there', over) =
              AllSettle-lookup reason around r.sessions r (run_registry es r) s.id p settled
                (linked.reaches p s found lives) in
            absurd (ground (arith, get_unique _ p t u there there', over.at_end))
        | inr gone ↦ absurd (ground (arith, live-run (events_at p es) s gone))
      ]
]

entries-lookup :
    (m : List (Bytes × ℕ)) → IsUnique m → All (λ (e : Bytes × ℕ). lookup e.0 m ≡ some e.1) m
unfolding lookup
entries-lookup [] u = tt
entries-lookup ((j, p) ∷ m) (absent, u) = (
  ground (arith, bytes_eq_refl j),
  All-map m (λ e h. ground (arith, bytes_eq_iff j e.0)) (entries-lookup m u),
)

module _ (cs : List RegistryConfig) (past : List RegistryEvent)
    (fresh : HasFreshIds past (new_registry cs)) where
  abbrev now : Registry
  now = run_registry past (new_registry cs)

  sessions-IsPresent : All (IsPresent now) now.sessions
  sessions-IsPresent =
      All-map now.sessions
        (λ e h.
          let (s, found, name, live) = (run_registry-IsLinked cs past fresh).leads e.0 e.1 h in
          (s, found))
        (entries-lookup now.sessions (run_registry-roster cs past).unique)

  -- If no identifier is drawn twice, then whatever other goroutines do before, between and during
  -- its calls of `close`, when each of these has returned `CloseAll` has ended every session that
  -- was registered when it began: its state is closed, the connection of the browser has been closed
  -- once, the console too, and once more where its start gave up, the clean-up hook has been called
  -- once where there is one, and with a sink the end has been recorded once, and the start as far as
  -- `Start` has come; and the reason is the one given unless another close had begun before its
  -- turn, whose reason stays. What the map still leads to was started after `CloseAll` began.
  pub close_all-drains :
      (reason : EndReason) (around : ℕ → Visit)
      → let q = close_all reason around now in
        HasFreshIds (close_each reason around now.sessions) now
        → Returns reason around now.sessions now
        → AllSettle reason around now.sessions now q
          × All (λ (e : Bytes × ℕ). length now.objects ≤ e.1) q.sessions
  unfolding close_all run_registry
  close_all-drains reason around fresh' returns =
      let es = close_each reason around now.sessions in
      let q = run_registry es now in
      let both : run_registry (past ++ es) (new_registry cs) ≡ q =
        run_registry-append past es (new_registry cs) in
      let valid : AllValid q = λ p s h. run_registry-IsValid cs (past ++ es) p s (rw both h) in
      let settled =
        close_each-settles reason around now.sessions [] now valid sessions-IsPresent returns in
      let linked = run_registry-IsLinked cs past fresh in
      (
        settled,
        All-map q.sessions
            (λ e.
              only_newer reason around es now linked (run_registry-links es now linked fresh')
                settled e.0 e.1)
            (entries-lookup q.sessions (rw both at ((run_registry-roster cs (past ++ es)).unique))),
      )
