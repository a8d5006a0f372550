-- ===== src/Registry/Links.antt =====
-- What the map of the registry of internal/session/manager.go leads to.
pub mod Types
mod Added
mod Acted
use native.Mathlib.Decide.{ℕ_discrete}
use rook_servicechannel_gate.Base.{
  ℕ, ◌≡◌, ◌≢◌, refl, sym, ◌∙◌, ap, Bool, true, false, Option, none, some, List, [], ◌∷◌, ◌++◌,
  length, arith, get_elem?, set, get_elem?-set_self, get_elem?-set_ne, get_elem?-append_last,
  get_elem?-append_cases, get_elem?-append_old, Option-cases, Bool-cases, inl, inr, ◌⊎◌,
  if◌then◌else◌,
}
use rook_servicechannel_gate.Base.Dict.{lookup, put, delete, lookup-put, lookup-delete}
use rook_servicechannel_gate.Base.Text.{Bytes, bytes_eq, bytes_eq_iff}
use rook_servicechannel_gate.Session.{Session}
use rook_servicechannel_gate.Session.Step.{SessionEvent, step, deletes}
use rook_servicechannel_gate.Session.Rounds.{is_live}
use rook_servicechannel_gate.Session.Ending.{Registers, step-Registers}
use rook_servicechannel_gate.Registry.Types.{
  RegistryConfig, Registry, new_registry, at_capacity, record_rejection,
}
use rook_servicechannel_gate.Registry.Start.{StartRequest, published, admit, commit}
use rook_servicechannel_gate.Registry.Step.{
  RegistryEvent, admits, commits, acts, act, apply, run_registry,
}
use rook_servicechannel_gate.Registry.Links.Types.{IsLinked, IsFresh, get_unique, IsLinked-same}
use rook_servicechannel_gate.Registry.Links.Added.{added-IsLinked}
use rook_servicechannel_gate.Registry.Links.Acted.{acted, acted-IsLinked}

announced_fields :
    (now : ℕ) (id : Bytes) (request : StartRequest) (r : Registry)
    → ((published now id request r).id ≡ id) × (is_live (published now id request r) ≡ true)
unfolding published
announced_fields now id request r = ground arith

record_rejection-IsLinked :
    (ip : Bytes) (r : Registry) → IsLinked r → IsLinked (record_rejection ip r)
unfolding record_rejection
record_rejection-IsLinked ip r l = IsLinked-same r _ (ground arith) (ground arith) l

admit-IsLinked : (request : StartRequest) (r : Registry) → IsLinked r → IsLinked (admit request r).0
unfolding admit record_rejection
admit-IsLinked request r l = IsLinked-same r _ (ground arith) (ground arith) l

commit-IsLinked :
    (now : ℕ) (id : Bytes) (request : StartRequest) (r : Registry)
    → IsFresh id r
    → IsLinked r
    → IsLinked (commit now id request r).0
unfolding commit
commit-IsLinked now id request r fresh l =
    let (named, live) = announced_fields now id request r in
    elim (Bool-cases (at_capacity r)) [
      | inl full ↦ rw full (record_rejection-IsLinked request.grant.ip_address r l)
      | inr room ↦ rw room (added-IsLinked r l id (published now id request r) named live fresh)
    ]

act-IsLinked : (p : ℕ) (e : SessionEvent) (r : Registry) → IsLinked r → IsLinked (act p e r)
unfolding act
act-IsLinked p e r l = elim (Option-cases (get_elem? r.objects p)) [
  | inl missing ↦ IsLinked-same r _ (ground arith) (ground arith) l
  | inr (s, found) ↦
      IsLinked-same (acted r l p e s found) _ (ground arith) (ground arith)
        (acted-IsLinked r l p e s found)
]

abbrev pub HasFreshIds : List RegistryEvent → Registry → Type 0
HasFreshIds [] r = Unit
HasFreshIds (commits now id request ∷ es) r =
    IsFresh id r × HasFreshIds es (apply (commits now id request) r)
HasFreshIds (e ∷ es) r = HasFreshIds es (apply e r)

pub run_registry-links :
    (es : List RegistryEvent) (r : Registry)
    → IsLinked r
    → HasFreshIds es r
    → IsLinked (run_registry es r)
unfolding run_registry
run_registry-links [] r l h = l
run_registry-links (commits now id request ∷ es) r l (fresh, h) =
    run_registry-links es (apply (commits now id request) r)
      (unfold apply in commit-IsLinked now id request r fresh l) h
run_registry-links (admits request ∷ es) r l h =
    run_registry-links es (apply (admits request) r) (unfold apply in admit-IsLinked request r l) h
run_registry-links (acts p e ∷ es) r l h =
    run_registry-links es (apply (acts p e) r) (unfold apply in act-IsLinked p e r l) h

-- In every history with fresh identifiers the map of the registry holds the identifier of a session,
-- with its pointer, as long as the session is neither abandoned by `Start` nor past the step of its
-- close that unregisters it; it leads to no other session; and no two sessions share an identifier.
pub run_registry-IsLinked :
    (cs : List RegistryConfig) (es : List RegistryEvent)
    → HasFreshIds es (new_registry cs)
    → IsLinked (run_registry es (new_registry cs))
run_registry-IsLinked cs es h = run_registry-links es (new_registry cs) empty h
  where
    empty : IsLinked (new_registry cs)
    empty =
        unfold new_registry lookup in
        record {
          reaches = λ p s e l. cc;
          leads = λ id p e. absurd (cc);
          distinct = λ p q s t e f same. cc;
        }
