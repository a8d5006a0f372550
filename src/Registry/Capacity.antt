-- ===== src/Registry/Capacity.antt =====
-- How many sessions the registry of internal/session/manager.go holds.
use rook_servicechannel_gate.Base.{
  ℕ, ◌≤◌, ◌<◌, ◌≡◌, refl, List, [], ◌∷◌, length, arith, get_elem?, Option-cases, inl, inr,
}
use rook_servicechannel_gate.Base.Dict.{length-put_le, length-delete_le}
use rook_servicechannel_gate.Base.Int.{pos_part, neg_part}
use rook_servicechannel_gate.Base.Text.{Bytes}
use rook_servicechannel_gate.Session.Step.{SessionEvent}
use rook_servicechannel_gate.Registry.Types.{
  RegistryConfig, Registry, effective, new_registry, count, at_capacity, record_rejection,
}
use rook_servicechannel_gate.Registry.Start.{StartRequest, admit, commit}
use rook_servicechannel_gate.Registry.Step.{
  RegistryEvent, admits, commits, acts, act, apply, run_registry,
}

-- Within the limit, which is the one of the first configuration `c`.
pub record IsWithin (c : RegistryConfig) (r : Registry) : Type 0 where
  pub same_cfg : r.cfg ≡ c
  pub within : count r ≤ pos_part c.max_concurrent

pub effective-positive :
    (cs : List RegistryConfig)
    → neg_part (effective cs).max_concurrent < pos_part (effective cs).max_concurrent
unfolding effective
effective-positive [] = ground arith
effective-positive (c ∷ cs) = ground arith

pub record_rejection-same :
    (ip : Bytes) (r : Registry)
    → ((record_rejection ip r).cfg ≡ r.cfg) × ((record_rejection ip r).sessions ≡ r.sessions)
unfolding record_rejection
record_rejection-same ip r = ground arith

admit-IsWithin :
    (c : RegistryConfig) (request : StartRequest) (r : Registry)
    → IsWithin c r
    → IsWithin c (admit request r).0
unfolding admit count
admit-IsWithin c request r w = ground (arith, record_rejection-same request.grant.ip_address r)

commit-IsWithin :
    (c : RegistryConfig) (now : ℕ) (id : Bytes) (request : StartRequest) (r : Registry)
    → neg_part c.max_concurrent < pos_part c.max_concurrent
    → IsWithin c r
    → IsWithin c (commit now id request r).0
unfolding commit count at_capacity
commit-IsWithin c now id request r h w = ground (
  arith,
  record_rejection-same request.grant.ip_address r,
  length-put_le id (length r.objects) r.sessions,
)

act-IsWithin :
    (c : RegistryConfig) (p : ℕ) (e : SessionEvent) (r : Registry)
    → IsWithin c r
    → IsWithin c (act p e r)
unfolding act count
act-IsWithin c p e r w = elim (Option-cases (get_elem? r.objects p)) [
  | inl missing ↦ ground arith
  | inr (s, found) ↦ ground (arith, length-delete_le s.id r.sessions)
]

apply-IsWithin :
    (c : RegistryConfig) (e : RegistryEvent) (r : Registry)
    → neg_part c.max_concurrent < pos_part c.max_concurrent
    → IsWithin c r
    → IsWithin c (apply e r)
unfolding apply
apply-IsWithin c (admits request) r h w = admit-IsWithin c request r w
apply-IsWithin c (commits now id request) r h w = commit-IsWithin c now id request r h w
apply-IsWithin c (acts p e) r h w = act-IsWithin c p e r w

run_registry-IsWithin :
    (c : RegistryConfig) (es : List RegistryEvent) (r : Registry)
    → neg_part c.max_concurrent < pos_part c.max_concurrent
    → IsWithin c r
    → IsWithin c (run_registry es r)
unfolding run_registry
run_registry-IsWithin c [] r h w = w
run_registry-IsWithin c (e ∷ es) r h w =
    run_registry-IsWithin c es (apply e r) h (apply-IsWithin c e r h w)

-- From a new registry on, whatever starts and sessions interleave, the number of registered sessions
-- stays within the limit in effect.
pub count-run_registry_le :
    (cs : List RegistryConfig) (es : List RegistryEvent)
    → count (run_registry es (new_registry cs)) ≤ pos_part (effective cs).max_concurrent
count-run_registry_le cs es =
    (run_registry-IsWithin (effective cs) es (new_registry cs) (effective-positive cs) fresh).within
  where
    fresh : IsWithin (effective cs) (new_registry cs)
    fresh = unfold new_registry count in record { same_cfg = refl; within = omega arith }
