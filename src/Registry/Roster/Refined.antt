-- ===== src/Registry/Roster/Refined.antt =====
-- The registry of internal/session/manager.go against the bounded set of Roster.
use rook_servicechannel_gate.Base.{
  ℕ, suc, ◌-◌, ◌≤◌, ◌<◌, ◌≡◌, ◌↔◌, refl, true, false, not, ◌&&◌, ◌||◌, none, List, [], ◌∷◌, length,
  arith, get_elem?, ltb, is_some, Option-cases, Bool-cases, inl, inr, if◌then◌else◌,
}
use rook_servicechannel_gate.Base.Dict.{
  lookup, put, delete, lookup-put, lookup-delete, IsUnique, put-IsUnique, delete-IsUnique,
  length-put_absent, length-put_present, length-delete_absent, length-delete_present,
}
use rook_servicechannel_gate.Base.Int.{pos_part, neg_part}
use rook_servicechannel_gate.Base.Text.{Bytes, bytes_eq}
use rook_servicechannel_gate.Session.Step.{SessionEvent, deletes}
use rook_servicechannel_gate.Registry.Types.{
  RegistryConfig, Registry, effective, new_registry, count, at_capacity, record_rejection,
}
use rook_servicechannel_gate.Registry.Start.{StartRequest, admit, commit}
use rook_servicechannel_gate.Registry.Projected.{apply-cfg}
use rook_servicechannel_gate.Registry.Step.{
  RegistryEvent, admits, commits, acts, act, apply, run_registry,
}
use rook_servicechannel_gate.Registry.Capacity.{effective-positive}
use rook_servicechannel_gate.Registry.Roster.{
  Roster, enters, empty, roster_step, roster_run, observed, history, Implements,
}

-- The limit of the registry.
record HasLimit (limit : ℕ) (r : Registry) : Type 0 where
  positive : neg_part r.cfg.max_concurrent < pos_part r.cfg.max_concurrent
  is_limit : pos_part r.cfg.max_concurrent ≡ limit

at_capacity-full :
    (limit : ℕ) (r : Registry) → HasLimit limit r → at_capacity r ≡ not (ltb (count r) limit)
unfolding at_capacity
at_capacity-full limit r h = ground arith

put-Implements :
    (id : Bytes) (p : ℕ) (m : List (Bytes × ℕ)) (v : Roster)
    → IsUnique m
    → ((j : Bytes) → is_some (lookup j m) ≡ v.holds j)
    → length m ≡ v.size
    → length (put id p m) ≡ (if v.holds id then v.size else suc v.size)
put-Implements id p m v u same size = elim (Option-cases (lookup id m)) [
  | inl absent ↦ ground (arith, length-put_absent id p m absent, same id)
  | inr (q, present) ↦ ground (arith, length-put_present id p q m present, same id)
]

delete-Implements :
    (id : Bytes) (m : List (Bytes × ℕ)) (v : Roster)
    → IsUnique m
    → ((j : Bytes) → is_some (lookup j m) ≡ v.holds j)
    → length m ≡ v.size
    → length (delete id m) ≡ (if v.holds id then v.size - 1 else v.size)
delete-Implements id m v u same size = elim (Option-cases (lookup id m)) [
  | inl absent ↦ ground (arith, length-delete_absent id m absent, same id)
  | inr (q, present) ↦ ground (arith, length-delete_present id q m u present, same id)
]

record_rejection-Implements :
    (ip : Bytes) (r : Registry) (v : Roster) → Implements r v → Implements (record_rejection ip r) v
unfolding record_rejection count
record_rejection-Implements ip r v i = ground arith

admit-Implements :
    (request : StartRequest) (r : Registry) (v : Roster)
    → Implements r v
    → Implements (admit request r).0 v
unfolding admit
admit-Implements request r v i =
    ground (arith, record_rejection-Implements request.grant.ip_address r v i)

-- The first entry of an identifier, and what the others are.
enters-holds :
    (id : Bytes) (p : ℕ) (m : List (Bytes × ℕ)) (v : Roster) (j : Bytes)
    → is_some (lookup j m) ≡ v.holds j
    → is_some (lookup j (put id p m)) ≡ (bytes_eq id j || v.holds j)
enters-holds id p m v j h = ground (arith, lookup-put id j p m)

leaves-holds :
    (id : Bytes) (m : List (Bytes × ℕ)) (v : Roster) (j : Bytes)
    → is_some (lookup j m) ≡ v.holds j
    → is_some (lookup j (delete id m)) ≡ (not (bytes_eq id j) && v.holds j)
leaves-holds id m v j h = ground (arith, lookup-delete id j m)

commit-Implements :
    (limit now : ℕ) (id : Bytes) (request : StartRequest) (r : Registry) (v : Roster)
    → HasLimit limit r
    → Implements r v
    → Implements (commit now id request r).0 (roster_step limit (enters id) v)
unfolding commit count
commit-Implements limit now id request r v h i = elim (Bool-cases (ltb v.size limit)) [
  | inl room ↦
      let free : at_capacity r ≡ false = ground (arith, at_capacity-full limit r h, i.same_size) in
      simp (free, room)
        (record {
          unique = put-IsUnique id (length r.objects) r.sessions i.unique;
          same_ids = λ j. enters-holds id (length r.objects) r.sessions v j (i.same_ids j);
          same_size =
              put-Implements id (length r.objects) r.sessions v i.unique i.same_ids (i.same_size);
        })
  | inr full ↦
      let no_room : at_capacity r ≡ true =
        ground (arith, at_capacity-full limit r h, i.same_size) in
      simp (no_room, full) (record_rejection-Implements request.grant.ip_address r v i)
]

act-Implements :
    (limit p : ℕ) (e : SessionEvent) (r : Registry) (v : Roster)
    → Implements r v
    → Implements (act p e r) (roster_step limit (observed (acts p e) r) v)
unfolding act count
act-Implements limit p e r v i = elim (Option-cases (get_elem? r.objects p)) [
  | inl missing ↦ rw (act, roster_step, missing) i
  | inr (s, found) ↦ elim (Bool-cases (deletes e s)) [
    | inl gone ↦
        rw (act, roster_step, found, gone)
          (record {
            unique = delete-IsUnique s.id r.sessions i.unique;
            same_ids = λ j. leaves-holds s.id r.sessions v j (i.same_ids j);
            same_size = delete-Implements s.id r.sessions v i.unique i.same_ids (i.same_size);
          })
    | inr stays ↦
        rw (act, roster_step, found, stays)
          (record { unique = i.unique; same_ids = i.same_ids; same_size = i.same_size })
  ]
]

apply-Implements :
    (limit : ℕ) (e : RegistryEvent) (r : Registry) (v : Roster)
    → HasLimit limit r
    → Implements r v
    → Implements (apply e r) (roster_step limit (observed e r) v)
unfolding apply
apply-Implements limit (admits request) r v h i = admit-Implements request r v i
apply-Implements limit (commits now id request) r v h i =
    commit-Implements limit now id request r v h i
apply-Implements limit (acts p e) r v h i = act-Implements limit p e r v i

apply-HasLimit :
    (limit : ℕ) (e : RegistryEvent) (r : Registry) → HasLimit limit r → HasLimit limit (apply e r)
apply-HasLimit limit e r h =
    let same = apply-cfg e r in
    record { positive = rw same h.positive; is_limit = rw same h.is_limit }

run_registry-HasLimit :
    (limit : ℕ) (es : List RegistryEvent) (r : Registry)
    → HasLimit limit r
    → HasLimit limit (run_registry es r)
unfolding run_registry
run_registry-HasLimit limit [] r h = h
run_registry-HasLimit limit (e ∷ es) r h =
    run_registry-HasLimit limit es (apply e r) (apply-HasLimit limit e r h)

run_registry-simulates :
    (limit : ℕ) (es : List RegistryEvent) (r : Registry) (v : Roster)
    → HasLimit limit r
    → Implements r v
    → Implements (run_registry es r) (roster_run limit (history es r) v)
unfolding run_registry
run_registry-simulates limit [] r v h i = i
run_registry-simulates limit (e ∷ es) r v h i =
    run_registry-simulates limit es (apply e r) (roster_step limit (observed e r) v)
      (apply-HasLimit limit e r h) (apply-Implements limit e r v h i)

commit-refuses :
    (limit now : ℕ) (id : Bytes) (request : StartRequest) (r : Registry) (v : Roster)
    → HasLimit limit r
    → Implements r v
    → ((commit now id request r).1 ≡ none) ↔ (limit ≤ v.size)
unfolding commit
commit-refuses limit now id request r v h i =
    ground (arith, at_capacity-full limit r h, i.same_size)

new_registry-HasLimit :
    (cs : List RegistryConfig) → HasLimit (pos_part (effective cs).max_concurrent) (new_registry cs)
unfolding new_registry
new_registry-HasLimit cs = record { positive = effective-positive cs; is_limit = refl }

pub run_registry-roster :
    (cs : List RegistryConfig) (es : List RegistryEvent)
    → let limit = pos_part (effective cs).max_concurrent in
      Implements
        (run_registry es (new_registry cs))
        (roster_run limit (history es (new_registry cs)) empty)
run_registry-roster cs es =
    run_registry-simulates (pos_part (effective cs).max_concurrent) es (new_registry cs) empty
      (new_registry-HasLimit cs) none_yet
  where
    none_yet : Implements (new_registry cs) empty
    none_yet =
        unfold new_registry count lookup in
        record { unique = tt; same_ids = λ j. refl; same_size = refl }

-- In every history the registry behaves as a set of at most as many identifiers as the limit in effect:
-- a start that reaches its locked part enters its identifier, and is refused exactly when the set is
-- full; the step of a session that deletes it leaves the set; and nothing else changes the set. The
-- registry finds exactly the identifiers in the set, and `Count` is its size.
pub run_registry-Implements :
    (cs : List RegistryConfig) (es : List RegistryEvent) (now : ℕ) (id : Bytes)
    (request : StartRequest)
    → let limit = pos_part (effective cs).max_concurrent in
      let r = run_registry es (new_registry cs) in
      let v = roster_run limit (history es (new_registry cs)) empty in
      Implements r v × (((commit now id request r).1 ≡ none) ↔ (limit ≤ v.size))
run_registry-Implements cs es now id request =
    let limit = pos_part (effective cs).max_concurrent in
    let same = run_registry-roster cs es in
    let still = run_registry-HasLimit limit es (new_registry cs) (new_registry-HasLimit cs) in
    (same, commit-refuses limit now id request _ _ still same)
