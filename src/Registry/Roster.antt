-- ===== src/Registry/Roster.antt =====
-- What the registry of internal/session/manager.go promises its clients: a set of identifiers of
-- bounded size. Pointers, sessions and the order of the map are forgotten.
pub mod Refined
use rook_servicechannel_gate.Base.{
  ℕ, suc, ◌-◌, ◌≤◌, ◌<◌, ◌≡◌, ◌↔◌, refl, Bool, true, false, not, ◌&&◌, ◌||◌, Option, none, some,
  List, [], ◌∷◌, length, arith, get_elem?, ltb, is_some, Option-cases, Bool-cases, inl, inr,
  if◌then◌else◌,
}
use rook_servicechannel_gate.Base.Dict.{
  lookup, put, delete, lookup-put, lookup-delete, IsUnique, put-IsUnique, delete-IsUnique,
  length-put_absent, length-put_present, length-delete_absent, length-delete_present,
}
use rook_servicechannel_gate.Base.Int.{pos_part, neg_part}
use rook_servicechannel_gate.Base.Text.{Bytes, bytes_eq, bytes_eq_iff}
use rook_servicechannel_gate.Session.{Session}
use rook_servicechannel_gate.Session.Step.{SessionEvent, deletes}
use rook_servicechannel_gate.Registry.Types.{
  RegistryConfig, Registry, effective, new_registry, count, at_capacity, record_rejection,
}
use rook_servicechannel_gate.Registry.Start.{StartRequest, admit, commit}
use rook_servicechannel_gate.Registry.Step.{
  RegistryEvent, admits, commits, acts, act, apply, run_registry,
}
use rook_servicechannel_gate.Registry.Capacity.{effective-positive, record_rejection-same}

-- A set of identifiers and its size.
pub record Roster : Type 0 where
  pub holds : Bytes → Bool
  pub size : ℕ

pub data RosterEvent : Type 0 where
  enters leaves : Bytes → RosterEvent
  idles : RosterEvent

abbrev pub empty : Roster
empty = record { holds = λ j. false; size = 0 }

-- A full set takes no one in, and no one is in it twice.
abbrev pub roster_step : ℕ → RosterEvent → Roster → Roster
roster_step limit (enters id) v =
    if ltb v.size limit
    then record {
      holds = λ j. bytes_eq id j || v.holds j;
      size = if v.holds id then v.size else suc v.size;
    }
    else v
roster_step limit (leaves id) v = record {
  holds = λ j. not (bytes_eq id j) && v.holds j;
  size = if v.holds id then v.size - 1 else v.size;
}
roster_step limit idles v = v

abbrev pub roster_run : ℕ → List RosterEvent → Roster → Roster
roster_run limit [] v = v
roster_run limit (e ∷ es) v = roster_run limit es (roster_step limit e v)

-- What an event is for the set of identifiers: a start enters at its locked part, and a session leaves
-- where its close or its abandoned start deletes it.
abbrev pub observed : RegistryEvent → Registry → RosterEvent
observed (admits request) r = idles
observed (commits now id request) r = enters id
observed (acts p e) r = elim (get_elem? r.objects p) [
  | none ↦ idles
  | some s ↦ (if deletes e s then leaves s.id else idles)
]

abbrev pub history : List RegistryEvent → Registry → List RosterEvent
history [] r = []
history (e ∷ es) r = observed e r ∷ history es (apply e r)

-- The registry has the identifiers of the set, and as many.
pub record Implements (r : Registry) (v : Roster) : Type 0 where
  pub unique : IsUnique r.sessions
  pub same_ids : (j : Bytes) → is_some (lookup j r.sessions) ≡ v.holds j
  pub same_size : count r ≡ v.size
