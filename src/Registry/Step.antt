-- ===== src/Registry/Step.antt =====
-- The registry as a state machine over all its sessions: an event is the locked part of some `Start`
-- or a step of one session, in any interleaving.
use rook_servicechannel_gate.Base.{ℕ, none, some, List, [], ◌∷◌, get_elem?, set, if◌then◌else◌}
use rook_servicechannel_gate.Base.Dict.{delete}
use rook_servicechannel_gate.Base.Text.{Bytes}
use rook_servicechannel_gate.Session.Step.{SessionEvent, step, deletes}
use rook_servicechannel_gate.Registry.Types.{Registry}
use rook_servicechannel_gate.Registry.Start.{StartRequest, admit, commit}

pub data RegistryEvent : Type 0 where
  admits : StartRequest → RegistryEvent
  commits : ℕ → Bytes → StartRequest → RegistryEvent
  acts : ℕ → SessionEvent → RegistryEvent

unfoldable pub act : ℕ → SessionEvent → Registry → Registry
act p e r = elim (get_elem? r.objects p) [
  | none ↦ r
  | some s ↦ record r {
    objects = set r.objects p (step e s);
    sessions = if deletes e s then delete s.id r.sessions else r.sessions;
  }
]

unfoldable pub apply : RegistryEvent → Registry → Registry
unfolding act
apply (admits request) r = (admit request r).0
apply (commits now id request) r = (commit now id request r).0
apply (acts p e) r = act p e r

unfoldable pub run_registry : List RegistryEvent → Registry → Registry
run_registry [] r = r
run_registry (e ∷ es) r = run_registry es (apply e r)
