-- ===== src/Registry/Shutdown.antt =====
-- `CloseAll` of internal/session/manager.go among the other goroutines.
pub mod Visits
pub mod Drained
use rook_servicechannel_gate.Base.{ℕ, List, [], ◌∷◌, ◌++◌}
use rook_servicechannel_gate.Base.Text.{Bytes}
use rook_servicechannel_gate.Session.{EndReason, reason_text, close_going_away}
use rook_servicechannel_gate.Session.Step.{closes}
use rook_servicechannel_gate.Registry.Types.{Registry}
use rook_servicechannel_gate.Registry.Step.{RegistryEvent, acts, run_registry}

-- What happens between the last call of `close` and this one, the time of this one, and what happens
-- until it returns. The parts of the body of `closeOnce` are among these events, whether the call runs
-- the body or waits for the goroutine that does.
pub record Visit : Type 0 where
  pub before : List RegistryEvent
  pub now : ℕ
  pub during : List RegistryEvent

-- `current.close(reason, gws.CloseGoingAway, string(reason))`
unfoldable pub visit : EndReason → ℕ → Visit → List RegistryEvent
visit reason p v =
    v.before ++ (acts p (closes v.now reason close_going_away (reason_text reason)) ∷ v.during)

-- The calls for the sessions of the copied map, one after the other.
unfoldable pub close_each : EndReason → (ℕ → Visit) → List (Bytes × ℕ) → List RegistryEvent
unfolding visit
close_each reason around [] = []
close_each reason around ((id, p) ∷ m) = visit reason p (around p) ++ close_each reason around m

-- `CloseAll`, where `around` says what other goroutines do around the call for each session.
unfoldable pub close_all : EndReason → (ℕ → Visit) → Registry → Registry
unfolding close_each
close_all reason around r = run_registry (close_each reason around r.sessions) r
