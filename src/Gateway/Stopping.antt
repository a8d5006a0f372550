-- ===== src/Gateway/Stopping.antt =====
-- What the program leaves when it is stopped.
use rook_servicechannel_gate.Base.{
  ℕ, ◌≤◌, ◌≡◌, Option, some, ◌∷◌, length, get_elem?, All, is_some, if◌then◌else◌,
}
use rook_servicechannel_gate.Base.Text.{Bytes}
use rook_servicechannel_gate.Websocket.Errors.{Failure}
use rook_servicechannel_gate.Config.Types.{Config}
use rook_servicechannel_gate.Session.{server_shutdown, Session}
use rook_servicechannel_gate.Registry.{Registry}
use rook_servicechannel_gate.Registry.Step.{run_registry}
use rook_servicechannel_gate.Registry.Told.{EndsOnRecord}
use rook_servicechannel_gate.Registry.Shutdown.Drained.{AllSettle}
use rook_servicechannel_gate.Server.Serve.{new_session_registry}
use rook_servicechannel_gate.Gateway.{
  World, Gateway, RunEnd, ends, exit_status, starting_line, parting_lines,
}

-- The registry when the signal comes.
abbrev pub at_signal : World → Config → Registry
at_signal w c = run_registry w.events (new_session_registry c)

-- `logEnd` and the audit sink have told of the end of the session behind the pointer.
abbrev pub IsOnRecord : Registry → Bytes × ℕ → Type 0
IsOnRecord q (id, p) = (t : Session) × (get_elem? q.objects p ≡ some t) × EndsOnRecord t

-- The program has ended with this error, having closed what was registered when the signal came.
abbrev pub Drains : World → Config → Option Failure → RunEnd → Type 0
Drains w c error end_of_run =
    (g : Gateway) × (end_of_run ≡ ends g error)
    × (exit_status end_of_run ≡ (if is_some error then 1 else 0))
    × (g.log ≡ starting_line c ∷ parting_lines error)
    × AllSettle server_shutdown w.around (at_signal w c).sessions (at_signal w c) g.registry
    × All (IsOnRecord g.registry) (at_signal w c).sessions
    × All (λ (e : Bytes × ℕ). length (at_signal w c).objects ≤ e.1) g.registry.sessions
