-- ===== src/Server/Told.antt =====
-- What the log is told of the sessions of the server: internal/httpserver/server.go gives the registry
-- the sink of internal/audit/logger.go.
use rook_servicechannel_gate.Base.{
  ℕ, ◌≡◌, refl, Option, some, List, [], ◌∷◌, ◌++◌, get_elem?, Pair, ◌⊎◌,
}
use rook_servicechannel_gate.Config.Types.{Config}
use rook_servicechannel_gate.Audit.{
  AuditLine, logger_or_default, audit_line, new_logger_sink, record_event,
}
use rook_servicechannel_gate.Session.{AuditEvent, Session, finished}
use rook_servicechannel_gate.Session.Told.{OpensLine, OpensEvent, TellsLine, TellsEvent}
use rook_servicechannel_gate.Registry.{effective}
use rook_servicechannel_gate.Registry.Step.{RegistryEvent, run_registry}
use rook_servicechannel_gate.Registry.Told.{EndsOnRecord, run_registry-EndsOnRecord}
use rook_servicechannel_gate.Server.Serve.{session_config, new_session_registry}

pub new_session_registry-EndsOnRecord :
    (c : Config) (es : List RegistryEvent) (p : ℕ) (s : Session)
    → get_elem? (run_registry es (new_session_registry c)).objects p ≡ some s
    → s.stage ≡ finished
    → EndsOnRecord s
unfolding new_session_registry effective session_config
new_session_registry-EndsOnRecord c es p s found over =
    run_registry-EndsOnRecord (session_config c ∷ []) es p s refl found over

module _ {ℓ} {Logger : Type ℓ} (default : Logger) (logger : Option Logger) where
  -- What the sink of the server writes for the events.
  unfoldable pub written : List AuditEvent → List (AuditLine Logger)
  written [] = []
  written (e ∷ es) = record_event (some (new_logger_sink default logger)) e ++ written es

  -- One line of `logStart` and one of `logEnd`, and one line of the server's sink for the event of the
  -- start and one for that of the end; those of the end may come before those of the start.
  abbrev pub IsWritten : Session → Type ℓ
  IsWritten s =
      let l = logger_or_default default logger in
      Pair (OpensLine s) (TellsLine s) s.log
      × ((e f : AuditEvent) × ((written s.audit ≡ audit_line l e ∷ audit_line l f ∷ [])
            ⊎ (written s.audit ≡ audit_line l f ∷ audit_line l e ∷ []))
          × OpensEvent s e
          × TellsEvent s f)
