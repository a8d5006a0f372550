-- ===== src/Audit.antt =====
-- internal/audit/logger.go: the sink that writes each event as a line of the log. The loggers and the
-- default one are those of log/slog.
use rook_servicechannel_gate.Base.{Option, none, some, List, [], ◌∷◌, ◌≡◌, refl}
use rook_servicechannel_gate.Base.Text.{Bytes, text}
use rook_servicechannel_gate.Config.Types.{Level, info}
use rook_servicechannel_gate.Session.{FieldValue, AuditEvent}

pub record LoggerSink {ℓ} (Logger : Type ℓ) : Type ℓ where
  pub logger : Option Logger

-- A call of `InfoContext` on a logger: the level and the message, and the attributes `event`,
-- `sessionID` and `fields`.
pub record AuditLine {ℓ} (Logger : Type ℓ) : Type ℓ where
  pub logger : Logger
  pub level : Level
  pub message : Bytes
  pub event : Bytes
  pub session_id : Bytes
  pub fields : List (Bytes × FieldValue)

-- `none` stands for a nil pointer.
abbrev pub logger_or_default {ℓ} : {Logger : Type ℓ} → Logger → Option Logger → Logger
logger_or_default default none = default
logger_or_default default (some l) = l

unfoldable pub new_logger_sink {ℓ} : {Logger : Type ℓ} → Logger → Option Logger → LoggerSink Logger
new_logger_sink default l = record { logger = some (logger_or_default default l) }

abbrev pub audit_line {ℓ} : {Logger : Type ℓ} → Logger → AuditEvent → AuditLine Logger
audit_line l e = record {
  logger = l;
  level = info;
  message = text "audit event";
  event = e.name;
  session_id = e.session;
  fields = e.fields;
}

recorded_by {ℓ} : {Logger : Type ℓ} → Option Logger → AuditEvent → List (AuditLine Logger)
recorded_by none e = []
recorded_by (some l) e = audit_line l e ∷ []

-- The calls that `Record` makes. The error that it returns is always nil.
unfoldable pub record_event {ℓ} :
    {Logger : Type ℓ} → Option (LoggerSink Logger) → AuditEvent → List (AuditLine Logger)
unfolding recorded_by
record_event none e = []
record_event (some s) e = recorded_by s.logger e

pub record_event-new_logger_sink {ℓ} :
    {Logger : Type ℓ} (default : Logger) (l : Option Logger) (e : AuditEvent)
    → record_event (some (new_logger_sink default l)) e
      ≡ audit_line (logger_or_default default l) e ∷ []
unfolding record_event recorded_by new_logger_sink
record_event-new_logger_sink default l e = refl
