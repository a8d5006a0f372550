-- ===== src/Registry/Types.antt =====
-- `RegistryConfig`, `Registry`, `NewRegistry` and the queries of internal/session/manager.go.
use rook_servicechannel_gate.Base.{
  ℕ, Bool, false, not, ◌&&◌, List, [], ◌∷◌, ◌++◌, length, if◌then◌else◌,
}
use rook_servicechannel_gate.Base.Int.{ℤ, pos, is_nonpos, leb_ℤ}
use rook_servicechannel_gate.Base.Text.{Bytes, text}
use rook_servicechannel_gate.Session.{
  session_limit, reason_text, words, number, AuditEvent, Session,
}

-- Durations count nanoseconds.
pub record RegistryConfig : Type 0 where
  pub keepalive_interval : ℤ
  pub keepalive_timeout : ℤ
  pub max_concurrent : ℤ
  pub outbound_queue_depth : ℤ
  pub audit_sink : Bool

pub record Registry : Type 0 where
  pub sessions : List (Bytes × ℕ)
  pub cfg : RegistryConfig
  pub objects : List Session
  -- The events of `recordRegistryEvent` that reached the sink.
  pub events : List AuditEvent

abbrev default_outbound_queue_size : ℤ
default_outbound_queue_size = pos 16

abbrev default_keepalive_interval : ℤ
default_keepalive_interval = pos 30000000000

abbrev default_keepalive_timeout : ℤ
default_keepalive_timeout = pos 75000000000

abbrev default_max_concurrent : ℤ
default_max_concurrent = pos 32

abbrev pub default_config : RegistryConfig
default_config = record {
  keepalive_interval = default_keepalive_interval;
  keepalive_timeout = default_keepalive_timeout;
  max_concurrent = default_max_concurrent;
  outbound_queue_depth = default_outbound_queue_size;
  audit_sink = false;
}

abbrev positive_or : ℤ → ℤ → ℤ
positive_or given default = if is_nonpos given then default else given

unfoldable pub effective : List RegistryConfig → RegistryConfig
effective [] = default_config
effective (c ∷ cs) = record {
  keepalive_interval = positive_or c.keepalive_interval default_config.keepalive_interval;
  keepalive_timeout = positive_or c.keepalive_timeout default_config.keepalive_timeout;
  max_concurrent = positive_or c.max_concurrent default_config.max_concurrent;
  outbound_queue_depth = positive_or c.outbound_queue_depth default_config.outbound_queue_depth;
  audit_sink = c.audit_sink;
}

unfoldable pub new_registry : List RegistryConfig → Registry
unfolding effective
new_registry configs = record { sessions = []; cfg = effective configs; objects = []; events = [] }

unfoldable pub count : Registry → ℕ
count r = length r.sessions

-- `isAtCapacityLocked`
unfoldable pub at_capacity : Registry → Bool
unfolding count
at_capacity r = not (is_nonpos r.cfg.max_concurrent) && leb_ℤ r.cfg.max_concurrent (pos (count r))

-- The event "session_rejected" that `Start` records at the limit.
rejection : Bytes → Registry → AuditEvent
unfolding text
rejection ip r = record {
  name = text "session_rejected";
  session = [];
  fields =
      (text "reason", words (reason_text session_limit))
      ∷ (text "ipAddress", words ip)
      ∷ (text "maxConcurrent", number r.cfg.max_concurrent)
      ∷ [];
}

unfoldable pub record_rejection : Bytes → Registry → Registry
unfolding rejection
record_rejection ip r =
    if r.cfg.audit_sink then record r { events = r.events ++ rejection ip r ∷ [] } else r
