-- ===== src/Session/Log.antt =====
-- `logStart` and `logEnd` of internal/session/manager.go. `Start` gives every session a logger.
use rook_servicechannel_gate.Base.{ℕ, ◌-◌, ◌*◌, Option, none, some, [], ◌∷◌, length}
use rook_servicechannel_gate.Base.Int.{ℤ, pos}
use rook_servicechannel_gate.Base.Text.{Bytes, text}
use rook_servicechannel_gate.Config.Types.{Level, info, warn, error}
use rook_servicechannel_gate.Session.Types.{
  EndReason, protocol_violation, slow_client, internal_error, ssh_error, authorize_timeout,
  keepalive_timeout, session_limit, reason_text, words, number, span, LogLine, Session,
}

abbrev pub reason_words : Option EndReason → Bytes
reason_words none = []
reason_words (some r) = reason_text r

abbrev pub or_zero : Option ℕ → ℕ
or_zero none = 0
or_zero (some n) = n

-- The two intervals are those of the registry's configuration, in nanoseconds.
unfoldable pub log_start : ℤ → ℤ → Session → LogLine
log_start interval timeout s = record {
  level = info;
  message = text "session started";
  args =
      (text "sessionID", words s.id)
      ∷ (text "ipAddress", words s.grant.ip_address)
      ∷ (text "sshAccount", words s.ssh_account)
      ∷ (text "keepaliveInterval", span interval)
      ∷ (text "keepaliveTimeout", span timeout)
      ∷ (text "outboundQueueDepth", number (pos s.depth))
      ∷ [];
}

-- The level of the line of `logEnd`.
unfoldable pub end_level : Option EndReason → Level
end_level (some internal_error) = error
end_level (some ssh_error) = error
end_level (some protocol_violation) = warn
end_level (some slow_client) = warn
end_level (some authorize_timeout) = warn
end_level (some keepalive_timeout) = warn
end_level (some session_limit) = warn
end_level _ = info

-- Times count milliseconds.
unfoldable pub log_end : ℕ → Bytes → Session → LogLine
unfolding end_level
log_end code why s = record {
  level = end_level s.end_reason;
  message = text "session ended";
  args =
      (text "sessionID", words s.id)
      ∷ (text "ipAddress", words s.grant.ip_address)
      ∷ (text "sshAccount", words s.ssh_account)
      ∷ (text "endReason", words (reason_words s.end_reason))
      ∷ (text "closeCode", number (pos code))
      ∷ (text "closeReason", words why)
      ∷ (text "duration", span (pos (1000000 * (or_zero s.ended_at - s.started_at))))
      ∷ (text "outputBacklog", number (pos (length s.outbound)))
      ∷ [];
}
