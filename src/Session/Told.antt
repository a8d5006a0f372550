-- ===== src/Session/Told.antt =====
-- What the log and the audit sink are told of the end of a session in internal/session/manager.go.
use rook_servicechannel_gate.Base.{◌≡◌, refl, sym, ◌∙◌, some}
use rook_servicechannel_gate.Base.Dict.{lookup, merge, lookup-put}
use rook_servicechannel_gate.Base.Int.{pos}
use rook_servicechannel_gate.Base.Text.{text, bytes_eq}
use rook_servicechannel_gate.Session.Types.{words, number, AuditEvent, LogLine, Session}
use rook_servicechannel_gate.Session.Log.{reason_words, end_level, log_end}
use rook_servicechannel_gate.Session.Audit.{audit_event}
use rook_servicechannel_gate.Session.Close.{ended_fields}

-- The line of `logEnd` tells the session's own identifier, address and account, and how it ended.
pub record TellsLine (s : Session) (line : LogLine) : Type 0 where
  pub message : line.message ≡ text "session ended"
  pub level : line.level ≡ end_level s.end_reason
  pub identified : lookup (text "sessionID") line.args ≡ some (words s.id)
  pub address : lookup (text "ipAddress") line.args ≡ some (words s.grant.ip_address)
  pub account : lookup (text "sshAccount") line.args ≡ some (words s.ssh_account)
  pub reason : lookup (text "endReason") line.args ≡ some (words (reason_words s.end_reason))
  pub code : lookup (text "closeCode") line.args ≡ some (number (pos s.close_code))
  pub why : lookup (text "closeReason") line.args ≡ some (words s.close_reason)

-- And so does the event of the end.
pub record TellsEvent (s : Session) (event : AuditEvent) : Type 0 where
  pub name : event.name ≡ text "session_ended"
  pub named : event.session ≡ s.id
  pub address : lookup (text "ipAddress") event.fields ≡ some (words s.grant.ip_address)
  pub account : lookup (text "sshAccount") event.fields ≡ some (words s.ssh_account)
  pub reason : lookup (text "endReason") event.fields ≡ some (words (reason_words s.end_reason))
  pub code : lookup (text "closeCode") event.fields ≡ some (number (pos s.close_code))
  pub why : lookup (text "closeReason") event.fields ≡ some (words s.close_reason)

-- The line of `logStart` and the event of the start tell the session's own identifier, address and
-- account.
pub record OpensLine (s : Session) (line : LogLine) : Type 0 where
  pub message : line.message ≡ text "session started"
  pub identified : lookup (text "sessionID") line.args ≡ some (words s.id)
  pub address : lookup (text "ipAddress") line.args ≡ some (words s.grant.ip_address)
  pub account : lookup (text "sshAccount") line.args ≡ some (words s.ssh_account)

pub record OpensEvent (s : Session) (event : AuditEvent) : Type 0 where
  pub name : event.name ≡ text "session_started"
  pub named : event.session ≡ s.id
  pub address : lookup (text "ipAddress") event.fields ≡ some (words s.grant.ip_address)
  pub account : lookup (text "sshAccount") event.fields ≡ some (words s.ssh_account)

abbrev pub line_of : Session → LogLine
line_of s = log_end s.close_code s.close_reason s

abbrev pub event_of : Session → AuditEvent
event_of s = audit_event (text "session_ended") (ended_fields s) s

pub line_of-TellsLine : (s : Session) → TellsLine s (line_of s)
unfolding log_end lookup text bytes_eq
line_of-TellsLine s = record {
  message = refl;
  level = refl;
  identified = refl;
  address = refl;
  account = refl;
  reason = refl;
  code = refl;
  why = refl;
}

-- Whatever fields the answer of the backend brings, those of the session's end go over them.
pub event_of-TellsEvent : (s : Session) → TellsEvent s (event_of s)
unfolding audit_event ended_fields merge lookup text bytes_eq
event_of-TellsEvent s = record {
  name = refl;
  named = refl;
  address = simp lookup-put;
  account = simp lookup-put;
  reason = simp lookup-put;
  code = simp lookup-put;
  why = simp lookup-put;
}

-- No line and no event tells of both.
pub lines_differ : (s : Session) (line : LogLine) → OpensLine s line → TellsLine s line → ⊥
unfolding text
lines_differ s line o t = let both = sym o.message ∙ t.message in cc

pub events_differ : (s : Session) (e : AuditEvent) → OpensEvent s e → TellsEvent s e → ⊥
unfolding text
events_differ s e o t = let both = sym o.name ∙ t.name in cc
