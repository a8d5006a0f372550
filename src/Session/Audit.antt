-- ===== src/Session/Audit.antt =====
-- `recordAuditEvent` and `extractGrantAuditFields` of internal/session/manager.go.
use rook_servicechannel_gate.Base.{Option, none, some, List, [], ◌∷◌, ◌++◌, if◌then◌else◌}
use rook_servicechannel_gate.Base.Dict.{put, merge}
use rook_servicechannel_gate.Base.Text.{Bytes, text, bytes_eq}
use rook_servicechannel_gate.Json.{Json, str, obj, Members, end, member}
use rook_servicechannel_gate.Json.Float.{fits}
use rook_servicechannel_gate.Json.Parse.{whole_value}
use rook_servicechannel_gate.Session.Types.{FieldValue, words, AuditEvent, Session}

-- `payload[key]` of a decoded object, whose last member of a name counts.
member_of : Bytes → Members → Option Json
member_of k end = none
member_of k (member j v m) = elim (member_of k m) [
  | some w ↦ some w
  | none ↦ (if bytes_eq j k then some v else none)
]

-- A string that is not empty.
abbrev filled : Option Json → Option Bytes
filled (some (str (c ∷ s))) = some (c ∷ s)
filled _ = none

-- The first of the candidate keys that holds such a string.
first_filled : List Bytes → Members → Option Bytes
unfolding member_of
first_filled [] m = none
first_filled (k ∷ ks) m = elim (filled (member_of k m)) [
  | some s ↦ some s
  | none ↦ first_filled ks m
]

abbrev named : Bytes → Option Bytes → List (Bytes × FieldValue)
named target none = []
named target (some s) = (target, words s) ∷ []

fields_of : Json → List (Bytes × FieldValue)
unfolding first_filled text
fields_of (obj m) =
    named (text "pin") (first_filled (text "pin" ∷ text "supportPin" ∷ []) m)
    ++ named (text "mitarbeiteraccount") (
        first_filled
          (text "mitarbeiteraccount" ∷ text "mitarbeiterAccount" ∷ text "employeeAccount" ∷ []) m)
fields_of _ = []

-- `Unmarshal` fails where a number is out of range. An empty result is nil in Go, which the one caller does not distinguish.
unfoldable pub extract_grant_audit_fields : Bytes → List (Bytes × FieldValue)
unfolding fields_of whole_value
extract_grant_audit_fields raw = elim (whole_value raw) [
  | none ↦ []
  | some v ↦ if fits v then fields_of v else []
]

-- The event's fields go over those of the grant, and these over the session's own.
unfoldable pub audit_event : Bytes → List (Bytes × FieldValue) → Session → AuditEvent
audit_event name fields s = record {
  name = name;
  session = s.id;
  fields =
      merge
        (merge
          (put (text "sshAccount") (words s.ssh_account)
            (put (text "ipAddress") (words s.grant.ip_address) []))
          (extract_grant_audit_fields s.grant.raw_response))
        fields;
}

-- A sink that fails changes nothing but the log.
unfoldable pub record_audit_event : Bytes → List (Bytes × FieldValue) → Session → Session
record_audit_event name fields s =
    if s.audit_sink then record s { audit = s.audit ++ audit_event name fields s ∷ [] } else s
