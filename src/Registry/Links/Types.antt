-- ===== src/Registry/Links/Types.antt =====
-- What links the map of the registry to its sessions.
use rook_servicechannel_gate.Base.{ℕ, ◌≡◌, ◌≢◌, true, some, List, get_elem?}
use rook_servicechannel_gate.Base.Dict.{lookup}
use rook_servicechannel_gate.Base.Text.{Bytes}
use rook_servicechannel_gate.Session.{Session}
use rook_servicechannel_gate.Session.Rounds.{is_live}
use rook_servicechannel_gate.Registry.Types.{Registry}

pub record IsLinked (r : Registry) : Type 0 where
  pub reaches :
      (p : ℕ) (s : Session)
      → get_elem? r.objects p ≡ some s
      → is_live s ≡ true
      → lookup s.id r.sessions ≡ some p
  pub leads :
      (id : Bytes) (p : ℕ)
      → lookup id r.sessions ≡ some p
      → (s : Session) × (get_elem? r.objects p ≡ some s) × (s.id ≡ id) × (is_live s ≡ true)
  pub distinct :
      (p q : ℕ) (s t : Session)
      → get_elem? r.objects p ≡ some s
      → get_elem? r.objects q ≡ some t
      → s.id ≡ t.id
      → p ≡ q

-- No session was ever started under the identifier: what random identifiers give with all but
-- negligible probability.
abbrev pub IsFresh : Bytes → Registry → Type 0
IsFresh id r = (p : ℕ) (s : Session) → get_elem? r.objects p ≡ some s → s.id ≢ id

-- Two reads of one cell.
pub get_unique :
    (xs : List Session) (p : ℕ) (s t : Session)
    → get_elem? xs p ≡ some s
    → get_elem? xs p ≡ some t
    → s ≡ t
get_unique xs p s t e f = cc

pub IsLinked-same :
    (r q : Registry) → q.sessions ≡ r.sessions → q.objects ≡ r.objects → IsLinked r → IsLinked q
IsLinked-same r q e f l = record {
  reaches = λ p s h live. rw e (l.reaches p s (rw f at h) live);
  leads = λ id p h. rw f (l.leads id p (rw e at h));
  distinct = λ p p' s t h k. l.distinct p p' s t (rw f at h) (rw f at k);
}
