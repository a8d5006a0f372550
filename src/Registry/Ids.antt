-- ===== src/Registry/Ids.antt =====
-- `newSessionID` of internal/session/manager.go: sixteen hexadecimal digits of eight random bytes.
use rook_servicechannel_gate.Base.{
  ℕ, ◌+◌, ◌/◌, ◌%◌, ◌<◌, ◌≡◌, refl, [], ◌∷◌, ltb, arith, if◌then◌else◌, All,
}
use rook_servicechannel_gate.Base.Text.{Bytes}

hex_digit : ℕ → ℕ
hex_digit d = if ltb d 10 then b'0' + d else 87 + d

-- `hex.EncodeToString`
unfoldable pub new_session_id : Bytes → Bytes
unfolding hex_digit
new_session_id [] = []
new_session_id (c ∷ s) = hex_digit (c / 16) ∷ hex_digit (c % 16) ∷ new_session_id s

hex_digit-injective : (a b : ℕ) → a < 16 → b < 16 → hex_digit a ≡ hex_digit b → a ≡ b
unfolding hex_digit
hex_digit-injective a b h k e = ground arith

abbrev pub IsByte : ℕ → Type 0
IsByte c = c < 256

abbrev digits : ℕ → Bytes
digits c = hex_digit (c / 16) ∷ hex_digit (c % 16) ∷ []

-- Different random bytes give different identifiers, of two characters for each byte.
new_session_id-injective :
    (s t : Bytes) → All IsByte s → All IsByte t → new_session_id s ≡ new_session_id t → s ≡ t
unfolding new_session_id
new_session_id-injective [] [] h k e = refl
new_session_id-injective [] (d ∷ t) h k e = cc
new_session_id-injective (c ∷ s) [] h k e = cc
new_session_id-injective (c ∷ s) (d ∷ t) (hc, h) (hd, k) e = ground (
  arith,
  hex_digit-injective (c / 16) (d / 16),
  hex_digit-injective (c % 16) (d % 16),
  new_session_id-injective s t h k,
)
