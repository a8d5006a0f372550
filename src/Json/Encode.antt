-- ===== src/Json/Encode.antt =====
-- `json.Marshal` of strings and of structs whose fields are strings.
pub mod Scanned
pub mod Parsed
use rook_servicechannel_gate.Base.{
  ℕ, zero, suc, ◌+◌, ◌/◌, ◌%◌, Bool, ◌&&◌, ◌||◌, List, [], ◌∷◌, ◌++◌, ◌==◌, ltb, if◌then◌else◌,
}
use rook_servicechannel_gate.Base.Text.{Bytes}
use rook_servicechannel_gate.Json.Utf8.{rune_width}

hex_digit : ℕ → ℕ
hex_digit d = if ltb d 10 then b'0' + d else 87 + d

-- `\u00xy`, for control characters and for `<`, `>` and `&`.
unicode_00 : ℕ → Bytes
unfolding hex_digit
unicode_00 c = 92 ∷ b'u' ∷ b'0' ∷ b'0' ∷ hex_digit (c / 16) ∷ hex_digit (c % 16) ∷ []

abbrev is_escaped : ℕ → Bool
is_escaped c = ltb c 32 || c == 34 || c == 92 || c == b'<' || c == b'>' || c == b'&'

-- `appendString`, on one byte below 0x80.
encode_ascii : ℕ → Bytes
unfolding unicode_00
encode_ascii c =
    if c == 34 || c == 92
    then 92 ∷ c ∷ []
    else if c == 8
    then 92 ∷ b'b' ∷ []
    else if c == 12
    then 92 ∷ b'f' ∷ []
    else if c == 10
    then 92 ∷ b'n' ∷ []
    else if c == 13
    then 92 ∷ b'r' ∷ []
    else if c == 9
    then 92 ∷ b't' ∷ []
    else if is_escaped c
    then unicode_00 c
    else c ∷ []

-- U+2028 and U+2029 are escaped too.
encode_triple : ℕ → ℕ → ℕ → Bytes
encode_triple a b c =
    if a == 0xE2 && b == 0x80 && c == 0xA8
    then 92 ∷ b'u' ∷ b'2' ∷ b'0' ∷ b'2' ∷ b'8' ∷ []
    else if a == 0xE2 && b == 0x80 && c == 0xA9
    then 92 ∷ b'u' ∷ b'2' ∷ b'0' ∷ b'2' ∷ b'9' ∷ []
    else a ∷ b ∷ c ∷ []

-- The text `\ufffd`, for a byte that begins no code point.
abbrev escaped_replacement : Bytes
escaped_replacement = 92 ∷ b'u' ∷ b'f' ∷ b'f' ∷ b'f' ∷ b'd' ∷ []

-- The encoding of the code point of `w` bytes at the front.
encode_front : ℕ → Bytes → Bytes
unfolding encode_ascii encode_triple
encode_front (suc zero) (a ∷ s) = encode_ascii a
encode_front (suc (suc zero)) (a ∷ b ∷ s) = a ∷ b ∷ []
encode_front (suc (suc (suc zero))) (a ∷ b ∷ c ∷ s) = encode_triple a b c
encode_front (suc (suc (suc (suc w)))) (a ∷ b ∷ c ∷ d ∷ s) = a ∷ b ∷ c ∷ d ∷ []
encode_front _ _ = escaped_replacement

encode_from : ℕ → Bytes → Bytes
encode_from n [] = []
encode_from (suc n) (c ∷ s) = encode_from n s
encode_from zero (c ∷ s) = elim (rune_width (c ∷ s)) [
  | zero ↦ escaped_replacement ++ encode_from zero s
  | suc w ↦ encode_front (suc w) (c ∷ s) ++ encode_from w s
]

unfoldable pub encode_string : Bytes → Bytes
unfolding encode_from encode_front rune_width
encode_string s = 34 ∷ (encode_from 0 s ++ 34 ∷ [])

-- The members behind the first one.
encode_more : List (Bytes × Bytes) → Bytes
encode_more [] = b'}' ∷ []
encode_more ((k, v) ∷ m) = b',' ∷ (encode_string k ++ b':' ∷ (encode_string v ++ encode_more m))

-- A struct of string fields, in their order.
unfoldable pub encode_fields : List (Bytes × Bytes) → Bytes
unfolding encode_more encode_string
encode_fields [] = b'{' ∷ b'}' ∷ []
encode_fields ((k, v) ∷ m) = b'{' ∷ (encode_string k ++ b':' ∷ (encode_string v ++ encode_more m))
