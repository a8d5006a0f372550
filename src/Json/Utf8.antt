-- ===== src/Json/Utf8.antt =====
-- The package `unicode/utf8`: which bytes encode a code point, and the encoding of a code point.
use rook_servicechannel_gate.Base.{
  ℕ, zero, suc, ◌+◌, ◌/◌, ◌%◌, Bool, true, false, ◌&&◌, ◌||◌, [], ◌∷◌, ◌==◌, leb, ltb,
  if◌then◌else◌,
}
use rook_servicechannel_gate.Base.Text.{Bytes}

abbrev pub in_range : ℕ → ℕ → ℕ → Bool
in_range lo hi c = leb lo c && leb c hi

abbrev is_tail : ℕ → Bool
is_tail c = in_range 0x80 0xBF c

abbrev pub is_pair : ℕ → ℕ → Bool
is_pair a b = in_range 0xC2 0xDF a && is_tail b

-- The second byte of a sequence of three or four bytes is bounded by the first.
abbrev pub is_triple : ℕ → ℕ → ℕ → Bool
is_triple a b c =
    ((a == 0xE0 && in_range 0xA0 0xBF b)
      || (a == 0xED && in_range 0x80 0x9F b)
      || ((in_range 0xE1 0xEC a || in_range 0xEE 0xEF a) && is_tail b))
    && is_tail c

abbrev pub is_quadruple : ℕ → ℕ → ℕ → ℕ → Bool
is_quadruple a b c d =
    ((a == 0xF0 && in_range 0x90 0xBF b)
      || (a == 0xF4 && in_range 0x80 0x8F b)
      || (in_range 0xF1 0xF3 a && is_tail b))
    && is_tail c
    && is_tail d

-- The number of bytes of the code point at the front, 0 where they encode none.
unfoldable pub rune_width : Bytes → ℕ
rune_width [] = 0
rune_width (a ∷ []) = if ltb a 0x80 then 1 else 0
rune_width (a ∷ b ∷ []) = if ltb a 0x80 then 1 else if is_pair a b then 2 else 0
rune_width (a ∷ b ∷ c ∷ []) =
    if ltb a 0x80 then 1 else if is_pair a b then 2 else if is_triple a b c then 3 else 0
rune_width (a ∷ b ∷ c ∷ d ∷ s) =
    if ltb a 0x80
    then 1
    else if is_pair a b
    then 2
    else if is_triple a b c
    then 3
    else if is_quadruple a b c d
    then 4
    else 0

-- `n` bytes of the current code point are still to come.
unfoldable pub valid_from : ℕ → Bytes → Bool
valid_from n [] = true
valid_from (suc n) (c ∷ s) = valid_from n s
valid_from zero (c ∷ s) = elim (rune_width (c ∷ s)) [ zero ↦ false | suc w ↦ valid_from w s ]

-- `utf8.Valid`
unfoldable pub utf8_valid : Bytes → Bool
unfolding valid_from rune_width
utf8_valid s = valid_from 0 s

-- U+FFFD, which takes the place of bytes that encode nothing.
abbrev pub replacement : Bytes
replacement = 0xEF ∷ 0xBF ∷ 0xBD ∷ []

-- `utf8.AppendRune`, for code points that are no surrogates.
unfoldable pub encode_rune : ℕ → Bytes
encode_rune r =
    if ltb r 0x80
    then r ∷ []
    else if ltb r 0x800
    then (0xC0 + r / 64) ∷ (0x80 + r % 64) ∷ []
    else if ltb r 0x10000
    then (0xE0 + r / 4096) ∷ (0x80 + r / 64 % 64) ∷ (0x80 + r % 64) ∷ []
    else (0xF0 + r / 262144) ∷ (0x80 + r / 4096 % 64) ∷ (0x80 + r / 64 % 64) ∷ (0x80 + r % 64) ∷ []
