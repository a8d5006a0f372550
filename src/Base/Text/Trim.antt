-- ===== src/Base/Text/Trim.antt =====
-- `strings.TrimSpace` and `strings.TrimRight`.
use Prim.Native.Nat.{ℕ, zero, suc}
use mathlib.Core.Bool.{Bool, ◌&&◌, ◌||◌}
use mathlib.Core.List.{List, [], ◌∷◌, reverse}
use rook_servicechannel_gate.Base.Tests.{◌==◌, leb, if◌then◌else◌}

-- The ASCII white space: tab, line feed, vertical tab, form feed, carriage return, blank.
abbrev pub is_ascii_space : ℕ → Bool
is_ascii_space c = c == 32 || (leb 9 c && leb c 13)

-- U+0085 and U+00A0.
abbrev pub is_space_2 : ℕ → ℕ → Bool
is_space_2 a b = a == 0xC2 && (b == 0x85 || b == 0xA0)

-- U+1680, U+2000 to U+200A, U+2028, U+2029, U+202F, U+205F and U+3000.
abbrev pub is_space_3 : ℕ → ℕ → ℕ → Bool
is_space_3 a b c =
    (a == 0xE1 && b == 0x9A && c == 0x80)
    || (a == 0xE2
        && b == 0x80
        && ((leb 0x80 c && leb c 0x8A) || c == 0xA8 || c == 0xA9 || c == 0xAF))
    || (a == 0xE2 && b == 0x81 && c == 0x9F)
    || (a == 0xE3 && b == 0x80 && c == 0x80)

-- How many bytes the white space at the front of the text takes: 0 if there is none.
unfoldable pub space_width : List ℕ → ℕ
space_width [] = 0
space_width (a ∷ []) = if is_ascii_space a then 1 else 0
space_width (a ∷ b ∷ []) = if is_ascii_space a then 1 else if is_space_2 a b then 2 else 0
space_width (a ∷ b ∷ c ∷ s) =
    if is_ascii_space a then 1 else if is_space_2 a b then 2 else if is_space_3 a b c then 3 else 0

-- The same at the end of a text that is given in reverse.
unfoldable pub space_width_back : List ℕ → ℕ
space_width_back [] = 0
space_width_back (a ∷ []) = if is_ascii_space a then 1 else 0
space_width_back (b ∷ a ∷ []) = if is_ascii_space b then 1 else if is_space_2 a b then 2 else 0
space_width_back (c ∷ b ∷ a ∷ s) =
    if is_ascii_space c then 1 else if is_space_2 b c then 2 else if is_space_3 a b c then 3 else 0

-- Drops white space, `n` bytes of which are still to be skipped.
unfoldable pub strip : (List ℕ → ℕ) → ℕ → List ℕ → List ℕ
strip width n [] = []
strip width (suc n) (c ∷ s) = strip width n s
strip width zero (c ∷ s) = elim (width (c ∷ s)) [ zero ↦ c ∷ s | suc w ↦ strip width w s ]

unfoldable pub trim_left : List ℕ → List ℕ
unfolding strip space_width
trim_left s = strip space_width 0 s

unfoldable pub trim_space : List ℕ → List ℕ
unfolding trim_left strip space_width space_width_back
trim_space s = reverse (strip space_width_back 0 (reverse (trim_left s)))
