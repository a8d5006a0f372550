-- ===== src/Json/Lexical.antt =====
-- String and number literals.
pub mod Lexes
pub mod Rests
pub mod Passed
use rook_servicechannel_gate.Base.{
  ℕ, zero, suc, ◌+◌, ◌-◌, ◌*◌, Bool, true, false, ◌&&◌, ◌||◌, Option, none, some, [], ◌∷◌, ◌++◌,
  ◌==◌, ◌≡◌, ltb, if◌then◌else◌,
}
use rook_servicechannel_gate.Base.Text.{Bytes}
use rook_servicechannel_gate.Json.Utf8.{in_range, rune_width, replacement, encode_rune}

abbrev pub is_digit : ℕ → Bool
is_digit c = in_range b'0' b'9' c

abbrev pub is_hex : ℕ → Bool
is_hex c = is_digit c || in_range b'a' b'f' c || in_range b'A' b'F' c

-- What the scanner of a string literal waits for.
pub data Waits : Type 0 where
  plain escape : Waits
  hex : ℕ → Waits

pub data Lexed : Type 0 where
  refused closing : Lexed
  goes_on : Waits → Lexed

-- The byte after a backslash, other than `u`.
abbrev pub is_simple_escape : ℕ → Bool
is_simple_escape c =
    c == 34 || c == 92 || c == b'/' || c == b'b' || c == b'f' || c == b'n' || c == b'r' || c == b't'

lex : Waits → ℕ → Lexed
lex plain c =
    if c == 34
    then closing
    else if c == 92
    then goes_on escape
    else if ltb c 32
    then refused
    else goes_on plain
lex escape c =
    if is_simple_escape c then goes_on plain else if c == b'u' then goes_on (hex 3) else refused
lex (hex zero) c = if is_hex c then goes_on plain else refused
lex (hex (suc k)) c = if is_hex c then goes_on (hex k) else refused

abbrev pub push : ℕ → Option (Bytes × Bytes) → Option (Bytes × Bytes)
push c none = none
push c (some (a, r)) = some (c ∷ a, r)

-- Splits the text behind an opening quote at the closing one.
raw_string : Waits → Bytes → Option (Bytes × Bytes)
raw_string w [] = none
raw_string w (c ∷ s) = elim (lex w c) [
  | refused ↦ none
  | closing ↦ some ([], s)
  | goes_on w' ↦ push c (raw_string w' s)
]

unfoldable pub hex_value : ℕ → ℕ
hex_value c = if is_digit c then c - b'0' else if in_range b'a' b'f' c then c - 87 else c - 55

hex4 : Bytes → Option ℕ
unfolding hex_value
hex4 (a ∷ b ∷ c ∷ d ∷ s) =
    some (4096 * hex_value a + 256 * hex_value b + 16 * hex_value c + hex_value d)
hex4 _ = none

abbrev pub is_surrogate : ℕ → Bool
is_surrogate r = in_range 0xD800 0xDFFF r

-- A second escape that completes a pair of surrogates.
low_half : Bytes → Option ℕ
unfolding hex4
low_half (a ∷ b ∷ s) = if a == 92 && b == b'u' then hex4 s else none
low_half _ = none

unfoldable pub simple_escape : ℕ → ℕ
simple_escape c =
    if c == b'b'
    then 8
    else if c == b'f'
    then 12
    else if c == b'n'
    then 10
    else if c == b'r'
    then 13
    else if c == b't'
    then 9
    else c

-- The bytes that a `\u` escape of value `r` stands for, and how many bytes follow its backslash.
unicode_escape : ℕ → Option ℕ → Bytes × ℕ
unicode_escape r none = if is_surrogate r then (replacement, 5) else (encode_rune r, 5)
unicode_escape r (some low) =
    if is_surrogate r
    then (if in_range 0xD800 0xDBFF r && in_range 0xDC00 0xDFFF low
        then (encode_rune (0x10000 + (r - 0xD800) * 1024 + (low - 0xDC00)), 11)
        else (replacement, 5))
    else (encode_rune r, 5)

drop4 : Bytes → Bytes
drop4 (a ∷ b ∷ c ∷ d ∷ s) = s
drop4 s = []

-- What the text behind a backslash stands for.
escaped : Bytes → Bytes × ℕ
unfolding hex4 low_half simple_escape unicode_escape drop4 encode_rune
escaped [] = ([], 0)
escaped (e ∷ s) =
    if e == b'u'
    then (elim (hex4 s) [
      | none ↦ (replacement, 1)
      | some r ↦ unicode_escape r (low_half (drop4 s))
    ])
    else (simple_escape e ∷ [], 1)

copied : ℕ → Bytes → Bytes
copied zero s = []
copied (suc n) [] = []
copied (suc n) (c ∷ s) = c ∷ copied n s

-- The output for the front of a literal, and how many bytes to skip behind its first one.
decoded : Bytes → Bytes × ℕ
unfolding escaped copied rune_width
decoded [] = ([], 0)
decoded (c ∷ s) = if c == 92 then escaped s else (elim (rune_width (c ∷ s)) [
  | zero ↦ (replacement, 0)
  | suc w ↦ (copied (suc w) (c ∷ s), w)
])

unquote : ℕ → Bytes → Bytes
unquote n [] = []
unquote (suc n) (c ∷ s) = unquote n s
unquote zero (c ∷ s) = let (out, k) = decoded (c ∷ s) in out ++ unquote k s

unquote-front :
    (c : ℕ) (e out : Bytes) (k : ℕ)
    → decoded (c ∷ e) ≡ (out, k)
    → unquote 0 (c ∷ e) ≡ out ++ unquote k e
unfolding unquote
unquote-front c e out k h = rw h

-- The value of a string literal whose opening quote is read, and what follows the literal.
unfoldable pub scan_string : Bytes → Option (Bytes × Bytes)
unfolding raw_string lex unquote decoded
scan_string s = elim (raw_string plain s) [ none ↦ none | some (a, r) ↦ some (unquote 0 a, r) ]

-- How far a number literal is read.
pub data Number : Type 0 where
  start minus lead_zero digits point fraction mark sign exponent : Number

abbrev is_mark : ℕ → Bool
is_mark c = c == b'e' || c == b'E'

next_number : Number → ℕ → Option Number
next_number start c =
    if c == b'-'
    then some minus
    else if c == b'0'
    then some lead_zero
    else if is_digit c
    then some digits
    else none
next_number minus c = if c == b'0' then some lead_zero else if is_digit c then some digits else none
next_number lead_zero c = if c == b'.' then some point else if is_mark c then some mark else none
next_number digits c =
    if is_digit c
    then some digits
    else if c == b'.'
    then some point
    else if is_mark c
    then some mark
    else none
next_number point c = if is_digit c then some fraction else none
next_number fraction c = if is_digit c then some fraction else if is_mark c then some mark else none
next_number mark c =
    if is_digit c then some exponent else if c == b'+' || c == b'-' then some sign else none
next_number sign c = if is_digit c then some exponent else none
next_number exponent c = if is_digit c then some exponent else none

may_end : Number → Bool
may_end lead_zero = true
may_end digits = true
may_end fraction = true
may_end exponent = true
may_end _ = false

number_from : Number → Bytes → Option (Bytes × Bytes)
unfolding may_end next_number
number_from n [] = if may_end n then some ([], []) else none
number_from n (c ∷ s) = elim (next_number n c) [
  | none ↦ (if may_end n then some ([], c ∷ s) else none)
  | some n' ↦ push c (number_from n' s)
]

unfoldable pub scan_number : Bytes → Option (Bytes × Bytes)
unfolding number_from
scan_number s = number_from start s

decimal : ℕ → Bytes → Option ℕ
decimal acc [] = some acc
decimal acc (c ∷ s) =
    let rest = decimal (10 * acc + (c - b'0')) s in if is_digit c then rest else none

-- A run of one or more digits.
unfoldable pub digits_value : Bytes → Option ℕ
unfolding decimal
digits_value [] = none
digits_value (c ∷ s) = decimal 0 (c ∷ s)
