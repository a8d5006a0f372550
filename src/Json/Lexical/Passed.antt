-- ===== src/Json/Lexical/Passed.antt =====
-- The texts that the scanner of strings passes over, and what their escapes stand for.
pub mod Unquoted
use rook_servicechannel_gate.Base.{
  ℕ, zero, suc, ◌+◌, ◌-◌, ◌*◌, ◌/◌, ◌%◌, ◌≤◌, ◌<◌, ◌≡◌, refl, sym, ap, subst, ==_iff, true, false,
  Option, none, some, [], ◌∷◌, ◌++◌, ◌==◌, ltb, length, arith, Bool-cases, Option-cases, inl, inr,
  ◌⊎◌, ◌&&◌, ◌∙◌,
}
use rook_servicechannel_gate.Base.Text.{Bytes}
use rook_servicechannel_gate.Json.Utf8.{
  in_range, rune_width, valid_from, utf8_valid, encode_rune, replacement, is_pair, is_triple,
  is_quadruple,
}
use rook_servicechannel_gate.Json.Runes.{
  Runes, over, one, two, three, four, rune_width-one, rune_width-two, rune_width-three,
  rune_width-four,
}
use rook_servicechannel_gate.Json.Lexical.{
  Waits, plain, escape, hex, Lexed, refused, closing, goes_on, lex, push, raw_string, hex_value,
  hex4, unicode_escape, low_half, drop4, escaped, copied, decoded, unquote, unquote-front,
  scan_string, simple_escape, is_simple_escape, is_hex, is_surrogate,
}

-- The scanner passes over the text in this state, and could end a literal behind it.
abbrev Passed : Waits → Bytes → Type 0
Passed plain [] = Unit
Passed escape [] = ⊥
Passed (hex k) [] = ⊥
Passed w (c ∷ s) = (v : Waits) × (lex w c ≡ goes_on v) × Passed v s

push-inv :
    (c : ℕ) (o : Option (Bytes × Bytes)) (a r : Bytes)
    → push c o ≡ some (a, r)
    → (b : Bytes) × (a ≡ c ∷ b) × (o ≡ some (b, r))
push-inv c none a r h = absurd (ground arith)
push-inv c (some (b, t)) a r h = (b, ground arith, ground arith)

lex-closing : (w : Waits) (c : ℕ) → lex w c ≡ closing → Passed w []
unfolding lex
lex-closing plain c h = tt
lex-closing escape c h = absurd (ground arith)
lex-closing (hex zero) c h = absurd (ground arith)
lex-closing (hex (suc k)) c h = absurd (ground arith)

none-some : {A : Type 0} {a : A} → none ≡ some a → ⊥
none-some h = cc

some_fst : {a b c d : Bytes} → ◌≡◌ {A = Option (Bytes × Bytes)} (some (a, b)) (some (c, d)) → a ≡ c
some_fst h = cc

raw_string-Passed : (w : Waits) (s a r : Bytes) → raw_string w s ≡ some (a, r) → Passed w a
unfolding raw_string
raw_string-Passed w [] a r h = absurd (ground arith)
raw_string-Passed w (c ∷ s) a r h = by_byte (lex w c) refl (λ v b. raw_string-Passed v s b r)
  where
    by_byte :
        (l : Lexed)
        → lex w c ≡ l
        → ((v : Waits) (b : Bytes) → raw_string v s ≡ some (b, r) → Passed v b)
        → Passed w a
    by_byte refused e rest = absurd (none-some (rw (raw_string, e) at h))
    by_byte closing e rest =
        let is : [] ≡ a = some_fst (rw (raw_string, e) at h) in rw (← is) (lex-closing w c e)
    by_byte (goes_on v) e rest =
        let (b, is, before) = push-inv c (raw_string v s) a r (rw (raw_string, e) at h) in
        rw is (v, e, rest v b before)

plain-Passed :
    (c : ℕ) (s : Bytes)
    → Passed plain (c ∷ s)
    → ((c == 92) ≡ true) × Passed escape s ⊎ ((c == 92) ≡ false) × Passed plain s
unfolding lex
plain-Passed c s (v, e, rest) = elim (Bool-cases (c == 92)) [
  | inl back ↦ inl (back, let is : escape ≡ v = ground arith in rw is rest)
  | inr other ↦ inr (other, let is : plain ≡ v = ground arith in rw is rest)
]

escape-Passed :
    (c : ℕ) (s : Bytes)
    → Passed escape (c ∷ s)
    → ((c == b'u') ≡ true) × Passed (hex 3) s
      ⊎ ((c == b'u') ≡ false) × (is_simple_escape c ≡ true) × Passed plain s
unfolding lex
escape-Passed c s (v, e, rest) = elim (Bool-cases (is_simple_escape c)) [
  | inl simple ↦ inr (ground arith, simple, let is : plain ≡ v = ground arith in rw is rest)
  | inr other ↦ inl (ground arith, let is : hex 3 ≡ v = ground arith in rw is rest)
]

hex-Passed :
    (k c : ℕ) (s : Bytes) → Passed (hex (suc k)) (c ∷ s) → (is_hex c ≡ true) × Passed (hex k) s
unfolding lex
hex-Passed k c s (v, e, rest) = (ground arith, let is : hex k ≡ v = ground arith in rw is rest)

last-Passed : (c : ℕ) (s : Bytes) → Passed (hex 0) (c ∷ s) → (is_hex c ≡ true) × Passed plain s
unfolding lex
last-Passed c s (v, e, rest) = (ground arith, let is : plain ≡ v = ground arith in rw is rest)

hex_value-lt : (c : ℕ) → is_hex c ≡ true → hex_value c < 16
unfolding hex_value
hex_value-lt c h = ground arith

-- Four hexadecimal digits and what follows them.
record Digits (s : Bytes) : Type 0 where
  number : ℕ
  rest : Bytes
  small : number < 0x10000
  read : hex4 s ≡ some number
  behind : drop4 s ≡ rest
  shorter : length s ≡ 4 + length rest
  skipped : unquote 4 s ≡ unquote 0 rest
  skipped_pair : unquote 10 s ≡ unquote 6 rest
  passed : Passed plain rest

digits : (s : Bytes) → Passed (hex 3) s → Digits s
unfolding hex4 drop4 unquote
digits [] h = absurd h
digits (a ∷ []) h = absurd ((hex-Passed 2 a [] h).1)
digits (a ∷ b ∷ []) h = absurd ((hex-Passed 1 b [] (hex-Passed 2 a (b ∷ []) h).1).1)
digits (a ∷ b ∷ c ∷ []) h =
    absurd ((hex-Passed 0 c [] (hex-Passed 1 b (c ∷ []) (hex-Passed 2 a (b ∷ c ∷ []) h).1).1).1)
digits (a ∷ b ∷ c ∷ d ∷ s) h =
    let (ha, at_b) = hex-Passed 2 a (b ∷ c ∷ d ∷ s) h in
    let (hb, at_c) = hex-Passed 1 b (c ∷ d ∷ s) at_b in
    let (hc, at_d) = hex-Passed 0 c (d ∷ s) at_c in
    let (hd, after) = last-Passed d s at_d in
    record {
      number = 4096 * hex_value a + 256 * hex_value b + 16 * hex_value c + hex_value d;
      rest = s;
      small =
          omega (arith, hex_value-lt a ha, hex_value-lt b hb, hex_value-lt c hc, hex_value-lt d hd);
      read = refl;
      behind = refl;
      shorter = omega arith;
      skipped = refl;
      skipped_pair = refl;
      passed = after;
    }

-- The second escape of a pair of surrogates, or none.
low_half-cases :
    (s : Bytes)
    → Passed plain s
    → (low_half s ≡ none)
      ⊎ ((t : Bytes) × (s ≡ 92 ∷ b'u' ∷ t) × (d : Digits t) × (low_half s ≡ some d.number))
unfolding low_half
low_half-cases [] h = inl refl
low_half-cases (a ∷ []) h = inl refl
low_half-cases (a ∷ b ∷ t) h = elim (plain-Passed a (b ∷ t) h) [
  | inr (other, rest) ↦ inl (rw other)
  | inl (back, at_escape) ↦ elim (escape-Passed b t at_escape) [
    | inr (not_u, simple, rest) ↦ inl (rw (back, not_u))
    | inl (is_u, at_hex) ↦
        let d = digits t at_hex in inr (t, ground arith, d, rw (back, is_u) d.read)
  ]
]

-- What a `\u` escape stands for: a replacement, a code point, or one written as a pair.
unicode_escape-cases :
    (r : ℕ) (m : Option ℕ)
    → r < 0x10000
    → (unicode_escape r m ≡ (replacement, 5))
      ⊎ (is_surrogate r ≡ false) × (unicode_escape r m ≡ (encode_rune r, 5))
      ⊎ ((low x : ℕ) × (m ≡ some low)
          × (0x10000 ≤ x)
          × (x < 0x110000)
          × (unicode_escape r m ≡ (encode_rune x, 11)))
unfolding unicode_escape
unicode_escape-cases r none h = elim (Bool-cases (is_surrogate r)) [
  | inl half ↦ inl (rw half)
  | inr whole ↦ inr (inl (whole, rw whole))
]
unicode_escape-cases r (some low) h = elim (Bool-cases (is_surrogate r)) [
  | inr whole ↦ inr (inl (whole, rw whole))
  | inl half ↦ elim (Bool-cases (in_range 0xD800 0xDBFF r && in_range 0xDC00 0xDFFF low)) [
    | inr alone ↦ inl (rw (half, alone))
    | inl pair ↦ inr (
        inr (
          low,
          0x10000 + (r - 0xD800) * 1024 + (low - 0xDC00),
          refl,
          ground arith,
          ground arith,
          rw (half, pair),
        ))
  ]
]
