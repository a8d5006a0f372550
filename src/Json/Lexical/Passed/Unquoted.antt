-- ===== src/Json/Lexical/Passed/Unquoted.antt =====
-- The encoding of what the scanner of strings reads.
use rook_servicechannel_gate.Base.{
  ℕ, zero, suc, ◌≤◌, ◌≡◌, sym, ap, subst, ==_iff, true, false, some, [], ◌∷◌, ◌==◌, ltb, length,
  arith, Option-cases, inl, inr, ◌∙◌,
}
use rook_servicechannel_gate.Base.Text.{Bytes}
use rook_servicechannel_gate.Json.Utf8.{utf8_valid, encode_rune, replacement}
use rook_servicechannel_gate.Json.Runes.{
  Runes, over, one, two, three, four, rune_width-one, rune_width-two, rune_width-three,
  rune_width-four,
}
use rook_servicechannel_gate.Json.Lexical.{
  plain, escape, raw_string, unicode_escape, low_half, escaped, copied, decoded, unquote,
  unquote-front, scan_string, simple_escape, is_simple_escape,
}
use rook_servicechannel_gate.Json.Encoded.{
  Front, broken, one_byte, pair, triple, quadruple, front, encode_rune-Runes, replacement-Runes,
  Runes-valid,
}
use rook_servicechannel_gate.Json.Lexical.Passed.{
  Passed, raw_string-Passed, some_fst, plain-Passed, escape-Passed, Digits, digits, low_half-cases,
  unicode_escape-cases,
}

wide-Passed : (b : ℕ) (s : Bytes) → ltb b 0x80 ≡ false → Passed plain (b ∷ s) → Passed plain s
wide-Passed b s w h = elim (plain-Passed b s h) [
  | inl (back, at_escape) ↦ absurd (ground arith)
  | inr (other, rest) ↦ rest
]

-- The texts of at most this length.
abbrev Below : ℕ → Type 0
Below n = (s : Bytes) → length s ≤ n → Passed plain s → Runes (unquote 0 s)

front-Runes :
    (n c : ℕ) (s : Bytes)
    → Below n
    → length s ≤ n
    → (c == 92) ≡ false
    → Passed plain s
    → Front (c ∷ s)
    → Runes (unquote 0 (c ∷ s))
unfolding unquote decoded copied
front-Runes n c s ih b other h (broken e) =
    rw (other, e) (replacement-Runes (unquote 0 s) (ih s b h))
front-Runes n c s ih b other h (one_byte p) = rw (other, rune_width-one c s p) (one p (ih s b h))
front-Runes n c (d ∷ s) ih b other h (pair p q) =
    rw (other, rune_width-two c d s p q)
      (two p q (ih s (omega (arith, b)) (wide-Passed d s (ground arith) h)))
front-Runes n c (d ∷ e ∷ s) ih b other h (triple p q t) =
    rw (other, rune_width-three c d e s p q t)
      (three p q t (
        ih s (omega (arith, b))
          (wide-Passed e s (ground arith) (wide-Passed d (e ∷ s) (ground arith) h))))
front-Runes n c (d ∷ e ∷ f ∷ s) ih b other h (quadruple p q t u) =
    rw (other, rune_width-four c d e f s p q t u)
      (four p q t u (
        ih s (omega (arith, b)) (
          wide-Passed f s (ground arith)
            (wide-Passed e (f ∷ s) (ground arith) (wide-Passed d (e ∷ f ∷ s) (ground arith) h)))))

simple_escape-lt : (c : ℕ) → is_simple_escape c ≡ true → ltb (simple_escape c) 0x80 ≡ true
unfolding simple_escape
simple_escape-lt c h = ground arith

escaped-digits :
    (s : Bytes) (d : Digits s) → decoded (92 ∷ b'u' ∷ s) ≡ unicode_escape d.number (low_half d.rest)
unfolding decoded escaped
escaped-digits s d = rw (d.read, d.behind)

-- A `\u` escape, and a second one where the two are a pair.
unicode-Runes :
    (n : ℕ) (s : Bytes) → Below n → length s ≤ n → Digits s → Runes (unquote 0 (92 ∷ b'u' ∷ s))
unfolding unquote
unicode-Runes n s ih b d = elim (unicode_escape-cases d.number (low_half d.rest) d.small) [
  | inl lone ↦
      rw (unquote-front 92 (b'u' ∷ s) replacement 5 (escaped-digits s d ∙ lone), d.skipped)
        (replacement-Runes (unquote 0 d.rest) (ih d.rest (omega (arith, b, d.shorter)) d.passed))
  | inr (inl (whole, is)) ↦
      rw (unquote-front 92 (b'u' ∷ s) (encode_rune d.number) 5 (escaped-digits s d ∙ is), d.skipped)
        (encode_rune-Runes d.number (unquote 0 d.rest) (omega (arith, d.small)) whole
          (ih d.rest (omega (arith, b, d.shorter)) d.passed))
  | inr (inr (low, x, found, above, below, is)) ↦ elim (low_half-cases d.rest d.passed) [
    | inl missing ↦ absurd (ground arith)
    | inr (t, shape, e, half) ↦
        rw
          (
            unquote-front 92 (b'u' ∷ s) (encode_rune x) 11 (escaped-digits s d ∙ is),
            d.skipped_pair,
            shape,
            e.skipped,
          )
          (encode_rune-Runes x (unquote 0 e.rest) below (ground arith)
            (ih e.rest (omega (arith, b, d.shorter, e.shorter, ap length shape)) e.passed))
  ]
]

simple-Runes :
    (c : ℕ) (s : Bytes)
    → (c == b'u') ≡ false
    → is_simple_escape c ≡ true
    → Runes (unquote 0 s)
    → Runes (unquote 0 (92 ∷ c ∷ s))
unfolding unquote decoded escaped
simple-Runes c s not_u simple rest = rw not_u (one (simple_escape-lt c simple) rest)

escape-Runes :
    (n : ℕ) (s : Bytes) → Below n → length s ≤ n → Passed escape s → Runes (unquote 0 (92 ∷ s))
escape-Runes n [] ih b h = absurd h
escape-Runes n (c ∷ s) ih b h = elim (escape-Passed c s h) [
  | inl (is_u, at_hex) ↦
      subst (λ (x : ℕ). Runes (unquote 0 (92 ∷ x ∷ s))) (sym ((==_iff c b'u').0 is_u))
        (unicode-Runes n s ih (omega (arith, b)) (digits s at_hex))
  | inr (not_u, simple, rest) ↦ simple-Runes c s not_u simple (ih s (omega (arith, b)) rest)
]

unquote-Runes : (n : ℕ) → Below n
unfolding unquote
unquote-Runes n [] b h = over
unquote-Runes zero (c ∷ s) b h = absurd (omega (arith, b))
unquote-Runes (suc n) (c ∷ s) b h = elim (plain-Passed c s h) [
  | inl (back, at_escape) ↦
      subst (λ (x : ℕ). Runes (unquote 0 (x ∷ s))) (sym ((==_iff c 92).0 back))
        (escape-Runes n s (unquote-Runes n) (omega (arith, b)) at_escape)
  | inr (other, rest) ↦
      front-Runes n c s (unquote-Runes n) (omega (arith, b)) other rest (front c s)
]

-- Whatever the literal holds, the text that it is read as is UTF-8.
pub scan_string-utf8_valid : (s a r : Bytes) → scan_string s ≡ some (a, r) → utf8_valid a ≡ true
unfolding scan_string utf8_valid
scan_string-utf8_valid s a r h = elim (Option-cases (raw_string plain s)) [
  | inl bad ↦ absurd (ground arith)
  | inr ((b, t), good) ↦
      let is : unquote 0 b ≡ a = some_fst (rw (scan_string, good) at h) in
      rw (← is) (
        Runes-valid _
          (unquote-Runes (length b) b (omega arith) (raw_string-Passed plain s b t good)))
]
