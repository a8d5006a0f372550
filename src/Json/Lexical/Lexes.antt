-- ===== src/Json/Lexical/Lexes.antt =====
-- Which literals the scanner of strings reads as which text.
use rook_servicechannel_gate.Base.{
  ℕ, suc, ◌+◌, ◌*◌, ◌≡◌, refl, ◌∙◌, ap, true, false, Option, none, some, [], ◌∷◌, ◌++◌, ◌==◌, ltb,
  arith,
}
use rook_servicechannel_gate.Base.Text.{Bytes}
use rook_servicechannel_gate.Json.Utf8.{encode_rune, is_pair, is_triple, is_quadruple}
use rook_servicechannel_gate.Json.Runes.{
  rune_width-one, rune_width-two, rune_width-three, rune_width-four,
}
use rook_servicechannel_gate.Json.Lexical.{
  Waits, plain, escape, hex, goes_on, lex, raw_string, hex_value, hex4, unicode_escape, low_half,
  drop4, escaped, copied, decoded, unquote, unquote-front, scan_string, simple_escape,
  is_simple_escape, is_hex, is_surrogate,
}

-- The text `e` between quotes is a literal for `s`.
pub record Lexes (e s : Bytes) : Type 0 where
  split : (t : Bytes) → raw_string plain (e ++ 34 ∷ t) ≡ some (e, t)
  meant : unquote 0 e ≡ s

pub Lexes-scan : (e s t : Bytes) → Lexes e s → scan_string (e ++ 34 ∷ t) ≡ some (s, t)
unfolding scan_string
Lexes-scan e s t l = rw (scan_string, l.split t, l.meant)

pub Lexes-over : Lexes [] []
unfolding raw_string lex unquote
Lexes-over = record { split = λ t. refl; meant = refl }

-- A byte that the scanner passes over.
passes :
    (w v : Waits) (c : ℕ) (e t : Bytes)
    → lex w c ≡ goes_on v
    → raw_string v (e ++ 34 ∷ t) ≡ some (e, t)
    → raw_string w (c ∷ (e ++ 34 ∷ t)) ≡ some (c ∷ e, t)
unfolding raw_string
passes w v c e t h k = rw (raw_string, h, k)

lex-plain :
    (c : ℕ) → (c == 34) ≡ false → (c == 92) ≡ false → ltb c 32 ≡ false → lex plain c ≡ goes_on plain
unfolding lex
lex-plain c h k l = rw (h, k, l)

wide : (c : ℕ) → ltb c 0x80 ≡ false → ((c == 34) ≡ false) × ((c == 92) ≡ false) × (ltb c 32 ≡ false)
wide c h = ground arith

lex-wide : (c : ℕ) → ltb c 0x80 ≡ false → lex plain c ≡ goes_on plain
lex-wide c h = let (k, l, m) = wide c h in lex-plain c k l m

lex-escape : (c : ℕ) → is_simple_escape c ≡ true → lex escape c ≡ goes_on plain
unfolding lex
lex-escape c h = rw h

lex-hex : (k c : ℕ) → is_hex c ≡ true → lex (hex (suc k)) c ≡ goes_on (hex k)
unfolding lex
lex-hex k c h = rw h

lex-last : (c : ℕ) → is_hex c ≡ true → lex (hex 0) c ≡ goes_on plain
unfolding lex
lex-last c h = rw h

pub Lexes-plain :
    (c : ℕ) (e s : Bytes)
    → ltb c 0x80 ≡ true
    → (c == 34) ≡ false
    → (c == 92) ≡ false
    → ltb c 32 ≡ false
    → Lexes e s
    → Lexes (c ∷ e) (c ∷ s)
unfolding unquote decoded copied
Lexes-plain c e s small h k m l = record {
  split = λ t. passes plain plain c e t (lex-plain c h k m) (l.split t);
  meant = rw (k, rune_width-one c e small, l.meant);
}

pub Lexes-simple :
    (c d : ℕ) (e s : Bytes)
    → is_simple_escape c ≡ true
    → (c == b'u') ≡ false
    → simple_escape c ≡ d
    → Lexes e s
    → Lexes (92 ∷ c ∷ e) (d ∷ s)
unfolding unquote decoded escaped lex
Lexes-simple c d e s h n k l = record {
  split = λ t.
      passes plain escape 92 (c ∷ e) t refl
        (passes escape plain c e t (lex-escape c h) (l.split t));
  meant = rw (n, k, l.meant);
}

under_128 :
    (r : ℕ) (m : Option ℕ) → is_surrogate r ≡ false → unicode_escape r m ≡ (encode_rune r, 5)
unfolding unicode_escape
under_128 r none h = rw h
under_128 r (some low) h = rw h

escaped-unicode :
    (a b c d r : ℕ) (e : Bytes)
    → 4096 * hex_value a + 256 * hex_value b + 16 * hex_value c + hex_value d ≡ r
    → is_surrogate r ≡ false
    → escaped (b'u' ∷ a ∷ b ∷ c ∷ d ∷ e) ≡ (encode_rune r, 5)
unfolding escaped hex4 drop4
escaped-unicode a b c d r e value plain_rune = rw (value, under_128 r (low_half e) plain_rune)

-- A `\u` escape of four digits that is no surrogate stands for its code point.
pub Lexes-unicode :
    (a b c d r : ℕ) (e s : Bytes)
    → is_hex a ≡ true
    → is_hex b ≡ true
    → is_hex c ≡ true
    → is_hex d ≡ true
    → 4096 * hex_value a + 256 * hex_value b + 16 * hex_value c + hex_value d ≡ r
    → is_surrogate r ≡ false
    → Lexes e s
    → Lexes (92 ∷ b'u' ∷ a ∷ b ∷ c ∷ d ∷ e) (encode_rune r ++ s)
unfolding unquote decoded lex
Lexes-unicode a b c d r e s ha hb hc hd value plain_rune l = record {
  split = λ t. passes plain escape 92 _ t refl (
      passes escape (hex 3) b'u' _ t refl (
        passes (hex 3) (hex 2) a _ t (lex-hex 2 a ha) (
          passes (hex 2) (hex 1) b _ t (lex-hex 1 b hb) (
            passes (hex 1) (hex 0) c _ t (lex-hex 0 c hc)
              (passes (hex 0) plain d e t (lex-last d hd) (l.split t))))));
  meant =
      unquote-front 92 (b'u' ∷ a ∷ b ∷ c ∷ d ∷ e) _ 5 (escaped-unicode a b c d r e value plain_rune)
      ∙ ap (λ x. encode_rune r ++ x) l.meant;
}

pub Lexes-two :
    (a b : ℕ) (e s : Bytes)
    → ltb a 0x80 ≡ false
    → is_pair a b ≡ true
    → Lexes e s
    → Lexes (a ∷ b ∷ e) (a ∷ b ∷ s)
unfolding unquote decoded copied
Lexes-two a b e s h p l = record {
  split = λ t.
      passes plain plain a (b ∷ e) t (lex-wide a h)
        (passes plain plain b e t (lex-wide b (ground arith)) (l.split t));
  meant = rw ((wide a h).1, rune_width-two a b e h p, l.meant);
}

pub Lexes-three :
    (a b c : ℕ) (e s : Bytes)
    → ltb a 0x80 ≡ false
    → is_pair a b ≡ false
    → is_triple a b c ≡ true
    → Lexes e s
    → Lexes (a ∷ b ∷ c ∷ e) (a ∷ b ∷ c ∷ s)
unfolding unquote decoded copied
Lexes-three a b c e s h p q l = record {
  split = λ t. passes plain plain a (b ∷ c ∷ e) t (lex-wide a h) (
      passes plain plain b (c ∷ e) t (lex-wide b (ground arith))
        (passes plain plain c e t (lex-wide c (ground arith)) (l.split t)));
  meant = rw ((wide a h).1, rune_width-three a b c e h p q, l.meant);
}

pub Lexes-four :
    (a b c d : ℕ) (e s : Bytes)
    → ltb a 0x80 ≡ false
    → is_pair a b ≡ false
    → is_triple a b c ≡ false
    → is_quadruple a b c d ≡ true
    → Lexes e s
    → Lexes (a ∷ b ∷ c ∷ d ∷ e) (a ∷ b ∷ c ∷ d ∷ s)
unfolding unquote decoded copied
Lexes-four a b c d e s h p q u l = record {
  split = λ t. passes plain plain a (b ∷ c ∷ d ∷ e) t (lex-wide a h) (
      passes plain plain b (c ∷ d ∷ e) t (lex-wide b (ground arith)) (
        passes plain plain c (d ∷ e) t (lex-wide c (ground arith))
          (passes plain plain d e t (lex-wide d (ground arith)) (l.split t))));
  meant = rw ((wide a h).1, rune_width-four a b c d e h p q u, l.meant);
}
