-- ===== src/Json/Encode/Scanned.antt =====
-- The scanner of strings on what `json.Marshal` writes.
use mathlib.Core.List.{append_assoc}
use rook_servicechannel_gate.Base.{
  ℕ, suc, ◌+◌, ◌*◌, ◌/◌, ◌%◌, ◌<◌, ◌≡◌, refl, sym, ◌∙◌, ap, subst, ◌⊎◌, Bool, true, false, ◌&&◌,
  ◌||◌, some, [], ◌∷◌, ◌++◌, ◌==◌, ltb, arith, inl, inr, if◌then◌else◌,
}
use rook_servicechannel_gate.Base.Text.{Bytes}
use rook_servicechannel_gate.Json.Utf8.{encode_rune, rune_width, utf8_valid, is_pair, is_triple}
use rook_servicechannel_gate.Json.Runes.{
  Runes, over, one, two, three, four, runes, rune_width-one, rune_width-two, rune_width-three,
  rune_width-four,
}
use rook_servicechannel_gate.Json.Lexical.{
  hex_value, is_hex, scan_string, is_simple_escape, simple_escape, is_surrogate,
}
use rook_servicechannel_gate.Json.Lexical.Lexes.{
  Lexes, Lexes-over, Lexes-plain, Lexes-simple, Lexes-unicode, Lexes-two, Lexes-three, Lexes-four,
  Lexes-scan,
}
use rook_servicechannel_gate.Json.Encode.{
  hex_digit, unicode_00, encode_ascii, encode_triple, encode_front, encode_from, encode_string,
  is_escaped,
}

hex_digit-is_hex : (d : ℕ) → d < 16 → is_hex (hex_digit d) ≡ true
unfolding hex_digit
hex_digit-is_hex d h = ground arith

hex_value-hex_digit : (d : ℕ) → d < 16 → hex_value (hex_digit d) ≡ d
unfolding hex_value hex_digit
hex_value-hex_digit d h = ground arith

encode_rune-ascii : (c : ℕ) → ltb c 0x80 ≡ true → encode_rune c ≡ c ∷ []
unfolding encode_rune
encode_rune-ascii c h = rw h

below_128 : (c : ℕ) → ltb c 0x80 ≡ true → c < 0x80
below_128 c h = ground arith

no_surrogate : (c : ℕ) → ltb c 0x80 ≡ true → is_surrogate c ≡ false
no_surrogate c h = ground arith

two_digits :
    (c : ℕ)
    → c < 0x80
    → 4096 * hex_value b'0'
        + 256 * hex_value b'0'
        + 16 * hex_value (hex_digit (c / 16))
        + hex_value (hex_digit (c % 16))
      ≡ c
two_digits c h =
    rw (hex_value-hex_digit (c / 16) (omega (arith, h)), hex_value-hex_digit (c % 16) (omega arith))
      (zero_digits c)
  where
    zero_digits :
        (c : ℕ) → 4096 * hex_value b'0' + 256 * hex_value b'0' + 16 * (c / 16) + c % 16 ≡ c
    zero_digits c = unfold hex_value in omega arith

unicode_00-Lexes :
    (c : ℕ) (e s : Bytes) → ltb c 0x80 ≡ true → Lexes e s → Lexes (unicode_00 c ++ e) (c ∷ s)
unfolding unicode_00
unicode_00-Lexes c e s small l =
    let bound = below_128 c small in
    let high = hex_digit-is_hex (c / 16) (omega (arith, bound)) in
    let low = hex_digit-is_hex (c % 16) (omega arith) in
    let read =
      Lexes-unicode b'0' b'0' (hex_digit (c / 16)) (hex_digit (c % 16)) c e s refl refl high low
        (two_digits c bound) (no_surrogate c small) l in
    subst (λ out. Lexes (unicode_00 c ++ e) (out ++ s)) (encode_rune-ascii c small) read

-- Both branches of a test are literals for the text.
choose :
    (b : Bool) (x y e s : Bytes)
    → (b ≡ true → Lexes (x ++ e) s)
    → (b ≡ false → Lexes (y ++ e) s)
    → Lexes ((if b then x else y) ++ e) s
choose true x y e s f g = f refl
choose false x y e s f g = g refl

-- A letter behind a backslash.
letter :
    (n d c : ℕ) (e s : Bytes)
    → is_simple_escape d ≡ true
    → (d == b'u') ≡ false
    → simple_escape d ≡ n
    → Lexes e s
    → (c == n) ≡ true
    → Lexes (92 ∷ d ∷ e) (c ∷ s)
letter n d c e s h k v l same =
    let equal : n ≡ c = ground arith in Lexes-simple d c e s h k (v ∙ equal) l

encode_ascii-Lexes :
    (c : ℕ) (e s : Bytes) → ltb c 0x80 ≡ true → Lexes e s → Lexes (encode_ascii c ++ e) (c ∷ s)
unfolding encode_ascii simple_escape
encode_ascii-Lexes c e s small l =
    choose (c == 34 || c == 92) _ _ e (c ∷ s)
      (λ h. Lexes-simple c c e s (ground arith) (ground arith) (ground arith) l)
      (λ quote. choose (c == 8) _ _ e (c ∷ s) (letter 8 b'b' c e s refl refl refl l) (λ b.
        choose (c == 12) _ _ e (c ∷ s) (letter 12 b'f' c e s refl refl refl l) (λ f.
          choose (c == 10) _ _ e (c ∷ s) (letter 10 b'n' c e s refl refl refl l) (λ n.
            choose (c == 13) _ _ e (c ∷ s) (letter 13 b'r' c e s refl refl refl l) (λ r.
              choose (c == 9) _ _ e (c ∷ s) (letter 9 b't' c e s refl refl refl l) (λ t.
                choose (is_escaped c) _ _ e (c ∷ s) (λ h. unicode_00-Lexes c e s small l)
                  (λ h.
                    Lexes-plain c e s small (ground arith) (ground arith) (ground arith) l)))))))

-- U+2028 and U+2029.
separator :
    (d l : ℕ) (e s : Bytes)
    → is_hex d ≡ true
    → hex_value d ≡ l
    → (l ≡ 8) ⊎ (l ≡ 9)
    → Lexes e s
    → Lexes (92 ∷ b'u' ∷ b'2' ∷ b'0' ∷ b'2' ∷ d ∷ e) (0xE2 ∷ 0x80 ∷ (0xA0 + l) ∷ s)
unfolding encode_rune
separator d l e s h v (inl k) q =
    subst (λ out. Lexes (92 ∷ b'u' ∷ b'2' ∷ b'0' ∷ b'2' ∷ d ∷ e) (0xE2 ∷ 0x80 ∷ (0xA0 + out) ∷ s))
      (sym k)
      (Lexes-unicode b'2' b'0' b'2' d 8232 e s refl refl refl h (unfold hex_value in rw (v, k)) refl
        q)
separator d l e s h v (inr k) q =
    subst (λ out. Lexes (92 ∷ b'u' ∷ b'2' ∷ b'0' ∷ b'2' ∷ d ∷ e) (0xE2 ∷ 0x80 ∷ (0xA0 + out) ∷ s))
      (sym k)
      (Lexes-unicode b'2' b'0' b'2' d 8233 e s refl refl refl h (unfold hex_value in rw (v, k)) refl
        q)

same_three :
    (a b c a' b' c' : ℕ) (e s : Bytes)
    → (a == a' && b == b' && c == c') ≡ true
    → Lexes e (a' ∷ b' ∷ c' ∷ s)
    → Lexes e (a ∷ b ∷ c ∷ s)
same_three a b c a' b' c' e s h l =
    let front : a ≡ a' = ground arith in
    let middle : b ≡ b' = ground arith in
    let last : c ≡ c' = ground arith in subst (Lexes e) (rw (front, middle, last)) l

encode_triple-Lexes :
    (a b c : ℕ) (e s : Bytes)
    → ltb a 0x80 ≡ false
    → is_pair a b ≡ false
    → is_triple a b c ≡ true
    → Lexes e s
    → Lexes (encode_triple a b c ++ e) (a ∷ b ∷ c ∷ s)
unfolding encode_triple hex_value
encode_triple-Lexes a b c e s h p t l =
    choose (a == 0xE2 && b == 0x80 && c == 0xA8) _ _ e (a ∷ b ∷ c ∷ s)
      (λ k. same_three a b c 0xE2 0x80 0xA8 _ s k (separator b'8' 8 e s refl refl (inl refl) l))
      (λ line.
        choose (a == 0xE2 && b == 0x80 && c == 0xA9) _ _ e (a ∷ b ∷ c ∷ s)
          (λ k. same_three a b c 0xE2 0x80 0xA9 _ s k (separator b'9' 9 e s refl refl (inr refl) l))
          (λ paragraph. Lexes-three a b c e s h p t l))

encode_from-front :
    (a : ℕ) (s : Bytes) (w : ℕ)
    → rune_width (a ∷ s) ≡ suc w
    → encode_from 0 (a ∷ s) ≡ encode_front (suc w) (a ∷ s) ++ encode_from w s
unfolding encode_from
encode_from-front a s w h = rw (encode_from, h)

encode_from-Lexes : (s : Bytes) → Runes s → Lexes (encode_from 0 s) s
unfolding encode_from encode_front
encode_from-Lexes _ over = Lexes-over
encode_from-Lexes _ (one {a} {s} h r) =
    subst (λ e. Lexes e (a ∷ s)) (sym (encode_from-front a s 0 (rune_width-one a s h)))
      (encode_ascii-Lexes a (encode_from 0 s) s h (encode_from-Lexes s r))
encode_from-Lexes _ (two {a} {b} {s} h p r) =
    subst (λ e. Lexes e (a ∷ b ∷ s))
      (sym (encode_from-front a (b ∷ s) 1 (rune_width-two a b s h p)))
      (Lexes-two a b (encode_from 0 s) s h p (encode_from-Lexes s r))
encode_from-Lexes _ (three {a} {b} {c} {s} h p t r) =
    subst (λ e. Lexes e (a ∷ b ∷ c ∷ s))
      (sym (encode_from-front a (b ∷ c ∷ s) 2 (rune_width-three a b c s h p t)))
      (encode_triple-Lexes a b c (encode_from 0 s) s h p t (encode_from-Lexes s r))
encode_from-Lexes _ (four {a} {b} {c} {d} {s} h p t q r) =
    subst (λ e. Lexes e (a ∷ b ∷ c ∷ d ∷ s))
      (sym (encode_from-front a (b ∷ c ∷ d ∷ s) 3 (rune_width-four a b c d s h p t q)))
      (Lexes-four a b c d (encode_from 0 s) s h p t q (encode_from-Lexes s r))

-- The literal of a valid text is read back as the text, and what follows it is left.
pub scan_string-encode_string :
    (s t : Bytes)
    → utf8_valid s ≡ true
    → (r : Bytes) × (encode_string s ++ t ≡ 34 ∷ r) × (scan_string r ≡ some (s, t))
unfolding encode_string utf8_valid
scan_string-encode_string s t h = (
  encode_from 0 s ++ 34 ∷ t,
  ap (λ x. 34 ∷ x) (append_assoc (encode_from 0 s) (34 ∷ []) t),
  Lexes-scan (encode_from 0 s) s t (encode_from-Lexes s (runes s h)),
)
