-- ===== src/Json/Trimmed.antt =====
-- `strings.TrimSpace` on texts in UTF-8.
use mathlib.Core.List.{reverse, reverse-append, reverse-reverse}
use rook_servicechannel_gate.Base.{
  ℕ, ◌≡◌, refl, sym, ap, ◌∙◌, subst, true, false, [], ◌∷◌, ◌++◌, ltb, arith, Bool-cases, inl, inr,
  if◌then◌else◌,
}
use rook_servicechannel_gate.Base.Text.{Bytes}
use rook_servicechannel_gate.Base.Text.Trim.{
  is_ascii_space, is_space_2, is_space_3, space_width, space_width_back, strip, trim_left,
  trim_space,
}
use rook_servicechannel_gate.Json.Utf8.{in_range, is_pair, is_triple, utf8_valid}
use rook_servicechannel_gate.Json.Runes.{Runes, over, one, two, three, four, runes}
use rook_servicechannel_gate.Json.Encoded.{Runes-valid}

space_width-one :
    (a : ℕ) (s : Bytes)
    → ltb a 0x80 ≡ true
    → space_width (a ∷ s) ≡ (if is_ascii_space a then 1 else 0)
unfolding space_width
space_width-one a [] h = refl
space_width-one a (b ∷ []) h = ground arith
space_width-one a (b ∷ c ∷ s) h = ground arith

space_width-two :
    (a b : ℕ) (s : Bytes)
    → ltb a 0x80 ≡ false
    → is_pair a b ≡ true
    → space_width (a ∷ b ∷ s) ≡ (if is_space_2 a b then 2 else 0)
unfolding space_width
space_width-two a b [] h p = ground arith
space_width-two a b (c ∷ s) h p = ground arith

space_width-three :
    (a b c : ℕ) (s : Bytes)
    → ltb a 0x80 ≡ false
    → is_pair a b ≡ false
    → space_width (a ∷ b ∷ c ∷ s) ≡ (if is_space_3 a b c then 3 else 0)
unfolding space_width
space_width-three a b c s h p = ground arith

space_width-four :
    (a b c d : ℕ) (s : Bytes)
    → ltb a 0x80 ≡ false
    → is_pair a b ≡ false
    → is_triple a b c ≡ false
    → space_width (a ∷ b ∷ c ∷ d ∷ s) ≡ 0
unfolding space_width
space_width-four a b c d s h p t = ground arith

-- The front goes by whole code points.
strip-Runes : (s : Bytes) → Runes s → Runes (strip space_width 0 s)
unfolding strip
strip-Runes _ over = over
strip-Runes _ (one {a} {s} h r) = elim (Bool-cases (is_ascii_space a)) [
  | inl space ↦ rw (space_width-one a s h, strip, space) (strip-Runes s r)
  | inr other ↦ rw (space_width-one a s h, strip, other) (one h r)
]
strip-Runes _ (two {a} {b} {s} h p r) = elim (Bool-cases (is_space_2 a b)) [
  | inl space ↦ rw (space_width-two a b s h p, strip, space) (strip-Runes s r)
  | inr other ↦ rw (space_width-two a b s h p, strip, other) (two h p r)
]
strip-Runes _ (three {a} {b} {c} {s} h p t r) = elim (Bool-cases (is_space_3 a b c)) [
  | inl space ↦ rw (space_width-three a b c s h p, strip, space) (strip-Runes s r)
  | inr other ↦ rw (space_width-three a b c s h p, strip, other) (three h p t r)
]
strip-Runes _ (four {a} {b} {c} {d} {s} h p t q r) =
    rw (space_width-four a b c d s h p t, strip) (four h p t q r)

-- What stands before a byte that begins a code point is whole.
before_lead :
    (p : Bytes) (k : ℕ) (q t : Bytes)
    → t ≡ p ++ k ∷ q
    → in_range 0x80 0xBF k ≡ false
    → Runes t
    → Runes p
before_lead [] k q t e lead r = over
before_lead (x ∷ p) k q _ e lead over = absurd (ground arith)
before_lead (x ∷ p) k q _ e lead (one {a} {s} h r) =
    let same : a ≡ x = ground arith in
    rw (← same) (one h (before_lead p k q s (ground arith) lead r))
before_lead (x ∷ []) k q _ e lead (two {a} {b} h w r) = absurd (ground arith)
before_lead (x ∷ y ∷ p) k q _ e lead (two {a} {b} {s} h w r) =
    let same : a ≡ x = ground arith in
    let same' : b ≡ y = ground arith in
    rw (← same, ← same') (two h w (before_lead p k q s (ground arith) lead r))
before_lead (x ∷ []) k q _ e lead (three {a} {b} {c} h w t r) = absurd (ground arith)
before_lead (x ∷ y ∷ []) k q _ e lead (three {a} {b} {c} h w t r) = absurd (ground arith)
before_lead (x ∷ y ∷ z ∷ p) k q _ e lead (three {a} {b} {c} {s} h w t r) =
    let same : a ≡ x = ground arith in
    let same' : b ≡ y = ground arith in
    let same'' : c ≡ z = ground arith in
    rw (← same, ← same', ← same'') (three h w t (before_lead p k q s (ground arith) lead r))
before_lead (x ∷ []) k q _ e lead (four {a} {b} {c} {d} h w t u r) = absurd (ground arith)
before_lead (x ∷ y ∷ []) k q _ e lead (four {a} {b} {c} {d} h w t u r) = absurd (ground arith)
before_lead (x ∷ y ∷ z ∷ []) k q _ e lead (four {a} {b} {c} {d} h w t u r) = absurd (ground arith)
before_lead (x ∷ y ∷ z ∷ v ∷ p) k q _ e lead (four {a} {b} {c} {d} {s} h w t u r) =
    let same : a ≡ x = ground arith in
    let same' : b ≡ y = ground arith in
    let same'' : c ≡ z = ground arith in
    let same''' : d ≡ v = ground arith in
    rw (← same, ← same', ← same'', ← same''')
      (four h w t u (before_lead p k q s (ground arith) lead r))

-- The same for a text in reverse, of which `f` goes.
behind_lead :
    (f s q : Bytes) (k : ℕ)
    → reverse f ≡ k ∷ q
    → in_range 0x80 0xBF k ≡ false
    → Runes (reverse (f ++ s))
    → Runes (reverse s)
behind_lead f s q k e lead r =
    before_lead (reverse s) k q (reverse (f ++ s))
      (reverse-append f s ∙ ap (λ (x : Bytes). reverse s ++ x) e) lead r

strip_back-Runes : (u : Bytes) → Runes (reverse u) → Runes (reverse (strip space_width_back 0 u))
unfolding strip space_width_back
strip_back-Runes [] r = r
strip_back-Runes (c ∷ []) r = elim (Bool-cases (is_ascii_space c)) [
  | inl space ↦ rw (strip, space) over
  | inr other ↦ rw (strip, other) r
]
strip_back-Runes (c ∷ b ∷ []) r = elim (Bool-cases (is_ascii_space c)) [
  | inl space ↦
      let rest =
        strip_back-Runes (b ∷ []) (behind_lead (c ∷ []) (b ∷ []) [] c refl (ground arith) r) in
      rw (strip, space) rest
  | inr other ↦ elim (Bool-cases (is_space_2 b c)) [
    | inl space ↦ rw (strip, other, space) over
    | inr more ↦ rw (strip, other, more) r
  ]
]
strip_back-Runes (c ∷ b ∷ a ∷ s) r = elim (Bool-cases (is_ascii_space c)) [
  | inl space ↦
      let rest =
        strip_back-Runes (b ∷ a ∷ s)
          (behind_lead (c ∷ []) (b ∷ a ∷ s) [] c refl (ground arith) r) in
      rw (strip, space) rest
  | inr other ↦ elim (Bool-cases (is_space_2 b c)) [
    | inl space ↦
        let rest =
          strip_back-Runes (a ∷ s)
            (behind_lead (c ∷ b ∷ []) (a ∷ s) (c ∷ []) b refl (ground arith) r) in
        rw (strip, other, space) rest
    | inr more ↦ elim (Bool-cases (is_space_3 a b c)) [
      | inl space ↦
          let rest =
            strip_back-Runes s
              (behind_lead (c ∷ b ∷ a ∷ []) s (b ∷ c ∷ []) a refl (ground arith) r) in
          rw (strip, other, more, space) rest
      | inr none_of_them ↦ rw (strip, other, more, none_of_them) r
    ]
  ]
]

-- A text in UTF-8 stays one when the white space round it goes.
pub trim_space-utf8_valid : (s : Bytes) → utf8_valid s ≡ true → utf8_valid (trim_space s) ≡ true
unfolding trim_space utf8_valid trim_left
trim_space-utf8_valid s h = Runes-valid _ (
    strip_back-Runes (reverse (trim_left s))
      (subst Runes (sym (reverse-reverse (trim_left s))) (strip-Runes s (runes s h))))
