-- ===== src/Json/Runes.antt =====
-- A valid UTF-8 text code point by code point.
use rook_servicechannel_gate.Base.{ℕ, suc, ◌≡◌, true, false, [], ◌∷◌, ltb, Bool-cases, inl, inr}
use rook_servicechannel_gate.Base.Text.{Bytes}
use rook_servicechannel_gate.Json.Utf8.{rune_width, valid_from, is_pair, is_triple, is_quadruple}

-- The text begins with a code point of one, two, three or four bytes, and so on.
pub data Runes : Bytes → Type 0 where
  over : Runes []
  one : {a : ℕ} {s : Bytes} → ltb a 0x80 ≡ true → Runes s → Runes (a ∷ s)
  two :
      {a b : ℕ} {s : Bytes} → ltb a 0x80 ≡ false → is_pair a b ≡ true → Runes s → Runes (a ∷ b ∷ s)
  three :
      {a b c : ℕ} {s : Bytes}
      → ltb a 0x80 ≡ false
      → is_pair a b ≡ false
      → is_triple a b c ≡ true
      → Runes s
      → Runes (a ∷ b ∷ c ∷ s)
  four :
      {a b c d : ℕ} {s : Bytes}
      → ltb a 0x80 ≡ false
      → is_pair a b ≡ false
      → is_triple a b c ≡ false
      → is_quadruple a b c d ≡ true
      → Runes s
      → Runes (a ∷ b ∷ c ∷ d ∷ s)

pub rune_width-one : (a : ℕ) (s : Bytes) → ltb a 0x80 ≡ true → rune_width (a ∷ s) ≡ 1
unfolding rune_width
rune_width-one a [] h = rw h
rune_width-one a (b ∷ []) h = rw h
rune_width-one a (b ∷ c ∷ []) h = rw h
rune_width-one a (b ∷ c ∷ d ∷ s) h = rw h

pub rune_width-two :
    (a b : ℕ) (s : Bytes) → ltb a 0x80 ≡ false → is_pair a b ≡ true → rune_width (a ∷ b ∷ s) ≡ 2
unfolding rune_width
rune_width-two a b [] h p = rw (h, p)
rune_width-two a b (c ∷ []) h p = rw (h, p)
rune_width-two a b (c ∷ d ∷ s) h p = rw (h, p)

pub rune_width-three :
    (a b c : ℕ) (s : Bytes)
    → ltb a 0x80 ≡ false
    → is_pair a b ≡ false
    → is_triple a b c ≡ true
    → rune_width (a ∷ b ∷ c ∷ s) ≡ 3
unfolding rune_width
rune_width-three a b c [] h p t = rw (h, p, t)
rune_width-three a b c (d ∷ s) h p t = rw (h, p, t)

pub rune_width-four :
    (a b c d : ℕ) (s : Bytes)
    → ltb a 0x80 ≡ false
    → is_pair a b ≡ false
    → is_triple a b c ≡ false
    → is_quadruple a b c d ≡ true
    → rune_width (a ∷ b ∷ c ∷ d ∷ s) ≡ 4
unfolding rune_width
rune_width-four a b c d s h p t q = rw (h, p, t, q)

behind :
    (a : ℕ) (s : Bytes) (w : ℕ)
    → rune_width (a ∷ s) ≡ suc w
    → valid_from 0 (a ∷ s) ≡ true
    → valid_from w s ≡ true
unfolding valid_from
behind a s w e h = rw (e, valid_from) at h

no_front :
    {A : Type 0} (a : ℕ) (s : Bytes) → rune_width (a ∷ s) ≡ 0 → valid_from 0 (a ∷ s) ≡ true → A
unfolding valid_from
no_front a s e h = let never : false ≡ true = rw (e, valid_from) at h in cc

pub runes : (s : Bytes) → valid_from 0 s ≡ true → Runes s
unfolding valid_from
runes [] h = over
runes (a ∷ []) h = elim (Bool-cases (ltb a 0x80)) [
  | inl p ↦ one p over
  | inr p ↦ no_front a [] (unfold rune_width in rw p) h
]
runes (a ∷ b ∷ []) h = elim (Bool-cases (ltb a 0x80)) [
  | inl p ↦ one p (runes (b ∷ []) (behind a (b ∷ []) 0 (rune_width-one a (b ∷ []) p) h))
  | inr p ↦ elim (Bool-cases (is_pair a b)) [
    | inl q ↦ two p q over
    | inr q ↦ no_front a (b ∷ []) (unfold rune_width in rw (p, q)) h
  ]
]
runes (a ∷ b ∷ c ∷ []) h = elim (Bool-cases (ltb a 0x80)) [
  | inl p ↦ one p (runes (b ∷ c ∷ []) (behind a (b ∷ c ∷ []) 0 (rune_width-one a (b ∷ c ∷ []) p) h))
  | inr p ↦ elim (Bool-cases (is_pair a b)) [
    | inl q ↦ two p q (runes (c ∷ []) (behind a (b ∷ c ∷ []) 1 (rune_width-two a b (c ∷ []) p q) h))
    | inr q ↦ elim (Bool-cases (is_triple a b c)) [
      | inl r ↦ three p q r over
      | inr r ↦ no_front a (b ∷ c ∷ []) (unfold rune_width in rw (p, q, r)) h
    ]
  ]
]
runes (a ∷ b ∷ c ∷ d ∷ s) h = elim (Bool-cases (ltb a 0x80)) [
  | inl p ↦ one p (runes (b ∷ c ∷ d ∷ s) (behind a _ 0 (rune_width-one a (b ∷ c ∷ d ∷ s) p) h))
  | inr p ↦ elim (Bool-cases (is_pair a b)) [
    | inl q ↦ two p q (runes (c ∷ d ∷ s) (behind a _ 1 (rune_width-two a b (c ∷ d ∷ s) p q) h))
    | inr q ↦ elim (Bool-cases (is_triple a b c)) [
      | inl r ↦ three p q r (runes (d ∷ s) (behind a _ 2 (rune_width-three a b c (d ∷ s) p q r) h))
      | inr r ↦ elim (Bool-cases (is_quadruple a b c d)) [
        | inl u ↦ four p q r u (runes s (behind a _ 3 (rune_width-four a b c d s p q r u) h))
        | inr u ↦ no_front a (b ∷ c ∷ d ∷ s) (unfold rune_width in rw (p, q, r, u)) h
      ]
    ]
  ]
]
