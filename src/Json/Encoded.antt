-- ===== src/Json/Encoded.antt =====
-- Code points whose encoding is UTF-8, and how any text begins.
use rook_servicechannel_gate.Base.{
  ℕ, ◌+◌, ◌/◌, ◌%◌, ◌≤◌, ◌<◌, ◌≡◌, refl, true, false, [], ◌∷◌, ◌++◌, ltb, arith, Bool-cases, inl,
  inr,
}
use rook_servicechannel_gate.Base.Text.{Bytes}
use rook_servicechannel_gate.Json.Utf8.{
  in_range, rune_width, valid_from, encode_rune, replacement, is_pair, is_triple, is_quadruple,
}
use rook_servicechannel_gate.Json.Runes.{
  Runes, over, one, two, three, four, rune_width-one, rune_width-two, rune_width-three,
  rune_width-four,
}

two_bytes :
    (r : ℕ)
    → 0x80 ≤ r
    → r < 0x800
    → (ltb (0xC0 + r / 64) 0x80 ≡ false) × (is_pair (0xC0 + r / 64) (0x80 + r % 64) ≡ true)
two_bytes r h k = ground arith

three_bytes :
    (r : ℕ)
    → 0x800 ≤ r
    → r < 0x10000
    → in_range 0xD800 0xDFFF r ≡ false
    → let a = 0xE0 + r / 4096 in
      let b = 0x80 + r / 64 % 64 in
      let c = 0x80 + r % 64 in
      (ltb a 0x80 ≡ false) × (is_pair a b ≡ false) × (is_triple a b c ≡ true)
three_bytes r h k s = ground arith

four_bytes :
    (r : ℕ)
    → 0x10000 ≤ r
    → r < 0x110000
    → let a = 0xF0 + r / 262144 in
      let b = 0x80 + r / 4096 % 64 in
      let c = 0x80 + r / 64 % 64 in
      let d = 0x80 + r % 64 in
      (ltb a 0x80 ≡ false)
      × (is_pair a b ≡ false)
      × (is_triple a b c ≡ false)
      × (is_quadruple a b c d ≡ true)
four_bytes r h k = ground arith

-- A code point that is no surrogate is encoded in UTF-8.
pub encode_rune-Runes :
    (r : ℕ) (s : Bytes)
    → r < 0x110000
    → in_range 0xD800 0xDFFF r ≡ false
    → Runes s
    → Runes (encode_rune r ++ s)
unfolding encode_rune
encode_rune-Runes r s h k rest = elim (Bool-cases (ltb r 0x80)) [
  | inl p ↦ rw p (one p rest)
  | inr p ↦ elim (Bool-cases (ltb r 0x800)) [
    | inl q ↦ let (a, b) = two_bytes r (ground arith) (ground arith) in rw (p, q) (two a b rest)
    | inr q ↦ elim (Bool-cases (ltb r 0x10000)) [
      | inl t ↦
          let (a, b, c) = three_bytes r (ground arith) (ground arith) k in
          rw (p, q, t) (three a b c rest)
      | inr t ↦ let (a, b, c, d) = four_bytes r (ground arith) h in rw (p, q, t) (four a b c d rest)
    ]
  ]
]

pub replacement-Runes : (s : Bytes) → Runes s → Runes (replacement ++ s)
replacement-Runes s rest = three refl refl refl rest

-- How a text begins.
pub data Front : Bytes → Type 0 where
  broken : {s : Bytes} → rune_width s ≡ 0 → Front s
  one_byte : {a : ℕ} {s : Bytes} → ltb a 0x80 ≡ true → Front (a ∷ s)
  pair : {a b : ℕ} {s : Bytes} → ltb a 0x80 ≡ false → is_pair a b ≡ true → Front (a ∷ b ∷ s)
  triple :
      {a b c : ℕ} {s : Bytes}
      → ltb a 0x80 ≡ false
      → is_pair a b ≡ false
      → is_triple a b c ≡ true
      → Front (a ∷ b ∷ c ∷ s)
  quadruple :
      {a b c d : ℕ} {s : Bytes}
      → ltb a 0x80 ≡ false
      → is_pair a b ≡ false
      → is_triple a b c ≡ false
      → is_quadruple a b c d ≡ true
      → Front (a ∷ b ∷ c ∷ d ∷ s)

pub front : (a : ℕ) (s : Bytes) → Front (a ∷ s)
unfolding rune_width
front a [] = elim (Bool-cases (ltb a 0x80)) [ inl p ↦ one_byte p | inr p ↦ broken (rw p) ]
front a (b ∷ []) = elim (Bool-cases (ltb a 0x80)) [
  | inl p ↦ one_byte p
  | inr p ↦ elim (Bool-cases (is_pair a b)) [ inl q ↦ pair p q | inr q ↦ broken (rw (p, q)) ]
]
front a (b ∷ c ∷ []) = elim (Bool-cases (ltb a 0x80)) [
  | inl p ↦ one_byte p
  | inr p ↦ elim (Bool-cases (is_pair a b)) [
    | inl q ↦ pair p q
    | inr q ↦ elim (Bool-cases (is_triple a b c)) [
      | inl t ↦ triple p q t
      | inr t ↦ broken (rw (p, q, t))
    ]
  ]
]
front a (b ∷ c ∷ d ∷ s) = elim (Bool-cases (ltb a 0x80)) [
  | inl p ↦ one_byte p
  | inr p ↦ elim (Bool-cases (is_pair a b)) [
    | inl q ↦ pair p q
    | inr q ↦ elim (Bool-cases (is_triple a b c)) [
      | inl t ↦ triple p q t
      | inr t ↦ elim (Bool-cases (is_quadruple a b c d)) [
        | inl u ↦ quadruple p q t u
        | inr u ↦ broken (rw (p, q, t, u))
      ]
    ]
  ]
]

pub Runes-valid : (s : Bytes) → Runes s → valid_from 0 s ≡ true
unfolding valid_from
Runes-valid _ over = refl
Runes-valid _ (one {a} {s} h r) = rw (rune_width-one a s h, valid_from) (Runes-valid s r)
Runes-valid _ (two {a} {b} {s} h p r) = rw (rune_width-two a b s h p, valid_from) (Runes-valid s r)
Runes-valid _ (three {a} {b} {c} {s} h p t r) =
    rw (rune_width-three a b c s h p t, valid_from) (Runes-valid s r)
Runes-valid _ (four {a} {b} {c} {d} {s} h p t q r) =
    rw (rune_width-four a b c d s h p t q, valid_from) (Runes-valid s r)
