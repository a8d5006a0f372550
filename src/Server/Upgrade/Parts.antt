-- ===== src/Server/Upgrade/Parts.antt =====
-- The parts of a header value between its commas, which internal/httpserver/server.go takes by
-- `strings.Split`.
use rook_servicechannel_gate.Base.{
  ℕ, ◌≡◌, ◌==◌, ==_iff, ◌∙◌, true, false, refl, sym, subst, ap, List, [], ◌∷◌, ◌++◌, ◌⊎◌, inl, inr,
  Any, All, Bool-cases,
}
use rook_servicechannel_gate.Base.Text.{Bytes}
use rook_servicechannel_gate.Server.Mux.{push_first, split_commas}

-- The text begins with this part, which has no comma, and there the text ends or a comma comes.
pub record Begins (v part : Bytes) : Type 0 where
  pub rest : Bytes
  pub whole : v ≡ part ++ rest
  pub no_comma : All (λ (c : ℕ). (c == b',') ≡ false) part
  pub ends : (rest ≡ []) ⊎ ((q : Bytes) × (rest ≡ b',' ∷ q))

-- A part stands at the beginning or behind a comma.
abbrev pub IsPart : Bytes → Bytes → Type 0
IsPart v part = Begins v part ⊎ ((before q : Bytes) × (v ≡ before ++ b',' ∷ q) × Begins q part)

-- A comma begins a new part, and every other byte belongs to the first.
split_commas-comma :
    (c : ℕ) (s : Bytes) → (c == b',') ≡ true → split_commas (c ∷ s) ≡ [] ∷ split_commas s
unfolding split_commas
split_commas-comma c s e = rw e refl

split_commas-byte :
    (c : ℕ) (s h : Bytes) (t : List Bytes)
    → (c == b',') ≡ false
    → split_commas s ≡ h ∷ t
    → split_commas (c ∷ s) ≡ (c ∷ h) ∷ t
unfolding split_commas push_first
split_commas-byte c s h t e f = rw (e, f) refl

module _ (P : Bytes → Type 0) where
  -- The first of the parts begins the text, and the others stand behind commas.
  record Split (v : Bytes) : Type 0 where
    head : Bytes
    tail : List Bytes
    parts : split_commas v ≡ head ∷ tail
    begins : Begins v head
    others :
        Any P tail → (before q part : Bytes) × (v ≡ before ++ b',' ∷ q) × Begins q part × P part

  split : (v : Bytes) → Split v
  split [] = record {
    head = [];
    tail = [];
    parts = unfold split_commas in refl;
    begins = record { rest = []; whole = refl; no_comma = tt; ends = inl refl };
    others = λ h. absurd h;
  }
  split (c ∷ s) = at_byte (split s) (Bool-cases (c == b','))
    where
      at_tail :
          (r : Split s)
          → c ≡ b','
          → Any P (r.head ∷ r.tail)
          → (before q part : Bytes) × (c ∷ s ≡ before ++ b',' ∷ q) × Begins q part × P part
      at_tail r e (inl p) = ([], s, r.head, ap (λ x. x ∷ s) e, r.begins, p)
      at_tail r e (inr h) =
          let (before, q, part, whole, begins, p) = r.others h in
          (c ∷ before, q, part, ap (λ l. c ∷ l) whole, begins, p)

      at_byte : Split s → ((c == b',') ≡ true) ⊎ ((c == b',') ≡ false) → Split (c ∷ s)
      at_byte r (inl comma) =
          let is_comma : c ≡ b',' = (==_iff c b',').0 comma in
          record {
            head = [];
            tail = r.head ∷ r.tail;
            parts = split_commas-comma c s comma ∙ ap (λ l. [] ∷ l) r.parts;
            begins = record {
              rest = c ∷ s;
              whole = refl;
              no_comma = tt;
              ends = inr (s, ap (λ x. x ∷ s) is_comma);
            };
            others = λ h. at_tail r is_comma h;
          }
      at_byte r (inr byte) = record {
        head = c ∷ r.head;
        tail = r.tail;
        parts = split_commas-byte c s r.head r.tail byte r.parts;
        begins = record {
          rest = r.begins.rest;
          whole = ap (λ l. c ∷ l) r.begins.whole;
          no_comma = (byte, r.begins.no_comma);
          ends = r.begins.ends;
        };
        others = λ h.
            let (before, q, part, whole, begins, p) = r.others h in
            (c ∷ before, q, part, ap (λ l. c ∷ l) whole, begins, p);
      }

  pub split_commas-IsPart :
      (v : Bytes) → Any P (split_commas v) → (part : Bytes) × IsPart v part × P part
  split_commas-IsPart v h = of_split (split v)
    where
      of_parts : (r : Split v) → Any P (r.head ∷ r.tail) → (part : Bytes) × IsPart v part × P part
      of_parts r (inl p) = (r.head, inl r.begins, p)
      of_parts r (inr later) =
          let (before, q, part, whole, begins, p) = r.others later in
          (part, inr (before, q, whole, begins), p)

      of_split : Split v → (part : Bytes) × IsPart v part × P part
      of_split r = of_parts r (subst (Any P) r.parts h)

  -- A part that begins the text is the first of the list.
  first_part :
      (part rest : Bytes)
      → All (λ (c : ℕ). (c == b',') ≡ false) part
      → (rest ≡ []) ⊎ ((q : Bytes) × (rest ≡ b',' ∷ q))
      → (t : List Bytes) × (split_commas (part ++ rest) ≡ part ∷ t)
  first_part [] rest u (inl e) = ([], ap split_commas e ∙ unfold split_commas in refl)
  first_part [] rest u (inr (q, e)) =
      (split_commas q, ap split_commas e ∙ split_commas-comma b',' q refl)
  first_part (c ∷ part) rest (byte, u) ends =
      let (t, e) = first_part part rest u ends in
      (t, split_commas-byte c (part ++ rest) part t byte e)

  Begins-Any : (v part : Bytes) → Begins v part → P part → Any P (split_commas v)
  Begins-Any v part b p =
      let (t, e) = first_part part b.rest b.no_comma b.ends in
      subst (Any P) (sym (ap split_commas b.whole ∙ e)) (inl p)

  -- What holds of a part behind a comma holds of one of the list, and not of the first.
  behind_comma :
      (before q : Bytes)
      → Any P (split_commas q)
      → (h : Bytes) × (t : List Bytes) × (split_commas (before ++ b',' ∷ q) ≡ h ∷ t) × Any P t
  behind_comma [] q h = ([], split_commas q, split_commas-comma b',' q refl, h)
  behind_comma (c ∷ before) q h =
      let (head, tail, e, later) = behind_comma before q h in
      elim (Bool-cases (c == b',')) [
        | inl comma ↦ (
          [],
          head ∷ tail,
          split_commas-comma c (before ++ b',' ∷ q) comma ∙ ap (λ l. [] ∷ l) e,
          inr later,
        )
        | inr byte ↦
            (c ∷ head, tail, split_commas-byte c (before ++ b',' ∷ q) head tail byte e, later)
      ]

  pub IsPart-split_commas : (v part : Bytes) → IsPart v part → P part → Any P (split_commas v)
  IsPart-split_commas v part (inl b) p = Begins-Any v part b p
  IsPart-split_commas v part (inr (before, q, e, b)) p =
      let (h, t, split, later) = behind_comma before q (Begins-Any q part b p) in
      subst (Any P) (sym (ap split_commas e ∙ split)) (inr later)
