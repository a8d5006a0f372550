-- ===== src/Registry/Links/Added.antt =====
-- The map when a session is added under a fresh identifier.
use rook_servicechannel_gate.Base.{
  ℕ, ◌≡◌, sym, ◌∙◌, ap, true, some, [], ◌∷◌, ◌++◌, length, arith, get_elem?, get_elem?-append_last,
  get_elem?-append_cases, get_elem?-append_old, Bool-cases, inl, inr,
}
use rook_servicechannel_gate.Base.Dict.{lookup, put, lookup-put}
use rook_servicechannel_gate.Base.Text.{Bytes, bytes_eq, bytes_eq_iff}
use rook_servicechannel_gate.Session.{Session}
use rook_servicechannel_gate.Session.Rounds.{is_live}
use rook_servicechannel_gate.Registry.Types.{Registry}
use rook_servicechannel_gate.Registry.Links.Types.{IsLinked, IsFresh}

module _ (r : Registry) (linked : IsLinked r) (id : Bytes) (s : Session) (named : s.id ≡ id)
    (live : is_live s ≡ true) (fresh : IsFresh id r) where
  abbrev pub added : Registry
  added = record r {
    sessions = put id (length r.objects) r.sessions;
    objects = r.objects ++ s ∷ [];
  }

  added-reaches :
      (p : ℕ) (t : Session)
      → get_elem? added.objects p ≡ some t
      → is_live t ≡ true
      → lookup t.id added.sessions ≡ some p
  added-reaches p t e l = elim (get_elem?-append_cases r.objects s t p e) [
    | inl old ↦ ground (
      arith,
      lookup-put id t.id (length r.objects) r.sessions,
      bytes_eq_iff id t.id,
      linked.reaches p t old l,
      fresh p t old,
    )
    | inr (at, same) ↦
        ground (arith, lookup-put id t.id (length r.objects) r.sessions, bytes_eq_iff id t.id)
  ]

  added-leads :
      (j : Bytes) (p : ℕ)
      → lookup j added.sessions ≡ some p
      → (t : Session) × (get_elem? added.objects p ≡ some t) × (t.id ≡ j) × (is_live t ≡ true)
  added-leads j p e = elim (Bool-cases (bytes_eq id j)) [
    | inl same ↦
        let at : p ≡ length r.objects =
          ground (arith, lookup-put id j (length r.objects) r.sessions) in
        (s, rw at (get_elem?-append_last r.objects s), named ∙ (bytes_eq_iff id j).0 same, live)
    | inr other ↦
        let (t, found, name, l) =
          linked.leads j p (ground (arith, lookup-put id j (length r.objects) r.sessions)) in
        (t, get_elem?-append_old r.objects (s ∷ []) t p found, name, l)
  ]

  added-distinct :
      (p q : ℕ) (t u : Session)
      → get_elem? added.objects p ≡ some t
      → get_elem? added.objects q ≡ some u
      → t.id ≡ u.id
      → p ≡ q
  added-distinct p q t u e f same = elim (get_elem?-append_cases r.objects s t p e) [
    | inl old ↦ elim (get_elem?-append_cases r.objects s u q f) [
      | inl old' ↦ linked.distinct p q t u old old' same
      | inr (at, is) ↦ absurd (fresh p t old (same ∙ ap (λ (v : Session). v.id) is ∙ named))
    ]
    | inr (at, is) ↦ elim (get_elem?-append_cases r.objects s u q f) [
      | inl old' ↦ absurd (fresh q u old' (sym same ∙ ap (λ (v : Session). v.id) is ∙ named))
      | inr (at', is') ↦ at ∙ sym at'
    ]
  ]

  pub added-IsLinked : IsLinked added
  added-IsLinked = record {
    reaches = added-reaches;
    leads = added-leads;
    distinct = added-distinct;
  }
