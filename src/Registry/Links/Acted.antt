-- ===== src/Registry/Links/Acted.antt =====
-- The map when a session takes a step.
use native.Mathlib.Decide.{ℕ_discrete}
use rook_servicechannel_gate.Base.{
  ℕ, ◌≡◌, ◌≢◌, refl, sym, ◌∙◌, ap, true, some, arith, get_elem?, set, get_elem?-set_self,
  get_elem?-set_ne, if◌then◌else◌,
}
use rook_servicechannel_gate.Base.Dict.{lookup, delete, lookup-delete}
use rook_servicechannel_gate.Base.Text.{Bytes, bytes_eq_iff}
use rook_servicechannel_gate.Session.{Session}
use rook_servicechannel_gate.Session.Step.{SessionEvent, step, deletes}
use rook_servicechannel_gate.Session.Rounds.{is_live}
use rook_servicechannel_gate.Session.Ending.{Registers, step-Registers}
use rook_servicechannel_gate.Registry.Types.{Registry}
use rook_servicechannel_gate.Registry.Links.Types.{IsLinked, get_unique}

module _ (r : Registry) (l : IsLinked r) (p : ℕ) (e : SessionEvent) (s : Session)
    (found : get_elem? r.objects p ≡ some s) where
  abbrev pub acted : Registry
  acted = record r {
    objects = set r.objects p (step e s);
    sessions = if deletes e s then delete s.id r.sessions else r.sessions;
  }

  at_p : get_elem? acted.objects p ≡ some (step e s)
  at_p = get_elem?-set_self r.objects p (step e s) s found

  at_other : (q : ℕ) → p ≢ q → get_elem? acted.objects q ≡ get_elem? r.objects q
  at_other q ne = get_elem?-set_ne r.objects p q (step e s) ne

  registers : Registers e s (step e s)
  registers = step-Registers e s

  -- A session behind another pointer has another identifier.
  other_id : (q : ℕ) (t : Session) → get_elem? r.objects q ≡ some t → p ≢ q → s.id ≢ t.id
  other_id q t h ne same = ne (l.distinct p q s t found h same)

  acted-reaches :
      (q : ℕ) (t : Session)
      → get_elem? acted.objects q ≡ some t
      → is_live t ≡ true
      → lookup t.id acted.sessions ≡ some q
  acted-reaches q t h live = elim (ℕ_discrete p q) [
    | yes same ↦
        let is : t ≡ step e s = get_unique acted.objects p t (step e s) (rw (← same) at h) at_p in
        ground (arith, registers, l.reaches p s found)
    | no ne ↦
        let old : get_elem? r.objects q ≡ some t = sym (at_other q ne) ∙ h in
        ground (
          arith,
          lookup-delete s.id t.id r.sessions,
          bytes_eq_iff s.id t.id,
          l.reaches q t old live,
          other_id q t old ne,
        )
  ]

  acted-leads :
      (id : Bytes) (q : ℕ)
      → lookup id acted.sessions ≡ some q
      → (t : Session) × (get_elem? acted.objects q ≡ some t) × (t.id ≡ id) × (is_live t ≡ true)
  acted-leads id q h =
      let before : lookup id r.sessions ≡ some q =
        ground (arith, lookup-delete s.id id r.sessions) in
      let (t, old, name, live) = l.leads id q before in
      elim (ℕ_discrete p q) [
        | yes same ↦
            let is : t ≡ s = get_unique r.objects p t s (rw (← same) at old) found in
            (
              step e s,
              rw (← same) at_p,
              registers.same_id ∙ ap (λ (v : Session). v.id) (sym is) ∙ name,
              ground (arith, registers, lookup-delete s.id id r.sessions, bytes_eq_iff s.id id),
            )
        | no ne ↦ (t, at_other q ne ∙ old, name, live)
      ]

  -- The session behind a pointer, before and after.
  acted_from :
      (q : ℕ) (t : Session)
      → get_elem? acted.objects q ≡ some t
      → (u : Session) × (get_elem? r.objects q ≡ some u) × (t.id ≡ u.id)
  acted_from q t h = elim (ℕ_discrete p q) [
    | yes same ↦
        let is : t ≡ step e s = get_unique acted.objects p t (step e s) (rw (← same) at h) at_p in
        (s, rw (← same) found, ap (λ (v : Session). v.id) is ∙ registers.same_id)
    | no ne ↦ (t, sym (at_other q ne) ∙ h, refl)
  ]

  acted-distinct :
      (q q' : ℕ) (t u : Session)
      → get_elem? acted.objects q ≡ some t
      → get_elem? acted.objects q' ≡ some u
      → t.id ≡ u.id
      → q ≡ q'
  acted-distinct q q' t u h k same =
      let (t', old, name) = acted_from q t h in
      let (u', old', name') = acted_from q' u k in
      l.distinct q q' t' u' old old' (sym name ∙ same ∙ name')

  pub acted-IsLinked : IsLinked acted
  acted-IsLinked = record {
    reaches = acted-reaches;
    leads = acted-leads;
    distinct = acted-distinct;
  }
