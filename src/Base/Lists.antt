-- ===== src/Base/Lists.antt =====
-- Lists measured and indexed by native numbers, and predicates on lists.
use Prim.Native.Nat.{ℕ, zero, suc, ◌+◌}
use mathlib.Core.Path.{◌≡◌, refl, ap, subst}
use mathlib.Core.Logic.{◌≢◌, ◌⊎◌, inl, inr}
use mathlib.Core.Bool.{Bool, true, false}
use mathlib.Core.List.{List, [], ◌∷◌, ◌++◌}
use mathlib.Core.Option.{Option, none, some}
use native.Mathlib.Omega.{arith}

module _ {ℓ} {A : Type ℓ} where
  abbrev pub length : List A → ℕ
  length [] = 0
  length (x ∷ xs) = suc (length xs)

  pub length-append : (xs ys : List A) → length (xs ++ ys) ≡ length xs + length ys
  length-append [] ys = omega arith
  length-append (x ∷ xs) ys = omega (arith, length-append xs ys)

  abbrev pub get_elem? : List A → ℕ → Option A
  get_elem? [] i = none
  get_elem? (x ∷ xs) zero = some x
  get_elem? (x ∷ xs) (suc i) = get_elem? xs i

  -- A write out of bounds changes nothing.
  abbrev pub set : List A → ℕ → A → List A
  set [] i v = []
  set (x ∷ xs) zero v = v ∷ xs
  set (x ∷ xs) (suc i) v = x ∷ set xs i v

  pub get_elem?-set_self :
      (xs : List A) (i : ℕ) (v a : A) → get_elem? xs i ≡ some a → get_elem? (set xs i v) i ≡ some v
  get_elem?-set_self [] i v a h = cc
  get_elem?-set_self (x ∷ xs) zero v a h = refl
  get_elem?-set_self (x ∷ xs) (suc i) v a h = get_elem?-set_self xs i v a h

  pub get_elem?-set_ne :
      (xs : List A) (i j : ℕ) (v : A) → i ≢ j → get_elem? (set xs i v) j ≡ get_elem? xs j
  get_elem?-set_ne [] i j v h = refl
  get_elem?-set_ne (x ∷ xs) zero zero v h = absurd (h refl)
  get_elem?-set_ne (x ∷ xs) zero (suc j) v h = refl
  get_elem?-set_ne (x ∷ xs) (suc i) zero v h = refl
  get_elem?-set_ne (x ∷ xs) (suc i) (suc j) v h = get_elem?-set_ne xs i j v (λ e. h (ap suc e))

  -- A list with one more element at its end.
  pub get_elem?-append_last : (xs : List A) (v : A) → get_elem? (xs ++ v ∷ []) (length xs) ≡ some v
  get_elem?-append_last [] v = refl
  get_elem?-append_last (x ∷ xs) v = get_elem?-append_last xs v

  pub get_elem?-append_cases :
      (xs : List A) (v a : A) (i : ℕ)
      → get_elem? (xs ++ v ∷ []) i ≡ some a
      → (get_elem? xs i ≡ some a) ⊎ ((i ≡ length xs) × (a ≡ v))
  get_elem?-append_cases [] v a zero h = inr (refl, cc)
  get_elem?-append_cases [] v a (suc i) h = cc
  get_elem?-append_cases (x ∷ xs) v a zero h = inl h
  get_elem?-append_cases (x ∷ xs) v a (suc i) h = elim (get_elem?-append_cases xs v a i h) [
    | inl e ↦ inl e
    | inr (e, f) ↦ inr (ap suc e, f)
  ]

  pub get_elem?-append_old :
      (xs ys : List A) (a : A) (i : ℕ) → get_elem? xs i ≡ some a → get_elem? (xs ++ ys) i ≡ some a
  get_elem?-append_old [] ys a i h = cc
  get_elem?-append_old (x ∷ xs) ys a zero h = h
  get_elem?-append_old (x ∷ xs) ys a (suc i) h = get_elem?-append_old xs ys a i h

  -- The elements that pass a test.
  unfoldable pub keep : (A → Bool) → List A → List A
  keep p [] = []
  keep p (x ∷ xs) = elim (p x) [ true ↦ x ∷ keep p xs | false ↦ keep p xs ]

module _ {ℓ κ} {A : Type ℓ} (P : A → Type κ) where
  abbrev pub All : List A → Type κ
  All [] = Unit
  All (x ∷ xs) = P x × All xs

  pub All-append : (xs ys : List A) → All xs → All ys → All (xs ++ ys)
  All-append [] ys h k = k
  All-append (x ∷ xs) ys (p, h) k = (p, All-append xs ys h k)

  pub All-set : (xs : List A) (i : ℕ) (v : A) → All xs → P v → All (set xs i v)
  All-set [] i v h p = tt
  All-set (x ∷ xs) zero v (q, h) p = (p, h)
  All-set (x ∷ xs) (suc i) v (q, h) p = (q, All-set xs i v h p)

  pub All-get_elem? : (xs : List A) (i : ℕ) (a : A) → All xs → get_elem? xs i ≡ some a → P a
  All-get_elem? [] i a h e = absurd (none_some e)
    where
      none_some : none ≡ some a → ⊥
      none_some e = cc
  All-get_elem? (x ∷ xs) zero a (q, h) e = let same : x ≡ a = cc in subst P same q
  All-get_elem? (x ∷ xs) (suc i) a (q, h) e = All-get_elem? xs i a h e

-- One of the elements has it.
module _ {ℓ} {A : Type ℓ} (P : A → Type 0) where
  abbrev pub Any : List A → Type 0
  Any [] = ⊥
  Any (x ∷ xs) = P x ⊎ Any xs

  pub Any-append_left : (xs ys : List A) → Any xs → Any (xs ++ ys)
  Any-append_left [] ys h = absurd h
  Any-append_left (x ∷ xs) ys (inl h) = inl h
  Any-append_left (x ∷ xs) ys (inr h) = inr (Any-append_left xs ys h)

  pub Any-append_last : (xs : List A) (x : A) → P x → Any (xs ++ x ∷ [])
  Any-append_last [] x h = inl h
  Any-append_last (y ∷ xs) x h = inr (Any-append_last xs x h)

pub Any-map {ℓ} :
    {A : Type ℓ} {P Q : A → Type 0} (xs : List A) → ((a : A) → P a → Q a) → Any P xs → Any Q xs
Any-map [] f h = absurd h
Any-map (x ∷ xs) f (inl h) = inl (f x h)
Any-map (x ∷ xs) f (inr h) = inr (Any-map xs f h)

-- A list of two elements, of which one has the one property and the other has the other.
abbrev pub Pair {ℓ} : {A : Type ℓ} → (A → Type 0) → (A → Type 0) → List A → Type ℓ
Pair {A = A} P Q xs = (a : A) × (b : A) × ((xs ≡ a ∷ b ∷ []) ⊎ (xs ≡ b ∷ a ∷ [])) × P a × Q b

-- Where no element has both, a list of two elements, some of which has the one and some the other, is
-- such a pair.
pub Any-Pair {ℓ} :
    {A : Type ℓ} {P Q : A → Type 0} (xs : List A)
    → length xs ≡ 2
    → ((a : A) → P a → Q a → ⊥)
    → Any P xs
    → Any Q xs
    → Pair P Q xs
Any-Pair (x ∷ y ∷ []) l apart (inl p) (inl q) = absurd (apart x p q)
Any-Pair (x ∷ y ∷ []) l apart (inl p) (inr (inl q)) = (x, y, inl refl, p, q)
Any-Pair (x ∷ y ∷ []) l apart (inl p) (inr (inr q)) = absurd q
Any-Pair (x ∷ y ∷ []) l apart (inr (inl p)) (inl q) = (y, x, inr refl, p, q)
Any-Pair (x ∷ y ∷ []) l apart (inr (inl p)) (inr (inl q)) = absurd (apart y p q)
Any-Pair (x ∷ y ∷ []) l apart (inr (inl p)) (inr (inr q)) = absurd q
Any-Pair (x ∷ y ∷ []) l apart (inr (inr p)) q = absurd p
Any-Pair [] l apart p q = absurd p
Any-Pair (x ∷ []) l apart p q = absurd (omega (arith, l))
Any-Pair (x ∷ y ∷ z ∷ xs) l apart p q = absurd (omega (arith, l))

pub All-map {ℓ κ μ} :
    {A : Type ℓ} {P : A → Type κ} {Q : A → Type μ}
    → (xs : List A) → ((a : A) → P a → Q a)
    → All P xs
    → All Q xs
All-map [] f h = tt
All-map (x ∷ xs) f (p, h) = (f x p, All-map xs f h)
