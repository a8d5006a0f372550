-- ===== src/Json/Parse/Fuel.antt =====
-- The parser at different amounts of fuel.
use rook_servicechannel_gate.Base.{
  ℕ, zero, suc, ◌+◌, ◌*◌, ◌≤◌, ◌<◌, ◌≡◌, refl, ◌∙◌, ap, Option, none, some, [], ◌∷◌, length, arith,
}
use rook_servicechannel_gate.Base.Text.{Bytes}
use rook_servicechannel_gate.Json.Value.{Json}
use rook_servicechannel_gate.Json.Lexical.{scan_string}
use rook_servicechannel_gate.Json.Lexical.Rests.{Shrinks, scan_string-Shrinks}
use rook_servicechannel_gate.Json.Parse.{
  ◌>>=◌, skip_blanks, expect, deeper, first_of, ended_or, value, object, members, array, items,
  max_depth, first_value,
}
use rook_servicechannel_gate.Json.Parse.Shrinking.{length-skip_blanks, length-expect, shorter}

first_of-same :
    (o o' a a' : Bytes → Option (Json × Bytes)) (n : ℕ) (l : Bytes)
    → length l ≤ n
    → ((r : Bytes) → length r < n → o r ≡ o' r)
    → ((r : Bytes) → length r < n → a r ≡ a' r)
    → first_of o a l ≡ first_of o' a' l
unfolding first_of
first_of-same o o' a a' n [] b h k = refl
first_of-same o o' a a' n (c ∷ s) b h k = rw (h s (omega (arith, b)), k s (omega (arith, b)))

deeper-same :
    {A : Type 0} (d : ℕ) (k l : ℕ → Option A) → ((e : ℕ) → k e ≡ l e) → deeper d k ≡ deeper d l
deeper-same zero k l h = refl
deeper-same (suc e) k l h = h e

-- Two calls that agree go on with what they leave.
then_same :
    {A B : Type 0} (n : ℕ) (o p : Option (A × Bytes)) (k l : A × Bytes → Option (B × Bytes))
    → o ≡ p
    → Shrinks n o
    → ((a : A) (r : Bytes) → length r < n → k (a, r) ≡ l (a, r))
    → (o >>= k) ≡ (p >>= l)
then_same n o p k l e h g = at_first o h ∙ ap (λ q. q >>= l) e
  where
    at_first : (o : Option (_ × Bytes)) → Shrinks n o → (o >>= k) ≡ (o >>= l)
    at_first none h = refl
    at_first (some (a, r)) h = g a r (unfold Shrinks in h)

next_same :
    {B : Type 0} (n c : ℕ) (s : Bytes) (k l : Bytes → Option (B × Bytes))
    → length s ≤ n
    → ((r : Bytes) → length r < n → k r ≡ l r)
    → (expect c (skip_blanks s) >>= k) ≡ (expect c (skip_blanks s) >>= l)
next_same n c s k l b g = by_byte (expect c (skip_blanks s)) refl
  where
    by_byte : (o : Option Bytes) → expect c (skip_blanks s) ≡ o → (o >>= k) ≡ (o >>= l)
    by_byte none e = refl
    by_byte (some r) e =
        g r (omega (arith, length-expect c (skip_blanks s) r e, length-skip_blanks s, b))

more_same :
    {A : Type 0} (bracket : ℕ) (a : A) (more other : Option (A × Bytes)) (s : Bytes)
    → more ≡ other
    → ended_or bracket a more s ≡ ended_or bracket a other s
more_same bracket a more other s h = ap (λ o. ended_or bracket a o s) h

first_same : {A B : Type 0} (o p : Option A) (k : A → Option B) → o ≡ p → (o >>= k) ≡ (p >>= k)
first_same o p k h = ap (λ q. q >>= k) h

-- The amounts of fuel give the same answers where both are enough.
record Agrees (f g : ℕ) : Type 0 where
  values :
      (d : ℕ) (s : Bytes) → 3 * length s + 1 ≤ f → 3 * length s + 1 ≤ g → value f d s ≡ value g d s
  objects :
      (d : ℕ) (s : Bytes)
      → 3 * length s + 3 ≤ f
      → 3 * length s + 3 ≤ g
      → object f d s ≡ object g d s
  all_members :
      (d : ℕ) (s : Bytes)
      → 3 * length s + 2 ≤ f
      → 3 * length s + 2 ≤ g
      → members f d s ≡ members g d s
  arrays :
      (d : ℕ) (s : Bytes) → 3 * length s + 3 ≤ f → 3 * length s + 3 ≤ g → array f d s ≡ array g d s
  all_items :
      (d : ℕ) (s : Bytes) → 3 * length s + 2 ≤ f → 3 * length s + 2 ≤ g → items f d s ≡ items g d s

value-Agrees :
    (f g d : ℕ) (s : Bytes)
    → Agrees f g
    → 3 * length s ≤ f
    → 3 * length s ≤ g
    → value (suc f) d s ≡ value (suc g) d s
unfolding value
value-Agrees f g d s h bf bg =
    first_of-same _ _ _ _ (length s) (skip_blanks s) (length-skip_blanks s)
      (λ r b. deeper-same d _ _ (λ e. h.objects e r (omega (arith, b, bf)) (omega (arith, b, bg))))
      (λ r b. deeper-same d _ _ (λ e. h.arrays e r (omega (arith, b, bf)) (omega (arith, b, bg))))

object-Agrees :
    (f g d : ℕ) (s : Bytes)
    → Agrees f g
    → 3 * length s + 2 ≤ f
    → 3 * length s + 2 ≤ g
    → object (suc f) d s ≡ object (suc g) d s
unfolding object
object-Agrees f g d s h bf bg = rw (h.all_members d s bf bg)

array-Agrees :
    (f g d : ℕ) (s : Bytes)
    → Agrees f g
    → 3 * length s + 2 ≤ f
    → 3 * length s + 2 ≤ g
    → array (suc f) d s ≡ array (suc g) d s
unfolding array
array-Agrees f g d s h bf bg = rw (h.all_items d s bf bg)

items-Agrees :
    (f g d : ℕ) (s : Bytes)
    → Agrees f g
    → 3 * length s + 1 ≤ f
    → 3 * length s + 1 ≤ g
    → items (suc f) d s ≡ items (suc g) d s
unfolding items
items-Agrees f g d s h bf bg =
    then_same (length s) (value f d s) (value g d s) _ _ (h.values d s bf bg)
      ((shorter f).values d s)
      (λ v r b. more_same b']' _ _ _ r (
        next_same (length s) b',' r _ _ (omega (arith, b)) (λ c k.
          first_same (items f d c) (items g d c) _
            (h.all_items d c (omega (arith, k, bf)) (omega (arith, k, bg))))))

members-Agrees :
    (f g d : ℕ) (s : Bytes)
    → Agrees f g
    → 3 * length s + 1 ≤ f
    → 3 * length s + 1 ≤ g
    → members (suc f) d s ≡ members (suc g) d s
unfolding members
members-Agrees f g d s h bf bg = next_same (length s) 34 s _ _ (omega arith) (λ a ha.
    then_same (length a) (scan_string a) (scan_string a) _ _ refl (scan_string-Shrinks a) (λ k u hk.
      next_same (length a) b':' u _ _ (omega (arith, hk)) (λ b hb.
        then_same (length b) (value f d b) (value g d b) _ _
          (h.values d b (omega (arith, hb, ha, bf)) (omega (arith, hb, ha, bg)))
          ((shorter f).values d b)
          (λ v r hv. more_same b'}' _ _ _ r (
            next_same (length b) b',' r _ _ (omega (arith, hv)) (λ c hc.
              first_same (members f d c) (members g d c) _ (
                h.all_members d c (omega (arith, hc, hb, ha, bf))
                  (omega (arith, hc, hb, ha, bg)))))))))

-- Nothing is enough that is zero.
agree : (f g : ℕ) → Agrees f g
agree zero g = record {
  values = λ d s b c. absurd (omega (arith, b));
  objects = λ d s b c. absurd (omega (arith, b));
  all_members = λ d s b c. absurd (omega (arith, b));
  arrays = λ d s b c. absurd (omega (arith, b));
  all_items = λ d s b c. absurd (omega (arith, b));
}
agree (suc f) zero = record {
  values = λ d s b c. absurd (omega (arith, c));
  objects = λ d s b c. absurd (omega (arith, c));
  all_members = λ d s b c. absurd (omega (arith, c));
  arrays = λ d s b c. absurd (omega (arith, c));
  all_items = λ d s b c. absurd (omega (arith, c));
}
agree (suc f) (suc g) = record {
  values = λ d s b c. value-Agrees f g d s (agree f g) (omega (arith, b)) (omega (arith, c));
  objects = λ d s b c. object-Agrees f g d s (agree f g) (omega (arith, b)) (omega (arith, c));
  all_members = λ d s b c. members-Agrees f g d s (agree f g) (omega (arith, b)) (omega (arith, c));
  arrays = λ d s b c. array-Agrees f g d s (agree f g) (omega (arith, b)) (omega (arith, c));
  all_items = λ d s b c. items-Agrees f g d s (agree f g) (omega (arith, b)) (omega (arith, c));
}

-- The first value of a text is what any larger amount of fuel finds.
pub first_value-fuel :
    (f : ℕ) (s : Bytes) → 3 * length s + 3 ≤ f → value f max_depth s ≡ first_value s
unfolding first_value
first_value-fuel f s h =
    (agree f (3 * length s + 3)).values max_depth s (omega (arith, h)) (omega arith)
