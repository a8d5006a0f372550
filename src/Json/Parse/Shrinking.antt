-- ===== src/Json/Parse/Shrinking.antt =====
-- How much of a text a call of the parser leaves.
use rook_servicechannel_gate.Base.{
  ℕ, zero, suc, ◌≤◌, ◌<◌, ◌≡◌, refl, Bool, true, false, Option, none, some, [], ◌∷◌, length, arith,
  if◌then◌else◌,
}
use rook_servicechannel_gate.Base.Text.{Bytes}
use rook_servicechannel_gate.Json.Value.{Json, null, bool, num}
use rook_servicechannel_gate.Json.Lexical.{scan_string, scan_number}
use rook_servicechannel_gate.Json.Lexical.Rests.{
  Shrinks, weaken, scan_string-Shrinks, scan_number-Shrinks,
}
use rook_servicechannel_gate.Json.Parse.{
  ◌>>=◌, skip_blanks, expect, drop, scalar, deeper, first_of, ended_or, value, object, members,
  array, items,
}

pub length-skip_blanks : (s : Bytes) → length (skip_blanks s) ≤ length s
unfolding skip_blanks
length-skip_blanks [] = omega arith
length-skip_blanks (c ∷ s) = ground (arith, length-skip_blanks s)

pub length-expect : (d : ℕ) (s r : Bytes) → expect d s ≡ some r → length s ≡ suc (length r)
unfolding expect
length-expect d [] r h = cc
length-expect d (c ∷ s) r h = ground arith

length-drop : (n : ℕ) (s : Bytes) → length (drop n s) ≤ length s
unfolding drop
length-drop zero s = omega arith
length-drop (suc n) [] = omega arith
length-drop (suc n) (c ∷ s) = omega (arith, length-drop n s)

bind-Shrinks :
    {A B : Type 0} (n : ℕ) (o : Option A) (k : A → Option (B × Bytes))
    → ((a : A) → o ≡ some a → Shrinks n (k a))
    → Shrinks n (o >>= k)
unfolding Shrinks
bind-Shrinks n none k h = tt
bind-Shrinks n (some a) k h = h a refl

either :
    {A : Type 0} (n : ℕ) (b : Bool) (x y : Option (A × Bytes))
    → Shrinks n x
    → Shrinks n y
    → Shrinks n (if b then x else y)
unfolding Shrinks
either n true x y h k = h
either n false x y h k = k

number-Shrinks :
    (n : ℕ) (o : Option (Bytes × Bytes))
    → Shrinks n o
    → Shrinks n (elim o [ none ↦ none | some (a, r) ↦ some (num a, r) ])
unfolding Shrinks
number-Shrinks n none h = tt
number-Shrinks n (some (a, r)) h = h

leaves : {A : Type 0} (a : A) (r : Bytes) (n : ℕ) → length r < n → Shrinks n (some (a, r))
unfolding Shrinks
leaves a r n h = h

scalar-Shrinks : (c : ℕ) (s : Bytes) → Shrinks (suc (length s)) (scalar (c ∷ s))
unfolding scalar drop
scalar-Shrinks c s =
    let three = leaves null (drop 3 s) (suc (length s)) (omega (arith, length-drop 3 s)) in
    let yes_word =
      leaves (bool true) (drop 3 s) (suc (length s)) (omega (arith, length-drop 3 s)) in
    let four = leaves (bool false) (drop 4 s) (suc (length s)) (omega (arith, length-drop 4 s)) in
    let number = number-Shrinks _ (scan_number (c ∷ s)) (scan_number-Shrinks (c ∷ s)) in
    either _ _ _ _ three (either _ _ _ _ yes_word (either _ _ _ _ four number))

deeper-Shrinks :
    {A : Type 0} (n d : ℕ) (k : ℕ → Option (A × Bytes))
    → ((e : ℕ) → Shrinks n (k e))
    → Shrinks n (deeper d k)
unfolding Shrinks
deeper-Shrinks n zero k h = tt
deeper-Shrinks n (suc e) k h = h e

-- A call, and what is made of its answer.
after :
    {A B : Type 0} (n : ℕ) (o : Option (A × Bytes)) (k : A × Bytes → Option (B × Bytes))
    → Shrinks n o
    → ((a : A) (r : Bytes) → length r < n → o ≡ some (a, r) → Shrinks n (k (a, r)))
    → Shrinks n (o >>= k)
unfolding Shrinks
after n none k h g = tt
after n (some (a, r)) k h g = g a r h refl

first_of-Shrinks :
    (objects arrays : Bytes → Option (Json × Bytes)) (l : Bytes)
    → ((s : Bytes) → Shrinks (length s) (objects s))
    → ((s : Bytes) → Shrinks (length s) (arrays s))
    → Shrinks (length l) (first_of objects arrays l)
unfolding first_of
first_of-Shrinks objects arrays [] h k = unfold Shrinks in tt
first_of-Shrinks objects arrays (c ∷ s) h k =
    let up = λ (o : Option (Json × Bytes)). weaken (length s) (suc (length s)) o (omega arith) in
    either _ _ _ _
      (after _ (scan_string s) _ (weaken _ _ _ (omega arith) (scan_string-Shrinks s))
        (λ a r b e. leaves _ r _ b))
      (either _ _ _ _ (up (objects s) (h s))
        (either _ _ _ _ (up (arrays s) (k s)) (scalar-Shrinks c s)))

ended_or-Shrinks :
    {A : Type 0} (bracket : ℕ) (a : A) (more : Option (A × Bytes)) (n : ℕ) (s : Bytes)
    → length s ≤ n
    → Shrinks n more
    → Shrinks n (ended_or bracket a more s)
unfolding ended_or Shrinks
ended_or-Shrinks bracket a more n s b h = by_end (expect bracket (skip_blanks s)) refl
  where
    by_end :
        (o : Option Bytes)
        → expect bracket (skip_blanks s) ≡ o
        → Shrinks n (elim o [ some r ↦ some (a, r) | none ↦ more ])
    by_end none e = h
    by_end (some r) e =
        omega (arith, length-expect bracket (skip_blanks s) r e, length-skip_blanks s, b)

-- What each call of the parser leaves, with this much fuel.
pub record Shorter (f : ℕ) : Type 0 where
  pub values : (d : ℕ) (s : Bytes) → Shrinks (length s) (value f d s)
  pub objects : (d : ℕ) (s : Bytes) → Shrinks (length s) (object f d s)
  pub all_members : (d : ℕ) (s : Bytes) → Shrinks (length s) (members f d s)
  pub arrays : (d : ℕ) (s : Bytes) → Shrinks (length s) (array f d s)
  pub all_items : (d : ℕ) (s : Bytes) → Shrinks (length s) (items f d s)

-- The byte that is expected, behind white space, and what follows.
next :
    {B : Type 0} (n c : ℕ) (s : Bytes) (k : Bytes → Option (B × Bytes))
    → length s ≤ n
    → ((r : Bytes) → length r < n → Shrinks n (k r))
    → Shrinks n (expect c (skip_blanks s) >>= k)
next n c s k b g =
    bind-Shrinks n (expect c (skip_blanks s)) k
      (λ r e. g r (omega (arith, length-expect c (skip_blanks s) r e, length-skip_blanks s, b)))

value-Shorter : (f d : ℕ) (s : Bytes) → Shorter f → Shrinks (length s) (value (suc f) d s)
unfolding value
value-Shorter f d s h = weaken _ _ _ (length-skip_blanks s) (
    first_of-Shrinks _ _ (skip_blanks s) (λ r. deeper-Shrinks _ d _ (λ e. h.objects e r))
      (λ r. deeper-Shrinks _ d _ (λ e. h.arrays e r)))

object-Shorter : (f d : ℕ) (s : Bytes) → Shorter f → Shrinks (length s) (object (suc f) d s)
unfolding object
object-Shorter f d s h =
    ended_or-Shrinks _ _ _ (length s) s (omega arith)
      (after _ (members f d s) _ (h.all_members d s) (λ a r b e. leaves _ r _ b))

array-Shorter : (f d : ℕ) (s : Bytes) → Shorter f → Shrinks (length s) (array (suc f) d s)
unfolding array
array-Shorter f d s h =
    ended_or-Shrinks _ _ _ (length s) s (omega arith)
      (after _ (items f d s) _ (h.all_items d s) (λ a r b e. leaves _ r _ b))

items-Shorter : (f d : ℕ) (s : Bytes) → Shorter f → Shrinks (length s) (items (suc f) d s)
unfolding items
items-Shorter f d s h = after _ (value f d s) _ (h.values d s) (λ v r b e.
    ended_or-Shrinks _ _ _ (length s) r (omega (arith, b)) (
      next (length s) b',' r _ (omega (arith, b)) (λ c k.
        after _ (items f d c) _ (weaken _ _ _ (omega (arith, k)) (h.all_items d c))
          (λ a t l q. leaves _ t _ l))))

members-Shorter : (f d : ℕ) (s : Bytes) → Shorter f → Shrinks (length s) (members (suc f) d s)
unfolding members
members-Shorter f d s h = next (length s) 34 s _ (omega arith) (λ a ha.
    after _ (scan_string a) _ (weaken _ _ _ (omega (arith, ha)) (scan_string-Shrinks a))
      (λ k u hk e. next (length s) b':' u _ (omega (arith, hk)) (λ b hb.
        after _ (value f d b) _ (weaken _ _ _ (omega (arith, hb)) (h.values d b)) (λ v r hv q.
          ended_or-Shrinks _ _ _ (length s) r (omega (arith, hv)) (
            next (length s) b',' r _ (omega (arith, hv)) (λ c hc.
              after _ (members f d c) _ (weaken _ _ _ (omega (arith, hc)) (h.all_members d c))
                (λ m t l w. leaves _ t _ l)))))))

-- No call of the parser leaves as much text as it is given.
pub shorter : (f : ℕ) → Shorter f
unfolding value object members array items Shrinks
shorter zero = record {
  values = λ d s. tt;
  objects = λ d s. tt;
  all_members = λ d s. tt;
  arrays = λ d s. tt;
  all_items = λ d s. tt;
}
shorter (suc f) = record {
  values = λ d s. value-Shorter f d s (shorter f);
  objects = λ d s. object-Shorter f d s (shorter f);
  all_members = λ d s. members-Shorter f d s (shorter f);
  arrays = λ d s. array-Shorter f d s (shorter f);
  all_items = λ d s. items-Shorter f d s (shorter f);
}
