-- ===== src/Json/Parse/Texts.antt =====
-- The encoding of the strings in a parsed value.
use rook_servicechannel_gate.Base.{
  ℕ, zero, suc, ◌+◌, ◌*◌, ◌≡◌, subst, length, refl, Bool, true, false, Option, none, some, [], ◌∷◌,
  if◌then◌else◌,
}
use rook_servicechannel_gate.Base.Text.{Bytes}
use rook_servicechannel_gate.Json.Value.{Json, null, bool, num, str, arr, obj, Members, end, member}
use rook_servicechannel_gate.Json.Utf8.{utf8_valid}
use rook_servicechannel_gate.Json.Lexical.{scan_string, scan_number}
use rook_servicechannel_gate.Json.Lexical.Passed.Unquoted.{scan_string-utf8_valid}
use rook_servicechannel_gate.Json.Parse.{
  ◌>>=◌, skip_blanks, expect, scalar, deeper, first_of, ended_or, value, object, members, array,
  items, max_depth, first_value,
}

-- A string is UTF-8.
abbrev pub IsText : Json → Type 0
IsText (str s) = utf8_valid s ≡ true
IsText _ = Unit

abbrev pub AllTexts : Members → Type 0
AllTexts end = Unit
AllTexts (member k v m) = IsText v × AllTexts m

-- The value, or each member of the object, if it is a string.
abbrev pub HasTexts : Json → Type 0
HasTexts (str s) = utf8_valid s ≡ true
HasTexts (obj m) = AllTexts m
HasTexts _ = Unit

pub HasTexts-IsText : (v : Json) → HasTexts v → IsText v
HasTexts-IsText (str s) h = h
HasTexts-IsText null h = tt
HasTexts-IsText (bool b) h = tt
HasTexts-IsText (num n) h = tt
HasTexts-IsText (arr xs) h = tt
HasTexts-IsText (obj m) h = tt

-- What a parser finds, if anything, has the property.
Gives : {A : Type 0} → (A → Type 0) → Option (A × Bytes) → Type 0
Gives P none = Unit
Gives P (some (a, r)) = P a

gives : {A : Type 0} (P : A → Type 0) (a : A) (r : Bytes) → P a → Gives P (some (a, r))
unfolding Gives
gives P a r h = h

either :
    {A : Type 0} (P : A → Type 0) (b : Bool) (x y : Option (A × Bytes))
    → Gives P x
    → Gives P y
    → Gives P (if b then x else y)
unfolding Gives
either P true x y h k = h
either P false x y h k = k

-- The byte that is expected, behind white space, and what follows.
next :
    {B : Type 0} (Q : B → Type 0) (c : ℕ) (s : Bytes) (k : Bytes → Option (B × Bytes))
    → ((r : Bytes) → Gives Q (k r))
    → Gives Q (expect c (skip_blanks s) >>= k)
next Q c s k h = of_rest (expect c (skip_blanks s))
  where
    of_rest : (o : Option Bytes) → Gives Q (o >>= k)
    of_rest none = unfold Gives in tt
    of_rest (some r) = h r

after :
    {A B : Type 0} (P : A → Type 0) (Q : B → Type 0) (o : Option (A × Bytes))
    (k : A × Bytes → Option (B × Bytes))
    → Gives P o
    → ((a : A) (r : Bytes) → P a → Gives Q (k (a, r)))
    → Gives Q (o >>= k)
unfolding Gives
after P Q none k h g = tt
after P Q (some (a, r)) k h g = g a r h

ended_or-Gives :
    {A : Type 0} (P : A → Type 0) (bracket : ℕ) (a : A) (more : Option (A × Bytes)) (s : Bytes)
    → P a
    → Gives P more
    → Gives P (ended_or bracket a more s)
unfolding ended_or
ended_or-Gives P bracket a more s h g = by_end (expect bracket (skip_blanks s))
  where
    by_end : (o : Option Bytes) → Gives P (elim o [ some r ↦ some (a, r) | none ↦ more ])
    by_end none = g
    by_end (some r) = gives P a r h

deeper-Gives :
    {A : Type 0} (P : A → Type 0) (d : ℕ) (k : ℕ → Option (A × Bytes))
    → ((e : ℕ) → Gives P (k e))
    → Gives P (deeper d k)
unfolding Gives
deeper-Gives P zero k h = tt
deeper-Gives P (suc e) k h = h e

string-Gives : (s : Bytes) → Gives (λ a. utf8_valid a ≡ true) (scan_string s)
unfolding Gives
string-Gives s = of_scan (scan_string s) refl
  where
    of_scan : (o : Option (Bytes × Bytes)) → scan_string s ≡ o → Gives (λ a. utf8_valid a ≡ true) o
    of_scan none e = tt
    of_scan (some (a, r)) e = scan_string-utf8_valid s a r e

scalar-Gives : (s : Bytes) → Gives HasTexts (scalar s)
unfolding scalar
scalar-Gives s = either HasTexts _ _ _ (gives HasTexts null _ tt) (
    either HasTexts _ _ _ (gives HasTexts (bool true) _ tt)
      (either HasTexts _ _ _ (gives HasTexts (bool false) _ tt) (of_number (scan_number s))))
  where
    of_number :
        (o : Option (Bytes × Bytes))
        → Gives HasTexts (elim o [ none ↦ none | some (n, r) ↦ some (num n, r) ])
    of_number none = unfold Gives in tt
    of_number (some (n, r)) = gives HasTexts (num n) r tt

first_of-Gives :
    (objects arrays : Bytes → Option (Json × Bytes)) (l : Bytes)
    → ((s : Bytes) → Gives HasTexts (objects s))
    → ((s : Bytes) → Gives HasTexts (arrays s))
    → Gives HasTexts (first_of objects arrays l)
unfolding first_of
first_of-Gives objects arrays [] h k = unfold Gives in tt
first_of-Gives objects arrays (c ∷ s) h k =
    either HasTexts _ _ _
      (after _ HasTexts (scan_string s) _ (string-Gives s) (λ a r v. gives HasTexts (str a) r v))
      (either HasTexts _ _ _ (h s) (either HasTexts _ _ _ (k s) (scalar-Gives (c ∷ s))))

array-Gives : (f d : ℕ) (s : Bytes) → Gives HasTexts (array f d s)
unfolding array
array-Gives zero d s = unfold Gives in tt
array-Gives (suc f) d s = ended_or-Gives HasTexts _ _ _ s tt (
    after (λ a. Unit) HasTexts (items f d s) _ (anything (items f d s))
      (λ a r h. gives HasTexts (arr a) r tt))
  where
    anything : {A : Type 0} (o : Option (A × Bytes)) → Gives (λ a. Unit {0}) o
    anything none = unfold Gives in tt
    anything (some (a, r)) = unfold Gives in tt

-- What the calls of the parser find, with this much fuel.
record Found (f : ℕ) : Type 0 where
  values : (d : ℕ) (s : Bytes) → Gives HasTexts (value f d s)
  objects : (d : ℕ) (s : Bytes) → Gives HasTexts (object f d s)
  all_members : (d : ℕ) (s : Bytes) → Gives AllTexts (members f d s)

value-Found : (f d : ℕ) (s : Bytes) → Found f → Gives HasTexts (value (suc f) d s)
unfolding value
value-Found f d s h =
    first_of-Gives _ _ (skip_blanks s) (λ r. deeper-Gives HasTexts d _ (λ e. h.objects e r))
      (λ r. deeper-Gives HasTexts d _ (λ e. array-Gives f e r))

object-Found : (f d : ℕ) (s : Bytes) → Found f → Gives HasTexts (object (suc f) d s)
unfolding object
object-Found f d s h = ended_or-Gives HasTexts _ _ _ s tt (
    after AllTexts HasTexts (members f d s) _ (h.all_members d s)
      (λ m r g. gives HasTexts (obj m) r g))

members-Found : (f d : ℕ) (s : Bytes) → Found f → Gives AllTexts (members (suc f) d s)
unfolding members
members-Found f d s h = next AllTexts 34 s _ (λ a.
    after _ AllTexts (scan_string a) _ (string-Gives a) (λ k u hk. next AllTexts b':' u _ (λ b.
      after HasTexts AllTexts (value f d b) _ (h.values d b) (λ v r hv.
        ended_or-Gives AllTexts b'}' (member k v end) _ r (HasTexts-IsText v hv, tt)
          (next AllTexts b',' r _ (λ c.
            after AllTexts AllTexts (members f d c) _ (h.all_members d c)
              (λ m t g. gives AllTexts (member k v m) t (HasTexts-IsText v hv, g))))))))

found : (f : ℕ) → Found f
unfolding value object members Gives
found zero = record { values = λ d s. tt; objects = λ d s. tt; all_members = λ d s. tt }
found (suc f) = record {
  values = λ d s. value-Found f d s (found f);
  objects = λ d s. object-Found f d s (found f);
  all_members = λ d s. members-Found f d s (found f);
}

-- Each string that is the value of a text, or a member of the object that is, is UTF-8.
pub first_value-HasTexts :
    (s : Bytes) (v : Json) (r : Bytes) → first_value s ≡ some (v, r) → HasTexts v
unfolding first_value Gives
first_value-HasTexts s v r h =
    subst (Gives HasTexts) h ((found (3 * length s + 3)).values max_depth s)
