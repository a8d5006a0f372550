-- ===== src/Json/Parse.antt =====
-- The grammar of JSON values, as `encoding/json` scans it, with its limit on nesting.
pub mod Shrinking
pub mod Fuel
pub mod Texts
use rook_servicechannel_gate.Base.{
  ℕ, zero, suc, ◌+◌, ◌*◌, Bool, true, false, ◌||◌, Option, none, some, [], ◌∷◌, ◌==◌, length,
  if◌then◌else◌,
}
use rook_servicechannel_gate.Base.Text.{Bytes, text, has_prefix}
use rook_servicechannel_gate.Json.Value.{
  Json, null, bool, num, str, arr, obj, Items, nil, cons, Members, end, member,
}
use rook_servicechannel_gate.Json.Lexical.{scan_string, scan_number}

infixl 5 ◌>>=◌
abbrev pub ◌>>=◌ : {A B : Type 0} → Option A → (A → Option B) → Option B
none >>= k = none
some a >>= k = k a

abbrev is_blank : ℕ → Bool
is_blank c = c == 32 || c == 9 || c == 10 || c == 13

unfoldable pub skip_blanks : Bytes → Bytes
skip_blanks [] = []
skip_blanks (c ∷ s) = let rest = skip_blanks s in if is_blank c then rest else c ∷ s

-- The rest of the text behind one expected byte.
unfoldable pub expect : ℕ → Bytes → Option Bytes
expect d [] = none
expect d (c ∷ s) = if c == d then some s else none

drop : ℕ → Bytes → Bytes
drop zero s = s
drop (suc n) [] = []
drop (suc n) (c ∷ s) = drop n s

-- `true`, `false`, `null` or a number.
unfoldable pub scalar : Bytes → Option (Json × Bytes)
unfolding drop text has_prefix scan_number
scalar s =
    if has_prefix s (text "null")
    then some (null, drop 4 s)
    else if has_prefix s (text "true")
    then some (bool true, drop 4 s)
    else if has_prefix s (text "false")
    then some (bool false, drop 5 s)
    else (elim (scan_number s) [ none ↦ none | some (n, r) ↦ some (num n, r) ])

-- A value, by its first byte, where `objects` and `arrays` read what is behind an opening bracket.
unfoldable pub first_of :
    (Bytes → Option (Json × Bytes))
    → (Bytes → Option (Json × Bytes))
    → Bytes
    → Option (Json × Bytes)
unfolding scalar scan_string
first_of objects arrays [] = none
first_of objects arrays (c ∷ s) =
    if c == 34
    then (scan_string s >>= λ p. some (str p.0, p.1))
    else if c == b'{'
    then objects s
    else if c == b'['
    then arrays s
    else scalar (c ∷ s)

-- The closing bracket, or else more.
unfoldable pub ended_or : {A : Type 0} → ℕ → A → Option (A × Bytes) → Bytes → Option (A × Bytes)
unfolding expect skip_blanks
ended_or bracket a more s = elim (expect bracket (skip_blanks s)) [
  | some r ↦ some (a, r)
  | none ↦ more
]

-- One level deeper, where the nesting still allows it.
abbrev pub deeper : {A : Type 0} → ℕ → (ℕ → Option A) → Option A
deeper zero k = none
deeper (suc e) k = k e

-- Of the fuel each call takes one unit; the second number is the nesting that is still allowed.
unfoldable mutual
  unfolding skip_blanks expect scan_string first_of ended_or

  pub value : ℕ → ℕ → Bytes → Option (Json × Bytes)
  value zero d s = none
  value (suc f) d s =
      first_of (λ r. deeper d (λ e. object f e r)) (λ r. deeper d (λ e. array f e r))
        (skip_blanks s)

  pub object : ℕ → ℕ → Bytes → Option (Json × Bytes)
  object zero d s = none
  object (suc f) d s = ended_or b'}' (obj end) (members f d s >>= λ p. some (obj p.0, p.1)) s

  pub members : ℕ → ℕ → Bytes → Option (Members × Bytes)
  members zero d s = none
  members (suc f) d s = expect 34 (skip_blanks s) >>= λ a. scan_string a >>= λ k.
      expect b':' (skip_blanks k.1) >>= λ b. value f d b >>= λ v.
      ended_or b'}' (member k.0 v.0 end)
        (expect b',' (skip_blanks v.1) >>= λ c.
          members f d c >>= λ m. some (member k.0 v.0 m.0, m.1))
        v.1

  pub array : ℕ → ℕ → Bytes → Option (Json × Bytes)
  array zero d s = none
  array (suc f) d s = ended_or b']' (arr nil) (items f d s >>= λ p. some (arr p.0, p.1)) s

  pub items : ℕ → ℕ → Bytes → Option (Items × Bytes)
  items zero d s = none
  items (suc f) d s = value f d s >>= λ v.
      ended_or b']' (cons v.0 nil)
        (expect b',' (skip_blanks v.1) >>= λ c. items f d c >>= λ m. some (cons v.0 m.0, m.1)) v.1

-- `maxNestingDepth`
abbrev pub max_depth : ℕ
max_depth = 10000

-- The first value of a text and what follows it. Each byte costs at most three calls.
unfoldable pub first_value : Bytes → Option (Json × Bytes)
unfolding value
first_value s = value (3 * length s + 3) max_depth s

abbrev is_end : Bytes → Bool
is_end [] = true
is_end (c ∷ s) = false

-- `io.EOF` of a further `Decode`: nothing but white space follows.
unfoldable pub only_blanks : Bytes → Bool
unfolding skip_blanks
only_blanks s = is_end (skip_blanks s)

-- The value of a whole text: `checkValid` of `Unmarshal`.
unfoldable pub whole_value : Bytes → Option Json
unfolding first_value only_blanks
whole_value s = first_value s >>= λ p. if only_blanks p.1 then some p.0 else none
