-- ===== src/Json/Float.antt =====
-- Which numbers fit into a `float64`: `Unmarshal` into an `any` reads each number of the text by
-- `strconv.ParseFloat`, and fails where one is out of range.
use rook_servicechannel_gate.Base.{
  ℕ, suc, ◌+◌, ◌-◌, ◌*◌, ◌^◌, Bool, true, false, not, ◌&&◌, ◌||◌, ◌==◌, ◌≡◌, refl, [], ◌∷◌, leb,
  length, if◌then◌else◌,
}
use rook_servicechannel_gate.Base.Text.{Bytes, text}
use rook_servicechannel_gate.Json.Value.{
  Json, num, arr, obj, Items, nil, cons, Members, end, member,
}
use rook_servicechannel_gate.Json.Utf8.{in_range}

-- The parts of a literal.
data Part : Type 0 where
  whole fraction power : Part

-- What a literal says: `digits` times ten to the power of `exponent`, or of its negative, less `shift`.
record Decimal : Type 0 where
  part : Part
  digits : ℕ
  shift : ℕ
  negative : Bool
  exponent : ℕ

abbrev is_power_mark : ℕ → Bool
is_power_mark c = c == b'e' || c == b'E'

abbrev is_figure : ℕ → Bool
is_figure c = in_range b'0' b'9' c

-- One byte of the literal. A sign in front does not count.
abbrev read : Part → ℕ → Decimal → Decimal
read whole c d =
    if is_figure c
    then record d { digits = 10 * d.digits + (c - b'0') }
    else if c == b'.'
    then record d { part = fraction }
    else if is_power_mark c
    then record d { part = power }
    else d
read fraction c d =
    if is_figure c
    then record d { digits = 10 * d.digits + (c - b'0'); shift = suc d.shift }
    else if is_power_mark c
    then record d { part = power }
    else d
read power c d =
    if is_figure c
    then record d { exponent = 10 * d.exponent + (c - b'0') }
    else if c == b'-'
    then record d { negative = true }
    else d

read_all : Decimal → Bytes → Decimal
read_all d [] = d
read_all d (c ∷ s) = read_all (read d.part c d) s

-- Half way between the largest `float64` and the next power of two: from here on numbers round up.
abbrev float_limit : ℕ
float_limit = 2 ^ 1024 - 2 ^ 970

-- The number divided by a power of ten; one that has more noughts than the literal has bytes is below 1.
abbrev divided_exceeds : ℕ → ℕ → ℕ → Bool
divided_exceeds bytes digits down = not (leb bytes down) && leb (float_limit * 10 ^ down) digits

abbrev multiplied_exceeds : ℕ → ℕ → Bool
multiplied_exceeds digits up = leb 400 up || leb float_limit (digits * 10 ^ up)

abbrev exceeds : ℕ → Decimal → Bool
exceeds bytes d =
    if d.digits == 0
    then false
    else if d.negative
    then divided_exceeds bytes d.digits (d.shift + d.exponent)
    else if leb d.shift d.exponent
    then multiplied_exceeds d.digits (d.exponent - d.shift)
    else divided_exceeds bytes d.digits (d.shift - d.exponent)

fits_float : Bytes → Bool
unfolding read_all
fits_float s = not (
    exceeds (length s)
      (read_all (record { part = whole; digits = 0; shift = 0; negative = false; exponent = 0 }) s))

-- All numbers of the value fit.
mutual
  pub fits : Json → Bool
  fits (num s) = fits_float s
  fits (arr l) = items_fit l
  fits (obj m) = members_fit m
  fits _ = true

  items_fit : Items → Bool
  items_fit nil = true
  items_fit (cons v l) = fits v && items_fit l

  members_fit : Members → Bool
  members_fit end = true
  members_fit (member k v m) = fits v && members_fit m

largest_test : fits_float (text "1.7976931348623158e308") ≡ true
unfolding fits_float text
largest_test = refl

too_large_test : fits_float (text "-1.7976931348623159e+308") ≡ false
unfolding fits_float text
too_large_test = refl

far_too_large_test : fits_float (text "1e999999999") ≡ false
unfolding fits_float text
far_too_large_test = refl

nothing_test : fits_float (text "0.001e-999999999") ≡ true
unfolding fits_float text
nothing_test = refl
