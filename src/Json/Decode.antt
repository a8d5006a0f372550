-- ===== src/Json/Decode.antt =====
-- Decoding a value into a struct: `null` leaves the target as it is, keys match a field's name up to
-- case, the last of several members wins, and a value of another kind is an error.
use rook_servicechannel_gate.Base.{
  ℕ, zero, suc, ◌-◌, ◌^◌, Bool, true, false, ◌&&◌, Option, none, some, [], ◌∷◌, ◌==◌, leb, ltb,
  if◌then◌else◌,
}
use rook_servicechannel_gate.Base.Int.{ℤ, pos, negsuc}
use rook_servicechannel_gate.Base.Text.{Bytes, bytes_eq}
use rook_servicechannel_gate.Json.Value.{Json, null, num, str, obj, Members, end, member}
use rook_servicechannel_gate.Json.Utf8.{in_range}
use rook_servicechannel_gate.Json.Lexical.{digits_value}
use rook_servicechannel_gate.Json.Parse.{whole_value}

abbrev upper : ℕ → ℕ
upper c = if in_range b'a' b'z' c then c - 32 else c

-- `foldName`: letters in upper case, U+017F as `S` and U+212A as `K`. No other code point folds to
-- ASCII.
unfoldable pub fold_name : Bytes → Bytes
fold_name [] = []
fold_name (a ∷ []) = upper a ∷ []
fold_name (a ∷ b ∷ []) = if a == 0xC5 && b == 0xBF then b'S' ∷ [] else upper a ∷ upper b ∷ []
fold_name (a ∷ b ∷ c ∷ s) =
    let long_s = b'S' ∷ fold_name (c ∷ s) in
    let kelvin = b'K' ∷ fold_name s in
    let other = upper a ∷ fold_name (b ∷ c ∷ s) in
    if a == 0xC5 && b == 0xBF
    then long_s
    else if a == 0xE2 && b == 0x84 && c == 0xAA
    then kelvin
    else other

-- A key of an object names the field.
unfoldable pub names : Bytes → Bytes → Bool
unfolding fold_name
names key field = bytes_eq (fold_name key) (fold_name field)

-- A `string` field, and an `int` field of 64 bits.
unfoldable pub as_string : Json → Bytes → Option Bytes
as_string null old = some old
as_string (str s) old = some s
as_string _ old = none

signed : Bool → ℕ → Option ℤ
signed true n = if leb n (2 ^ 63) then some (elim n [ zero ↦ pos 0 | suc m ↦ negsuc m ]) else none
signed false n = if ltb n (2 ^ 63) then some (pos n) else none

in_int64 : Bool → Option ℕ → Option ℤ
in_int64 negative none = none
in_int64 negative (some n) = signed negative n

-- `strconv.ParseInt(literal, 10, 64)` on a JSON number.
unfoldable pub int_literal : Bytes → Option ℤ
unfolding in_int64 signed digits_value
int_literal [] = none
int_literal (c ∷ s) =
    if c == b'-' then in_int64 true (digits_value s) else in_int64 false (digits_value (c ∷ s))

unfoldable pub as_int : Json → ℤ → Option ℤ
unfolding int_literal
as_int null old = some old
as_int (num n) old = int_literal n
as_int _ old = none

-- What one member does to a struct.
pub data Assign (S : Type 0) : Type 0 where
  unknown mismatch : Assign S
  assigned : S → Assign S

abbrev pub assign_by : {S A : Type 0} → Option A → (A → S) → Assign S
assign_by none put = mismatch
assign_by (some a) put = assigned (put a)

module _ {S : Type 0} (assign : Bytes → Json → S → Assign S) (strict : Bool) where
  -- With `DisallowUnknownFields` a key that names no field is an error.
  unfoldable pub decode_members : Members → S → Option S
  decode_members end s = some s
  decode_members (member k v m) s = elim (assign k v s) [
    | unknown ↦ (if strict then none else decode_members m s)
    | mismatch ↦ none
    | assigned t ↦ decode_members m t
  ]

  unfoldable pub decode_value : Json → S → Option S
  unfolding decode_members
  decode_value null s = some s
  decode_value (obj m) s = decode_members m s
  decode_value _ s = none

module _ {S : Type 0} (assign : Bytes → Json → S → Assign S) where
  -- `json.Unmarshal(data, &target)` for a target that holds `zero`.
  unfoldable pub unmarshal : Bytes → S → Option S
  unfolding decode_value whole_value
  unmarshal s zero_value = elim (whole_value s) [
    | none ↦ none
    | some v ↦ decode_value assign false v zero_value
  ]
