-- ===== src/Json/Encode/Parsed.antt =====
-- The parser on a struct of strings that `json.Marshal` has written.
use rook_servicechannel_gate.Base.{
  ℕ, zero, suc, ◌+◌, ◌*◌, ◌≤◌, ◌≡◌, true, some, List, [], ◌∷◌, ◌++◌, length, length-append, All,
  arith,
}
use rook_servicechannel_gate.Base.Text.{Bytes}
use rook_servicechannel_gate.Json.Value.{Json, str, obj, Members, end, member}
use rook_servicechannel_gate.Json.Utf8.{utf8_valid}
use rook_servicechannel_gate.Json.Parse.{
  skip_blanks, value, object, members, first_value, only_blanks, whole_value,
}
use rook_servicechannel_gate.Json.Encode.{encode_string, encode_more, encode_fields}
use rook_servicechannel_gate.Json.Encode.Scanned.{scan_string-encode_string}

-- The fields as members of an object.
abbrev pub members_of : List (Bytes × Bytes) → Members
members_of [] = end
members_of ((k, v) ∷ m) = member k (str v) (members_of m)

-- The name and the value of a field are UTF-8.
abbrev pub IsText : Bytes × Bytes → Type 0
IsText (k, v) = (utf8_valid k ≡ true) × (utf8_valid v ≡ true)

value-string :
    (f d : ℕ) (v t : Bytes)
    → utf8_valid v ≡ true
    → value (suc f) d (encode_string v ++ t) ≡ some (str v, t)
unfolding value
value-string f d v t h = let (r, e, s) = scan_string-encode_string v t h in rw (e, s)

-- The first member, with what the text goes on with.
last_member :
    (f d : ℕ) (k v : Bytes)
    → IsText (k, v)
    → members (suc (suc f)) d (encode_string k ++ b':' ∷ (encode_string v ++ b'}' ∷ []))
      ≡ some (member k (str v) end, [])
unfolding members
last_member f d k v (hk, hv) =
    let (r, e, s) = scan_string-encode_string k (b':' ∷ (encode_string v ++ b'}' ∷ [])) hk in
    rw (e, s, value-string f d v (b'}' ∷ []) hv)

next_member :
    (f d : ℕ) (k v u rest : Bytes) (m : Members)
    → IsText (k, v)
    → members (suc f) d u ≡ some (m, rest)
    → members (suc (suc f)) d (encode_string k ++ b':' ∷ (encode_string v ++ b',' ∷ u))
      ≡ some (member k (str v) m, rest)
unfolding members
next_member f d k v u rest m (hk, hv) h =
    let (r, e, s) = scan_string-encode_string k (b':' ∷ (encode_string v ++ b',' ∷ u)) hk in
    rw (e, s, value-string f d v (b',' ∷ u) hv, h)

members-encode :
    (f d : ℕ) (k v : Bytes) (m : List (Bytes × Bytes))
    → All IsText ((k, v) ∷ m)
    → length m + 2 ≤ f
    → members f d (encode_string k ++ b':' ∷ (encode_string v ++ encode_more m))
      ≡ some (members_of ((k, v) ∷ m), [])
unfolding encode_more
members-encode zero d k v m h b = absurd (omega (arith, b))
members-encode (suc zero) d k v m h b = absurd (omega (arith, b))
members-encode (suc (suc f)) d k v [] h b = last_member f d k v h.0
members-encode (suc (suc f)) d k v ((k', v') ∷ m) h b =
    next_member f d k v (encode_string k' ++ b':' ∷ (encode_string v' ++ encode_more m)) [] _ h.0
      (members-encode (suc f) d k' v' m h.1 (omega (arith, b)))

value-object :
    (f d : ℕ) (k t : Bytes) (m : Members)
    → members f d (encode_string k ++ t) ≡ some (m, [])
    → value (suc (suc f)) (suc d) (b'{' ∷ (encode_string k ++ t)) ≡ some (obj m, [])
unfolding value object encode_string
value-object f d k t m h = rw h

-- Each field takes some of the text.
length-encode_more : (m : List (Bytes × Bytes)) → length m ≤ length (encode_more m)
unfolding encode_more
length-encode_more [] = omega arith
length-encode_more ((k, v) ∷ m) = omega (
  arith,
  length-append (encode_string k) (b':' ∷ (encode_string v ++ encode_more m)),
  length-append (encode_string v) (encode_more m),
  length-encode_more m,
)

enough :
    (k v : Bytes) (m : List (Bytes × Bytes))
    → length m ≤ length (encode_string k ++ b':' ∷ (encode_string v ++ encode_more m))
enough k v m = omega (
  arith,
  length-append (encode_string k) (b':' ∷ (encode_string v ++ encode_more m)),
  length-append (encode_string v) (encode_more m),
  length-encode_more m,
)

whole_of : (s : Bytes) (j : Json) → first_value s ≡ some (j, []) → whole_value s ≡ some j
unfolding whole_value only_blanks skip_blanks
whole_of s j h = rw h

-- The fuel of the scanner is enough for the fields.
first_value-encode_fields :
    (k v : Bytes) (m : List (Bytes × Bytes))
    → All IsText ((k, v) ∷ m)
    → first_value (encode_fields ((k, v) ∷ m)) ≡ some (obj (members_of ((k, v) ∷ m)), [])
unfolding first_value encode_fields
first_value-encode_fields k v m h =
    let n = length (encode_string k ++ b':' ∷ (encode_string v ++ encode_more m)) in
    let fuel : 3 * suc n + 3 ≡ suc (suc (3 * n + 4)) = omega arith in
    rw fuel (
      value-object (3 * n + 4) 9999 k (b':' ∷ (encode_string v ++ encode_more m)) _
        (members-encode (3 * n + 4) 9999 k v m h (omega (arith, enough k v m))))

-- The fields that have been written are read back, each as it was.
pub whole_value-encode_fields :
    (k v : Bytes) (m : List (Bytes × Bytes))
    → All IsText ((k, v) ∷ m)
    → whole_value (encode_fields ((k, v) ∷ m)) ≡ some (obj (members_of ((k, v) ∷ m)))
whole_value-encode_fields k v m h =
    whole_of (encode_fields ((k, v) ∷ m)) _ (first_value-encode_fields k v m h)
