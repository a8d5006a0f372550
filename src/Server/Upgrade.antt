-- ===== src/Server/Upgrade.antt =====
-- Which requests "/gateway/terminal" upgrades.
pub mod Parts
use rook_servicechannel_gate.Base.{
  ◌≡◌, ◌↔◌, true, List, [], ◌∷◌, ◌⊎◌, inl, inr, Any, Any-map, Bool-cases, arith,
}
use rook_servicechannel_gate.Base.Text.{Bytes, text, bytes_eq_iff}
use rook_servicechannel_gate.Base.Text.Trim.{trim_space}
use rook_servicechannel_gate.Json.Decode.{fold_name, names}
use rook_servicechannel_gate.Server.Upgrade.Parts.{IsPart, split_commas-IsPart, IsPart-split_commas}
use rook_servicechannel_gate.Server.Mux.{
  HttpQuery, upgrades, write_json, write_error, split_commas, is_token, any_part, any_value,
  header_contains_token, first_value_of, has_upgrade_headers, use_get, terminal_handler,
}

-- The text without the white space round it is the word, up to case.
abbrev pub IsWord : Bytes → Bytes → Type 0
IsWord s word = fold_name (trim_space s) ≡ fold_name word

is_token-IsWord : (s word : Bytes) → (is_token s word ≡ true) ↔ IsWord s word
unfolding is_token names
is_token-IsWord s word = bytes_eq_iff (fold_name (trim_space s)) (fold_name word)

any_part-Any :
    (ps : List Bytes) (wanted : Bytes)
    → any_part ps wanted ≡ true
    → Any (λ part. is_token part wanted ≡ true) ps
unfolding any_part
any_part-Any [] wanted h = cc
any_part-Any (p ∷ ps) wanted h = elim (Bool-cases (is_token p wanted)) [
  | inl here ↦ inl here
  | inr later ↦ inr (any_part-Any ps wanted (ground arith))
]

any_value-Any :
    (vs : List Bytes) (wanted : Bytes)
    → any_value vs wanted ≡ true
    → Any (λ v. Any (λ part. is_token part wanted ≡ true) (split_commas v)) vs
unfolding any_value
any_value-Any [] wanted h = cc
any_value-Any (v ∷ vs) wanted h = elim (Bool-cases (any_part (split_commas v) wanted)) [
  | inl here ↦ inl (any_part-Any (split_commas v) wanted here)
  | inr later ↦ inr (any_value-Any vs wanted (ground arith))
]

Any-any_part :
    (ps : List Bytes) (wanted : Bytes)
    → Any (λ part. is_token part wanted ≡ true) ps
    → any_part ps wanted ≡ true
unfolding any_part
Any-any_part [] wanted h = absurd h
Any-any_part (p ∷ ps) wanted (inl here) = ground arith
Any-any_part (p ∷ ps) wanted (inr later) = ground (arith, Any-any_part ps wanted later)

Any-any_value :
    (vs : List Bytes) (wanted : Bytes)
    → Any (λ v. Any (λ part. is_token part wanted ≡ true) (split_commas v)) vs
    → any_value vs wanted ≡ true
unfolding any_value
Any-any_value [] wanted h = absurd h
Any-any_value (v ∷ vs) wanted (inl here) = ground (arith, Any-any_part (split_commas v) wanted here)
Any-any_value (v ∷ vs) wanted (inr later) = ground (arith, Any-any_value vs wanted later)

-- One of the parts of the value between its commas is the word.
abbrev pub Lists : Bytes → Bytes → Type 0
Lists word v = (part : Bytes) × IsPart v part × IsWord part word

any_value-Lists : (vs : List Bytes) (word : Bytes) → any_value vs word ≡ true → Any (Lists word) vs
any_value-Lists vs word h =
    Any-map vs
      (λ v held.
        let (part, there, is) = split_commas-IsPart (λ s. is_token s word ≡ true) v held in
        (part, there, (is_token-IsWord part word).0 is))
      (any_value-Any vs word h)

Lists-any_value : (vs : List Bytes) (word : Bytes) → Any (Lists word) vs → any_value vs word ≡ true
Lists-any_value vs word h = Any-any_value vs word (
    Any-map vs
      (λ v (part, there, is).
        IsPart-split_commas (λ s. is_token s word ≡ true) v part there
          ((is_token-IsWord part word).1 is))
      h)

-- A GET request with a value of the header `Connection` one of whose parts is the word `upgrade`, and
-- with a first value of `Upgrade` that is the word `websocket`.
abbrev pub IsUpgrade : HttpQuery → Type 0
IsUpgrade q =
    (q.method ≡ text "GET")
    × Any (Lists (text "upgrade")) (q.values (text "Connection"))
    × IsWord (first_value_of (q.values (text "Upgrade"))) (text "websocket")

upgrades-IsUpgrade : (q : HttpQuery) → terminal_handler q ≡ upgrades → IsUpgrade q
unfolding terminal_handler has_upgrade_headers header_contains_token write_error write_json use_get
upgrades-IsUpgrade q h = ground (
  arith,
  bytes_eq_iff q.method (text "GET"),
  any_value-Lists (q.values (text "Connection")) (text "upgrade"),
  is_token-IsWord (first_value_of (q.values (text "Upgrade"))) (text "websocket"),
)

IsUpgrade-upgrades : (q : HttpQuery) → IsUpgrade q → terminal_handler q ≡ upgrades
unfolding terminal_handler has_upgrade_headers header_contains_token
IsUpgrade-upgrades q (get, connection, upgrade) = ground (
  arith,
  bytes_eq_iff q.method (text "GET"),
  Lists-any_value (q.values (text "Connection")) (text "upgrade") connection,
  is_token-IsWord (first_value_of (q.values (text "Upgrade"))) (text "websocket"),
)

-- "/gateway/terminal" upgrades exactly the GET requests with a value of the header `Connection` one of
-- whose parts between commas is the word `upgrade`, and with a first value of `Upgrade` that is the word
-- `websocket`, both up to case and without the white space that `strings.TrimSpace` removes.
pub terminal_handler-upgrades : (q : HttpQuery) → (terminal_handler q ≡ upgrades) ↔ IsUpgrade q
terminal_handler-upgrades q = (upgrades-IsUpgrade q, IsUpgrade-upgrades q)
