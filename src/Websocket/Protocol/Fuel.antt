-- ===== src/Websocket/Protocol/Fuel.antt =====
-- The decoding of client messages in internal/websocket/protocol.go at different amounts of fuel.
use rook_servicechannel_gate.Base.{
  ℕ, ◌+◌, ◌*◌, ◌≤◌, ◌≡◌, refl, sym, ◌∙◌, ap, arith, true, false, Option, none, some, length,
  if◌then◌else◌,
}
use rook_servicechannel_gate.Base.Text.{Bytes}
use rook_servicechannel_gate.Json.{Json}
use rook_servicechannel_gate.Json.Parse.{
  ◌>>=◌, value, max_depth, whole_value, only_blanks, first_value,
}
use rook_servicechannel_gate.Json.Parse.Fuel.{first_value-fuel}
use rook_servicechannel_gate.Json.Decode.{Assign, decode_value, unmarshal}
use rook_servicechannel_gate.Websocket.Protocol.{decode_strict}

module _ {S : Type 0} (assign : Bytes → Json → S → Assign S) (target : S) where
  -- What `decodeStrict` makes of the first value of a text and of what follows it.
  abbrev strictly : Option (Json × Bytes) → Option S
  strictly none = none
  strictly (some (v, rest)) = elim (decode_value assign true v target) [
    | none ↦ none
    | some t ↦ (if only_blanks rest then some t else none)
  ]

  -- What `json.Unmarshal` makes of them.
  abbrev loosely : Option (Json × Bytes) → Option S
  loosely none = none
  loosely (some (v, rest)) = if only_blanks rest then decode_value assign false v target else none

decode_strict-strictly :
    {S : Type 0} (assign : Bytes → Json → S → Assign S) (s : Bytes) (target : S)
    → decode_strict assign s target ≡ strictly assign target (first_value s)
unfolding decode_strict
decode_strict-strictly assign s target = refl

unmarshal-loosely :
    {S : Type 0} (assign : Bytes → Json → S → Assign S) (s : Bytes) (target : S)
    → unmarshal assign s target ≡ loosely assign target (first_value s)
unfolding unmarshal whole_value
unmarshal-loosely assign s target = of_first (first_value s)
  where
    of_first :
        (o : Option (Json × Bytes))
        → elim (o >>= λ p. if only_blanks p.1 then some p.0 else none) [
          | none ↦ none
          | some v ↦ decode_value assign false v target
        ]
          ≡ loosely assign target o
    of_first none = refl
    of_first (some (v, rest)) = ground arith

-- `Unmarshal` and `decodeStrict` decode the first value that the grammar of JSON finds in a text,
-- searched with any amount of fuel from three times the length of the text and three on: neither of
-- them fails because the search has stopped early.
decode_strict-fuel :
    {S : Type 0} (assign : Bytes → Json → S → Assign S) (s : Bytes) (target : S) (f : ℕ)
    → 3 * length s + 3 ≤ f
    → (decode_strict assign s target ≡ strictly assign target (value f max_depth s))
      × (unmarshal assign s target ≡ loosely assign target (value f max_depth s))
decode_strict-fuel assign s target f h =
    let same = sym (first_value-fuel f s h) in
    (
      decode_strict-strictly assign s target ∙ ap (strictly assign target) same,
      unmarshal-loosely assign s target ∙ ap (loosely assign target) same,
    )
