-- ===== src/Websocket/Protocol/Sound.antt =====
-- What an accepted client message is, and what the strict decoder can still refuse.
use rook_servicechannel_gate.Base.{
  ◌≡◌, ◌≢◌, sym, true, false, Option, none, some, [], ◌∷◌, ok, Option-cases, inl, inr, arith,
}
use rook_servicechannel_gate.Base.Int.{pos, ◌<ℤ◌}
use rook_servicechannel_gate.Base.Text.{Bytes, text, bytes_eq_iff, is_empty}
use rook_servicechannel_gate.Base.Text.Trim.{trim_space}
use rook_servicechannel_gate.Json.{Json}
use rook_servicechannel_gate.Json.Parse.{first_value, whole_value}
use rook_servicechannel_gate.Json.Decode.{Assign, decode_value, unmarshal}
use rook_servicechannel_gate.Websocket.Types.{
  Message, FrameType, text_frame, binary_frame, MessageType, authorize, authorized, input, output,
  resize, error, close, type_text, ClientMessage,
}
use rook_servicechannel_gate.Websocket.Protocol.{
  ControlMessage, assign_control, assign_text, decode_strict, empty_text, parse_authorize,
  parse_input, parse_resize, parse_close, message_type, parse_typed, parse_frame,
  parse_client_message,
}

-- What the parser promises of a message of each type. The server's types do not occur.
abbrev pub Fits : MessageType → ClientMessage → Type 0
Fits authorize c = c.token ≢ []
Fits input c = Unit
Fits resize c = (pos 0 <ℤ c.rows) × (pos 0 <ℤ c.columns)
Fits close c = (s : Bytes) × (c.reason ≡ trim_space s)
Fits _ c = ⊥

-- The members that belong to other types are empty.
pub record IsWellFormed (c : ClientMessage) : Type 0 where
  pub fits : Fits c.type c
  pub no_token : c.type ≢ authorize → c.token ≡ []
  pub no_size : c.type ≢ resize → (c.rows ≡ pos 0) × (c.columns ≡ pos 0)
  pub no_reason : c.type ≢ close → c.reason ≡ []
  pub no_input : c.type ≢ input → (c.input_text ≡ []) × (c.binary_data ≡ none)

not-is_empty : (s : Bytes) → is_empty s ≡ false → s ≢ []
not-is_empty [] h = cc
not-is_empty (c ∷ s) h = λ e. cc

parse_authorize-IsWellFormed :
    (s : Bytes) (c : ClientMessage)
    → parse_authorize s ≡ ok c
    → IsWellFormed c × (c.type ≡ authorize)
unfolding parse_authorize
parse_authorize-IsWellFormed s c e =
    elim (Option-cases (decode_strict (assign_text (text "token")) s empty_text)) [
      | inl bad ↦ absurd (ground arith)
      | inr (parsed, good) ↦ ground (arith, not-is_empty (trim_space parsed.content))
    ]

parse_input-IsWellFormed :
    (s : Bytes) (c : ClientMessage) → parse_input s ≡ ok c → IsWellFormed c × (c.type ≡ input)
unfolding parse_input
parse_input-IsWellFormed s c e = ground arith

parse_resize-IsWellFormed :
    (s : Bytes) (c : ClientMessage) → parse_resize s ≡ ok c → IsWellFormed c × (c.type ≡ resize)
unfolding parse_resize
parse_resize-IsWellFormed s c e = ground arith

parse_close-IsWellFormed :
    (s : Bytes) (c : ClientMessage) → parse_close s ≡ ok c → IsWellFormed c × (c.type ≡ close)
unfolding parse_close
parse_close-IsWellFormed s c e =
    elim (Option-cases (decode_strict (assign_text (text "reason")) s empty_text)) [
      | inl bad ↦ absurd (ground arith)
      | inr (parsed, good) ↦
          let same : c.reason ≡ trim_space parsed.content = ground arith in
          let kind : c.type ≡ close = ground arith in
          (
            record {
              fits = rw kind (parsed.content, same);
              no_token = ground arith;
              no_size = ground arith;
              no_reason = ground arith;
              no_input = ground arith;
            },
            kind,
          )
    ]

parse_typed-IsWellFormed :
    (t : Option MessageType) (s : Bytes) (c : ClientMessage)
    → parse_typed t s ≡ ok c
    → IsWellFormed c × (some c.type ≡ t)
unfolding parse_typed
parse_typed-IsWellFormed (some authorize) s c e =
    let (w, k) = parse_authorize-IsWellFormed s c e in (w, cc)
parse_typed-IsWellFormed (some input) s c e = let (w, k) = parse_input-IsWellFormed s c e in (w, cc)
parse_typed-IsWellFormed (some resize) s c e =
    let (w, k) = parse_resize-IsWellFormed s c e in (w, cc)
parse_typed-IsWellFormed (some close) s c e = let (w, k) = parse_close-IsWellFormed s c e in (w, cc)
parse_typed-IsWellFormed _ s c e = cc

message_type_sound : (s : Bytes) (t : MessageType) → message_type s ≡ some t → s ≡ type_text t
unfolding message_type
message_type_sound s t e = ground (
  arith,
  bytes_eq_iff s (type_text authorize),
  bytes_eq_iff s (type_text input),
  bytes_eq_iff s (type_text resize),
  bytes_eq_iff s (type_text close),
  bytes_eq_iff s (type_text output),
  bytes_eq_iff s (type_text error),
  bytes_eq_iff s (type_text authorized),
)

abbrev bytes_of : Option Bytes → Bytes
bytes_of none = []
bytes_of (some s) = s

-- The frame that a message came in: a binary frame is input of its payload, a text frame names the type
-- and has no binary data.
abbrev pub Names : FrameType → Bytes → ClientMessage → Type 0
Names binary_frame s c = (c.type ≡ input) × (bytes_of c.binary_data ≡ s) × (c.input_text ≡ [])
Names text_frame s c =
    (base : ControlMessage) × (unmarshal assign_control s (record { type = [] }) ≡ some base)
    × (trim_space base.type ≡ type_text c.type)
    × (c.binary_data ≡ none)

parse_typed-text :
    (t : Option MessageType) (s : Bytes) (c : ClientMessage)
    → parse_typed t s ≡ ok c
    → c.binary_data ≡ none
unfolding parse_typed parse_authorize parse_input parse_resize parse_close
parse_typed-text (some authorize) s c e = ground arith
parse_typed-text (some input) s c e = ground arith
parse_typed-text (some resize) s c e = ground arith
parse_typed-text (some close) s c e = ground arith
parse_typed-text _ s c e = cc

parse_binary-Names :
    (s : Bytes) (c : ClientMessage) → parse_frame binary_frame s ≡ ok c → Names binary_frame s c
unfolding parse_frame
parse_binary-Names [] c e = ground arith
parse_binary-Names (b ∷ s) c e = ground arith

parse_frame-IsWellFormed :
    (f : FrameType) (s : Bytes) (c : ClientMessage)
    → parse_frame f s ≡ ok c
    → IsWellFormed c × Names f s c
unfolding parse_frame
parse_frame-IsWellFormed binary_frame s c e = (ground arith, parse_binary-Names s c e)
parse_frame-IsWellFormed text_frame s c e =
    elim (Option-cases (unmarshal assign_control s (record { type = [] }))) [
      | inl bad ↦ absurd (ground arith)
      | inr (base, good) ↦
          let parsed : parse_typed (message_type (trim_space base.type)) s ≡ ok c = ground arith in
          let (w, k) = parse_typed-IsWellFormed (message_type (trim_space base.type)) s c parsed in
          (
            w,
            (
              base,
              good,
              message_type_sound (trim_space base.type) c.type (sym k),
              parse_typed-text (message_type (trim_space base.type)) s c parsed,
            ),
          )
    ]

-- A client message that the parser accepts is of a type for clients and in order: a token is not
-- empty, rows and columns are positive, a reason is trimmed, and what belongs to other types is
-- empty, be it a token, a size, an input or a reason; a binary frame is input of exactly its
-- payload, and a text frame is JSON whose trimmed `type` names the type, and has no binary data.
pub parse_client_message-IsWellFormed :
    (m : Message) (c : ClientMessage)
    → parse_client_message m ≡ ok c
    → IsWellFormed c × Names m.frame m.payload c
unfolding parse_client_message
parse_client_message-IsWellFormed m c e = parse_frame-IsWellFormed m.frame m.payload c e

-- A control message that is valid JSON has nothing behind its first value: of the strict decoder's
-- refusals only those of the fields are left.
pub decode_strict_of_unmarshal :
    {S : Type 0} (assign : Bytes → Json → S → Assign S) (s : Bytes) (target : S)
    (base : ControlMessage)
    → unmarshal assign_control s (record { type = [] }) ≡ some base
    → (v : Json) × (whole_value s ≡ some v)
      × (decode_strict assign s target ≡ decode_value assign true v target)
unfolding decode_strict unmarshal whole_value
decode_strict_of_unmarshal assign s target base e = elim (Option-cases (first_value s)) [
  | inl bad ↦ absurd (ground arith)
  | inr ((v, rest), good) ↦ (v, ground arith, ground arith)
]
