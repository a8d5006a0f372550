-- ===== src/Websocket/Protocol/Texts.antt =====
-- The encoding of the texts in a client message of internal/websocket/protocol.go.
use rook_servicechannel_gate.Base.{
  ◌≡◌, refl, true, Option, none, some, [], ok, Option-cases, inl, inr, arith,
}
use rook_servicechannel_gate.Base.Text.{Bytes, text}
use rook_servicechannel_gate.Base.Text.Trim.{trim_space}
use rook_servicechannel_gate.Json.{Json, null, bool, num, str, arr, obj, Members, end, member}
use rook_servicechannel_gate.Json.Utf8.{utf8_valid}
use rook_servicechannel_gate.Json.Trimmed.{trim_space-utf8_valid}
use rook_servicechannel_gate.Json.Parse.{first_value}
use rook_servicechannel_gate.Json.Parse.Texts.{IsText, AllTexts, HasTexts, first_value-HasTexts}
use rook_servicechannel_gate.Json.Decode.{
  Assign, unknown, mismatch, assigned, as_string, decode_value, decode_members, unmarshal,
}
use rook_servicechannel_gate.Websocket.Types.{
  Message, FrameType, text_frame, binary_frame, MessageType, authorize, input, resize, close,
  ClientMessage,
}
use rook_servicechannel_gate.Websocket.Protocol.{
  TextMessage, assign_text, decode_strict, empty_text, parse_authorize, parse_input, parse_resize,
  assign_control, message_type, parse_close, parse_typed, parse_frame, parse_client_message,
}

as_string-utf8_valid :
    (v : Json) (old s : Bytes)
    → IsText v
    → utf8_valid old ≡ true
    → as_string v old ≡ some s
    → utf8_valid s ≡ true
unfolding as_string
as_string-utf8_valid null old s t h e = ground arith
as_string-utf8_valid (str a) old s t h e = ground arith
as_string-utf8_valid (bool b) old s t h e = cc
as_string-utf8_valid (num n) old s t h e = cc
as_string-utf8_valid (arr xs) old s t h e = cc
as_string-utf8_valid (obj m) old s t h e = cc

assign_text-utf8_valid :
    (field k : Bytes) (v : Json) (m t : TextMessage)
    → IsText v
    → utf8_valid m.content ≡ true
    → assign_text field k v m ≡ assigned t
    → utf8_valid t.content ≡ true
unfolding assign_text
assign_text-utf8_valid field k v m t text h e = elim (Option-cases (as_string v m.content)) [
  | inl bad ↦ ground arith
  | inr (s, good) ↦ ground (arith, as_string-utf8_valid v m.content s text h good)
]

nothing : {A : Type 0} {a : A} → none ≡ some a → ⊥
nothing h = cc

decode_members-utf8_valid :
    (field : Bytes) (ms : Members) (m t : TextMessage)
    → AllTexts ms
    → utf8_valid m.content ≡ true
    → decode_members (assign_text field) true ms m ≡ some t
    → utf8_valid t.content ≡ true
unfolding decode_members
decode_members-utf8_valid field end m t texts h e = ground arith
decode_members-utf8_valid field (member k v ms) m t (is_text, texts) h e =
    by_field (assign_text field k v m) refl (λ n g. decode_members-utf8_valid field ms n t texts g)
  where
    by_field :
        (a : Assign TextMessage)
        → assign_text field k v m ≡ a
        → ((n : TextMessage)
            → utf8_valid n.content ≡ true
            → decode_members (assign_text field) true ms n ≡ some t
            → utf8_valid t.content ≡ true)
        → utf8_valid t.content ≡ true
    by_field unknown is rest = absurd (nothing (rw (decode_members, is) at e))
    by_field mismatch is rest = absurd (nothing (rw (decode_members, is) at e))
    by_field (assigned n) is rest =
        rest n (assign_text-utf8_valid field k v m n is_text h is) (rw (decode_members, is) at e)

decode_value-utf8_valid :
    (field : Bytes) (v : Json) (m t : TextMessage)
    → HasTexts v
    → utf8_valid m.content ≡ true
    → decode_value (assign_text field) true v m ≡ some t
    → utf8_valid t.content ≡ true
unfolding decode_value
decode_value-utf8_valid field (obj ms) m t texts h e =
    decode_members-utf8_valid field ms m t texts h e
decode_value-utf8_valid field null m t texts h e = ground arith
decode_value-utf8_valid field (str a) m t texts h e = cc
decode_value-utf8_valid field (bool b) m t texts h e = cc
decode_value-utf8_valid field (num n) m t texts h e = cc
decode_value-utf8_valid field (arr xs) m t texts h e = cc

decode_strict-utf8_valid :
    (field s : Bytes) (t : TextMessage)
    → decode_strict (assign_text field) s empty_text ≡ some t
    → utf8_valid t.content ≡ true
unfolding decode_strict
decode_strict-utf8_valid field s t e = elim (Option-cases (first_value s)) [
  | inl bad ↦ absurd (ground arith)
  | inr ((v, r), found) ↦ elim (Option-cases (decode_value (assign_text field) true v empty_text)) [
    | inl bad ↦ absurd (ground arith)
    | inr (u, good) ↦
        let valid =
          decode_value-utf8_valid field v empty_text u (first_value-HasTexts s v r found)
            (unfold utf8_valid in refl) good in
        ground arith
  ]
]

-- The texts of a message are UTF-8.
pub record HasUtf8 (c : ClientMessage) : Type 0 where
  pub token : utf8_valid c.token ≡ true
  pub input_text : utf8_valid c.input_text ≡ true
  pub reason : utf8_valid c.reason ≡ true

nothing_valid : utf8_valid [] ≡ true
unfolding utf8_valid
nothing_valid = refl

parse_authorize-HasUtf8 : (s : Bytes) (c : ClientMessage) → parse_authorize s ≡ ok c → HasUtf8 c
unfolding parse_authorize
parse_authorize-HasUtf8 s c e =
    elim (Option-cases (decode_strict (assign_text (text "token")) s empty_text)) [
      | inl bad ↦ absurd (ground arith)
      | inr (t, good) ↦
          let valid =
            trim_space-utf8_valid t.content (decode_strict-utf8_valid (text "token") s t good) in
          ground (arith, nothing_valid)
    ]

parse_input-HasUtf8 : (s : Bytes) (c : ClientMessage) → parse_input s ≡ ok c → HasUtf8 c
unfolding parse_input
parse_input-HasUtf8 s c e =
    elim (Option-cases (decode_strict (assign_text (text "data")) s empty_text)) [
      | inl bad ↦ absurd (ground arith)
      | inr (t, good) ↦
          ground (arith, decode_strict-utf8_valid (text "data") s t good, nothing_valid)
    ]

parse_resize-HasUtf8 : (s : Bytes) (c : ClientMessage) → parse_resize s ≡ ok c → HasUtf8 c
unfolding parse_resize
parse_resize-HasUtf8 s c e = ground (arith, nothing_valid)

parse_close-HasUtf8 : (s : Bytes) (c : ClientMessage) → parse_close s ≡ ok c → HasUtf8 c
unfolding parse_close
parse_close-HasUtf8 s c e =
    elim (Option-cases (decode_strict (assign_text (text "reason")) s empty_text)) [
      | inl bad ↦ absurd (ground arith)
      | inr (t, good) ↦
          let valid =
            trim_space-utf8_valid t.content (decode_strict-utf8_valid (text "reason") s t good) in
          ground (arith, nothing_valid)
    ]

parse_typed-HasUtf8 :
    (t : Option MessageType) (s : Bytes) (c : ClientMessage) → parse_typed t s ≡ ok c → HasUtf8 c
unfolding parse_typed
parse_typed-HasUtf8 (some authorize) s c e = parse_authorize-HasUtf8 s c e
parse_typed-HasUtf8 (some input) s c e = parse_input-HasUtf8 s c e
parse_typed-HasUtf8 (some resize) s c e = parse_resize-HasUtf8 s c e
parse_typed-HasUtf8 (some close) s c e = parse_close-HasUtf8 s c e
parse_typed-HasUtf8 _ s c e = absurd (cc)

parse_frame-HasUtf8 :
    (f : FrameType) (s : Bytes) (c : ClientMessage) → parse_frame f s ≡ ok c → HasUtf8 c
unfolding parse_frame
parse_frame-HasUtf8 binary_frame s c e = ground (arith, nothing_valid)
parse_frame-HasUtf8 text_frame s c e =
    elim (Option-cases (unmarshal assign_control s (record { type = [] }))) [
      | inl bad ↦ absurd (ground arith)
      | inr (base, good) ↦
          parse_typed-HasUtf8 (message_type (trim_space base.type)) s c (ground arith)
    ]

-- Whatever bytes the browser sends, the texts of a message that is accepted are UTF-8.
pub parse_client_message-HasUtf8 :
    (m : Message) (c : ClientMessage) → parse_client_message m ≡ ok c → HasUtf8 c
unfolding parse_client_message
parse_client_message-HasUtf8 m c e = parse_frame-HasUtf8 m.frame m.payload c e
