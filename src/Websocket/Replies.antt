-- ===== src/Websocket/Replies.antt =====
-- The messages of internal/websocket/protocol.go that the gateway sends, as a browser reads them.
use rook_servicechannel_gate.Base.{
  ◌≡◌, refl, Bool, true, false, some, List, [], All, ◌∷◌, ◌⊎◌, inl, inr, if◌then◌else◌,
}
use rook_servicechannel_gate.Base.Text.{Bytes, text, is_empty}
use rook_servicechannel_gate.Json.{obj}
use rook_servicechannel_gate.Json.Utf8.{utf8_valid}
use rook_servicechannel_gate.Json.Parse.{whole_value}
use rook_servicechannel_gate.Json.Encode.{encode_fields}
use rook_servicechannel_gate.Json.Encode.Parsed.{members_of, IsText, whole_value-encode_fields}
use rook_servicechannel_gate.Websocket.Types.{Message, text_frame, binary_frame, type_text}
use rook_servicechannel_gate.Websocket.Server.{
  new_server_authorized, new_server_output, new_server_error, new_server_close,
}

-- A text frame whose payload is a JSON object with just these members, in this order.
abbrev pub Reads : Message → List (Bytes × Bytes) → Type 0
Reads m fields = (m.frame ≡ text_frame) × (whole_value m.payload ≡ some (obj (members_of fields)))

abbrev pub named : Bytes → Bytes × Bytes
named t = (text "type", t)

fields-Reads :
    (k v : Bytes) (m : List (Bytes × Bytes))
    → All IsText ((k, v) ∷ m)
    → Reads (record { frame = text_frame; payload = encode_fields ((k, v) ∷ m) }) ((k, v) ∷ m)
fields-Reads k v m h = (refl, whole_value-encode_fields k v m h)

-- Terminal output.
abbrev pub OutputReads : Bytes → Type 0
OutputReads s =
    ((utf8_valid s ≡ true)
      × Reads (new_server_output s) (named (text "output") ∷ (text "data", s) ∷ []))
    ⊎ ((utf8_valid s ≡ false)
        × (new_server_output s ≡ record { frame = binary_frame; payload = s }))

output-Reads : (s : Bytes) (b : Bool) → utf8_valid s ≡ b → OutputReads s
unfolding new_server_output type_text utf8_valid text
output-Reads s true h = inl (
  h,
  simp h (
      fields-Reads (text "type") (text "output") ((text "data", s) ∷ [])
        ((refl, refl), ((refl, h), tt))),
)
output-Reads s false h = inr (h, rw h)

abbrev pub CloseReads : Bytes → Type 0
CloseReads reason = Reads (new_server_close reason) (
    if is_empty reason
    then named (text "close") ∷ []
    else named (text "close") ∷ (text "reason", reason) ∷ [])

close-Reads : (reason : Bytes) → utf8_valid reason ≡ true → CloseReads reason
unfolding new_server_close type_text utf8_valid text
close-Reads [] h = fields-Reads _ _ [] ((refl, refl), tt)
close-Reads (c ∷ s) h =
    fields-Reads _ _ ((text "reason", c ∷ s) ∷ []) ((refl, refl), ((refl, h), tt))

-- Terminal output that is UTF-8 goes out as a text frame in which a JSON reader finds exactly its bytes
-- as `data`, and any other output as a binary frame of exactly its bytes. A JSON reader finds in the
-- other messages exactly the type and the code, the message or the reason given, where these are UTF-8;
-- an empty reason is left out.
pub server_messages-Read :
    (s code message reason : Bytes)
    → utf8_valid code ≡ true
    → utf8_valid message ≡ true
    → utf8_valid reason ≡ true
    → OutputReads s
      × Reads new_server_authorized (named (text "authorized") ∷ [])
      × Reads
          (new_server_error code message)
          (named (text "error") ∷ (text "code", code) ∷ (text "message", message) ∷ [])
      × CloseReads reason
unfolding new_server_authorized new_server_error type_text utf8_valid text
server_messages-Read s code message reason hc hm hr = (
  output-Reads s (utf8_valid s) refl,
  fields-Reads _ _ [] ((refl, refl), tt),
  fields-Reads _ _ ((text "code", code) ∷ (text "message", message) ∷ [])
      ((refl, refl), ((refl, hc), ((refl, hm), tt))),
  close-Reads reason hr,
)

-- The text of the message `authorized`.
pub authorized_text :
    new_server_authorized
    ≡ record { frame = text_frame; payload = text "{\"type\":\"authorized\"}" }
unfolding new_server_authorized text encode_fields type_text
authorized_text = refl
