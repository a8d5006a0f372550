-- ===== src/Websocket/Server.antt =====
-- The messages that the gateway sends: internal/websocket/protocol.go.
use rook_servicechannel_gate.Base.{List, [], ◌∷◌, if◌then◌else◌}
use rook_servicechannel_gate.Base.Text.{Bytes, text, is_empty}
use rook_servicechannel_gate.Json.Utf8.{utf8_valid}
use rook_servicechannel_gate.Json.Encode.{encode_fields}
use rook_servicechannel_gate.Websocket.Types.{
  Message, text_frame, binary_frame, MessageType, authorized, output, error, close, type_text,
}

-- `mustJSON` of a struct of string fields, whose encoding cannot fail, in a text frame.
json_message : List (Bytes × Bytes) → Message
json_message fields = record { frame = text_frame; payload = encode_fields fields }

abbrev typed : MessageType → Bytes × Bytes
typed t = (text "type", type_text t)

unfoldable pub new_server_authorized : Message
unfolding json_message
new_server_authorized = json_message (typed authorized ∷ [])

-- Output that is no UTF-8 goes as a binary frame.
unfoldable pub new_server_output : Bytes → Message
unfolding json_message
new_server_output s =
    if utf8_valid s
    then json_message (typed output ∷ (text "data", s) ∷ [])
    else record { frame = binary_frame; payload = s }

unfoldable pub new_server_error : Bytes → Bytes → Message
unfolding json_message
new_server_error code message =
    json_message (typed error ∷ (text "code", code) ∷ (text "message", message) ∷ [])

-- `reason` is left out when it is empty.
unfoldable pub new_server_close : Bytes → Message
unfolding json_message
new_server_close reason =
    json_message
      (if is_empty reason then typed close ∷ [] else typed close ∷ (text "reason", reason) ∷ [])
