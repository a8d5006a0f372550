-- ===== src/Websocket/Protocol/Tests.antt =====
-- The parser and the server's messages at the inputs of internal/websocket/protocol_test.go.
use rook_servicechannel_gate.Base.{◌≡◌, refl, ◌∷◌, ◌++◌, [], ok, err, some, true}
use rook_servicechannel_gate.Base.Int.{pos}
use rook_servicechannel_gate.Base.Text.{Bytes, text, bytes_eq}
use rook_servicechannel_gate.Json.Utf8.{utf8_valid}
use rook_servicechannel_gate.Json.Parse.{whole_value}
use rook_servicechannel_gate.Json.Decode.{as_string, as_int, decode_value, unmarshal}
use rook_servicechannel_gate.Websocket.Types.{
  text_frame, authorize, resize, Message, type_text, ClientMessage,
}
use rook_servicechannel_gate.Websocket.Protocol.{
  parse_client_message, client_message, assign_control, decode_strict, ControlMessage,
}
use rook_servicechannel_gate.Json.{Json}
use rook_servicechannel_gate.Websocket.Protocol.Sound.{
  IsWellFormed, Names, parse_client_message-IsWellFormed, decode_strict_of_unmarshal,
}
use rook_servicechannel_gate.Websocket.Server.{new_server_authorized, new_server_error}
use rook_servicechannel_gate.Websocket.Protocol.Texts.{HasUtf8, parse_client_message-HasUtf8}
use rook_servicechannel_gate.Websocket.Replies.{
  Reads, OutputReads, CloseReads, named, server_messages-Read,
}
use rook_servicechannel_gate.Json.Encode.{encode_fields}

abbrev in_text : Bytes → Message
in_text s = record { frame = text_frame; payload = s }

parse_authorize_test :
    parse_client_message (in_text (text "{\"type\":\"authorize\",\"token\":\"grant-123\"}"))
    ≡ ok (record (client_message authorize) { token = text "grant-123" })
unfolding parse_client_message text bytes_eq as_string as_int
parse_authorize_test = refl

parse_resize_test :
    parse_client_message
      (in_text (text " {\"ROWS\": 40, \"columns\":1e2,\"type\":\" resize\", \"columns\":120}\n"))
    ≡ err (record { code = text "invalid_resize"; message = text "resize message is malformed" })
unfolding parse_client_message text bytes_eq as_string as_int
parse_resize_test = refl

new_server_authorized_test : new_server_authorized ≡ in_text (text "{\"type\":\"authorized\"}")
unfolding new_server_authorized text encode_fields type_text
new_server_authorized_test = refl

abbrev resize_text : Message
resize_text = in_text (text "{\"type\":\"resize\",\"rows\":40,\"columns\":120}")

abbrev resized : ClientMessage
resized = record (client_message resize) { rows = pos 40; columns = pos 120 }

resize_text_test : parse_client_message resize_text ≡ ok resized
unfolding parse_client_message text bytes_eq as_string as_int
resize_text_test = refl

parse_client_message-IsWellFormed_example :
    IsWellFormed resized × Names text_frame resize_text.payload resized
parse_client_message-IsWellFormed_example =
    parse_client_message-IsWellFormed resize_text resized resize_text_test

abbrev close_text : Bytes
close_text = text "{\"type\":\"close\"}"

abbrev base_message : ControlMessage
base_message = record { type = text "close" }

close_text-unmarshal :
    unmarshal assign_control close_text (record { type = [] }) ≡ some base_message
unfolding unmarshal assign_control text bytes_eq as_string as_int
close_text-unmarshal = refl

decode_strict_of_unmarshal_example :
    (v : Json) × (whole_value close_text ≡ some v)
    × (decode_strict assign_control close_text (record { type = [] })
        ≡ decode_value assign_control true v (record { type = [] }))
decode_strict_of_unmarshal_example =
    decode_strict_of_unmarshal assign_control close_text (record { type = [] }) base_message
      close_text-unmarshal

-- A line with a quote, a line break and a letter of two bytes.
abbrev line : Bytes
line = text "\"hi\"\n" ++ 0xC3 ∷ 0xA9 ∷ []

server_messages-Read_example :
    OutputReads line
    × Reads new_server_authorized (named (text "authorized") ∷ [])
    × Reads
        (new_server_error (text "ssh_error") line)
        (named (text "error") ∷ (text "code", text "ssh_error") ∷ (text "message", line) ∷ [])
    × CloseReads (text "client_close")
unfolding utf8_valid text
server_messages-Read_example =
    server_messages-Read line (text "ssh_error") line (text "client_close") refl refl refl

-- The token has a byte that is no UTF-8.
abbrev broken_message : Message
broken_message = in_text (text "{\"type\":\"authorize\",\"token\":\"" ++ 0xFF ∷ text "\"}")

abbrev mended : ClientMessage
mended = record (client_message authorize) { token = 0xEF ∷ 0xBF ∷ 0xBD ∷ [] }

broken_message-parsed : parse_client_message broken_message ≡ ok mended
unfolding parse_client_message text bytes_eq as_string
broken_message-parsed = refl

parse_client_message-HasUtf8_example : HasUtf8 mended
parse_client_message-HasUtf8_example =
    parse_client_message-HasUtf8 broken_message mended broken_message-parsed
