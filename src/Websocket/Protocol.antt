-- ===== src/Websocket/Protocol.antt =====
-- The parser of internal/websocket/protocol.go.
pub mod Sound
pub mod Fuel
pub mod Texts
mod Tests
use rook_servicechannel_gate.Base.{
  Bool, true, false, ◌||◌, Option, none, some, [], ◌∷◌, Result, ok, err, or_fail, ◌>>=◌,
  if◌then◌else◌,
}
use rook_servicechannel_gate.Base.Int.{ℤ, pos, is_nonpos}
use rook_servicechannel_gate.Base.Text.{Bytes, text, bytes_eq, is_empty}
use rook_servicechannel_gate.Base.Text.Trim.{trim_space}
use rook_servicechannel_gate.Json.{Json}
use rook_servicechannel_gate.Json.Parse.{first_value, only_blanks}
use rook_servicechannel_gate.Json.Decode.{
  Assign, unknown, assign_by, names, as_string, as_int, decode_value, unmarshal,
}
use rook_servicechannel_gate.Websocket.Types.{
  Message, text_frame, binary_frame, FrameType, MessageType, authorize, authorized, input, output,
  resize, error, close, type_text, ProtocolError, ClientMessage,
}

pub record ControlMessage : Type 0 where
  pub type : Bytes

-- The Go structs `inputMessage`, `authorizeMessage` and `closeMessage`: a type and one text.
pub record TextMessage : Type 0 where
  pub type : Bytes
  pub content : Bytes

pub record ResizeMessage : Type 0 where
  pub type : Bytes
  pub rows : ℤ
  pub columns : ℤ

unfoldable pub assign_control : Bytes → Json → ControlMessage → Assign ControlMessage
unfolding text names
assign_control k v m =
    if names k (text "type")
    then assign_by (as_string v m.type) (λ t. record m { type = t })
    else unknown

-- The second field has the given name: `data`, `token` or `reason`.
unfoldable pub assign_text : Bytes → Bytes → Json → TextMessage → Assign TextMessage
unfolding text names
assign_text field k v m =
    if names k (text "type")
    then assign_by (as_string v m.type) (λ t. record m { type = t })
    else if names k field
    then assign_by (as_string v m.content) (λ t. record m { content = t })
    else unknown

unfoldable pub assign_resize : Bytes → Json → ResizeMessage → Assign ResizeMessage
unfolding text names
assign_resize k v m =
    if names k (text "type")
    then assign_by (as_string v m.type) (λ t. record m { type = t })
    else if names k (text "rows")
    then assign_by (as_int v m.rows) (λ n. record m { rows = n })
    else if names k (text "columns")
    then assign_by (as_int v m.columns) (λ n. record m { columns = n })
    else unknown

-- The first value of the text into the struct, with no unknown field and nothing behind it.
unfoldable pub decode_strict : {S : Type 0} → (Bytes → Json → S → Assign S) → Bytes → S → Option S
decode_strict assign s target = elim (first_value s) [
  | none ↦ none
  | some (v, rest) ↦ elim (decode_value assign true v target) [
    | none ↦ none
    | some t ↦ (if only_blanks rest then some t else none)
  ]
]

abbrev failed : Bytes → Bytes → ProtocolError
failed code message = record { code = code; message = message }

abbrev pub client_message : MessageType → ClientMessage
client_message t = record {
  type = t;
  token = [];
  input_text = [];
  binary_data = none;
  rows = pos 0;
  columns = pos 0;
  reason = [];
}

abbrev empty_text : TextMessage
empty_text = record { type = []; content = [] }

parse_authorize : Bytes → Result ProtocolError ClientMessage
parse_authorize s = do
  parsed ←
      or_fail (failed (text "invalid_authorize") (text "authorize message is malformed"))
        (decode_strict (assign_text (text "token")) s empty_text)
  let token = trim_space parsed.content
  if is_empty token
      then err (failed (text "invalid_authorize") (text "authorize token must not be empty"))
      else ok (record (client_message authorize) { token = token })

parse_input : Bytes → Result ProtocolError ClientMessage
parse_input s = do
  parsed ←
      or_fail (failed (text "invalid_input") (text "input message is malformed"))
        (decode_strict (assign_text (text "data")) s empty_text)
  ok (record (client_message input) { input_text = parsed.content })

parse_resize : Bytes → Result ProtocolError ClientMessage
parse_resize s = do
  parsed ←
      or_fail (failed (text "invalid_resize") (text "resize message is malformed"))
        (decode_strict assign_resize s (record { type = []; rows = pos 0; columns = pos 0 }))
  if is_nonpos parsed.rows || is_nonpos parsed.columns
      then err (
          failed (text "invalid_resize") (text "resize rows and columns must be greater than zero"))
      else ok (record (client_message resize) { rows = parsed.rows; columns = parsed.columns })

parse_close : Bytes → Result ProtocolError ClientMessage
parse_close s = do
  parsed ←
      or_fail (failed (text "invalid_close") (text "close message is malformed"))
        (decode_strict (assign_text (text "reason")) s empty_text)
  ok (record (client_message close) { reason = trim_space parsed.content })

-- The `switch` over `MessageType(strings.TrimSpace(base.Type))`; `none` is its default.
message_type : Bytes → Option MessageType
unfolding type_text
message_type s =
    if bytes_eq s (type_text authorize)
    then some authorize
    else if bytes_eq s (type_text input)
    then some input
    else if bytes_eq s (type_text resize)
    then some resize
    else if bytes_eq s (type_text close)
    then some close
    else if bytes_eq s (type_text output)
    then some output
    else if bytes_eq s (type_text error)
    then some error
    else if bytes_eq s (type_text authorized)
    then some authorized
    else none

parse_typed : Option MessageType → Bytes → Result ProtocolError ClientMessage
parse_typed (some authorize) s = parse_authorize s
parse_typed (some input) s = parse_input s
parse_typed (some resize) s = parse_resize s
parse_typed (some close) s = parse_close s
parse_typed (some output) s =
    err (failed (text "unexpected_output") (text "output messages are server-to-client only"))
parse_typed (some error) s =
    err (failed (text "unexpected_error") (text "error messages are server-to-client only"))
parse_typed (some authorized) s =
    err
      (failed (text "unexpected_authorized") (text "authorized messages are server-to-client only"))
parse_typed none s =
    err (failed (text "unknown_message_type") (text "unsupported control message type"))

-- `append([]byte(nil), data...)` is nil for empty data.
abbrev copied : Bytes → Option Bytes
copied [] = none
copied (c ∷ s) = some (c ∷ s)

parse_frame : FrameType → Bytes → Result ProtocolError ClientMessage
parse_frame binary_frame s = ok (record (client_message input) { binary_data = copied s })
parse_frame text_frame s = do
  base ←
      or_fail (failed (text "invalid_json") (text "control message must be valid JSON"))
        (unmarshal assign_control s (record { type = [] }))
  parse_typed (message_type (trim_space base.type)) s

unfoldable pub parse_client_message : Message → Result ProtocolError ClientMessage
unfolding parse_frame parse_typed message_type parse_authorize parse_input parse_resize parse_close
    assign_control assign_text assign_resize decode_strict unmarshal trim_space
parse_client_message m = parse_frame m.frame m.payload
