-- ===== src/Server/Mux.antt =====
-- The handlers of `NewHandler` in internal/httpserver/server.go, up to the upgrade: which request
-- becomes a WebSocket, and the JSON answers to the others.
use rook_servicechannel_gate.Base.{ℕ, Bool, false, ◌||◌, List, [], ◌∷◌, ◌++◌, ◌==◌, if◌then◌else◌}
use rook_servicechannel_gate.Base.Text.{Bytes, text, bytes_eq}
use rook_servicechannel_gate.Base.Text.Trim.{trim_space}
use rook_servicechannel_gate.Json.Encode.{encode_fields}
use rook_servicechannel_gate.Json.Decode.{names}
use rook_servicechannel_gate.Grants.{ErrorResponse}

-- The method, and the values of each header.
pub record HttpQuery : Type 0 where
  pub method : Bytes
  pub values : Bytes → List Bytes

-- A JSON answer with its status and its body, or the upgrade of the connection.
pub data Answer : Type 0 where
  answers : ℕ → Bytes → Answer
  upgrades : Answer

-- `writeJSON` of an object of strings: `Encode` puts a line break behind it.
unfoldable pub write_json : ℕ → List (Bytes × Bytes) → Answer
write_json status fields = answers status (encode_fields fields ++ b'\n' ∷ [])

unfoldable pub write_error : ℕ → ErrorResponse → Answer
unfolding write_json
write_error status e = write_json status ((text "code", e.code) ∷ (text "message", e.message) ∷ [])

unfoldable pub use_get : Answer
unfolding write_error
use_get = write_error 405 (record { code = text "method_not_allowed"; message = text "use GET" })

-- "/healthz" and "/readyz", with their word.
unfoldable pub status_handler : Bytes → HttpQuery → Answer
unfolding use_get
status_handler word q =
    if bytes_eq q.method (text "GET") then write_json 200 ((text "status", word) ∷ []) else use_get

unfoldable pub push_first : ℕ → List Bytes → List Bytes
push_first c [] = (c ∷ []) ∷ []
push_first c (part ∷ parts) = (c ∷ part) ∷ parts

-- `strings.Split` at commas
unfoldable pub split_commas : Bytes → List Bytes
unfolding push_first
split_commas [] = [] ∷ []
split_commas (c ∷ s) =
    let rest = split_commas s in if c == b',' then [] ∷ rest else push_first c rest

-- `strings.EqualFold(strings.TrimSpace(part), wanted)` for a word in ASCII.
unfoldable pub is_token : Bytes → Bytes → Bool
is_token part wanted = names (trim_space part) wanted

unfoldable pub any_part : List Bytes → Bytes → Bool
any_part [] wanted = false
any_part (part ∷ parts) wanted = is_token part wanted || any_part parts wanted

unfoldable pub any_value : List Bytes → Bytes → Bool
any_value [] wanted = false
any_value (v ∷ vs) wanted = any_part (split_commas v) wanted || any_value vs wanted

unfoldable pub header_contains_token : HttpQuery → Bytes → Bytes → Bool
header_contains_token q key wanted = any_value (q.values key) wanted

-- `header.Get`: the first value, or the empty text.
abbrev pub first_value_of : List Bytes → Bytes
first_value_of [] = []
first_value_of (v ∷ vs) = v

unfoldable pub has_upgrade_headers : HttpQuery → Bool
has_upgrade_headers q =
    if header_contains_token q (text "Connection") (text "upgrade")
    then is_token (first_value_of (q.values (text "Upgrade"))) (text "websocket")
    else false

-- "/gateway/terminal"
unfoldable pub terminal_handler : HttpQuery → Answer
unfolding use_get
terminal_handler q =
    if bytes_eq q.method (text "GET")
    then (if has_upgrade_headers q
        then upgrades
        else write_error 426 (record {
          code = text "upgrade_required";
          message = text "websocket upgrade headers are required";
        }))
    else use_get
