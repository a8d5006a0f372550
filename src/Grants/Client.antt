-- ===== src/Grants/Client.antt =====
-- internal/grants/client.go.
use mathlib.Core.List.{reverse}
use rook_servicechannel_gate.Base.{
  ℕ, Bool, not, ◌||◌, none, some, [], ◌∷◌, ◌++◌, Result, ok, err, ◌==◌, if◌then◌else◌,
}
use rook_servicechannel_gate.Base.Text.{Bytes, text, is_empty}
use rook_servicechannel_gate.Base.Text.Trim.{trim_space}
use rook_servicechannel_gate.Json.{Json}
use rook_servicechannel_gate.Json.Decode.{Assign, unknown, assign_by, names, as_string, unmarshal}
use rook_servicechannel_gate.Json.Encode.{encode_fields}
use rook_servicechannel_gate.Grants.Types.{
  ValidationResult, GrantError, no_cause, decoding, reading, transport, invalid_grant, backend,
  other, ErrorResponse, HttpRequest, HttpResponse, Http,
}

unfoldable pub validation_path : Bytes
unfolding text
validation_path = text "/api/gateway/1/validateToken"

drop_slashes : Bytes → Bytes
drop_slashes [] = []
drop_slashes (c ∷ s) = let rest = drop_slashes s in if c == b'/' then rest else c ∷ s

-- `strings.TrimRight(baseURL, "/")`, which `NewClient` stores.
unfoldable pub client_base_url : Bytes → Bytes
unfolding drop_slashes
client_base_url url = reverse (drop_slashes (reverse url))

-- `GrantValidationResponse`: its one field.
unfoldable pub assign_ip : Bytes → Json → Bytes → Assign Bytes
unfolding names text
assign_ip k v ip =
    if names k (text "ipAddress") then assign_by (as_string v ip) (λ t. t) else unknown

unfoldable pub assign_error : Bytes → Json → ErrorResponse → Assign ErrorResponse
unfolding names text
assign_error k v e =
    if names k (text "code")
    then assign_by (as_string v e.code) (λ t. record e { code = t })
    else if names k (text "message")
    then assign_by (as_string v e.message) (λ t. record e { message = t })
    else unknown

-- The body as text, or the text of status 502.
unfoldable pub fallback : Bytes → ErrorResponse
fallback body = record {
  code = text "backend_error";
  message = if is_empty (trim_space body) then text "Bad Gateway" else trim_space body;
}

unfoldable pub has_content : ErrorResponse → Bool
has_content e = not (is_empty e.code) || not (is_empty e.message)

unfoldable pub decode_error_response : Bytes → ErrorResponse
decode_error_response body =
    elim (unmarshal assign_error body (record { code = []; message = [] })) [
      | none ↦ fallback body
      | some e ↦ (if has_content e then e else fallback body)
    ]

unfoldable pub is_invalid_grant_status : ℕ → Bool
is_invalid_grant_status status =
    status == 401
    || status == 403
    || status == 404
    || status == 409
    || status == 410
    || status == 422

-- A response with status 200.
unfoldable pub accepted : Bytes → Result GrantError ValidationResult
accepted body = elim (unmarshal assign_ip body []) [
  | none ↦ err (backend 200 [] (text "decode validation response") decoding)
  | some ip ↦
      if is_empty (trim_space ip)
      then err (backend 200 [] (text "validation response missing ipAddress") no_cause)
      else ok (record { ip_address = ip; raw_response = body })
]

unfoldable pub rejected : ℕ → ErrorResponse → Result GrantError ValidationResult
rejected status e =
    if is_invalid_grant_status status
    then err (invalid_grant status e.code e.message)
    else err (backend status e.code e.message no_cause)

unfoldable pub judged : HttpResponse → Result GrantError ValidationResult
judged response = elim response.body [
  | err e ↦ err (backend response.status [] (text "read backend response") (reading e))
  | ok body ↦
      if response.status == 200
      then accepted body
      else rejected response.status (decode_error_response body)
]

-- The request that carries a token.
unfoldable pub validation_request : Bytes → Bytes → HttpRequest
unfolding validation_path
validation_request base_url token = record {
  url = base_url ++ validation_path;
  body = encode_fields ((text "token", token) ∷ []);
}

-- `Client.ValidateToken`. The encoding of the token cannot fail.
unfoldable pub validate_token : Http → Bytes → Bytes → Result GrantError ValidationResult
validate_token http base_url token =
    let trimmed = trim_space token in
    let request = validation_request base_url trimmed in
    if is_empty trimmed
    then err (backend 0 [] (text "token must not be empty") no_cause)
    else (elim (http.refuses request.url) [
      | some e ↦ err (other e)
      | none ↦ (elim (http.exchange request) [
        | err e ↦ err (transport e)
        | ok response ↦ judged response
      ])
    ])
