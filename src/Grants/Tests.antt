-- ===== src/Grants/Tests.antt =====
-- The grant client of internal/grants/client.go at answers of client_test.go.
use rook_servicechannel_gate.Base.{◌≡◌, refl, ◌⊎◌, none, [], ◌∷◌, ok, err, arith}
use rook_servicechannel_gate.Base.Text.{Bytes, text, bytes_eq}
use rook_servicechannel_gate.Base.Text.Trim.{trim_space}
use rook_servicechannel_gate.Json.Decode.{as_string, as_int, unmarshal}
use rook_servicechannel_gate.Grants.Types.{ValidationResult, no_cause, invalid_grant, backend, Http}
use rook_servicechannel_gate.Grants.Client.{
  validate_token, judged, decode_error_response, accepted, assign_ip,
}
use rook_servicechannel_gate.Grants.Sound.{
  IsVouched, Rejects, validate_token-IsVouched, judged_error,
}

abbrev answer_body : Bytes
answer_body = text "{\"ipAddress\":\"203.0.113.10\"}"

-- A backend that accepts every token.
abbrev http : Http
http = record {
  refuses = λ url. none;
  exchange = λ request. ok (record { status = 200; body = ok answer_body });
}

abbrev vouched : ValidationResult
vouched = record { ip_address = text "203.0.113.10"; raw_response = answer_body }

validate_token_test : validate_token http (b'u' ∷ []) (b'g' ∷ []) ≡ ok vouched
unfolding validate_token text bytes_eq as_string as_int judged accepted unmarshal trim_space
    assign_ip
validate_token_test = refl

validate_token-IsVouched_example : IsVouched http (b'u' ∷ []) (b'g' ∷ []) vouched
validate_token-IsVouched_example =
    validate_token-IsVouched http (b'u' ∷ []) (b'g' ∷ []) vouched validate_token_test

judged_error_example :
    let e = decode_error_response answer_body in
    let answer = judged (record { status = 410; body = ok answer_body }) in
    (Rejects 410 × (answer ≡ err (invalid_grant 410 e.code e.message)))
    ⊎ (¬ Rejects 410 × (answer ≡ err (backend 410 e.code e.message no_cause)))
judged_error_example = judged_error 410 answer_body (omega arith)
