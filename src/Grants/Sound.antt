-- ===== src/Grants/Sound.antt =====
-- When a grant counts as validated, and which answers of the backend reject it.
use rook_servicechannel_gate.Base.{
  ℕ, ◌≡◌, ◌≢◌, false, ◌==◌, [], ◌∷◌, ok, err, ◌⊎◌, inl, inr, Option-cases, Bool-cases, Result-cases,
  arith,
}
use rook_servicechannel_gate.Base.Text.{Bytes, is_empty}
use rook_servicechannel_gate.Base.Text.Trim.{trim_space}
use rook_servicechannel_gate.Json.Decode.{unmarshal}
use rook_servicechannel_gate.Grants.Address.{AnswersWith, unmarshal-AnswersWith}
use rook_servicechannel_gate.Grants.Types.{
  ValidationResult, no_cause, invalid_grant, backend, HttpResponse, Http,
}
use rook_servicechannel_gate.Grants.Client.{
  assign_ip, accepted, rejected, judged, validation_request, validate_token, decode_error_response,
  is_invalid_grant_status,
}

-- The backend has vouched for the token with status 200, and the result is what it sent.
pub record IsVouched (http : Http) (base_url token : Bytes) (v : ValidationResult) : Type 0 where
  pub asked : trim_space token ≢ []
  pub answer : HttpResponse
  pub sent : http.exchange (validation_request base_url (trim_space token)) ≡ ok answer
  pub status : answer.status ≡ 200
  pub body : answer.body ≡ ok v.raw_response
  pub address : AnswersWith v.raw_response v.ip_address
  pub filled : trim_space v.ip_address ≢ []

filled_text : (s : Bytes) → is_empty s ≡ false → s ≢ []
filled_text [] h = cc
filled_text (c ∷ s) h = λ e. cc

accepted_sound :
    (body : Bytes) (v : ValidationResult)
    → accepted body ≡ ok v
    → (v.raw_response ≡ body)
      × AnswersWith v.raw_response v.ip_address
      × (trim_space v.ip_address ≢ [])
unfolding accepted
accepted_sound body v h = elim (Option-cases (unmarshal assign_ip body [])) [
  | inl bad ↦ absurd (ground arith)
  | inr (ip, good) ↦ elim (Bool-cases (is_empty (trim_space ip))) [
    | inl blank ↦ absurd (ground arith)
    | inr filled ↦
        let kept : v.raw_response ≡ body = ground arith in
        let same : v.ip_address ≡ ip = ground arith in
        let there = filled_text (trim_space ip) filled in
        (kept, rw (kept, same) (unmarshal-AnswersWith body ip good there), rw same there)
  ]
]

judged_sound :
    (response : HttpResponse) (v : ValidationResult)
    → judged response ≡ ok v
    → (response.status ≡ 200)
      × (response.body ≡ ok v.raw_response)
      × AnswersWith v.raw_response v.ip_address
      × (trim_space v.ip_address ≢ [])
unfolding judged rejected
judged_sound response v h = elim (Result-cases response.body) [
  | inr (e, unread) ↦ absurd (ground arith)
  | inl (body, read) ↦ elim (Bool-cases (response.status == 200)) [
    | inr failed ↦ absurd (ground arith)
    | inl fine ↦
        let (kept, gives, filled) = accepted_sound body v (ground arith) in
        (ground arith, ground arith, gives, filled)
  ]
]

-- A token is validated only by an answer with status 200 to a request that carries it, without the
-- white space round it; the body of the answer is kept; the address is the one that this body gives,
-- the text of its last member `ipAddress` that is not null, and it is not blank.
pub validate_token-IsVouched :
    (http : Http) (base_url token : Bytes) (v : ValidationResult)
    → validate_token http base_url token ≡ ok v
    → IsVouched http base_url token v
unfolding validate_token
validate_token-IsVouched http base_url token v h = elim (Bool-cases (is_empty (trim_space token))) [
  | inl blank ↦ absurd (ground arith)
  | inr asked ↦
      elim (Option-cases (http.refuses (validation_request base_url (trim_space token)).url)) [
        | inr (e, refused) ↦ absurd (ground arith)
        | inl fine ↦
            elim (Result-cases (http.exchange (validation_request base_url (trim_space token)))) [
              | inr (e, failed) ↦ absurd (ground arith)
              | inl (answer, sent) ↦
                  let (status, body, address, filled) = judged_sound answer v (ground arith) in
                  record {
                    asked = filled_text (trim_space token) asked;
                    answer = answer;
                    sent = sent;
                    status = status;
                    body = body;
                    address = address;
                    filled = filled;
                  }
            ]
      ]
]

-- The statuses by which the backend rejects a grant, as opposed to failing.
abbrev pub Rejects : ℕ → Type 0
Rejects status =
    (status ≡ 401)
    ⊎ (status ≡ 403)
    ⊎ (status ≡ 404)
    ⊎ (status ≡ 409)
    ⊎ (status ≡ 410)
    ⊎ (status ≡ 422)

-- The error of an answer that is read and has not status 200 names an invalid grant exactly for the
-- statuses 401, 403, 404, 409, 410 and 422, and a failing backend for all others; the code and the
-- message are those of the body in both cases.
pub judged_error :
    (status : ℕ) (body : Bytes)
    → status ≢ 200
    → let e = decode_error_response body in
      let answer = judged (record { status = status; body = ok body }) in
      (Rejects status × (answer ≡ err (invalid_grant status e.code e.message)))
      ⊎ (¬ Rejects status × (answer ≡ err (backend status e.code e.message no_cause)))
unfolding judged rejected is_invalid_grant_status
judged_error status body h = ground arith
