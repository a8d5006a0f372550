-- ===== src/Grants/Types.antt =====
-- The types of internal/grants/client.go, and the HTTP exchange that the client relies on.
use rook_servicechannel_gate.Base.{ℕ, Option, Result}
use rook_servicechannel_gate.Base.Text.{Bytes}
use rook_servicechannel_gate.Websocket.Errors.{Failure}

pub record ValidationResult : Type 0 where
  pub ip_address : Bytes
  pub raw_response : Bytes

-- The `Err` of a `BackendError`: nil, the failure to read the body, or that of `encoding/json`.
pub data Cause : Type 0 where
  no_cause decoding : Cause
  reading : Failure → Cause

-- `other` is an error that is of none of the three types.
pub data GrantError : Type 0 where
  transport : Failure → GrantError
  invalid_grant : ℕ → Bytes → Bytes → GrantError
  backend : ℕ → Bytes → Bytes → Cause → GrantError
  other : Failure → GrantError

pub record ErrorResponse : Type 0 where
  pub code : Bytes
  pub message : Bytes

-- A POST request with the JSON headers, and the response with its body or the failure to read it.
pub record HttpRequest : Type 0 where
  pub url : Bytes
  pub body : Bytes

pub record HttpResponse : Type 0 where
  pub status : ℕ
  pub body : Result Failure Bytes

-- The package net/http: whether a request can be built for a URL, and what the exchange gives.
pub record Http : Type 0 where
  pub refuses : Bytes → Option Failure
  pub exchange : HttpRequest → Result Failure HttpResponse
