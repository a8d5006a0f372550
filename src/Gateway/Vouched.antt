-- ===== src/Gateway/Vouched.antt =====
-- The socket handler and the grant client together: who gets an SSH session.
use rook_servicechannel_gate.Base.{◌≡◌, refl, true, none, some, [], Result, ok, All, ◌⊎◌, inl, inr}
use rook_servicechannel_gate.Base.Text.{Bytes, text}
use rook_servicechannel_gate.Base.Text.Trim.{trim_space}
use rook_servicechannel_gate.Json.{obj, str, member, end}
use rook_servicechannel_gate.Json.Utf8.{utf8_valid}
use rook_servicechannel_gate.Json.Parse.{whole_value}
use rook_servicechannel_gate.Json.Encode.Parsed.{whole_value-encode_fields}
use rook_servicechannel_gate.Json.Trimmed.{trim_space-utf8_valid}
use rook_servicechannel_gate.Websocket.Protocol.Texts.{parse_client_message-HasUtf8}
use rook_servicechannel_gate.Config.Types.{Config}
use rook_servicechannel_gate.Websocket.{Message, ClientMessage}
use rook_servicechannel_gate.Websocket
use rook_servicechannel_gate.Websocket.Errors.{Failure}
use rook_servicechannel_gate.Websocket.Protocol.{parse_client_message}
use rook_servicechannel_gate.Grants.{Http, ValidationResult, GrantError}
use rook_servicechannel_gate.Grants.Client.{client_base_url, validation_request, validate_token}
use rook_servicechannel_gate.Grants.Sound.{IsVouched, validate_token-IsVouched}
use rook_servicechannel_gate.Registry.{Registry}
use rook_servicechannel_gate.Registry.Start.{Opening}
use rook_servicechannel_gate.Sshbridge.{SessionRequest}
use rook_servicechannel_gate.Server.Socket.{Outcome, handle_browser_socket}
use rook_servicechannel_gate.Server.Socket.Authorized.{handle_browser_socket-Guarded}
use rook_servicechannel_gate.Gateway.{surroundings_of}

-- The body of the request is JSON in which a reader finds exactly this token.
abbrev pub TokenReads : Bytes → Bytes → Type 0
TokenReads base_url token =
    whole_value (validation_request base_url token).body
    ≡ some (obj (member (text "token") (str token) end))

validation_request-Reads :
    (base_url token : Bytes) → utf8_valid token ≡ true → TokenReads base_url token
unfolding validation_request utf8_valid text
validation_request-Reads base_url token valid =
    whole_value-encode_fields (text "token") token [] ((refl, valid), tt)

-- The first message is an `authorize`, the backend has vouched for its token, and the SSH sessions
-- asked for are for the address that the backend gave and for the configured user.
pub record IsEntitled (http : Http) (c : Config) (first_read : Result Failure Message) (o : Outcome)
    : Type 0 where
  pub message : Message
  pub read : first_read ≡ ok message
  pub parsed : ClientMessage
  pub accepted : parse_client_message message ≡ ok parsed
  pub kind : parsed.type ≡ Websocket.authorize
  pub grant : ValidationResult
  pub vouched : IsVouched http (client_base_url c.base_url) parsed.token grant
  pub carried : TokenReads (client_base_url c.base_url) (trim_space parsed.token)
  pub served :
      All
        (λ (q : SessionRequest). (q.ip_address ≡ grant.ip_address) × (q.account ≡ c.username))
        o.requests

-- One of them is the one that is there.
same_validator :
    (f g : Bytes → Result GrantError ValidationResult) (token : Bytes) (v : ValidationResult)
    → some f ≡ some g
    → g token ≡ ok v
    → f token ≡ ok v
same_validator f g token v e h = cc

-- With the gateway put together as it runs, a socket gets no SSH session and starts none, or the
-- first message of its browser is an `authorize` with a token for which the configured backend has
-- vouched with status 200, and every SSH session that is asked for is for the configured user and
-- for the address that the answer of the backend gives: the text of the last member `ipAddress` of
-- its JSON object that is not null. A reader of the body of the request to the backend finds exactly
-- the token of the browser, without the white space round it.
pub handle_browser_socket-IsEntitled :
    (http : Http) (c : Config) (first_read : Result Failure Message)
    (meanwhile : Registry → Registry) (opening : Opening) (r : Registry)
    → let o = handle_browser_socket (surroundings_of http c first_read meanwhile opening) r in
      ((o.session ≡ none) × (o.requests ≡ [])) ⊎ IsEntitled http c first_read o
unfolding surroundings_of
handle_browser_socket-IsEntitled http c first_read meanwhile opening r =
    let w = surroundings_of http c first_read meanwhile opening in
    elim (handle_browser_socket-Guarded w r) [
      | inl nothing ↦ inl nothing
      | inr (v, a, served) ↦
          let valid =
            same_validator (validate_token http (client_base_url c.base_url)) a.validate_token
              a.parsed.token v a.present a.valid in
          inr (record {
            message = a.message;
            read = a.read;
            parsed = a.parsed;
            accepted = a.accepted;
            kind = a.kind;
            grant = v;
            vouched =
                validate_token-IsVouched http (client_base_url c.base_url) a.parsed.token v valid;
            carried =
                validation_request-Reads (client_base_url c.base_url) (trim_space a.parsed.token) (
                  trim_space-utf8_valid a.parsed.token
                    (parse_client_message-HasUtf8 a.message a.parsed a.accepted).token);
            served = served;
          })
    ]
