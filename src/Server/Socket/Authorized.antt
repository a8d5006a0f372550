-- ===== src/Server/Socket/Authorized.antt =====
-- Which grant a start of `handleBrowserSocket` in internal/httpserver/server.go rests on.
use rook_servicechannel_gate.Base.{
  ℕ, ◌≡◌, refl, Option, none, some, [], Result, ok, err, arith, inl, inr, ◌⊎◌, All,
}
use rook_servicechannel_gate.Base.Text.{Bytes}
use rook_servicechannel_gate.Grants.{ValidationResult, GrantError}
use rook_servicechannel_gate.Websocket.{Message, MessageType, ClientMessage, ProtocolError}
use rook_servicechannel_gate.Websocket
use rook_servicechannel_gate.Websocket.Protocol.{parse_client_message}
use rook_servicechannel_gate.Sshbridge.{SessionRequest}
use rook_servicechannel_gate.Registry.{Registry}
use rook_servicechannel_gate.Registry.Start.{StartError, Started, start, session_request}
use rook_servicechannel_gate.Registry.Start.Outcome.{start-Asks}
use rook_servicechannel_gate.Websocket.Errors.{Failure}
use rook_servicechannel_gate.Server.Socket.{
  Surroundings, Outcome, start_request, concluded, validated_by, after_validation, validated,
  first_message, first_parsed, after_read, handle_browser_socket,
}

-- The first message was an `authorize`, and the validator has accepted its token with the result `v`.
pub record IsAuthorized (w : Surroundings) (v : ValidationResult) : Type 0 where
  pub message : Message
  pub read : w.first_read ≡ ok message
  pub parsed : ClientMessage
  pub accepted : parse_client_message message ≡ ok parsed
  pub kind : parsed.type ≡ Websocket.authorize
  pub validate_token : Bytes → Result GrantError ValidationResult
  pub present : w.validator ≡ some validate_token
  pub valid : validate_token parsed.token ≡ ok v

-- The SSH session is for the validated address and the configured account.
abbrev pub IsFor : Surroundings → ValidationResult → SessionRequest → Type 0
IsFor w v q = (q.ip_address ≡ v.ip_address) × (q.account ≡ w.username)

-- Nothing is started, or all that is started is for a validated grant.
abbrev Guarded : Surroundings → Outcome → Type 0
Guarded w o =
    ((o.session ≡ none) × (o.requests ≡ []))
    ⊎ ((v : ValidationResult) × IsAuthorized w v × All (IsFor w v) o.requests)

start-IsFor :
    (w : Surroundings) (v : ValidationResult) (r : Registry)
    → All (IsFor w v) (start w.meanwhile w.opening (start_request w v) r).requests
unfolding start_request session_request
start-IsFor w v r = ground (arith, start-Asks w.meanwhile w.opening (start_request w v) r)

concluded-requests :
    (token : Bytes) (s : Started) (a : Result StartError ℕ)
    → (concluded token s a).requests ≡ s.requests
unfolding concluded
concluded-requests token s (ok p) = refl
concluded-requests token s (err e) = refl

after_validation-Guarded :
    (w : Surroundings) (token : Bytes) (a : Result GrantError ValidationResult) (r : Registry)
    → ((v : ValidationResult) → a ≡ ok v → IsAuthorized w v)
    → Guarded w (after_validation w token a r)
unfolding after_validation
after_validation-Guarded w token (err e) r authorized = inl (refl, refl)
after_validation-Guarded w token (ok v) r authorized =
    let s = start w.meanwhile w.opening (start_request w v) r in
    inr (v, authorized v refl, rw (concluded-requests token s s.answer) (start-IsFor w v r))

validated_by-Guarded :
    (k : Option (Bytes → Result GrantError ValidationResult)) (w : Surroundings) (m : Message)
    (c : ClientMessage) (r : Registry)
    → w.validator ≡ k
    → w.first_read ≡ ok m
    → parse_client_message m ≡ ok c
    → c.type ≡ Websocket.authorize
    → Guarded w (validated_by k w c r)
unfolding validated_by
validated_by-Guarded none w m c r present read parsed kind = inl (refl, refl)
validated_by-Guarded (some validate_token) w m c r present read parsed kind =
    after_validation-Guarded w c.token (validate_token c.token) r (λ v valid. record {
      message = m;
      read = read;
      parsed = c;
      accepted = parsed;
      kind = kind;
      validate_token = validate_token;
      present = present;
      valid = valid;
    })

validated-Guarded :
    (w : Surroundings) (m : Message) (c : ClientMessage) (r : Registry)
    → w.first_read ≡ ok m
    → parse_client_message m ≡ ok c
    → c.type ≡ Websocket.authorize
    → Guarded w (validated w c r)
unfolding validated
validated-Guarded w m c r read parsed kind =
    validated_by-Guarded w.validator w m c r refl read parsed kind

first_message-Guarded :
    (t : MessageType) (w : Surroundings) (m : Message) (c : ClientMessage) (r : Registry)
    → c.type ≡ t
    → w.first_read ≡ ok m
    → parse_client_message m ≡ ok c
    → Guarded w (first_message t w c r)
unfolding first_message
first_message-Guarded Websocket.authorize w m c r kind read parsed =
    validated-Guarded w m c r read parsed kind
first_message-Guarded Websocket.close w m c r kind read parsed = inl (refl, refl)
first_message-Guarded _ w m c r kind read parsed = inl (refl, refl)

first_parsed-Guarded :
    (w : Surroundings) (m : Message) (p : Result ProtocolError ClientMessage) (r : Registry)
    → w.first_read ≡ ok m
    → parse_client_message m ≡ p
    → Guarded w (first_parsed w p r)
unfolding first_parsed
first_parsed-Guarded w m (ok c) r read parsed =
    first_message-Guarded c.type w m c r refl read parsed
first_parsed-Guarded w m (err e) r read parsed = inl (refl, refl)

after_read-Guarded :
    (w : Surroundings) (first : Result Failure Message) (r : Registry)
    → w.first_read ≡ first
    → Guarded w (after_read w first r)
unfolding after_read
after_read-Guarded w (err e) r read = inl (refl, refl)
after_read-Guarded w (ok m) r read = first_parsed-Guarded w m (parse_client_message m) r read refl

-- No SSH connection is opened and no session starts before the browser's first message is an
-- `authorize` whose token the validator accepts; and the SSH sessions asked for are for the validated
-- address and the configured account.
pub handle_browser_socket-Guarded :
    (w : Surroundings) (r : Registry)
    → (((handle_browser_socket w r).session ≡ none) × ((handle_browser_socket w r).requests ≡ []))
      ⊎ ((v : ValidationResult) × IsAuthorized w v
          × All (IsFor w v) (handle_browser_socket w r).requests)
unfolding handle_browser_socket
handle_browser_socket-Guarded w r = after_read-Guarded w w.first_read r refl
