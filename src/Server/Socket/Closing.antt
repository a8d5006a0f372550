-- ===== src/Server/Socket/Closing.antt =====
-- What becomes of the connection of `handleBrowserSocket` in internal/httpserver/server.go.
use rook_servicechannel_gate.Base.{
  ℕ, ◌≡◌, refl, Bool, true, false, Option, none, some, List, [], ◌∷◌, Result, ok, err, inl, inr,
  ◌⊎◌, if◌then◌else◌, ◌||◌,
}
use rook_servicechannel_gate.Base.Text.{Bytes}
use rook_servicechannel_gate.Grants.{ValidationResult, GrantError}
use rook_servicechannel_gate.Websocket.{Message, MessageType, ClientMessage, ProtocolError}
use rook_servicechannel_gate.Websocket
use rook_servicechannel_gate.Websocket.Errors.{Failure, is_peer_closed}
use rook_servicechannel_gate.Websocket.Protocol.{parse_client_message}
use rook_servicechannel_gate.Session.{BrowserCall, close_browser}
use rook_servicechannel_gate.Registry.{Registry}
use rook_servicechannel_gate.Registry.Start.{StartError, limit_reached, Started, start}
use rook_servicechannel_gate.Server.Socket.{
  Surroundings, Outcome, start_request, write_web_socket_failure, read_failure_calls,
  start_failure_calls, grant_failure_calls, concluded, validated_by, after_start, after_validation,
  validated, first_message, first_parsed, after_read, handle_browser_socket,
}

-- The last call closes the connection, and none before it does.
abbrev pub ClosesLast : List BrowserCall → Type 0
ClosesLast [] = ⊥
ClosesLast (close_browser c why ∷ []) = Unit
ClosesLast (close_browser c why ∷ x ∷ l) = ⊥
ClosesLast (_ ∷ l) = ClosesLast l

-- A session has the connection and the handler leaves it alone, or there is none and the handler
-- closes it.
abbrev Settled : Outcome → Type 0
Settled o =
    (((p : ℕ) × (o.session ≡ some p)) × (o.calls ≡ [])) ⊎ ((o.session ≡ none) × ClosesLast o.calls)

write_web_socket_failure-ClosesLast :
    (code : ℕ) (error_code message why : Bytes)
    → ClosesLast (write_web_socket_failure code error_code message why)
unfolding write_web_socket_failure
write_web_socket_failure-ClosesLast code [] message [] = tt
write_web_socket_failure-ClosesLast code [] message (c ∷ s) = tt
write_web_socket_failure-ClosesLast code (d ∷ t) message [] = tt
write_web_socket_failure-ClosesLast code (d ∷ t) message (c ∷ s) = tt

if-ClosesLast :
    (x y : List BrowserCall) (b : Bool)
    → ClosesLast x
    → ClosesLast y
    → ClosesLast (if b then x else y)
if-ClosesLast x y true l m = l
if-ClosesLast x y false l m = m

read_failure_calls-ClosesLast : (e : Failure) → ClosesLast (read_failure_calls e)
unfolding read_failure_calls
read_failure_calls-ClosesLast e =
    if-ClosesLast _ _ e.deadline_exceeded (write_web_socket_failure-ClosesLast _ _ _ _) (
      if-ClosesLast _ _ (e.canceled || is_peer_closed e) tt
        (write_web_socket_failure-ClosesLast _ _ _ _))

start_failure_calls-ClosesLast : (e : StartError) → ClosesLast (start_failure_calls e)
unfolding start_failure_calls
start_failure_calls-ClosesLast limit_reached = write_web_socket_failure-ClosesLast _ _ _ _
start_failure_calls-ClosesLast _ = write_web_socket_failure-ClosesLast _ _ _ _

concluded-Settled :
    (token : Bytes) (s : Started) (a : Result StartError ℕ) → Settled (concluded token s a)
unfolding concluded
concluded-Settled token s (ok p) = inl ((p, refl), refl)
concluded-Settled token s (err e) = inr (refl, start_failure_calls-ClosesLast e)

after_start-Settled : (token : Bytes) (s : Started) → Settled (after_start token s)
unfolding after_start
after_start-Settled token s = concluded-Settled token s s.answer

after_validation-Settled :
    (w : Surroundings) (token : Bytes) (v : Result GrantError ValidationResult) (r : Registry)
    → Settled (after_validation w token v r)
unfolding after_validation grant_failure_calls
after_validation-Settled w token (err e) r = inr (refl, write_web_socket_failure-ClosesLast _ _ _ _)
after_validation-Settled w token (ok v) r =
    after_start-Settled token (start w.meanwhile w.opening (start_request w v) r)

validated_by-Settled :
    (k : Option (Bytes → Result GrantError ValidationResult)) (w : Surroundings) (m : ClientMessage)
    (r : Registry)
    → Settled (validated_by k w m r)
unfolding validated_by
validated_by-Settled none w m r = inr (refl, write_web_socket_failure-ClosesLast _ _ _ _)
validated_by-Settled (some validate_token) w m r =
    after_validation-Settled w m.token (validate_token m.token) r

validated-Settled :
    (w : Surroundings) (m : ClientMessage) (r : Registry) → Settled (validated w m r)
unfolding validated
validated-Settled w m r = validated_by-Settled w.validator w m r

first_message-Settled :
    (t : MessageType) (w : Surroundings) (m : ClientMessage) (r : Registry)
    → Settled (first_message t w m r)
unfolding first_message
first_message-Settled Websocket.authorize w m r = validated-Settled w m r
first_message-Settled Websocket.close w m r = inr (refl, tt)
first_message-Settled _ w m r = inr (refl, write_web_socket_failure-ClosesLast _ _ _ _)

first_parsed-Settled :
    (w : Surroundings) (p : Result ProtocolError ClientMessage) (r : Registry)
    → Settled (first_parsed w p r)
unfolding first_parsed
first_parsed-Settled w (ok m) r = first_message-Settled m.type w m r
first_parsed-Settled w (err e) r = inr (refl, write_web_socket_failure-ClosesLast _ _ _ _)

after_read-Settled :
    (w : Surroundings) (first : Result Failure Message) (r : Registry)
    → Settled (after_read w first r)
unfolding after_read
after_read-Settled w (err e) r = inr (refl, read_failure_calls-ClosesLast e)
after_read-Settled w (ok m) r = first_parsed-Settled w (parse_client_message m) r

-- On every path the handler either starts a session and makes no call on the connection itself, or it
-- starts none and its last call, and no earlier one, closes the connection.
pub handle_browser_socket-settles :
    (w : Surroundings) (r : Registry)
    → (((p : ℕ) × ((handle_browser_socket w r).session ≡ some p))
        × ((handle_browser_socket w r).calls ≡ []))
      ⊎ (((handle_browser_socket w r).session ≡ none)
          × ClosesLast (handle_browser_socket w r).calls)
unfolding handle_browser_socket
handle_browser_socket-settles w r = after_read-Settled w w.first_read r
