-- ===== src/Server/Socket/Served.antt =====
-- Whom the socket handler of internal/httpserver/server.go serves.
use rook_servicechannel_gate.Base.{
  ◌≡◌, refl, sym, ◌∙◌, ap, subst, some, [], ◌∷◌, get_elem?, Result, ok, err, ℕ,
}
use rook_servicechannel_gate.Base.Text.{Bytes, text}
use rook_servicechannel_gate.Grants.{ValidationResult, GrantError}
use rook_servicechannel_gate.Websocket.{Message, ClientMessage, MessageType}
use rook_servicechannel_gate.Websocket
use rook_servicechannel_gate.Websocket.{text_frame}
use rook_servicechannel_gate.Websocket.Replies.{authorized_text}
use rook_servicechannel_gate.Session.{Session, active, running}
use rook_servicechannel_gate.Base.Dict.{lookup}
use rook_servicechannel_gate.Websocket.Protocol.{parse_client_message}
use rook_servicechannel_gate.Registry.{Registry}
use rook_servicechannel_gate.Registry.Start.{Started, StartError, start}
use rook_servicechannel_gate.Registry.Start.Released.{Runs, IsStarted}
use rook_servicechannel_gate.Registry.Start.Accepted.{IsAcceptable, start-Runs}
use rook_servicechannel_gate.Server.Socket.{
  Surroundings, Outcome, start_request, concluded, after_start, validated_by, after_validation,
  validated, first_message, first_parsed, after_read, handle_browser_socket,
}

-- What the handler asks for: an `authorize` with a token that the validator accepts with the result
-- `v`, and a start that is acceptable.
pub record IsServable (w : Surroundings) (v : ValidationResult) (r : Registry) : Type 0 where
  pub message : Message
  pub read : w.first_read ≡ ok message
  pub parsed : ClientMessage
  pub accepted : parse_client_message message ≡ ok parsed
  pub kind : parsed.type ≡ Websocket.authorize
  pub validate_token : Bytes → Result GrantError ValidationResult
  pub present : w.validator ≡ some validate_token
  pub valid : validate_token parsed.token ≡ ok v
  pub start_acceptable : IsAcceptable w.meanwhile w.opening (start_request w v) r

abbrev Serves : Surroundings → ValidationResult → Outcome → Type 0
Serves w v o =
    (p : ℕ) × (o.session ≡ some p)
    × (o.calls ≡ [])
    × Runs w.opening (start_request w v) o.registry p

concluded-Serves :
    (w : Surroundings) (v : ValidationResult) (token : Bytes) (s : Started) (p : ℕ)
    → s.answer ≡ ok p
    → Runs w.opening (start_request w v) s.registry p
    → Serves w v (after_start token s)
unfolding after_start
concluded-Serves w v token s p h runs = by_answer s.answer h
  where
    by_answer : (a : Result StartError ℕ) → a ≡ ok p → Serves w v (concluded token s a)
    by_answer (ok n) e =
        let same : p ≡ n = cc in
        unfold concluded in
        (n, refl, refl, subst (Runs w.opening (start_request w v) s.registry) same runs)
    by_answer (err x) e = cc

first_message-validated :
    (t : MessageType) (w : Surroundings) (c : ClientMessage) (r : Registry)
    → t ≡ Websocket.authorize
    → first_message t w c r ≡ validated w c r
unfolding first_message
first_message-validated Websocket.authorize w c r e = refl
first_message-validated _ w c r e = cc

served_by :
    (w : Surroundings) (v : ValidationResult) (r : Registry) (a : IsServable w v r)
    → handle_browser_socket w r
      ≡ after_start a.parsed.token (start w.meanwhile w.opening (start_request w v) r)
unfolding handle_browser_socket after_read first_parsed validated validated_by after_validation
served_by w v r a =
    ap (λ x. after_read w x r) a.read
    ∙ ap (λ x. first_parsed w x r) a.accepted
    ∙ first_message-validated a.parsed.type w a.parsed r a.kind
    ∙ ap (λ x. validated_by x w a.parsed r) a.present
    ∙ ap (λ x. after_validation w a.parsed.token x r) a.valid

-- A session that runs with the grant and the account, and with one message in its queue, which is
-- `authorized`.
pub record IsServing (w : Surroundings) (v : ValidationResult) (s : Session) : Type 0 where
  pub same_id : s.id ≡ w.opening.id
  pub same_grant : s.grant ≡ v
  pub same_account : s.ssh_account ≡ w.username
  pub is_active : s.state ≡ active
  pub is_running : s.phase ≡ running
  pub queued :
      s.outbound ≡ record { frame = text_frame; payload = text "{\"type\":\"authorized\"}" } ∷ []

IsStarted-IsServing :
    (w : Surroundings) (v : ValidationResult) (s : Session)
    → IsStarted w.opening (start_request w v) s
    → IsServing w v s
unfolding start_request
IsStarted-IsServing w v s h = record {
  same_id = h.same_id;
  same_grant = h.same_grant;
  same_account = h.same_account;
  is_active = h.is_active;
  is_running = h.is_running;
  queued = h.queued ∙ ap (λ m. m ∷ []) authorized_text;
}

-- The handler starts a session, and leaves the connection to it, whenever the first message is an
-- `authorize` whose token the validator accepts and the start is acceptable: the session runs,
-- registered under its identifier, for the validated grant and the configured account, and has the
-- message `authorized` in its queue, as the text of its frame, and no other.
pub handle_browser_socket-Serves :
    (w : Surroundings) (v : ValidationResult) (r : Registry)
    → IsServable w v r
    → let o = handle_browser_socket w r in
      (p : ℕ) × (s : Session) × (o.session ≡ some p)
      × (o.calls ≡ [])
      × (get_elem? o.registry.objects p ≡ some s)
      × (lookup w.opening.id o.registry.sessions ≡ some p)
      × IsServing w v s
handle_browser_socket-Serves w v r a =
    let (p, answer, runs) =
      start-Runs w.meanwhile w.opening (start_request w v) r a.start_acceptable in
    let t = start w.meanwhile w.opening (start_request w v) r in
    let (q, served, quiet, (s, found, led, started)) =
      subst (Serves w v) (sym (served_by w v r a))
        (concluded-Serves w v a.parsed.token t p answer runs) in
    (q, s, served, quiet, found, led, IsStarted-IsServing w v s started)
