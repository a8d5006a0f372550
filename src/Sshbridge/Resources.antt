-- ===== src/Sshbridge/Resources.antt =====
-- What `Open` of internal/sshbridge/client.go leaves open.
use rook_servicechannel_gate.Base.{
  ◌≡◌, refl, Bool, true, false, Option, none, some, List, [], ◌∷◌, Result, ok, err, inl, inr, ◌⊎◌,
  if◌then◌else◌,
}
use rook_servicechannel_gate.Base.Text.{Bytes}
use rook_servicechannel_gate.Websocket.Errors.{Failure}
use rook_servicechannel_gate.Sshbridge.Types.{SessionRequest}
use rook_servicechannel_gate.Sshbridge.Client.{
  Client, Handle, net_conn, ssh_client, ssh_session, stdin_pipe, SshCall, parses_key, dials,
  shakes_hands, opens_session, opens_stdin, SshEvent, succeeds, fails, closes, sets_env, OpenError,
  SshAnswers, Opened, attempt, with_defaults, start_terminal, connect, with_key, unless_refused,
  host_key_callback, open_session,
}

abbrev same_handle : Handle → Handle → Bool
same_handle net_conn net_conn = true
same_handle ssh_client ssh_client = true
same_handle ssh_session ssh_session = true
same_handle stdin_pipe stdin_pipe = true
same_handle _ _ = false

abbrev without : Handle → List Handle → List Handle
without h [] = []
without h (g ∷ l) = if same_handle h g then l else g ∷ without h l

-- A handshake that succeeds hands the connection over to the client.
abbrev opened_by : SshCall → List Handle → List Handle
opened_by (dials ip port) l = net_conn ∷ l
opened_by (shakes_hands user) l = ssh_client ∷ without net_conn l
opened_by opens_session l = ssh_session ∷ l
opened_by opens_stdin l = stdin_pipe ∷ l
opened_by _ l = l

-- The handles that are open after the events.
abbrev pub left_open : List SshEvent → List Handle → List Handle
left_open [] l = l
left_open (succeeds call ∷ es) l = left_open es (opened_by call l)
left_open (fails call ∷ es) l = left_open es l
left_open (closes h ∷ es) l = left_open es (without h l)
left_open (sets_env k v ∷ es) l = left_open es l

-- What a call leaves open, where `held` was open before.
abbrev Releases : List Handle → Opened → Type 0
Releases held o =
    ((e : OpenError) × (o.error ≡ some e) × (left_open o.events held ≡ []))
    ⊎ ((o.error ≡ none) × (left_open o.events held ≡ stdin_pipe ∷ ssh_session ∷ ssh_client ∷ []))

attempt-Releases :
    (call : SshCall) (answer : Option Failure) (clean_up : List SshEvent) (rest : Opened)
    (held : List Handle)
    → left_open clean_up held ≡ []
    → Releases (opened_by call held) rest
    → Releases held (attempt call answer clean_up rest)
attempt-Releases call none clean_up rest held h r = r
attempt-Releases call (some e) clean_up rest held h r = inl (_, refl, h)

start_terminal-Releases :
    (k : SshAnswers) (q : SessionRequest)
    → Releases (stdin_pipe ∷ ssh_session ∷ ssh_client ∷ []) (start_terminal k q)
unfolding start_terminal
start_terminal-Releases k q =
    attempt-Releases _ k.pty _ _ _ refl (attempt-Releases _ k.shell _ _ _ refl (inr (refl, refl)))

connect-Releases : (k : SshAnswers) (c : Client) (q : SessionRequest) → Releases [] (connect k c q)
unfolding connect
connect-Releases k c q = attempt-Releases _ k.dial _ _ _ refl (
    attempt-Releases _ k.handshake _ _ _ refl (
      attempt-Releases _ k.session _ _ _ refl
        (attempt-Releases _ k.stdin _ _ _ refl (start_terminal-Releases k q))))

with_key-Releases :
    (k : SshAnswers) (c : Client) (q : SessionRequest) (key : Result Failure Bytes)
    → Releases [] (with_key k c q key)
unfolding with_key
with_key-Releases k c q (err e) = inl (_, refl, refl)
with_key-Releases k c q (ok key) =
    attempt-Releases (parses_key key) (k.parse_key key) [] (connect k c (with_defaults c q)) [] refl
      (connect-Releases k c (with_defaults c q))

unless_refused-Releases :
    (e : Option OpenError) (o : Opened) → Releases [] o → Releases [] (unless_refused e o)
unless_refused-Releases none o h = h
unless_refused-Releases (some e) o h = inl (e, refl, refl)

-- Whichever call fails, `Open` has closed all that it had opened when it returns an error; when it
-- returns a session, the client, the session and the pipe to its standard input are open.
pub open_session-Releases :
    (k : SshAnswers) (c : Client) (q : SessionRequest)
    → let o = open_session k c q in
      ((e : OpenError) × (o.error ≡ some e) × (left_open o.events [] ≡ []))
      ⊎ ((o.error ≡ none) × (left_open o.events [] ≡ stdin_pipe ∷ ssh_session ∷ ssh_client ∷ []))
unfolding open_session
open_session-Releases k c q =
    unless_refused-Releases (host_key_callback c) _
      (with_key-Releases k c q (k.key c.private_key_path))
