-- ===== src/Sshbridge/Requests.antt =====
-- What `Open` of internal/sshbridge/client.go asks for.
use rook_servicechannel_gate.Base.{
  ◌≡◌, ◌≢◌, refl, true, Option, none, some, List, [], ◌∷◌, Result, ok, err, All, arith, Bool-cases,
  inl, inr, ◌⊎◌,
}
use rook_servicechannel_gate.Base.Int.{ℤ, pos, ◌<ℤ◌}
use rook_servicechannel_gate.Base.Text.{Bytes, text}
use rook_servicechannel_gate.Websocket.Errors.{Failure}
use rook_servicechannel_gate.Sshbridge.Types.{SessionRequest}
use rook_servicechannel_gate.Sshbridge.Client.{
  Client, SshCall, reads_key, dials, shakes_hands, requests_pty, SshEvent, succeeds, fails, closes,
  sets_env, SshAnswers, Opened, attempt, with_defaults, start_terminal, connect, with_key,
  open_session, or_text, or_size,
}

-- The key is the configured one; the target is the request's address at the configured port; the user
-- is the request's account, or the configured one where that is empty; the terminal has a name and a
-- size.
abbrev pub Serves : Client → SessionRequest → SshCall → Type 0
Serves c q (reads_key path) = path ≡ c.private_key_path
Serves c q (dials ip port) = (ip ≡ q.ip_address) × (port ≡ c.port)
Serves c q (shakes_hands user) =
    ((q.account ≢ []) × (user ≡ q.account)) ⊎ ((q.account ≡ []) × (user ≡ c.username))
Serves c q (requests_pty term rows columns) = (term ≢ []) × (pos 0 <ℤ rows) × (pos 0 <ℤ columns)
Serves c q _ = Unit

abbrev pub ServesEvent : Client → SessionRequest → SshEvent → Type 0
ServesEvent c q (succeeds call) = Serves c q call
ServesEvent c q (fails call) = Serves c q call
ServesEvent c q (closes h) = Unit
ServesEvent c q (sets_env k v) = Unit

or_text_account :
    (given default : Bytes)
    → ((given ≢ []) × (or_text given default ≡ given))
      ⊎ ((given ≡ []) × (or_text given default ≡ default))
or_text_account [] default = inr (refl, refl)
or_text_account (x ∷ s) default = inl ((λ e. cc), refl)

or_text-filled : (given default : Bytes) → default ≢ [] → or_text given default ≢ []
or_text-filled [] default h = h
or_text-filled (x ∷ s) default h = λ e. cc

or_size-positive : (given default : ℤ) → pos 0 <ℤ default → pos 0 <ℤ or_size given default
or_size-positive given default h = ground arith

term-filled : text "xterm-256color" ≢ []
unfolding text
term-filled e = cc

attempt-Serves :
    (c : Client) (q : SessionRequest) (call : SshCall) (answer : Option Failure)
    (clean_up : List SshEvent) (rest : Opened)
    → Serves c q call
    → All (ServesEvent c q) clean_up
    → All (ServesEvent c q) rest.events
    → All (ServesEvent c q) (attempt call answer clean_up rest).events
attempt-Serves c q call none clean_up rest s k r = (s, r)
attempt-Serves c q call (some e) clean_up rest s k r = (s, k)

connect-Serves :
    (k : SshAnswers) (c : Client) (q : SessionRequest)
    → All (ServesEvent c q) (connect k c (with_defaults c q)).events
unfolding connect start_terminal with_defaults
connect-Serves k c q =
    attempt-Serves c q _ k.dial _ _ (refl, refl) tt
      (attempt-Serves c q _ k.handshake _ _ (or_text_account q.account c.username) (tt, tt)
        (attempt-Serves c q _ k.session _ _ tt (tt, tt)
          (attempt-Serves c q _ k.stdin _ _ tt (tt, (tt, tt))
            (
              tt,
              (
                tt,
                attempt-Serves c q _ k.pty _ _
                    (
                      or_text-filled q.term _ term-filled,
                      or_size-positive q.rows (pos 24) (omega arith),
                      or_size-positive q.columns (pos 80) (omega arith),
                    )
                    (tt, (tt, (tt, tt)))
                    (attempt-Serves c q _ k.shell _ _ tt (tt, (tt, (tt, tt))) tt),
              ),
            ))))

with_key-Serves :
    (k : SshAnswers) (c : Client) (q : SessionRequest) (key : Result Failure Bytes)
    → All (ServesEvent c q) (with_key k c q key).events
unfolding with_key
with_key-Serves k c q (err e) = (refl, tt)
with_key-Serves k c q (ok key) =
    (refl, attempt-Serves c q _ (k.parse_key key) _ _ tt tt (connect-Serves k c q))

-- `Open` does nothing unless host keys are to be ignored, since their check is not implemented. All
-- that it does otherwise serves the request: it reads the configured key, dials the request's address
-- at the configured port, signs in with the request's account or, where that is empty, the configured
-- one, and asks for a terminal that has a name, rows and columns.
pub open_session-Serves :
    (k : SshAnswers) (c : Client) (q : SessionRequest)
    → ((c.insecure_ignore_host_key ≡ true) ⊎ ((open_session k c q).events ≡ []))
      × All (ServesEvent c q) (open_session k c q).events
unfolding open_session
open_session-Serves k c q = elim (Bool-cases c.insecure_ignore_host_key) [
  | inl insecure ↦ (inl insecure, simp insecure (with_key-Serves k c q (k.key c.private_key_path)))
  | inr secure ↦ (inr (ground arith), simp secure tt)
]
