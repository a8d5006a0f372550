-- ===== src/Sshbridge/Closing.antt =====
-- How often the parts of a `remoteSession` of internal/sshbridge/client.go are closed.
use rook_servicechannel_gate.Base.{
  ℕ, suc, ◌+◌, ◌≡◌, refl, ◌∙◌, ap, Bool, true, false, ◌||◌, Option, none, List, [], ◌∷◌, ◌++◌,
  arith, if◌then◌else◌,
}
use rook_servicechannel_gate.Base.Int.{ℤ}
use rook_servicechannel_gate.Base.Text.{Bytes}
use rook_servicechannel_gate.Websocket.Errors.{Failure}
use rook_servicechannel_gate.Sshbridge.Remote.{
  RemoteCall, closes_stdin, closes_writer, closes_session, closes_client, changes_window,
  writes_stdin, RemoteSession, resize, write, close_remote, first_error,
}

-- The calls on a session with the answers to them.
pub data RemoteEvent : Type 0 where
  writes : Bytes → Option Failure → RemoteEvent
  resizes : ℤ → ℤ → Option Failure → RemoteEvent
  closes : Option Failure → Option Failure → RemoteEvent

unfoldable pub remote_step : RemoteEvent → RemoteSession → RemoteSession
remote_step (writes payload answer) s = (write payload answer s).0
remote_step (resizes rows columns answer) s = (resize rows columns answer s).0
remote_step (closes a b) s = (close_remote a b s).0

unfoldable pub remote_run : List RemoteEvent → RemoteSession → RemoteSession
unfolding remote_step
remote_run [] s = s
remote_run (e ∷ es) s = remote_run es (remote_step e s)

abbrev pub fresh : RemoteSession
fresh = record { is_closed = false; calls = [] }

abbrev is_close : RemoteEvent → Bool
is_close (closes a b) = true
is_close _ = false

-- Whether `Close` has been called.
abbrev pub has_close : List RemoteEvent → Bool
has_close [] = false
has_close (e ∷ es) = is_close e || has_close es

-- How often each part has been closed.
pub record Closings : Type 0 where
  pub stdin : ℕ
  pub writer : ℕ
  pub session : ℕ
  pub client : ℕ

abbrev pub closings : List RemoteCall → Closings
closings [] = record { stdin = 0; writer = 0; session = 0; client = 0 }
closings (closes_stdin ∷ l) = let n = closings l in record n { stdin = suc n.stdin }
closings (closes_writer ∷ l) = let n = closings l in record n { writer = suc n.writer }
closings (closes_session ∷ l) = let n = closings l in record n { session = suc n.session }
closings (closes_client ∷ l) = let n = closings l in record n { client = suc n.client }
closings (_ ∷ l) = closings l

abbrev pub each : ℕ → Closings
each n = record { stdin = n; writer = n; session = n; client = n }

abbrev pub one : Bool → ℕ
one true = 1
one false = 0

abbrev plus : Closings → Closings → Closings
plus n m = record {
  stdin = n.stdin + m.stdin;
  writer = n.writer + m.writer;
  session = n.session + m.session;
  client = n.client + m.client;
}

closings-append : (l m : List RemoteCall) → closings (l ++ m) ≡ plus (closings l) (closings m)
closings-append [] m = ground arith
closings-append (closes_stdin ∷ l) m = ground (arith, closings-append l m)
closings-append (closes_writer ∷ l) m = ground (arith, closings-append l m)
closings-append (closes_session ∷ l) m = ground (arith, closings-append l m)
closings-append (closes_client ∷ l) m = ground (arith, closings-append l m)
closings-append (changes_window r c ∷ l) m = closings-append l m
closings-append (writes_stdin s ∷ l) m = closings-append l m

-- Each part has been closed once or not yet, as `closeOnce` says.
record IsOnce (s : RemoteSession) : Type 0 where
  counted : closings s.calls ≡ each (one s.is_closed)

remote_step-IsOnce :
    (e : RemoteEvent) (s : RemoteSession)
    → IsOnce s
    → IsOnce (remote_step e s) × ((remote_step e s).is_closed ≡ (s.is_closed || is_close e))
unfolding remote_step write resize close_remote
remote_step-IsOnce (writes payload answer) s o =
    ground (arith, closings-append s.calls (writes_stdin payload ∷ []))
remote_step-IsOnce (resizes rows columns answer) s o =
    ground (arith, closings-append s.calls (changes_window rows columns ∷ []))
remote_step-IsOnce (closes a b) s o = ground (
  arith,
  closings-append s.calls (closes_stdin ∷ closes_writer ∷ closes_session ∷ closes_client ∷ []),
)

remote_run-IsOnce :
    (es : List RemoteEvent) (s : RemoteSession)
    → IsOnce s
    → IsOnce (remote_run es s) × ((remote_run es s).is_closed ≡ (s.is_closed || has_close es))
unfolding remote_run
remote_run-IsOnce [] s o = (o, ground arith)
remote_run-IsOnce (e ∷ es) s o =
    let (still, now) = remote_step-IsOnce e s o in
    let (at_end, all) = remote_run-IsOnce es (remote_step e s) still in (at_end, ground arith)

close_answer :
    (a b : Option Failure) (s : RemoteSession)
    → (close_remote a b s).1 ≡ (if s.is_closed then none else first_error a b)
unfolding close_remote
close_answer a b s = ground arith

-- However writes, resizes and closes follow each other, each of the four parts of a session is closed
-- once if there is a `Close` among them and not at all otherwise; and a `Close` after them returns no
-- error where one has come before, and else the error of the session, or else that of the client.
pub remote_run-closes_once :
    (es : List RemoteEvent) (a b : Option Failure)
    → let s = remote_run es fresh in
      (closings s.calls ≡ each (one (has_close es)))
      × ((close_remote a b s).1 ≡ (if has_close es then none else first_error a b))
remote_run-closes_once es a b =
    let (once, state) = remote_run-IsOnce es fresh (record { counted = refl }) in
    (
      once.counted ∙ ap (λ c. each (one c)) state,
      ground (arith, close_answer a b (remote_run es fresh)),
    )
