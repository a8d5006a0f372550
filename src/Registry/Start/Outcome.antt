-- ===== src/Registry/Start/Outcome.antt =====
-- What `Start` has done when it returns.
use rook_servicechannel_gate.Base.{
  ℕ, ◌≡◌, refl, Option, none, some, List, [], ◌∷◌, arith, inl, inr, ◌⊎◌, Option-cases,
}
use rook_servicechannel_gate.Base.Int.{pos}
use rook_servicechannel_gate.Base.Text.{text}
use rook_servicechannel_gate.Websocket.Errors.{Failure}
use rook_servicechannel_gate.Sshbridge.{SessionRequest}
use rook_servicechannel_gate.Registry.Types.{Registry}
use rook_servicechannel_gate.Registry.Start.{
  StartRequest, StartError, after_admission, admit, commit, Opening, session_request, finished_by,
  after_open, with_bridge, start,
}

-- A session for the address of the grant and the account of the request, with a terminal of 24 rows and
-- 80 columns.
pub record IsAsked (request : StartRequest) (q : SessionRequest) : Type 0 where
  pub ip_address : q.ip_address ≡ request.grant.ip_address
  pub account : q.account ≡ request.ssh_account
  pub term : q.term ≡ text "xterm-256color"
  pub rows : q.rows ≡ pos 24
  pub columns : q.columns ≡ pos 80

-- The bridge is asked for nothing, or for such a session and once.
abbrev pub Asks : StartRequest → List SessionRequest → Type 0
Asks request l = (l ≡ []) ⊎ ((q : SessionRequest) × (l ≡ q ∷ []) × IsAsked request q)

session_request-IsAsked : (request : StartRequest) → IsAsked request (session_request request)
unfolding session_request
session_request-IsAsked request = record {
  ip_address = refl;
  account = refl;
  term = refl;
  rows = refl;
  columns = refl;
}

once :
    (request : StartRequest) (l : List SessionRequest)
    → l ≡ session_request request ∷ []
    → Asks request l
once request l e = inr (session_request request, e, session_request-IsAsked request)

finished_by-Asks :
    (o : Opening) (request : StartRequest) (p : Registry × Option ℕ)
    → Asks request (finished_by o request p).requests
unfolding finished_by
finished_by-Asks o request (r, none) = once request _ refl
finished_by-Asks o request (r, some p) = once request _ refl

with_bridge-Asks :
    (o : Opening) (request : StartRequest) (opened : Option Failure) (r : Registry)
    → Asks request (with_bridge o request opened r).requests
unfolding with_bridge after_open
with_bridge-Asks o request (some e) r = once request _ refl
with_bridge-Asks o request none r = elim (Option-cases o.keepalive) [
  | inr (e, failed) ↦ once request _ (ground arith)
  | inl fine ↦ ground (arith, finished_by-Asks o request (commit o.now o.id request r))
]

after_admission-Asks :
    (meanwhile : Registry → Registry) (o : Opening) (request : StartRequest)
    (admitted : Registry × Option StartError)
    → Asks request (after_admission meanwhile o request admitted).requests
unfolding after_admission
after_admission-Asks meanwhile o request (r, some e) = inl refl
after_admission-Asks meanwhile o request (r, none) =
    with_bridge-Asks o request o.opened (meanwhile r)

-- Whatever the bridge and the other goroutines do, `Start` asks the bridge for nothing, or once and for
-- the address of the grant and the account of the request, with a terminal `xterm-256color` of 24 rows and 80
-- columns.
pub start-Asks :
    (meanwhile : Registry → Registry) (o : Opening) (request : StartRequest) (r : Registry)
    → Asks request (start meanwhile o request r).requests
unfolding start
start-Asks meanwhile o request r = after_admission-Asks meanwhile o request (admit request r)
