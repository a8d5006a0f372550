-- ===== src/Registry/Start/Released.antt =====
-- What becomes of the console of a start in internal/session/manager.go.
use rook_servicechannel_gate.Base.{
  ℕ, ◌≡◌, refl, true, Option, none, some, List, [], ◌∷◌, ◌++◌, ok, err, arith, inl, inr, ◌⊎◌,
  Option-cases, Bool-cases, get_elem?, length, is_some, get_elem?-append_last, get_elem?-set_self,
}
use mathlib.Core.List.{append-nil, append_assoc}
use rook_servicechannel_gate.Base.Dict.{lookup, lookup-put, lookup-delete}
use rook_servicechannel_gate.Base.Text.{bytes_eq_refl}
use rook_servicechannel_gate.Websocket.{Message}
use rook_servicechannel_gate.Websocket.Errors.{Failure}
use rook_servicechannel_gate.Session.{
  Session, ConsoleCall, close_console, running, abandoned, active,
}
use rook_servicechannel_gate.Session.Close.{enqueue_alone, enqueue_by}
use rook_servicechannel_gate.Session.Step.{launch}
use rook_servicechannel_gate.Registry.Types.{Registry, at_capacity}
use rook_servicechannel_gate.Registry.Start.{
  StartRequest, StartError, limit_reached, open_failed, keepalive_failed, greeting_failed, Opening,
  Started, announced, published, admit, commit, greet_all, conclude, finished_by, after_admission,
  after_open, with_bridge, start,
}

-- What the accepted initial messages change.
record Greeted (ms : List Message) (s t : Session) : Type 0 where
  pub same_id : t.id ≡ s.id
  pub same_grant : t.grant ≡ s.grant
  pub same_account : t.ssh_account ≡ s.ssh_account
  pub same_state : t.state ≡ s.state
  pub queued : t.outbound ≡ s.outbound ++ ms

enqueue_alone-Greeted :
    (now : ℕ) (m : Message) (s : Session)
    → (enqueue_alone now m s).1 ≡ none
    → Greeted (m ∷ []) s (enqueue_alone now m s).0
unfolding enqueue_alone enqueue_by
enqueue_alone-Greeted now m s h = ground arith

greet_all-Greeted :
    (now : ℕ) (ms : List Message) (s : Session)
    → (greet_all now ms s).1 ≡ none
    → Greeted ms s (greet_all now ms s).0
unfolding greet_all
greet_all-Greeted now [] s h = ground (arith, append-nil s.outbound)
greet_all-Greeted now (m ∷ ms) s h = elim (Option-cases (enqueue_alone now m s).1) [
  | inl fine ↦ ground (
    arith,
    enqueue_alone-Greeted now m s fine,
    greet_all-Greeted now ms (enqueue_alone now m s).0,
    append_assoc s.outbound (m ∷ []) ms,
  )
  | inr (why, refused) ↦ absurd (ground arith)
]

-- The session that the request asks for, with its loops started and the messages in its queue.
pub record IsStarted (o : Opening) (request : StartRequest) (s : Session) : Type 0 where
  pub same_id : s.id ≡ o.id
  pub same_grant : s.grant ≡ request.grant
  pub same_account : s.ssh_account ≡ request.ssh_account
  pub is_active : s.state ≡ active
  pub is_running : s.phase ≡ running
  pub queued : s.outbound ≡ request.initial_messages

-- The registry leads to a session that has started.
abbrev pub Runs : Opening → StartRequest → Registry → ℕ → Type 0
Runs o request r p =
    (s : Session) × (get_elem? r.objects p ≡ some s)
    × (lookup o.id r.sessions ≡ some p)
    × IsStarted o request s

-- An abandoned session whose console is closed last, and which is no longer registered.
abbrev pub Abandons : Opening → Registry → Type 0
Abandons o r =
    (p : ℕ) × (s : Session) × (calls : List ConsoleCall) × (get_elem? r.objects p ≡ some s)
    × (s.phase ≡ abandoned)
    × (s.console_calls ≡ calls ++ close_console ∷ [])
    × (lookup o.id r.sessions ≡ none)

-- No console was opened, or the one that was opened is closed.
abbrev pub IsReleased : Opening → Started → Type 0
IsReleased o t =
    (t.requests ≡ [])
    ⊎ (is_some o.opened ≡ true)
    ⊎ (t.orphan ≡ close_console ∷ [])
    ⊎ Abandons o t.registry

abbrev Released : Opening → StartRequest → Started → Type 0
Released o request t =
    ((p : ℕ) × (t.answer ≡ ok p) × Runs o request t.registry p)
    ⊎ ((e : StartError) × (t.answer ≡ err e) × IsReleased o t)

announced_lem :
    (o : Opening) (request : StartRequest) (r : Registry)
    → let s = announced o.now o.id request r in
      (s.id ≡ o.id)
      × (s.grant ≡ request.grant)
      × (s.ssh_account ≡ request.ssh_account)
      × (s.state ≡ active)
      × (s.outbound ≡ [])
unfolding announced
announced_lem o request r = ground arith

conclude-Released :
    (o : Opening) (request : StartRequest) (p : ℕ) (old s : Session) (r : Registry)
    → s.id ≡ o.id
    → s.grant ≡ request.grant
    → s.ssh_account ≡ request.ssh_account
    → s.state ≡ active
    → s.outbound ≡ []
    → get_elem? r.objects p ≡ some old
    → lookup o.id r.sessions ≡ some p
    → let c = conclude o.now request.initial_messages p s r in
      ((c.1 ≡ ok p) × Runs o request c.0 p) ⊎ ((e : StartError) × (c.1 ≡ err e) × Abandons o c.0)
unfolding conclude launch
conclude-Released o request p old s r i g a st q found led =
    elim (Option-cases (greet_all o.now request.initial_messages s).1) [
      | inl fine ↦
          let greeted = greet_all-Greeted o.now request.initial_messages s fine in
          inl (
            ground arith,
            (
              launch (greet_all o.now request.initial_messages s).0,
              ground (
                arith,
                get_elem?-set_self r.objects p
                    (launch (greet_all o.now request.initial_messages s).0) old found,
              ),
              ground arith,
              ground arith,
            ),
          )
      | inr (why, refused) ↦
          let t = (greet_all o.now request.initial_messages s).0 in
          let left : Session = record t {
            phase = abandoned;
            console_calls = t.console_calls ++ close_console ∷ [];
          } in
          inr (
            greeting_failed why,
            ground arith,
            (
              p,
              left,
              t.console_calls,
              ground (arith, get_elem?-set_self r.objects p left old found),
              refl,
              refl,
              ground (arith, lookup-delete o.id o.id r.sessions, bytes_eq_refl o.id),
            ),
          )
    ]

-- What `commit` leaves when it has a pointer.
abbrev Committed : Opening → StartRequest → Registry × Option ℕ → Type 0
Committed o request (r, none) = Unit
Committed o request (r, some p) =
    ((old : Session) × (get_elem? r.objects p ≡ some old)) × (lookup o.id r.sessions ≡ some p)

commit-Committed :
    (o : Opening) (request : StartRequest) (r : Registry)
    → Committed o request (commit o.now o.id request r)
unfolding commit published
commit-Committed o request r = elim (Bool-cases (at_capacity r)) [
  | inl full ↦ rw full tt
  | inr room ↦ rw room (
    (
      published o.now o.id request r,
      get_elem?-append_last r.objects (published o.now o.id request r),
    ),
    ground (arith, lookup-put o.id o.id (length r.objects) r.sessions, bytes_eq_refl o.id),
  )
]

finished_by-Released :
    (o : Opening) (request : StartRequest) (c : Registry × Option ℕ)
    → Committed o request c
    → Released o request (finished_by o request c)
unfolding finished_by
finished_by-Released o request (r, none) h = inr (limit_reached, refl, inr (inr (inl refl)))
finished_by-Released o request (r, some p) ((old, found), led) =
    let (i, g, a, st, q) = announced_lem o request r in
    elim (conclude-Released o request p old (announced o.now o.id request r) r i g a st q found
      led) [
        | inl (answer, runs) ↦ inl (p, answer, runs)
        | inr (e, answer, abandons) ↦ inr (e, answer, inr (inr (inr abandons)))
      ]

after_open-Released :
    (o : Opening) (request : StartRequest) (keepalive : Option Failure) (r : Registry)
    → Released o request (after_open o request keepalive r)
unfolding after_open
after_open-Released o request (some e) r = inr (keepalive_failed e, refl, inr (inr (inl refl)))
after_open-Released o request none r =
    finished_by-Released o request (commit o.now o.id request r) (commit-Committed o request r)

with_bridge-Released :
    (o : Opening) (request : StartRequest) (opened : Option Failure) (r : Registry)
    → o.opened ≡ opened
    → Released o request (with_bridge o request opened r)
unfolding with_bridge
with_bridge-Released o request (some e) r h = inr (open_failed e, refl, inr (inl (ground arith)))
with_bridge-Released o request none r h = after_open-Released o request o.keepalive r

after_admission-Released :
    (meanwhile : Registry → Registry) (o : Opening) (request : StartRequest)
    (admitted : Registry × Option StartError)
    → Released o request (after_admission meanwhile o request admitted)
unfolding after_admission
after_admission-Released meanwhile o request (r, some e) = inr (e, refl, inl refl)
after_admission-Released meanwhile o request (r, none) =
    with_bridge-Released o request o.opened (meanwhile r) refl

pub start-Released :
    (meanwhile : Registry → Registry) (o : Opening) (request : StartRequest) (r : Registry)
    → let t = start meanwhile o request r in
      ((p : ℕ) × (t.answer ≡ ok p) × Runs o request t.registry p)
      ⊎ ((e : StartError) × (t.answer ≡ err e) × IsReleased o t)
unfolding start
start-Released meanwhile o request r =
    after_admission-Released meanwhile o request (admit request r)
