-- ===== src/Registry/Start/Accepted.antt =====
-- When `Start` of internal/session/manager.go returns a session.
use rook_servicechannel_gate.Base.{
  ℕ, ◌+◌, ◌≤◌, ◌≡◌, refl, sym, ◌∙◌, ap, true, false, Option, none, some, List, [], ◌∷◌, length,
  length-append, ok, inl, inr, arith,
}
use rook_servicechannel_gate.Base.Int.{pos_part}
use rook_servicechannel_gate.Base.Text.{is_empty}
use rook_servicechannel_gate.Websocket.{Message}
use rook_servicechannel_gate.Session.{Session}
use rook_servicechannel_gate.Session.Close.{enqueue_by, enqueue_alone}
use rook_servicechannel_gate.Registry.Types.{Registry, at_capacity}
use rook_servicechannel_gate.Registry.Start.{
  StartRequest, Opening, announced, admit, commit, greet_all, conclude, finished_by,
  after_admission, after_open, with_bridge, start,
}
use rook_servicechannel_gate.Registry.Start.Released.{Runs, start-Released}

-- A queue with room takes a message and stays open.
enqueue_alone-room :
    (now : ℕ) (m : Message) (s : Session)
    → s.is_closed ≡ false
    → length s.outbound + 1 ≤ s.depth
    → let (t, refused) = enqueue_alone now m s in
      (refused ≡ none)
      × (t.is_closed ≡ false)
      × (t.depth ≡ s.depth)
      × (length t.outbound ≡ length s.outbound + 1)
unfolding enqueue_alone enqueue_by
enqueue_alone-room now m s h b = ground (arith, length-append s.outbound (m ∷ []))

greet_all-room :
    (now : ℕ) (ms : List Message) (s : Session)
    → s.is_closed ≡ false
    → length s.outbound + length ms ≤ s.depth
    → (greet_all now ms s).1 ≡ none
unfolding greet_all
greet_all-room now [] s h b = refl
greet_all-room now (m ∷ ms) s h b =
    let (fine, open_still, same, longer) = enqueue_alone-room now m s h (omega (arith, b)) in
    rw (greet_all, fine)
      (greet_all-room now ms (enqueue_alone now m s).0 open_still (omega (arith, b, same, longer)))

announced_room :
    (o : Opening) (request : StartRequest) (r : Registry)
    → let s = announced o.now o.id request r in
      (s.is_closed ≡ false) × (s.outbound ≡ []) × (s.depth ≡ pos_part r.cfg.outbound_queue_depth)
unfolding announced
announced_room o request r = ground arith

-- What `Start` asks for.
pub record IsAcceptable (meanwhile : Registry → Registry) (o : Opening) (request : StartRequest)
    (r : Registry) : Type 0 where
  pub browser : request.browser ≡ true
  pub bridge : request.bridge ≡ true
  pub target : is_empty request.grant.ip_address ≡ false
  pub room_before : at_capacity r ≡ false
  pub opened : o.opened ≡ none
  pub keepalive : o.keepalive ≡ none
  pub room_after : at_capacity (meanwhile r) ≡ false
  pub queue : length request.initial_messages ≤ pos_part (meanwhile r).cfg.outbound_queue_depth

conclude-ok :
    (o : Opening) (request : StartRequest) (p : ℕ) (r q : Registry)
    → length request.initial_messages ≤ pos_part r.cfg.outbound_queue_depth
    → (conclude o.now request.initial_messages p (announced o.now o.id request r) q).1 ≡ ok p
unfolding conclude
conclude-ok o request p r q b =
    let s = announced o.now o.id request r in
    let (still, nothing, depth) = announced_room o request r in
    let fine =
      greet_all-room o.now request.initial_messages s still
        (rw (nothing, depth) (omega (arith, b))) in
    rw (conclude, fine)

admit-ok :
    (meanwhile : Registry → Registry) (o : Opening) (request : StartRequest) (r : Registry)
    → IsAcceptable meanwhile o request r
    → admit request r ≡ (r, none)
unfolding admit
admit-ok meanwhile o request r a = ground arith

commit-ok :
    (o : Opening) (request : StartRequest) (r : Registry)
    → at_capacity r ≡ false
    → let (q, p) = commit o.now o.id request r in (q.cfg ≡ r.cfg) × (p ≡ some (length r.objects))
unfolding commit
commit-ok o request r h = ground arith

finished_by-ok :
    (o : Opening) (request : StartRequest) (p : ℕ) (q : Registry) (answer : Option ℕ)
    → length request.initial_messages ≤ pos_part q.cfg.outbound_queue_depth
    → answer ≡ some p
    → (finished_by o request (q, answer)).answer ≡ ok p
unfolding finished_by
finished_by-ok o request p q none b h = cc
finished_by-ok o request p q (some n) b h =
    let same : n ≡ p = cc in conclude-ok o request n q q b ∙ ap ok same

after_open-ok :
    (o : Opening) (request : StartRequest) (r : Registry)
    → at_capacity r ≡ false
    → length request.initial_messages ≤ pos_part r.cfg.outbound_queue_depth
    → (after_open o request none r).answer ≡ ok (length r.objects)
unfolding after_open
after_open-ok o request r h b =
    let (same, pointer) = commit-ok o request r h in
    finished_by-ok o request (length r.objects) (commit o.now o.id request r).0
      (commit o.now o.id request r).1 (rw same b) pointer

-- `Start` returns a session, and leaves it running, when the request names a connection, a bridge and
-- an address, the bridge and the keepalive answer without an error, the limit is reached neither
-- before nor after the bridge has opened, and the queue has room for the initial messages.
pub start-Runs :
    (meanwhile : Registry → Registry) (o : Opening) (request : StartRequest) (r : Registry)
    → IsAcceptable meanwhile o request r
    → let t = start meanwhile o request r in
      (p : ℕ) × (t.answer ≡ ok p) × Runs o request t.registry p
start-Runs meanwhile o request r a = elim (start-Released meanwhile o request r) [
  | inl (p, answer, running) ↦ (p, answer, running)
  | inr (e, refused, released) ↦ let never = sym accepted ∙ refused in cc
]
  where
    accepted : (start meanwhile o request r).answer ≡ ok (length (meanwhile r).objects)
    accepted =
        unfold start after_admission with_bridge in
        rw (admit-ok meanwhile o request r a, a.opened, a.keepalive)
          (after_open-ok o request (meanwhile r) a.room_after a.queue)
