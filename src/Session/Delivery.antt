-- ===== src/Session/Delivery.antt =====
-- What a session of internal/session/manager.go does with the output of the console.
use mathlib.Core.List.{append_assoc, append-nil, map-append}
use rook_servicechannel_gate.Base.{
  ℕ, ◌≡◌, refl, sym, ◌∙◌, ap, Bool, true, false, not, ◌&&◌, Option, none, some, List, [], ◌∷◌, ◌++◌,
  map, arith, if◌then◌else◌,
}
use rook_servicechannel_gate.Base.Text.{Bytes, is_empty}
use rook_servicechannel_gate.Websocket.Errors.{Failure}
use rook_servicechannel_gate.Websocket.Server.{new_server_output}
use rook_servicechannel_gate.Session.Types.{LoopResult, running, Session}
use rook_servicechannel_gate.Session.Close.{begin_close, advance, enqueue}
use rook_servicechannel_gate.Session.Loops.{
  touch, read_round, output_round, keepalive_round, write_round, write_next, run_with, run_result,
}
use rook_servicechannel_gate.Session.Step.{
  SessionEvent, greets, reads, outputs, pings, keepalive_exits, writes, writer_exits, collects,
  closes, advances, greet, reader_ends, outputter_ends, keepalive_ends, is_running, step, run,
}
use rook_servicechannel_gate.Session.Invariant.{IsValid, closed_at}
use rook_servicechannel_gate.Session.Invariant.Steps.{step-IsValid, run-IsValid}
use rook_servicechannel_gate.Session.Ending.{step-Follows}
use rook_servicechannel_gate.Session.Progress.{step-running}
use rook_servicechannel_gate.Session.Quiet.{
  Quiet, read_round-Quiet, write_next-Quiet, run_with-Quiet, reader_ends-Quiet,
  keepalive_ends-Quiet, keepalive_round-Quiet, begin_close-Quiet, advance-Quiet, greet-Quiet, gated,
}

-- The output that an event takes from the console: a round of the output loop that reads some bytes.
abbrev taken_by : SessionEvent → Session → List Bytes
taken_by (outputs now chunk failure) s =
    if s.outputter && not (is_empty chunk) then chunk ∷ [] else []
taken_by _ s = []

-- The output that a history takes from the console, in order.
abbrev pub delivered : List SessionEvent → Session → List Bytes
delivered [] s = []
delivered (e ∷ es) s = taken_by e s ++ delivered es (step e s)

-- The loop that has read some bytes puts one message into the queue, unless the session closes.
output_round-enqueued :
    (now : ℕ) (chunk : Bytes) (failure : Option Failure) (s : Session)
    → s.is_closed ≡ closed_at s.stage
    → (output_round now chunk failure s).0.is_closed ≡ false
    → (output_round now chunk failure s).0.enqueued
      ≡ s.enqueued ++ map new_server_output (if not (is_empty chunk) then chunk ∷ [] else [])
unfolding output_round enqueue begin_close touch
output_round-enqueued now [] failure s same h = sym (append-nil s.enqueued)
output_round-enqueued now (c ∷ chunk) failure s same h = ground arith

outputter_ends-same :
    (t : Session) (r : Option LoopResult)
    → ((outputter_ends (t, r)).enqueued ≡ t.enqueued)
      × ((outputter_ends (t, r)).is_closed ≡ t.is_closed)
unfolding outputter_ends
outputter_ends-same t none = (refl, refl)
outputter_ends-same t (some r) = (refl, refl)

-- What takes nothing from the console puts nothing into the queue.
quiet : (s t : Session) → Quiet s t → t.enqueued ≡ s.enqueued ++ map new_server_output []
quiet s t h = h ∙ sym (append-nil s.enqueued)

outputs-enqueued :
    (b : Bool) (now : ℕ) (chunk : Bytes) (failure : Option Failure) (s : Session)
    → s.is_closed ≡ closed_at s.stage
    → let t = if b then outputter_ends (output_round now chunk failure s) else s in
      t.is_closed ≡ false
      → t.enqueued
        ≡ s.enqueued ++ map new_server_output (if b && not (is_empty chunk) then chunk ∷ [] else [])
outputs-enqueued false now chunk failure s same h = sym (append-nil s.enqueued)
outputs-enqueued true now chunk failure s same h =
    let (kept, still) =
      outputter_ends-same (output_round now chunk failure s).0
        (output_round now chunk failure s).1 in
    kept ∙ output_round-enqueued now chunk failure s same (sym still ∙ h)

step-enqueued :
    (e : SessionEvent) (s : Session)
    → s.phase ≡ running
    → s.is_closed ≡ closed_at s.stage
    → (step e s).is_closed ≡ false
    → (step e s).enqueued ≡ s.enqueued ++ map new_server_output (taken_by e s)
unfolding step write_round run_result
step-enqueued (greets now) s p same h = quiet s (greet now s.phase s) (greet-Quiet now s.phase s p)
step-enqueued (reads now m reply) s p same h =
    let q = read_round now m reply s in
    quiet s (step (reads now m reply) s) (
      gated s.reader s (reader_ends q) (reader_ends-Quiet q.0 q.1 ∙ read_round-Quiet now m reply s))
step-enqueued (outputs now chunk failure) s p same h =
    outputs-enqueued s.outputter now chunk failure s same h
step-enqueued (pings failure) s p same h =
    let q = keepalive_round failure s in
    quiet s (step (pings failure) s) (
      gated s.keepalive s (keepalive_ends q)
        (keepalive_ends-Quiet q.0 q.1 ∙ keepalive_round-Quiet failure s))
step-enqueued keepalive_exits s p same h =
    quiet s (step keepalive_exits s) (gated s.is_closed s (record s { keepalive = false }) refl)
step-enqueued (writes now failure) s p same h = quiet s (step (writes now failure) s) (
    gated s.writer s (write_next now s.outbound failure s)
      (write_next-Quiet now s.outbound failure s))
step-enqueued writer_exits s p same h =
    quiet s (step writer_exits s) (gated s.is_closed s (record s { writer = false }) refl)
step-enqueued (collects now) s p same h = quiet s (step (collects now) s) (
    gated (is_running s.phase && not s.collected) s (run_with now s.results s)
      (run_with-Quiet now s.results s))
step-enqueued (closes now reason code why) s p same h =
    quiet s (begin_close now reason code why s) (begin_close-Quiet now reason code why s)
step-enqueued advances s p same h = quiet s (advance s) (advance-Quiet s)

-- A session that is open was open before.
step-open :
    (e : SessionEvent) (s : Session)
    → IsValid s
    → (step e s).is_closed ≡ false
    → s.is_closed ≡ false
step-open e s v h = ground (arith, step-Follows e s, v, step-IsValid e s v)

run-open :
    (es : List SessionEvent) (s : Session)
    → IsValid s
    → (run es s).is_closed ≡ false
    → s.is_closed ≡ false
unfolding run
run-open [] s v h = h
run-open (e ∷ es) s v h = step-open e s v (run-open es (step e s) (step-IsValid e s v) h)

run-enqueued :
    (es : List SessionEvent) (s : Session)
    → IsValid s
    → s.phase ≡ running
    → (run es s).is_closed ≡ false
    → (run es s).enqueued ≡ s.enqueued ++ map new_server_output (delivered es s)
unfolding run
run-enqueued [] s v p h = sym (append-nil s.enqueued)
run-enqueued (e ∷ es) s v p h =
    let w = step-IsValid e s v in
    let first = step-enqueued e s p v.closed_lem (run-open es (step e s) w h) in
    let rest = run-enqueued es (step e s) w (step-running e s p) h in
    rest
    ∙ ap (λ l. l ++ map new_server_output (delivered es (step e s))) first
    ∙ append_assoc s.enqueued _ _
    ∙ ap (λ l. s.enqueued ++ l)
        (sym (map-append new_server_output (taken_by e s) (delivered es (step e s))))

-- For a valid session whose loops have been started, and every history after which no close has begun:
-- the messages that the write loop has taken and those that still wait in the queue are, in order, the
-- ones taken and queued before and then one message for each piece of output that the console has
-- delivered since, none lost and none twice.
pub run-delivered :
    (es : List SessionEvent) (s : Session)
    → IsValid s
    → s.phase ≡ running
    → (run es s).is_closed ≡ false
    → let t = run es s in
      t.taken ++ t.outbound ≡ s.taken ++ s.outbound ++ map new_server_output (delivered es s)
run-delivered es s v p h =
    sym (run-IsValid es s v).in_order
    ∙ run-enqueued es s v p h
    ∙ ap (λ l. l ++ map new_server_output (delivered es s)) v.in_order
