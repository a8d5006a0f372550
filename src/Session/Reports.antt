-- ===== src/Session/Reports.antt =====
-- The reports in the channel `results` of a session of internal/session/manager.go.
use rook_servicechannel_gate.Base.{
  ℕ, ◌≡◌, refl, Bool, true, false, Option, none, some, List, [], ◌∷◌, err, All, All-append, arith,
  if◌then◌else◌,
}
use rook_servicechannel_gate.Base.Text.{Bytes, text}
use rook_servicechannel_gate.Websocket.{Message}
use rook_servicechannel_gate.Websocket.Errors.{
  Failure, read_message, is_peer_closed, protocol_failure,
}
use rook_servicechannel_gate.Session.Types.{
  EndReason, Phase, unlogged, unrecorded, greeting, running, abandoned, LoopResult, Session,
}
use rook_servicechannel_gate.Session.Results.{internal_error_result}
use rook_servicechannel_gate.Session.Close.{enqueue, advance, begin_close}
use rook_servicechannel_gate.Session.Loops.{
  read_error_result, read_round, output_round, keepalive_round, write_next, write_round, run_with,
  run_result,
}
use rook_servicechannel_gate.Session.Step.{
  SessionEvent, greets, reads, outputs, pings, keepalive_exits, writes, writer_exits, collects,
  closes, advances, launch, greet, reader_ends, outputter_ends, keepalive_ends, step, run,
}
use rook_servicechannel_gate.Session.Invariant.{IsValid}
use rook_servicechannel_gate.Session.Invariant.Steps.{
  read_round-IsValid, output_round-IsValid, keepalive_round-IsValid, step-IsValid,
}
use rook_servicechannel_gate.Session.Verdicts.{
  IsProper, IsProper?, read_round-IsProper, output_round-IsProper, keepalive_round-IsProper,
}

abbrev Reported : Session → Type 0
Reported s = All IsProper s.results

reader_ends-Reported :
    (s : Session) (r : Option LoopResult) → Reported s → IsProper? r → Reported (reader_ends (s, r))
unfolding reader_ends
reader_ends-Reported s none h p = h
reader_ends-Reported s (some r) h p = All-append IsProper s.results (r ∷ []) h (p, tt)

outputter_ends-Reported :
    (s : Session) (r : Option LoopResult)
    → Reported s
    → IsProper? r
    → Reported (outputter_ends (s, r))
unfolding outputter_ends
outputter_ends-Reported s none h p = h
outputter_ends-Reported s (some r) h p = All-append IsProper s.results (r ∷ []) h (p, tt)

keepalive_ends-Reported :
    (s : Session) (r : Option LoopResult)
    → Reported s
    → IsProper? r
    → Reported (keepalive_ends (s, r))
unfolding keepalive_ends
keepalive_ends-Reported s none h p = h
keepalive_ends-Reported s (some r) h p = All-append IsProper s.results (r ∷ []) h (p, tt)

-- The channel is the same list, so what holds of its reports still does.
same-Reported : (s t : Session) → t.results ≡ s.results → Reported s → Reported t
same-Reported s t e h = rw e h

begin_close-results :
    (now : ℕ) (reason : EndReason) (code : ℕ) (why : Bytes) (s : Session)
    → (begin_close now reason code why s).results ≡ s.results
unfolding begin_close
begin_close-results now reason code why s = ground arith

advance-results : (s : Session) → (advance s).results ≡ s.results
unfolding advance
advance-results s = ground arith

enqueue-results : (now : ℕ) (m : Message) (s : Session) → (enqueue now m s).0.results ≡ s.results
unfolding enqueue
enqueue-results now m s = ground arith

greet-results : (now : ℕ) (p : Phase) (s : Session) → (greet now p s).results ≡ s.results
unfolding greet launch
greet-results now (unlogged line fields ms) s = refl
greet-results now (unrecorded fields ms) s = ground arith
greet-results now (greeting []) s = refl
greet-results now (greeting (m ∷ rest)) s = ground (arith, enqueue-results now m s)
greet-results now running s = refl
greet-results now abandoned s = refl

write_next-results :
    (now : ℕ) (l : List Message) (failure : Option Failure) (s : Session)
    → (write_next now l failure s).results ≡ s.results
unfolding write_next begin_close
write_next-results now [] failure s = refl
write_next-results now (m ∷ rest) failure s = ground arith

run_with-Reported :
    (now : ℕ) (l : List LoopResult) (s : Session)
    → s.results ≡ l
    → Reported s
    → Reported (run_with now l s)
unfolding run_with
run_with-Reported now [] s e h = h
run_with-Reported now (r ∷ rest) s e h =
    rw (begin_close-results now r.reason r.close_code r.close_reason _)
      (let all : All IsProper (r ∷ rest) = rw e at h in all.1)

gated : (b : Bool) (s t : Session) → Reported s → Reported t → Reported (if b then t else s)
gated true s t h k = k
gated false s t h k = h

step-Reported : (e : SessionEvent) (s : Session) → IsValid s → Reported s → Reported (step e s)
unfolding step write_round run_result
step-Reported (greets now) s v h =
    same-Reported s (greet now s.phase s) (greet-results now s.phase s) h
step-Reported (reads now m reply) s v h =
    let same = (read_round-IsValid now m reply s v).1.3 in
    gated s.reader s _ h (
      reader_ends-Reported (read_round now m reply s).0 (read_round now m reply s).1 (rw same h)
        (read_round-IsProper now m reply s))
step-Reported (outputs now chunk failure) s v h =
    let same = (output_round-IsValid now chunk failure s v).1.3 in
    gated s.outputter s _ h (
      outputter_ends-Reported (output_round now chunk failure s).0
        (output_round now chunk failure s).1 (rw same h)
        (output_round-IsProper now chunk failure s))
step-Reported (pings failure) s v h =
    let same = (keepalive_round-IsValid failure s v).1.3 in
    gated s.keepalive s _ h (
      keepalive_ends-Reported (keepalive_round failure s).0 (keepalive_round failure s).1
        (rw same h) (keepalive_round-IsProper failure s))
step-Reported keepalive_exits s v h = gated s.is_closed s _ h h
step-Reported (writes now failure) s v h = gated s.writer s _ h (
    same-Reported s (write_next now s.outbound failure s)
      (write_next-results now s.outbound failure s) h)
step-Reported writer_exits s v h = gated s.is_closed s _ h h
step-Reported (collects now) s v h = gated _ s _ h (run_with-Reported now s.results s refl h)
step-Reported (closes now reason code why) s v h =
    same-Reported s (begin_close now reason code why s) (begin_close-results now reason code why s)
      h
step-Reported advances s v h = same-Reported s (advance s) (advance-results s) h

-- In every history each report of a loop has the close code of its reason, tells the browser what the
-- reason asks for, and carries an error exactly for a protocol violation, an internal error or an
-- error of the SSH session.
pub run-IsProper :
    (es : List SessionEvent) (s : Session)
    → IsValid s
    → All IsProper s.results
    → All IsProper (run es s).results
unfolding run
run-IsProper [] s v h = h
run-IsProper (e ∷ es) s v h =
    run-IsProper es (step e s) (step-IsValid e s v) (step-Reported e s v h)

-- A message above the size limit is reported as an internal error: the loop does not look for the
-- protocol error `message_too_large` that the connection reports.
pub oversize_internal_error :
    (now : ℕ) (e : Failure) (after reply : Option Failure) (s : Session)
    → e.read_limit ≡ true
    → read_round now (read_message none none (err e) after) reply s ≡ (
      s,
      some (internal_error_result (text "websocket_read_failed") (text "websocket read failed")),
    )
unfolding read_round read_message read_error_result is_peer_closed protocol_failure
oversize_internal_error now e after reply s h = ground arith
