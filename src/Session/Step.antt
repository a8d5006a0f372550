-- ===== src/Session/Step.antt =====
-- One session as a state machine: each event is a step of one of its goroutines, of the goroutine
-- that started it, or of one that closes it, in internal/session/manager.go.
use rook_servicechannel_gate.Base.{
  ℕ, Bool, true, false, not, ◌&&◌, Option, none, some, List, [], ◌∷◌, ◌++◌, Result, if◌then◌else◌,
}
use rook_servicechannel_gate.Base.Text.{Bytes, text}
use rook_servicechannel_gate.Websocket.{Message}
use rook_servicechannel_gate.Websocket.Errors.{Failure}
use rook_servicechannel_gate.Session.Types.{
  EndReason, LoopResult, close_console, Phase, unlogged, unrecorded, greeting, running, abandoned,
  CloseStage, disconnected, Session,
}
use rook_servicechannel_gate.Session.Audit.{record_audit_event}
use rook_servicechannel_gate.Session.Close.{begin_close, advance, enqueue}
use rook_servicechannel_gate.Session.Loops.{
  read_round, output_round, keepalive_round, write_round, run_result,
}

-- The environment's answers are part of an event; the first number is the time.
pub data SessionEvent : Type 0 where
  greets : ℕ → SessionEvent
  reads : ℕ → Result Failure Message → Option Failure → SessionEvent
  outputs : ℕ → Bytes → Option Failure → SessionEvent
  pings : Option Failure → SessionEvent
  keepalive_exits : SessionEvent
  writes : ℕ → Option Failure → SessionEvent
  writer_exits : SessionEvent
  collects : ℕ → SessionEvent
  closes : ℕ → EndReason → ℕ → Bytes → SessionEvent
  advances : SessionEvent

-- `go session.run(ctx)`
unfoldable pub launch : Session → Session
launch s = record s {
  phase = running;
  reader = true;
  outputter = true;
  keepalive = true;
  writer = true;
}

-- What `Start` does with a session that it has published: `logStart`, the audit event, and the loop over
-- the initial messages, one message at a time.
unfoldable pub greet : ℕ → Phase → Session → Session
unfolding launch record_audit_event
greet now (unlogged line fields ms) s = record s {
  log = s.log ++ line ∷ [];
  phase = unrecorded fields ms;
}
greet now (unrecorded fields ms) s = record (record_audit_event (text "session_started") fields s) {
  phase = greeting ms;
}
greet now (greeting []) s = launch s
greet now (greeting (m ∷ rest)) s =
    let (t, refused) = enqueue now m s in
    elim refused [
      | none ↦ record t { phase = greeting rest }
      | some why ↦ record t {
        phase = abandoned;
        console_calls = t.console_calls ++ close_console ∷ [];
      }
    ]
greet now running s = s
greet now abandoned s = s

-- `results <- r`
unfoldable pub reader_ends : Session × Option LoopResult → Session
reader_ends (s, none) = s
reader_ends (s, some r) = record s { results = s.results ++ r ∷ []; reader = false }

unfoldable pub outputter_ends : Session × Option LoopResult → Session
outputter_ends (s, none) = s
outputter_ends (s, some r) = record s { results = s.results ++ r ∷ []; outputter = false }

unfoldable pub keepalive_ends : Session × Option LoopResult → Session
keepalive_ends (s, none) = s
keepalive_ends (s, some r) = record s { results = s.results ++ r ∷ []; keepalive = false }

abbrev pub is_running : Phase → Bool
is_running running = true
is_running _ = false

-- An event that cannot happen changes nothing.
unfoldable pub step : SessionEvent → Session → Session
unfolding greet
step (greets now) s = greet now s.phase s
step (reads now m reply) s = if s.reader then reader_ends (read_round now m reply s) else s
step (outputs now chunk failure) s =
    if s.outputter then outputter_ends (output_round now chunk failure s) else s
step (pings failure) s = if s.keepalive then keepalive_ends (keepalive_round failure s) else s
step keepalive_exits s = if s.is_closed then record s { keepalive = false } else s
step (writes now failure) s = if s.writer then write_round now failure s else s
step writer_exits s = if s.is_closed then record s { writer = false } else s
step (collects now) s = if is_running s.phase && not s.collected then run_result now s else s
step (closes now reason code why) s = begin_close now reason code why s
step advances s = advance s

abbrev is_disconnected : CloseStage → Bool
is_disconnected disconnected = true
is_disconnected _ = false

abbrev pub is_abandoned : Phase → Bool
is_abandoned abandoned = true
is_abandoned _ = false

-- The event deletes the session's identifier from the registry.
unfoldable pub deletes : SessionEvent → Session → Bool
unfolding step
deletes advances s = is_disconnected s.stage
deletes (greets now) s = not (is_abandoned s.phase) && is_abandoned (step (greets now) s).phase
deletes _ s = false

unfoldable pub run : List SessionEvent → Session → Session
run [] s = s
run (e ∷ es) s = run es (step e s)
