-- ===== src/Session/Close.antt =====
-- `Session.close`, `Snapshot` and `Enqueue` of internal/session/manager.go. The body of `closeOnce`
-- is cut where other goroutines can see what it has done so far; `close` is the whole of it.
use rook_servicechannel_gate.Base.{
  ℕ, ◌-◌, true, Option, none, some, List, [], ◌∷◌, ◌++◌, length, ltb, if◌then◌else◌,
}
use rook_servicechannel_gate.Base.Int.{pos}
use rook_servicechannel_gate.Base.Text.{Bytes, text}
use rook_servicechannel_gate.Websocket.{Message}
use rook_servicechannel_gate.Session.Types.{
  closing, closed, EndReason, slow_client, close_policy_violation, close_browser, close_console,
  FieldValue, words, number, Snapshot, untouched, begun, disconnected, unregistered, finished,
  Session,
}
use rook_servicechannel_gate.Session.Log.{reason_words, or_zero, log_end}
use rook_servicechannel_gate.Session.Audit.{record_audit_event}

unfoldable pub snapshot : Session → Snapshot
snapshot s = record {
  id = s.id;
  state = s.state;
  grant = s.grant;
  started_at = s.started_at;
  last_activity = s.last_active;
  ended_at = s.ended_at;
  end_reason = s.end_reason;
  output_backlog = length s.outbound;
}

-- Up to `close(s.closed)`. Only the first call of `close` runs the body.
unfoldable pub begin_close : ℕ → EndReason → ℕ → Bytes → Session → Session
begin_close now reason code why s = elim s.stage [
  | untouched ↦ record s {
    state = closing;
    last_active = now;
    ended_at = some now;
    end_reason = some reason;
    is_closed = true;
    close_code = code;
    close_reason = why;
    stage = begun;
  }
  | _ ↦ s
]

-- `browser.Close` and `console.Close`.
unfoldable pub disconnect : Session → Session
disconnect s = record s {
  browser_calls = s.browser_calls ++ close_browser s.close_code s.close_reason ∷ [];
  console_calls = s.console_calls ++ close_console ∷ [];
  stage = disconnected;
}

-- The session's part of `delete(s.manager.sessions, s.id)`.
unfoldable pub unregister : Session → Session
unregister s = record s { stage = unregistered }

unfoldable pub ended_fields : Session → List (Bytes × FieldValue)
ended_fields s =
    (text "ipAddress", words s.grant.ip_address)
    ∷ (text "sshAccount", words s.ssh_account)
    ∷ (text "endReason", words (reason_words s.end_reason))
    ∷ (text "closeCode", number (pos s.close_code))
    ∷ (text "closeReason", words s.close_reason)
    ∷ (text "durationMillis", number (pos (or_zero s.ended_at - s.started_at)))
    ∷ []

call_cleanup : Session → Session
call_cleanup s = if s.cleanup then record s { cleanups = s.cleanups ++ snapshot s ∷ [] } else s

-- The state that is set last, and `logEnd`.
unfoldable pub mark_closed : Session → Session
unfolding log_end
mark_closed s = record s {
  state = closed;
  log = s.log ++ log_end s.close_code s.close_reason s ∷ [];
}

-- From `s.state = BrowserStateClosed` to the end. Times count milliseconds.
unfoldable pub finish : Session → Session
unfolding mark_closed ended_fields record_audit_event call_cleanup
finish s =
    let ended = mark_closed s in
    let audited = record_audit_event (text "session_ended") (ended_fields ended) ended in
    record (call_cleanup audited) { stage = finished }

-- The next part of a body that has begun.
unfoldable pub advance : Session → Session
unfolding disconnect unregister finish
advance s = elim s.stage [
  | begun ↦ disconnect s
  | disconnected ↦ unregister s
  | unregistered ↦ finish s
  | _ ↦ s
]

-- `close` without interruption.
unfoldable pub close : ℕ → EndReason → ℕ → Bytes → Session → Session
unfolding begin_close disconnect unregister finish
close now reason code why s = elim s.stage [
  | untouched ↦ finish (unregister (disconnect (begin_close now reason code why s)))
  | _ ↦ s
]

-- `Enqueue`, with the text of its error, where `close_full` is its call of `close`.
unfoldable pub enqueue_by : (Session → Session) → Message → Session → Session × Option Bytes
enqueue_by close_full m s =
    if s.is_closed
    then (s, some (text "session closed"))
    else if ltb (length s.outbound) s.depth
    then (record s { outbound = s.outbound ++ m ∷ []; enqueued = s.enqueued ++ m ∷ [] }, none)
    else (close_full s, some (text "outbound queue exhausted"))

-- `Enqueue` among other goroutines: on a full queue the close begins, and goes on by `advance`.
unfoldable pub enqueue : ℕ → Message → Session → Session × Option Bytes
unfolding enqueue_by begin_close
enqueue now =
    enqueue_by
      (begin_close now slow_client close_policy_violation (text "outbound_queue_exhausted"))

-- `Enqueue` without interruption.
unfoldable pub enqueue_alone : ℕ → Message → Session → Session × Option Bytes
unfolding enqueue_by close
enqueue_alone now =
    enqueue_by (close now slow_client close_policy_violation (text "outbound_queue_exhausted"))
