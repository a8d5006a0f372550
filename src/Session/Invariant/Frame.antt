-- ===== src/Session/Invariant/Frame.antt =====
-- Every operation of a session keeps it valid.
use mathlib.Core.List.{append_assoc}
use rook_servicechannel_gate.Base.{ℕ, ◌+◌, ◌≡◌, List, [], ◌∷◌, ◌++◌, length-append, arith}
use rook_servicechannel_gate.Base.Text.{Bytes, text}
use rook_servicechannel_gate.Session.Audit.{audit_event, record_audit_event}
use rook_servicechannel_gate.Websocket.{Message}
use rook_servicechannel_gate.Session.Types.{
  EndReason, unregistered, BrowserCall, close_browser, write_message, write_ping, ConsoleCall,
  close_console, write_console, resize_console, Session,
}
use rook_servicechannel_gate.Session.Log.{log_end}
use rook_servicechannel_gate.Session.Close.{
  mark_closed, begin_close, finish, advance, enqueue, ended_fields, snapshot,
}
use rook_servicechannel_gate.Session.Invariant.{IsValid, browser_closes, console_closes}

pub browser_closes-append :
    (l m : List BrowserCall) → browser_closes (l ++ m) ≡ browser_closes l + browser_closes m
browser_closes-append [] m = omega arith
browser_closes-append (close_browser c w ∷ l) m = omega (arith, browser_closes-append l m)
browser_closes-append (write_message w ∷ l) m = browser_closes-append l m
browser_closes-append (write_ping ∷ l) m = browser_closes-append l m

pub console_closes-append :
    (l m : List ConsoleCall) → console_closes (l ++ m) ≡ console_closes l + console_closes m
console_closes-append [] m = omega arith
console_closes-append (close_console ∷ l) m = omega (arith, console_closes-append l m)
console_closes-append (write_console w ∷ l) m = console_closes-append l m
console_closes-append (resize_console r c ∷ l) m = console_closes-append l m

pub begin_close-IsValid :
    (now : ℕ) (reason : EndReason) (code : ℕ) (why : Bytes) (s : Session)
    → IsValid s
    → IsValid (begin_close now reason code why s)
unfolding begin_close
begin_close-IsValid now reason code why s v = ground arith

pub enqueue-IsValid :
    (now : ℕ) (m : Message) (s : Session) → IsValid s → IsValid (enqueue now m s).0
unfolding enqueue
enqueue-IsValid now m s v =
    ground (arith, length-append s.outbound (m ∷ []), append_assoc s.taken s.outbound (m ∷ []))

finish-IsValid : (s : Session) → s.stage ≡ unregistered → IsValid s → IsValid (finish s)
unfolding finish
finish-IsValid s e v = ground (
  arith,
  length-append s.audit
      (audit_event (text "session_ended") (ended_fields (mark_closed s)) (mark_closed s) ∷ []),
  length-append s.log (log_end s.close_code s.close_reason s ∷ []),
  length-append s.cleanups (
      snapshot
        (record_audit_event (text "session_ended") (ended_fields (mark_closed s)) (mark_closed s))
      ∷ []),
)

pub advance-IsValid : (s : Session) → IsValid s → IsValid (advance s)
unfolding advance
advance-IsValid s v = ground (
  arith,
  browser_closes-append s.browser_calls (close_browser s.close_code s.close_reason ∷ []),
  console_closes-append s.console_calls (close_console ∷ []),
  finish-IsValid s,
)
