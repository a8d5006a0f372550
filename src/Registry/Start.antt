-- ===== src/Registry/Start.antt =====
-- `Registry.Start` of internal/session/manager.go.
pub mod Outcome
pub mod Released
pub mod Accepted
use rook_servicechannel_gate.Base.{
  ℕ, zero, suc, Bool, true, false, Option, none, some, List, [], ◌∷◌, ◌++◌, map, length, get_elem?,
  set, Result, ok, err, if◌then◌else◌,
}
use rook_servicechannel_gate.Base.Dict.{put, delete}
use rook_servicechannel_gate.Base.Int.{ℤ, pos, pos_part}
use rook_servicechannel_gate.Base.Text.{Bytes, text, is_empty}
use rook_servicechannel_gate.Grants.{ValidationResult}
use rook_servicechannel_gate.Websocket.{Message}
use rook_servicechannel_gate.Websocket.Errors.{Failure}
use rook_servicechannel_gate.Session.{
  EndReason, reason_text, active, close_normal_closure, close_going_away, ConsoleCall,
  close_console, FieldValue, words, number, span, untouched, Phase, unlogged, greeting, running,
  abandoned, Session,
}
use rook_servicechannel_gate.Session.Log.{log_start}
use rook_servicechannel_gate.Session.Audit.{record_audit_event}
use rook_servicechannel_gate.Session.Close.{close, enqueue_alone}
use rook_servicechannel_gate.Session.Step.{launch}
use rook_servicechannel_gate.Sshbridge.{SessionRequest}
use rook_servicechannel_gate.Registry.Types.{
  Registry, RegistryConfig, at_capacity, record_rejection,
}

-- `browser` and `bridge` say that the interface values are not nil.
pub record StartRequest : Type 0 where
  pub grant : ValidationResult
  pub browser : Bool
  pub bridge : Bool
  pub ssh_account : Bytes
  pub initial_messages : List Message
  pub cleanup : Bool

pub data StartError : Type 0 where
  no_browser no_bridge no_target limit_reached : StartError
  open_failed keepalive_failed : Failure → StartError
  greeting_failed : Bytes → StartError

-- The session that `Start` makes, at the moment when its body is published.
unfoldable pub new_session : ℕ → Bytes → StartRequest → Registry → Session
new_session now id request r = record {
  id = id;
  grant = request.grant;
  ssh_account = request.ssh_account;
  audit_sink = r.cfg.audit_sink;
  cleanup = request.cleanup;
  outbound = [];
  depth = pos_part r.cfg.outbound_queue_depth;
  is_closed = false;
  state = active;
  started_at = now;
  last_active = now;
  ended_at = none;
  end_reason = none;
  stage = untouched;
  close_code = close_normal_closure;
  close_reason = [];
  phase = greeting request.initial_messages;
  reader = false;
  outputter = false;
  keepalive = false;
  writer = false;
  results = [];
  collected = false;
  browser_calls = [];
  console_calls = [];
  audit = [];
  cleanups = [];
  enqueued = [];
  taken = [];
  log = [];
}

unfoldable pub started_fields : Session → Registry → List (Bytes × FieldValue)
started_fields s r =
    (text "ipAddress", words s.grant.ip_address)
    ∷ (text "sshAccount", words s.ssh_account)
    ∷ (text "keepaliveInterval", span r.cfg.keepalive_interval)
    ∷ (text "keepaliveTimeout", span r.cfg.keepalive_timeout)
    ∷ (text "outboundQueueDepth", number (pos s.depth))
    ∷ (text "maxConcurrentSessions", number r.cfg.max_concurrent)
    ∷ []

-- The session as the registry publishes it, with what its start has still to log, record and send.
unfoldable pub published : ℕ → Bytes → StartRequest → Registry → Session
unfolding started_fields new_session log_start
published now id request r =
    let s = new_session now id request r in
    record s {
      phase =
          unlogged (log_start r.cfg.keepalive_interval r.cfg.keepalive_timeout s)
            (started_fields s r) request.initial_messages;
    }

-- The session when both have been done.
unfoldable pub announced : ℕ → Bytes → StartRequest → Registry → Session
unfolding started_fields new_session log_start record_audit_event
announced now id request r =
    let s = new_session now id request r in
    let logged = record s {
      log = log_start r.cfg.keepalive_interval r.cfg.keepalive_timeout s ∷ [];
    } in
    record_audit_event (text "session_started") (started_fields s r) logged

-- The checks of `Start` before it opens the bridge.
unfoldable pub admit : StartRequest → Registry → Registry × Option StartError
admit request r =
    if request.browser
    then (if request.bridge
        then (if is_empty request.grant.ip_address
            then (r, some no_target)
            else if at_capacity r
            then (record_rejection request.grant.ip_address r, some limit_reached)
            else (r, none))
        else (r, some no_bridge))
    else (r, some no_browser)

-- The part under the lock: the pointer of the new session, or the limit is reached by now, which is
-- recorded behind the lock.
unfoldable pub commit : ℕ → Bytes → StartRequest → Registry → Registry × Option ℕ
unfolding published
commit now id request r =
    if at_capacity r then (record_rejection request.grant.ip_address r, none) else (
      record r {
        sessions = put id (length r.objects) r.sessions;
        objects = r.objects ++ published now id request r ∷ [];
      },
      some (length r.objects),
    )

-- The initial messages, up to the first that is refused.
unfoldable pub greet_all : ℕ → List Message → Session → Session × Option Bytes
greet_all now [] s = (s, none)
greet_all now (m ∷ ms) s =
    let (t, refused) = enqueue_alone now m s in
    let rest = greet_all now ms t in elim refused [ none ↦ rest | some why ↦ (t, some why) ]

-- The messages of a published session, and its launch.
conclude : ℕ → List Message → ℕ → Session → Registry → Registry × Result StartError ℕ
unfolding greet_all
conclude now ms p s r =
    let (t, refused) = greet_all now ms s in
    elim refused [
      | none ↦ (record r { objects = set r.objects p (launch t) }, ok p)
      | some why ↦ (
        record r {
          sessions = delete s.id r.sessions;
          objects = set r.objects p (record t {
            phase = abandoned;
            console_calls = t.console_calls ++ close_console ∷ [];
          });
        },
        err (greeting_failed why),
      )
    ]

-- What the environment answers: of `Bridge.Open` and of `ConfigureKeepalive` their failures, and the
-- clock and the random bytes of the identifier.
pub record Opening : Type 0 where
  pub opened : Option Failure
  pub keepalive : Option Failure
  pub now : ℕ
  pub id : Bytes

-- What `Start` asks of the bridge.
unfoldable pub session_request : StartRequest → SessionRequest
session_request request = record {
  ip_address = request.grant.ip_address;
  account = request.ssh_account;
  term = text "xterm-256color";
  rows = pos 24;
  columns = pos 80;
}

-- The calls of `Bridge.Open`, the registry afterwards, the answer, and the calls on a console that no
-- session owns.
pub record Started : Type 0 where
  pub requests : List SessionRequest
  pub registry : Registry
  pub answer : Result StartError ℕ
  pub orphan : List ConsoleCall

abbrev asked : StartRequest → List SessionRequest
asked request = session_request request ∷ []

finished_by : Opening → StartRequest → Registry × Option ℕ → Started
unfolding conclude
finished_by o request (r, none) = record {
  requests = asked request;
  registry = r;
  answer = err limit_reached;
  orphan = close_console ∷ [];
}
finished_by o request (r, some p) =
    let (r', a) = conclude o.now request.initial_messages p (announced o.now o.id request r) r in
    record { requests = asked request; registry = r'; answer = a; orphan = [] }

after_open : Opening → StartRequest → Option Failure → Registry → Started
unfolding finished_by commit
after_open o request (some e) r = record {
  requests = asked request;
  registry = r;
  answer = err (keepalive_failed e);
  orphan = close_console ∷ [];
}
after_open o request none r = finished_by o request (commit o.now o.id request r)

with_bridge : Opening → StartRequest → Option Failure → Registry → Started
unfolding after_open
with_bridge o request (some e) r = record {
  requests = asked request;
  registry = r;
  answer = err (open_failed e);
  orphan = [];
}
with_bridge o request none r = after_open o request o.keepalive r

-- What follows the first checks.
after_admission :
    (Registry → Registry) → Opening → StartRequest → Registry × Option StartError → Started
unfolding with_bridge
after_admission meanwhile o request (r, some e) = record {
  requests = [];
  registry = r;
  answer = err e;
  orphan = [];
}
after_admission meanwhile o request (r, none) = with_bridge o request o.opened (meanwhile r)

-- `Start`, where `meanwhile` is what other goroutines do to the registry while the bridge opens.
unfoldable pub start : (Registry → Registry) → Opening → StartRequest → Registry → Started
unfolding admit after_admission
start meanwhile o request r = after_admission meanwhile o request (admit request r)
