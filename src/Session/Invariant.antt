-- ===== src/Session/Invariant.antt =====
-- The invariant of a session of internal/session/manager.go: its queue, its channel of results and
-- the steps of its close.
pub mod Frame
pub mod Steps
use rook_servicechannel_gate.Base.{
  ℕ, suc, ◌+◌, ◌≤◌, ◌≡◌, Bool, true, false, Option, none, List, [], ◌∷◌, ◌++◌, length, is_some,
  arith, if◌then◌else◌,
}
use rook_servicechannel_gate.Session.Types.{
  BrowserState, active, closing, closed, CloseStage, untouched, begun, disconnected, unregistered,
  finished, Phase, unlogged, unrecorded, running, abandoned, BrowserCall, close_browser,
  ConsoleCall, close_console, Session,
}
use rook_servicechannel_gate.Session.Step.{is_abandoned}

abbrev pub one : Bool → ℕ
one true = 1
one false = 0

-- `Start` has not launched the session yet.
abbrev pub is_greeting : Phase → Bool
is_greeting running = false
is_greeting abandoned = false
is_greeting _ = true

-- How often `Start` has called `logStart`, and how often it has recorded the start.
abbrev pub logged_in : Phase → ℕ
logged_in (unlogged line fields ms) = 0
logged_in _ = 1

abbrev pub recorded_in : Phase → ℕ
recorded_in (unlogged line fields ms) = 0
recorded_in (unrecorded fields ms) = 0
recorded_in _ = 1

abbrev pub browser_closes : List BrowserCall → ℕ
browser_closes [] = 0
browser_closes (close_browser c w ∷ l) = suc (browser_closes l)
browser_closes (_ ∷ l) = browser_closes l

abbrev pub console_closes : List ConsoleCall → ℕ
console_closes [] = 0
console_closes (close_console ∷ l) = suc (console_closes l)
console_closes (_ ∷ l) = console_closes l

-- What the stage of the close says of the state and of the calls.
abbrev pub state_at : CloseStage → BrowserState
state_at untouched = active
state_at finished = closed
state_at _ = closing

abbrev pub closed_at : CloseStage → Bool
closed_at untouched = false
closed_at _ = true

abbrev pub hung_up_at : CloseStage → ℕ
hung_up_at untouched = 0
hung_up_at begun = 0
hung_up_at _ = 1

abbrev pub ended_at : CloseStage → ℕ
ended_at finished = 1
ended_at _ = 0

pub record IsValid (s : Session) : Type 0 where
  pub bounded : length s.outbound ≤ s.depth
  pub in_order : s.enqueued ≡ s.taken ++ s.outbound
  pub room : length s.results + (one s.reader + (one s.outputter + one s.keepalive)) ≤ 3
  pub waits :
      is_greeting s.phase ≡ true
      → (s.results ≡ []) × (s.reader ≡ false) × (s.outputter ≡ false) × (s.keepalive ≡ false)
  pub state_lem : s.state ≡ state_at s.stage
  pub closed_lem : s.is_closed ≡ closed_at s.stage
  pub reason_lem : is_some s.end_reason ≡ closed_at s.stage
  pub browser_once : browser_closes s.browser_calls ≡ hung_up_at s.stage
  pub console_closed :
      console_closes s.console_calls ≡ hung_up_at s.stage + one (is_abandoned s.phase)
  pub cleaned_up : length s.cleanups ≡ (if s.cleanup then ended_at s.stage else 0)
  pub audited :
      length s.audit ≡ (if s.audit_sink then recorded_in s.phase + ended_at s.stage else 0)
  pub logged : length s.log ≡ logged_in s.phase + ended_at s.stage
