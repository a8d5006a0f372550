-- ===== src/Session/Rounds.antt =====
-- What each round of a session's goroutines leaves as it was.
use rook_servicechannel_gate.Base.{
  ℕ, ◌≤◌, ◌≡◌, Bool, true, false, not, ◌&&◌, Option, none, some, List, [], ◌∷◌, Result, ok, err,
  arith,
}
use rook_servicechannel_gate.Base.Text.{Bytes}
use rook_servicechannel_gate.Websocket.{Message, MessageType, ClientMessage, ProtocolError}
use rook_servicechannel_gate.Websocket
use rook_servicechannel_gate.Websocket.Errors.{Failure}
use rook_servicechannel_gate.Websocket.Protocol.{parse_client_message}
use rook_servicechannel_gate.Websocket.Server.{new_server_output}
use rook_servicechannel_gate.Session.Types.{EndReason, LoopResult, CloseStage, Session}
use rook_servicechannel_gate.Session.Close.{begin_close, enqueue}
use rook_servicechannel_gate.Session.Loops.{
  touch, handle_message, handle_parsed, read_round, output_round, keepalive_round, write_round,
  write_next, run_with, run_result,
}
use rook_servicechannel_gate.Session.Step.{
  SessionEvent, greets, reads, outputs, pings, keepalive_exits, writes, writer_exits, collects,
  closes, advances, reader_ends, outputter_ends, keepalive_ends, step, is_abandoned,
}
use rook_servicechannel_gate.Session.Invariant.{closed_at, ended_at}

-- How far a session has come.
abbrev pub progress : CloseStage → ℕ
progress stage = elim stage [
  | CloseStage.untouched ↦ 0
  | CloseStage.begun ↦ 1
  | CloseStage.disconnected ↦ 2
  | CloseStage.unregistered ↦ 3
  | CloseStage.finished ↦ 4
]

-- The close goes on or stands still, and once it has begun its reason and code are settled.
pub record Follows (s t : Session) : Type 0 where
  pub forward : progress s.stage ≤ progress t.stage
  pub reason : closed_at s.stage ≡ true → t.end_reason ≡ s.end_reason
  pub code : closed_at s.stage ≡ true → t.close_code ≡ s.close_code
  pub why : closed_at s.stage ≡ true → t.close_reason ≡ s.close_reason
  pub moment : closed_at s.stage ≡ true → t.ended_at ≡ s.ended_at

abbrev pub gone_at : CloseStage → Bool
gone_at CloseStage.unregistered = true
gone_at CloseStage.finished = true
gone_at _ = false

-- The registry still leads to the session.
abbrev pub is_live : Session → Bool
is_live s = not (gone_at s.stage) && not (is_abandoned s.phase)

-- What has been recorded, and for whom, stays.
pub record Keeps (s t : Session) : Type 0 where
  pub same_log : t.log ≡ s.log
  pub same_audit : t.audit ≡ s.audit
  pub same_sink : t.audit_sink ≡ s.audit_sink
  pub same_grant : t.grant ≡ s.grant
  pub same_account : t.ssh_account ≡ s.ssh_account
  pub same_end : ended_at t.stage ≡ ended_at s.stage

-- What every step but those of the close and of `Start` does.
pub record Round (s t : Session) : Type 0 where
  pub follows : Follows s t
  pub keeps : Keeps s t
  pub same_id : t.id ≡ s.id
  pub same_phase : t.phase ≡ s.phase
  pub same_gone : gone_at t.stage ≡ gone_at s.stage

pub begin_close-Round :
    (now : ℕ) (reason : EndReason) (code : ℕ) (why : Bytes) (s : Session)
    → Round s (begin_close now reason code why s)
unfolding begin_close
begin_close-Round now reason code why s = ground arith

pub enqueue-Round : (now : ℕ) (m : Message) (s : Session) → Round s (enqueue now m s).0
unfolding enqueue
enqueue-Round now m s = ground arith

pub handle_message-Round :
    (t : MessageType) (m : ClientMessage) (reply : Option Failure) (s : Session)
    → Round s (handle_message t m reply s).0
unfolding handle_message
handle_message-Round Websocket.authorize m reply s = ground arith
handle_message-Round _ m reply s = ground arith

pub read_round-Round :
    (now : ℕ) (r : Result Failure Message) (reply : Option Failure) (s : Session)
    → Round s (read_round now r reply s).0
unfolding read_round touch handle_parsed
read_round-Round now (err e) reply s = ground arith
read_round-Round now (ok m) reply s = of_parsed (parse_client_message m)
  where
    of_parsed :
        (r : Result ProtocolError ClientMessage) → Round s (handle_parsed r reply (touch now s)).0
    of_parsed (err e) = ground arith
    of_parsed (ok c) = ground (arith, handle_message-Round c.type c reply (touch now s))

pub write_next-Round :
    (now : ℕ) (l : List Message) (failure : Option Failure) (s : Session)
    → Round s (write_next now l failure s)
unfolding write_next begin_close
write_next-Round now [] failure s = ground arith
write_next-Round now (m ∷ rest) failure s = ground arith

pub run_with-Round : (now : ℕ) (l : List LoopResult) (s : Session) → Round s (run_with now l s)
unfolding run_with begin_close
run_with-Round now [] s = ground arith
run_with-Round now (r ∷ rest) s = ground arith

pub reader_ends-Round :
    (s : Session) (p : Session × Option LoopResult) → Round s p.0 → Round s (reader_ends p)
unfolding reader_ends
reader_ends-Round s (t, none) f = f
reader_ends-Round s (t, some r) f = ground arith

pub outputter_ends-Round :
    (s : Session) (p : Session × Option LoopResult) → Round s p.0 → Round s (outputter_ends p)
unfolding outputter_ends
outputter_ends-Round s (t, none) f = f
outputter_ends-Round s (t, some r) f = ground arith

pub keepalive_ends-Round :
    (s : Session) (p : Session × Option LoopResult) → Round s p.0 → Round s (keepalive_ends p)
unfolding keepalive_ends
keepalive_ends-Round s (t, none) f = f
keepalive_ends-Round s (t, some r) f = ground arith

pub keepalive_round-Round :
    (failure : Option Failure) (s : Session) → Round s (keepalive_round failure s).0
unfolding keepalive_round
keepalive_round-Round failure s = ground arith

pub output_round-Round :
    (now : ℕ) (chunk : Bytes) (failure : Option Failure) (s : Session)
    → Round s (output_round now chunk failure s).0
unfolding output_round
output_round-Round now chunk failure s =
    ground (arith, enqueue-Round now (new_server_output chunk) (touch now s))

abbrev pub is_round : SessionEvent → Bool
is_round (greets now) = false
is_round advances = false
is_round _ = true

pub step-Round : (e : SessionEvent) (s : Session) → is_round e ≡ true → Round s (step e s)
unfolding step write_round run_result
step-Round (greets now) s h = cc
step-Round (reads now m reply) s h =
    ground (arith, reader_ends-Round s (read_round now m reply s) (read_round-Round now m reply s))
step-Round (outputs now chunk failure) s h = ground (
  arith,
  outputter_ends-Round s (output_round now chunk failure s)
      (output_round-Round now chunk failure s),
)
step-Round (pings failure) s h =
    ground
      (arith, keepalive_ends-Round s (keepalive_round failure s) (keepalive_round-Round failure s))
step-Round keepalive_exits s h = ground arith
step-Round (writes now failure) s h = ground (arith, write_next-Round now s.outbound failure s)
step-Round writer_exits s h = ground arith
step-Round (collects now) s h = ground (arith, run_with-Round now s.results s)
step-Round (closes now reason code why) s h = begin_close-Round now reason code why s
step-Round advances s h = cc
