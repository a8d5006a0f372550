-- ===== src/Session/Accounted.antt =====
-- Every step of a session of internal/session/manager.go keeps what its log lines and its audit events
-- tell.
use mathlib.Core.List.{append-nil}
use rook_servicechannel_gate.Base.{
  ℕ, ◌≡◌, ◌≢◌, refl, sym, subst, ◌∙◌, ap, List, [], ◌∷◌, ◌++◌, arith, Any, Any-append_last, Any-map,
}
use rook_servicechannel_gate.Base.Text.{Bytes}
use rook_servicechannel_gate.Websocket.{Message}
use rook_servicechannel_gate.Session.Types.{
  FieldValue, LogLine, CloseStage, Phase, unlogged, unrecorded, greeting, running, abandoned,
  unregistered, Session,
}
use rook_servicechannel_gate.Session.Told.{OpensLine, OpensEvent}
use rook_servicechannel_gate.Session.Records.{
  pending, opening_event, StartLogged, StartRecorded, IsTold, SameOwner, Grown, OpensLine-same,
  OpensEvent-same, opening_event-OpensEvent, EndTold-grown, grown-IsTold, Keeps-Grown,
  finish-IsTold,
}
use rook_servicechannel_gate.Session.Audit.{record_audit_event}
use rook_servicechannel_gate.Session.Close.{finish, advance}
use rook_servicechannel_gate.Session.Step.{
  SessionEvent, greets, reads, outputs, pings, keepalive_exits, writes, writer_exits, collects,
  closes, advances, launch, greet, step,
}
use rook_servicechannel_gate.Session.Rounds.{Keeps, Round, Follows, enqueue-Round, step-Round}
use rook_servicechannel_gate.Session.Invariant.{ended_at}
use rook_servicechannel_gate.Session.Ending.{greet-Follows, advance-Follows}

kept-IsTold :
    (s t : Session)
    → Follows s t
    → Keeps s t
    → t.id ≡ s.id
    → pending t.phase ≡ pending s.phase
    → IsTold s
    → IsTold t
kept-IsTold s t f k i e h = grown-IsTold s t (Keeps-Grown s t i k) f k.same_end e h

Round-IsTold : (s t : Session) → Round s t → IsTold s → IsTold t
Round-IsTold s t r h = kept-IsTold s t r.follows r.keeps r.same_id (ap pending r.same_phase) h

-- The parts of the close before the last one.
advance-Keeps :
    (s : Session)
    → s.stage ≢ unregistered
    → Keeps s (advance s) × ((advance s).phase ≡ s.phase) × ((advance s).id ≡ s.id)
unfolding advance
advance-Keeps s ne = ground arith

advance-finish : (s : Session) → s.stage ≡ unregistered → advance s ≡ finish s
unfolding advance
advance-finish s e = rw e

advance-IsTold : (s : Session) → IsTold s → IsTold (advance s)
advance-IsTold s h = at_stage s.stage refl
  where
    at_stage : (c : CloseStage) → s.stage ≡ c → IsTold (advance s)
    at_stage unregistered e = subst IsTold (sym (advance-finish s e)) (finish-IsTold s h)
    at_stage _ e =
        let (k, p, i) = advance-Keeps s (λ u. cc) in
        kept-IsTold s (advance s) (advance-Follows s) k i (ap pending p) h

greet-Keeps :
    (now : ℕ) (ms : List Message) (s : Session)
    → let t = greet now (greeting ms) s in
      s.phase ≡ greeting ms → Keeps s t × (t.id ≡ s.id) × (pending t.phase ≡ pending s.phase)
unfolding greet launch
greet-Keeps now [] s e = ground arith
greet-Keeps now (m ∷ rest) s e = ground (arith, enqueue-Round now m s)

unlogged-IsTold :
    (now : ℕ) (line : LogLine) (fields : List (Bytes × FieldValue)) (ms : List Message)
    (s : Session)
    → s.phase ≡ unlogged line fields ms
    → IsTold s
    → IsTold (greet now (unlogged line fields ms) s)
unfolding greet
unlogged-IsTold now line fields ms s e h =
    let t = greet now (unlogged line fields ms) s in
    let o : SameOwner s t = ground arith in
    let g : Grown s t = record {
      owner = o;
      logged = (line ∷ [], refl);
      audited = ([], sym (append-nil s.audit));
    } in
    let told : OpensLine s line = subst (λ p. StartLogged s (pending p)) e h.start_logged in
    let event : OpensEvent s (opening_event fields s) =
      subst (λ p. StartRecorded s (pending p)) e h.start_recorded in
    record {
      sink = h.sink;
      start_logged = Any-append_last (OpensLine t) s.log line (OpensLine-same s t o line told);
      start_recorded = opening_event-OpensEvent s t fields o event;
      end_told =
          EndTold-grown s t g t.stage (greet-Follows now (unlogged line fields ms) s) refl refl
            h.end_told;
    }

unrecorded-IsTold :
    (now : ℕ) (fields : List (Bytes × FieldValue)) (ms : List Message) (s : Session)
    → s.phase ≡ unrecorded fields ms
    → IsTold s
    → IsTold (greet now (unrecorded fields ms) s)
unrecorded-IsTold now fields ms s e h =
    let t = greet now (unrecorded fields ms) s in
    let (o, logged, audited, p, same) = recorded in
    let g : Grown s t = record {
      owner = o;
      logged = ([], logged ∙ sym (append-nil s.log));
      audited = (opening_event fields s ∷ [], audited);
    } in
    let told : Any (OpensLine s) s.log = subst (λ p. StartLogged s (pending p)) e h.start_logged in
    let event : OpensEvent s (opening_event fields s) =
      subst (λ p. StartRecorded s (pending p)) e h.start_recorded in
    let k = ap pending p in
    record {
      sink = o.same_sink ∙ h.sink;
      start_logged =
          subst (StartLogged t) (sym k)
            (subst (Any (OpensLine t)) (sym logged) (Any-map s.log (OpensLine-same s t o) told));
      start_recorded = subst (StartRecorded t) (sym k) (
          subst (Any (OpensEvent t)) (sym audited) (
            Any-append_last (OpensEvent t) s.audit (opening_event fields s)
              (OpensEvent-same s t o (opening_event fields s) event)));
      end_told =
          EndTold-grown s t g t.stage (greet-Follows now (unrecorded fields ms) s)
            (ap ended_at same) refl h.end_told;
    }
  where
    recorded :
        let t = greet now (unrecorded fields ms) s in
        SameOwner s t
        × (t.log ≡ s.log)
        × (t.audit ≡ s.audit ++ opening_event fields s ∷ [])
        × (t.phase ≡ greeting ms)
        × (t.stage ≡ s.stage)
    recorded = unfold greet record_audit_event in ground (arith, h.sink)

greet-IsTold : (now : ℕ) (p : Phase) (s : Session) → s.phase ≡ p → IsTold s → IsTold (greet now p s)
greet-IsTold now (unlogged line fields ms) s e h = unlogged-IsTold now line fields ms s e h
greet-IsTold now (unrecorded fields ms) s e h = unrecorded-IsTold now fields ms s e h
greet-IsTold now (greeting ms) s e h =
    let (k, i, p) = greet-Keeps now ms s e in
    kept-IsTold s (greet now (greeting ms) s) (greet-Follows now (greeting ms) s) k i p h
greet-IsTold now running s e h = unfold greet in h
greet-IsTold now abandoned s e h = unfold greet in h

pub step-IsTold : (e : SessionEvent) (s : Session) → IsTold s → IsTold (step e s)
step-IsTold advances s h = unfold step in advance-IsTold s h
step-IsTold (greets now) s h = unfold step in greet-IsTold now s.phase s refl h
step-IsTold (reads now m reply) s h = Round-IsTold s _ (step-Round (reads now m reply) s refl) h
step-IsTold (outputs now chunk failure) s h =
    Round-IsTold s _ (step-Round (outputs now chunk failure) s refl) h
step-IsTold (pings failure) s h = Round-IsTold s _ (step-Round (pings failure) s refl) h
step-IsTold keepalive_exits s h = Round-IsTold s _ (step-Round keepalive_exits s refl) h
step-IsTold (writes now failure) s h = Round-IsTold s _ (step-Round (writes now failure) s refl) h
step-IsTold writer_exits s h = Round-IsTold s _ (step-Round writer_exits s refl) h
step-IsTold (collects now) s h = Round-IsTold s _ (step-Round (collects now) s refl) h
step-IsTold (closes now reason code why) s h =
    Round-IsTold s _ (step-Round (closes now reason code why) s refl) h
