-- ===== src/Session/Records.antt =====
-- What the log lines and the audit events of a session in internal/session/manager.go tell, however its
-- start and its end fall together.
use mathlib.Core.List.{append-nil}
use rook_servicechannel_gate.Base.{
  ◌≡◌, refl, sym, subst, ◌∙◌, ap, true, List, [], ◌∷◌, ◌++◌, arith, Any, Any-append_left,
  Any-append_last, Any-map,
}
use rook_servicechannel_gate.Base.Text.{Bytes, text}
use rook_servicechannel_gate.Session.Types.{
  FieldValue, AuditEvent, LogLine, CloseStage, Phase, unlogged, unrecorded, finished, Session,
}
use rook_servicechannel_gate.Session.Told.{
  line_of, event_of, TellsLine, TellsEvent, OpensLine, OpensEvent, line_of-TellsLine,
  event_of-TellsEvent,
}
use rook_servicechannel_gate.Session.Audit.{audit_event, record_audit_event}
use rook_servicechannel_gate.Session.Close.{mark_closed, ended_fields, finish}
use rook_servicechannel_gate.Session.Rounds.{Keeps, Follows}
use rook_servicechannel_gate.Session.Invariant.{closed_at, ended_at}

-- What `Start` has still to tell.
pub data Pending : Type 0 where
  nothing : Pending
  line_and_event : LogLine → List (Bytes × FieldValue) → Pending
  event_only : List (Bytes × FieldValue) → Pending

abbrev pub pending : Phase → Pending
pending (unlogged line fields ms) = line_and_event line fields
pending (unrecorded fields ms) = event_only fields
pending _ = nothing

abbrev pub opening_event : List (Bytes × FieldValue) → Session → AuditEvent
opening_event fields s = audit_event (text "session_started") fields s

abbrev pub StartLogged : Session → Pending → Type 0
StartLogged s (line_and_event line fields) = OpensLine s line
StartLogged s _ = Any (OpensLine s) s.log

abbrev pub StartRecorded : Session → Pending → Type 0
StartRecorded s nothing = Any (OpensEvent s) s.audit
StartRecorded s (line_and_event line fields) = OpensEvent s (opening_event fields s)
StartRecorded s (event_only fields) = OpensEvent s (opening_event fields s)

-- The end is told once it has come.
abbrev pub EndTold : Session → CloseStage → Type 0
EndTold s finished = Any (TellsLine s) s.log × Any (TellsEvent s) s.audit
EndTold s _ = Unit

-- The session has a sink, and its start and its end are told as far as they have come.
pub record IsTold (s : Session) : Type 0 where
  pub sink : s.audit_sink ≡ true
  pub start_logged : StartLogged s (pending s.phase)
  pub start_recorded : StartRecorded s (pending s.phase)
  pub end_told : EndTold s s.stage

-- Whose session it is.
pub record SameOwner (s t : Session) : Type 0 where
  pub same_id : t.id ≡ s.id
  pub same_grant : t.grant ≡ s.grant
  pub same_account : t.ssh_account ≡ s.ssh_account
  pub same_sink : t.audit_sink ≡ s.audit_sink

pub OpensLine-same : (s t : Session) → SameOwner s t → (l : LogLine) → OpensLine s l → OpensLine t l
OpensLine-same s t o l h = ground arith

pub OpensEvent-same :
    (s t : Session) → SameOwner s t → (e : AuditEvent) → OpensEvent s e → OpensEvent t e
OpensEvent-same s t o e h = ground arith

opening_event-same :
    (s t : Session) (fields : List (Bytes × FieldValue))
    → SameOwner s t
    → opening_event fields s ≡ opening_event fields t
unfolding audit_event
opening_event-same s t fields o = rw (o.same_id, o.same_grant, o.same_account) refl

pub opening_event-OpensEvent :
    (s t : Session) (fields : List (Bytes × FieldValue))
    → SameOwner s t
    → OpensEvent s (opening_event fields s)
    → OpensEvent t (opening_event fields t)
opening_event-OpensEvent s t fields o h =
    subst (OpensEvent t) (opening_event-same s t fields o)
      (OpensEvent-same s t o (opening_event fields s) h)

ended : (c : CloseStage) → ended_at c ≡ 1 → c ≡ finished
ended c h = ground arith

-- How the session has ended is as it was.
record SameEnd (s t : Session) : Type 0 where
  pub end_reason : t.end_reason ≡ s.end_reason
  pub close_code : t.close_code ≡ s.close_code
  pub close_reason : t.close_reason ≡ s.close_reason

TellsLine-same :
    (s t : Session) → SameOwner s t → SameEnd s t → (l : LogLine) → TellsLine s l → TellsLine t l
TellsLine-same s t o k l h = ground arith

TellsEvent-same :
    (s t : Session)
    → SameOwner s t
    → SameEnd s t
    → (e : AuditEvent) → TellsEvent s e
    → TellsEvent t e
TellsEvent-same s t o k e h = ground arith

-- Lines and events have come at the end at most.
pub record Grown (s t : Session) : Type 0 where
  pub owner : SameOwner s t
  pub logged : (lines : List LogLine) × (t.log ≡ s.log ++ lines)
  pub audited : (events : List AuditEvent) × (t.audit ≡ s.audit ++ events)

pub Any-grown {ℓ} :
    {A : Type ℓ} {P Q : A → Type 0} (xs ys : List A)
    → ((zs : List A) × (ys ≡ xs ++ zs))
    → ((a : A) → P a → Q a)
    → Any P xs
    → Any Q ys
Any-grown {Q = Q} xs ys (zs, e) f h =
    subst (Any Q) (sym e) (Any-append_left Q xs zs (Any-map xs f h))

module _ (s t : Session) (g : Grown s t) where
  StartLogged-grown : (q : Pending) → StartLogged s q → StartLogged t q
  StartLogged-grown (line_and_event line fields) h = OpensLine-same s t g.owner line h
  StartLogged-grown (event_only fields) h =
      Any-grown s.log t.log g.logged (OpensLine-same s t g.owner) h
  StartLogged-grown nothing h = Any-grown s.log t.log g.logged (OpensLine-same s t g.owner) h

  pub StartRecorded-grown : (q : Pending) → StartRecorded s q → StartRecorded t q
  StartRecorded-grown nothing h =
      Any-grown s.audit t.audit g.audited (OpensEvent-same s t g.owner) h
  StartRecorded-grown (line_and_event line fields) h = opening_event-OpensEvent s t fields g.owner h
  StartRecorded-grown (event_only fields) h = opening_event-OpensEvent s t fields g.owner h

  pub EndTold-grown :
      (c : CloseStage)
      → Follows s t
      → ended_at t.stage ≡ ended_at s.stage
      → t.stage ≡ c
      → EndTold s s.stage
      → EndTold t c
  EndTold-grown finished f same e h =
      let over : s.stage ≡ finished = ended s.stage (sym same ∙ ap ended_at e) in
      let shut : closed_at s.stage ≡ true = ap closed_at over in
      let k : SameEnd s t = record {
        end_reason = f.reason shut;
        close_code = f.code shut;
        close_reason = f.why shut;
      } in
      let (line, event) = subst (EndTold s) over h in
      (
        Any-grown s.log t.log g.logged (TellsLine-same s t g.owner k) line,
        Any-grown s.audit t.audit g.audited (TellsEvent-same s t g.owner k) event,
      )
  EndTold-grown _ f same e h = tt

  pub grown-IsTold :
      Follows s t
      → ended_at t.stage ≡ ended_at s.stage
      → pending t.phase ≡ pending s.phase
      → IsTold s
      → IsTold t
  grown-IsTold f same e h = record {
    sink = g.owner.same_sink ∙ h.sink;
    start_logged =
        subst (StartLogged t) (sym e) (StartLogged-grown (pending s.phase) h.start_logged);
    start_recorded =
        subst (StartRecorded t) (sym e) (StartRecorded-grown (pending s.phase) h.start_recorded);
    end_told = EndTold-grown t.stage f same refl h.end_told;
  }

pub Keeps-Grown : (s t : Session) → t.id ≡ s.id → Keeps s t → Grown s t
Keeps-Grown s t i k = record {
  owner = record {
    same_id = i;
    same_grant = k.same_grant;
    same_account = k.same_account;
    same_sink = k.same_sink;
  };
  logged = ([], k.same_log ∙ sym (append-nil s.log));
  audited = ([], k.same_audit ∙ sym (append-nil s.audit));
}

pub finish-Grown : (s : Session) → s.audit_sink ≡ true → Grown s (finish s)
unfolding finish mark_closed record_audit_event audit_event ended_fields
finish-Grown s h = record {
  owner = ground arith;
  logged = (line_of s ∷ [], ground arith);
  audited = (event_of s ∷ [], ground arith);
}

finish-same :
    (s : Session)
    → SameEnd s (finish s) × ((finish s).phase ≡ s.phase) × ((finish s).stage ≡ finished)
unfolding finish mark_closed record_audit_event
finish-same s = ground arith

finish-log : (s : Session) → (finish s).log ≡ s.log ++ line_of s ∷ []
unfolding finish mark_closed record_audit_event
finish-log s = ground arith

finish-audit : (s : Session) → s.audit_sink ≡ true → (finish s).audit ≡ s.audit ++ event_of s ∷ []
unfolding finish mark_closed record_audit_event audit_event ended_fields
finish-audit s h = ground arith

pub finish-IsTold : (s : Session) → IsTold s → IsTold (finish s)
finish-IsTold s h =
    let t = finish s in
    let g = finish-Grown s h.sink in
    let (k, p, e) = finish-same s in
    record {
      sink = g.owner.same_sink ∙ h.sink;
      start_logged =
          subst (StartLogged t) (sym (ap pending p))
            (StartLogged-grown s t g (pending s.phase) h.start_logged);
      start_recorded =
          subst (StartRecorded t) (sym (ap pending p))
            (StartRecorded-grown s t g (pending s.phase) h.start_recorded);
      end_told = subst (EndTold t) (sym e) (
        subst (Any (TellsLine t)) (sym (finish-log s)) (
            Any-append_last (TellsLine t) s.log (line_of s)
              (TellsLine-same s t g.owner k (line_of s) (line_of-TellsLine s))),
        subst (Any (TellsEvent t)) (sym (finish-audit s h.sink)) (
            Any-append_last (TellsEvent t) s.audit (event_of s)
              (TellsEvent-same s t g.owner k (event_of s) (event_of-TellsEvent s))),
      );
    }
