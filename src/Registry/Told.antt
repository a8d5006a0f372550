-- ===== src/Registry/Told.antt =====
-- What the log and the audit sink are told of every session of internal/session/manager.go.
use rook_servicechannel_gate.Base.{
  ℕ, ◌≡◌, refl, ◌∙◌, ap, true, some, List, arith, get_elem?, length, subst, Any, Any-Pair, Pair,
}
use rook_servicechannel_gate.Base.Dict.{lookup, merge, lookup-put}
use rook_servicechannel_gate.Base.Text.{Bytes, text, bytes_eq}
use rook_servicechannel_gate.Session.{Session, Phase, unlogged, unrecorded, finished}
use rook_servicechannel_gate.Session.Log.{log_start}
use rook_servicechannel_gate.Session.Audit.{audit_event}
use rook_servicechannel_gate.Session.Invariant.{recorded_in, logged_in, ended_at}
use rook_servicechannel_gate.Session.Told.{
  OpensLine, OpensEvent, TellsLine, TellsEvent, lines_differ, events_differ,
}
use rook_servicechannel_gate.Session.Records.{IsTold, EndTold, StartLogged, StartRecorded, pending}
use rook_servicechannel_gate.Session.Accounted.{step-IsTold}
use rook_servicechannel_gate.Registry.Types.{RegistryConfig, Registry, effective, new_registry}
use rook_servicechannel_gate.Registry.Start.{StartRequest, started_fields, new_session, published}
use rook_servicechannel_gate.Registry.Step.{RegistryEvent, run_registry}
use rook_servicechannel_gate.Registry.Projected.{run_registry-Has, run_registry-IsValid}

published-IsTold :
    (now : ℕ) (id : Bytes) (request : StartRequest) (r : Registry)
    → r.cfg.audit_sink ≡ true
    → IsTold (published now id request r)
unfolding published audit_event new_session started_fields log_start merge lookup text bytes_eq
published-IsTold now id request r h = record {
  sink = h;
  start_logged = record { message = refl; identified = refl; address = refl; account = refl };
  start_recorded = record {
    name = refl;
    named = refl;
    address = simp lookup-put;
    account = simp lookup-put;
  };
  end_told = tt;
}

-- When the registry has a sink, every session that it has started is told of as far as it has come.
pub run_registry-IsTold :
    (cs : List RegistryConfig) (es : List RegistryEvent) (p : ℕ) (s : Session)
    → (effective cs).audit_sink ≡ true
    → get_elem? (run_registry es (new_registry cs)).objects p ≡ some s
    → IsTold s
run_registry-IsTold cs es p s sink found =
    run_registry-Has IsTold (effective cs) step-IsTold
      (λ now id request r k.
        published-IsTold now id request r (ap RegistryConfig.audit_sink k ∙ sink))
      cs es p s refl found

-- `logEnd` and the audit sink have told of the end.
abbrev pub EndsOnRecord : Session → Type 0
EndsOnRecord s = Any (TellsLine s) s.log × Any (TellsEvent s) s.audit

IsTold-EndsOnRecord : (s : Session) → IsTold s → s.stage ≡ finished → EndsOnRecord s
IsTold-EndsOnRecord s h over = subst (EndTold s) over h.end_told

pub run_registry-EndsOnRecord :
    (cs : List RegistryConfig) (es : List RegistryEvent) (p : ℕ) (s : Session)
    → (effective cs).audit_sink ≡ true
    → get_elem? (run_registry es (new_registry cs)).objects p ≡ some s
    → s.stage ≡ finished
    → EndsOnRecord s
run_registry-EndsOnRecord cs es p s sink found over =
    IsTold-EndsOnRecord s (run_registry-IsTold cs es p s sink found) over

-- Two lines and two events, one of each of the start and one of each of the end, in either order.
abbrev pub IsAccounted : Session → Type 0
IsAccounted s = Pair (OpensLine s) (TellsLine s) s.log × Pair (OpensEvent s) (TellsEvent s) s.audit

past-nothing :
    (s : Session) (p : Phase)
    → recorded_in p ≡ 1
    → StartLogged s (pending p)
    → StartRecorded s (pending p)
    → Any (OpensLine s) s.log × Any (OpensEvent s) s.audit × (logged_in p ≡ 1)
past-nothing s (unlogged line fields ms) e l r = absurd (omega (arith, e))
past-nothing s (unrecorded fields ms) e l r = absurd (omega (arith, e))
past-nothing s _ e l r = (l, r, refl)

pub run_registry-IsAccounted :
    (cs : List RegistryConfig) (es : List RegistryEvent) (p : ℕ) (s : Session)
    → (effective cs).audit_sink ≡ true
    → get_elem? (run_registry es (new_registry cs)).objects p ≡ some s
    → recorded_in s.phase ≡ 1
    → s.stage ≡ finished
    → IsAccounted s
run_registry-IsAccounted cs es p s sink found past over =
    let h = run_registry-IsTold cs es p s sink found in
    let v = run_registry-IsValid cs es p s found in
    let (ends, ends') = IsTold-EndsOnRecord s h over in
    let (opens, opens', logs) = past-nothing s s.phase past h.start_logged h.start_recorded in
    let lines : length s.log ≡ 2 = omega (arith, v.logged, logs, ap ended_at over) in
    let events : length s.audit ≡ 2 = ground (arith, v.audited, past, h.sink, over) in
    (
      Any-Pair s.log lines (lines_differ s) opens ends,
      Any-Pair s.audit events (events_differ s) opens' ends',
    )
