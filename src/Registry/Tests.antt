-- ===== src/Registry/Tests.antt =====
-- The registry of internal/session/manager.go on concrete starts.
use rook_servicechannel_gate.Base.{
  All, zero, suc, some, get_elem?, ap, sym, ◌∙◌, length, ◌↔◌, ℕ, ◌≡◌, ◌≤◌, refl, true, false, none,
  List, [], ◌∷◌, arith,
}
use rook_servicechannel_gate.Base.Int.{pos, pos_part}
use rook_servicechannel_gate.Base.Text.{text, Bytes, bytes_eq}
use rook_servicechannel_gate.Session.{client_close, server_shutdown, Session}
use rook_servicechannel_gate.Session.Close.{advance, begin_close}
use rook_servicechannel_gate.Session.Step.{deletes, step, greets, closes, advances}
use rook_servicechannel_gate.Registry.Ids.{new_session_id}
use rook_servicechannel_gate.Registry.Types.{
  at_capacity, record_rejection, RegistryConfig, Registry, effective, new_registry, count,
  default_config,
}
use rook_servicechannel_gate.Registry.Start.{commit, announced, admit, StartRequest, Opening, start}
use rook_servicechannel_gate.Registry.Start.Outcome.{Asks, start-Asks}
use rook_servicechannel_gate.Registry.Step.{
  RegistryEvent, admits, commits, acts, act, apply, run_registry,
}
use rook_servicechannel_gate.Registry.Shutdown.{Visit, close_each, close_all}
use rook_servicechannel_gate.Registry.Shutdown.Drained.{Returns, AllSettle, close_all-drains}
use rook_servicechannel_gate.Base.Dict.{put, delete}
use rook_servicechannel_gate.Registry.Capacity.{count-run_registry_le}
use rook_servicechannel_gate.Registry.Links.Types.{IsLinked}
use rook_servicechannel_gate.Registry.Roster.{Implements, roster_run, empty}
use rook_servicechannel_gate.Registry.Roster
use rook_servicechannel_gate.Registry.Roster.Refined.{run_registry-Implements}
use rook_servicechannel_gate.Registry.Links.{HasFreshIds, run_registry-IsLinked}

abbrev one_session : RegistryConfig
one_session = record default_config { max_concurrent = pos 1 }

abbrev pub request : StartRequest
request = record {
  grant = record { ip_address = b'h' ∷ []; raw_response = [] };
  browser = true;
  bridge = true;
  ssh_account = b'r' ∷ [];
  initial_messages = [];
  cleanup = false;
}

-- A session starts, another is refused at the limit, and the first one closes.
abbrev history : List RegistryEvent
history =
    admits request
    ∷ commits 5 (b'a' ∷ []) request
    ∷ acts 0 (greets 5)
    ∷ admits request
    ∷ acts 0 (closes 6 client_close 1000 [])
    ∷ acts 0 advances
    ∷ acts 0 advances
    ∷ []

count-run_registry_le_example :
    count (run_registry history (new_registry (one_session ∷ [])))
    ≤ pos_part (effective (one_session ∷ [])).max_concurrent
count-run_registry_le_example = count-run_registry_le (one_session ∷ []) history

history-HasFreshIds : HasFreshIds history (new_registry (one_session ∷ []))
unfolding new_registry apply effective admit at_capacity record_rejection
history-HasFreshIds = ((λ p s e same. absurd (ground arith)), tt)

run_registry-IsLinked_example : IsLinked (run_registry history (new_registry (one_session ∷ [])))
run_registry-IsLinked_example = run_registry-IsLinked (one_session ∷ []) history history-HasFreshIds

abbrev random_bytes : Bytes
random_bytes = 1 ∷ 171 ∷ []

new_session_id_test : new_session_id random_bytes ≡ text "01ab"
unfolding new_session_id text
new_session_id_test = refl

abbrev opening : Opening
opening = record { opened = none; keepalive = none; now = 5; id = b'a' ∷ [] }

start-Asks_example : Asks request (start (λ r. r) opening request (new_registry [])).requests
start-Asks_example = start-Asks (λ r. r) opening request (new_registry [])

run_registry-Implements_example :
    let r = run_registry history (new_registry (one_session ∷ [])) in
    let v = roster_run 1 (Roster.history history (new_registry (one_session ∷ []))) empty in
    Implements r v × (((commit 9 (b'c' ∷ []) request r).1 ≡ none) ↔ (1 ≤ v.size))
unfolding effective
run_registry-Implements_example =
    run_registry-Implements (one_session ∷ []) history 9 (b'c' ∷ []) request

-- The session has its close run to its end; meanwhile another one starts.
abbrev around : ℕ → Visit
around p = record {
  before = acts p (greets 6) ∷ [];
  now = 9;
  during =
      acts p advances ∷ acts p advances ∷ commits 10 (b'b' ∷ []) request ∷ acts p advances ∷ [];
}

abbrev one_start : List RegistryEvent
one_start = admits request ∷ commits 5 (b'a' ∷ []) request ∷ []

abbrev started_once : Registry
started_once = run_registry one_start (new_registry (one_session ∷ []))

one_start-HasFreshIds : HasFreshIds one_start (new_registry (one_session ∷ []))
unfolding new_registry apply admit record_rejection
one_start-HasFreshIds = ((λ p s e same. absurd (ground arith)), tt)

only_one : (s : Session) (p : ℕ) (t : Session) → get_elem? (s ∷ []) p ≡ some t → t ≡ s
only_one s zero t h = cc
only_one s (suc p) t h = cc

later_start-fresh :
    HasFreshIds (close_each server_shutdown around started_once.sessions) started_once
unfolding run_registry apply commit at_capacity admit new_registry put close_each act advance
    begin_close step announced
later_start-fresh =
    (λ p s found same. differ (ap (λ (w : Session). w.id) (sym (only_one _ p s found)) ∙ same), tt)
  where
    differ : ◌≡◌ {A = Bytes} (b'a' ∷ []) (b'b' ∷ []) → ⊥
    differ e = ground arith

calls_return : Returns server_shutdown around started_once.sessions started_once
unfolding run_registry apply commit at_capacity admit new_registry put
calls_return = ((λ s found. ground arith), tt)

close_all-drains_example :
    let q = close_all server_shutdown around started_once in
    AllSettle server_shutdown around started_once.sessions started_once q
    × All (λ (e : Bytes × ℕ). length started_once.objects ≤ e.1) q.sessions
close_all-drains_example =
    close_all-drains (one_session ∷ []) one_start one_start-HasFreshIds server_shutdown around
      later_start-fresh calls_return

-- The one that starts meanwhile is not closed.
later_start : (close_all server_shutdown around started_once).sessions ≡ (b'b' ∷ [], 1) ∷ []
unfolding close_all run_registry apply commit at_capacity admit new_registry put close_each act
    deletes advance begin_close delete bytes_eq
later_start = refl
