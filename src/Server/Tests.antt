-- ===== src/Server/Tests.antt =====
-- The socket handler of internal/httpserver/server.go on concrete first messages.
use rook_servicechannel_gate.Base.{
  arith, ◌≤◌, List, ◌↔◌, if◌then◌else◌, ℕ, ◌≡◌, refl, true, none, some, [], ◌∷◌, Result, ok, All,
  ◌⊎◌, map, get_elem?,
}
use rook_servicechannel_gate.Base.Dict.{lookup}
use rook_servicechannel_gate.Base.Int.{pos}
use rook_servicechannel_gate.Base.Text.{bytes_eq, Bytes, text}
use rook_servicechannel_gate.Grants.{ValidationResult, GrantError}
use rook_servicechannel_gate.Json.Decode.{as_string}
use rook_servicechannel_gate.Websocket.{text_frame, authorize}
use rook_servicechannel_gate.Websocket.Protocol.{parse_client_message, client_message}
use rook_servicechannel_gate.Config.Usable.{IsUsable, validate-IsUsable_iff}
use rook_servicechannel_gate.Config.Tests.{as_http, defaults, defaults_test}
use rook_servicechannel_gate.Websocket.Conn.{upgraded}
use rook_servicechannel_gate.Registry.{new_registry, count, at_capacity, effective}
use rook_servicechannel_gate.Session.{Session, server_shutdown}
use rook_servicechannel_gate.Session.Step.{SessionEvent, greets, closes, advances, run}
use rook_servicechannel_gate.Registry.Start.{published}
use rook_servicechannel_gate.Registry.Step.{RegistryEvent, admits, commits, acts, run_registry}
use rook_servicechannel_gate.Registry.Tests.{request}
use rook_servicechannel_gate.Server.Serve.{new_session_registry, handler_upgrader}
use rook_servicechannel_gate.Server.Configured.{IsConfigured, new_session_registry-bounded}
use rook_servicechannel_gate.Server.Mux.{
  HttpQuery, upgrades, terminal_handler, has_upgrade_headers, header_contains_token, any_value,
  any_part, is_token, split_commas,
}
use rook_servicechannel_gate.Json.Decode.{names}
use rook_servicechannel_gate.Base.Text.Trim.{trim_space}
use rook_servicechannel_gate.Server.Upgrade.{IsUpgrade, terminal_handler-upgrades}
use rook_servicechannel_gate.Server.Socket.{
  Surroundings, Outcome, handle_browser_socket, start_request,
}
use rook_servicechannel_gate.Server.Socket.Served.{
  IsServable, IsServing, handle_browser_socket-Serves,
}
use rook_servicechannel_gate.Server.Socket.Authorized.{
  IsAuthorized, IsFor, handle_browser_socket-Guarded,
}
use rook_servicechannel_gate.Server.Socket.Closing.{ClosesLast, handle_browser_socket-settles}

abbrev accept_all : Bytes → Result GrantError ValidationResult
accept_all token = ok (record { ip_address = b'h' ∷ []; raw_response = [] })

abbrev surroundings : Surroundings
surroundings = record {
  username = b'r' ∷ [];
  bridge = true;
  validator = some accept_all;
  first_read = ok (record {
    frame = text_frame;
    payload = text "{\"type\":\"authorize\",\"token\":\"grant-123\"}";
  });
  meanwhile = λ r. r;
  opening = record { opened = none; keepalive = none; now = 5; id = b'a' ∷ [] };
}

abbrev handled : Outcome
handled = handle_browser_socket surroundings (new_registry [])

handle_browser_socket-Guarded_example :
    ((handled.session ≡ none) × (handled.requests ≡ []))
    ⊎ ((v : ValidationResult) × IsAuthorized surroundings v
        × All (IsFor surroundings v) handled.requests)
handle_browser_socket-Guarded_example = handle_browser_socket-Guarded surroundings (new_registry [])

handle_browser_socket-settles_example :
    (((p : ℕ) × (handled.session ≡ some p)) × (handled.calls ≡ []))
    ⊎ ((handled.session ≡ none) × ClosesLast handled.calls)
handle_browser_socket-settles_example = handle_browser_socket-settles surroundings (new_registry [])

-- Two tokens in one value, in mixed case.
abbrev upgrade_query : HttpQuery
upgrade_query = record {
  method = text "GET";
  values = λ key.
      if bytes_eq key (text "Connection")
      then text "keep-alive, Upgrade" ∷ []
      else text "WebSocket" ∷ [];
}

terminal_handler_test : terminal_handler upgrade_query ≡ upgrades
unfolding terminal_handler has_upgrade_headers header_contains_token any_value any_part is_token
    split_commas text bytes_eq trim_space names
terminal_handler_test = refl

terminal_handler-upgrades_example :
    (terminal_handler upgrade_query ≡ upgrades) ↔ IsUpgrade upgrade_query
terminal_handler-upgrades_example = terminal_handler-upgrades upgrade_query

defaults-IsUsable : IsUsable as_http defaults
defaults-IsUsable = (validate-IsUsable_iff as_http defaults).0 defaults_test

abbrev starts : List RegistryEvent
starts = admits request ∷ commits 5 (b'a' ∷ []) request ∷ admits request ∷ []

new_session_registry-bounded_example :
    IsConfigured defaults (new_session_registry defaults).cfg
    × ((upgraded (handler_upgrader defaults)).read_limit ≡ pos 65536)
    × (count (run_registry starts (new_session_registry defaults)) ≤ 32)
new_session_registry-bounded_example =
    new_session_registry-bounded as_http defaults starts defaults-IsUsable

-- The close overtakes what `Start` has still to log and to record.
abbrev closing : List SessionEvent
closing =
    closes 9 server_shutdown 1001 (text "bye")
    ∷ advances
    ∷ advances
    ∷ advances
    ∷ greets 10
    ∷ greets 11
    ∷ []

abbrev start_and_end : List RegistryEvent
start_and_end = commits 5 (b'a' ∷ []) request ∷ map (acts 0) closing

abbrev over : Session
over = run closing (published 5 (b'a' ∷ []) request (new_session_registry defaults))

-- The loggers are numbers, and none is given.
abbrev slog_default : ℕ
slog_default = 0

abbrev granted : ValidationResult
granted = record { ip_address = b'h' ∷ []; raw_response = [] }

surroundings-IsServable : IsServable surroundings granted (new_registry [])
unfolding parse_client_message text bytes_eq as_string at_capacity new_registry effective count
    start_request
surroundings-IsServable = record {
  message = record {
    frame = text_frame;
    payload = text "{\"type\":\"authorize\",\"token\":\"grant-123\"}";
  };
  read = refl;
  parsed = record (client_message authorize) { token = text "grant-123" };
  accepted = refl;
  kind = refl;
  validate_token = accept_all;
  present = refl;
  valid = refl;
  start_acceptable = record {
    browser = refl;
    bridge = refl;
    target = refl;
    room_before = refl;
    opened = refl;
    keepalive = refl;
    room_after = refl;
    queue = omega arith;
  };
}

handle_browser_socket-Serves_example :
    (p : ℕ) × (s : Session) × (handled.session ≡ some p)
    × (handled.calls ≡ [])
    × (get_elem? handled.registry.objects p ≡ some s)
    × (lookup surroundings.opening.id handled.registry.sessions ≡ some p)
    × IsServing surroundings granted s
handle_browser_socket-Serves_example =
    handle_browser_socket-Serves surroundings granted (new_registry []) surroundings-IsServable
