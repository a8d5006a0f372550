-- ===== src/Gateway/Tests.antt =====
-- The program of cmd/gateway/main.go put together, on concrete settings.
use rook_servicechannel_gate.Base.{
  ℕ, List, ◌≡◌, ◌⊎◌, Result, Option, none, some, [], ◌∷◌, ok, if◌then◌else◌,
}
use rook_servicechannel_gate.Base.Text.{Bytes, text, bytes_eq}
use rook_servicechannel_gate.Websocket.{Message, text_frame}
use rook_servicechannel_gate.Websocket.Errors.{Failure}
use rook_servicechannel_gate.Grants.{Http}
use rook_servicechannel_gate.Registry.{new_registry}
use rook_servicechannel_gate.Registry.Start.{Opening}
use rook_servicechannel_gate.Server.Socket.{handle_browser_socket}
use rook_servicechannel_gate.Gateway.Vouched.{IsEntitled, handle_browser_socket-IsEntitled}
use rook_servicechannel_gate.Session.Step.{greets, advances}
use rook_servicechannel_gate.Registry.Shutdown.{Visit}
use rook_servicechannel_gate.Config.Tests.{parsers, defaults}
use rook_servicechannel_gate.Registry.Step.{admits, commits, acts}
use rook_servicechannel_gate.Registry.Tests.{request}
use rook_servicechannel_gate.Server.Serve.{server_closed, signalled}
use rook_servicechannel_gate.Gateway.{World, run_gateway, surroundings_of}
use rook_servicechannel_gate.Gateway.Starting.{Runs, run_gateway-Runs}

abbrev environment : Bytes → Option Bytes
environment key =
    if bytes_eq key (text "GATEWAY_LISTEN_ADDRESS")
    then some (text ":8080")
    else if bytes_eq key (text "GATEWAY_BACKEND_BASE_URL")
    then some (text "http://backend")
    else none

-- The session has its first message sent and is launched, and its close runs to its end.
abbrev around : ℕ → Visit
around p = record {
  before = acts p (greets 6) ∷ [];
  now = 9;
  during = acts p advances ∷ acts p advances ∷ acts p advances ∷ [];
}

-- A session starts, and the signal comes.
abbrev world : World
world = record {
  env = environment;
  open_file = λ path. ok (record { lines = []; failure = none });
  parsers = parsers;
  events = admits request ∷ commits 5 (b'a' ∷ []) request ∷ [];
  around = around;
  served = signalled none server_closed;
}

run_gateway-Runs_example : Runs world (run_gateway world)
run_gateway-Runs_example = run_gateway-Runs world

abbrev settings : List (Bytes × Bytes)
settings =
    (text "GATEWAY_LISTEN_ADDRESS", text ":8080")
    ∷ (text "GATEWAY_BACKEND_BASE_URL", text "http://backend")
    ∷ []

-- A backend that vouches for every token.
abbrev http : Http
http = record {
  refuses = λ url. none;
  exchange =
      λ request. ok (record { status = 200; body = ok (text "{\"ipAddress\":\"203.0.113.10\"}") });
}

abbrev first_read : Result Failure Message
first_read = ok (record {
  frame = text_frame;
  payload = text "{\"type\":\"authorize\",\"token\":\"grant-123\"}";
})

abbrev opening : Opening
opening = record { opened = none; keepalive = none; now = 5; id = b'a' ∷ [] }

handle_browser_socket-IsEntitled_example :
    let o =
      handle_browser_socket
        (surroundings_of http defaults first_read (λ r. r) opening)
        (new_registry []) in
    ((o.session ≡ none) × (o.requests ≡ [])) ⊎ IsEntitled http defaults first_read o
handle_browser_socket-IsEntitled_example =
    handle_browser_socket-IsEntitled http defaults first_read (λ r. r) opening (new_registry [])
