-- ===== src/Gateway.antt =====
-- cmd/gateway/main.go: the parts of the program put together.
pub mod Starting
pub mod Stopping
pub mod Vouched
mod Tests
use rook_servicechannel_gate.Base.{ℕ, true, Option, none, some, List, [], ◌∷◌, Result, ok, err}
use rook_servicechannel_gate.Base.Text.{Bytes, text}
use rook_servicechannel_gate.Websocket.Errors.{Failure}
use rook_servicechannel_gate.Config.Types.{Config, ConfigError}
use rook_servicechannel_gate.Config.Load.{Scanned, LoadError, load_vars}
use rook_servicechannel_gate.Config.Resolve.{Parsers, ResolveError, resolve}
use rook_servicechannel_gate.Grants.Client.{client_base_url, validate_token}
use rook_servicechannel_gate.Sshbridge.Client.{Client, new_client}
use rook_servicechannel_gate.Grants.{Http}
use rook_servicechannel_gate.Websocket.{Message}
use rook_servicechannel_gate.Config.Types.{info}
use rook_servicechannel_gate.Session.{LogLine, words, number, span, flag}
use rook_servicechannel_gate.Registry.{Registry}
use rook_servicechannel_gate.Registry.Shutdown.{Visit}
use rook_servicechannel_gate.Registry.Start.{Opening}
use rook_servicechannel_gate.Server.Socket.{Surroundings}
use rook_servicechannel_gate.Registry.Step.{RegistryEvent, run_registry}
use rook_servicechannel_gate.Server.Serve.{Served, new_session_registry, listen_and_serve}

-- What the program meets: the environment, the files, the parsers of the library, the sessions that
-- start and act until the server ends, what they do around the calls of `CloseAll`, and the end of the
-- server.
pub record World : Type 0 where
  pub env : Bytes → Option Bytes
  pub open_file : Bytes → Result Failure Scanned
  pub parsers : Parsers
  pub events : List RegistryEvent
  pub around : ℕ → Visit
  pub served : Served

-- The parts that `run` makes for the server, the registry when the server has ended, and the lines of
-- `run` in the log.
pub record Gateway : Type 0 where
  pub cfg : Config
  pub backend_url : Bytes
  pub bridge : Client
  pub registry : Registry
  pub log : List LogLine

-- What `handleBrowserSocket` is given: the user name and the backend of the configuration, the bridge,
-- and what the connection, the other goroutines and the bridge do.
unfoldable pub surroundings_of :
    Http → Config → Result Failure Message → (Registry → Registry) → Opening → Surroundings
surroundings_of http c first_read meanwhile opening = record {
  username = c.username;
  bridge = true;
  validator = some (validate_token http (client_base_url c.base_url));
  first_read = first_read;
  meanwhile = meanwhile;
  opening = opening;
}

pub data RunEnd : Type 0 where
  unloaded : LoadError → RunEnd
  unresolved : ResolveError → RunEnd
  no_bridge : List LogLine → ConfigError → RunEnd
  ends : Gateway → Option Failure → RunEnd

unfoldable pub starting_line : Config → LogLine
starting_line c = record {
  level = info;
  message = text "starting gateway";
  args =
      (text "listenAddress", words c.listen_address)
      ∷ (text "httpReadHeaderTimeout", span c.read_header_timeout)
      ∷ (text "backendBaseURL", words c.base_url)
      ∷ (text "sshUsername", words c.username)
      ∷ (text "sshPort", number c.port)
      ∷ (text "sshInsecureIgnoreHostKey", flag c.insecure_ignore_host_key)
      ∷ (text "sessionAuthorizeTimeout", span c.authorize_timeout)
      ∷ (text "sessionMaxConcurrent", number c.max_concurrent)
      ∷ (text "sessionOutboundQueueDepth", number c.outbound_queue_depth)
      ∷ (text "websocketMaxMessageBytes", number c.max_message_bytes)
      ∷ (text "websocketKeepaliveInterval", span c.keepalive_interval)
      ∷ (text "websocketKeepaliveTimeout", span c.keepalive_timeout)
      ∷ [];
}

-- The last line, which is missing after an error.
unfoldable pub parting_lines : Option Failure → List LogLine
parting_lines none = record { level = info; message = text "gateway stopped"; args = [] } ∷ []
parting_lines (some e) = []

-- From `server.ListenAndServe` on.
unfoldable pub serve : World → Config → Client → RunEnd
serve w c bridge =
    let (r, error) =
      listen_and_serve w.around w.served (run_registry w.events (new_session_registry c)) in
    ends
      (record {
        cfg = c;
        backend_url = client_base_url c.base_url;
        bridge = bridge;
        registry = r;
        log = starting_line c ∷ parting_lines error;
      })
      error

unfoldable pub with_bridge : World → Config → Result ConfigError Client → RunEnd
unfolding serve
with_bridge w c (err e) = no_bridge (starting_line c ∷ []) e
with_bridge w c (ok bridge) = serve w c bridge

unfoldable pub with_config : World → Result ResolveError Config → RunEnd
unfolding with_bridge
with_config w (err e) = unresolved e
with_config w (ok c) = with_bridge w c (new_client w.parsers.url c)

unfoldable pub with_vars : World → Result LoadError (List (Bytes × Bytes)) → RunEnd
unfolding with_config
with_vars w (err e) = unloaded e
with_vars w (ok vars) = with_config w (resolve w.parsers vars)

-- `run`, with `config.Load`.
unfoldable pub run_gateway : World → RunEnd
unfolding with_vars
run_gateway w = with_vars w (load_vars w.env w.open_file)

-- The exit status of `main`.
unfoldable pub exit_status : RunEnd → ℕ
exit_status (ends g none) = 0
exit_status _ = 1
