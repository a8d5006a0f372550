-- ===== src/Server/Serve.antt =====
-- `newSessionRegistry` and `ListenAndServe` of internal/httpserver/server.go.
use rook_servicechannel_gate.Base.{ℕ, true, Option, none, some, [], ◌∷◌}
use rook_servicechannel_gate.Websocket.Errors.{Failure}
use rook_servicechannel_gate.Websocket.Conn.{UpgraderConfig, new_upgrader}
use rook_servicechannel_gate.Base.Int.{pos}
use rook_servicechannel_gate.Config.Types.{Config}
use rook_servicechannel_gate.Session.{server_shutdown}
use rook_servicechannel_gate.Registry.{RegistryConfig, Registry, new_registry}
use rook_servicechannel_gate.Registry.Shutdown.{Visit, close_all}

-- The configuration of the registry. The logger's sink is always there.
unfoldable pub session_config : Config → RegistryConfig
session_config c = record {
  keepalive_interval = c.keepalive_interval;
  keepalive_timeout = c.keepalive_timeout;
  max_concurrent = c.max_concurrent;
  outbound_queue_depth = c.outbound_queue_depth;
  audit_sink = true;
}

unfoldable pub new_session_registry : Config → Registry
unfolding session_config new_registry
new_session_registry c = new_registry (session_config c ∷ [])

-- The upgrader of `NewHandler`, which sets no write time-out.
unfoldable pub handler_upgrader : Config → UpgraderConfig
unfolding new_upgrader
handler_upgrader c =
    new_upgrader (record { max_message_bytes = c.max_message_bytes; write_timeout = pos 0 })

-- How `http.Server.ListenAndServe` ends: after a shutdown, with another error, or with none.
pub data ListenEnd : Type 0 where
  server_closed no_error : ListenEnd
  listen_error : Failure → ListenEnd

-- What the goroutine of `ListenAndServe` sends.
unfoldable pub sent_error : ListenEnd → Option Failure
sent_error (listen_error e) = some e
sent_error _ = none

-- What the `select` sees first: the end of the listener, or the signal, with the answer of `Shutdown`
-- and the end of the listener behind it.
pub data Served : Type 0 where
  listener_ends : ListenEnd → Served
  signalled : Option Failure → ListenEnd → Served

abbrev or_sent : Option Failure → ListenEnd → Option Failure
or_sent (some e) l = some e
or_sent none l = sent_error l

-- `around` is what other goroutines do around the calls of `CloseAll`.
unfoldable pub listen_and_serve : (ℕ → Visit) → Served → Registry → Registry × Option Failure
unfolding sent_error
listen_and_serve around (listener_ends l) r = (r, sent_error l)
listen_and_serve around (signalled shutdown l) r =
    (close_all server_shutdown around r, or_sent shutdown l)
