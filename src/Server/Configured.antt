-- ===== src/Server/Configured.antt =====
-- The server under a usable configuration.
use rook_servicechannel_gate.Base.{
  ◌≤◌, ◌≡◌, List, [], ◌∷◌, Result, arith, refl, sym, true, subst, if◌then◌else◌,
}
use rook_servicechannel_gate.Base.Int.{ℤ, pos, pos_part, is_nonpos, ◌<ℤ◌}
use rook_servicechannel_gate.Base.Text.{Bytes}
use rook_servicechannel_gate.Websocket.Errors.{Failure}
use rook_servicechannel_gate.Websocket.Conn.{upgraded}
use rook_servicechannel_gate.Config.Types.{Config, Url}
use rook_servicechannel_gate.Config.Usable.{IsUsable}
use rook_servicechannel_gate.Registry.{RegistryConfig, effective, new_registry, count}
use rook_servicechannel_gate.Registry.Step.{RegistryEvent, run_registry}
use rook_servicechannel_gate.Registry.Capacity.{count-run_registry_le}
use rook_servicechannel_gate.Server.Serve.{session_config, new_session_registry, handler_upgrader}

kept : (given default : ℤ) → pos 0 <ℤ given → (if is_nonpos given then default else given) ≡ given
kept given default h = ground arith

effective-session_config :
    (parse_url : Bytes → Result Failure Url) (c : Config)
    → IsUsable parse_url c
    → effective (session_config c ∷ []) ≡ session_config c
unfolding effective session_config
effective-session_config parse_url c u = ground (
  arith,
  kept c.keepalive_interval (pos 30000000000) u.interval,
  kept c.keepalive_timeout (pos 75000000000),
  kept c.max_concurrent (pos 32) u.max_concurrent,
  kept c.outbound_queue_depth (pos 16) u.queue,
)

-- The registry has each setting of the configuration, and a sink.
pub record IsConfigured (c : Config) (k : RegistryConfig) : Type 0 where
  pub interval : k.keepalive_interval ≡ c.keepalive_interval
  pub timeout : k.keepalive_timeout ≡ c.keepalive_timeout
  pub max_concurrent : k.max_concurrent ≡ c.max_concurrent
  pub queue : k.outbound_queue_depth ≡ c.outbound_queue_depth
  pub sink : k.audit_sink ≡ true

session_config-IsConfigured : (c : Config) → IsConfigured c (session_config c)
unfolding session_config
session_config-IsConfigured c = record {
  interval = refl;
  timeout = refl;
  max_concurrent = refl;
  queue = refl;
  sink = refl;
}

-- With a usable configuration the registry has its keepalive interval and time-out, its limit of
-- sessions and its depth of the queue, each as it is and none of them replaced by a default, and it
-- has a sink; connections are read up to the configured size; and however starts and sessions
-- interleave there are never more sessions than configured.
pub new_session_registry-bounded :
    (parse_url : Bytes → Result Failure Url) (c : Config) (es : List RegistryEvent)
    → IsUsable parse_url c
    → IsConfigured c (new_session_registry c).cfg
      × ((upgraded (handler_upgrader c)).read_limit ≡ c.max_message_bytes)
      × (count (run_registry es (new_session_registry c)) ≤ pos_part c.max_concurrent)
unfolding new_session_registry handler_upgrader upgraded
new_session_registry-bounded parse_url c es u =
    let same = effective-session_config parse_url c u in
    (
      subst (IsConfigured c) (sym same) (session_config-IsConfigured c),
      kept c.max_message_bytes (pos 65536) u.max_message,
      limit,
    )
  where
    limit :
        count (run_registry es (new_registry (session_config c ∷ []))) ≤ pos_part c.max_concurrent
    limit =
        let within = count-run_registry_le (session_config c ∷ []) es in
        let same = effective-session_config parse_url c u in
        subst
          (λ (k : RegistryConfig).
            count (run_registry es (new_registry (session_config c ∷ [])))
            ≤ pos_part k.max_concurrent)
          same within
