-- ===== src/Config/Types.antt =====
-- The types of internal/config/config.go.
use rook_servicechannel_gate.Base.{Bool}
use rook_servicechannel_gate.Base.Int.{ℤ}
use rook_servicechannel_gate.Base.Text.{Bytes}
use rook_servicechannel_gate.Websocket.Errors.{Failure}

-- The levels of log/slog.
pub data Level : Type 0 where
  debug info warn error : Level

-- Durations count nanoseconds. The Go record is nested; its parts are joined here.
pub record Config : Type 0 where
  pub listen_address : Bytes
  pub read_header_timeout : ℤ
  pub base_url : Bytes
  pub validation_timeout : ℤ
  pub level : Level
  pub ssh_private_key_path : Bytes
  pub ssh_public_key_path : Bytes
  pub username : Bytes
  pub port : ℤ
  pub connect_timeout : ℤ
  pub insecure_ignore_host_key : Bool
  pub authorize_timeout : ℤ
  pub max_concurrent : ℤ
  pub outbound_queue_depth : ℤ
  pub max_message_bytes : ℤ
  pub keepalive_interval : ℤ
  pub keepalive_timeout : ℤ

-- What `Validate` looks at in the answer of `url.Parse`.
pub record Url : Type 0 where
  pub scheme : Bytes
  pub host : Bytes

-- The settings that `Validate` names in its errors.
pub data Setting : Type 0 where
  listen_address_of read_header_timeout_of base_url_of validation_timeout_of : Setting
  private_key_of public_key_of username_of connect_timeout_of : Setting
  authorize_timeout_of max_concurrent_of outbound_queue_of max_message_bytes_of : Setting
  keepalive_interval_of keepalive_timeout_of : Setting

-- The errors of `Validate`, by their wording.
pub data ConfigError : Type 0 where
  must_be_set must_not_be_empty must_be_positive : Setting → ConfigError
  unparsed : Failure → ConfigError
  must_use_http must_include_host must_be_a_port must_exceed_interval : ConfigError
