-- ===== src/Config/Defaults.antt =====
-- The defaults of internal/config/config.go. Durations are in nanoseconds; the one of the backend is
-- parsed again, as `Resolve` does with its text.
use rook_servicechannel_gate.Base.{Bool, true}
use rook_servicechannel_gate.Base.Int.{ℤ, pos}
use rook_servicechannel_gate.Base.Text.{Bytes, text}
use rook_servicechannel_gate.Config.Types.{Level, info}

abbrev pub http_read_header_timeout : ℤ
http_read_header_timeout = pos 5000000000

abbrev pub backend_timeout : Bytes
backend_timeout = text "5s"

abbrev pub log_level : Level
log_level = info

abbrev pub ssh_private_key : Bytes
ssh_private_key = text "secrets/gateway_ssh_ed25519"

abbrev pub ssh_public_key : Bytes
ssh_public_key = text "secrets/gateway_ssh_ed25519.pub"

abbrev pub ssh_username : Bytes
ssh_username = text "pi"

abbrev pub ssh_port : ℤ
ssh_port = pos 22

abbrev pub ssh_connect_timeout : ℤ
ssh_connect_timeout = pos 5000000000

abbrev pub ssh_insecure_ignore_host_key : Bool
ssh_insecure_ignore_host_key = true

abbrev pub session_authorize_timeout : ℤ
session_authorize_timeout = pos 120000000000

abbrev pub session_max_concurrent : ℤ
session_max_concurrent = pos 32

abbrev pub session_outbound_queue : ℤ
session_outbound_queue = pos 16

abbrev pub websocket_max_message_bytes : ℤ
websocket_max_message_bytes = pos 65536

abbrev pub websocket_keepalive_interval : ℤ
websocket_keepalive_interval = pos 30000000000

abbrev pub websocket_keepalive_timeout : ℤ
websocket_keepalive_timeout = pos 75000000000
