-- ===== src/Config/Env.antt =====
-- The names of the settings in internal/config/config.go.
use rook_servicechannel_gate.Base.Text.{Bytes, text}

abbrev pub config_file : Bytes
config_file = text "GATEWAY_CONFIG_FILE"

abbrev pub listen_address : Bytes
listen_address = text "GATEWAY_LISTEN_ADDRESS"

abbrev pub http_read_header_timeout : Bytes
http_read_header_timeout = text "GATEWAY_HTTP_READ_HEADER_TIMEOUT"

abbrev pub backend_base_url : Bytes
backend_base_url = text "GATEWAY_BACKEND_BASE_URL"

abbrev pub backend_timeout : Bytes
backend_timeout = text "GATEWAY_BACKEND_TIMEOUT"

abbrev pub log_level : Bytes
log_level = text "GATEWAY_LOG_LEVEL"

abbrev pub ssh_private_key_path : Bytes
ssh_private_key_path = text "GATEWAY_SSH_PRIVATE_KEY_PATH"

abbrev pub ssh_public_key_path : Bytes
ssh_public_key_path = text "GATEWAY_SSH_PUBLIC_KEY_PATH"

abbrev pub ssh_username : Bytes
ssh_username = text "GATEWAY_SSH_USERNAME"

abbrev pub ssh_port : Bytes
ssh_port = text "GATEWAY_SSH_PORT"

abbrev pub ssh_connect_timeout : Bytes
ssh_connect_timeout = text "GATEWAY_SSH_CONNECT_TIMEOUT"

abbrev pub ssh_insecure_ignore_host_key : Bytes
ssh_insecure_ignore_host_key = text "GATEWAY_SSH_INSECURE_IGNORE_HOST_KEY"

abbrev pub session_authorize_timeout : Bytes
session_authorize_timeout = text "GATEWAY_SESSION_AUTHORIZE_TIMEOUT"

abbrev pub session_idle_timeout : Bytes
session_idle_timeout = text "GATEWAY_SESSION_IDLE_TIMEOUT"

abbrev pub session_max_concurrent : Bytes
session_max_concurrent = text "GATEWAY_SESSION_MAX_CONCURRENT"

abbrev pub session_outbound_queue : Bytes
session_outbound_queue = text "GATEWAY_SESSION_OUTBOUND_QUEUE_DEPTH"

abbrev pub websocket_max_message_bytes : Bytes
websocket_max_message_bytes = text "GATEWAY_WEBSOCKET_MAX_MESSAGE_BYTES"

abbrev pub websocket_keepalive_interval : Bytes
websocket_keepalive_interval = text "GATEWAY_WEBSOCKET_KEEPALIVE_INTERVAL"

abbrev pub websocket_keepalive_timeout : Bytes
websocket_keepalive_timeout = text "GATEWAY_WEBSOCKET_KEEPALIVE_TIMEOUT"
