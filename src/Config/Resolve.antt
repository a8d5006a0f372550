-- ===== src/Config/Resolve.antt =====
-- `Resolve` of internal/config/config.go, with the parsers of the standard library as parameters.
use rook_servicechannel_gate.Config.Env
use rook_servicechannel_gate.Config.Defaults
use rook_servicechannel_gate.Base.{
  Bool, ◌&&◌, ◌==◌, Option, none, some, List, [], ◌∷◌, Result, ok, err, ◌>>=◌, if◌then◌else◌,
}
use rook_servicechannel_gate.Base.Int.{ℤ}
use rook_servicechannel_gate.Base.Text.{Bytes, text, bytes_eq, is_empty, lower_byte}
use rook_servicechannel_gate.Base.Text.Trim.{trim_space}
use rook_servicechannel_gate.Base.Dict.{lookup}
use rook_servicechannel_gate.Websocket.Errors.{Failure}
use rook_servicechannel_gate.Config.Types.{
  Config, Url, Level, debug, info, warn, error, ConfigError,
}
use rook_servicechannel_gate.Config.Validate.{validate}

-- `time.ParseDuration`, `strconv.Atoi`, `strconv.ParseInt` to 64 bits, `strconv.ParseBool` and
-- `url.Parse`.
pub record Parsers : Type 0 where
  pub duration : Bytes → Result Failure ℤ
  pub int : Bytes → Result Failure ℤ
  pub int64 : Bytes → Result Failure ℤ
  pub bool : Bytes → Result Failure Bool
  pub url : Bytes → Result Failure Url

pub data ResolveError : Type 0 where
  bad_setting : Bytes → Failure → ResolveError
  bad_level : Bytes → ResolveError
  invalid : ConfigError → ResolveError

-- `vars[key]`, which is empty for a missing key.
unfoldable pub value_of : List (Bytes × Bytes) → Bytes → Bytes
value_of vars key = elim (lookup key vars) [ none ↦ [] | some v ↦ v ]

-- The trimmed value.
abbrev pub setting : List (Bytes × Bytes) → Bytes → Bytes
setting vars key = trim_space (value_of vars key)

unfoldable pub first_non_empty : List Bytes → Bytes
first_non_empty [] = []
first_non_empty (v ∷ vs) =
    let rest = first_non_empty vs in if is_empty (trim_space v) then rest else trim_space v

abbrev pub parsed :
    {A : Type 0} → (Bytes → Result Failure A) → Bytes → Bytes → Result ResolveError A
parsed parse key v = elim (parse v) [ ok a ↦ ok a | err e ↦ err (bad_setting key e) ]

-- The parsed value, or the default where it is empty.
abbrev pub optional :
    {A : Type 0} → (Bytes → Result Failure A) → Bytes → Bytes → A → Result ResolveError A
optional parse key v default = if is_empty v then ok default else parsed parse key v

-- `strings.ToLower` as far as ASCII letters come out: besides those, U+0130 becomes `i`; no other code
-- point becomes a letter of a level's name.
unfoldable pub to_lower : Bytes → Bytes
to_lower [] = []
to_lower (a ∷ []) = lower_byte a ∷ []
to_lower (a ∷ b ∷ s) =
    let dotted = b'i' ∷ to_lower s in
    let other = lower_byte a ∷ to_lower (b ∷ s) in if a == 0xC4 && b == 0xB0 then dotted else other

unfoldable pub parse_log_level : Bytes → Result ResolveError Level
parse_log_level value =
    let word = to_lower (trim_space value) in
    if bytes_eq word (text "debug")
    then ok debug
    else if bytes_eq word (text "info")
    then ok info
    else if bytes_eq word (text "warn")
    then ok warn
    else if bytes_eq word (text "warning")
    then ok warn
    else if bytes_eq word (text "error")
    then ok error
    else err (bad_level value)

abbrev pub level_or_default : Bytes → Result ResolveError Level
level_or_default v = if is_empty v then ok Defaults.log_level else parse_log_level v

-- The time-out of the authorization, under its name or under the older one.
unfoldable pub authorize_setting : List (Bytes × Bytes) → Bytes
authorize_setting vars =
    if is_empty (setting vars Env.session_authorize_timeout)
    then setting vars Env.session_idle_timeout
    else setting vars Env.session_authorize_timeout

-- The configuration before it is validated.
unfoldable pub assemble : Parsers → List (Bytes × Bytes) → Result ResolveError Config
assemble k vars = do
  validation ←
      parsed k.duration Env.backend_timeout
        (first_non_empty (value_of vars Env.backend_timeout ∷ Defaults.backend_timeout ∷ []))
  read_header ←
      optional k.duration Env.http_read_header_timeout (setting vars Env.http_read_header_timeout)
        Defaults.http_read_header_timeout
  port ← optional k.int Env.ssh_port (setting vars Env.ssh_port) Defaults.ssh_port
  connect_timeout ←
      optional k.duration Env.ssh_connect_timeout (setting vars Env.ssh_connect_timeout)
        Defaults.ssh_connect_timeout
  insecure ←
      optional k.bool Env.ssh_insecure_ignore_host_key
        (setting vars Env.ssh_insecure_ignore_host_key) Defaults.ssh_insecure_ignore_host_key
  authorize ←
      optional k.duration Env.session_authorize_timeout (authorize_setting vars)
        Defaults.session_authorize_timeout
  max_concurrent ←
      optional k.int Env.session_max_concurrent (setting vars Env.session_max_concurrent)
        Defaults.session_max_concurrent
  depth ←
      optional k.int Env.session_outbound_queue (setting vars Env.session_outbound_queue)
        Defaults.session_outbound_queue
  max_message ←
      optional k.int64 Env.websocket_max_message_bytes
        (setting vars Env.websocket_max_message_bytes) Defaults.websocket_max_message_bytes
  interval ←
      optional k.duration Env.websocket_keepalive_interval
        (setting vars Env.websocket_keepalive_interval) Defaults.websocket_keepalive_interval
  keepalive ←
      optional k.duration Env.websocket_keepalive_timeout
        (setting vars Env.websocket_keepalive_timeout) Defaults.websocket_keepalive_timeout
  level ← level_or_default (setting vars Env.log_level)
  ok (record {
    listen_address = setting vars Env.listen_address;
    read_header_timeout = read_header;
    base_url = setting vars Env.backend_base_url;
    validation_timeout = validation;
    level = level;
    ssh_private_key_path =
        first_non_empty (value_of vars Env.ssh_private_key_path ∷ Defaults.ssh_private_key ∷ []);
    ssh_public_key_path =
        first_non_empty (value_of vars Env.ssh_public_key_path ∷ Defaults.ssh_public_key ∷ []);
    username = first_non_empty (value_of vars Env.ssh_username ∷ Defaults.ssh_username ∷ []);
    port = port;
    connect_timeout = connect_timeout;
    insecure_ignore_host_key = insecure;
    authorize_timeout = authorize;
    max_concurrent = max_concurrent;
    outbound_queue_depth = depth;
    max_message_bytes = max_message;
    keepalive_interval = interval;
    keepalive_timeout = keepalive;
  })

unfoldable pub checked : Option ConfigError → Config → Result ResolveError Config
checked none c = ok c
checked (some e) c = err (invalid e)

-- `Resolve`
unfoldable pub resolve : Parsers → List (Bytes × Bytes) → Result ResolveError Config
resolve k vars = do c ← assemble k vars; checked (validate k.url c) c
