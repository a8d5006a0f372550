-- ===== src/Config/Tests.antt =====
-- The configuration of internal/config/config.go at the default settings and from a file.
use rook_servicechannel_gate.Base.{
  List, Option, if◌then◌else◌, [], ◌∷◌, ◌≡◌, ◌↔◌, refl, true, none, some, Result, ok,
}
use rook_servicechannel_gate.Base.Int.{pos}
use rook_servicechannel_gate.Base.Text.{Bytes, text, bytes_eq, cut, has_prefix}
use rook_servicechannel_gate.Base.Text.Trim.{trim_space}
use rook_servicechannel_gate.Websocket.Errors.{Failure}
use rook_servicechannel_gate.Config.Types.{Config, Url, info, warn, must_exceed_interval}
use rook_servicechannel_gate.Config.Validate.{validate, validate_url, validate_rest}
use rook_servicechannel_gate.Base.Dict.{lookup, put, merge}
use rook_servicechannel_gate.Config.Resolve.{
  Parsers, resolve, assemble, checked, first_non_empty, value_of, authorize_setting,
  parse_log_level, to_lower,
}
use rook_servicechannel_gate.Config.Resolved.{resolve-IsUsable}
use rook_servicechannel_gate.Config.Load.{
  Scanned, load_vars, load_file, load_lines, load_line, scanned, trim_quotes, quoted, without_last,
  overlay, file_vars, known_keys,
}
use rook_servicechannel_gate.Config.Precedence.{contains, preferred, load_vars-lookup}
use rook_servicechannel_gate.Config.Usable.{IsUsable, validate-IsUsable_iff}

abbrev pub as_http : Bytes → Result Failure Url
as_http s = ok (record { scheme = text "http"; host = s })

abbrev pub defaults : Config
defaults = record {
  listen_address = text ":8080";
  read_header_timeout = pos 5000000000;
  base_url = text "http://backend";
  validation_timeout = pos 5000000000;
  level = info;
  ssh_private_key_path = text "secrets/gateway_ssh_ed25519";
  ssh_public_key_path = text "secrets/gateway_ssh_ed25519.pub";
  username = text "pi";
  port = pos 22;
  connect_timeout = pos 5000000000;
  insecure_ignore_host_key = true;
  authorize_timeout = pos 120000000000;
  max_concurrent = pos 32;
  outbound_queue_depth = pos 16;
  max_message_bytes = pos 65536;
  keepalive_interval = pos 30000000000;
  keepalive_timeout = pos 75000000000;
}

pub defaults_test : validate as_http defaults ≡ none
unfolding validate validate_url validate_rest text bytes_eq trim_space
defaults_test = refl

short_deadline_test :
    validate as_http (record defaults { keepalive_timeout = pos 30000000000 })
    ≡ some must_exceed_interval
unfolding validate validate_url validate_rest text bytes_eq trim_space
short_deadline_test = refl

validate-IsUsable_iff_example : (validate as_http defaults ≡ none) ↔ IsUsable as_http defaults
validate-IsUsable_iff_example = validate-IsUsable_iff as_http defaults

abbrev pub parsers : Parsers
parsers = record {
  duration = λ s. ok (pos 5000000000);
  int = λ s. ok (pos 7);
  int64 = λ s. ok (pos 65536);
  bool = λ s. ok true;
  url = as_http;
}

-- The two settings that have no default, and one more.
abbrev few_settings : List (Bytes × Bytes)
few_settings =
    (text "GATEWAY_LISTEN_ADDRESS", text " :8080 ")
    ∷ (text "GATEWAY_BACKEND_BASE_URL", text "http://backend")
    ∷ (text "GATEWAY_SESSION_MAX_CONCURRENT", text "7")
    ∷ []

resolve_test : resolve parsers few_settings ≡ ok (record defaults { max_concurrent = pos 7 })
unfolding resolve assemble checked first_non_empty value_of authorize_setting lookup validate
    validate_url validate_rest text bytes_eq trim_space
resolve_test = refl

resolve-IsUsable_example : IsUsable as_http (record defaults { max_concurrent = pos 7 })
resolve-IsUsable_example =
    resolve-IsUsable parsers few_settings (record defaults { max_concurrent = pos 7 }) resolve_test

parse_log_level_test : parse_log_level (text " Warning ") ≡ ok warn
unfolding parse_log_level to_lower text bytes_eq trim_space
parse_log_level_test = refl

-- The environment names a file and sets the port; the file sets the port and the user.
abbrev environment : Bytes → Option Bytes
environment key =
    if bytes_eq key (text "GATEWAY_CONFIG_FILE")
    then some (text "gateway.env")
    else if bytes_eq key (text "GATEWAY_SSH_PORT")
    then some (text "2222")
    else none

abbrev env_file : Bytes → Result Failure Scanned
env_file path = ok (record {
  lines = text "# ssh" ∷ text "GATEWAY_SSH_PORT=22" ∷ text "GATEWAY_SSH_USERNAME = \"pi\" " ∷ [];
  failure = none;
})

abbrev loaded : List (Bytes × Bytes)
loaded =
    (text "GATEWAY_SSH_PORT", text "2222")
    ∷ (text "GATEWAY_SSH_USERNAME", text "pi")
    ∷ (text "GATEWAY_CONFIG_FILE", text "gateway.env")
    ∷ []

load_vars_test : load_vars environment env_file ≡ ok loaded
unfolding load_vars load_file load_lines load_line scanned trim_quotes quoted without_last overlay
    file_vars known_keys put merge cut has_prefix text bytes_eq trim_space
load_vars_test = refl

load_vars-lookup_example :
    (found : List (Bytes × Bytes)) × (file_vars env_file (environment (text "GATEWAY_CONFIG_FILE"))
      ≡ ok found)
    × (lookup (text "GATEWAY_SSH_PORT") loaded ≡ (
        if contains known_keys (text "GATEWAY_SSH_PORT")
        then preferred
            (environment (text "GATEWAY_SSH_PORT"))
            (lookup (text "GATEWAY_SSH_PORT") (merge [] found))
        else lookup (text "GATEWAY_SSH_PORT") (merge [] found)))
load_vars-lookup_example =
    load_vars-lookup environment env_file loaded (text "GATEWAY_SSH_PORT") load_vars_test
