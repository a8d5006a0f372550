-- ===== src/Config/Usable.antt =====
-- The configurations that `Validate` accepts.
use rook_servicechannel_gate.Base.{
  ◌≡◌, ◌≢◌, ◌↔◌, refl, ◌⊎◌, false, not, ◌||◌, none, [], ◌∷◌, Result, ok, err, arith,
}
use rook_servicechannel_gate.Base.Int.{ℤ, pos, is_nonpos, leb_ℤ, ◌<ℤ◌, ◌≤ℤ◌}
use rook_servicechannel_gate.Base.Text.{Bytes, text, is_empty, bytes_eq_iff}
use rook_servicechannel_gate.Base.Text.Trim.{trim_space}
use rook_servicechannel_gate.Websocket.Errors.{Failure}
use rook_servicechannel_gate.Config.Types.{Config, Url}
use rook_servicechannel_gate.Config.Validate.{
  is_blank, is_http, validate_rest, validate_url, validate,
}

-- Every limit is positive, the port is one, the keepalive's deadline is later than its interval, and
-- the backend has a URL of HTTP with a host.
pub record IsUsable (parse_url : Bytes → Result Failure Url) (c : Config) : Type 0 where
  pub listen_address : trim_space c.listen_address ≢ []
  pub base_url : trim_space c.base_url ≢ []
  pub url : Url
  pub parsed : parse_url c.base_url ≡ ok url
  pub scheme : (url.scheme ≡ text "http") ⊎ (url.scheme ≡ text "https")
  pub host : url.host ≢ []
  pub validation : pos 0 <ℤ c.validation_timeout
  pub read_header : pos 0 <ℤ c.read_header_timeout
  pub private_key : trim_space c.ssh_private_key_path ≢ []
  pub public_key : trim_space c.ssh_public_key_path ≢ []
  pub username : trim_space c.username ≢ []
  pub port : (pos 0 <ℤ c.port) × (c.port ≤ℤ pos 65535)
  pub connect : pos 0 <ℤ c.connect_timeout
  pub authorize : pos 0 <ℤ c.authorize_timeout
  pub max_concurrent : pos 0 <ℤ c.max_concurrent
  pub queue : pos 0 <ℤ c.outbound_queue_depth
  pub max_message : pos 0 <ℤ c.max_message_bytes
  pub interval : pos 0 <ℤ c.keepalive_interval
  pub later : c.keepalive_interval <ℤ c.keepalive_timeout

positive : (i : ℤ) → is_nonpos i ≡ false → pos 0 <ℤ i
positive i h = ground arith

not_blank : (s : Bytes) → is_empty s ≡ false → s ≢ []
not_blank [] h = cc
not_blank (c ∷ s) h = λ e. cc

http_scheme : (s : Bytes) → not (is_http s) ≡ false → (s ≡ text "http") ⊎ (s ≡ text "https")
http_scheme s h = ground (arith, bytes_eq_iff s (text "http"), bytes_eq_iff s (text "https"))

-- What the checks behind that of the URL ask for.
abbrev Rest : Config → Type 0
Rest c =
    (is_nonpos c.validation_timeout ≡ false)
    × (is_nonpos c.read_header_timeout ≡ false)
    × (is_blank c.ssh_private_key_path ≡ false)
    × (is_blank c.ssh_public_key_path ≡ false)
    × (is_blank c.username ≡ false)
    × ((is_nonpos c.port || not (leb_ℤ c.port (pos 65535))) ≡ false)
    × (is_nonpos c.connect_timeout ≡ false)
    × (is_nonpos c.authorize_timeout ≡ false)
    × (is_nonpos c.max_concurrent ≡ false)
    × (is_nonpos c.outbound_queue_depth ≡ false)
    × (is_nonpos c.max_message_bytes ≡ false)
    × (is_nonpos c.keepalive_interval ≡ false)
    × (is_nonpos c.keepalive_timeout ≡ false)
    × (leb_ℤ c.keepalive_timeout c.keepalive_interval ≡ false)

validate_rest-Rest : (c : Config) → validate_rest c ≡ none → Rest c
unfolding validate_rest
validate_rest-Rest c h = ground arith

Rest-validate_rest : (c : Config) → Rest c → validate_rest c ≡ none
unfolding validate_rest
Rest-validate_rest c h = ground (arith, h)

validate_url-Rest :
    (answer : Result Failure Url) (c : Config)
    → validate_url answer c ≡ none
    → (u : Url) × (answer ≡ ok u)
      × (not (is_http u.scheme) ≡ false)
      × (is_empty u.host ≡ false)
      × Rest c
unfolding validate_url
validate_url-Rest (err e) c h = cc
validate_url-Rest (ok u) c h =
    (u, refl, ground arith, ground arith, validate_rest-Rest c (ground arith))

validate-IsUsable :
    (parse_url : Bytes → Result Failure Url) (c : Config)
    → validate parse_url c ≡ none
    → IsUsable parse_url c
unfolding validate
validate-IsUsable parse_url c h =
    let (u, parsed, scheme, host, (vt, rh, sk, pk, un, port, ct, at, mc, oq, mm, ki, kt, later)) =
      validate_url-Rest (parse_url c.base_url) c (ground arith) in
    record {
      listen_address = not_blank (trim_space c.listen_address) (ground arith);
      base_url = not_blank (trim_space c.base_url) (ground arith);
      url = u;
      parsed = parsed;
      scheme = http_scheme u.scheme scheme;
      host = not_blank u.host host;
      validation = positive c.validation_timeout vt;
      read_header = positive c.read_header_timeout rh;
      private_key = not_blank (trim_space c.ssh_private_key_path) sk;
      public_key = not_blank (trim_space c.ssh_public_key_path) pk;
      username = not_blank (trim_space c.username) un;
      port = ground arith;
      connect = positive c.connect_timeout ct;
      authorize = positive c.authorize_timeout at;
      max_concurrent = positive c.max_concurrent mc;
      queue = positive c.outbound_queue_depth oq;
      max_message = positive c.max_message_bytes mm;
      interval = positive c.keepalive_interval ki;
      later = ground arith;
    }

filled : (s : Bytes) → s ≢ [] → is_empty s ≡ false
filled [] h = absurd (h refl)
filled (c ∷ s) h = refl

not_nonpos : (i : ℤ) → pos 0 <ℤ i → is_nonpos i ≡ false
not_nonpos i h = ground arith

-- The scheme of HTTP passes.
scheme_passes : (s : Bytes) → (s ≡ text "http") ⊎ (s ≡ text "https") → not (is_http s) ≡ false
scheme_passes s h = ground (arith, bytes_eq_iff s (text "http"), bytes_eq_iff s (text "https"))

IsUsable-Rest :
    (parse_url : Bytes → Result Failure Url) (c : Config) → IsUsable parse_url c → Rest c
IsUsable-Rest parse_url c u = (
  not_nonpos c.validation_timeout u.validation,
  not_nonpos c.read_header_timeout u.read_header,
  filled (trim_space c.ssh_private_key_path) u.private_key,
  filled (trim_space c.ssh_public_key_path) u.public_key,
  filled (trim_space c.username) u.username,
  ground (arith, u.port),
  not_nonpos c.connect_timeout u.connect,
  not_nonpos c.authorize_timeout u.authorize,
  not_nonpos c.max_concurrent u.max_concurrent,
  not_nonpos c.outbound_queue_depth u.queue,
  not_nonpos c.max_message_bytes u.max_message,
  not_nonpos c.keepalive_interval u.interval,
  ground (arith, u.interval, u.later),
  ground (arith, u.later),
)

IsUsable-validate :
    (parse_url : Bytes → Result Failure Url) (c : Config)
    → IsUsable parse_url c
    → validate parse_url c ≡ none
unfolding validate validate_url
IsUsable-validate parse_url c u = ground (
  arith,
  filled (trim_space c.listen_address) u.listen_address,
  filled (trim_space c.base_url) u.base_url,
  u.parsed,
  scheme_passes u.url.scheme u.scheme,
  filled u.url.host u.host,
  Rest-validate_rest c (IsUsable-Rest parse_url c u),
)

-- `Validate` accepts exactly the usable configurations: with a URL of HTTP that has a host, positive
-- durations and limits, a port up to 65535, names and paths that are not blank, and a keepalive
-- deadline later than the interval.
pub validate-IsUsable_iff :
    (parse_url : Bytes → Result Failure Url) (c : Config)
    → (validate parse_url c ≡ none) ↔ IsUsable parse_url c
validate-IsUsable_iff parse_url c = (validate-IsUsable parse_url c, IsUsable-validate parse_url c)
