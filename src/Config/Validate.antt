-- ===== src/Config/Validate.antt =====
-- `Config.Validate` of internal/config/config.go, with `url.Parse` as a parameter.
use rook_servicechannel_gate.Base.{
  Bool, true, false, not, ◌||◌, Option, none, some, Result, ok, err,
}
use rook_servicechannel_gate.Base.Int.{pos, is_nonpos, leb_ℤ}
use rook_servicechannel_gate.Base.Text.{Bytes, text, bytes_eq, is_empty}
use rook_servicechannel_gate.Base.Text.Trim.{trim_space}
use rook_servicechannel_gate.Websocket.Errors.{Failure}
use rook_servicechannel_gate.Config.Types.{
  Config, Url, ConfigError, must_be_set, must_not_be_empty, must_be_positive, unparsed,
  must_use_http, must_include_host, must_be_a_port, must_exceed_interval, listen_address_of,
  read_header_timeout_of, base_url_of, validation_timeout_of, private_key_of, public_key_of,
  username_of, connect_timeout_of, authorize_timeout_of, max_concurrent_of, outbound_queue_of,
  max_message_bytes_of, keepalive_interval_of, keepalive_timeout_of,
}

-- `if bad { return e }`, with the checks behind it.
abbrev pub refuse_if : Bool → ConfigError → Option ConfigError → Option ConfigError
refuse_if true e rest = some e
refuse_if false e rest = rest

abbrev pub is_blank : Bytes → Bool
is_blank s = is_empty (trim_space s)

-- The checks behind that of the URL.
unfoldable pub validate_rest : Config → Option ConfigError
validate_rest c =
    refuse_if (is_nonpos c.validation_timeout) (must_be_positive validation_timeout_of) (
      refuse_if (is_nonpos c.read_header_timeout) (must_be_positive read_header_timeout_of) (
        refuse_if (is_blank c.ssh_private_key_path) (must_not_be_empty private_key_of) (
          refuse_if (is_blank c.ssh_public_key_path) (must_not_be_empty public_key_of) (
            refuse_if (is_blank c.username) (must_not_be_empty username_of) (
              refuse_if (is_nonpos c.port || not (leb_ℤ c.port (pos 65535))) must_be_a_port (
                refuse_if (is_nonpos c.connect_timeout) (must_be_positive connect_timeout_of) (
                  refuse_if (is_nonpos c.authorize_timeout) (must_be_positive authorize_timeout_of)
                    (refuse_if (is_nonpos c.max_concurrent) (must_be_positive max_concurrent_of) (
                      refuse_if (is_nonpos c.outbound_queue_depth)
                        (must_be_positive outbound_queue_of)
                        (refuse_if (is_nonpos c.max_message_bytes)
                          (must_be_positive max_message_bytes_of)
                          (refuse_if (is_nonpos c.keepalive_interval)
                            (must_be_positive keepalive_interval_of)
                            (refuse_if (is_nonpos c.keepalive_timeout)
                              (must_be_positive keepalive_timeout_of)
                              (refuse_if (leb_ℤ c.keepalive_timeout c.keepalive_interval)
                                must_exceed_interval none)))))))))))))

abbrev pub is_http : Bytes → Bool
is_http scheme = bytes_eq scheme (text "http") || bytes_eq scheme (text "https")

unfoldable pub validate_url : Result Failure Url → Config → Option ConfigError
validate_url (err e) c = some (unparsed e)
validate_url (ok u) c =
    refuse_if (not (is_http u.scheme)) must_use_http
      (refuse_if (is_empty u.host) must_include_host (validate_rest c))

-- `Validate`: the first error, or none.
unfoldable pub validate : (Bytes → Result Failure Url) → Config → Option ConfigError
validate parse_url c = refuse_if (is_blank c.listen_address) (must_be_set listen_address_of) (
    refuse_if (is_blank c.base_url) (must_be_set base_url_of)
      (validate_url (parse_url c.base_url) c))
