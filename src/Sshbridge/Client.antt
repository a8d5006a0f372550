-- ===== src/Sshbridge/Client.antt =====
-- internal/sshbridge/client.go: the connection to a console, and its end. The packages `os`, `net` and
-- golang.org/x/crypto/ssh are seen through what they answer to each call.
use rook_servicechannel_gate.Base.{
  Bool, Option, none, some, List, [], ◌∷◌, Result, ok, err, if◌then◌else◌,
}
use rook_servicechannel_gate.Base.Int.{ℤ, pos, is_nonpos}
use rook_servicechannel_gate.Base.Text.{Bytes, text, is_empty}
use rook_servicechannel_gate.Websocket.Errors.{Failure}
use rook_servicechannel_gate.Config.Types.{Config, Url, ConfigError}
use rook_servicechannel_gate.Config.Validate.{validate}
use rook_servicechannel_gate.Sshbridge.Types.{SessionRequest}

-- `Client`
pub record Client : Type 0 where
  pub username : Bytes
  pub port : ℤ
  pub connect_timeout : ℤ
  pub private_key_path : Bytes
  pub insecure_ignore_host_key : Bool

unfoldable pub client_for : Config → Client
client_for c = record {
  username = c.username;
  port = c.port;
  connect_timeout = c.connect_timeout;
  private_key_path = c.ssh_private_key_path;
  insecure_ignore_host_key = c.insecure_ignore_host_key;
}

unfoldable pub unless_invalid : Option ConfigError → Config → Result ConfigError Client
unfolding client_for
unless_invalid none c = ok (client_for c)
unless_invalid (some e) c = err e

-- `NewClient`
unfoldable pub new_client : (Bytes → Result Failure Url) → Config → Result ConfigError Client
new_client parse_url c = unless_invalid (validate parse_url c) c

-- What has to be closed: the TCP connection, the SSH client that takes it over, the session and the
-- pipe to its standard input.
pub data Handle : Type 0 where
  net_conn ssh_client ssh_session stdin_pipe : Handle

-- The calls that can fail. `dials` has the arguments of `net.JoinHostPort`.
pub data SshCall : Type 0 where
  reads_key : Bytes → SshCall
  parses_key : Bytes → SshCall
  dials : Bytes → ℤ → SshCall
  shakes_hands : Bytes → SshCall
  opens_session opens_stdin starts_shell : SshCall
  requests_pty : Bytes → ℤ → ℤ → SshCall

pub data SshEvent : Type 0 where
  succeeds fails : SshCall → SshEvent
  closes : Handle → SshEvent
  sets_env : Bytes → Bytes → SshEvent

pub data OpenError : Type 0 where
  no_host_key_check : OpenError
  failed_call : SshCall → Failure → OpenError

-- The answers to the calls.
pub record SshAnswers : Type 0 where
  pub key : Bytes → Result Failure Bytes
  pub parse_key : Bytes → Option Failure
  pub dial : Option Failure
  pub handshake : Option Failure
  pub session : Option Failure
  pub stdin : Option Failure
  pub pty : Option Failure
  pub shell : Option Failure

-- `error` is `none` where `Open` returns a session.
pub record Opened : Type 0 where
  pub events : List SshEvent
  pub error : Option OpenError

-- A call with its answer, what is closed if it fails, and what follows if it does not.
abbrev pub attempt : SshCall → Option Failure → List SshEvent → Opened → Opened
attempt call none clean_up rest = record {
  events = succeeds call ∷ rest.events;
  error = rest.error;
}
attempt call (some e) clean_up rest = record {
  events = fails call ∷ clean_up;
  error = some (failed_call call e);
}

abbrev default_term : Bytes
default_term = text "xterm-256color"

abbrev default_rows : ℤ
default_rows = pos 24

abbrev default_columns : ℤ
default_columns = pos 80

abbrev pub or_text : Bytes → Bytes → Bytes
or_text given default = if is_empty given then default else given

abbrev pub or_size : ℤ → ℤ → ℤ
or_size given default = if is_nonpos given then default else given

-- The request with its defaults, and with the account that signs in.
unfoldable pub with_defaults : Client → SessionRequest → SessionRequest
unfolding text
with_defaults c q = record {
  ip_address = q.ip_address;
  account = or_text q.account c.username;
  term = or_text q.term default_term;
  rows = or_size q.rows default_rows;
  columns = or_size q.columns default_columns;
}

-- From the request of a terminal on.
unfoldable pub start_terminal : SshAnswers → SessionRequest → Opened
start_terminal k q =
    let clean_up = closes stdin_pipe ∷ closes ssh_session ∷ closes ssh_client ∷ [] in
    let shell = attempt starts_shell k.shell clean_up (record { events = []; error = none }) in
    attempt (requests_pty q.term q.rows q.columns) k.pty clean_up shell

abbrev pub after_env : Opened → Opened
after_env o = record o {
  events =
      sets_env (text "LANG") (text "C.UTF-8")
      ∷ sets_env (text "LC_ALL") (text "C.UTF-8")
      ∷ o.events;
}

-- From the dialling on.
unfoldable pub connect : SshAnswers → Client → SessionRequest → Opened
unfolding start_terminal
connect k c q = attempt (dials q.ip_address c.port) k.dial [] (
    attempt (shakes_hands q.account) k.handshake (closes net_conn ∷ []) (
      attempt opens_session k.session (closes ssh_client ∷ []) (
        attempt opens_stdin k.stdin (closes ssh_session ∷ closes ssh_client ∷ [])
          (after_env (start_terminal k q)))))

unfoldable pub with_key : SshAnswers → Client → SessionRequest → Result Failure Bytes → Opened
unfolding connect with_defaults
with_key k c q (err e) =
    attempt (reads_key c.private_key_path) (some e) [] (record { events = []; error = none })
with_key k c q (ok key) =
    attempt (reads_key c.private_key_path) none []
      (attempt (parses_key key) (k.parse_key key) [] (connect k c (with_defaults c q)))

-- The error of `hostKeyCallback`.
abbrev pub host_key_callback : Client → Option OpenError
host_key_callback c = if c.insecure_ignore_host_key then none else some no_host_key_check

abbrev pub unless_refused : Option OpenError → Opened → Opened
unless_refused none o = o
unless_refused (some e) o = record { events = []; error = some e }

-- `Open`
unfoldable pub open_session : SshAnswers → Client → SessionRequest → Opened
unfolding with_key
open_session k c q =
    unless_refused (host_key_callback c) (with_key k c q (k.key c.private_key_path))
