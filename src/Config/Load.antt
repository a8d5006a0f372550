-- ===== src/Config/Load.antt =====
-- `loadVars`, `loadFile` and `trimQuotes` of internal/config/config.go. The environment, the opening of
-- a file and the scanner that yields its lines are parameters.
use rook_servicechannel_gate.Config.Env
use rook_servicechannel_gate.Base.{
  ℕ, suc, ◌||◌, Option, none, some, List, [], ◌∷◌, ◌==◌, Result, ok, err, ◌>>=◌, if◌then◌else◌,
}
use rook_servicechannel_gate.Base.Text.{Bytes, text, is_empty, has_prefix, cut}
use rook_servicechannel_gate.Base.Text.Trim.{trim_space}
use rook_servicechannel_gate.Base.Dict.{put, merge}
use rook_servicechannel_gate.Websocket.Errors.{Failure}

-- The lines that `bufio.Scanner` yields, and the error with which it stops.
pub record Scanned : Type 0 where
  pub lines : List Bytes
  pub failure : Option Failure

pub data LoadError : Type 0 where
  unopened unread : Failure → LoadError
  not_a_pair : ℕ → LoadError

-- The text before a last byte `q`.
unfoldable pub without_last : ℕ → Bytes → Option Bytes
without_last q [] = none
without_last q (c ∷ []) = if c == q then some [] else none
without_last q (c ∷ d ∷ s) =
    let rest = without_last q (d ∷ s) in elim rest [ none ↦ none | some t ↦ some (c ∷ t) ]

-- The text between two bytes `q`.
unfoldable pub quoted : ℕ → Bytes → Option Bytes
quoted q [] = none
quoted q (c ∷ s) = let rest = without_last q s in if c == q then rest else none

unfoldable pub trim_quotes : Bytes → Bytes
trim_quotes v = elim (quoted b'"' v) [
  | some s ↦ s
  | none ↦ (elim (quoted 39 v) [ some s ↦ s | none ↦ v ])
]

-- One line with its number.
unfoldable pub load_line :
    ℕ → Bytes → List (Bytes × Bytes) → Result LoadError (List (Bytes × Bytes))
load_line number line vars =
    let trimmed = trim_space line in
    if is_empty trimmed || has_prefix trimmed (text "#")
    then ok vars
    else (elim (cut b'=' trimmed) [
      | none ↦ err (not_a_pair number)
      | some (key, value) ↦ ok (put (trim_space key) (trim_quotes (trim_space value)) vars)
    ])

unfoldable pub load_lines :
    ℕ → List Bytes → List (Bytes × Bytes) → Result LoadError (List (Bytes × Bytes))
load_lines number [] vars = ok vars
load_lines number (line ∷ lines) vars =
    load_line number line vars >>= (λ next. load_lines (suc number) lines next)

unfoldable pub scanned :
    Option Failure → List (Bytes × Bytes) → Result LoadError (List (Bytes × Bytes))
scanned none vars = ok vars
scanned (some e) vars = err (unread e)

unfoldable pub load_file : Result Failure Scanned → Result LoadError (List (Bytes × Bytes))
load_file (err e) = err (unopened e)
load_file (ok f) = load_lines 1 f.lines [] >>= (λ vars. scanned f.failure vars)

unfoldable pub known_keys : List Bytes
known_keys =
    Env.config_file ∷ Env.listen_address ∷ Env.http_read_header_timeout ∷ Env.backend_base_url
    ∷ Env.backend_timeout ∷ Env.log_level ∷ Env.ssh_private_key_path ∷ Env.ssh_public_key_path
    ∷ Env.ssh_username ∷ Env.ssh_port ∷ Env.ssh_connect_timeout ∷ Env.ssh_insecure_ignore_host_key
    ∷ Env.session_authorize_timeout ∷ Env.session_idle_timeout ∷ Env.session_max_concurrent
    ∷ Env.session_outbound_queue ∷ Env.websocket_max_message_bytes
    ∷ Env.websocket_keepalive_interval ∷ Env.websocket_keepalive_timeout ∷ []

abbrev pub put_found : Bytes → Option Bytes → List (Bytes × Bytes) → List (Bytes × Bytes)
put_found key none vars = vars
put_found key (some v) vars = put key v vars

-- The environment's values over those of the file.
unfoldable pub overlay :
    (Bytes → Option Bytes) → List Bytes → List (Bytes × Bytes) → List (Bytes × Bytes)
overlay env [] vars = vars
overlay env (key ∷ keys) vars = overlay env keys (put_found key (env key) vars)

-- The settings of the configuration file, if one is named.
unfoldable pub file_vars :
    (Bytes → Result Failure Scanned) → Option Bytes → Result LoadError (List (Bytes × Bytes))
file_vars open_file none = ok []
file_vars open_file (some path) =
    if is_empty (trim_space path) then ok [] else load_file (open_file path)

unfoldable pub load_vars :
    (Bytes → Option Bytes)
    → (Bytes → Result Failure Scanned)
    → Result LoadError (List (Bytes × Bytes))
load_vars env open_file =
    file_vars open_file (env Env.config_file)
    >>= (λ found. ok (overlay env known_keys (merge [] found)))
