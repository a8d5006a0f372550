-- ===== src/Lib.antt =====
-- The gateway between browser terminals and SSH, modelled from its Go sources.
--
-- A browser opens a WebSocket. `handleBrowserSocket` (internal/httpserver/server.go) reads its first
-- message, which has to be an `authorize` with a token; the grant client (internal/grants/client.go)
-- has the backend validate the token; the registry (internal/session/manager.go) then opens an SSH
-- session through the bridge (internal/sshbridge) and starts a session: four goroutines that pass
-- messages (internal/websocket/protocol.go) from the browser to the console and back, and the close
-- that the first of them to end brings about.
--
--   Base          names shared by all modules: tests on numbers, results, bytes, association lists
--   Json          the package encoding/json as far as the gateway uses it: the scanner, `Unmarshal`,
--                 a strict `Decoder`, `Marshal` of structs of strings, and Float (numbers out of range);
--                 not part of the repository;
--                 lemmas on reading back what is written (Runes, Lexical/Lexes, Encode/Scanned,
--                 Encode/Parsed), on the UTF-8 of all that is read (Encoded, Trimmed, Lexical/Passed,
--                 Parse/Texts) and on the fuel (Lexical/Rests, Parse/Shrinking, Parse/Fuel)
--   Audit         internal/audit/logger.go: the sink that writes events to the log
--   Grants        internal/grants/client.go: Types, Client (`ValidateToken`), Address and Sound (theorems)
--   Websocket     internal/websocket: Types, Errors (`ReadMessage`, `IsPeerClosed`), Protocol
--                 (`ParseClientMessage`, `decodeStrict`) with Protocol/Sound, Server (`NewServer...`),
--                 Conn (`Upgrader`, `GorillaConn`) with Conn/Deadlines and Conn/Closing; theorems in
--                 Protocol/Fuel, Protocol/Texts and Replies
--   Config        internal/config/config.go: Types, Env (the names of the settings), Defaults,
--                 Validate (`Config.Validate`), Resolve (`Resolve`), Load (`loadVars`, `loadFile`);
--                 theorems in Usable, Resolved and Precedence
--   Sshbridge     internal/sshbridge: Types, Client (`NewClient`, `Open`), Remote (the calls on
--                 `remoteSession`); theorems in Resources, Requests, Sizes and Closing
--   Session       one session of internal/session/manager.go: Types, Results (the constructors of
--                 `loopResult`), Log (`logStart`, `logEnd`), Audit, Close (`close`, `Enqueue`), Loops
--                 (one round of each loop, `readLoop`, `run`), Step (the session as a state machine);
--                 theorems in Invariant, Rounds, Ending, Forwarding, Verdicts, Reports, Kept, Due,
--                 Progress, Quiet, Delivery, Told, Records and Accounted
--   Registry      the registry of internal/session/manager.go: Types (`NewRegistry`, the limit), Ids
--                 (`newSessionID`), Start (`Start`), Step (all sessions together), Shutdown
--                 (`CloseAll`); theorems in Capacity, Links, Roster, Projected, Told,
--                 Shutdown/Visits, Shutdown/Drained, Start/Outcome, Start/Released and Start/Accepted
--   Server        internal/httpserver/server.go: Mux (the handlers of `NewHandler` up to the upgrade),
--                 Upgrade (theorems, with Upgrade/Parts), Socket (`handleBrowserSocket` and its helpers), with
--                 Socket/Authorized, Socket/Served and Socket/Closing; Serve (`newSessionRegistry`,
--                 `ListenAndServe`) with Configured and Told
--   Gateway       cmd/gateway/main.go: `run` and `main`; theorems in Starting, Stopping and
--                 Vouched
--
-- State. A Go string or byte slice is a list of bytes, each a number. A session is a record with its
-- fields, its channels, the goroutines that still run, and what it has done so far: calls on the
-- browser connection and on the console, log lines and audit events, calls of the clean-up hook. An
-- event of a session is one round of one loop together with the answers of the connection, the
-- console and the clock, or one part of the body of `closeOnce`: the parts between which other
-- goroutines can run (`begin_close`, `disconnect`, `unregister`, `finish`). A history is a list of
-- events in any order. An event of a goroutine that does not run changes nothing. The registry keeps
-- its sessions in a store, since goroutines hold pointers to them; its history interleaves the
-- locked parts of starts with events of any of its sessions; `logStart`, the audit event of the
-- start and each initial message are such events, so that a close can come before any of them.
-- `Start` as one function takes what other goroutines do while the bridge opens as the parameter
-- `meanwhile`, and runs its other parts without interruption. `CloseAll` takes what they do around
-- each of its calls of `close` as the parameter `around`.
--
-- Parameters. The package net/http is a record of two functions (`Http`), `url.Parse` and the
-- parsers of settings are functions, the environment and the opening of a file with the lines of
-- its scanner are too, a failure of a package outside the repository is a record of what the
-- gateway asks of it (`Failure`: `errors.Is`, `errors.As`, `Timeout`), and the random bytes and the
-- clock are arguments. Identifiers are random in the source; a theorem that needs them to differ
-- has this as the hypothesis `HasFreshIds`.
--
-- Fuel. The JSON scanner runs on fuel of three times the length of the text and three more, where
-- each byte of a text takes at most three calls; it refuses values nested deeper than 10000, as the
-- Go package does. Every other function is structural.
--
-- Not modelled: the routing of requests and the upgrade itself (net/http and gorilla/websocket), the
-- signal handling of internal/shutdown, the log lines on single events (failures of a loop, rejected
-- starts, the shutdown of the server), and the filter of levels that `newLogger` gives to log/slog.
-- The calls on golang.org/x/crypto/ssh and on gorilla/websocket are recorded with what they answer.
-- The waiting of a goroutine is not expressed: theorems about histories speak of every history, and
-- one that says that something happens asks for the steps that it needs.
pub mod Audit
pub mod Base
pub mod Config
pub mod Gateway
pub mod Grants
pub mod Json
pub mod Registry
pub mod Server
pub mod Session
pub mod Sshbridge
pub mod Websocket
