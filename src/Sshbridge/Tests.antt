-- ===== src/Sshbridge/Tests.antt =====
-- The SSH bridge of internal/sshbridge/client.go on concrete requests.
use rook_servicechannel_gate.Base.{List, ◌≡◌, refl, true, false, none, some, [], ◌∷◌, ok, All, ◌⊎◌}
use rook_servicechannel_gate.Base.Int.{pos}
use rook_servicechannel_gate.Base.Text.{text, bytes_eq}
use rook_servicechannel_gate.Json.Decode.{as_string, as_int}
use rook_servicechannel_gate.Websocket.{Message, text_frame, ClientMessage}
use rook_servicechannel_gate.Websocket
use rook_servicechannel_gate.Websocket.Errors.{Failure}
use rook_servicechannel_gate.Websocket.Protocol.{parse_client_message, client_message}
use rook_servicechannel_gate.Sshbridge.Types.{SessionRequest}
use rook_servicechannel_gate.Sshbridge.Client.{
  Client, SshAnswers, OpenError, open_session, stdin_pipe, ssh_session, ssh_client,
}
use rook_servicechannel_gate.Sshbridge.Remote.{changes_window, resize, close_remote}
use rook_servicechannel_gate.Sshbridge.Resources.{left_open, open_session-Releases}
use rook_servicechannel_gate.Sshbridge.Requests.{ServesEvent, open_session-Serves}
use rook_servicechannel_gate.Sshbridge.Sizes.{resize-parse_client_message}
use rook_servicechannel_gate.Sshbridge.Closing.{
  RemoteEvent, writes, resizes, closes, remote_run, fresh, closings, each, remote_run-closes_once,
}

abbrev refused : Failure
refused = record {
  canceled = false;
  deadline_exceeded = false;
  timeout = false;
  close_code = none;
  close_sent = false;
  read_limit = false;
  eof = false;
  protocol = none;
  message = text "refused";
}

-- The server grants no terminal.
abbrev answers : SshAnswers
answers = record {
  key = λ path. ok (text "key");
  parse_key = λ key. none;
  dial = none;
  handshake = none;
  session = none;
  stdin = none;
  pty = some refused;
  shell = none;
}

abbrev client : Client
client = record {
  username = text "pi";
  port = pos 22;
  connect_timeout = pos 5000000000;
  private_key_path = text "secrets/gateway_ssh_ed25519";
  insecure_ignore_host_key = true;
}

abbrev request : SessionRequest
request = record {
  ip_address = text "192.0.2.7";
  account = [];
  term = [];
  rows = pos 0;
  columns = pos 120;
}

open_session-Releases_example :
    let o = open_session answers client request in
    ((e : OpenError) × (o.error ≡ some e) × (left_open o.events [] ≡ []))
    ⊎ ((o.error ≡ none) × (left_open o.events [] ≡ stdin_pipe ∷ ssh_session ∷ ssh_client ∷ []))
open_session-Releases_example = open_session-Releases answers client request

open_session-Serves_example :
    ((client.insecure_ignore_host_key ≡ true) ⊎ ((open_session answers client request).events ≡ []))
    × All (ServesEvent client request) (open_session answers client request).events
open_session-Serves_example = open_session-Serves answers client request

abbrev resize_message : Message
resize_message = record {
  frame = text_frame;
  payload = text "{\"type\":\"resize\",\"rows\":40,\"columns\":120}";
}

abbrev resized : ClientMessage
resized = record (client_message Websocket.resize) { rows = pos 40; columns = pos 120 }

resize_message-parses : parse_client_message resize_message ≡ ok resized
unfolding parse_client_message text bytes_eq as_string as_int
resize_message-parses = refl

resize-parse_client_message_example :
    resize (pos 40) (pos 120) none fresh
    ≡ (record { is_closed = false; calls = changes_window (pos 40) (pos 120) ∷ [] }, none)
resize-parse_client_message_example =
    resize-parse_client_message resize_message resized none fresh resize_message-parses refl

abbrev calls_made : List RemoteEvent
calls_made =
    writes (text "ls") none
    ∷ closes none (some refused)
    ∷ resizes (pos 40) (pos 120) none
    ∷ closes (some refused) none
    ∷ []

remote_run-closes_once_example :
    let s = remote_run calls_made fresh in
    (closings s.calls ≡ each 1) × ((close_remote none (some refused) s).1 ≡ none)
remote_run-closes_once_example = remote_run-closes_once calls_made none (some refused)
