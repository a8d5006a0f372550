-- ===== src/Websocket/Errors.antt =====
-- A Go error, as the observations that the gateway makes of it by `errors.Is`, `errors.As` and
-- `Error()`; and the classification of internal/websocket/conn.go.
use rook_servicechannel_gate.Base.{
  ℕ, Bool, false, ◌||◌, Option, none, some, ◌==◌, Result, ok, err, if◌then◌else◌,
}
use rook_servicechannel_gate.Base.Text.{Bytes, text}
use rook_servicechannel_gate.Websocket.Types.{Message, text_frame, binary_frame, ProtocolError}

-- `timeout` is `Timeout()` of a `net.Error`; `close_code` the code of a `websocket.CloseError`.
pub record Failure : Type 0 where
  pub canceled : Bool
  pub deadline_exceeded : Bool
  pub timeout : Bool
  pub close_code : Option ℕ
  pub close_sent : Bool
  pub read_limit : Bool
  pub eof : Bool
  pub protocol : Option ProtocolError
  pub message : Bytes

-- Close code 1000, 1001, 1005 or 1006.
abbrev is_regular_close : Option ℕ → Bool
is_regular_close none = false
is_regular_close (some c) = c == 1000 || c == 1001 || c == 1005 || c == 1006

unfoldable pub is_peer_closed : Failure → Bool
is_peer_closed e = is_regular_close e.close_code || e.close_sent

-- A `*ProtocolError` as an error: it is none of the others.
unfoldable pub protocol_failure : ProtocolError → Failure
protocol_failure p = record {
  canceled = false;
  deadline_exceeded = false;
  timeout = false;
  close_code = none;
  close_sent = false;
  read_limit = false;
  eof = false;
  protocol = some p;
  message = p.message;
}

-- gorilla's frame types, 1 for text and 2 for binary.
message_of : ℕ → Bytes → Result Failure Message
unfolding protocol_failure
message_of kind payload =
    if kind == 1
    then ok (record { frame = text_frame; payload = payload })
    else if kind == 2
    then ok (record { frame = binary_frame; payload = payload })
    else err (
        protocol_failure (record {
          code = text "unsupported_frame";
          message = text "unsupported websocket frame type";
        }))

abbrev pub message_too_large : ProtocolError
message_too_large = record {
  code = text "message_too_large";
  message = text "websocket message exceeded configured size limit";
}

-- What `ReadMessage` reports of a failed read, where `expired` is `ctx.Err()` after the read.
read_failure : Failure → Option Failure → Failure
unfolding protocol_failure
read_failure e expired =
    if e.read_limit
    then protocol_failure message_too_large
    else (elim expired [ none ↦ e | some c ↦ (if e.timeout then c else e) ])

-- `GorillaConn.ReadMessage`: `before` is `ctx.Err()` at the call, `deadline` what setting the read
-- deadline answers, `raw` the frame that the library reads, `after` is `ctx.Err()` afterwards.
unfoldable pub read_message :
    Option Failure
    → Option Failure
    → Result Failure (ℕ × Bytes)
    → Option Failure
    → Result Failure Message
unfolding message_of read_failure
read_message (some e) deadline raw after = err e
read_message none (some e) raw after = err e
read_message none none (ok (kind, payload)) after = message_of kind payload
read_message none none (err e) after = err (read_failure e after)
