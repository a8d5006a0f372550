-- ===== src/Websocket/Types.antt =====
-- internal/websocket/interfaces.go and the types of internal/websocket/protocol.go.
use rook_servicechannel_gate.Base.{Option}
use rook_servicechannel_gate.Base.Int.{ℤ}
use rook_servicechannel_gate.Base.Text.{Bytes, text}

pub data FrameType : Type 0 where
  text_frame binary_frame : FrameType

-- The Go fields `Type` and `Data`.
pub record Message : Type 0 where
  pub frame : FrameType
  pub payload : Bytes

pub data MessageType : Type 0 where
  authorize authorized input output resize error close : MessageType

unfoldable pub type_text : MessageType → Bytes
unfolding text
type_text authorize = text "authorize"
type_text authorized = text "authorized"
type_text input = text "input"
type_text output = text "output"
type_text resize = text "resize"
type_text error = text "error"
type_text close = text "close"

pub record ProtocolError : Type 0 where
  pub code : Bytes
  pub message : Bytes

-- `BinaryData` is `none` where the Go slice is nil.
pub record ClientMessage : Type 0 where
  pub type : MessageType
  pub token : Bytes
  pub input_text : Bytes
  pub binary_data : Option Bytes
  pub rows : ℤ
  pub columns : ℤ
  pub reason : Bytes
