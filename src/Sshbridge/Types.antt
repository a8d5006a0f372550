-- ===== src/Sshbridge/Types.antt =====
-- internal/sshbridge/interfaces.go. A `Session` of the bridge is seen through the calls on it.
use rook_servicechannel_gate.Base.Int.{ℤ}
use rook_servicechannel_gate.Base.Text.{Bytes}

pub record SessionRequest : Type 0 where
  pub ip_address : Bytes
  pub account : Bytes
  pub term : Bytes
  pub rows : ℤ
  pub columns : ℤ
