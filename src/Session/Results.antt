-- ===== src/Session/Results.antt =====
-- The constructors of `loopResult` in internal/session/manager.go.
use rook_servicechannel_gate.Base.{[]}
use rook_servicechannel_gate.Base.Text.{Bytes, text}
use rook_servicechannel_gate.Websocket.{ProtocolError}
use rook_servicechannel_gate.Session.Types.{
  client_close, browser_disconnect, protocol_violation, slow_client, server_shutdown,
  internal_error, console_closed, ssh_error, keepalive_timeout, reason_text, LoopResult,
  close_normal_closure, close_going_away, close_policy_violation, close_internal_server_err,
}

unfoldable pub protocol_violation_result : ProtocolError → LoopResult
protocol_violation_result e = record {
  reason = protocol_violation;
  close_code = close_policy_violation;
  close_reason = e.code;
  client_error_code = e.code;
  client_error_text = e.message;
  client_close_reason = reason_text protocol_violation;
}

unfoldable pub internal_error_result : Bytes → Bytes → LoopResult
internal_error_result code message = record {
  reason = internal_error;
  close_code = close_internal_server_err;
  close_reason = code;
  client_error_code = code;
  client_error_text = message;
  client_close_reason = reason_text internal_error;
}

unfoldable pub ssh_error_result : Bytes → Bytes → LoopResult
ssh_error_result code message = record {
  reason = ssh_error;
  close_code = close_internal_server_err;
  close_reason = code;
  client_error_code = code;
  client_error_text = message;
  client_close_reason = reason_text ssh_error;
}

unfoldable pub console_closed_result : LoopResult
console_closed_result = record {
  reason = console_closed;
  close_code = close_normal_closure;
  close_reason = reason_text console_closed;
  client_error_code = [];
  client_error_text = [];
  client_close_reason = reason_text console_closed;
}

unfoldable pub browser_disconnect_result : LoopResult
browser_disconnect_result = record {
  reason = browser_disconnect;
  close_code = close_normal_closure;
  close_reason = reason_text browser_disconnect;
  client_error_code = [];
  client_error_text = [];
  client_close_reason = [];
}

unfoldable pub server_shutdown_result : LoopResult
server_shutdown_result = record {
  reason = server_shutdown;
  close_code = close_going_away;
  close_reason = reason_text server_shutdown;
  client_error_code = [];
  client_error_text = [];
  client_close_reason = reason_text server_shutdown;
}

unfoldable pub client_close_result : Bytes → LoopResult
client_close_result reason = record {
  reason = client_close;
  close_code = close_normal_closure;
  close_reason = reason;
  client_error_code = [];
  client_error_text = [];
  client_close_reason = reason;
}

unfoldable pub keepalive_timeout_result : LoopResult
keepalive_timeout_result = record {
  reason = keepalive_timeout;
  close_code = close_going_away;
  close_reason = reason_text keepalive_timeout;
  client_error_code = [];
  client_error_text = [];
  client_close_reason = [];
}

-- What `outputLoop` returns when `Enqueue` fails: the browser is told nothing.
unfoldable pub exhausted_result : LoopResult
exhausted_result = record {
  reason = slow_client;
  close_code = close_policy_violation;
  close_reason = text "outbound_queue_exhausted";
  client_error_code = [];
  client_error_text = [];
  client_close_reason = [];
}
