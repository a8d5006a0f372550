-- ===== src/Session/Forwarding.antt =====
-- What `readLoop` passes on to the console.
use rook_servicechannel_gate.Base.{
  ℕ, ◌≡◌, refl, Bool, true, false, Option, none, some, List, [], ◌∷◌, ◌++◌, Result, ok, err, arith,
  if◌then◌else◌,
}
use rook_servicechannel_gate.Base.Text.{Bytes, is_empty}
use rook_servicechannel_gate.Websocket.{
  Message, FrameType, text_frame, binary_frame, ClientMessage, MessageType, ProtocolError,
}
use rook_servicechannel_gate.Websocket.Errors.{Failure}
use rook_servicechannel_gate.Websocket
use rook_servicechannel_gate.Websocket.Protocol.{parse_client_message}
use rook_servicechannel_gate.Session.Types.{
  ConsoleCall, write_console, resize_console, Session, LoopResult,
}
use rook_servicechannel_gate.Session.Loops.{
  touch, handle_message, handle_parsed, read_round, ReadInput, read_loop,
}

-- The types of message that are meant for the terminal.
abbrev pub is_terminal : MessageType → Bool
is_terminal Websocket.input = true
is_terminal Websocket.resize = true
is_terminal _ = false

-- The bytes of an input: the payload of a binary frame, and the text of the message in a text frame.
abbrev pub sent : FrameType → Bytes → ClientMessage → Bytes
sent binary_frame payload c = payload
sent text_frame payload c = c.input_text

abbrev pub call_for : MessageType → Message → ClientMessage → List ConsoleCall
call_for Websocket.input m c =
    if is_empty (sent m.frame m.payload c)
    then []
    else write_console (sent m.frame m.payload c) ∷ []
call_for Websocket.resize m c = resize_console c.rows c.columns ∷ []
call_for _ m c = []

-- The calls that the messages stand for, in their order.
abbrev pub calls_for : List Message → List ClientMessage → List ConsoleCall
calls_for (m ∷ ms) (c ∷ cs) = call_for c.type m c ++ calls_for ms cs
calls_for _ _ = []

-- The inputs are these messages, which are parsed to these terminal messages, and the console accepts
-- each call.
abbrev pub Carries : List ReadInput → List Message → List ClientMessage → Type 0
Carries [] [] [] = Unit
Carries (i ∷ is) (m ∷ ms) (c ∷ cs) =
    (i.message ≡ ok m)
    × (parse_client_message m ≡ ok c)
    × (is_terminal c.type ≡ true)
    × (i.reply ≡ none)
    × Carries is ms cs
Carries _ _ _ = ⊥

abbrev Refused : Result ProtocolError ClientMessage → Type 0
Refused (ok c) = is_terminal c.type ≡ false
Refused (err e) = Unit

-- An error of the connection, a message that the parser refuses, or one that is not meant for the
-- terminal.
abbrev pub IsRefused : Result Failure Message → Type 0
IsRefused (ok m) = Refused (parse_client_message m)
IsRefused (err e) = Unit

-- The session keeps its console calls, and the loop has a result.
abbrev Stops : Session → Session × Option LoopResult → Type 0
Stops s p = (p.0.console_calls ≡ s.console_calls) × ((r : LoopResult) × (p.1 ≡ some r))

handle_message-refuses :
    (t : MessageType) (m : ClientMessage) (reply : Option Failure) (s : Session)
    → is_terminal t ≡ false
    → Stops s (handle_message t m reply s)
unfolding handle_message
handle_message-refuses Websocket.authorize m reply s h = (refl, (_, refl))
handle_message-refuses Websocket.input m reply s h = cc
handle_message-refuses Websocket.resize m reply s h = cc
handle_message-refuses _ m reply s h = (refl, (_, refl))

handle_parsed-refuses :
    (p : Result ProtocolError ClientMessage) (reply : Option Failure) (s : Session)
    → Refused p
    → Stops s (handle_parsed p reply s)
unfolding handle_parsed
handle_parsed-refuses (ok c) reply s h = handle_message-refuses c.type c reply s h
handle_parsed-refuses (err e) reply s h = (refl, (_, refl))

read_round-refuses :
    (now : ℕ) (m : Result Failure Message) (reply : Option Failure) (s : Session)
    → IsRefused m
    → Stops s (read_round now m reply s)
unfolding read_round touch
read_round-refuses now (err e) reply s h = (refl, (_, refl))
read_round-refuses now (ok m) reply s h =
    handle_parsed-refuses (parse_client_message m) reply (touch now s) h

-- Any other input ends the loop, whatever comes behind it, and the console is not called: an error of
-- the connection, a message that the parser refuses, and an `authorize` or a `close`.
pub read_loop-refuses :
    (i : ReadInput) (is : List ReadInput) (s : Session)
    → IsRefused i.message
    → ((read_loop (i ∷ is) s).0.console_calls ≡ s.console_calls)
      × ((r : LoopResult) × ((read_loop (i ∷ is) s).1 ≡ some r))
unfolding read_loop
read_loop-refuses i is s h =
    let (same, (r, e)) = read_round-refuses i.now i.message i.reply s h in
    (ground arith, (r, ground arith))
