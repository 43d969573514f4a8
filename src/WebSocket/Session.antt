-- ===== src/WebSocket/Session.antt =====
-- The connection of src/main/pa_websocket.C: its state, and the operations that receive, send and
-- close. The socket is a list of what poll and recv will answer, and of the sends that will fail;
-- what is sent is kept in order. A method returns or throws, with the new state in either case.
pub mod Receive
pub mod Close
pub mod Fill
use Prim.Native.Nat.{max}
use parser.Prelude.{
  ℕ, zero, suc, ◌+◌, ◌-◌, ◌*◌, ◌/◌, ◌%◌, bit_or, Bool, true, false, not, ◌&&◌, ◌||◌, Option, none,
  some, List, [], ◌∷◌, ◌++◌, ltb, leb, ◌==◌, if◌then◌else◌, codes, length, take, drop,
}
use parser.WebSocket.Buffer.{Buffer, no_bytes, unread, size, fit, append, reset}
use parser.WebSocket.Frame.{
  Frame, Parsed, incomplete, invalid, parsed, parse, frame_bytes, text, close, ping, pong,
  protocol_error, no_status, abnormal, invalid_data, too_big, internal_error, max_control_payload,
}

pub data Exception : Type 0 where
  closed_connection wait_failed read_failed write_failed : Exception

-- What the socket answers when the connection waits for data: a timeout, an error of the wait, an
-- error of the read, or bytes. No bytes mean that the client is gone, and
-- are what every later wait is answered with.
pub data Event : Type 0 where
  not_ready wait_fails read_fails : Event
  arrives : List ℕ → Event

pub record Connection : Type 0 where
  pub events : List Event
  pub send_fails : List Bool
  pub sent : List (List ℕ)

pub record Message : Type 0 where
  pub opcode : ℕ
  pub content : List ℕ
  pub code : ℕ

pub record WebSocket : Type 0 where
  pub accepted : Bool
  pub closed : Bool
  pub max_message_size : ℕ
  pub rbuf : Buffer
  pub need : ℕ
  pub eof : Bool
  pub msg : Buffer
  pub msg_opcode : ℕ
  pub close_sent : Bool
  pub error_code : ℕ
  pub error_reason : List ℕ
  pub connection : Connection

-- `stuck` is no outcome of the program: the rounds that a loop was given ran out.
pub data Outcome (A : Type 0) : Type 0 where
  returns : A → Outcome A
  throws : Exception → Outcome A
  stuck : Outcome A

abbrev pub M : Type 0 → Type 0
M A = WebSocket → Outcome A × WebSocket

-- Goes on with the result, unless an exception was thrown.
abbrev pub after : {A B : Type 0} → Outcome A × WebSocket → (A → M B) → Outcome B × WebSocket
after (returns a, s) f = f a s
after (throws e, s) f = (throws e, s)
after (stuck, s) f = (stuck, s)

unfoldable pub new_websocket : Connection → WebSocket
new_websocket c = record {
  accepted = false;
  closed = false;
  max_message_size = 0;
  rbuf = no_bytes;
  need = 0;
  eof = false;
  msg = no_bytes;
  msg_opcode = 0;
  close_sent = false;
  error_code = 0;
  error_reason = [];
  connection = c;
}

-- `unprocessed` are the bytes behind the headers of the request.
unfoldable pub start : ℕ → List ℕ → WebSocket → WebSocket
start amax_message_size unprocessed s = record s {
  max_message_size = amax_message_size;
  accepted = true;
  rbuf = append unprocessed s.rbuf;
}

unfoldable pub valid_status : ℕ → Bool
valid_status code =
    (leb 1000 code && leb code 1003)
    || (leb 1007 code && leb code 1014)
    || (leb 3000 code && leb code 4999)

-- `connection.send_body`, which throws when the send fails.
pub send_body : List ℕ → List Bool → M (Unit {0})
send_body bytes (true ∷ fails) s =
    (throws write_failed, record s { connection = record (s.connection) { send_fails = fails } })
send_body bytes (false ∷ fails) s = (
  returns tt,
  record s {
    connection = record (s.connection) {
      send_fails = fails;
      sent = s.connection.sent ++ (bytes ∷ []);
    };
  },
)
send_body bytes [] s = (
  returns tt,
  record s { connection = record (s.connection) { sent = s.connection.sent ++ (bytes ∷ []) } },
)

unfoldable pub write_frame : ℕ → List ℕ → M (Unit {0})
unfolding send_body
write_frame opcode payload s = send_body (frame_bytes opcode payload) s.connection.send_fails s

-- The payload of a Close frame; the reason is cut to fit a control frame.
unfoldable pub close_payload : ℕ → List ℕ → List ℕ
close_payload code reason =
    if code == no_status
    then []
    else code / 256 % 256 ∷ code % 256 ∷ take (max_control_payload - 2) reason

unfoldable pub send_close : ℕ → List ℕ → M (Unit {0})
unfolding close_payload write_frame
send_close code reason s =
    write_frame close (close_payload code reason) (record s { close_sent = true })

-- The room that `fill` asks for, and the buffer with it.
pub grow : WebSocket → WebSocket
grow s =
    let room = if ltb (unread s.rbuf) s.need then s.need - unread s.rbuf else 0 in
    record s { rbuf = fit (max room 4096) s.rbuf }

abbrev pub with_events : List Event → WebSocket → WebSocket
with_events es s = record s { connection = record (s.connection) { events = es } }

-- What `recv` left in the socket.
pub put_back : List ℕ → List Event → List Event
put_back [] es = es
put_back (b ∷ bs) es = arrives (b ∷ bs) ∷ es

-- `connection.receive` into the room at the end of the buffer. The end of the stream is not used up: it
-- stays the next answer of the socket.
pub take_in : List ℕ → List Event → WebSocket → WebSocket
take_in bytes es s =
    let room = s.rbuf.allocated - size s.rbuf in
    if length (take room bytes) == 0
    then record (with_events (arrives bytes ∷ es) s) { eof = true }
    else record (with_events (put_back (drop room bytes) es) s) {
      rbuf = record (s.rbuf) { unprocessed = s.rbuf.unprocessed ++ take room bytes };
    }

-- `fill`, by what the socket answers next; no answer is a timeout.
pub fill_by : List Event → M Bool
fill_by [] s = (returns false, s)
fill_by (not_ready ∷ es) s = (returns false, with_events es s)
fill_by (wait_fails ∷ es) s = (throws wait_failed, with_events es s)
fill_by (read_fails ∷ es) s = (throws read_failed, with_events es (grow s))
fill_by (arrives bytes ∷ es) s = (returns true, take_in bytes es (grow s))

unfoldable pub fill : M Bool
unfolding fill_by grow take_in put_back
fill s = fill_by s.connection.events s

-- What `parse` does to the state, by its verdict.
pub note : Parsed → WebSocket → WebSocket
note (incomplete n) s = record s { need = n }
note (invalid code reason) s = record s { need = 0; error_code = code; error_reason = reason }
note (parsed f used) s = record s {
  need = 0;
  rbuf = record (s.rbuf) { unprocessed = drop used s.rbuf.unprocessed; pos = s.rbuf.pos + used };
}

abbrev pub verdict : WebSocket → Parsed
verdict s = parse s.max_message_size s.rbuf.unprocessed

-- `failed`: tells the client if it should, and turns the failure into a CLOSE message.
unfoldable pub failed : ℕ → List ℕ → Bool → WebSocket → Message × WebSocket
failed code reason notify s =
    let told = if notify then (send_close code reason s).1 else s in
    (
      record { opcode = close; content = reason; code = code },
      record told { closed = true; msg_opcode = 0; msg = reset told.msg },
    )
