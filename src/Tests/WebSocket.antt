-- ===== src/Tests/WebSocket.antt =====
-- The WebSocket theorems at concrete frames and connections. The check of UTF-8, which the program takes
-- from the PCRE library, is here one that accepts ASCII.
use parser.Prelude.{
  ℕ, ◌≡◌, refl, inl, Bool, true, false, ◌&&◌, some, List, [], ◌∷◌, ◌++◌, ◌<◌, All, arith, codes,
  ltb,
}
use parser.WebSocket.Buffer.{no_bytes}
use parser.WebSocket.Frame.{Frame, parsed, parse, text, binary, pong, frame_bytes, known_opcode}
use parser.WebSocket.Frame.Client.{client_frame, server_frame}
use parser.WebSocket.Frame.RoundTrip.{parse-client_frame}
use parser.WebSocket.Frame.Sound.{IsSound, parse-IsSound, frame_bytes-server_frame}
use parser.WebSocket.Session.{arrives, Connection, WebSocket, returns, new_websocket, start}
use parser.WebSocket.Session.Receive.{message, receive}
use parser.WebSocket.Session.Receive.Invariant.{IsValid, start-IsValid}
use parser.WebSocket.Session.Receive.Total.{Received, receive-Received}
use parser.WebSocket.Session.Receive.Parts.{Part, IsPart, ping_of, part_frame, continuation}
use parser.WebSocket.Session.Receive.Fragments.{receive-content}

is_ascii : List ℕ → Bool
is_ascii [] = true
is_ascii (b ∷ bs) = ltb b 128 && is_ascii bs

abbrev mask_key : List ℕ
mask_key = 0x37 ∷ 0xfa ∷ 0x21 ∷ 0x3d ∷ []

-- The example of the standard: a masked "Hello".
hello_bytes :
    client_frame true text mask_key (codes "Hello")
    ≡ 0x81 ∷ 0x85 ∷ 0x37 ∷ 0xfa ∷ 0x21 ∷ 0x3d ∷ 0x7f ∷ 0x9f ∷ 0x4d ∷ 0x51 ∷ 0x58 ∷ []
unfolding client_frame
hello_bytes = refl

abbrev hello : Frame
hello = record { fin = true; opcode = text; payload = codes "Hello" }

parse-client_frame_example :
    parse 1000 (client_frame true text mask_key (codes "Hello") ++ (1 ∷ [])) ≡ parsed hello 11
unfolding client_frame
parse-client_frame_example =
    parse-client_frame 1000 text 0x37 0xfa 0x21 0x3d true (codes "Hello") (1 ∷ [])
      (unfold known_opcode in refl) (omega arith) (omega arith) (omega arith) (omega arith)
      (omega arith) (λ _. (refl, omega arith)) (omega arith) (omega arith)

parse-IsSound_example :
    IsSound 1000 (client_frame true text mask_key (codes "Hello") ++ (1 ∷ [])) hello 11
parse-IsSound_example = parse-IsSound 1000 _ parse-client_frame_example

frame_bytes-server_frame_example :
    frame_bytes binary (codes "data") ≡ server_frame binary (codes "data")
frame_bytes-server_frame_example =
    frame_bytes-server_frame binary (codes "data") (omega arith) (omega arith)

abbrev socket : Connection
socket = record { events = arrives (codes "x") ∷ []; send_fails = []; sent = [] }

abbrev first_part : Part
first_part = record { k0 = 1; k1 = 2; k2 = 3; k3 = 4; payload = codes "Hel" }

abbrev last_part : Part
last_part = record { k0 = 9; k1 = 8; k2 = 7; k3 = 6; payload = codes "lo" }

abbrev two_frames : List ℕ
two_frames = part_frame false text first_part ++ (continuation [] last_part ++ (5 ∷ []))

abbrev connected : WebSocket
connected = record (new_websocket socket) {
  accepted = true;
  closed = false;
  max_message_size = 100;
  rbuf = record { unprocessed = two_frames; pos = 0; allocated = 100 };
  msg = no_bytes;
  msg_opcode = 0;
}

connected-IsValid : IsValid connected
unfolding client_frame
connected-IsValid = record {
  reads = omega arith;
  parts = omega arith;
  parts_at_start = refl;
  parts_fit = λ _. omega arith;
  partial_opcode = inl refl;
}

receive-Received_example : Received is_ascii (receive is_ascii connected)
receive-Received_example = receive-Received is_ascii connected connected-IsValid

-- A ping between the two parts.
abbrev asked : Part
asked = record { k0 = 5; k1 = 5; k2 = 5; k3 = 5; payload = codes "?" }

abbrev interrupted : WebSocket
interrupted = record connected {
  rbuf = record {
    unprocessed =
        part_frame false text first_part
        ++ (continuation (ping_of asked ∷ []) last_part ++ (5 ∷ []));
    pos = 0;
    allocated = 100;
  };
}

interrupted-IsValid : IsValid interrupted
unfolding client_frame
interrupted-IsValid = record {
  reads = omega arith;
  parts = omega arith;
  parts_at_start = refl;
  parts_fit = λ _. omega arith;
  partial_opcode = inl refl;
}

part_bytes :
    (p : Part)
    → (p.k0 < 256) × (p.k1 < 256) × (p.k2 < 256) × (p.k3 < 256)
    → All (λ b. b < 256) p.payload
    → IsPart p
part_bytes p (a, b, c, d) h = record { key0 = a; key1 = b; key2 = c; key3 = d; bytes = h }

receive-content_example :
    (s' : WebSocket) × (receive is_ascii interrupted
      ≡ (returns (some (message text (codes "Hello") 0)), s'))
    × (s'.rbuf.unprocessed ≡ 5 ∷ [])
    × (s'.connection.sent ≡ frame_bytes pong (codes "?") ∷ [])
unfolding new_websocket
receive-content_example =
    receive-content is_ascii interrupted text first_part last_part (ping_of asked ∷ []) (5 ∷ [])
      interrupted-IsValid refl refl refl refl (inl refl)
      (part_bytes first_part (omega arith) (omega arith))
      (
        (part_bytes asked (omega arith) (omega arith), omega arith, omega arith),
        part_bytes last_part (omega arith) (omega arith),
      )
      (omega arith) (omega arith) (λ _. unfold is_ascii in refl)

abbrev told : WebSocket
told = record connected { close_sent = true }

start-IsValid_example :
    IsValid (start 100 two_frames (new_websocket socket))
    × ((start 100 two_frames (new_websocket socket)).rbuf.unprocessed ≡ two_frames)
start-IsValid_example = start-IsValid socket 100 two_frames
