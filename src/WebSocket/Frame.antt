-- ===== src/WebSocket/Frame.antt =====
-- The frames of src/main/pa_websocket.C: `WebSocket::parse` on the unread bytes, and the bytes that
-- `WebSocket::write_frame` sends.
pub mod Client
pub mod RoundTrip
pub mod Sound
use parser.Prelude.{
  ℕ, suc, ◌+◌, ◌*◌, ◌/◌, ◌%◌, ◌^◌, bit_and, bit_or, bit_xor, Bool, true, false, not, ◌&&◌, ◌||◌,
  List, [], ◌∷◌, ◌++◌, ltb, leb, ◌==◌, if◌then◌else◌, codes, length, get_or, take, drop,
}

-- `enum Opcode`; 0 is a continuation.
abbrev pub text : ℕ
text = 0x1

abbrev pub binary : ℕ
binary = 0x2

abbrev pub close : ℕ
close = 0x8

abbrev pub ping : ℕ
ping = 0x9

abbrev pub pong : ℕ
pong = 0xA

-- `enum Status`
abbrev pub protocol_error : ℕ
protocol_error = 1002

abbrev pub no_status : ℕ
no_status = 1005

abbrev pub abnormal : ℕ
abnormal = 1006

abbrev pub invalid_data : ℕ
invalid_data = 1007

abbrev pub too_big : ℕ
too_big = 1009

abbrev pub internal_error : ℕ
internal_error = 1011

abbrev pub max_control_payload : ℕ
max_control_payload = 125

pub record Frame : Type 0 where
  pub fin : Bool
  pub opcode : ℕ
  pub payload : List ℕ

-- The verdict of `parse`: INCOMPLETE with the bytes that are needed, INVALID with the status and the
-- reason, or PARSED with the frame and the bytes that it took.
pub data Parsed : Type 0 where
  incomplete : ℕ → Parsed
  invalid : ℕ → List ℕ → Parsed
  parsed : Frame → ℕ → Parsed

unfoldable pub known_opcode : ℕ → Bool
known_opcode op = op == 0 || op == text || op == binary || op == close || op == ping || op == pong

-- The extended length: not there yet, refused, or the length with the size of the header.
pub data PayloadLength : Type 0 where
  short : PayloadLength
  refused : List ℕ → PayloadLength
  known : ℕ → ℕ → PayloadLength

-- `for(int i=0; i<8; i++) length=(length<<8) | p[2+i]`, in 64 bits.
pub big_endian : ℕ → List ℕ → ℕ
big_endian acc [] = acc
big_endian acc (b ∷ bs) = big_endian (bit_or (acc * 256 % 2 ^ 64) b) bs

pub extended_16 : List ℕ → PayloadLength
extended_16 p =
    if ltb (length p) 4
    then short
    else if ltb (bit_or (get_or p 2 0 * 256) (get_or p 3 0)) 126
    then refused (codes "length is not minimal")
    else known (bit_or (get_or p 2 0 * 256) (get_or p 3 0)) 4

pub extended_64 : List ℕ → PayloadLength
extended_64 p =
    if ltb (length p) 10
    then short
    else if not (big_endian 0 (take 8 (drop 2 p)) / 2 ^ 63 == 0)
    then refused (codes "length is too big")
    else if leb (big_endian 0 (take 8 (drop 2 p))) 0xFFFF
    then refused (codes "length is not minimal")
    else known (big_endian 0 (take 8 (drop 2 p))) 10

pub payload_length : List ℕ → PayloadLength
payload_length p =
    let l = bit_and (get_or p 1 0) 0x7F in
    if l == 126 then extended_16 p else if l == 127 then extended_64 p else known l 2

-- `payload[i]^=key[i & 3]`
pub unmask : List ℕ → ℕ → List ℕ → List ℕ
unmask key i [] = []
unmask key i (b ∷ bs) = bit_xor b (get_or key (bit_and i 3) 0) ∷ unmask key (i + 1) bs

-- Behind the length: the limits, the key and the payload.
pub parse_payload : ℕ → List ℕ → Bool → ℕ → PayloadLength → Parsed
parse_payload max p fin opcode short = incomplete 0
parse_payload max p fin opcode (refused reason) = invalid protocol_error reason
parse_payload max p fin opcode (known l header) =
    if not (bit_and opcode 0x08 == 0) && (not fin || ltb max_control_payload l)
    then invalid protocol_error (codes "control frame is fragmented or too long")
    else if ltb max l
    then invalid too_big (codes "message is too big")
    else if ltb (length p) (header + 4 + l)
    then incomplete (header + 4 + l)
    else parsed
        (record {
          fin = fin;
          opcode = opcode;
          payload = unmask (take 4 (drop header p)) 0 (take l (drop (header + 4) p));
        })
        (header + 4 + l)

-- `parse` on the unread bytes `p`, with `max_message_size`.
unfoldable pub parse : ℕ → List ℕ → Parsed
parse max p =
    let p0 = get_or p 0 0 in
    let opcode = bit_and p0 0x0F in
    if ltb (length p) 2
    then incomplete 0
    else if not (bit_and p0 0x70 == 0)
    then invalid protocol_error (codes "reserved bits are set")
    else if bit_and (get_or p 1 0) 0x80 == 0
    then invalid protocol_error (codes "frame of the client is not masked")
    else if not (known_opcode opcode)
    then invalid protocol_error (codes "unknown opcode")
    else parse_payload max p (not (bit_and p0 0x80 == 0)) opcode (payload_length p)

-- `header[header_size++]=(unsigned char)(length>>(i*8))` for i from 7 down to 0.
pub length_bytes : ℕ → ℕ → List ℕ
length_bytes ℕ.zero n = []
length_bytes (suc i) n = n / 2 ^ (i * 8) % 256 ∷ length_bytes i n

-- The header that `write_frame` builds.
pub frame_header : ℕ → ℕ → List ℕ
frame_header opcode size =
    bit_or 0x80 opcode % 256
    ∷ (if ltb size 126
        then size % 256 ∷ []
        else if leb size 0xFFFF
        then 126 ∷ size / 256 % 256 ∷ size % 256 ∷ []
        else 127 ∷ length_bytes 8 size)

-- The bytes that `write_frame` hands to the connection.
unfoldable pub frame_bytes : ℕ → List ℕ → List ℕ
unfolding frame_header length_bytes
frame_bytes opcode payload = frame_header opcode (length payload) ++ payload
