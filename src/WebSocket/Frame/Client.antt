-- ===== src/WebSocket/Frame/Client.antt =====
-- The frames of RFC 6455 by the text of the standard: the specification that `WebSocket::parse` and
-- `WebSocket::write_frame` of src/main/pa_websocket.C are held to.
use parser.Prelude.{
  ℕ, ◌+◌, ◌/◌, ◌%◌, ◌^◌, bit_xor, Bool, List, [], ◌∷◌, ◌++◌, ltb, if◌then◌else◌, length, get_or,
}

-- Octet i of the payload is combined with octet i modulo 4 of the key.
unfoldable pub mask : List ℕ → ℕ → List ℕ → List ℕ
mask key i [] = []
mask key i (b ∷ bs) = bit_xor b (get_or key (i % 4) 0) ∷ mask key (i + 1) bs

-- The length in 7, in 7 and 16, or in 7 and 64 bits; `bit` is 128 in a masked frame, else 0.
unfoldable pub length_code : ℕ → ℕ → List ℕ
length_code bit n =
    if ltb n 126
    then (bit + n) ∷ []
    else if ltb n (2 ^ 16)
    then (bit + 126) ∷ n / 256 ∷ n % 256 ∷ []
    else (bit + 127)
      ∷ n / 2 ^ 56
      ∷ n / 2 ^ 48 % 256
      ∷ n / 2 ^ 40 % 256
      ∷ n / 2 ^ 32 % 256
      ∷ n / 2 ^ 24 % 256
      ∷ n / 2 ^ 16 % 256
      ∷ n / 2 ^ 8 % 256
      ∷ n % 256
      ∷ []

unfoldable pub client_frame : Bool → ℕ → List ℕ → List ℕ → List ℕ
unfolding mask length_code
client_frame fin opcode key payload =
    ((if fin then 128 else 0) + opcode) ∷ length_code 128 (length payload)
    ++ (key ++ mask key 0 payload)

unfoldable pub server_frame : ℕ → List ℕ → List ℕ
unfolding length_code
server_frame opcode payload = (128 + opcode) ∷ length_code 0 (length payload) ++ payload
