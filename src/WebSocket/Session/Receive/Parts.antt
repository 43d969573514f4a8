-- ===== src/WebSocket/Session/Receive/Parts.antt =====
-- The frames of a message in parts, and what one round of `receive` of src/main/pa_websocket.C does with one.
use parser.Prelude.{
  ℕ, ◌+◌, ◌^◌, ◌≤◌, ◌<◌, ◌≡◌, ap, ◌∙◌, ◌⊎◌, inl, inr, Bool, true, false, not, some, List, [], ◌∷◌,
  ◌++◌, arith, ltb, ◌==◌, Bool-cases, length, drop, drop-append, All,
}
use parser.WebSocket.Buffer.{size, append, reset}
use parser.WebSocket.Frame.{
  Frame, parsed, parse, text, binary, ping, pong, known_opcode, frame_bytes,
}
use parser.WebSocket.Frame.Client.{client_frame}
use parser.WebSocket.Frame.RoundTrip.{ControlFits, parse-client_frame}
use parser.WebSocket.Session.{WebSocket, returns, note, verdict}
use parser.WebSocket.Session.Receive.{
  again, answers, message, on_verdict, on_frame, on_data, on_fragment, deliver, round,
}

-- A fragment with the key that masks it.
pub record Part : Type 0 where
  pub k0 : ℕ
  pub k1 : ℕ
  pub k2 : ℕ
  pub k3 : ℕ
  pub payload : List ℕ

abbrev pub IsByte : ℕ → Type 0
IsByte b = b < 256

pub record IsPart (p : Part) : Type 0 where
  pub key0 : IsByte p.k0
  pub key1 : IsByte p.k1
  pub key2 : IsByte p.k2
  pub key3 : IsByte p.k3
  pub bytes : All IsByte p.payload

abbrev pub part_frame : Bool → ℕ → Part → List ℕ
part_frame fin op p = client_frame fin op (p.k0 ∷ p.k1 ∷ p.k2 ∷ p.k3 ∷ []) p.payload

-- What may stand behind the first frame of a message, up to the last one.
pub data Piece : Type 0 where
  fragment ping_of pong_of : Part → Piece

-- The frames behind the first one, of which the last has the FIN bit, and what the message holds in them.
abbrev pub continuation : List Piece → Part → List ℕ
continuation [] last = part_frame true 0 last
continuation (fragment p ∷ ps) last = part_frame false 0 p ++ continuation ps last
continuation (ping_of p ∷ ps) last = part_frame true ping p ++ continuation ps last
continuation (pong_of p ∷ ps) last = part_frame true pong p ++ continuation ps last

abbrev pub content : List Piece → Part → List ℕ
content [] last = last.payload
content (fragment p ∷ ps) last = p.payload ++ content ps last
content (ping_of p ∷ ps) last = content ps last
content (pong_of p ∷ ps) last = content ps last

-- The frames that answer the pings.
abbrev pub pongs : List Piece → List (List ℕ)
pongs [] = []
pongs (fragment p ∷ ps) = pongs ps
pongs (ping_of p ∷ ps) = frame_bytes pong p.payload ∷ pongs ps
pongs (pong_of p ∷ ps) = pongs ps

-- A control frame holds 125 bytes at most, which the limit of the connection allows too.
abbrev pub IsControl : ℕ → Part → Type 0
IsControl max p = IsPart p × (length p.payload ≤ 125) × (length p.payload ≤ max)

abbrev pub ArePieces : ℕ → List Piece → Part → Type 0
ArePieces max [] last = IsPart last
ArePieces max (fragment p ∷ ps) last = IsPart p × ArePieces max ps last
ArePieces max (ping_of p ∷ ps) last = IsControl max p × ArePieces max ps last
ArePieces max (pong_of p ∷ ps) last = IsControl max p × ArePieces max ps last

data_known : (op : ℕ) → (op ≡ 0) ⊎ (op ≡ text) ⊎ (op ≡ binary) → known_opcode op ≡ true
unfolding known_opcode
data_known op h = ground arith

abbrev pub IsWhole : ℕ → Type 0
IsWhole op = (op ≡ text) ⊎ (op ≡ binary)

abbrev pub collect : List ℕ → WebSocket → WebSocket
collect payload s = record s { msg = append payload s.msg }

-- The state behind the bytes of a frame.
abbrev pub behind : List ℕ → ℕ → WebSocket → WebSocket
behind rest used s = record s {
  need = 0;
  rbuf = record (s.rbuf) { unprocessed = rest; pos = s.rbuf.pos + used };
}

module _ (valid_utf8 : List ℕ → Bool) where
  on_frame-data :
      (f : Frame) (s : WebSocket)
      → (f.opcode ≡ 0) ⊎ (f.opcode ≡ text) ⊎ (f.opcode ≡ binary)
      → on_frame valid_utf8 f s ≡ on_data valid_utf8 f s
  unfolding on_frame
  on_frame-data f s known = ground arith

  -- A frame at the head of the unread bytes is handled, and the bytes behind it are left.
  pub round-frame :
      (s : WebSocket) (fin : Bool) (op : ℕ) (p : Part) (rest : List ℕ)
      → s.rbuf.unprocessed ≡ part_frame fin op p ++ rest
      → known_opcode op ≡ true
      → ControlFits fin op (length p.payload)
      → IsPart p
      → length p.payload ≤ s.max_message_size
      → s.max_message_size < 2 ^ 63
      → round valid_utf8 s
        ≡ on_frame valid_utf8
            (record { fin = fin; opcode = op; payload = p.payload })
            (behind rest (length (part_frame fin op p)) s)
  unfolding round on_verdict note
  round-frame s fin op p rest e known short part fits limit =
      let f : Frame = record { fin = fin; opcode = op; payload = p.payload } in
      let used = length (part_frame fin op p) in
      let v : verdict s ≡ parsed f used =
        ap (parse s.max_message_size) e
        ∙ parse-client_frame s.max_message_size op p.k0 p.k1 p.k2 p.k3 fin p.payload rest known
            part.key0 part.key1 part.key2 part.key3 part.bytes short fits (omega arith) in
      let left : drop used s.rbuf.unprocessed ≡ rest =
        ap (drop used) e ∙ drop-append (part_frame fin op p) rest in
      ap (λ r. on_verdict valid_utf8 r (note r s)) v
      ∙ ap
          (λ u. on_frame valid_utf8 f (record s {
            need = 0;
            rbuf = record (s.rbuf) { unprocessed = u; pos = s.rbuf.pos + used };
          }))
          left

  pub round-part_frame :
      (s : WebSocket) (fin : Bool) (op : ℕ) (p : Part) (rest : List ℕ)
      → s.rbuf.unprocessed ≡ part_frame fin op p ++ rest
      → (op ≡ 0) ⊎ (op ≡ text) ⊎ (op ≡ binary)
      → IsPart p
      → length p.payload ≤ s.max_message_size
      → s.max_message_size < 2 ^ 63
      → round valid_utf8 s
        ≡ on_data valid_utf8
            (record { fin = fin; opcode = op; payload = p.payload })
            (behind rest (length (part_frame fin op p)) s)
  round-part_frame s fin op p rest e known part fits limit =
      let f : Frame = record { fin = fin; opcode = op; payload = p.payload } in
      let small : op < 8 = omega arith in
      round-frame s fin op p rest e (data_known op known) (λ h. absurd (h (omega arith))) part fits
        limit
      ∙ on_frame-data f (behind rest (length (part_frame fin op p)) s) known

  module _ (s : WebSocket) (payload : List ℕ) (whole : IsWhole s.msg_opcode)
      (room : size s.msg + length payload ≤ s.max_message_size) where
    in_parts : (s.msg_opcode == 0) ≡ false
    in_parts = ground arith

    roomy : ltb s.max_message_size (size s.msg + length payload) ≡ false
    roomy = ground arith

    -- A continuation frame without FIN is collected, and the one with FIN ends the message.
    pub on_data-collects :
        on_data valid_utf8 (record { fin = false; opcode = 0; payload = payload }) s
        ≡ (returns again, collect payload s)
    unfolding on_data on_fragment
    on_data-collects = rw (in_parts, roomy)

    pub on_data-ends :
        on_data valid_utf8 (record { fin = true; opcode = 0; payload = payload }) s
        ≡ deliver valid_utf8 s.msg_opcode
            (append payload s.msg).unprocessed
            (record (collect payload s) { msg_opcode = 0 })
    unfolding on_data on_fragment
    on_data-ends = rw (in_parts, roomy)

  pub on_data-starts :
      (s : WebSocket) (op : ℕ) (payload : List ℕ)
      → s.msg_opcode ≡ 0
      → IsWhole op
      → s.msg.pos ≡ 0
      → length payload ≤ s.max_message_size
      → on_data valid_utf8 (record { fin = false; opcode = op; payload = payload }) s
        ≡ (returns again, collect payload (record s { msg_opcode = op; msg = reset s.msg }))
  unfolding on_data on_fragment
  on_data-starts s op payload none_yet whole at_start fits =
      let first : (op == 0) ≡ false = ground arith in
      let idle : not (s.msg_opcode == 0) ≡ false = ground arith in
      let room : ltb s.max_message_size (s.msg.pos + 0 + length payload) ≡ false = ground arith in
      rw (first, idle, room)

  pub deliver-message :
      (op : ℕ) (bytes : List ℕ) (s : WebSocket)
      → (op ≡ text → valid_utf8 bytes ≡ true)
      → deliver valid_utf8 op bytes s ≡ (returns (answers (some (message op bytes 0))), s)
  unfolding deliver
  deliver-message op bytes s ok = elim (Bool-cases (op == text)) [
    | inl e ↦ rw (ok (ground arith)) (ground arith)
    | inr e ↦ rw e
  ]
