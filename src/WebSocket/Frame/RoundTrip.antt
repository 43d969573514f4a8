-- ===== src/WebSocket/Frame/RoundTrip.antt =====
-- `WebSocket::parse` of src/main/pa_websocket.C reads the frames that the standard lets a client send.
use parser.Prelude.{
  ℕ, zero, suc, ◌+◌, ◌*◌, ◌/◌, ◌%◌, ◌^◌, ◌≤◌, ◌<◌, ◌≡◌, ◌≢◌, refl, ap, ◌∙◌, bit_and, bit_or, Bool,
  true, false, not, ◌&&◌, ◌||◌, List, [], ◌∷◌, ◌++◌, arith, ltb, leb, ◌==◌, ==_iff, if◌then◌else◌,
  Bool-cases, inl, inr, length, get_or, take, drop, All, take-append, length-append,
}
use parser.Prelude.Bits.{
  all_below, all_below_sound, bit_and_3, bit_and_15, bit_and_127, bit_or_256, bit_xor_twice,
  bit_and_0x80, bit_and_0x70,
}
use parser.WebSocket.Frame.{
  Frame, parsed, known_opcode, known, big_endian, extended_16, extended_64, payload_length, unmask,
  parse_payload, parse, max_control_payload,
}
use parser.WebSocket.Frame.Client.{mask, client_frame}

abbrev IsByte : ℕ → Type 0
IsByte b = b < 256

module _ (k0 k1 k2 k3 : ℕ) (h0 : IsByte k0) (h1 : IsByte k1) (h2 : IsByte k2) (h3 : IsByte k3) where
  abbrev mask_key : List ℕ
  mask_key = k0 ∷ k1 ∷ k2 ∷ k3 ∷ []

  key-IsByte : (r : ℕ) → r < 4 → IsByte (get_or mask_key r 0)
  key-IsByte zero h = h0
  key-IsByte (suc zero) h = h1
  key-IsByte (suc (suc zero)) h = h2
  key-IsByte (suc (suc (suc zero))) h = h3
  key-IsByte (suc (suc (suc (suc r)))) h = absurd (omega arith)

  unmask-mask : (i : ℕ) (bs : List ℕ) → All IsByte bs → unmask mask_key i (mask mask_key i bs) ≡ bs
  unfolding unmask mask
  unmask-mask i [] h = refl
  unmask-mask i (b ∷ bs) (hb, h) = rw (
    bit_and_3 i,
    bit_xor_twice b _ hb (key-IsByte (i % 4) (omega arith)),
    unmask-mask (i + 1) bs h,
  )

length-mask : (key : List ℕ) (i : ℕ) (bs : List ℕ) → length (mask key i bs) ≡ length bs
unfolding mask
length-mask key i [] = refl
length-mask key i (b ∷ bs) = ap suc (length-mask key (i + 1) bs)

-- A control frame is whole and short.
abbrev pub ControlFits : Bool → ℕ → ℕ → Type 0
ControlFits fin op l = op / 8 ≢ 0 → (fin ≡ true) × (l ≤ 125)

control_table : all_below 16 (λ n. bit_and n 8 == n / 8 * 8) ≡ true
unfolding all_below
control_table = refl

control_bit : (op : ℕ) → op < 16 → bit_and op 8 ≡ op / 8 * 8
control_bit op h = (==_iff _ _).0 (all_below_sound 16 _ op control_table h)

take_masked : (l : ℕ) (xs ys : List ℕ) → length xs ≡ l → take l (xs ++ ys) ≡ xs
take_masked l xs ys e = rw (← e) (take-append xs ys)

control_test :
    (fin : Bool) (op l : ℕ)
    → op < 16
    → ControlFits fin op l
    → (not (bit_and op 8 == 0) && (not fin || ltb max_control_payload l)) ≡ false
control_test fin op l h ctl = elim (Bool-cases (bit_and op 8 == 0)) [
  | inl e ↦ rw e
  | inr e ↦ let c = ctl (λ q. ground (arith, control_bit op h)) in rw (e, c.0) (ground arith)
]

module _ (max : ℕ) (p : List ℕ) (fin : Bool) (op l h : ℕ) (key masked rest : List ℕ) where
  parse_payload-known :
      take 4 (drop h p) ≡ key
      → drop (h + 4) p ≡ masked ++ rest
      → length p ≡ h + 4 + l + length rest
      → length masked ≡ l
      → op < 16
      → ControlFits fin op l
      → l ≤ max
      → parse_payload max p fin op (known l h)
        ≡ parsed (record { fin = fin; opcode = op; payload = unmask key 0 masked }) (h + 4 + l)
  unfolding parse_payload
  parse_payload-known e1 e2 e3 e4 small ctl fits =
      let t2 : ltb max l ≡ false = ground arith in
      let t3 : ltb (length p) (h + 4 + l) ≡ false = ground arith in
      rw (control_test fin op l small ctl, t2, t3, e1, e2, take_masked l masked rest e4)

-- The tests of `parse` on the first two bytes.
module _ (fin : Bool) (op : ℕ) (h : op < 16) where
  abbrev first : ℕ
  first = (if fin then 128 else 0) + op

  first-opcode : bit_and first 0x0F ≡ op
  first-opcode = rw (bit_and_15 first) (ground arith)

  first-reserved : bit_and first 0x70 ≡ 0
  first-reserved = rw (bit_and_0x70 first (ground arith)) (ground arith)

  first-fin : not (bit_and first 0x80 == 0) ≡ fin
  first-fin = rw (bit_and_0x80 first (ground arith)) (ground arith)

known_opcode-lt : (op : ℕ) → known_opcode op ≡ true → op < 16
unfolding known_opcode
known_opcode-lt op h = ground arith

parse_first :
    (max op b1 : ℕ) (fin : Bool) (tail : List ℕ)
    → known_opcode op ≡ true
    → b1 < 256
    → 128 ≤ b1
    → parse max (((if fin then 128 else 0) + op) ∷ b1 ∷ tail)
      ≡ parse_payload max
          (((if fin then 128 else 0) + op) ∷ b1 ∷ tail)
          fin
          op
          (payload_length (((if fin then 128 else 0) + op) ∷ b1 ∷ tail))
unfolding parse
parse_first max op b1 fin tail ok h1 h2 =
    let small = known_opcode-lt op ok in
    let masked : bit_and b1 0x80 ≡ 128 = bit_and_0x80 b1 h1 ∙ omega arith in
    let long : ltb (suc (suc (length tail))) 2 ≡ false = ground arith in
    rw (
      first-reserved fin op small,
      first-opcode fin op small,
      first-fin fin op small,
      masked,
      ok,
      long,
    )

payload_length-7 :
    (b0 n : ℕ) (tail : List ℕ) → n < 126 → payload_length (b0 ∷ (128 + n) ∷ tail) ≡ known n 2
unfolding payload_length
payload_length-7 b0 n tail h =
    let e : bit_and (128 + n) 127 ≡ n = bit_and_127 (128 + n) ∙ omega arith in rw e (ground arith)

payload_length-16 :
    (b0 n : ℕ) (tail : List ℕ)
    → 126 ≤ n
    → n < 2 ^ 16
    → payload_length (b0 ∷ 254 ∷ n / 256 ∷ n % 256 ∷ tail) ≡ known n 4
unfolding payload_length extended_16
payload_length-16 b0 n tail lo hi =
    let e : bit_or (n / 256 * 256) (n % 256) ≡ n =
      bit_or_256 (n / 256) (n % 256) (omega arith) ∙ omega arith in
    let t : ltb n 126 ≡ false = ground arith in
    let long : ltb (suc (suc (suc (suc (length tail))))) 4 ≡ false = ground arith in rw (e, t, long)

-- One round of the loop over the eight bytes of a length.
big_endian-round :
    (m : ℕ) (acc b : ℕ)
    → m < 2 ^ 64
    → acc ≡ m / 256
    → b ≡ m % 256
    → bit_or (acc * 256 % 2 ^ 64) b ≡ m
big_endian-round m acc b h e1 e2 =
    let whole : acc * 256 % 2 ^ 64 ≡ acc * 256 = omega arith in
    rw whole (bit_or_256 acc b (omega arith) ∙ omega arith)

abbrev bytes_64 : ℕ → List ℕ
bytes_64 n =
    n / 2 ^ 56
    ∷ n / 2 ^ 48 % 256
    ∷ n / 2 ^ 40 % 256
    ∷ n / 2 ^ 32 % 256
    ∷ n / 2 ^ 24 % 256
    ∷ n / 2 ^ 16 % 256
    ∷ n / 2 ^ 8 % 256
    ∷ n % 256
    ∷ []

big_endian-bytes_64 : (n : ℕ) → n < 2 ^ 63 → big_endian 0 (bytes_64 n) ≡ n
unfolding big_endian
big_endian-bytes_64 n h = rw (
  big_endian-round (n / 2 ^ 56) 0 (n / 2 ^ 56) (omega arith) (omega arith) (omega arith),
  big_endian-round (n / 2 ^ 48) (n / 2 ^ 56) (n / 2 ^ 48 % 256) (omega arith) (omega arith)
      (omega arith),
  big_endian-round (n / 2 ^ 40) (n / 2 ^ 48) (n / 2 ^ 40 % 256) (omega arith) (omega arith)
      (omega arith),
  big_endian-round (n / 2 ^ 32) (n / 2 ^ 40) (n / 2 ^ 32 % 256) (omega arith) (omega arith)
      (omega arith),
  big_endian-round (n / 2 ^ 24) (n / 2 ^ 32) (n / 2 ^ 24 % 256) (omega arith) (omega arith)
      (omega arith),
  big_endian-round (n / 2 ^ 16) (n / 2 ^ 24) (n / 2 ^ 16 % 256) (omega arith) (omega arith)
      (omega arith),
  big_endian-round (n / 2 ^ 8) (n / 2 ^ 16) (n / 2 ^ 8 % 256) (omega arith) (omega arith)
      (omega arith),
  big_endian-round n (n / 2 ^ 8) (n % 256) (omega arith) (omega arith) (omega arith),
)

payload_length-64 :
    (b0 n : ℕ) (tail : List ℕ)
    → 2 ^ 16 ≤ n
    → n < 2 ^ 63
    → payload_length (b0 ∷ 255 ∷ (bytes_64 n ++ tail)) ≡ known n 10
unfolding payload_length extended_64
payload_length-64 b0 n tail lo hi =
    let t1 : not (n / 2 ^ 63 == 0) ≡ false = ground arith in
    let t2 : leb n 0xFFFF ≡ false = ground arith in
    let long : ltb (length (b0 ∷ 255 ∷ (bytes_64 n ++ tail))) 10 ≡ false = ground arith in
    rw (long, big_endian-bytes_64 n hi, t1, t2)

module _ (max op k0 k1 k2 k3 : ℕ) (fin : Bool) (payload rest : List ℕ) (ok : known_opcode op ≡ true)
    (h0 : IsByte k0) (h1 : IsByte k1) (h2 : IsByte k2) (h3 : IsByte k3) (bytes : All IsByte payload)
    (ctl : ControlFits fin op (length payload)) (fits : length payload ≤ max) where
  abbrev n : ℕ
  n = length payload

  abbrev k : List ℕ
  k = k0 ∷ k1 ∷ k2 ∷ k3 ∷ []

  abbrev b0 : ℕ
  b0 = (if fin then 128 else 0) + op

  abbrev tail : List ℕ
  tail = k ++ (mask k 0 payload ++ rest)

  abbrev frame : Frame
  frame = record { fin = fin; opcode = op; payload = payload }

  length-tail : length tail ≡ 4 + n + length rest
  length-tail = omega (arith, length-append {0} (mask k 0 payload) rest, length-mask k 0 payload)

  parse_payload-client :
      (p : List ℕ) (h : ℕ)
      → take 4 (drop h p) ≡ k
      → drop (h + 4) p ≡ mask k 0 payload ++ rest
      → length p ≡ length tail + h
      → parse_payload max p fin op (known n h) ≡ parsed frame (h + 4 + n)
  parse_payload-client p h e1 e2 e3 =
      parse_payload-known max p fin op n h k (mask k 0 payload) rest e1 e2
        (omega (arith, length-tail, e3)) (length-mask k 0 payload) (known_opcode-lt op ok) ctl fits
      ∙ rw (unmask-mask k0 k1 k2 k3 h0 h1 h2 h3 0 payload bytes)

  parse-frame_7 : n < 126 → parse max (b0 ∷ (128 + n) ∷ tail) ≡ parsed frame (6 + n)
  parse-frame_7 small =
      parse_first max op (128 + n) fin tail ok (omega arith) (omega arith)
      ∙ rw (payload_length-7 b0 n tail small)
          (parse_payload-client (b0 ∷ (128 + n) ∷ tail) 2 refl refl (omega arith))

  parse-frame_16 :
      126 ≤ n → n < 2 ^ 16 → parse max (b0 ∷ 254 ∷ n / 256 ∷ n % 256 ∷ tail) ≡ parsed frame (8 + n)
  parse-frame_16 lo hi =
      parse_first max op 254 fin _ ok (omega arith) (omega arith)
      ∙ rw (payload_length-16 b0 n tail lo hi)
          (parse_payload-client (b0 ∷ 254 ∷ n / 256 ∷ n % 256 ∷ tail) 4 refl refl (omega arith))

  parse-frame_64 :
      2 ^ 16 ≤ n → n < 2 ^ 63 → parse max (b0 ∷ 255 ∷ (bytes_64 n ++ tail)) ≡ parsed frame (14 + n)
  parse-frame_64 lo hi =
      parse_first max op 255 fin _ ok (omega arith) (omega arith)
      ∙ rw (payload_length-64 b0 n tail lo hi)
          (parse_payload-client (b0 ∷ 255 ∷ (bytes_64 n ++ tail)) 10 refl refl (omega arith))

  -- A frame that a client may send is read as it was sent, and exactly its bytes are taken, whatever
  -- follows: the opcode is known, a control frame is whole and short, and the payload is within the limit.
  pub parse-client_frame :
      n < 2 ^ 63
      → parse max (client_frame fin op k payload ++ rest)
        ≡ parsed frame (length (client_frame fin op k payload))
  unfolding client_frame
  parse-client_frame h =
      let masked = length-mask k 0 payload in
      elim (Bool-cases (ltb n 126)) [
        | inl t ↦ rw t (parse-frame_7 (ground arith) ∙ ap (parsed frame) (omega (arith, masked)))
        | inr t ↦ rw t (elim (Bool-cases (ltb n (2 ^ 16))) [
          | inl u ↦ rw u (
              parse-frame_16 (ground arith) (ground arith)
              ∙ ap (parsed frame) (omega (arith, masked)))
          | inr u ↦
              rw u (parse-frame_64 (ground arith) h ∙ ap (parsed frame) (omega (arith, masked)))
        ])
      ]
