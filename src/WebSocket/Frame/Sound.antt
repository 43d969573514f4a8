-- ===== src/WebSocket/Frame/Sound.antt =====
-- What a frame that `WebSocket::parse` of src/main/pa_websocket.C lets through is like, and what
-- `WebSocket::write_frame` sends.
use parser.Prelude.{
  ℕ, suc, ◌+◌, ◌%◌, ◌^◌, ◌≤◌, ◌<◌, ◌≡◌, ◌≢◌, refl, ap, ◌∙◌, subst, bit_and, bit_or, Bool, true,
  false, not, ◌&&◌, ◌||◌, List, [], ◌∷◌, ◌++◌, arith, ltb, leb, ◌==◌, ==_iff, if_cases, Bool-cases,
  inl, inr, length, get_or, take, drop, length-take, length-drop,
}
use parser.Prelude.Bits.{all_below, all_below_sound}
use parser.WebSocket.Frame.{
  Frame, Parsed, incomplete, invalid, parsed, known_opcode, PayloadLength, short, refused, known,
  payload_length, extended_16, extended_64, unmask, parse_payload, parse, frame_bytes, frame_header,
  max_control_payload, length_bytes,
}
use parser.WebSocket.Frame.Client.{server_frame, length_code}

-- A frame within the limits of the standard and of the program.
pub record IsSound (max : ℕ) (p : List ℕ) (f : Frame) (used : ℕ) : Type 0 where
  pub opcode_known : known_opcode f.opcode ≡ true
  pub control_fits : bit_and f.opcode 8 ≢ 0 → (f.fin ≡ true) × (length f.payload ≤ 125)
  pub within : length f.payload ≤ max
  pub inside : used ≤ length p
  pub headed : length f.payload + 6 ≤ used

length-unmask : (key : List ℕ) (i : ℕ) (bs : List ℕ) → length (unmask key i bs) ≡ length bs
unfolding unmask
length-unmask key i [] = refl
length-unmask key i (b ∷ bs) = ap suc (length-unmask key (i + 1) bs)

abbrev Vetted : ℕ → List ℕ → Parsed → Type 0
Vetted max p (incomplete n) = Unit
Vetted max p (invalid code reason) = Unit
Vetted max p (parsed f used) = IsSound max p f used

-- The header has at least two bytes.
abbrev HeaderFits : PayloadLength → Type 0
HeaderFits short = Unit
HeaderFits (refused r) = Unit
HeaderFits (known l h) = 2 ≤ h

extended_16-HeaderFits : (p : List ℕ) → HeaderFits (extended_16 p)
unfolding extended_16
extended_16-HeaderFits p = ground arith

extended_64-HeaderFits : (p : List ℕ) → HeaderFits (extended_64 p)
unfolding extended_64
extended_64-HeaderFits p = ground arith

payload_length-HeaderFits : (p : List ℕ) → HeaderFits (payload_length p)
unfolding payload_length
payload_length-HeaderFits p =
    let l = bit_and (get_or p 1 0) 0x7F in
    if_cases HeaderFits (l == 126) (λ _. extended_16-HeaderFits p)
      (λ _. if_cases HeaderFits (l == 127) (λ _. extended_64-HeaderFits p) (λ _. omega arith))

length-payload :
    (p key : List ℕ) (l h : ℕ)
    → h + 4 + l ≤ length p
    → length (unmask key 0 (take l (drop (h + 4) p))) ≡ l
length-payload p key l h e =
    length-unmask key 0 _
    ∙ length-take l (drop (h + 4) p)
    ∙ omega (arith, length-drop {0} (h + 4) p)

control_limits :
    (op : ℕ) (fin : Bool) (l : ℕ) {n : ℕ}
    → (not (bit_and op 8 == 0) && (not fin || ltb max_control_payload l)) ≡ false
    → bit_and op 8 ≢ 0
    → n ≡ l
    → (fin ≡ true) × (n ≤ 125)
control_limits op fin l t c e = ground arith

parse_payload-Vetted :
    (max : ℕ) (p : List ℕ) (fin : Bool) (op : ℕ) (l : PayloadLength)
    → known_opcode op ≡ true
    → HeaderFits l
    → Vetted max p (parse_payload max p fin op l)
unfolding parse_payload
parse_payload-Vetted max p fin op short ok h = tt
parse_payload-Vetted max p fin op (refused r) ok h = tt
parse_payload-Vetted max p fin op (known l h) ok two =
    let P = Vetted max p in
    if_cases P (not (bit_and op 8 == 0) && (not fin || ltb max_control_payload l)) (λ _. tt)
      λ ctl.
        if_cases P (ltb max l) (λ _. tt)
          λ fits.
            if_cases P (ltb (length p) (h + 4 + l)) (λ _. tt)
              λ whole.
                let e = length-payload p (take 4 (drop h p)) l h (ground arith) in
                record {
                  opcode_known = ok;
                  control_fits = λ c. control_limits op fin l ctl c e;
                  within = ground (arith, e);
                  inside = ground arith;
                  headed = omega (arith, e);
                }

parse-Vetted : (max : ℕ) (p : List ℕ) → Vetted max p (parse max p)
unfolding parse
parse-Vetted max p =
    let P = Vetted max p in
    let p0 = get_or p 0 0 in
    if_cases P (ltb (length p) 2) (λ _. tt)
      λ _.
        if_cases P (not (bit_and p0 0x70 == 0)) (λ _. tt)
          λ _.
            if_cases P (bit_and (get_or p 1 0) 0x80 == 0) (λ _. tt)
              λ _.
                if_cases P (not (known_opcode (bit_and p0 0x0F))) (λ _. tt)
                  λ ok.
                    parse_payload-Vetted max p (not (bit_and p0 0x80 == 0)) (bit_and p0 0x0F)
                      (payload_length p) (ground arith) (payload_length-HeaderFits p)

Vetted-IsSound :
    (max : ℕ) (p : List ℕ) (r : Parsed) {f : Frame} {used : ℕ}
    → Vetted max p r
    → r ≡ parsed f used
    → IsSound max p f used
Vetted-IsSound max p (incomplete n) v e = cc
Vetted-IsSound max p (invalid code reason) v e = cc
Vetted-IsSound max p (parsed f' used') {f} {used} v e =
    let ef : f' ≡ f = cc in
    let eu : used' ≡ used = cc in
    subst (λ u. IsSound max p f u) eu (subst (λ g. IsSound max p g used') ef v)

-- A frame that is let through has a known opcode, is whole and short if it is a control frame, holds
-- no more than `max` bytes, and lies inside the unread bytes with its header of at least six.
pub parse-IsSound :
    (max : ℕ) (p : List ℕ) {f : Frame} {used : ℕ}
    → parse max p ≡ parsed f used
    → IsSound max p f used
parse-IsSound max p e = Vetted-IsSound max p _ (parse-Vetted max p) e

or_table : all_below 16 (λ n. bit_or 0x80 n % 256 == 128 + n) ≡ true
unfolding all_below
or_table = refl

frame_header-length_code :
    (op n : ℕ) → op < 16 → n < 2 ^ 64 → frame_header op n ≡ (128 + op) ∷ length_code 0 n
unfolding frame_header length_bytes length_code
frame_header-length_code op n h fits =
    let first : bit_or 0x80 op % 256 ≡ 128 + op =
      (==_iff _ _).0 (all_below_sound 16 _ op or_table h) in
    rw first (
      ap (λ t. (128 + op) ∷ t)
        (elim (Bool-cases (ltb n 126)) [
          | inl t ↦ rw t (ground arith)
          | inr t ↦ rw t (elim (Bool-cases (leb n 0xFFFF)) [
            | inl u ↦ let v : ltb n (2 ^ 16) ≡ true = ground arith in rw (u, v) (ground arith)
            | inr u ↦ let v : ltb n (2 ^ 16) ≡ false = ground arith in rw (u, v) (ground arith)
          ])
        ]))

-- What is sent is an unmasked frame of the standard with the FIN bit.
pub frame_bytes-server_frame :
    (op : ℕ) (payload : List ℕ)
    → op < 16
    → length payload < 2 ^ 64
    → frame_bytes op payload ≡ server_frame op payload
unfolding frame_bytes server_frame
frame_bytes-server_frame op payload h fits =
    ap (λ t. t ++ payload) (frame_header-length_code op (length payload) h fits)
