-- ===== src/WebSocket/Session/Receive/Rounds.antt =====
-- One round of `receive` of src/main/pa_websocket.C in the middle of a message: over a fragment, over a
-- control frame between the fragments, and over the last fragment.
use parser.Prelude.{
  ℕ, ◌+◌, ◌^◌, ◌≤◌, ◌<◌, ◌≡◌, refl, ap, ap₂, sym, subst, ◌∙◌, inl, Bool, true, false, some, List,
  [], ◌∷◌, ◌++◌, append-nil, arith, length,
}
use parser.WebSocket.Buffer.{size, append, append-unprocessed}
use parser.WebSocket.Frame.{text, ping, pong, known_opcode, frame_bytes}
use parser.WebSocket.Session.{WebSocket, returns, after, send_body, write_frame}
use parser.WebSocket.Session.Receive.{
  again, answers, message, on_ping, on_frame, deliver, round, work,
}
use parser.WebSocket.Session.Receive.Invariant.{IsValid}
use parser.WebSocket.Session.Receive.Total.{Falls, round-Falls}
use parser.WebSocket.Session.Receive.Parts.{
  Part, IsPart, part_frame, IsControl, IsWhole, collect, behind, round-frame, round-part_frame,
  on_data-collects, on_data-ends, deliver-message,
}

-- The parts of a message that are there, and the bytes that are not read yet; every send succeeds.
pub record InParts (s : WebSocket) (op : ℕ) (done unread_bytes : List ℕ) : Type 0 where
  pub valid : IsValid s
  pub opcode : s.msg_opcode ≡ op
  pub collected : s.msg.unprocessed ≡ done
  pub bytes : s.rbuf.unprocessed ≡ unread_bytes
  pub sends : s.connection.send_fails ≡ []

module _ (valid_utf8 : List ℕ → Bool) where
  -- A round that leads to the next one, and what it sends.
  unfoldable pub GoesOn : WebSocket → ℕ → List ℕ → List ℕ → List (List ℕ) → Type 0
  GoesOn s op done rest told =
      (s' : WebSocket) × (round valid_utf8 s ≡ (returns again, s'))
      × InParts s' op done rest
      × (s'.max_message_size ≡ s.max_message_size)
      × (work s' < work s)
      × (s'.connection.sent ≡ s.connection.sent ++ told)

  -- A continuation frame without FIN.
  pub round-continues :
      (s : WebSocket) (op : ℕ) (p : Part) (done rest : List ℕ)
      → InParts s op done (part_frame false 0 p ++ rest)
      → IsWhole op
      → IsPart p
      → length done + length p.payload ≤ s.max_message_size
      → s.max_message_size < 2 ^ 63
      → GoesOn s op (done ++ p.payload) rest []
  unfolding GoesOn
  round-continues s op p done rest i whole part fits limit =
      let s1 = behind rest (length (part_frame false 0 p)) s in
      let v = i.valid in
      let room : size s.msg + length p.payload ≤ s.max_message_size =
        omega (arith, v.parts_at_start, ap length i.collected) in
      let run : round valid_utf8 s ≡ (returns again, collect p.payload s1) =
        round-part_frame valid_utf8 s false 0 p rest i.bytes (inl refl) part (omega arith) limit
        ∙ on_data-collects valid_utf8 s1 p.payload (subst IsWhole (sym i.opcode) whole) room in
      let fall = subst (Falls valid_utf8 (work s)) run (round-Falls valid_utf8 s v) in
      (
        collect p.payload s1,
        run,
        record {
          valid = fall.0;
          opcode = i.opcode;
          collected =
              (append-unprocessed p.payload s.msg v.parts).1 ∙ ap (λ u. u ++ p.payload) i.collected;
          bytes = refl;
          sends = i.sends;
        },
        refl,
        fall.1,
        sym (append-nil s.connection.sent),
      )

  -- A ping is answered with its payload.
  abbrev answered : List ℕ → WebSocket → WebSocket
  answered payload s = record s {
    connection = record (s.connection) {
      sent = s.connection.sent ++ (frame_bytes pong payload ∷ []);
    };
  }

  on_frame-ping :
      (payload : List ℕ) (s : WebSocket)
      → s.connection.send_fails ≡ []
      → on_frame valid_utf8 (record { fin = true; opcode = ping; payload = payload }) s
        ≡ (returns again, answered payload s)
  unfolding on_frame on_ping write_frame send_body
  on_frame-ping payload s e =
      ap
        (λ fails.
          after (send_body (frame_bytes pong payload) fails s) (λ _ s'. (returns again, s')))
        e

  on_frame-pong :
      (payload : List ℕ) (s : WebSocket)
      → on_frame valid_utf8 (record { fin = true; opcode = pong; payload = payload }) s
        ≡ (returns again, s)
  unfolding on_frame
  on_frame-pong payload s = refl

  module _ (s : WebSocket) (op : ℕ) (p : Part) (done rest : List ℕ)
      (control : IsControl s.max_message_size p) (limit : s.max_message_size < 2 ^ 63) where
    pub round-ping :
        InParts s op done (part_frame true ping p ++ rest)
        → GoesOn s op done rest (frame_bytes pong p.payload ∷ [])
    unfolding GoesOn known_opcode
    round-ping i =
        let s1 = behind rest (length (part_frame true ping p)) s in
        let (part, short, fits) = control in
        let run : round valid_utf8 s ≡ (returns again, answered p.payload s1) =
          round-frame valid_utf8 s true ping p rest i.bytes refl (λ _. (refl, short)) part fits
            limit
          ∙ on_frame-ping p.payload s1 i.sends in
        let fall = subst (Falls valid_utf8 (work s)) run (round-Falls valid_utf8 s i.valid) in
        (
          answered p.payload s1,
          run,
          record {
            valid = fall.0;
            opcode = i.opcode;
            collected = i.collected;
            bytes = refl;
            sends = i.sends;
          },
          refl,
          fall.1,
          refl,
        )

    pub round-pong : InParts s op done (part_frame true pong p ++ rest) → GoesOn s op done rest []
    unfolding GoesOn known_opcode
    round-pong i =
        let s1 = behind rest (length (part_frame true pong p)) s in
        let (part, short, fits) = control in
        let run : round valid_utf8 s ≡ (returns again, s1) =
          round-frame valid_utf8 s true pong p rest i.bytes refl (λ _. (refl, short)) part fits
            limit
          ∙ on_frame-pong p.payload s1 in
        let fall = subst (Falls valid_utf8 (work s)) run (round-Falls valid_utf8 s i.valid) in
        (
          s1,
          run,
          record {
            valid = fall.0;
            opcode = i.opcode;
            collected = i.collected;
            bytes = refl;
            sends = i.sends;
          },
          refl,
          fall.1,
          sym (append-nil s.connection.sent),
        )

  -- The round over the last frame hands out the message.
  pub round-ends :
      (s : WebSocket) (op : ℕ) (p : Part) (done rest : List ℕ)
      → InParts s op done (part_frame true 0 p ++ rest)
      → IsWhole op
      → IsPart p
      → length done + length p.payload ≤ s.max_message_size
      → s.max_message_size < 2 ^ 63
      → (op ≡ text → valid_utf8 (done ++ p.payload) ≡ true)
      → (s' : WebSocket) × (round valid_utf8 s
          ≡ (returns (answers (some (message op (done ++ p.payload) 0))), s'))
        × (s'.rbuf.unprocessed ≡ rest)
        × (s'.connection.sent ≡ s.connection.sent)
  round-ends s op p done rest i whole part fits limit ok =
      let s1 = behind rest (length (part_frame true 0 p)) s in
      let v = i.valid in
      let s2 = record (collect p.payload s1) { msg_opcode = 0 } in
      let room : size s.msg + length p.payload ≤ s.max_message_size =
        omega (arith, v.parts_at_start, ap length i.collected) in
      let joined : (append p.payload s.msg).unprocessed ≡ done ++ p.payload =
        (append-unprocessed p.payload s.msg v.parts).1 ∙ ap (λ u. u ++ p.payload) i.collected in
      (
        s2,
        round-part_frame valid_utf8 s true 0 p rest i.bytes (inl refl) part (omega arith) limit
            ∙ on_data-ends valid_utf8 s1 p.payload (subst IsWhole (sym i.opcode) whole) room
            ∙ ap₂ (λ o b. deliver valid_utf8 o b s2) i.opcode joined
            ∙ deliver-message valid_utf8 op (done ++ p.payload) s2 ok,
        refl,
        refl,
      )
