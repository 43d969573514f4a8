-- ===== src/WebSocket/Session/Receive/Fragments.antt =====
-- A message in parts: `receive` of src/main/pa_websocket.C puts the fragments of a client together, and
-- handles the control frames between them.
use parser.Prelude.{
  ℕ, zero, suc, ◌^◌, ◌≤◌, ◌<◌, ◌≡◌, refl, ap, sym, subst, ◌∙◌, inr, Bool, true, false, Option, some,
  List, [], ◌∷◌, ◌++◌, append-nil, append_assoc, arith, if◌then◌else◌, length, length-append,
}
use parser.WebSocket.Buffer.{append-unprocessed, reset}
use parser.WebSocket.Frame.{text, ping, pong}
use parser.WebSocket.Session.{closed_connection, Message, WebSocket, returns, throws}
use parser.WebSocket.Session.Receive.{again, answers, message, round, work, loop, receive}
use parser.WebSocket.Session.Receive.Invariant.{IsValid}
use parser.WebSocket.Session.Receive.Total.{Falls, round-Falls}
use parser.WebSocket.Session.Receive.Parts.{
  Part, IsPart, part_frame, Piece, fragment, ping_of, pong_of, continuation, content, pongs,
  ArePieces, IsWhole, collect, behind, round-part_frame, on_data-starts,
}
use parser.WebSocket.Session.Receive.Rounds.{
  InParts, GoesOn, round-continues, round-ping, round-pong, round-ends,
}

module _ (valid_utf8 : List ℕ → Bool) where
  receive-loop :
      (s : WebSocket) → s.closed ≡ false → receive valid_utf8 s ≡ loop valid_utf8 (suc (work s)) s
  unfolding receive
  receive-loop s e =
      ap (λ b. if b then (throws closed_connection, s) else loop valid_utf8 (suc (work s)) s) e

  loop-again :
      (rounds : ℕ) (s s' : WebSocket)
      → round valid_utf8 s ≡ (returns again, s')
      → loop valid_utf8 (suc rounds) s ≡ loop valid_utf8 rounds s'
  unfolding loop
  loop-again rounds s s' e = rw e

  loop-answers :
      (rounds : ℕ) (s s' : WebSocket) (m : Option Message)
      → round valid_utf8 s ≡ (returns (answers m), s')
      → loop valid_utf8 (suc rounds) s ≡ (returns m, s')
  unfolding loop
  loop-answers rounds s s' m e = rw e

  -- The rounds that are left, from the frames that are left.
  Collects : ℕ → WebSocket → ℕ → List ℕ → List ℕ → List (List ℕ) → Type 0
  Collects rounds s op whole rest told =
      (s' : WebSocket) × (loop valid_utf8 rounds s ≡ (returns (some (message op whole 0)), s'))
      × (s'.rbuf.unprocessed ≡ rest)
      × (s'.connection.sent ≡ s.connection.sent ++ told)

  -- One more round in front of them.
  round-Collects :
      (rounds : ℕ) (s : WebSocket) (op : ℕ) (done left whole rest : List ℕ)
      (told more : List (List ℕ))
      → GoesOn valid_utf8 s op done left told
      → ((s1 : WebSocket)
          → InParts s1 op done left
          → s1.max_message_size ≡ s.max_message_size
          → work s1 < work s
          → Collects rounds s1 op whole rest more)
      → Collects (suc rounds) s op whole rest (told ++ more)
  unfolding GoesOn Collects
  round-Collects rounds s op done left whole rest told more (s1, run, i, same, less, now) next =
      let (s', run', behind', later) = next s1 i same less in
      (
        s',
        loop-again rounds s s1 run ∙ run',
        behind',
        later ∙ ap (λ t. t ++ more) now ∙ append_assoc s.connection.sent told more,
      )

  abbrev regrouped :
      {s : WebSocket} {op : ℕ} {done : List ℕ} (a b c : List ℕ)
      → InParts s op done ((a ++ b) ++ c)
      → InParts s op done (a ++ (b ++ c))
  regrouped a b c i = record {
    valid = i.valid;
    opcode = i.opcode;
    collected = i.collected;
    bytes = i.bytes ∙ append_assoc a b c;
    sends = i.sends;
  }

  abbrev AllSaid : ℕ → List ℕ → ℕ → Type 0
  AllSaid op whole max =
      (length whole ≤ max) × (max < 2 ^ 63) × (op ≡ text → valid_utf8 whole ≡ true)

  loop-content :
      (rounds : ℕ) (s : WebSocket) (op : ℕ) (ps : List Piece) (last : Part) (done rest : List ℕ)
      → InParts s op done (continuation ps last ++ rest)
      → IsWhole op
      → ArePieces s.max_message_size ps last
      → AllSaid op (done ++ content ps last) s.max_message_size
      → work s < rounds
      → Collects rounds s op (done ++ content ps last) rest (pongs ps)
  unfolding Collects
  loop-content zero s op ps last done rest i whole parts said h = absurd (omega arith)
  loop-content (suc rounds) s op [] last done rest i whole parts (fits, limit, ok) h =
      let (s', run, left, told) =
        round-ends valid_utf8 s op last done rest i whole parts
          (omega (arith, length-append {0} done last.payload)) limit ok in
      (s', loop-answers rounds s s' _ run, left, told ∙ sym (append-nil s.connection.sent))
  loop-content (suc rounds) s op (fragment p ∷ ps) last done rest i whole (part, parts) said h =
      let (fits, limit, ok) = said in
      let regroup = append_assoc done p.payload (content ps last) in
      let goes =
        round-continues valid_utf8 s op p done (continuation ps last ++ rest)
          (regrouped (part_frame false 0 p) (continuation ps last) rest i) whole part
          (omega (
            arith,
            ap length regroup,
            length-append {0} (done ++ p.payload) (content ps last),
            length-append {0} done p.payload,
          ))
          limit in
      subst (λ w. Collects (suc rounds) s op w rest (pongs ps)) regroup
        (round-Collects rounds s op (done ++ p.payload) _ _ rest [] (pongs ps) goes
          λ s1 i1 same less.
            loop-content rounds s1 op ps last (done ++ p.payload) rest i1 whole
              (subst (λ m. ArePieces m ps last) (sym same) parts)
              (subst (AllSaid op ((done ++ p.payload) ++ content ps last)) (sym same)
                (subst (λ w. AllSaid op w s.max_message_size) (sym regroup) said))
              (omega arith))
  loop-content (suc rounds) s op (ping_of p ∷ ps) last done rest i whole (control, parts) said h =
      let goes =
        round-ping valid_utf8 s op p done (continuation ps last ++ rest) control said.1
          (regrouped (part_frame true ping p) (continuation ps last) rest i) in
      round-Collects rounds s op done _ _ rest _ (pongs ps) goes λ s1 i1 same less.
        loop-content rounds s1 op ps last done rest i1 whole
          (subst (λ m. ArePieces m ps last) (sym same) parts)
          (subst (AllSaid op (done ++ content ps last)) (sym same) said) (omega arith)
  loop-content (suc rounds) s op (pong_of p ∷ ps) last done rest i whole (control, parts) said h =
      let goes =
        round-pong valid_utf8 s op p done (continuation ps last ++ rest) control said.1
          (regrouped (part_frame true pong p) (continuation ps last) rest i) in
      round-Collects rounds s op done _ _ rest [] (pongs ps) goes λ s1 i1 same less.
        loop-content rounds s1 op ps last done rest i1 whole
          (subst (λ m. ArePieces m ps last) (sym same) parts)
          (subst (AllSaid op (done ++ content ps last)) (sym same) said) (omega arith)

  -- A message that the client sends in two frames or more is received as one: `receive` returns the parts
  -- joined, under the opcode of the first, and leaves the bytes behind the last frame. Behind the first frame
  -- there may be pings and pongs, which leave the message as it is; each ping is answered with a pong of the
  -- same payload, in order, and nothing else is sent. The connection is valid and open, it is not in the
  -- middle of a message, no send fails, and its limit is below 2^63. All these frames are in the buffer
  -- already and stand first in it, so that nothing is read from the socket; they are masked as a client's
  -- are, of bytes, and a ping or a pong holds 125 bytes at most and no more than the limit. The message is
  -- within the limit, and a text is valid UTF-8.
  pub receive-content :
      (s : WebSocket) (op : ℕ) (first last : Part) (ps : List Piece) (rest : List ℕ)
      → IsValid s
      → s.closed ≡ false
      → s.msg_opcode ≡ 0
      → s.connection.send_fails ≡ []
      → s.rbuf.unprocessed ≡ part_frame false op first ++ (continuation ps last ++ rest)
      → IsWhole op
      → IsPart first
      → ArePieces s.max_message_size ps last
      → length (first.payload ++ content ps last) ≤ s.max_message_size
      → s.max_message_size < 2 ^ 63
      → (op ≡ text → valid_utf8 (first.payload ++ content ps last) ≡ true)
      → (s' : WebSocket) × (receive valid_utf8 s
          ≡ (returns (some (message op (first.payload ++ content ps last) 0)), s'))
        × (s'.rbuf.unprocessed ≡ rest)
        × (s'.connection.sent ≡ s.connection.sent ++ pongs ps)
  unfolding Collects
  receive-content s op first last ps rest v open_yet idle sends bytes whole part parts fits limit
        ok =
      let after_first = continuation ps last ++ rest in
      let s1 = behind after_first (length (part_frame false op first)) s in
      let s2 = collect first.payload (record s1 { msg_opcode = op; msg = reset s.msg }) in
      let small : length first.payload ≤ s.max_message_size =
        omega (arith, length-append {0} first.payload (content ps last)) in
      let run : round valid_utf8 s ≡ (returns again, s2) =
        round-part_frame valid_utf8 s false op first after_first bytes (inr whole) part small limit
        ∙ on_data-starts valid_utf8 s1 op first.payload idle whole v.parts_at_start small in
      let fall = subst (Falls valid_utf8 (work s)) run (round-Falls valid_utf8 s v) in
      let i : InParts s2 op first.payload after_first = record {
        valid = fall.0;
        opcode = refl;
        collected = (append-unprocessed first.payload (reset s.msg) (omega (arith, v.parts))).1;
        bytes = refl;
        sends = sends;
      } in
      let (s', run', left, told) =
        loop-content (work s) s2 op ps last first.payload rest i whole parts (fits, limit, ok)
          fall.1 in
      (s', receive-loop s open_yet ∙ loop-again (work s) s s2 run ∙ run', left, told)
