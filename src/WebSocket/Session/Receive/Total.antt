-- ===== src/WebSocket/Session/Receive/Total.antt =====
-- `receive` of src/main/pa_websocket.C ends, whatever the client sends.
use parser.Prelude.{
  ℕ, zero, suc, ◌+◌, ◌≤◌, ◌<◌, ◌≡◌, refl, ap, sym, subst, ◌∙◌, inl, inr, Bool, true, false, Option,
  none, some, List, arith, if_cases, drop, length-drop,
}
use parser.WebSocket.Buffer
use parser.WebSocket.Buffer.{unread}
use parser.WebSocket.Frame.{Parsed, incomplete, invalid, parsed, abnormal}
use parser.WebSocket.Frame.Sound.{parse-IsSound}
use parser.WebSocket.Session.{
  failed, Message, WebSocket, Outcome, returns, throws, stuck, after, note, verdict,
}
use parser.WebSocket.Session.Fill.{Reads, Filled, fill-Filled}
use parser.WebSocket.Session.Receive.{
  Step, again, answers, fails, on_filled, on_verdict, round, work, loop, receive,
}
use parser.WebSocket.Session.Receive.Invariant.{
  IsValid, IsPartial, IsMessage, Ends, fails-Ends, on_frame-Ends,
}

-- The invariant survives a read.
Reads-IsValid : {s s' : WebSocket} → IsValid s → Reads s s' → IsValid s'
Reads-IsValid {s} {s'} v r = record {
  reads = r.valid;
  parts = subst Buffer.IsValid (sym r.msg) v.parts;
  parts_at_start = ap (λ (b : Buffer.Buffer). b.pos) r.msg ∙ v.parts_at_start;
  parts_fit = λ h. rw (r.msg, r.limit) (v.parts_fit (λ e. h (r.msg_opcode ∙ e)));
  partial_opcode = subst IsPartial (sym r.msg_opcode) v.partial_opcode;
}

module _ (valid_utf8 : List ℕ → Bool) where
  -- As `Ends`, with less than `n` of work left.
  abbrev pub Falls : ℕ → Outcome Step × WebSocket → Type 0
  Falls n (returns again, s) = IsValid s × (work s < n)
  Falls n (returns (answers none), s) = IsValid s
  Falls n (returns (answers (some m)), s) = IsValid s × IsMessage valid_utf8 s m
  Falls n (throws e, s) = IsValid s
  Falls n (stuck, s) = ⊥

  Ends-Falls : (n k : ℕ) (r : Outcome Step × WebSocket) → Ends valid_utf8 n r → n < k → Falls k r
  Ends-Falls n k (returns again, s) e h = (e.0, omega (arith, e.1))
  Ends-Falls n k (returns (answers none), s) e h = e
  Ends-Falls n k (returns (answers (some m)), s) e h = e
  Ends-Falls n k (throws x, s) e h = e
  Ends-Falls n k (stuck, s) e h = e

  fails-Falls :
      (code : ℕ) (reason : List ℕ) (notify : Bool) (s : WebSocket) (k : ℕ)
      → IsValid s
      → Falls k (fails code reason notify s)
  unfolding fails failed
  fails-Falls code reason notify s k v = fails-Ends valid_utf8 code reason notify s 0 v

  fill_round-Falls :
      (s : WebSocket) (k : ℕ) (r : Outcome Bool × WebSocket)
      → IsValid s
      → work s ≤ k
      → Filled s r
      → Falls k (after r on_filled)
  unfolding on_filled
  fill_round-Falls s k (returns true, s') v h (read, inl e) =
      if_cases (Falls k) s'.eof (λ _. fails-Falls abnormal _ false s' k (Reads-IsValid v read))
        (λ q. cc)
  fill_round-Falls s k (returns true, s') v h (read, inr less) =
      if_cases (Falls k) s'.eof (λ _. fails-Falls abnormal _ false s' k (Reads-IsValid v read))
        (λ _. (Reads-IsValid v read, omega arith))
  fill_round-Falls s k (returns false, s') v h read = Reads-IsValid v read
  fill_round-Falls s k (throws x, s') v h read = Reads-IsValid v read
  fill_round-Falls s k (stuck, s') v h read = absurd read

  -- A state with other bookkeeping of the parser, and with bytes taken from the buffer.
  noted-IsValid :
      (s : WebSocket) (n code used : ℕ) (reason : List ℕ)
      → IsValid s
      → used ≤ unread s.rbuf
      → IsValid (record s {
        need = n;
        error_code = code;
        error_reason = reason;
        rbuf = record (s.rbuf) {
          unprocessed = drop used s.rbuf.unprocessed;
          pos = s.rbuf.pos + used;
        };
      })
  noted-IsValid s n code used reason v h = record {
    reads = omega (arith, v.reads, length-drop {0} used s.rbuf.unprocessed);
    parts = v.parts;
    parts_at_start = v.parts_at_start;
    parts_fit = v.parts_fit;
    partial_opcode = v.partial_opcode;
  }

  noted_need :
      (s : WebSocket) (n code : ℕ) (reason : List ℕ)
      → IsValid s
      → IsValid (record s { need = n; error_code = code; error_reason = reason })
  noted_need s n code reason v = record {
    reads = v.reads;
    parts = v.parts;
    parts_at_start = v.parts_at_start;
    parts_fit = v.parts_fit;
    partial_opcode = v.partial_opcode;
  }

  work-taken :
      (s : WebSocket) (n used : ℕ)
      → used ≤ unread s.rbuf
      → work (record s {
        need = n;
        rbuf = record (s.rbuf) {
          unprocessed = drop used s.rbuf.unprocessed;
          pos = s.rbuf.pos + used;
        };
      })
          + used
        ≡ work s
  unfolding work
  work-taken s n used h = omega (arith, length-drop {0} used s.rbuf.unprocessed)

  work-need :
      (s : WebSocket) (n code : ℕ) (reason : List ℕ)
      → work (record s { need = n; error_code = code; error_reason = reason }) ≡ work s
  unfolding work
  work-need s n code reason = refl

  on_verdict-Falls :
      (s : WebSocket) (r : Parsed)
      → verdict s ≡ r
      → IsValid s
      → Falls (work s) (on_verdict valid_utf8 r (note r s))
  unfolding on_verdict note
  on_verdict-Falls s (incomplete n) e v =
      let v' = noted_need s n s.error_code s.error_reason v in
      fill_round-Falls _ (work s) _ v' (omega (arith, work-need s n s.error_code s.error_reason))
        (fill-Filled _ v'.reads)
  on_verdict-Falls s (invalid code reason) e v =
      fails-Falls code reason true _ (work s) (noted_need s 0 code reason v)
  on_verdict-Falls s (parsed f used) e v =
      let t = parse-IsSound s.max_message_size s.rbuf.unprocessed e in
      let v' = noted-IsValid s 0 s.error_code used s.error_reason v t.inside in
      Ends-Falls _ (work s) _ (on_frame-Ends valid_utf8 f _ v' t.opcode_known t.within)
        (omega (arith, work-taken s 0 used t.inside, t.headed))

  pub round-Falls : (s : WebSocket) → IsValid s → Falls (work s) (round valid_utf8 s)
  unfolding round
  round-Falls s v = on_verdict-Falls s (verdict s) refl v

  -- What `receive` ends with: a message or a timeout, or an exception, with the invariant kept.
  abbrev pub Received : Outcome (Option Message) × WebSocket → Type 0
  Received (returns none, s) = IsValid s
  Received (returns (some m), s) = IsValid s × IsMessage valid_utf8 s m
  Received (throws e, s) = IsValid s
  Received (stuck, s) = ⊥

  loop-Received :
      (rounds : ℕ) (s : WebSocket)
      → IsValid s
      → work s < rounds
      → Received (loop valid_utf8 rounds s)
  unfolding loop
  loop-Received zero s v h = absurd (omega arith)
  loop-Received (suc rounds) s v h =
      go (round valid_utf8 s) (round-Falls s v) (loop-Received rounds)
    where
      go :
          (r : Outcome Step × WebSocket)
          → Falls (work s) r
          → ((s' : WebSocket)
              → IsValid s'
              → work s' < rounds
              → Received (loop valid_utf8 rounds s'))
          → Received (
              after r λ where_to s'. elim where_to [
                | again ↦ loop valid_utf8 rounds s'
                | answers m ↦ (returns m, s')
              ])
      go (returns again, s') f ih = ih s' f.0 (omega (arith, f.1))
      go (returns (answers none), s') f ih = f
      go (returns (answers (some m)), s') f ih = f
      go (throws e, s') f ih = f
      go (stuck, s') f ih = absurd f

  -- Whatever the socket delivers, `receive` on a valid connection comes to an end and keeps it valid. What it
  -- delivers is finite; then every wait ends with a timeout, or the end of the stream, once it is there, is the
  -- answer to each further read. A message that `receive` hands out is a Close, with the connection closed, or a
  -- text or binary message within the limit, a text being valid UTF-8.
  pub receive-Received : (s : WebSocket) → IsValid s → Received (receive valid_utf8 s)
  unfolding receive
  receive-Received s v =
      if_cases Received s.closed (λ _. v) (λ _. loop-Received (suc (work s)) s v (omega arith))
