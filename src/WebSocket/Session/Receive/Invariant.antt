-- ===== src/WebSocket/Session/Receive/Invariant.antt =====
-- The invariant of the connection of src/main/pa_websocket.C, kept by every step of `receive`.
use parser.Prelude.{
  ℕ, ◌+◌, ◌*◌, ◌≤◌, ◌≡◌, ◌≢◌, refl, ap, ◌⊎◌, inl, inr, Bool, true, false, not, ◌&&◌, none, some,
  List, [], ◌∷◌, arith, ltb, ◌==◌, if_cases, length, subst, sym, bit_or, ◌∙◌, length-append,
}
use parser.WebSocket.Buffer
use parser.WebSocket.Buffer.{
  Buffer, unread, size, append, no_bytes, reset, append-unprocessed, append_pos,
}
use parser.WebSocket.Frame.{Frame, text, binary, close, ping, pong, known_opcode}
use parser.WebSocket.Session.{
  Connection, Message, WebSocket, Outcome, returns, throws, stuck, M, after, send_body, write_frame,
  send_close, failed, valid_status, start, new_websocket,
}
use parser.WebSocket.Session.Receive.{
  Step, again, answers, fails, on_ping, on_closed, on_close_status, on_close, deliver, on_fragment,
  on_data, on_frame, pending, work,
}

-- The opcode of a message in parts.
abbrev pub IsPartial : ℕ → Type 0
IsPartial op = (op ≡ 0) ⊎ (op ≡ text) ⊎ (op ≡ binary)

-- The buffers are well formed, and the parts of a message keep to its opcode and to the limit.
pub record IsValid (s : WebSocket) : Type 0 where
  pub reads : Buffer.IsValid s.rbuf
  pub parts : Buffer.IsValid s.msg
  pub parts_at_start : s.msg.pos ≡ 0
  pub parts_fit : s.msg_opcode ≢ 0 → unread s.msg ≤ s.max_message_size
  pub partial_opcode : IsPartial s.msg_opcode

-- The state differs in what was sent only.
pub record Sent {A : Type 0} (s : WebSocket) (r : Outcome A × WebSocket) : Type 0 where
  pub after_send : Connection
  pub state : r.1 ≡ record s { connection = after_send }
  pub events : after_send.events ≡ s.connection.events
  pub ends : r.0 ≢ stuck

pub send_body-Sent :
    (bytes : List ℕ) (fs : List Bool) (s : WebSocket) → Sent s (send_body bytes fs s)
unfolding send_body
send_body-Sent bytes (true ∷ fs) s = record {
  after_send = _;
  state = refl;
  events = refl;
  ends = λ e. cc;
}
send_body-Sent bytes (false ∷ fs) s = record {
  after_send = _;
  state = refl;
  events = refl;
  ends = λ e. cc;
}
send_body-Sent bytes [] s = record { after_send = _; state = refl; events = refl; ends = λ e. cc }

pub write_frame-Sent :
    (op : ℕ) (payload : List ℕ) (s : WebSocket) → Sent s (write_frame op payload s)
unfolding write_frame
write_frame-Sent op payload s = send_body-Sent _ s.connection.send_fails s

pub send_close-Sent :
    (code : ℕ) (reason : List ℕ) (s : WebSocket)
    → Sent (record s { close_sent = true }) (send_close code reason s)
unfolding send_close
send_close-Sent code reason s = write_frame-Sent _ _ _

-- A connection is valid from its start, with the bytes that came behind the headers.
pub start-IsValid :
    (c : Connection) (limit : ℕ) (bytes : List ℕ)
    → IsValid (start limit bytes (new_websocket c))
      × ((start limit bytes (new_websocket c)).rbuf.unprocessed ≡ bytes)
unfolding start new_websocket
start-IsValid c limit bytes =
    let (fits, joined) = append-unprocessed bytes no_bytes (omega arith) in
    (
      record {
        reads = fits;
        parts = omega arith;
        parts_at_start = refl;
        parts_fit = λ _. omega arith;
        partial_opcode = inl refl;
      },
      joined,
    )

module _ (valid_utf8 : List ℕ → Bool) where
  -- A message that `receive` hands out: the end of the connection, or a text or binary message within the limit.
  abbrev pub IsMessage : WebSocket → Message → Type 0
  IsMessage s m =
      ((m.opcode ≡ close) × (s.closed ≡ true))
      ⊎ (((m.opcode ≡ text) ⊎ (m.opcode ≡ binary))
          × (length m.content ≤ s.max_message_size)
          × (m.opcode ≡ text → valid_utf8 m.content ≡ true))

  -- What a step may end with, at most `n` of work left where the loop goes on.
  abbrev pub Ends : ℕ → Outcome Step × WebSocket → Type 0
  Ends n (returns again, s) = IsValid s × (work s ≤ n)
  Ends n (returns (answers none), s) = IsValid s
  Ends n (returns (answers (some m)), s) = IsValid s × IsMessage s m
  Ends n (throws e, s) = IsValid s
  Ends n (stuck, s) = ⊥

  -- The state of the parts may be dropped.
  dropped-IsValid :
      (s : WebSocket) (c : Connection) (sent : Bool)
      → IsValid s
      → IsValid (record s {
        closed = true;
        msg_opcode = 0;
        msg = reset s.msg;
        connection = c;
        close_sent = sent;
      })
  dropped-IsValid s c sent v = record {
    reads = v.reads;
    parts = omega (arith, v.parts);
    parts_at_start = v.parts_at_start;
    parts_fit = λ h. absurd (h refl);
    partial_opcode = inl refl;
  }

  pub fails-Ends :
      (code : ℕ) (reason : List ℕ) (notify : Bool) (s : WebSocket) (n : ℕ)
      → IsValid s
      → Ends n (fails code reason notify s)
  unfolding fails failed
  fails-Ends code reason true s n v =
      let t = send_close-Sent code reason s in
      rw t.state (dropped-IsValid s t.after_send true v, inl (refl, refl))
  fails-Ends code reason false s n v =
      (dropped-IsValid s s.connection s.close_sent v, inl (refl, refl))

  -- Sending leaves the invariant and the work as they are.
  sent-IsValid :
      (s : WebSocket) (c : Connection) → IsValid s → IsValid (record s { connection = c })
  sent-IsValid s c v = record {
    reads = v.reads;
    parts = v.parts;
    parts_at_start = v.parts_at_start;
    parts_fit = v.parts_fit;
    partial_opcode = v.partial_opcode;
  }

  -- What follows a send that did not throw.
  after-Ends :
      (s : WebSocket) (r : Outcome (Unit {0}) × WebSocket) (f : Unit {0} → M Step) (n : ℕ)
      → IsValid s
      → Sent s r
      → ((c : Connection)
          → c.events ≡ s.connection.events
          → Ends n (f tt (record s { connection = c })))
      → Ends n (after r f)
  after-Ends s (returns tt, s') f n v t h =
      subst (λ z. Ends n (f tt z)) (sym t.state) (h t.after_send t.events)
  after-Ends s (throws e, s') f n v t h =
      subst IsValid (sym t.state) (sent-IsValid s t.after_send v)
  after-Ends s (stuck, s') f n v t h = absurd (t.ends refl)

  work_sent :
      (s : WebSocket) (c : Connection)
      → c.events ≡ s.connection.events
      → work (record s { connection = c }) ≡ work s
  unfolding work
  work_sent s c e = ap (λ es. pending es + unread s.rbuf) e

  on_ping-Ends : (payload : List ℕ) (s : WebSocket) → IsValid s → Ends (work s) (on_ping payload s)
  unfolding on_ping
  on_ping-Ends payload s v =
      after-Ends s _ _ (work s) v (write_frame-Sent pong payload s)
        (λ c e. (sent-IsValid s c v, omega (arith, work_sent s c e)))

  closed-IsValid : (s : WebSocket) → IsValid s → IsValid (record s { closed = true })
  closed-IsValid s v = record {
    reads = v.reads;
    parts = v.parts;
    parts_at_start = v.parts_at_start;
    parts_fit = v.parts_fit;
    partial_opcode = v.partial_opcode;
  }

  told-IsValid : (s : WebSocket) → IsValid s → IsValid (record s { close_sent = true })
  told-IsValid s v = record {
    reads = v.reads;
    parts = v.parts;
    parts_at_start = v.parts_at_start;
    parts_fit = v.parts_fit;
    partial_opcode = v.partial_opcode;
  }

  on_closed-Ends :
      (code : ℕ) (reason : List ℕ) (s : WebSocket) (n : ℕ)
      → IsValid s
      → Ends n (on_closed code reason s)
  unfolding on_closed
  on_closed-Ends code reason s n v = (closed-IsValid s v, inl (refl, refl))

  on_close_status-Ends :
      (code : ℕ) (reason : List ℕ) (s : WebSocket) (n : ℕ)
      → IsValid s
      → Ends n (on_close_status code reason s)
  unfolding on_close_status
  on_close_status-Ends code reason s n v =
      if_cases (Ends n) (not s.close_sent)
        (λ _.
          after-Ends _ _ _ n (told-IsValid s v) (send_close-Sent code reason s)
            (λ c _. on_closed-Ends code reason _ n (sent-IsValid _ c (told-IsValid s v))))
        (λ _. on_closed-Ends code reason s n v)

  on_close-Ends :
      (payload : List ℕ) (s : WebSocket) (n : ℕ)
      → IsValid s
      → Ends n (on_close valid_utf8 payload s)
  unfolding on_close
  on_close-Ends [] s n v = on_close_status-Ends _ _ s n v
  on_close-Ends (b0 ∷ []) s n v = fails-Ends _ _ true s n v
  on_close-Ends (b0 ∷ b1 ∷ reason) s n v =
      let code = bit_or (b0 * 256) b1 in
      if_cases (Ends n) (not (valid_status code)) (λ _. fails-Ends _ _ true s n v)
        λ _.
          if_cases (Ends n) (not (valid_utf8 reason)) (λ _. fails-Ends _ _ true s n v)
            (λ _. on_close_status-Ends code reason s n v)

  -- Of a message that came in parts, or in one frame.
  abbrev IsWhole : ℕ → Type 0
  IsWhole op = (op ≡ text) ⊎ (op ≡ binary)

  deliver-Ends :
      (opcode : ℕ) (content : List ℕ) (s : WebSocket) (n : ℕ)
      → IsValid s
      → IsWhole opcode
      → length content ≤ s.max_message_size
      → Ends n (deliver valid_utf8 opcode content s)
  unfolding deliver
  deliver-Ends opcode content s n v whole fits =
      if_cases (Ends n) (opcode == text && not (valid_utf8 content))
        (λ _. fails-Ends _ _ true s n v) (λ e. (v, inr (whole, fits, λ q. ground arith)))

  -- The parts with one more.
  module _ (f : Frame) (s : WebSocket) (v : IsValid s) where
    length-appended :
        ltb s.max_message_size (size s.msg + length f.payload) ≡ false
        → unread (append f.payload s.msg) ≤ s.max_message_size
    length-appended fits =
        let joined = (append-unprocessed f.payload s.msg v.parts).1 in
        let e : unread (append f.payload s.msg) ≡ unread s.msg + length f.payload =
          ap length joined ∙ length-append s.msg.unprocessed f.payload in
        ground (arith, e)

    appended-IsValid :
        (op : ℕ)
        → IsPartial op
        → ltb s.max_message_size (size s.msg + length f.payload) ≡ false
        → IsValid (record s { msg = append f.payload s.msg; msg_opcode = op })
    appended-IsValid op known fits = record {
      reads = v.reads;
      parts = (append-unprocessed f.payload s.msg v.parts).0;
      parts_at_start = append_pos f.payload s.msg v.parts_at_start;
      parts_fit = λ _. length-appended fits;
      partial_opcode = known;
    }

    work_parts : (b : Buffer) → work (record s { msg = b }) ≡ work s
    unfolding work
    work_parts b = refl

  on_fragment-Ends :
      (f : Frame) (s : WebSocket)
      → IsValid s
      → IsWhole s.msg_opcode
      → Ends (work s) (on_fragment valid_utf8 f s)
  unfolding on_fragment
  on_fragment-Ends f s v whole =
      if_cases (Ends (work s)) (ltb s.max_message_size (size s.msg + length f.payload))
        (λ _. fails-Ends _ _ true s _ v)
        (λ fits.
          if_cases (Ends (work s)) (not f.fin)
            (λ _. (
              appended-IsValid f s v s.msg_opcode (inr whole) fits,
              omega (arith, work_parts f s v (append f.payload s.msg)),
            ))
            (λ _.
              deliver-Ends s.msg_opcode _ _ _ (appended-IsValid f s v 0 (inl refl) fits) whole
                (length-appended f s v fits)))

  started-IsValid :
      (op : ℕ) (s : WebSocket)
      → IsValid s
      → IsPartial op
      → IsValid (record s { msg_opcode = op; msg = reset s.msg })
  started-IsValid op s v known = record {
    reads = v.reads;
    parts = omega (arith, v.parts);
    parts_at_start = v.parts_at_start;
    parts_fit = λ _. omega arith;
    partial_opcode = known;
  }

  work_started :
      (op : ℕ) (s : WebSocket) → work (record s { msg_opcode = op; msg = reset s.msg }) ≡ work s
  unfolding work
  work_started op s = refl

  nonzero-IsWhole : (op : ℕ) → IsPartial op → (op == 0) ≡ false → IsWhole op
  nonzero-IsWhole op (inl z) e = ground arith
  nonzero-IsWhole op (inr w) e = w

  on_data-Ends :
      (f : Frame) (s : WebSocket)
      → IsValid s
      → IsPartial f.opcode
      → length f.payload ≤ s.max_message_size
      → Ends (work s) (on_data valid_utf8 f s)
  unfolding on_data
  on_data-Ends f s v known fits =
      let P = Ends (work s) in
      if_cases P (f.opcode == 0)
        (λ _.
          if_cases P (s.msg_opcode == 0) (λ _. fails-Ends _ _ true s _ v)
            (λ e. on_fragment-Ends f s v (nonzero-IsWhole s.msg_opcode v.partial_opcode e)))
        (λ first.
          if_cases P (not (s.msg_opcode == 0)) (λ _. fails-Ends _ _ true s _ v)
            (λ _.
              if_cases P f.fin
                (λ _.
                  deliver-Ends f.opcode f.payload s _ v (nonzero-IsWhole f.opcode known first) fits)
                (λ _.
                  subst
                    (λ n. Ends n (
                      on_fragment valid_utf8 f
                        (record s { msg_opcode = f.opcode; msg = reset s.msg })))
                    (work_started f.opcode s)
                    (on_fragment-Ends f _ (started-IsValid f.opcode s v known)
                      (nonzero-IsWhole f.opcode known first)))))

  data_opcode :
      (op : ℕ)
      → known_opcode op ≡ true
      → (op == ping) ≡ false
      → (op == pong) ≡ false
      → (op == close) ≡ false
      → IsPartial op
  unfolding known_opcode
  data_opcode op ok e1 e2 e3 = ground arith

  pub on_frame-Ends :
      (f : Frame) (s : WebSocket)
      → IsValid s
      → known_opcode f.opcode ≡ true
      → length f.payload ≤ s.max_message_size
      → Ends (work s) (on_frame valid_utf8 f s)
  unfolding on_frame
  on_frame-Ends f s v ok fits =
      let P = Ends (work s) in
      if_cases P (f.opcode == ping) (λ _. on_ping-Ends f.payload s v)
        λ e1.
          if_cases P (f.opcode == pong) (λ _. (v, omega arith))
            λ e2.
              if_cases P (f.opcode == close) (λ _. on_close-Ends f.payload s _ v)
                λ e3. on_data-Ends f s v (data_opcode f.opcode ok e1 e2 e3) fits
