-- ===== src/WebSocket/Session/Fill.antt =====
-- What reading from the socket changes in the connection of src/main/pa_websocket.C.
use Prim.Native.Nat.{max}
use parser.Prelude.{
  ℕ, suc, ◌+◌, ◌-◌, ◌*◌, ◌≤◌, ◌<◌, ◌≡◌, ◌≢◌, refl, ap, ◌⊎◌, inl, inr, Bool, true, false, List, [],
  ◌∷◌, ◌++◌, arith, ltb, ◌==◌, if◌then◌else◌, length, take, drop, length-append, length-take,
  length-drop, Bool-cases,
}
use parser.WebSocket.Buffer
use parser.WebSocket.Buffer.{Buffer, unread, size, fit, fit-Fits}
use parser.WebSocket.Session.{
  Event, not_ready, wait_fails, read_fails, arrives, WebSocket, Outcome, returns, throws, stuck,
  grow, with_events, put_back, take_in, fill_by, fill,
}
use parser.WebSocket.Session.Receive.{pending, work}

-- The state behind a read: the message in parts and the flags are as before.
pub record Reads (s s' : WebSocket) : Type 0 where
  pub msg : s'.msg ≡ s.msg
  pub msg_opcode : s'.msg_opcode ≡ s.msg_opcode
  pub limit : s'.max_message_size ≡ s.max_message_size
  pub closed : s'.closed ≡ s.closed
  pub close_sent : s'.close_sent ≡ s.close_sent
  pub sent : s'.connection.sent ≡ s.connection.sent
  pub valid : Buffer.IsValid s'.rbuf

-- What `fill` ends with: data, the end of the stream, a timeout or an exception.
abbrev pub Filled : WebSocket → Outcome Bool × WebSocket → Type 0
Filled s (returns true, s') = Reads s s' × ((s'.eof ≡ true) ⊎ (work s' < work s))
Filled s (returns false, s') = Reads s s'
Filled s (throws e, s') = Reads s s'
Filled s (stuck, s') = ⊥

pending-arrives :
    (bytes : List ℕ) (es : List Event)
    → pending (arrives bytes ∷ es) ≡ suc (2 * length bytes + pending es)
unfolding pending
pending-arrives bytes es = refl

pending-put_back :
    (bs : List ℕ) (es : List Event) → pending (put_back bs es) ≤ suc (2 * length bs + pending es)
unfolding pending put_back
pending-put_back [] es = omega arith
pending-put_back (b ∷ bs) es = omega arith

-- Bytes that move from the socket to the buffer are less work there.
moved-lt :
    (room : ℕ) (bytes u : List ℕ) (es : List Event)
    → (length (take room bytes) == 0) ≡ false
    → pending (put_back (drop room bytes) es) + length (u ++ take room bytes)
      < pending (arrives bytes ∷ es) + length u
moved-lt room bytes u es t =
    let some_taken : length (take room bytes) ≢ 0 = λ q. ground arith in
    omega (
      arith,
      some_taken,
      pending-put_back (drop room bytes) es,
      length-drop {0} room bytes,
      length-take {0} room bytes,
      length-append {0} u (take room bytes),
      pending-arrives bytes es,
    )

grow-Fits :
    (s : WebSocket)
    → Buffer.IsValid s.rbuf
    → (room : ℕ) × (4096 ≤ room) × Buffer.Fits room s.rbuf (grow s).rbuf
unfolding grow
grow-Fits s v =
    let room = if ltb (unread s.rbuf) s.need then s.need - unread s.rbuf else 0 in
    (max room 4096, omega arith, fit-Fits (max room 4096) s.rbuf v)

-- Another state of the stream, with the rest of the connection as it was.
read_state-Reads :
    (s : WebSocket) (b : Buffer) (n : ℕ) (eof : Bool) (es : List Event)
    → Buffer.IsValid b
    → Reads s (with_events es (record s { rbuf = b; need = n; eof = eof }))
read_state-Reads s b n eof es v = record {
  msg = refl;
  msg_opcode = refl;
  limit = refl;
  closed = refl;
  close_sent = refl;
  sent = refl;
  valid = v;
}

module _ (s : WebSocket) (v : Buffer.IsValid s.rbuf) where
  grow_rbuf :
      (4096 + size (grow s).rbuf ≤ (grow s).rbuf.allocated)
      × ((grow s).rbuf.unprocessed ≡ s.rbuf.unprocessed)
  grow_rbuf = let (room, big, f) = grow-Fits s v in (omega (arith, f.room_left), f.kept)

  grow-eq : grow s ≡ record s { rbuf = (grow s).rbuf }
  unfolding grow
  grow-eq = refl

  module _ (bytes : List ℕ) (es : List Event) where
    abbrev g : WebSocket
    g = record s { rbuf = (grow s).rbuf }

    abbrev room : ℕ
    room = (grow s).rbuf.allocated - size (grow s).rbuf

    take_in-Filled :
        s.connection.events ≡ arrives bytes ∷ es → Filled s (returns true, take_in bytes es g)
    unfolding take_in work
    take_in-Filled e =
        let (big, kept) = grow_rbuf in
        let taken = length-take room bytes in
        elim (Bool-cases (length (take room bytes) == 0)) [
          | inl t ↦ rw t (
            read_state-Reads s (grow s).rbuf s.need true (arrives bytes ∷ es) (omega arith),
            inl refl,
          )
          | inr t ↦ rw t (
            read_state-Reads s _ s.need s.eof (put_back (drop room bytes) es)
                (omega (arith, length-append {0} (grow s).rbuf.unprocessed (take room bytes))),
            inr (
                omega (
                  arith,
                  moved-lt room bytes (grow s).rbuf.unprocessed es t,
                  ap pending e,
                  ap length kept,
                )),
          )
        ]

  fill_by-Filled : (es : List Event) → s.connection.events ≡ es → Filled s (fill_by es s)
  unfolding fill_by
  fill_by-Filled [] e = read_state-Reads s s.rbuf s.need s.eof s.connection.events v
  fill_by-Filled (not_ready ∷ es) e = read_state-Reads s s.rbuf s.need s.eof es v
  fill_by-Filled (wait_fails ∷ es) e = read_state-Reads s s.rbuf s.need s.eof es v
  fill_by-Filled (read_fails ∷ es) e =
      rw grow-eq (read_state-Reads s (grow s).rbuf s.need s.eof es (omega (arith, grow_rbuf.0)))
  fill_by-Filled (arrives bytes ∷ es) e = rw grow-eq (take_in-Filled bytes es e)

-- Reading changes nothing but the stream, and where it goes on, less work is left.
pub fill-Filled : (s : WebSocket) → Buffer.IsValid s.rbuf → Filled s (fill s)
unfolding fill
fill-Filled s v = fill_by-Filled s v s.connection.events refl
