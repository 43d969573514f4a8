-- ===== src/WebSocket/Session/Receive.antt =====
-- `WebSocket::receive` of src/main/pa_websocket.C. The check of UTF-8 is that of the PCRE library, a
-- copy of which stands in src/lib/pcre: here a parameter.
pub mod Invariant
pub mod Total
pub mod Parts
pub mod Rounds
pub mod Fragments
use parser.Prelude.{
  ℕ, zero, suc, ◌+◌, ◌*◌, ◌/◌, ◌%◌, bit_or, Bool, true, false, not, ◌&&◌, Option, none, some, List,
  [], ◌∷◌, ◌++◌, ltb, ◌==◌, if◌then◌else◌, codes, length,
}
use parser.WebSocket.Buffer.{append, reset, unread, size}
use parser.WebSocket.Frame.{
  Frame, Parsed, incomplete, invalid, parsed, parse, text, close, ping, pong, protocol_error,
  no_status, abnormal, invalid_data, too_big,
}
use parser.WebSocket.Session.{
  Exception, closed_connection, Event, not_ready, wait_fails, read_fails, arrives, Message,
  WebSocket, Outcome, returns, throws, stuck, M, after, valid_status, write_frame, send_close, fill,
  note, verdict, failed,
}

-- The end of a round of `receive`: `continue`, or `return` with the message if there is one.
pub data Step : Type 0 where
  again : Step
  answers : Option Message → Step

pub fails : ℕ → List ℕ → Bool → M Step
fails code reason notify s =
    let (m, s') = failed code reason notify s in (returns (answers (some m)), s')

abbrev pub message : ℕ → List ℕ → ℕ → Message
message opcode content code = record { opcode = opcode; content = content; code = code }

-- `case INCOMPLETE`, behind `fill`.
pub on_filled : Bool → M Step
on_filled false s = (returns (answers none), s)
on_filled true s =
    if s.eof
    then fails abnormal (codes "connection is closed by the client") false s
    else (returns again, s)

-- `case PING`
pub on_ping : List ℕ → M Step
on_ping payload s = after (write_frame pong payload s) (λ _ s'. (returns again, s'))

-- The end of `case CLOSE`.
pub on_closed : ℕ → List ℕ → M Step
on_closed code reason s =
    (returns (answers (some (message close reason code))), record s { closed = true })

pub on_close_status : ℕ → List ℕ → M Step
on_close_status code reason s =
    if not s.close_sent
    then after (send_close code reason s) (λ _. on_closed code reason)
    else on_closed code reason s

module _ (valid_utf8 : List ℕ → Bool) where
  -- `case CLOSE`, by the payload.
  pub on_close : List ℕ → M Step
  on_close [] s = on_close_status no_status [] s
  on_close (b0 ∷ []) s = fails protocol_error (codes "close frame is too short") true s
  on_close (b0 ∷ b1 ∷ reason) s =
      let code = bit_or (b0 * 256) b1 in
      if not (valid_status code)
      then fails protocol_error (codes "invalid status of close frame") true s
      else if not (valid_utf8 reason)
      then fails invalid_data (codes "invalid UTF-8 in close frame") true s
      else on_close_status code reason s

  -- The check behind a whole message.
  pub deliver : ℕ → List ℕ → M Step
  deliver opcode content s =
      if opcode == text && not (valid_utf8 content)
      then fails invalid_data (codes "invalid UTF-8 in text message") true s
      else (returns (answers (some (message opcode content 0))), s)

  -- A fragment joins the message, which the last one ends.
  pub on_fragment : Frame → M Step
  on_fragment f s =
      if ltb s.max_message_size (size s.msg + length f.payload)
      then fails too_big (codes "message is too big") true s
      else let s1 = record s { msg = append f.payload s.msg } in
        if not f.fin
        then (returns again, s1)
        else deliver s1.msg_opcode s1.msg.unprocessed (record s1 { msg_opcode = 0 })

  -- TEXT, BINARY or continuation.
  pub on_data : Frame → M Step
  on_data f s =
      if f.opcode == 0
      then if s.msg_opcode == 0
        then fails protocol_error (codes "unexpected continuation frame") true s
        else on_fragment f s
      else if not (s.msg_opcode == 0)
      then fails protocol_error (codes "new message before the end of the fragmented one") true s
      else if f.fin
      then deliver f.opcode f.payload s
      else on_fragment f (record s { msg_opcode = f.opcode; msg = reset s.msg })

  -- `switch(frame.opcode)`
  pub on_frame : Frame → M Step
  on_frame f s =
      if f.opcode == ping
      then on_ping f.payload s
      else if f.opcode == pong
      then (returns again, s)
      else if f.opcode == close
      then on_close f.payload s
      else on_data f s

  pub on_verdict : Parsed → M Step
  on_verdict (incomplete n) s = after (fill s) on_filled
  on_verdict (invalid code reason) s = fails s.error_code s.error_reason true s
  on_verdict (parsed f used) s = on_frame f s

  -- One round of the loop.
  unfoldable pub round : M Step
  unfolding on_verdict on_frame on_data on_fragment deliver on_close on_close_status on_closed
      on_ping on_filled fails
  round s = on_verdict (verdict s) (note (verdict s) s)

-- What is left to do: the bytes in the socket count twice, each moves to the buffer.
unfoldable pub pending : List Event → ℕ
pending [] = 0
pending (not_ready ∷ es) = suc (pending es)
pending (wait_fails ∷ es) = suc (pending es)
pending (read_fails ∷ es) = suc (pending es)
pending (arrives bytes ∷ es) = suc (2 * length bytes + pending es)

unfoldable pub work : WebSocket → ℕ
unfolding pending
work s = pending s.connection.events + unread s.rbuf

module _ (valid_utf8 : List ℕ → Bool) where
  pub loop : ℕ → M (Option Message)
  loop zero s = (stuck, s)
  loop (suc rounds) s =
      after (round valid_utf8 s)
        λ where_to s'. elim where_to [ again ↦ loop rounds s' | answers m ↦ (returns m, s') ]

  unfoldable pub receive : M (Option Message)
  unfolding loop round note work
  receive s = if s.closed then (throws closed_connection, s) else loop (suc (work s)) s
