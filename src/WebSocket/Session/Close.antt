-- ===== src/WebSocket/Session/Close.antt =====
-- `WebSocket::send`, `WebSocket::close` and the destructor of src/main/pa_websocket.C.
pub mod Handshake
use parser.Prelude.{ℕ, zero, suc, Bool, true, false, not, ◌&&◌, ◌||◌, List, [], ◌==◌, if◌then◌else◌}
use parser.WebSocket.Frame.{Parsed, incomplete, invalid, parsed, close, internal_error}
use parser.WebSocket.Session.{
  closed_connection, WebSocket, Outcome, returns, throws, stuck, M, after, write_frame, send_close,
  fill, note, verdict,
}
use parser.WebSocket.Session.Receive.{work}

unfoldable pub send : ℕ → List ℕ → M (Unit {0})
send opcode payload s =
    if s.closed || s.close_sent then (throws closed_connection, s) else write_frame opcode payload s

-- A round of the loop that waits for the answer: whether it is over.
pub await_by : Parsed → M Bool
await_by (parsed f used) s = (returns (f.opcode == close), s)
await_by (invalid code reason) s = (returns true, s)
await_by (incomplete n) s = after (fill s) (λ filled s'. (returns (not filled || s'.eof), s'))

unfoldable pub await_round : M Bool
unfolding await_by
await_round s = await_by (verdict s) (note (verdict s) s)

pub await : ℕ → M (Unit {0})
await zero s = (stuck, s)
await (suc rounds) s = after (await_round s) λ over s'. elim over [
  | true ↦ (returns tt, record s' { closed = true })
  | false ↦ await rounds s'
]

unfoldable pub close_connection : ℕ → List ℕ → M (Unit {0})
unfolding await await_round note work
close_connection code reason s =
    let wait : Unit {0} → M (Unit {0}) = λ _ s'. await (suc (work s')) s' in
    if s.closed
    then (returns tt, s)
    else if not s.close_sent
    then after (send_close code reason s) wait
    else wait tt s

-- `~WebSocket()`, which throws nothing.
unfoldable pub destroy : WebSocket → WebSocket
destroy s =
    if s.accepted && (not s.closed && not s.close_sent)
    then (send_close internal_error [] s).1
    else s
