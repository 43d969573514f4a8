-- ===== src/WebSocket/Session/Close/Handshake.antt =====
-- What sending and closing do in src/main/pa_websocket.C.
use parser.Prelude.{
  ℕ, ◌/◌, ◌%◌, ◌≤◌, ◌<◌, ◌≡◌, Bool, true, false, not, ◌||◌, List, [], ◌∷◌, ◌++◌, arith, ◌==◌,
  if_cases, if◌then◌else◌, length, take, length-take,
}
use parser.WebSocket.Buffer
use parser.WebSocket.Frame.{close, no_status, frame_bytes}
use parser.WebSocket.Session.{
  closed_connection, WebSocket, Outcome, returns, throws, stuck, close_payload,
}
use parser.WebSocket.Session.Receive.{work}
use parser.WebSocket.Session.Close.{send}

-- Once a Close frame was sent, or the connection is closed, nothing more is sent by `send`.
pub send-closed :
    (opcode : ℕ) (payload : List ℕ) (s : WebSocket)
    → (s.closed || s.close_sent) ≡ true
    → send opcode payload s ≡ (throws closed_connection, s)
unfolding send
send-closed opcode payload s h = rw h

-- The payload of a Close frame fits a control frame, whatever the reason.
pub length-close_payload : (code : ℕ) (reason : List ℕ) → length (close_payload code reason) ≤ 125
unfolding close_payload
length-close_payload code reason =
    if_cases (λ p. length p ≤ 125) (code == no_status) {x = []}
      {y = code / 256 % 256 ∷ code % 256 ∷ take 123 reason} (λ _. omega arith)
      (λ _. omega (arith, length-take {0} 123 reason))

-- A round leaves the buffer valid and, where the loop goes on, less work; it sends nothing, so that `told`
-- is what was sent before.
abbrev Waits : List (List ℕ) → ℕ → Outcome Bool × WebSocket → Type 0
Waits told n (returns true, s) = s.connection.sent ≡ told
Waits told n (returns false, s) = Buffer.IsValid s.rbuf × (work s < n) × (s.connection.sent ≡ told)
Waits told n (throws e, s) = Unit {0}
Waits told n (stuck, s) = ⊥

-- The connection is closed and `told` is what was sent, or an exception says why not.
abbrev pub Closes : List (List ℕ) → Outcome (Unit {0}) × WebSocket → Type 0
Closes told (returns _, s) = (s.closed ≡ true) × (s.connection.sent ≡ told)
Closes told (throws e, s) = Unit {0}
Closes told (stuck, s) = ⊥

-- A send that succeeds adds its bytes to what was sent.
Adds : List (List ℕ) → List ℕ → Outcome (Unit {0}) × WebSocket → Type 0
Adds before bytes (returns _, s) = s.connection.sent ≡ before ++ (bytes ∷ [])
Adds before bytes (throws e, s) = Unit {0}
Adds before bytes (stuck, s) = Unit {0}

-- What was sent before, and the frame that says why the connection is closed if none was sent for that yet.
abbrev pub told_by : ℕ → List ℕ → WebSocket → List (List ℕ)
told_by code reason s =
    if s.closed
    then s.connection.sent
    else if not s.close_sent
    then s.connection.sent ++ (frame_bytes close (close_payload code reason) ∷ [])
    else s.connection.sent
