-- ===== src/WebSocket/Buffer.antt =====
-- `WebSocket::Buffer`: the growing array of bytes of src/main/pa_websocket.C. Of its contents the
-- model keeps what is not processed yet, `data[pos..size)`; the bytes before are never read again.
use Prim.Native.Nat.{max}
use parser.Prelude.{
  ℕ, ◌+◌, ◌-◌, ◌/◌, ◌≤◌, ◌≡◌, Bool, true, not, ◌&&◌, List, [], ◌∷◌, ◌++◌, arith, leb, ◌==◌,
  if◌then◌else◌, if_cases, length, length-append, append-nil, sym,
}

pub record Buffer : Type 0 where
  pub unprocessed : List ℕ
  pub pos : ℕ
  pub allocated : ℕ

abbrev pub no_bytes : Buffer
no_bytes = record { unprocessed = []; pos = 0; allocated = 0 }

-- `unread()`
abbrev pub unread : Buffer → ℕ
unread b = length b.unprocessed

-- The field `size`.
abbrev pub size : Buffer → ℕ
size b = b.pos + unread b

-- `if(pos==size) pos=size=0`
rewind : Buffer → Buffer
rewind b = if b.pos == size b then record b { pos = 0 } else b

-- There is room for so many bytes behind the contents.
abbrev pub roomy : ℕ → Buffer → Bool
roomy room b = leb room (b.allocated - size b)

unfoldable pub fit : ℕ → Buffer → Buffer
unfolding rewind
fit room b =
    let b1 = rewind b in
    let b2 = record b1 { pos = 0 } in
    if roomy room b1
    then b1
    else if not (b1.pos == 0) && roomy room b2
    then b2
    else record b2 { allocated = max (b2.allocated + b2.allocated / 4) (size b2 + room) }

unfoldable pub append : List ℕ → Buffer → Buffer
append bytes b =
    let grown = fit (length bytes) b in
    if length bytes == 0 then b else record grown { unprocessed = grown.unprocessed ++ bytes }

-- `size=0`, where `pos` is 0.
abbrev pub reset : Buffer → Buffer
reset b = record b { unprocessed = [] }

-- The contents lie inside the allocated block.
abbrev pub IsValid : Buffer → Type 0
IsValid b = size b ≤ b.allocated

-- `fit` keeps the unprocessed bytes and makes the room that is asked for.
pub record Fits (room : ℕ) (b b' : Buffer) : Type 0 where
  pub kept : b'.unprocessed ≡ b.unprocessed
  pub room_left : size b' + room ≤ b'.allocated

pub fit-Fits : (room : ℕ) (b : Buffer) → IsValid b → Fits room b (fit room b)
unfolding fit
fit-Fits room b v = ground arith

-- Appending bytes to a valid buffer puts them behind the unprocessed ones.
pub append-unprocessed :
    (bytes : List ℕ) (b : Buffer)
    → IsValid b
    → (IsValid (append bytes b)) × ((append bytes b).unprocessed ≡ b.unprocessed ++ bytes)
unfolding append
append-unprocessed bytes b v =
    let f = fit-Fits (length bytes) b v in
    if_cases (λ (r : Buffer). (size r ≤ r.allocated) × (r.unprocessed ≡ b.unprocessed ++ bytes))
      (length bytes == 0) (λ e. (v, nothing bytes e))
      (λ _. (
        omega (arith, f.room_left, length-append {0} (fit (length bytes) b).unprocessed bytes),
        rw f.kept,
      ))
  where
    nothing : (xs : List ℕ) → (length xs == 0) ≡ true → b.unprocessed ≡ b.unprocessed ++ xs
    nothing [] e = sym (append-nil _)
    nothing (x ∷ xs) e = ground arith

fit_pos : (room : ℕ) (b : Buffer) → b.pos ≡ 0 → (fit room b).pos ≡ 0
unfolding fit
fit_pos room b e = ground arith

-- A buffer that starts at 0 goes on to.
pub append_pos : (bytes : List ℕ) (b : Buffer) → b.pos ≡ 0 → (append bytes b).pos ≡ 0
unfolding append
append_pos bytes b e =
    if_cases (λ (r : Buffer). r.pos ≡ 0) (length bytes == 0) (λ _. e)
      (λ _. fit_pos (length bytes) b e)
