-- ===== src/Device/Read.antt =====
-- Sodaq_AT_Device.cpp, the reading half: characters and lines with timeouts.
pub mod Returns
pub mod Lines
pub mod Quiet
pub mod Tails
use sag_c8y_nb_iot_demo.Base.{
  ℕ, zero, suc, ◌+◌, ◌-◌, ◌%◌, ◌^◌, Bool, true, false, Option, none, some, List, [], ◌∷◌, length,
  ltb, ◌==◌, if◌then◌else◌,
}
use sag_c8y_nb_iot_demo.Base.Loop.{Next, again, done, iterate}
use sag_c8y_nb_iot_demo.Device.{Device, Poll, M, pure, ◌>>=◌, ◌>>◌, modify, millis, since, fuel_for}

next_poll : List Poll → Device → Option ℕ × Device
next_poll [] d = (none, record d { clock = d.clock + 1 })
next_poll (p ∷ rest) d = (p.byte, record d { clock = d.clock + p.took; input = rest })

-- `_modemStream->read()`
unfoldable pub read : Device → Option ℕ × Device
unfolding next_poll
read d = next_poll d.input d

-- One round of the loop of `timedRead`: `none` is -1.
unfoldable pub timed_read_round : ℕ → ℕ → Device → Option (Next Device (Option ℕ × Device))
timed_read_round start timeout d =
    let (c, d') = read d in
    elim c [
      | some b ↦ some (done (some b, d'))
      | none ↦ if ltb (since start d') timeout then some (again d') else some (done (none, d'))
    ]

-- `timedRead`
unfoldable pub timed_read : ℕ → M (Option ℕ)
timed_read timeout d = iterate (fuel_for timeout d) (timed_read_round (millis d) timeout) d

-- After one character of `readBytesUntil`: leave, or put it before what follows.
accept_until : ℕ → M (List ℕ) → Option ℕ → M (List ℕ)
accept_until terminator rest none = pure []
accept_until terminator rest (some c) =
    if c == terminator then pure [] else rest >>= λ s. pure (c ∷ s)

-- The loop of `readBytesUntil`, with the room that is left.
read_until_loop : ℕ → ℕ → ℕ → M (List ℕ)
unfolding accept_until
read_until_loop terminator timeout zero = pure []
read_until_loop terminator timeout (suc room) =
    timed_read timeout >>= accept_until terminator (read_until_loop terminator timeout room)

-- `readBytesUntil`: the characters that it puts into the buffer.
unfoldable pub read_bytes_until : ℕ → ℕ → ℕ → M (List ℕ)
unfolding read_until_loop
read_bytes_until terminator size timeout = read_until_loop terminator timeout size

accept_byte : M (List ℕ) → Option ℕ → M (List ℕ)
accept_byte rest none = pure []
accept_byte rest (some c) = rest >>= λ s. pure (c ∷ s)

-- `readBytes`
pub read_bytes : ℕ → ℕ → M (List ℕ)
unfolding accept_byte
read_bytes timeout zero = pure []
read_bytes timeout (suc room) = timed_read timeout >>= accept_byte (read_bytes timeout room)

-- The text without its last byte, if that is a carriage return.
strip_cr : List ℕ → List ℕ
strip_cr [] = []
strip_cr (c ∷ []) = if c == b'\r' then [] else c ∷ []
strip_cr (c ∷ c' ∷ s) = c ∷ strip_cr (c' ∷ s)

-- The end of `readLn`: the terminator has two bytes, so the first is looked for at `len - 1`. With
-- no character read that is the byte below the buffer; were it a carriage return, the length
-- would wrap to 65535 and that byte would be cleared.
unfoldable pub end_line : List ℕ → M (ℕ × List ℕ)
unfolding strip_cr
end_line [] d =
    if d.below == b'\r' then some ((2 ^ 16 - 1, []), record d { below = 0 }) else some ((0, []), d)
end_line (c ∷ s) d = let text = strip_cr (c ∷ s) in some ((length text, text), d)

-- `readLn`: the length that it returns and the text that it leaves in the buffer. `size` is at
-- least 1.
unfoldable pub read_ln : ℕ → ℕ → M (ℕ × List ℕ)
unfolding read_bytes_until end_line
read_ln size timeout = do text ← read_bytes_until b'\n' (size - 1) timeout; end_line text
