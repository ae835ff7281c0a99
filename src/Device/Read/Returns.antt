-- ===== src/Device/Read/Returns.antt =====
-- The reading operations always return, and a line is at most as long as the buffer holds.
use sag_c8y_nb_iot_demo.Base.{
  ℕ, zero, suc, ◌+◌, ◌-◌, ◌^◌, ◌≤◌, ◌<◌, ◌≡◌, ◌⊎◌, refl, ap, inl, inr, Option, none, some, length,
  List, [], ◌∷◌, arith, ◌==◌, Bool-cases,
}
use sag_c8y_nb_iot_demo.Base.Loop.{Returns, Proceeds, iterate-Returns}
use sag_c8y_nb_iot_demo.Device.{Device, Poll, M, pure, millis, since, fuel_for}
use sag_c8y_nb_iot_demo.Device.Read.{
  next_poll, read, timed_read_round, timed_read, read_bytes_until, accept_until, read_until_loop,
  strip_cr, end_line, read_ln,
}
use sag_c8y_nb_iot_demo.Device.Timing.{
  Moves, rest, rest_drops, rest-lt-fuel_for, Returns-bind, Returns-mono,
}

next_poll-Moves :
    (l : List Poll) (d : Device)
    → d.input ≡ l
    → (length (next_poll l d).1.input < length l)
      ⊎ ((length l ≡ 0)
          × (length (next_poll l d).1.input ≡ 0)
          × ((next_poll l d).1.clock ≡ d.clock + 1)
          × ((next_poll l d).0 ≡ none))
unfolding next_poll
next_poll-Moves [] d e = inr (refl, ap length e, refl, refl)
next_poll-Moves (p ∷ l) d e = inl (omega arith)

-- `read` takes a poll, or finds the line silent for one more millisecond.
pub read-Moves :
    (d : Device)
    → (length (read d).1.input < length d.input)
      ⊎ ((length d.input ≡ 0)
          × (length (read d).1.input ≡ 0)
          × ((read d).1.clock ≡ d.clock + 1)
          × ((read d).0 ≡ none))
unfolding read
read-Moves d = next_poll-Moves d.input d refl

-- Where a loop of `timedRead` that started in `d` may stand.
abbrev Waiting : ℕ → Device → Device → Type 0
Waiting timeout d s = (since (millis d) s ≤ timeout) × Moves 0 timeout d s

-- What `timedRead` gives: a poll was taken, or time went by with no character.
abbrev Reads : ℕ → Device → Option ℕ × Device → Type 0
Reads timeout d (c, d') =
    (length d'.input < length d.input)
    ⊎ ((length d'.input ≡ length d.input)
        × (d.clock + 1 ≤ d'.clock)
        × (d'.clock ≤ d.clock + (timeout + 1))
        × (c ≡ none))

timed_read_round-Proceeds :
    (timeout : ℕ) (d s : Device)
    → timeout + 1 < 2 ^ 32
    → Waiting timeout d s
    → Returns
        (Proceeds
          (Waiting timeout d)
          (Reads timeout d)
          (rest timeout (millis d))
          (rest timeout (millis d) s))
        (timed_read_round (millis d) timeout s)
unfolding timed_read_round
timed_read_round-Proceeds timeout d s hb w =
    ground (arith, read-Moves s, rest_drops timeout 1 (millis d) s (read s).1 (omega arith) hb w.0)

timed_read-Reads :
    (timeout : ℕ) (d : Device)
    → timeout + 1 < 2 ^ 32
    → Returns (Reads timeout d) (timed_read timeout d)
unfolding timed_read
timed_read-Reads timeout d hb =
    iterate-Returns (Waiting timeout d) (Reads timeout d) (rest timeout (millis d))
      (timed_read_round (millis d) timeout) (λ s w. timed_read_round-Proceeds timeout d s hb w)
      (fuel_for timeout d) d (rest-lt-fuel_for timeout (millis d) d) (omega arith)

-- What a bounded read gives: it fits the room, and the world moved.
abbrev Fills : ℕ → ℕ → ℕ → Device → List ℕ × Device → Type 0
Fills lo timeout room d (s, d') = (length s ≤ room) × Moves lo (timeout + 1) d d'

accept_until-Fills :
    (terminator timeout room : ℕ) (rest_of : M (List ℕ)) (c : Option ℕ) (d d' : Device)
    → ((e : Device) → Returns (Fills 0 timeout room e) (rest_of e))
    → Reads timeout d (c, d')
    → Returns (Fills 1 timeout (suc room) d) (accept_until terminator rest_of c d')
unfolding accept_until
accept_until-Fills terminator timeout room rest_of none d d' k h = omega arith
accept_until-Fills terminator timeout room rest_of (some c) d d' k h =
    elim (Bool-cases (c == terminator)) [
      | inl e ↦ rw e (ground arith)
      | inr e ↦ rw e (
          Returns-bind (Fills 0 timeout room d') (Fills 1 timeout (suc room) d) rest_of
            (λ s. pure (c ∷ s)) d' (k d') (λ s d'' f. ground arith))
    ]

read_until_step :
    (terminator timeout room : ℕ) (d : Device)
    → timeout + 1 < 2 ^ 32
    → ((e : Device) → Returns (Fills 0 timeout room e) (read_until_loop terminator timeout room e))
    → Returns (Fills 1 timeout (suc room) d) (read_until_loop terminator timeout (suc room) d)
unfolding read_until_loop
read_until_step terminator timeout room d hb k =
    Returns-bind (Reads timeout d) (Fills 1 timeout (suc room) d) (timed_read timeout)
      (accept_until terminator (read_until_loop terminator timeout room)) d
      (timed_read-Reads timeout d hb)
      (λ c d' h. accept_until-Fills terminator timeout room _ c d d' k h)

read_until_loop-Fills :
    (terminator timeout room : ℕ) (d : Device)
    → timeout + 1 < 2 ^ 32
    → Returns (Fills 0 timeout room d) (read_until_loop terminator timeout room d)
read_until_loop-Fills terminator timeout zero d hb = unfold read_until_loop in omega arith
read_until_loop-Fills terminator timeout (suc room) d hb =
    Returns-mono (Fills 1 timeout (suc room) d) (Fills 0 timeout (suc room) d) _
      (read_until_step terminator timeout room d hb
        (λ e. read_until_loop-Fills terminator timeout room e hb))
      (λ p h. omega arith)

-- What `readLn` gives: the text fits the buffer with its NUL, and the length is that of the text,
-- or 65535 for the wrapped one; the world moved.
abbrev pub IsLine : ℕ → ℕ → Device → (ℕ × List ℕ) × Device → Type 0
IsLine timeout size d ((len, text), d') =
    (length text < size) × ((len ≡ length text) ⊎ (len ≡ 2 ^ 16 - 1)) × Moves 1 (timeout + 1) d d'

length-strip_cr : (s : List ℕ) → length (strip_cr s) ≤ length s
unfolding strip_cr
length-strip_cr [] = omega arith
length-strip_cr (c ∷ []) = ground arith
length-strip_cr (c ∷ c' ∷ s) = omega (arith, length-strip_cr (c' ∷ s))

end_line-IsLine :
    (s : List ℕ) (timeout size : ℕ) (d e : Device)
    → length s < size
    → Moves 1 (timeout + 1) d e
    → Returns (IsLine timeout size d) (end_line s e)
unfolding end_line
end_line-IsLine [] timeout size d e h mv = ground arith
end_line-IsLine (c ∷ s) timeout size d e h mv = ground (arith, length-strip_cr (c ∷ s))

-- `readLn` into a buffer of two bytes or more, with any timeout below 2 ^ 32 - 1: whatever comes on
-- the line, it returns; it took polls, and then nothing bounds its time, or from 1 ms to 1 ms more
-- than the timeout went by. The text that it gives fits the buffer with its NUL, and the length is
-- that of the text, or 65535. What the code reads and may clear below the buffer, where no character
-- came, is not part of this.
pub read_ln-IsLine :
    (size timeout : ℕ) (d : Device)
    → timeout + 1 < 2 ^ 32
    → Returns (IsLine timeout (suc (suc size)) d) (read_ln (suc (suc size)) timeout d)
unfolding read_ln read_bytes_until
read_ln-IsLine size timeout d hb =
    let room : suc (suc size) - 1 ≡ suc size = omega arith in
    rw room (
      Returns-bind (Fills 1 timeout (suc size) d) (IsLine timeout (suc (suc size)) d)
        (read_until_loop b'\n' timeout (suc size)) end_line d
        (read_until_step b'\n' timeout size d hb
          (λ e. read_until_loop-Fills b'\n' timeout size e hb))
        (λ s e h. end_line-IsLine s timeout (suc (suc size)) d e (omega (arith, h.0)) h.1))
