-- ===== src/Device/Read/Lines.antt =====
-- What `readLn` makes of a line that the modem delivers: exactly the line.
use sag_c8y_nb_iot_demo.Base.{
  ℕ, zero, suc, ◌+◌, ◌-◌, ◌<◌, ◌≡◌, ◌≢◌, refl, ap, ◌∙◌, false, All, some, List, [], ◌∷◌, ◌++◌,
  length, length-append, ◌==◌, arith,
}
use sag_c8y_nb_iot_demo.Base.Loop.{iterate}
use sag_c8y_nb_iot_demo.Device.{Device, Poll, pure, fuel_for}
use sag_c8y_nb_iot_demo.Device.Read.{
  next_poll, read, timed_read_round, timed_read, accept_until, read_until_loop, read_bytes_until,
  strip_cr, end_line, read_ln,
}
use sag_c8y_nb_iot_demo.Device.Steps.{
  bind-some, Timed, bytes, duration, delivered, past, Line, took, in_front,
}

-- A character that is there is read at once, whatever the timeout.
timed_read-byte :
    (timeout c ms : ℕ) (rest : List Poll) (d : Device)
    → d.input ≡ record { byte = some c; took = ms } ∷ rest
    → timed_read timeout d ≡ some (some c, past d ms rest)
unfolding timed_read timed_read_round iterate read next_poll
timed_read-byte timeout c ms rest d shape =
    let fuel : fuel_for timeout d ≡ suc (fuel_for timeout d - 1) = omega arith in rw fuel (rw shape)

-- The shape of a line: no newline before its last one, and a carriage return in front of that.
pub record IsSent (l : Line) : Type 0 where
  pub shape : bytes l.chars ≡ l.text ++ (b'\r' ∷ [])
  pub one_line : All (λ c. c ≢ b'\n') (bytes l.chars)

read_until_loop-delivered :
    (timeout room last : ℕ) (chars : Timed) (rest : List Poll) (d : Device)
    → All (λ c. c ≢ b'\n') (bytes chars)
    → length (bytes chars) < room
    → d.input ≡ delivered chars ++ (record { byte = some b'\n'; took = last } ∷ rest)
    → read_until_loop b'\n' timeout room d ≡ some (bytes chars, past d (duration chars + last) rest)
unfolding read_until_loop accept_until
read_until_loop-delivered timeout zero last chars rest d h fits shape = absurd (omega arith)
read_until_loop-delivered timeout (suc room) last [] rest d h fits shape =
    bind-some (timed_read timeout) (accept_until b'\n' (read_until_loop b'\n' timeout room)) d
      (past d last rest) (some b'\n') (timed_read-byte timeout b'\n' last rest d shape)
    ∙ λ i. some ([], past d (sum i) rest)
  where
    sum : last ≡ 0 + last
    sum = omega arith
read_until_loop-delivered timeout (suc room) last ((c, ms) ∷ chars) rest d (hc, hs) fits shape =
    bind-some (timed_read timeout) (accept_until b'\n' (read_until_loop b'\n' timeout room)) d
      (past d ms others) (some c) (timed_read-byte timeout c ms others d shape)
    ∙ rw (accept_until, text_char)
        (bind-some (read_until_loop b'\n' timeout room) (λ s. pure (c ∷ s)) (past d ms others)
            (past (past d ms others) (duration chars + last) rest) (bytes chars)
            (read_until_loop-delivered timeout room last chars rest (past d ms others) hs
              (omega arith) refl)
          ∙ λ i. some (c ∷ bytes chars, record d { clock = sum i; input = rest }))
  where
    others : List Poll
    others = delivered chars ++ (record { byte = some b'\n'; took = last } ∷ rest)

    text_char : (c == b'\n') ≡ false
    text_char = ground arith

    sum : d.clock + ms + (duration chars + last) ≡ d.clock + (ms + duration chars + last)
    sum = omega arith

strip_cr-append : (s : List ℕ) → strip_cr (s ++ (b'\r' ∷ [])) ≡ s
unfolding strip_cr
strip_cr-append [] = refl
strip_cr-append (c ∷ []) = refl
strip_cr-append (c ∷ c' ∷ s) = ap (λ t. c ∷ t) (strip_cr-append (c' ∷ s))

end_line-append :
    (s : List ℕ) (d : Device) → end_line (s ++ (b'\r' ∷ [])) d ≡ some ((length s, s), d)
unfolding end_line
end_line-append [] d = unfold strip_cr in refl
end_line-append (c ∷ s) d =
    λ i. some ((length (strip_cr-append (c ∷ s) i), strip_cr-append (c ∷ s) i), d)

-- `readLn` on a line that fits the buffer with its two terminators, whatever the time between its
-- characters and whatever the timeout: it gives the text and its length, takes just the line off
-- the input, and changes nothing else.
pub read_ln-Line :
    (size timeout : ℕ) (l : Line) (rest : List Poll) (d : Device)
    → IsSent l
    → length l.text + 2 < size
    → d.input ≡ in_front l rest
    → read_ln size timeout d ≡ some ((length l.text, l.text), past d (took l) rest)
unfolding read_ln read_bytes_until
read_ln-Line size timeout l rest d sent fits shape =
    bind-some (read_bytes_until b'\n' (size - 1) timeout) end_line d (past d (took l) rest)
      (bytes l.chars)
      (read_until_loop-delivered timeout (size - 1) l.last l.chars rest d sent.one_line room shape)
    ∙ rw sent.shape (end_line-append l.text (past d (took l) rest))
  where
    room : length (bytes l.chars) < size - 1
    room = omega (arith, ap length sent.shape, length-append l.text (b'\r' ∷ []))
