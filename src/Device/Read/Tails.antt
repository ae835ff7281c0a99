-- ===== src/Device/Read/Tails.antt =====
-- Reading takes polls off the front of the line: what is left is a tail of what was there.
use sag_c8y_nb_iot_demo.Base.{
  ℕ, zero, suc, ◌-◌, ◌≡◌, refl, sym, Bool, true, false, Option, none, some, List, [], ◌∷◌, ltb,
  ◌==◌, if◌then◌else◌, Bool-cases, inl, inr,
}
use mathlib.Core.Path.{subst}
use sag_c8y_nb_iot_demo.Base.Loop.{again, done, Allows, Stays, iterate-Stays}
use sag_c8y_nb_iot_demo.Device.{Device, Poll, M, pure, ◌>>=◌, millis, since, fuel_for}
use sag_c8y_nb_iot_demo.Device.Read.{
  next_poll, read, timed_read_round, timed_read, read_bytes_until, accept_until, read_until_loop,
  end_line, read_ln,
}

-- The second list is what is left of the first behind some polls.
pub data Tail (l : List Poll) : List Poll → Type 0 where
  whole : Tail l l
  behind : (p : Poll) (rest : List Poll) → Tail l (p ∷ rest) → Tail l rest

module _ (l : List Poll) where
  abbrev Left : Device → Type 0
  Left d = Tail l d.input

  abbrev LeavesTail : {A : Type 0} → M A → Type 0
  LeavesTail m = (d : Device) → Left d → Allows (λ p. Left p.1) (m d)

  bind-Tail :
      {A B : Type 0} (m : M A) (f : A → M B)
      → LeavesTail m
      → ((a : A) → LeavesTail (f a))
      → LeavesTail (m >>= f)
  bind-Tail {A} {B} m f h k d t = go (m d) (h d t)
    where
      go :
          (o : Option (A × Device))
          → Allows (λ p. Left p.1) o
          → Allows (λ p. Left p.1) (elim o [ none ↦ none | some (a, e) ↦ f a e ])
      go none r = tt
      go (some (a, e)) r = k a e r

  next_poll-Tail : (m : List Poll) (d : Device) → d.input ≡ m → Tail l m → Left (next_poll m d).1
  unfolding next_poll
  next_poll-Tail [] d e t = subst (λ x. Tail l x) (sym e) t
  next_poll-Tail (p ∷ rest) d e t = behind p rest t

  choice-Tail :
      (b : Bool) (d : Device)
      → Left d
      → Allows
          (Stays Left (λ (p : Option ℕ × Device). Left p.1))
          (if b then some (again d) else some (done (none, d)))
  choice-Tail true d h = h
  choice-Tail false d h = h

  round-Tail :
      (start timeout : ℕ) (r : Option ℕ × Device)
      → Left r.1
      → Allows (Stays Left (λ (p : Option ℕ × Device). Left p.1)) (
          let (c, d') = r in
          elim c [
            | some b ↦ some (done (some b, d'))
            | none ↦
                if ltb (since start d') timeout then some (again d') else some (done (none, d'))
          ])
  round-Tail start timeout (none, d) h = choice-Tail _ d h
  round-Tail start timeout (some b, d) h = h

  timed_read-Tail : (timeout : ℕ) → LeavesTail (timed_read timeout)
  unfolding timed_read timed_read_round read
  timed_read-Tail timeout d t =
      iterate-Stays Left (λ p. Left p.1) (timed_read_round (millis d) timeout)
        (λ e h.
          round-Tail (millis d) timeout (next_poll e.input e) (next_poll-Tail e.input e refl h))
        (fuel_for timeout d) d t

  accept_until-Tail :
      (terminator : ℕ) (rest : M (List ℕ)) (c : Option ℕ)
      → LeavesTail rest
      → LeavesTail (accept_until terminator rest c)
  unfolding accept_until
  accept_until-Tail terminator rest none h = λ d t. t
  accept_until-Tail terminator rest (some c) h = elim (Bool-cases (c == terminator)) [
    | inl last ↦ λ d t. rw last t
    | inr inside ↦ λ d t. rw inside (bind-Tail rest (λ s. pure (c ∷ s)) h (λ s e u. u) d t)
  ]

  read_until_loop-Tail :
      (terminator timeout room : ℕ) → LeavesTail (read_until_loop terminator timeout room)
  unfolding read_until_loop
  read_until_loop-Tail terminator timeout zero = λ d t. t
  read_until_loop-Tail terminator timeout (suc room) =
      bind-Tail (timed_read timeout) _ (timed_read-Tail timeout)
        (λ c. accept_until-Tail terminator _ c (read_until_loop-Tail terminator timeout room))

  end_line-Tail : (s : List ℕ) → LeavesTail (end_line s)
  unfolding end_line
  end_line-Tail (c ∷ s) d t = t
  end_line-Tail [] d t = elim (Bool-cases (d.below == b'\r')) [
    | inl cr ↦ rw cr t
    | inr other ↦ rw other t
  ]

  -- `readLn` leaves a tail of the line.
  pub read_ln-Tail :
      (size timeout : ℕ) (d : Device)
      → Tail l d.input
      → Allows (λ p. Tail l p.1.input) (read_ln size timeout d)
  unfolding read_ln read_bytes_until
  read_ln-Tail size timeout =
      bind-Tail (read_bytes_until b'\n' (size - 1) timeout) end_line
        (read_until_loop-Tail b'\n' timeout (size - 1)) end_line-Tail
