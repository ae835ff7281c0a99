-- ===== src/Device/Read/Quiet.antt =====
-- Reading says nothing: whatever comes in, the line out and the settings stay.
use sag_c8y_nb_iot_demo.Base.{
  ◌+◌, ◌≡◌, Bool-cases, inl, inr, ℕ, zero, suc, ◌-◌, ◌≡◌, refl, ◌∙◌, Bool, true, false, Option,
  none, some, List, [], ◌∷◌, ltb, ◌==◌, if◌then◌else◌,
}
use sag_c8y_nb_iot_demo.Base.Loop.{Allows-mono, again, done, Allows, Stays, iterate-Stays}
use sag_c8y_nb_iot_demo.Device.{Device, Poll, M, pure, ◌>>=◌, millis, since, fuel_for}
use sag_c8y_nb_iot_demo.Device.Read.{
  next_poll, read, timed_read_round, timed_read, read_bytes_until, accept_until, read_until_loop,
  end_line, read_ln,
}
use sag_c8y_nb_iot_demo.Device.Sent.{said, Quiet}

-- A part of the device that an operation leaves as it is.
abbrev pub Fixes : {A V : Type 0} → (Device → V) → M A → Type 0
Fixes view m = (d : Device) → Allows (λ p. view p.1 ≡ view d) (m d)

Fixes-bind :
    {A B V : Type 0} (view : Device → V) (m : M A) (f : A → M B)
    → Fixes view m
    → ((a : A) → Fixes view (f a))
    → Fixes view (m >>= f)
Fixes-bind {A} {B} view m f h k d = go (m d) (h d)
  where
    go :
        (o : Option (A × Device))
        → Allows (λ p. view p.1 ≡ view d) o
        → Allows (λ p. view p.1 ≡ view d) (elim o [ none ↦ none | some (a, e) ↦ f a e ])
    go none r = tt
    go (some (a, e)) r =
        Allows-mono (λ p. view p.1 ≡ view e) (λ p. view p.1 ≡ view d) (f a e) (k a e) (λ p q. q ∙ r)

-- A part to which the clock, the line in and the byte below the buffer do not belong.
module _ {V : Type 0} (view : Device → V)
    (apart : (d : Device) (clock : ℕ) (input : List Poll) (below : ℕ)
      → view (record d { clock = clock; input = input; below = below }) ≡ view d) where
  next_poll-Fixes : (l : List Poll) (d : Device) → view (next_poll l d).1 ≡ view d
  unfolding next_poll
  next_poll-Fixes [] d = apart d (d.clock + 1) d.input d.below
  next_poll-Fixes (p ∷ l) d = apart d (d.clock + p.took) l d.below

  choice-Stays :
      (v : V) (b : Bool) (d : Device)
      → view d ≡ v
      → Allows
          (Stays (λ e. view e ≡ v) (λ (p : Option ℕ × Device). view p.1 ≡ v))
          (if b then some (again d) else some (done (none, d)))
  choice-Stays v true d h = h
  choice-Stays v false d h = h

  round-Stays :
      (v : V) (start timeout : ℕ) (r : Option ℕ × Device)
      → view r.1 ≡ v
      → Allows (Stays (λ e. view e ≡ v) (λ (p : Option ℕ × Device). view p.1 ≡ v)) (
          let (c, d') = r in
          elim c [
            | some b ↦ some (done (some b, d'))
            | none ↦
                if ltb (since start d') timeout then some (again d') else some (done (none, d'))
          ])
  round-Stays v start timeout (none, d) h = choice-Stays v _ d h
  round-Stays v start timeout (some b, d) h = h

  timed_read-Fixes : (timeout : ℕ) → Fixes view (timed_read timeout)
  unfolding timed_read timed_read_round read
  timed_read-Fixes timeout d =
      iterate-Stays (λ e. view e ≡ view d) (λ p. view p.1 ≡ view d)
        (timed_read_round (millis d) timeout)
        (λ e h.
          round-Stays (view d) (millis d) timeout (next_poll e.input e)
            (next_poll-Fixes e.input e ∙ h))
        (fuel_for timeout d) d refl

  accept_until-Fixes :
      (terminator : ℕ) (rest : M (List ℕ)) (c : Option ℕ)
      → Fixes view rest
      → Fixes view (accept_until terminator rest c)
  unfolding accept_until
  accept_until-Fixes terminator rest none h = λ d. refl
  accept_until-Fixes terminator rest (some c) h = elim (Bool-cases (c == terminator)) [
    | inl last ↦ λ d. rw last refl
    | inr inside ↦ λ d. rw inside (Fixes-bind view rest (λ s. pure (c ∷ s)) h (λ s e. refl) d)
  ]

  read_until_loop-Fixes :
      (terminator timeout room : ℕ) → Fixes view (read_until_loop terminator timeout room)
  unfolding read_until_loop
  read_until_loop-Fixes terminator timeout zero = λ d. refl
  read_until_loop-Fixes terminator timeout (suc room) =
      Fixes-bind view (timed_read timeout) _ (timed_read-Fixes timeout)
        (λ c. accept_until-Fixes terminator _ c (read_until_loop-Fixes terminator timeout room))

  end_line-Fixes : (s : List ℕ) → Fixes view (end_line s)
  unfolding end_line
  end_line-Fixes (c ∷ s) d = refl
  end_line-Fixes [] d = elim (Bool-cases (d.below == b'\r')) [
    | inl cr ↦ rw cr (apart d d.clock d.input 0)
    | inr other ↦ rw other refl
  ]

  -- `readLn` leaves such a part as it is.
  pub read_ln-Fixes : (size timeout : ℕ) → Fixes view (read_ln size timeout)
  unfolding read_ln read_bytes_until
  read_ln-Fixes size timeout =
      Fixes-bind view (read_bytes_until b'\n' (size - 1) timeout) end_line
        (read_until_loop-Fixes b'\n' timeout (size - 1)) end_line-Fixes

-- `readLn` says nothing.
pub read_ln-Quiet : (size timeout : ℕ) → Quiet (read_ln size timeout)
read_ln-Quiet = read_ln-Fixes said (λ d clock input below. refl)
