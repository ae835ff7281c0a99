-- ===== src/Device/Steps.antt =====
-- Running operations step by step: a sequence whose first part is known, and a line that delivers
-- characters, each after a time of its own.
use sag_c8y_nb_iot_demo.Base.{ℕ, ◌+◌, ◌≡◌, ap, Option, none, some, List, [], ◌∷◌, ◌++◌}
use sag_c8y_nb_iot_demo.Device.{Device, Poll, M, ◌>>=◌}

-- An operation that gives a result goes on with it.
pub bind-some :
    {A B : Type 0} (m : M A) (f : A → M B) (d d' : Device) (a : A)
    → m d ≡ some (a, d')
    → (m >>= f) d ≡ f a d'
bind-some {A} {B} m f d d' a h =
    ap {A = Option (A × Device)} (λ o. elim o [ none ↦ none | some (x, e) ↦ f x e ]) h

-- Characters with the milliseconds that each read takes.
abbrev pub Timed : Type 0
Timed = List (ℕ × ℕ)

abbrev pub bytes : Timed → List ℕ
bytes [] = []
bytes ((c, ms) ∷ l) = c ∷ bytes l

abbrev pub duration : Timed → ℕ
duration [] = 0
duration ((c, ms) ∷ l) = ms + duration l

-- The polls that deliver them.
abbrev pub delivered : Timed → List Poll
delivered [] = []
delivered ((c, ms) ∷ l) = record { byte = some c; took = ms } ∷ delivered l

-- The device once `ms` milliseconds went by and `rest` is left on the line.
abbrev pub past : Device → ℕ → List Poll → Device
past d ms rest = record d { clock = d.clock + ms; input = rest }

-- A line as the modem sends it: its text and a carriage return, and the newline.
pub record Line : Type 0 where
  pub text : List ℕ
  pub chars : Timed
  pub last : ℕ

abbrev pub took : Line → ℕ
took l = duration l.chars + l.last

-- The line's polls in front of others.
abbrev pub in_front : Line → List Poll → List Poll
in_front l rest = delivered l.chars ++ (record { byte = some b'\n'; took = l.last } ∷ rest)
