-- ===== src/Modem/Connect/Steps.antt =====
-- A sequence of steps of which each may fail, and what it says.
use sag_c8y_nb_iot_demo.Base.{
  ◌≡◌, ◌⊎◌, inl, inr, refl, Bool, true, false, List, [], ◌∷◌, if◌then◌else◌,
}
use sag_c8y_nb_iot_demo.Device.{M, pure, ◌>>=◌}
use sag_c8y_nb_iot_demo.Device.Sent.{Said, Script, silence, ◌then◌, Speaks, Speaks-bind}
use sag_c8y_nb_iot_demo.Modem.Connect.{require}

-- A sequence of steps, each with what it says when it succeeds and when it fails: success is that
-- of all the steps, and a step that fails is the last.
abbrev pub Steps : Type 1
Steps = List (Bool → Script)

abbrev pub follows : Steps → Bool → Script
follows [] b v v' = (b ≡ true) × silence v v'
follows (R ∷ steps) b v v' = ((b ≡ false) × R false v v') ⊎ (R true then follows steps b) v v'

-- The same line in both cases.
abbrev pub always : Script → Bool → Script
always R b = R

abbrev stopping : Steps → Bool → Bool → Script
stopping steps true b v v' = follows steps b v v'
stopping steps false b v v' = (b ≡ false) × silence v v'

follows-step :
    (R : Bool → Script) (steps : Steps) (a b : Bool) (v w v' : Said)
    → R a v w
    → stopping steps a b w v'
    → follows (R ∷ steps) b v v'
follows-step R steps true b v w v' r h = inr (record { middle = w; first = r; second = h })
follows-step R steps false b v w v' r (failed, same) = inl (failed, rw same r)

pub require-follows :
    (R : Bool → Script) (steps : Steps) (step rest : M Bool)
    → Speaks R step
    → Speaks (follows steps) rest
    → Speaks (follows (R ∷ steps)) (require step rest)
require-follows R steps step rest h k =
    Speaks-bind R (stopping steps) (follows (R ∷ steps)) step (λ b. if b then rest else pure false)
      h after (follows-step R steps)
  where
    after : (b : Bool) → Speaks (stopping steps b) (if b then rest else pure false)
    after true d = k d
    after false d = (refl, refl)

-- Another account of the first step, from where it starts.
pub first_step :
    (R R' : Bool → Script) (steps : Steps) (v : Said)
    → ((b : Bool) (w : Said) → R b v w → R' b v w)
    → (b : Bool) (v' : Said) → follows (R ∷ steps) b v v'
    → follows (R' ∷ steps) b v v'
first_step R R' steps v h b v' (inl (failed, r)) = inl (failed, h false v' r)
first_step R R' steps v h b v' (inr t) =
    inr (record { middle = t.middle; first = h true t.middle t.first; second = t.second })

-- A step that cannot fail.
pub sure-follows :
    {A : Type 0} (R : Script) (steps : Steps) (step : M A) (rest : M Bool)
    → Speaks (λ _. R) step
    → Speaks (follows steps) rest
    → Speaks (follows (always R ∷ steps)) (step >>= λ _. rest)
sure-follows R steps step rest h k =
    Speaks-bind (λ _. R) (λ _. follows steps) (follows (always R ∷ steps)) step (λ _. rest) h
      (λ _. k) (λ a b v w v' r q. inr (record { middle = w; first = r; second = q }))
