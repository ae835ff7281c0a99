-- ===== src/Device/Identity.antt =====
-- Operations that keep the device's credentials short.
use sag_c8y_nb_iot_demo.Base.{◌≤◌, Bool, true, false, Option, none, some, length, if◌then◌else◌}
use sag_c8y_nb_iot_demo.Base.Loop.{Allows}
use sag_c8y_nb_iot_demo.Device.{Device, M, ◌>>=◌}

-- The id has the 15 characters of an IMEI at most, the token 20.
abbrev pub HasShortCredentials : Device → Type 0
HasShortCredentials d = (length d.device_id ≤ 15) × (length d.device_token ≤ 20)

abbrev pub Keeps : {A : Type 0} → M A → Type 0
Keeps m = (d : Device) → HasShortCredentials d → Allows (λ p. HasShortCredentials p.1) (m d)

pub Keeps-bind :
    {A B : Type 0} (m : M A) (f : A → M B) → Keeps m → ((a : A) → Keeps (f a)) → Keeps (m >>= f)
Keeps-bind {A} {B} m f h k d short = go (m d) (h d short)
  where
    go :
        (o : Option (A × Device))
        → Allows (λ p. HasShortCredentials p.1) o
        → Allows (λ p. HasShortCredentials p.1) (elim o [ none ↦ none | some (a, e) ↦ f a e ])
    go none r = tt
    go (some (a, e)) r = k a e r

pub Keeps-if : {A : Type 0} (b : Bool) (m n : M A) → Keeps m → Keeps n → Keeps (if b then m else n)
Keeps-if true m n h k = h
Keeps-if false m n h k = k
