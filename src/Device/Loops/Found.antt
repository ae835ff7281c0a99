-- ===== src/Device/Loops/Found.antt =====
-- What a waiting loop finds is what one round of its body found.
use sag_c8y_nb_iot_demo.Base.{ℕ, Bool, true, false, Option, none, some, if◌then◌else◌}
use sag_c8y_nb_iot_demo.Base.Loop.{
  Next, done, and_then, Allows, Leaves, iterate-Allows, Allows-and_then,
}
use sag_c8y_nb_iot_demo.Device.{Device, M, millis, is_timedout, fuel_for, safe_delay}
use sag_c8y_nb_iot_demo.Device.Loops.{wait_longer, wait_test, wait_round, wait_for}

module _ {A : Type 0} where
  -- The state in which something was found satisfies `Q`.
  abbrev pub WhenFound : (Device → Type 0) → Option A × Device → Type 0
  WhenFound Q (some a, d) = Q d
  WhenFound Q (none, d) = Unit

  wait_test-Allows :
      (Q : Device → Type 0) (wait : ℕ) (p : Option A × Device)
      → WhenFound Q p
      → Allows (Leaves (WhenFound Q)) (wait_test wait p)
  unfolding wait_test wait_longer
  wait_test-Allows Q wait (some a, d) h = h
  wait_test-Allows Q wait (none, d) h = delayed (safe_delay wait d)
    where
      delayed :
          (o : Option (Unit {0} × Device))
          → Allows (Leaves (WhenFound Q)) (and_then o (wait_longer wait))
      delayed none = tt
      delayed (some (u, e)) = tt

  by_time :
      (Q : Device → Type 0) (late : Bool) (d : Device)
      (o : Option (Next (ℕ × Device) (Option A × Device)))
      → Allows (Leaves (WhenFound Q)) o
      → Allows (Leaves (WhenFound Q)) (if late then some (done (none, d)) else o)
  by_time Q true d o h = tt
  by_time Q false d o h = h

  pub wait_for-Allows :
      (Q : Device → Type 0) (limit : ℕ) (body : M (Option A))
      → ((e : Device) → Allows (WhenFound Q) (body e))
      → (d : Device) → Allows (WhenFound Q) (wait_for limit body d)
  unfolding wait_for wait_round
  wait_for-Allows Q limit body k d =
      iterate-Allows (WhenFound Q) (wait_round (millis d) limit body)
        (λ s.
          by_time Q (is_timedout (millis d) limit s.1) s.1 (and_then (body s.1) (wait_test s.0)) (
            Allows-and_then (WhenFound Q) (Leaves (WhenFound Q)) (body s.1) (wait_test s.0) (k s.1)
              (λ p h. wait_test-Allows Q s.0 p h)))
        (fuel_for limit d) (500, d)
