-- ===== src/Device/Loops/Keeps.antt =====
-- The waiting loops keep the credentials short if their bodies do.
use sag_c8y_nb_iot_demo.Base.{ℕ, Bool, true, false, Bool-cases, inl, inr, Option, none, some}
use sag_c8y_nb_iot_demo.Base.Loop.{Allows, Stays, iterate-Stays, Allows-and_then}
use sag_c8y_nb_iot_demo.Device.{Device, M, millis, is_timedout, fuel_for}
use sag_c8y_nb_iot_demo.Device.Identity.{HasShortCredentials, Keeps}
use sag_c8y_nb_iot_demo.Device.Loops.{
  repeat_test, repeat_round, repeat_while, wait_longer, wait_test, wait_round, wait_for,
}
use sag_c8y_nb_iot_demo.Device.Timing.{safe_delay-delay}

repeat_test-Stays :
    (start limit : ℕ) (p : Bool × Device)
    → HasShortCredentials p.1
    → Allows
        (Stays HasShortCredentials (λ (q : Unit {0} × Device). HasShortCredentials q.1))
        (repeat_test start limit p)
unfolding repeat_test
repeat_test-Stays start limit (false, d) h = h
repeat_test-Stays start limit (true, d) h = elim (Bool-cases (is_timedout start limit d)) [
  | inl late ↦ rw late h
  | inr early ↦ rw early h
]

pub repeat_while-Keeps : (limit : ℕ) (body : M Bool) → Keeps body → Keeps (repeat_while limit body)
unfolding repeat_while repeat_round
repeat_while-Keeps limit body h d =
    iterate-Stays HasShortCredentials (λ q. HasShortCredentials q.1)
      (repeat_round (millis d) limit body)
      (λ e k.
        Allows-and_then (λ p. HasShortCredentials p.1)
          (Stays HasShortCredentials (λ q. HasShortCredentials q.1)) (body e)
          (repeat_test (millis d) limit) (h e k) (repeat_test-Stays (millis d) limit))
      (fuel_for limit d) d

abbrev Going : ℕ × Device → Type 0
Going s = HasShortCredentials s.1

module _ {A : Type 0} where
  abbrev Gone : Option A × Device → Type 0
  Gone p = HasShortCredentials p.1

  wait_test-Stays :
      (wait : ℕ) (p : Option A × Device)
      → HasShortCredentials p.1
      → Allows (Stays Going Gone) (wait_test wait p)
  unfolding wait_test wait_longer
  wait_test-Stays wait (some a, e) h = h
  wait_test-Stays wait (none, e) h = rw (safe_delay-delay wait e) h

  pub wait_for-Keeps : (limit : ℕ) (body : M (Option A)) → Keeps body → Keeps (wait_for limit body)
  unfolding wait_for wait_round
  wait_for-Keeps limit body h d =
      iterate-Stays Going Gone (wait_round (millis d) limit body) round (fuel_for limit d) (500, d)
    where
      round :
          (s : ℕ × Device)
          → HasShortCredentials s.1
          → Allows (Stays Going Gone) (wait_round (millis d) limit body s)
      round (wait, e) k = elim (Bool-cases (is_timedout (millis d) limit e)) [
        | inl late ↦ rw late k
        | inr early ↦ rw early (
            Allows-and_then (λ p. HasShortCredentials p.1) (Stays Going Gone) (body e)
              (wait_test wait) (h e k) (wait_test-Stays wait))
      ]
