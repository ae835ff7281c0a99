-- ===== src/Device/Loops/Sent.antt =====
-- What the waiting loops say: what their rounds say, over and over.
use sag_c8y_nb_iot_demo.Base.{ℕ, refl, Bool, true, false, Bool-cases, inl, inr, Option, none, some}
use sag_c8y_nb_iot_demo.Base.Loop.{Allows, Stays, iterate-Stays, Allows-and_then}
use sag_c8y_nb_iot_demo.Device.{Device, M, millis, is_timedout, fuel_for}
use sag_c8y_nb_iot_demo.Device.Loops.{
  repeat_test, repeat_round, repeat_while, wait_longer, wait_test, wait_round, wait_for,
}
use sag_c8y_nb_iot_demo.Device.Sent.{
  Said, said, Script, silence, Many, stop, some_of, Many-snoc, Speaks, Quiet, quiet_after,
}
use sag_c8y_nb_iot_demo.Device.Timing.{safe_delay-delay}

repeat_test-Stays :
    (v : Said) (start limit : ℕ) (p : Bool × Device)
    → silence v (said p.1)
    → Allows
        (Stays (λ e. silence v (said e)) (λ (q : Unit {0} × Device). silence v (said q.1)))
        (repeat_test start limit p)
unfolding repeat_test
repeat_test-Stays v start limit (false, d) h = h
repeat_test-Stays v start limit (true, d) h = elim (Bool-cases (is_timedout start limit d)) [
  | inl late ↦ rw late h
  | inr early ↦ rw early h
]

pub repeat_while-Quiet : (limit : ℕ) (body : M Bool) → Quiet body → Quiet (repeat_while limit body)
unfolding repeat_while repeat_round
repeat_while-Quiet limit body h d =
    iterate-Stays (λ e. silence (said d) (said e)) (λ q. silence (said d) (said q.1))
      (repeat_round (millis d) limit body)
      (λ e k.
        Allows-and_then (λ p. silence (said d) (said p.1))
          (Stays (λ e. silence (said d) (said e)) (λ q. silence (said d) (said q.1))) (body e)
          (repeat_test (millis d) limit) (quiet_after body (said d) e h k)
          (λ p q. repeat_test-Stays (said d) (millis d) limit p q))
      (fuel_for limit d) d refl

-- The rounds of a wait: the last of them found what it waited for, or time is over.
abbrev pub until_found : {A : Type 0} → Script → Option A → Script
until_found R (some a) = some_of R
until_found R none = Many R

abbrev Going : Script → Said → ℕ × Device → Type 0
Going R v s = Many R v (said s.1)

module _ {A : Type 0} (R : Script) (v : Said) where
  abbrev Gone : Option A × Device → Type 0
  Gone p = until_found R p.0 v (said p.1)

  wait_test-Stays :
      (wait : ℕ) (p : Option A × Device) (d : Device)
      → Many R v (said d)
      → R (said d) (said p.1)
      → Allows (Stays (Going R v) Gone) (wait_test wait p)
  unfolding wait_test wait_longer
  wait_test-Stays wait (some a, e) d h r = record { middle = said d; first = h; second = r }
  wait_test-Stays wait (none, e) d h r =
      rw (safe_delay-delay wait e) (Many-snoc R v (said d) (said e) h r)

  wait_round-Stays :
      (start limit : ℕ) (body : M (Option A))
      → Speaks (λ _. R) body
      → (s : ℕ × Device) → Going R v s
      → Allows (Stays (Going R v) Gone) (wait_round start limit body s)
  unfolding wait_round
  wait_round-Stays start limit body h (wait, d) k = elim (Bool-cases (is_timedout start limit d)) [
    | inl late ↦ rw late k
    | inr early ↦ rw early (
        Allows-and_then (λ p. R (said d) (said p.1)) (Stays (Going R v) Gone) (body d)
          (wait_test wait) (h d) (λ p r. wait_test-Stays wait p d k r))
  ]

pub wait_for-Speaks :
    {A : Type 0} (R : Script) (limit : ℕ) (body : M (Option A))
    → Speaks (λ _. R) body
    → Speaks (until_found R) (wait_for limit body)
unfolding wait_for
wait_for-Speaks {A} R limit body h d =
    iterate-Stays (Going R (said d)) (Gone R (said d)) (wait_round (millis d) limit body)
      (wait_round-Stays R (said d) (millis d) limit body h) (fuel_for limit d) (500, d)
      (stop (said d))
