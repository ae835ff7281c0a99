-- ===== src/Device/Loops/Returns.antt =====
-- The waiting loops return, if their rounds do and each spends some time.
use sag_c8y_nb_iot_demo.Base.{
  ℕ, ◌+◌, ◌^◌, ◌≤◌, ◌<◌, Option, none, some, arith, Bool, Bool-cases, inl, inr, ltb_false→le,
}
use sag_c8y_nb_iot_demo.Base.Loop.{Returns, Proceeds, iterate-Returns, Returns-and_then}
use sag_c8y_nb_iot_demo.Device.{Device, M, millis, since, is_timedout, fuel_for}
use sag_c8y_nb_iot_demo.Device.Timing.{
  Moves, Runs, rest, rest_drops, rest-lt-fuel_for, safe_delay-delay,
}
use sag_c8y_nb_iot_demo.Device.Loops.{
  repeat_test, repeat_round, repeat_while, wait_longer, wait_test, wait_round, wait_for,
}

module _ (limit hi : ℕ) (hb : limit + hi < 2 ^ 32) where
  repeat_test-Proceeds :
      (d e : Device) (go_on : Bool) (e' : Device)
      → (since (millis d) e ≤ limit) × Moves 0 limit d e
      → Moves 1 hi e e'
      → Returns
          (Proceeds
            (λ e. (since (millis d) e ≤ limit) × Moves 0 limit d e)
            (λ (p : Unit {0} × Device). Moves 1 (limit + hi) d p.1)
            (rest limit (millis d))
            (rest limit (millis d) e))
          (repeat_test (millis d) limit (go_on, e'))
  unfolding repeat_test
  repeat_test-Proceeds d e go_on e' h mv =
      ground (arith, rest_drops limit hi (millis d) e e' (omega arith) hb h.0)

  pub repeat_while-Runs :
      (body : M Bool) (d : Device)
      → ((e : Device) → Runs 1 hi e (body e))
      → Runs 1 (limit + hi) d (repeat_while limit body d)
  unfolding repeat_while repeat_round
  repeat_while-Runs body d k =
      iterate-Returns (λ e. (since (millis d) e ≤ limit) × Moves 0 limit d e)
        (λ p. Moves 1 (limit + hi) d p.1) (rest limit (millis d))
        (repeat_round (millis d) limit body)
        (λ e h.
          Returns-and_then (λ p. Moves 1 hi e p.1) _ (body e) (repeat_test (millis d) limit) (k e)
            (λ p mv. repeat_test-Proceeds d e p.0 p.1 h mv))
        (fuel_for limit d) d (rest-lt-fuel_for limit (millis d) d) (omega arith)

-- A wait stays below 6 seconds.
abbrev IsShort : ℕ → Type 0
IsShort wait = wait < 6000

-- The state of the loop: it may stand past its time, but then it leaves at once.
abbrev Pending : ℕ → Device → ℕ × Device → Type 0
Pending bound d (wait, e) = IsShort wait × Moves 0 bound d e

module _ {A : Type 0} (limit hi : ℕ) (hb : limit + (hi + 6000) < 2 ^ 32) where
  wait_test-Proceeds :
      (d e e' : Device) (wait : ℕ) (r : Option A)
      → Pending (limit + (hi + 6000)) d (wait, e)
      → since (millis d) e ≤ limit
      → Moves 1 hi e e'
      → Returns
          (Proceeds
            (Pending (limit + (hi + 6000)) d)
            (λ (p : Option A × Device). Moves 0 (limit + (hi + 6000)) d p.1)
            (λ p. rest limit (millis d) p.1)
            (rest limit (millis d) e))
          (wait_test wait (r, e'))
  unfolding wait_test wait_longer
  wait_test-Proceeds d e e' wait (some a) h within mv = omega arith
  wait_test-Proceeds d e e' wait none h within mv = rw (safe_delay-delay wait e') (
      ground (
        arith,
        rest_drops limit (hi + 6000) (millis d) e (record e' { clock = e'.clock + wait })
            (omega arith) hb within,
      ))

  wait_round-Proceeds :
      (body : M (Option A)) (d e : Device) (wait : ℕ)
      → ((e : Device) → Runs 1 hi e (body e))
      → Pending (limit + (hi + 6000)) d (wait, e)
      → Returns
          (Proceeds
            (Pending (limit + (hi + 6000)) d)
            (λ (p : Option A × Device). Moves 0 (limit + (hi + 6000)) d p.1)
            (λ p. rest limit (millis d) p.1)
            (rest limit (millis d) e))
          (wait_round (millis d) limit body (wait, e))
  unfolding wait_round
  wait_round-Proceeds body d e wait k h = elim (Bool-cases (is_timedout (millis d) limit e)) [
    | inl late ↦ rw late h.1
    | inr early ↦ rw early (
        Returns-and_then (λ p. Moves 1 hi e p.1) _ (body e) (wait_test wait) (k e)
          (λ p mv. wait_test-Proceeds d e p.1 wait p.0 h (ltb_false→le _ _ early) mv))
  ]

  pub wait_for-Runs :
      (body : M (Option A)) (d : Device)
      → ((e : Device) → Runs 1 hi e (body e))
      → Runs 0 (limit + (hi + 6000)) d (wait_for limit body d)
  unfolding wait_for
  wait_for-Runs body d k =
      iterate-Returns (Pending (limit + (hi + 6000)) d) (λ p. Moves 0 (limit + (hi + 6000)) d p.1)
        (λ p. rest limit (millis d) p.1) (wait_round (millis d) limit body)
        (λ p h. wait_round-Proceeds body d p.1 p.0 k h) (fuel_for limit d) (500, d)
        (rest-lt-fuel_for limit (millis d) d) (omega arith)
