-- ===== src/Device/Loops.antt =====
-- The shapes of the driver's waiting loops, over what one round does.
pub mod Returns
pub mod Found
pub mod Sent
pub mod Keeps
use sag_c8y_nb_iot_demo.Base.{ℕ, ◌+◌, Bool, true, false, Option, none, some, ltb, if◌then◌else◌}
use sag_c8y_nb_iot_demo.Base.Loop.{Next, again, done, iterate, and_then}
use sag_c8y_nb_iot_demo.Device.{Device, M, millis, is_timedout, fuel_for, safe_delay}

-- After `body()` in `while (body() && !is_timedout(start, limit)) {}`.
repeat_test : ℕ → ℕ → Bool × Device → Option (Next Device (Unit {0} × Device))
repeat_test start limit (go_on, d) =
    if go_on
    then (if is_timedout start limit d then some (done (tt, d)) else some (again d))
    else some (done (tt, d))

repeat_round : ℕ → ℕ → M Bool → Device → Option (Next Device (Unit {0} × Device))
unfolding repeat_test
repeat_round start limit body d = and_then (body d) (repeat_test start limit)

-- `start = millis(); while (body() && !is_timedout(start, limit)) {}`
unfoldable pub repeat_while : ℕ → M Bool → M (Unit {0})
unfolding repeat_round
repeat_while limit body d = iterate (fuel_for limit d) (repeat_round (millis d) limit body) d

-- The next wait is a second longer, but not from 5 seconds on.
abbrev pub longer : ℕ → ℕ
longer wait = if ltb wait 5000 then wait + 1000 else wait

module _ {A : Type 0} where
  -- A round that did not succeed waits.
  wait_longer : ℕ → Unit {0} × Device → Option (Next (ℕ × Device) (Option A × Device))
  wait_longer wait (u, d) = some (again (longer wait, d))

  wait_test : ℕ → Option A × Device → Option (Next (ℕ × Device) (Option A × Device))
  unfolding wait_longer
  wait_test wait (some a, d) = some (done (some a, d))
  wait_test wait (none, d) = and_then (safe_delay wait d) (wait_longer wait)

  wait_round : ℕ → ℕ → M (Option A) → ℕ × Device → Option (Next (ℕ × Device) (Option A × Device))
  unfolding wait_test
  wait_round start limit body (wait, d) =
      if is_timedout start limit d
      then some (done (none, d))
      else and_then (body d) (wait_test wait)

  -- `start = millis(); wait = 500; while (!is_timedout(start, limit)) { body; safe_delay(wait);
  -- wait = longer(wait) }`, left when the body has a result; `none` for the timeout.
  unfoldable pub wait_for : ℕ → M (Option A) → M (Option A)
  unfolding wait_round
  wait_for limit body d = iterate (fuel_for limit d) (wait_round (millis d) limit body) (500, d)
