-- ===== src/Modem/Signal/Found.antt =====
-- The signal that `waitForSignalQuality` reports is one that is enough.
use sag_c8y_nb_iot_demo.Base.{
  ℕ, ◌+◌, ◌%◌, ◌≤◌, ◌≡◌, ◌≢◌, inl, inr, true, Bool-cases, Option, none, some, arith,
}
use sag_c8y_nb_iot_demo.Base.Loop.{Allows, Returns, Returns-Allows}
use sag_c8y_nb_iot_demo.Device.{Device, ◌>>=◌, millis}
use sag_c8y_nb_iot_demo.Device.Loops.Found.{WhenFound, wait_for-Allows}
use sag_c8y_nb_iot_demo.Device.Timing.{Moves}
use sag_c8y_nb_iot_demo.Modem.Signal.Returns.{wait_for_signal_quality-Bounded}
use sag_c8y_nb_iot_demo.Modem.Signal.{
  get_rssi_and_ber, is_enough, keep_signal, wait_for_signal_quality,
}

-- The measurement that was kept is not 0 and, as numbers from -128 to 127, each written here with 128
-- added, not below the minimum, of which the lower byte counts.
abbrev pub HasSignal : Device → Type 0
HasSignal d = (d.last_rssi ≢ 0) × ((d.min_rssi % 256 + 128) % 256 ≤ (d.last_rssi + 128) % 256)

is_enough_lem :
    (rssi min_rssi : ℕ)
    → is_enough rssi min_rssi ≡ true
    → (rssi ≢ 0) × ((min_rssi % 256 + 128) % 256 ≤ (rssi + 128) % 256)
unfolding is_enough
is_enough_lem rssi min_rssi h = (ground arith, ground arith)

keep_signal-Allows :
    (start : ℕ) (r : Option (ℕ × ℕ)) (d : Device)
    → Allows (WhenFound HasSignal) (keep_signal start r d)
unfolding keep_signal
keep_signal-Allows start none d = tt
keep_signal-Allows start (some (rssi, ber)) d = elim (Bool-cases (is_enough rssi d.min_rssi)) [
  | inl enough ↦ rw enough (is_enough_lem rssi d.min_rssi enough)
  | inr weak ↦ rw weak tt
]

measure-Allows :
    (start : ℕ) (d : Device)
    → Allows (WhenFound HasSignal) ((get_rssi_and_ber >>= keep_signal start) d)
measure-Allows start d = go (get_rssi_and_ber d)
  where
    go :
        (o : Option (Option (ℕ × ℕ) × Device))
        → Allows
            (WhenFound HasSignal)
            (elim o [ none ↦ none | some (r, e) ↦ keep_signal start r e ])
    go none = tt
    go (some (r, e)) = keep_signal-Allows start r e

found-HasSignal :
    (limit : ℕ) (d : Device) → Allows (WhenFound HasSignal) (wait_for_signal_quality limit d)
unfolding wait_for_signal_quality
found-HasSignal limit d =
    wait_for-Allows HasSignal limit (get_rssi_and_ber >>= keep_signal (millis d))
      (measure-Allows (millis d)) d

-- The wait for a signal that `attachBee` starts always returns, whatever the modem sends on lines that
-- overrun none of the driver's arrays: it takes polls off the line, or at most 71261 ms go by. When it succeeds, the measured RSSI that it leaves
-- is not 0, which stands for an unknown one, and as a signed byte not below the lower byte of the
-- minimum that is set.
pub wait_for_signal_quality-HasSignal :
    (d : Device)
    → Returns (λ p. Moves 0 71261 d p.1 × WhenFound HasSignal p) (wait_for_signal_quality 60000 d)
wait_for_signal_quality-HasSignal d =
    Returns-Allows (λ p. Moves 0 71261 d p.1) (WhenFound HasSignal)
      (wait_for_signal_quality 60000 d) (wait_for_signal_quality-Bounded d)
      (found-HasSignal 60000 d)
