-- ===== src/Modem/Signal/Returns.antt =====
-- The wait for a signal returns, and leaves a measurement that is enough.
use sag_c8y_nb_iot_demo.Base.{ℕ, Option, none, some, arith, codes}
use sag_c8y_nb_iot_demo.Device.{pure, ◌>>=◌, millis}
use sag_c8y_nb_iot_demo.Device.Loops.{wait_for}
use sag_c8y_nb_iot_demo.Device.Loops.Returns.{wait_for-Runs}
use sag_c8y_nb_iot_demo.Device.Timing.{Bounded, Bounded-bind}
use sag_c8y_nb_iot_demo.Modem.Commands.{parsed}
use sag_c8y_nb_iot_demo.Modem.Commands.Returns.{println-then, get-then, then-pure, parsed-Bounded}
use sag_c8y_nb_iot_demo.Modem.Parsers.{csq_parser}
use sag_c8y_nb_iot_demo.Modem.Signal.{
  measured, get_rssi_and_ber, keep_signal, wait_for_signal_quality,
}

keep_signal-Bounded : (start : ℕ) (r : Option (ℕ × ℕ)) → Bounded 0 0 (keep_signal start r)
unfolding keep_signal
keep_signal-Bounded start none d = omega arith
keep_signal-Bounded start (some (rssi, ber)) d = ground arith

measure-Bounded : (start : ℕ) → Bounded 1 5261 (get_rssi_and_ber >>= keep_signal start)
unfolding get_rssi_and_ber
measure-Bounded start =
    Bounded-bind 1 5261 0 0 get_rssi_and_ber (keep_signal start)
      (println-then 1 5261 (codes "AT+CSQ") (parsed csq_parser (0, 0) >>= λ r. pure (measured r))
        (then-pure 1 5261 (parsed csq_parser (0, 0)) measured (parsed-Bounded csq_parser (0, 0))))
      (keep_signal-Bounded start)

pub wait_for_signal_quality-Bounded : Bounded 0 71261 (wait_for_signal_quality 60000)
unfolding wait_for_signal_quality
wait_for_signal_quality-Bounded =
    get-then 0 71261 millis (λ start. wait_for 60000 (get_rssi_and_ber >>= keep_signal start))
      (λ start d. wait_for-Runs 60000 5261 (omega arith) _ d (measure-Bounded start))
