-- ===== src/Modem/Signal/Keeps.antt =====
-- The wait for a signal keeps the credentials short.
use sag_c8y_nb_iot_demo.Base.{ℕ, Bool-cases, inl, inr, Option, none, some, codes}
use sag_c8y_nb_iot_demo.Device.{◌>>=◌, millis}
use sag_c8y_nb_iot_demo.Device.Identity.{Keeps, Keeps-bind}
use sag_c8y_nb_iot_demo.Device.Loops.Keeps.{wait_for-Keeps}
use sag_c8y_nb_iot_demo.Modem.Commands.{parsed}
use sag_c8y_nb_iot_demo.Modem.Commands.Keeps.{println-then-Keeps, then_pure-Keeps, parsed-Keeps}
use sag_c8y_nb_iot_demo.Modem.Parsers.{csq_parser}
use sag_c8y_nb_iot_demo.Modem.Signal.{
  measured, get_rssi_and_ber, is_enough, keep_signal, wait_for_signal_quality,
}

keep_signal-Keeps : (start : ℕ) (r : Option (ℕ × ℕ)) → Keeps (keep_signal start r)
unfolding keep_signal
keep_signal-Keeps start none d short = short
keep_signal-Keeps start (some (rssi, ber)) d short = elim (Bool-cases (is_enough rssi d.min_rssi)) [
  | inl enough ↦ rw enough short
  | inr weak ↦ rw weak short
]

get_rssi_and_ber-Keeps : Keeps get_rssi_and_ber
unfolding get_rssi_and_ber
get_rssi_and_ber-Keeps =
    println-then-Keeps (codes "AT+CSQ") _
      (then_pure-Keeps (parsed csq_parser (0, 0)) measured (parsed-Keeps csq_parser (0, 0)))

pub wait_for_signal_quality-Keeps : (limit : ℕ) → Keeps (wait_for_signal_quality limit)
unfolding wait_for_signal_quality
wait_for_signal_quality-Keeps limit d =
    wait_for-Keeps limit (get_rssi_and_ber >>= keep_signal (millis d))
      (Keeps-bind get_rssi_and_ber (keep_signal (millis d)) get_rssi_and_ber-Keeps
        (keep_signal-Keeps (millis d)))
      d
