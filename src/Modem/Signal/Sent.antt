-- ===== src/Modem/Signal/Sent.antt =====
-- What the wait for a signal says: the question for it, over and over.
use sag_c8y_nb_iot_demo.Base.{
  ℕ, refl, Bool-cases, inl, inr, Option, none, some, List, [], ◌∷◌, ◌++◌, codes,
}
use sag_c8y_nb_iot_demo.Device.{pure, ◌>>=◌, get, millis}
use sag_c8y_nb_iot_demo.Device.Loops.Sent.{until_found, wait_for-Speaks}
use sag_c8y_nb_iot_demo.Device.Sent.{
  line, Speaks, Quiet, Quiet-bind, pure-Quiet, get-Quiet, Quiet-bind-Speaks, Speaks-bind-Quiet,
}
use sag_c8y_nb_iot_demo.Modem.Commands.{parsed}
use sag_c8y_nb_iot_demo.Modem.Commands.Script.{println-line, parsed-Quiet}
use sag_c8y_nb_iot_demo.Modem.Parsers.{csq_parser}
use sag_c8y_nb_iot_demo.Modem.Signal.{
  measured, get_rssi_and_ber, is_enough, keep_signal, wait_for_signal_quality,
}

abbrev pub csq : List ℕ
csq = codes "AT+CSQ" ++ (b'\r' ∷ [])

keep_signal-Quiet : (start : ℕ) (r : Option (ℕ × ℕ)) → Quiet (keep_signal start r)
unfolding keep_signal
keep_signal-Quiet start none d = refl
keep_signal-Quiet start (some (rssi, ber)) d = elim (Bool-cases (is_enough rssi d.min_rssi)) [
  | inl enough ↦ rw enough refl
  | inr weak ↦ rw weak refl
]

get_rssi_and_ber-csq : Speaks (λ _. line csq) get_rssi_and_ber
unfolding get_rssi_and_ber
get_rssi_and_ber-csq =
    println-line (codes "AT+CSQ") (parsed csq_parser (0, 0) >>= λ raw. pure (measured raw)) (
      Quiet-bind (parsed csq_parser (0, 0)) (λ raw. pure (measured raw))
        (parsed-Quiet csq_parser (0, 0)) (λ raw. pure-Quiet (measured raw)))

pub wait_for_signal_quality-csq :
    (limit : ℕ) → Speaks (until_found (line csq)) (wait_for_signal_quality limit)
unfolding wait_for_signal_quality
wait_for_signal_quality-csq limit =
    Quiet-bind-Speaks (until_found (line csq)) (get millis) _ (get-Quiet millis) (λ start.
      wait_for-Speaks (line csq) limit (get_rssi_and_ber >>= keep_signal start) (
        Speaks-bind-Quiet (line csq) get_rssi_and_ber (keep_signal start) get_rssi_and_ber-csq
          (keep_signal-Quiet start)))
