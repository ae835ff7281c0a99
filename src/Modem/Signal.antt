-- ===== src/Modem/Signal.antt =====
-- The signal quality of ATT_NBIOT.cpp: RSSI and BER, and the wait for enough of it.
pub mod Convert
pub mod Returns
pub mod Sent
pub mod Keeps
pub mod Found
use sag_c8y_nb_iot_demo.Base.{
  ℕ, ◌+◌, ◌-◌, ◌*◌, ◌/◌, ◌%◌, ◌^◌, Bool, true, false, not, ◌&&◌, ◌||◌, Option, none, some, List, [],
  ◌∷◌, ltb, leb, ◌==◌, if◌then◌else◌, codes, get_or,
}
use sag_c8y_nb_iot_demo.Base.Words.{wrap8, ge_s8}
use sag_c8y_nb_iot_demo.Device.{Device, M, pure, ◌>>=◌, ◌>>◌, modify, get, millis, since}
use sag_c8y_nb_iot_demo.Device.Loops.{wait_for}
use sag_c8y_nb_iot_demo.Device.Print.{println}
use sag_c8y_nb_iot_demo.Modem.Commands.{parsed}
use sag_c8y_nb_iot_demo.Modem.Parsers.{csq_parser}

-- `convertCSQ2RSSI`: -113 + 2 * csq as an int8_t pattern.
unfoldable pub convert_csq_to_rssi : ℕ → ℕ
convert_csq_to_rssi csq = (2 * csq + (256 - 113)) % 256

-- `convertRSSI2CSQ`: the division cuts towards zero.
unfoldable pub convert_rssi_to_csq : ℕ → ℕ
convert_rssi_to_csq rssi =
    let biased = (rssi + 128) % 256 in
    if leb 15 biased then (biased - 15) / 2 else (256 - (15 - biased) / 2) % 256

abbrev pub ber_values : List ℕ
ber_values = 49 ∷ 43 ∷ 37 ∷ 25 ∷ 19 ∷ 13 ∷ 7 ∷ 0 ∷ []

-- The two results from the raw numbers.
unfoldable pub rssi_of : ℕ → ℕ
rssi_of csq_raw = if csq_raw == 99 then 0 else convert_csq_to_rssi (wrap8 csq_raw)

unfoldable pub ber_of : ℕ → ℕ
ber_of ber_raw = if (ber_raw == 99) || leb 8 ber_raw then 0 else get_or ber_values ber_raw 0

measured : Option (ℕ × ℕ) → Option (ℕ × ℕ)
measured (some (csq, ber)) = some (rssi_of csq, ber_of ber)
measured none = none

-- `getRSSIAndBER`; `none` is false, which leaves the results alone.
unfoldable pub get_rssi_and_ber : M (Option (ℕ × ℕ))
unfolding measured
get_rssi_and_ber = do println (codes "AT+CSQ"); raw ← parsed csq_parser (0, 0); pure (measured raw)

-- `(uint8_t) ((int32_t) ms / 1000)`
abbrev pub seconds : ℕ → ℕ
seconds ms = if ltb ms (2 ^ 31) then wrap8 (ms / 1000) else wrap8 (2 ^ 32 - (2 ^ 32 - ms) / 1000)

-- `rssi != 0 && rssi >= minRSSI`, with the minimum cut to an int8_t
unfoldable pub is_enough : ℕ → ℕ → Bool
is_enough rssi min_rssi = not (rssi == 0) && ge_s8 rssi (wrap8 min_rssi)

-- A measurement that is enough is kept.
unfoldable pub keep_signal : ℕ → Option (ℕ × ℕ) → M (Option (Unit {0}))
unfolding is_enough
keep_signal start none d = some (none, d)
keep_signal start (some (rssi, ber)) d =
    if is_enough rssi d.min_rssi
    then some (some tt, record d { last_rssi = rssi; csq_time = seconds (since start d) })
    else some (none, d)

-- `waitForSignalQuality`
unfoldable pub wait_for_signal_quality : ℕ → M (Option (Unit {0}))
unfolding keep_signal
wait_for_signal_quality limit = do
  start ← get millis
  wait_for limit (get_rssi_and_ber >>= keep_signal start)

-- `setMinRSSI` and `setMinCSQ` of ATT_NBIOT.h
unfoldable pub set_min_rssi : ℕ → M (Unit {0})
set_min_rssi rssi = modify (λ d. record d { min_rssi = rssi })

-- The int8_t is widened to the int that is stored.
unfoldable pub set_min_csq : ℕ → M (Unit {0})
set_min_csq csq =
    let rssi = convert_csq_to_rssi (wrap8 csq) in
    modify (λ d. record d { min_rssi = if leb 128 rssi then rssi + (2 ^ 16 - 2 ^ 8) else rssi })
