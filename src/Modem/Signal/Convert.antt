-- ===== src/Modem/Signal/Convert.antt =====
-- RSSI and CSQ: the conversions against the table in the comment of ATT_NBIOT.cpp.
use sag_c8y_nb_iot_demo.Base.{ℕ, ◌+◌, ◌*◌, ◌%◌, ◌≤◌, ◌≡◌, ◌≢◌, arith}
use sag_c8y_nb_iot_demo.Modem.Signal.{convert_csq_to_rssi, convert_rssi_to_csq, rssi_of}

-- On the CSQ values up to 120, whose RSSI fits an int8_t, converting there and back changes nothing.
pub convert_rssi_to_csq-convert_csq_to_rssi :
    (csq : ℕ) → csq ≤ 120 → convert_rssi_to_csq (convert_csq_to_rssi csq) ≡ csq
unfolding convert_rssi_to_csq convert_csq_to_rssi
convert_rssi_to_csq-convert_csq_to_rssi csq h = ground arith

-- A measured CSQ (0 to 31) never converts to 0, which stands for "not known"; and it is -113 dBm
-- plus 2 dBm a step, seen with 128 added.
pub rssi_of-csq :
    (csq : ℕ) → csq ≤ 31 → (rssi_of csq ≢ 0) × ((rssi_of csq + 128) % 256 + 113 ≡ 128 + 2 * csq)
unfolding rssi_of convert_csq_to_rssi
rssi_of-csq csq h = ground arith
