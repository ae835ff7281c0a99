-- ===== src/Tests/Sketch.antt =====
-- The theorems on the sketch, the switch and the agent, at concrete readings and passwords.
use sag_c8y_nb_iot_demo.Base.{ℕ, ◌≡◌, refl, true, false, none, List, [], ◌∷◌, codes, cstr, arith}
use sag_c8y_nb_iot_demo.Agent.{new_data_packet}
use sag_c8y_nb_iot_demo.Agent.Datagram.{Fits, Measures, new_data_packet-Measures}
use sag_c8y_nb_iot_demo.Agent.Text.{IsLineText}
use sag_c8y_nb_iot_demo.Modem.Send.Wire.{datagram}
use sag_c8y_nb_iot_demo.Node.{packet, write_pw, read_pw, password_loop}
use sag_c8y_nb_iot_demo.Node.Password.{password_loop-endless}
use sag_c8y_nb_iot_demo.Node.Storage.{IsText, read_pw-write_pw}
use sag_c8y_nb_iot_demo.Node.Timer.{AirQuality, on_overflow, on_overflows, on_overflows-sample}
use sag_c8y_nb_iot_demo.OnOff.{fresh, init}
use sag_c8y_nb_iot_demo.OnOff.State.{press_on, press_off, press_all, Agrees, press_all-init-Agrees}
use sag_c8y_nb_iot_demo.Tests.{board, imei, readings, eeprom, low_pins, gateway, noon}

pub imei-IsLineText : IsLineText imei
imei-IsLineText = ground arith

pub readings-Fits : Fits readings
readings-Fits = record {
  light = omega arith;
  loudness = omega arith;
  motion = omega arith;
  temperature = omega arith;
  humidity = omega arith;
  pressure = omega arith;
  battery = omega arith;
  air_quality = omega arith;
}

new_data_packet-Measures_example :
    Measures readings (new_data_packet gateway 40001 noon (datagram board (packet readings)))
new_data_packet-Measures_example =
    new_data_packet-Measures gateway 40001 noon board b's' b'1' (codes "3cret") (codes "0217")
      readings refl imei-IsLineText (ground arith) (ground arith) readings-Fits

abbrev passw : List ℕ
passw = codes "s3cret\n10217"

passw-IsText : IsText passw
passw-IsText = ground arith

read_pw-write_pw_example : cstr (read_pw (write_pw passw eeprom)) ≡ passw
read_pw-write_pw_example = read_pw-write_pw passw eeprom passw-IsText (omega arith)

password_loop-endless_example : password_loop 500 0 300 passw ≡ none
password_loop-endless_example = password_loop-endless 500 0 300 passw (omega arith) (omega arith)

abbrev sensor : AirQuality
sensor = record { counter = 58; first_vol = 120; last_vol = 90; timer_index = false; led = true }

on_overflows-sample_example :
    on_overflow 137 (on_overflows (1 ∷ 2 ∷ 3 ∷ []) sensor)
    ≡ record { counter = 0; first_vol = 137; last_vol = 120; timer_index = true; led = false }
on_overflows-sample_example = on_overflows-sample (1 ∷ 2 ∷ 3 ∷ []) 137 sensor (omega arith)

press_all-init-Agrees_example :
    Agrees 23 low_pins (press_all (press_on ∷ press_off ∷ press_on ∷ []) (init 23 fresh low_pins))
press_all-init-Agrees_example =
    press_all-init-Agrees (press_on ∷ press_off ∷ press_on ∷ []) 23 low_pins (omega arith)
