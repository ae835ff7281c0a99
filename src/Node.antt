-- ===== src/Node.antt =====
-- NB-IoT_node.ino: the sketch on the board. It keeps its password in the EEPROM, takes a new one
-- from the server, and sends a packet of 14 bytes with its readings every ten seconds. The readings
-- themselves, which the sensors' libraries give, are arguments.
pub mod Storage
pub mod Password
pub mod Timer
pub mod Rounds
pub mod Life
pub mod Guard
pub mod Downlink
use sag_c8y_nb_iot_demo.Base.{
  ℕ, zero, suc, ◌+◌, ◌/◌, ◌%◌, ◌^◌, Bool, true, false, not, ◌&&◌, Option, none, some, List, [], ◌∷◌,
  ◌++◌, take, drop, get_or, set, blit, length, ltb, ◌==◌, if◌then◌else◌, codes, cstr, str_eq,
}
use sag_c8y_nb_iot_demo.Base.Loop.{and_then}
use sag_c8y_nb_iot_demo.Base.Words.{wrap8, wrap32}
use sag_c8y_nb_iot_demo.Device.{Device, Poll, M, pure, ◌>>=◌, ◌>>◌, millis, delay}
use sag_c8y_nb_iot_demo.Modem.Commands.{set_att_device}
use sag_c8y_nb_iot_demo.Modem.Commands
use sag_c8y_nb_iot_demo.Modem.Connect.{Stray, connect}
use sag_c8y_nb_iot_demo.Modem.Object.{new_device, with_credentials}
use sag_c8y_nb_iot_demo.Modem.Parsers.{Packet, Received}
use sag_c8y_nb_iot_demo.Modem.Response.{positive}
use sag_c8y_nb_iot_demo.Modem.Send.{send_payload}
use sag_c8y_nb_iot_demo.Modem.Udp.{socket_receive_bytes}
use sag_c8y_nb_iot_demo.OnOff.{OnOff, Pins}

abbrev pub server : List ℕ
server = codes "3.120.251.198"

abbrev pub port : List ℕ
port = codes "8888"

abbrev pub apn : List ℕ
apn = codes "iot.orange.be"

-- One set of readings: ints by their 16-bit patterns, the pressure, a long, by that of 32 bits. The
-- temperature is `convertedTemp`, which the code computes in floats.
pub record Readings : Type 0 where
  pub light : ℕ
  pub loudness : ℕ
  pub motion : ℕ
  pub temperature : ℕ
  pub humidity : ℕ
  pub pressure : ℕ
  pub battery : ℕ
  pub air_quality : ℕ

abbrev low_byte : ℕ → ℕ
low_byte w = w % 256

abbrev high_byte : ℕ → ℕ
high_byte w = w / 2 ^ 8 % 256

-- `byte packet[14]`
unfoldable pub packet : Readings → List ℕ
packet r =
    high_byte r.light
    ∷ low_byte r.light
    ∷ high_byte r.loudness
    ∷ low_byte r.loudness
    ∷ low_byte r.motion
    ∷ high_byte r.temperature
    ∷ low_byte r.temperature
    ∷ low_byte r.humidity
    ∷ r.pressure / 2 ^ 16 % 256
    ∷ high_byte r.pressure
    ∷ low_byte r.pressure
    ∷ high_byte r.battery
    ∷ low_byte r.battery
    ∷ low_byte r.air_quality
    ∷ []

-- A cell of the EEPROM is written only if it changes.
unfoldable pub update : List ℕ → ℕ → ℕ → List ℕ
update eeprom i value = if get_or eeprom i 0 == value then eeprom else set eeprom i value

-- The loop of `writePW` from cell `i` on, and the NUL behind it.
unfoldable pub write_pw_from : ℕ → List ℕ → List ℕ → List ℕ
unfolding update
write_pw_from i [] eeprom = update eeprom i 0
write_pw_from i (c ∷ s) eeprom = write_pw_from (suc i) s (update eeprom i c)

-- `writePW`: cell 0 is not used.
unfoldable pub write_pw : List ℕ → List ℕ → List ℕ
unfolding write_pw_from
write_pw passw eeprom = write_pw_from 1 passw eeprom

-- `readPW`: the static array of 21 characters; its last one is never written and stays 0.
unfoldable pub read_pw : List ℕ → List ℕ
read_pw eeprom = take 20 (drop 1 eeprom) ++ (0 ∷ [])

-- `clearEEPROM`
unfoldable pub clear_eeprom : List ℕ → List ℕ
clear_eeprom [] = []
clear_eeprom (c ∷ eeprom) = (if c == 0 then c else 0) ∷ clear_eeprom eeprom

-- A NUL makes an empty String, so it adds nothing.
abbrev pub add_char : ℕ → Option (List ℕ) → Option (List ℕ)
add_char c none = none
add_char c (some s) = some (if c == 0 then s else c ∷ s)

-- `for (byte i = 0; i < amountbytes; i++)` over an int. `none` when the fuel runs out.
unfoldable pub password_loop : ℕ → ℕ → ℕ → List ℕ → Option (List ℕ)
password_loop zero i amount content = none
password_loop (suc fuel) i amount content = elim (ltb i amount) [
  | false ↦ some []
  | true ↦ add_char (get_or content i 0) (password_loop fuel (wrap8 (i + 1)) amount content)
]

-- The sketch's own state, with the modem's.
pub record Node : Type 0 where
  pub device : Device
  pub eeprom : List ℕ
  pub send_next_at : ℕ

-- The sketch's variables when the board starts: no password and no packet yet.
unfoldable pub power_on : List Poll → Pins → ℕ → List ℕ → Node
unfolding new_device with_credentials
power_on input pins below eeprom = record {
  device = with_credentials [] apn (new_device input pins below);
  eeprom = eeprom;
  send_next_at = 0;
}

-- `writePW(passw); device.setAttDevice(readPW(), apn);` The token is the array of `readPW`.
unfoldable pub store_password : List ℕ → Node → Option Node
store_password passw n =
    let eeprom = write_pw passw n.eeprom in
    and_then (set_att_device (cstr (read_pw eeprom)) apn n.device)
      (λ p. some (record n { device = p.1; eeprom = eeprom }))

-- What the local arrays and structs hold before they are written: the packet's metadata with the
-- characters of its content, and `data`.
pub record Locals : Type 0 where
  pub received : Received
  pub content : List ℕ

-- `if (size && String(p.ip) == String(server))`
unfoldable pub is_from_server : ℕ → Packet → Bool
is_from_server size p = not (size == 0) && str_eq (cstr p.ip) server

unfoldable pub take_password : ℕ → List ℕ → Node → Option Node
unfolding store_password
take_password amount content n =
    and_then (password_loop 257 0 amount content) (λ passw. store_password passw n)

-- What was received is a new password if it came from the server. `data` was written before the
-- test; where that went behind its end, C defines nothing, and there is no result here.
unfoldable pub use_datagram : Locals → Node → (ℕ × Packet × List ℕ) × Device → Option Node
unfolding is_from_server take_password
use_datagram locals n ((size, metadata, bytes), d) =
    if ltb (length locals.content) (length bytes)
    then none
    else if is_from_server size metadata
    then take_password n.device.pending_bytes (blit locals.content 0 bytes)
        (record n { device = d })
    else some (record n { device = d })

-- The incoming bytes.
unfoldable pub receive_password : Locals → Node → Option Node
unfolding use_datagram
receive_password locals n =
    if positive n.device.pending_bytes
    then and_then (socket_receive_bytes n.device.pending_bytes locals.received n.device)
        (use_datagram locals n)
    else some n

-- From the readings on.
unfoldable pub send_readings : Readings → Node → Option Node
unfolding packet
send_readings r n =
    and_then (send_payload (packet r) n.device)
      (λ p. some (record n { device = p.1; send_next_at = wrap32 (millis p.1 + 10000) }))

-- `loop()`: the readings are those that the sensors give in this round.
unfoldable pub loop : Locals → Readings → Node → Option Node
unfolding receive_password send_readings
loop locals r n =
    if ltb n.send_next_at (millis n.device)
    then and_then (receive_password locals n) (send_readings r)
    else some n

abbrev pub modem_on_off_pin : ℕ
modem_on_off_pin = 23

-- `setup()`: false is the restart. The pins and the serial ports are set up outside of the model.
unfoldable pub setup : OnOff → Stray → List ℕ → M Bool
setup switch stray eeprom = do
  delay 1000
  set_att_device (cstr (read_pw eeprom)) apn
  Commands.init switch modem_on_off_pin
  connect stray server port
