-- ===== src/Tests.antt =====
-- Concrete devices, payloads and readings, at which the theorems are applied.
pub mod Lines
pub mod Sending
pub mod Builders
pub mod Sketch
pub mod Rounds
pub mod Guard
pub mod Life
pub mod Service
pub mod System
pub mod Network
pub mod Drain
pub mod Config
pub mod Pieces
use sag_c8y_nb_iot_demo.Base.{ℕ, Bool, true, false, Option, none, some, List, [], ◌∷◌, ◌++◌, codes}
use sag_c8y_nb_iot_demo.Device.{Device, Poll}
use sag_c8y_nb_iot_demo.Modem.Connect.{Stray}
use sag_c8y_nb_iot_demo.Modem.Parsers.{Packet}
use sag_c8y_nb_iot_demo.Node.{Node, Readings}
use sag_c8y_nb_iot_demo.OnOff.{OnOff, Pins}

-- What the modem sends, a byte each millisecond.
abbrev pub polls : List ℕ → List Poll
polls [] = []
polls (c ∷ s) = record { byte = some c; took = 1 } ∷ polls s

abbrev pub low_pins : Pins
low_pins p = false

abbrev pub imei : List ℕ
imei = codes "357518080012345"

-- The password and the Cumulocity id of a registered device.
abbrev pub token : List ℕ
token = codes "s3cret\n10217"

-- Shortly before `millis` wraps around.
abbrev pub board : Device
board = record {
  clock = 4294967000;
  input = polls (codes "OK\r\n");
  output = [];
  pins = low_pins;
  below = 0;
  buffer_ready = true;
  disable_diag = false;
  append_command = false;
  start_on = 0;
  onoff = none;
  last_rssi = 0;
  csq_time = 0;
  min_rssi = 65423;
  received_socket = 0;
  pending_bytes = 0;
  is_sara_r4 = false;
  udp = codes "3.120.251.198";
  port = codes "8888";
  device_id = imei;
  device_token = token;
  apn = codes "iot.orange.be";
}

abbrev pub new_board : Device
new_board = record board { device_token = [] }

abbrev pub stray : Stray
stray = record { operator = none; marks = false ∷ true ∷ false ∷ []; socket = 7 }

abbrev pub downlink : Packet
downlink = record {
  socket_id = 0;
  ip = codes "3.120.251.198";
  port = 8888;
  length = 12;
  remaining_length = 0;
}

abbrev pub unfilled : Packet
unfilled = record { socket_id = 9; ip = codes "x"; port = 1; length = 2; remaining_length = 3 }

abbrev pub readings : Readings
readings = record {
  light = 513;
  loudness = 98;
  motion = 1;
  temperature = 29465;
  humidity = 47;
  pressure = 101325;
  battery = 4050;
  air_quality = 3;
}

abbrev pub cells : List ℕ → List ℕ
cells s = s ++ (s ++ (s ++ (s ++ s)))

abbrev pub eeprom : List ℕ
eeprom = cells (255 ∷ 1 ∷ 2 ∷ 3 ∷ 255 ∷ 0 ∷ 9 ∷ [])

abbrev pub sketch : Node
sketch = record { device = board; eeprom = eeprom; send_next_at = 0 }

-- Where the agent sees a board, and the time there.
abbrev pub gateway : List ℕ
gateway = codes "10.20.30.40"

abbrev pub noon : List ℕ
noon = codes "2019-03-01T12:00:00.000+01:00"
