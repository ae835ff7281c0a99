-- ===== src/Modem/Object.antt =====
-- The constructors of Sodaq_AT_Device and ATT_NBIOT, with the credentials of keys.h.
use sag_c8y_nb_iot_demo.Base.{ℕ, ◌-◌, ◌^◌, false, none, List, [], codes}
use sag_c8y_nb_iot_demo.Device.{Device, Poll}
use sag_c8y_nb_iot_demo.OnOff.{Pins}

-- DEVICE_TOKEN and APN
abbrev pub key_token : List ℕ
key_token = []

abbrev pub key_apn : List ℕ
key_apn = codes "iot.orange.be"

-- A static object: the fields that no constructor sets are 0. The line, the pins and the byte below
-- the buffer are the world's.
unfoldable pub new_device : List Poll → Pins → ℕ → Device
new_device input pins below = record {
  clock = 0;
  input = input;
  output = [];
  pins = pins;
  below = below;
  buffer_ready = false;
  disable_diag = false;
  append_command = false;
  start_on = 0;
  onoff = none;
  last_rssi = 0;
  csq_time = 0;
  min_rssi = 0;
  received_socket = 0;
  pending_bytes = 0;
  is_sara_r4 = false;
  udp = [];
  port = [];
  device_id = [];
  device_token = [];
  apn = [];
}

-- `ATT_NBIOT(deviceToken, apn)`: the minimal RSSI is -113.
unfoldable pub with_credentials : List ℕ → List ℕ → Device → Device
with_credentials token apn d = record d {
  last_rssi = 0;
  csq_time = 0;
  min_rssi = 2 ^ 16 - 113;
  device_token = token;
  apn = apn;
}

-- `ATT_NBIOT(deviceToken)` and `ATT_NBIOT()`
unfoldable pub with_token : List ℕ → Device → Device
unfolding with_credentials
with_token token d = with_credentials token key_apn d

unfoldable pub with_keys : Device → Device
unfolding with_credentials
with_keys d = with_credentials key_token key_apn d
