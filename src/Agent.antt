-- ===== src/Agent.antt =====
-- The agent's reading of a datagram: DataPacket.java takes the lines off it, and
-- CumulocityHandler.java the values out of the packet. Texts are their bytes.
pub mod Text
pub mod Base64
pub mod Messages
pub mod Handler
pub mod Routes
pub mod Queues
pub mod Datagram
pub mod Arrival
pub mod Service
pub mod Steps
pub mod Reports
pub mod Calls
pub mod Safety
pub mod Orderly
pub mod Progress
pub mod Drain
use sag_c8y_nb_iot_demo.Base.{
  ℕ, suc, ◌+◌, ◌-◌, ◌*◌, ◌^◌, Bool, true, false, not, ◌&&◌, ◌||◌, Option, none, some, List, [], ◌∷◌,
  ◌++◌, length, leb, ◌==◌, if◌then◌else◌, get_or,
}

-- The fields of the class; `none` is null. The port is an int by its pattern of 32 bits.
pub record DataPacket : Type 0 where
  pub ip_address : List ℕ
  pub port : ℕ
  pub device_id : List ℕ
  pub password : List ℕ
  pub cumulocity_id : List ℕ
  pub payload : Option (List ℕ)
  pub creationdate_timestamp : Option (List ℕ)

abbrev pub new_packet : List ℕ → ℕ → Option (List ℕ) → DataPacket
new_packet ip_address port timestamp = record {
  ip_address = ip_address;
  port = port;
  device_id = [];
  password = [];
  cumulocity_id = [];
  payload = none;
  creationdate_timestamp = timestamp;
}

-- The bytes before the first newline and those behind it; `none` is the index -1.
abbrev pub found : ℕ → Option (List ℕ × List ℕ) → Option (List ℕ × List ℕ)
found c none = none
found c (some (line, rest)) = some (c ∷ line, rest)

unfoldable pub next_line : List ℕ → Option (List ℕ × List ℕ)
next_line [] = none
next_line (c ∷ data') = elim (c == 10) [
  | true ↦ some ([], data')
  | false ↦ found c (next_line data')
]

-- `nextNewLine` reads `data[0]` before its test: an empty array throws, here `none`.
unfoldable pub next_new_line : List ℕ → Option (Option (List ℕ × List ℕ))
unfolding next_line
next_new_line [] = none
next_new_line (c ∷ data') = some (next_line (c ∷ data'))

-- One step of `extractData`: a thrown exception, an early return, or the next line.
abbrev pub with_line :
    Option (Option (List ℕ × List ℕ))
    → DataPacket
    → (List ℕ × List ℕ → Option DataPacket)
    → Option DataPacket
with_line none p f = none
with_line (some none) p f = some p
with_line (some (some r)) p f = f r

unfoldable pub take_cumulocity_id : DataPacket → List ℕ → Option DataPacket
take_cumulocity_id p data' =
    with_line (next_new_line data') p
      (λ r. some (record p { cumulocity_id = r.0; payload = some r.1 }))

unfoldable pub take_password : DataPacket → List ℕ → Option DataPacket
take_password p data' =
    with_line (next_new_line data') p (λ r. take_cumulocity_id (record p { password = r.0 }) r.1)

-- `extractData`; `none` is the exception.
unfoldable pub extract_data : DataPacket → List ℕ → Option DataPacket
extract_data p data' =
    with_line (next_new_line data') p (λ r. take_password (record p { device_id = r.0 }) r.1)

-- The constructor for what a device sent; `now` is the text of the current time.
unfoldable pub new_data_packet : List ℕ → ℕ → List ℕ → List ℕ → Option DataPacket
unfolding extract_data
new_data_packet ip_address port now data' =
    extract_data (new_packet ip_address port (some now)) data'

abbrev pub is_empty : List ℕ → Bool
is_empty [] = true
is_empty (c ∷ s) = false

unfoldable pub is_register_message : DataPacket → Bool
is_register_message p = is_empty p.password || is_empty p.cumulocity_id

abbrev has_length : ℕ → Option (List ℕ) → Bool
has_length n none = false
has_length n (some s) = length s == n

-- Where both texts are there, the payload is not null.
unfoldable pub is_measurement_message : DataPacket → Bool
is_measurement_message p =
    not (is_empty p.password) && (not (is_empty p.cumulocity_id) && has_length 14 p.payload)

-- A Java byte as an int, by its pattern of 32 bits; `%02X` has no sign.
abbrev pub signed_byte : ℕ → ℕ
signed_byte b = if leb 128 b then b + (2 ^ 32 - 256) else b

-- The values of `createMeasurement`; the temperature is the number before `* 0.01f - 273.15f`.
pub record Measurement : Type 0 where
  pub light : ℕ
  pub loudness : ℕ
  pub motion : ℕ
  pub temperature : ℕ
  pub humidity : ℕ
  pub pressure : ℕ
  pub battery : ℕ
  pub air_quality : ℕ

unfoldable pub create_measurement : List ℕ → Measurement
create_measurement payload =
    let byte = get_or payload in
    record {
      light = byte 0 0 * 256 + byte 1 0;
      loudness = byte 2 0 * 256 + byte 3 0;
      motion = signed_byte (byte 4 0);
      temperature = byte 5 0 * 256 + byte 6 0;
      humidity = signed_byte (byte 7 0);
      pressure = (byte 8 0 * 256 + byte 9 0) * 256 + byte 10 0;
      battery = byte 11 0 * 256 + byte 12 0;
      air_quality = signed_byte (byte 13 0);
    }
