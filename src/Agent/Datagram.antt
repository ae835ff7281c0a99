-- ===== src/Agent/Datagram.antt =====
-- From the board to the agent: what the sketch sends, the agent reads.
use sag_c8y_nb_iot_demo.Base.{
  ℕ, ◌+◌, ◌*◌, ◌/◌, ◌%◌, ◌^◌, ◌<◌, ◌≡◌, ◌⊎◌, inl, inr, refl, ap, ◌∙◌, true, false, Option, none,
  some, List, [], ◌∷◌, ◌++◌, append_assoc, ◌==◌, arith,
}
use sag_c8y_nb_iot_demo.Agent.{
  DataPacket, new_packet, found, next_line, next_new_line, with_line, take_cumulocity_id,
  take_password, extract_data, new_data_packet, is_register_message, is_measurement_message,
  Measurement, signed_byte, create_measurement,
}
use sag_c8y_nb_iot_demo.Agent.Text.{IsLineText}
use sag_c8y_nb_iot_demo.Device.{Device}
use sag_c8y_nb_iot_demo.Modem.Send.{credentials}
use sag_c8y_nb_iot_demo.Modem.Send.Wire.{datagram}
use sag_c8y_nb_iot_demo.Node
use sag_c8y_nb_iot_demo.Node.{Readings, packet}

next_line-append : (s rest : List ℕ) → IsLineText s → next_line (s ++ (10 ∷ rest)) ≡ some (s, rest)
unfolding next_line
next_line-append [] rest h = refl
next_line-append (c ∷ s) rest (hc, hs) =
    let e : (c == 10) ≡ false = ground arith in
    rw (next_line, e) (ap (found c) (next_line-append s rest hs))

next_new_line-append :
    (s rest : List ℕ) → IsLineText s → next_new_line (s ++ (10 ∷ rest)) ≡ some (some (s, rest))
unfolding next_new_line
next_new_line-append [] rest h = ap some (next_line-append [] rest h)
next_new_line-append (c ∷ s) rest h = ap some (next_line-append (c ∷ s) rest h)

-- Three lines and the rest are the three fields and the payload, whatever bytes the payload has.
pub extract_data-lines :
    (p : DataPacket) (device_id password cumulocity_id payload : List ℕ)
    → IsLineText device_id
    → IsLineText password
    → IsLineText cumulocity_id
    → extract_data p (device_id ++ (10 ∷ password ++ (10 ∷ cumulocity_id ++ (10 ∷ payload))))
      ≡ some (record p {
        device_id = device_id;
        password = password;
        cumulocity_id = cumulocity_id;
        payload = some payload;
      })
unfolding extract_data take_password take_cumulocity_id
extract_data-lines p device_id password cumulocity_id payload hd hp hc = rw (
  next_new_line-append device_id (password ++ (10 ∷ cumulocity_id ++ (10 ∷ payload))) hd,
  next_new_line-append password (cumulocity_id ++ (10 ∷ payload)) hp,
  next_new_line-append cumulocity_id payload hc,
)

-- A registered device, whose token is the password and the Cumulocity id on two lines: of the
-- datagram that the board sends, the agent finds the id, the password, the Cumulocity id and the
-- packet, byte by byte.
pub extract_data-datagram :
    (p : DataPacket) (d : Device) (password cumulocity_id packet' : List ℕ)
    → d.device_token ≡ password ++ (10 ∷ cumulocity_id)
    → IsLineText d.device_id
    → IsLineText password
    → IsLineText cumulocity_id
    → extract_data p (datagram d packet')
      ≡ some (record p {
        device_id = d.device_id;
        password = password;
        cumulocity_id = cumulocity_id;
        payload = some packet';
      })
unfolding credentials
extract_data-datagram p d password cumulocity_id packet' token hd hp hc =
    ap (extract_data p) layout
    ∙ extract_data-lines p d.device_id password cumulocity_id packet' hd hp hc
  where
    layout :
        datagram d packet'
        ≡ d.device_id ++ (10 ∷ password ++ (10 ∷ cumulocity_id ++ (10 ∷ packet')))
    layout = rw (
      token,
      append_assoc d.device_id (10 ∷ (password ++ (10 ∷ cumulocity_id)) ++ (10 ∷ [])) packet',
      append_assoc password (10 ∷ cumulocity_id) (10 ∷ []),
      append_assoc password (10 ∷ cumulocity_id ++ (10 ∷ [])) packet',
      append_assoc cumulocity_id (10 ∷ []) packet',
    )

-- The ranges that the packet has bytes for.
pub record Fits (r : Readings) : Type 0 where
  pub light : r.light < 2 ^ 16
  pub loudness : r.loudness < 2 ^ 16
  pub motion : r.motion < 128
  pub temperature : r.temperature < 2 ^ 16
  pub humidity : r.humidity < 128
  pub pressure : r.pressure < 2 ^ 24
  pub battery : r.battery < 2 ^ 16
  pub air_quality : r.air_quality < 128

abbrev pub measurement_of : Readings → Measurement
measurement_of r = record {
  light = r.light;
  loudness = r.loudness;
  motion = r.motion;
  temperature = r.temperature;
  humidity = r.humidity;
  pressure = r.pressure;
  battery = r.battery;
  air_quality = r.air_quality;
}

-- What the agent makes of the packet of some readings that fit are those readings.
pub create_measurement-packet :
    (r : Readings) → Fits r → create_measurement (packet r) ≡ measurement_of r
unfolding create_measurement packet
create_measurement-packet r h = λ i. record {
  light = two_bytes r.light h.light i;
  loudness = two_bytes r.loudness h.loudness i;
  motion = one_byte r.motion h.motion i;
  temperature = two_bytes r.temperature h.temperature i;
  humidity = one_byte r.humidity h.humidity i;
  pressure = three_bytes r.pressure h.pressure i;
  battery = two_bytes r.battery h.battery i;
  air_quality = one_byte r.air_quality h.air_quality i;
}
  where
    two_bytes : (w : ℕ) → w < 2 ^ 16 → w / 2 ^ 8 % 256 * 256 + w % 256 ≡ w
    two_bytes w k = omega arith

    three_bytes :
        (w : ℕ) → w < 2 ^ 24 → (w / 2 ^ 16 % 256 * 256 + w / 2 ^ 8 % 256) * 256 + w % 256 ≡ w
    three_bytes w k = omega arith

    one_byte : (w : ℕ) → w < 128 → signed_byte (w % 256) ≡ w
    one_byte w k = ground arith

-- The agent's finding for a datagram without a password: its origin, the device's id, and a
-- registration.
pub record Registers (ip_address : List ℕ) (port : ℕ) (device_id : List ℕ) (p : Option DataPacket)
    : Type 0 where
  pub packet : DataPacket
  pub extracted : p ≡ some packet
  pub same_address : packet.ip_address ≡ ip_address
  pub same_port : packet.port ≡ port
  pub same_id : packet.device_id ≡ device_id
  pub register : is_register_message packet ≡ true
  pub no_measurement : is_measurement_message packet ≡ false

-- What the agent finds for a measurement: it is one, and its values are the readings.
pub record Measures (r : Readings) (p : Option DataPacket) : Type 0 where
  pub packet : DataPacket
  pub extracted : p ≡ some packet
  pub measurement : is_measurement_message packet ≡ true
  pub no_register : is_register_message packet ≡ false
  pub payload : List ℕ
  pub carried : packet.payload ≡ some payload
  pub values : create_measurement payload ≡ measurement_of r

-- What the constructor makes of a datagram, whoever sent it and whenever.
module _ (ip_address : List ℕ) (port : ℕ) (now : List ℕ) where
  abbrev start : List ℕ → DataPacket
  start device_id = record (new_packet ip_address port (some now)) { device_id = device_id }

  -- Behind two lines, the second of them empty, whatever the rest gives.
  two_lines-Registers :
      (device_id : List ℕ) (o : Option (List ℕ × List ℕ))
      → Registers ip_address port device_id (
          with_line
            (some o)
            (start device_id)
            (λ r. some (record (start device_id) { cumulocity_id = r.0; payload = some r.1 })))
  unfolding is_register_message is_measurement_message
  two_lines-Registers device_id none = record {
    packet = start device_id;
    extracted = refl;
    same_address = refl;
    same_port = refl;
    same_id = refl;
    register = refl;
    no_measurement = refl;
  }
  two_lines-Registers device_id (some (line, rest)) = record {
    packet = record (start device_id) { cumulocity_id = line; payload = some rest };
    extracted = refl;
    same_address = refl;
    same_port = refl;
    same_id = refl;
    register = refl;
    no_measurement = refl;
  }

  -- A device that has no token yet, or one that is a newline: of what it sends, with any packet that
  -- is not empty, the agent finds the device's id, which has no newline, and takes it for a
  -- registration and not for a measurement.
  pub new_data_packet-Registers :
      (d : Device) (c : ℕ) (packet' : List ℕ)
      → (d.device_token ≡ []) ⊎ (d.device_token ≡ 10 ∷ [])
      → IsLineText d.device_id
      → Registers ip_address port d.device_id
          (new_data_packet ip_address port now (datagram d (c ∷ packet')))
  unfolding credentials new_data_packet extract_data take_password take_cumulocity_id next_new_line
      next_line
  new_data_packet-Registers d c packet' (inl token) hd =
      rw
        (
          token,
          append_assoc d.device_id (10 ∷ 10 ∷ []) (c ∷ packet'),
          next_new_line-append d.device_id (10 ∷ c ∷ packet') hd,
        )
        (two_lines-Registers d.device_id (next_line (c ∷ packet')))
  new_data_packet-Registers d c packet' (inr token) hd =
      rw
        (
          token,
          append_assoc d.device_id (10 ∷ 10 ∷ 10 ∷ []) (c ∷ packet'),
          next_new_line-append d.device_id (10 ∷ 10 ∷ c ∷ packet') hd,
        )
        (two_lines-Registers d.device_id (some ([], c ∷ packet')))

  -- From the readings to the agent: the datagram that a registered device, with a password and a
  -- Cumulocity id that are not empty, makes of readings that fit is taken for a measurement and not
  -- for a registration, and its values are the readings. None of the id, the password and the
  -- Cumulocity id has a newline.
  pub new_data_packet-Measures :
      (d : Device) (c e : ℕ) (password cumulocity_id : List ℕ) (r : Readings)
      → d.device_token ≡ (c ∷ password) ++ (10 ∷ e ∷ cumulocity_id)
      → IsLineText d.device_id
      → IsLineText (c ∷ password)
      → IsLineText (e ∷ cumulocity_id)
      → Fits r
      → Measures r (new_data_packet ip_address port now (datagram d (packet r)))
  unfolding is_register_message is_measurement_message new_data_packet
  new_data_packet-Measures d c e password cumulocity_id r token hd hp hc h = record {
    packet = record (start d.device_id) {
      password = c ∷ password;
      cumulocity_id = e ∷ cumulocity_id;
      payload = some (Node.packet r);
    };
    extracted =
        extract_data-datagram (new_packet ip_address port (some now)) d (c ∷ password)
          (e ∷ cumulocity_id) (Node.packet r) token hd hp hc;
    measurement = unfold Node.packet in refl;
    no_register = refl;
    payload = Node.packet r;
    carried = refl;
    values = create_measurement-packet r h;
  }
