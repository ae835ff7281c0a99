-- ===== src/Agent/Arrival.antt =====
-- The arrival of a datagram: the message that it becomes, and the queue that the message goes to.
use sag_c8y_nb_iot_demo.Base.{
  ℕ, ◌≡◌, refl, ap, ◌∙◌, true, false, none, some, List, [], ◌∷◌, ◌++◌, length, codes,
}
use sag_c8y_nb_iot_demo.Base.Loop.{and_then}
use sag_c8y_nb_iot_demo.Agent.{
  DataPacket, new_packet, new_data_packet, is_empty, is_measurement_message,
}
use sag_c8y_nb_iot_demo.Agent.Datagram.{
  Registers, extract_data-datagram, Fits, measurement_of, create_measurement-packet,
}
use sag_c8y_nb_iot_demo.Agent.Handler.{Platform, Representation, represent}
use sag_c8y_nb_iot_demo.Agent.Messages.{
  is_valid, get_register_message, push_message, get_push_measurement_message,
}
use sag_c8y_nb_iot_demo.Agent.Routes.{Agent, enqueue, route_packet, or_else, receive}
use sag_c8y_nb_iot_demo.Agent.Text.{IsLineText, Filled}
use sag_c8y_nb_iot_demo.Device.{Device}
use sag_c8y_nb_iot_demo.Modem.Send.Wire.{datagram}
use sag_c8y_nb_iot_demo.Node.{Readings, packet}

-- What is posted to Cumulocity for some readings.
abbrev pub report : List ℕ → List ℕ → Readings → Representation
report now cumulocity_id r = record {
  time = now;
  source_id = cumulocity_id;
  kind = codes "Sodaq";
  values = measurement_of r;
}

pub represent-report :
    (now cumulocity_id : List ℕ) (r : Readings)
    → Fits r
    → represent cumulocity_id now (packet r) ≡ report now cumulocity_id r
unfolding represent
represent-report now cumulocity_id r fits =
    ap (λ v. record (report now cumulocity_id r) { values = v }) (create_measurement-packet r fits)

pub length-packet : (r : Readings) → length (packet r) ≡ 14
unfolding packet
length-packet r = refl

pub is_empty-append : (s : List ℕ) (c : ℕ) (t : List ℕ) → is_empty (s ++ (c ∷ t)) ≡ false
is_empty-append [] c t = refl
is_empty-append (x ∷ s) c t = refl

-- What the agent finds in a datagram of a board without a password, as far as its message says it.
abbrev pub registering : List ℕ → ℕ → List ℕ → DataPacket
registering ip port device_id = record (new_packet ip port none) { device_id = device_id }

-- What it finds in one of a board with a password.
abbrev pub measuring : List ℕ → ℕ → List ℕ → List ℕ → List ℕ → List ℕ → Readings → DataPacket
measuring ip port now device_id password cumulocity_id r = record (new_packet ip port (some now)) {
  device_id = device_id;
  password = password;
  cumulocity_id = cumulocity_id;
  payload = some (packet r);
}

module _ (platform : Platform) (ip : List ℕ) (port : ℕ) (now : List ℕ) where
  -- A registration goes to its queue.
  pub receive-Registers :
      (device_id bytes : List ℕ) (a : Agent platform)
      → Filled device_id
      → Registers ip port device_id (new_data_packet ip port now bytes)
      → receive platform ip port now bytes a ≡ record a {
        register_queue =
            enqueue a.register_queue (get_register_message (registering ip port device_id));
        has_context = true;
      }
  unfolding receive route_packet is_valid get_register_message
  receive-Registers [] bytes a h r = absurd h
  receive-Registers (x ∷ device_id) bytes a h r =
      rw (r.extracted, r.no_measurement, r.register, r.same_id, r.same_address, r.same_port)

  module _ (x y : ℕ) (password cumulocity_id : List ℕ) (r : Readings) where
    abbrev measured_packet : List ℕ → DataPacket
    measured_packet device_id = measuring ip port now device_id (x ∷ password) (y ∷ cumulocity_id) r

    routed :
        (device_id : List ℕ) (a : Agent platform)
        → Filled device_id
        → or_else platform a (route_packet platform a (measured_packet device_id)) ≡ record a {
          measurement_queue =
              enqueue a.measurement_queue (push_message (measured_packet device_id) (packet r));
        }
    unfolding route_packet is_valid is_measurement_message get_push_measurement_message packet
    routed [] a h = absurd h
    routed (z ∷ zs) a h = refl

    -- A measurement goes to its queue.
    pub receive-measurement :
        (d : Device) (a : Agent platform)
        → d.device_token ≡ (x ∷ password) ++ (10 ∷ y ∷ cumulocity_id)
        → IsLineText d.device_id
        → Filled d.device_id
        → IsLineText (x ∷ password)
        → IsLineText (y ∷ cumulocity_id)
        → receive platform ip port now (datagram d (packet r)) a ≡ record a {
          measurement_queue =
              enqueue a.measurement_queue (push_message (measured_packet d.device_id) (packet r));
          has_context = true;
        }
    unfolding receive new_data_packet
    receive-measurement d a token hl hf hp hc =
        let b : Agent platform = record a { has_context = true } in
        ap (λ o. or_else platform b (and_then o (route_packet platform b)))
          (extract_data-datagram (new_packet ip port (some now)) d (x ∷ password)
            (y ∷ cumulocity_id) (packet r) token hl hp hc)
        ∙ routed d.device_id b hf
