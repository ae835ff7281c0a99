-- ===== src/Agent/Reports.antt =====
-- The messages of the measurement queue that say what a board sent.
use sag_c8y_nb_iot_demo.Base.{ℕ, ◌≤◌, ◌≡◌, refl, true, some, List, ◌∷◌, ◌++◌, arith}
use sag_c8y_nb_iot_demo.Agent.{DataPacket}
use sag_c8y_nb_iot_demo.Agent.Datagram.{Fits}
use sag_c8y_nb_iot_demo.Agent.Handler.{Platform, account, push, push_measurement}
use sag_c8y_nb_iot_demo.Agent.Messages.{push_message}
use sag_c8y_nb_iot_demo.Agent.Queues.{Origin, push_measurement-push_message}
use sag_c8y_nb_iot_demo.Agent.Routes.{enqueue, Agent, receive}
use sag_c8y_nb_iot_demo.Agent.Arrival.{
  report, represent-report, length-packet, measuring, receive-measurement,
}
use sag_c8y_nb_iot_demo.Agent.Text.{IsLineText, Filled}
use sag_c8y_nb_iot_demo.Device.{Device}
use sag_c8y_nb_iot_demo.Modem.Send.Wire.{datagram}
use sag_c8y_nb_iot_demo.Node.{Readings, packet}
use sag_c8y_nb_iot_demo.Node.Rounds.{packet-IsByte}

module _ (platform : Platform) (Sent : List ℕ → List ℕ → Readings → Type 0) where
  -- A message of the measurement queue that says what a board sent.
  pub record IsReport (m : List ℕ) : Type 0 where
    pub p : DataPacket
    pub readings : Readings
    pub time : List ℕ
    pub shape : m ≡ push_message p (packet readings)
    pub stamped : p.creationdate_timestamp ≡ some time
    pub origin : Origin p.ip_address p.port
    pub port_valid : p.port ≤ 65535
    pub id_line : IsLineText p.device_id
    pub password_line : IsLineText p.password
    pub cumulocity_line : IsLineText p.cumulocity_id
    pub time_line : IsLineText time
    pub fits : Fits readings
    pub sent : Sent p.device_id (p.password ++ (10 ∷ p.cumulocity_id)) readings

  -- What the consumer makes of such a message.
  pub push_measurement-IsReport :
      (m : List ℕ) (s : platform.State) (h : IsReport m)
      → push_measurement platform m s
        ≡ some (
            push platform h.p.ip_address h.p.port
              (account h.p.device_id h.p.password)
              (report h.time h.p.cumulocity_id h.readings)
              s)
  push_measurement-IsReport m s h = rw (
    h.shape,
    push_measurement-push_message platform s h.p (packet h.readings) h.time h.stamped h.origin
        h.id_line h.password_line h.cumulocity_line h.time_line (packet-IsByte h.readings)
        (length-packet h.readings),
    represent-report h.time h.p.cumulocity_id h.readings h.fits,
  )

  module _ (ip : List ℕ) (port : ℕ) (now : List ℕ) (line : IsLineText ip) (small : port ≤ 65535)
      (stamp : IsLineText now) (a : Agent platform) where
    -- A datagram of a board that has a password becomes such a message.
    pub receive-IsReport :
        (d : Device) (r : Readings) (x y : ℕ) (password cumulocity_id : List ℕ)
        → d.device_token ≡ (x ∷ password) ++ (10 ∷ y ∷ cumulocity_id)
        → IsLineText d.device_id
        → Filled d.device_id
        → IsLineText (x ∷ password)
        → IsLineText (y ∷ cumulocity_id)
        → Fits r
        → Sent d.device_id d.device_token r
        → (m : List ℕ) × IsReport m
          × (receive platform ip port now (datagram d (packet r)) a
              ≡ record a { measurement_queue = enqueue a.measurement_queue m; has_context = true })
    receive-IsReport d r x y password id token hl hf hp hc fits sent =
        let p = measuring ip port now d.device_id (x ∷ password) (y ∷ id) r in
        (
          push_message p (packet r),
          record {
            p = p;
            readings = r;
            time = now;
            shape = refl;
            stamped = refl;
            origin = record { ip_line = line; port_small = omega arith };
            port_valid = small;
            id_line = hl;
            password_line = hp;
            cumulocity_line = hc;
            time_line = stamp;
            fits = fits;
            sent = rw token at sent;
          },
          receive-measurement platform ip port now x y password id r d a token hl hf hp hc,
        )
