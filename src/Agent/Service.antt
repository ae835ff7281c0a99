-- ===== src/Agent/Service.antt =====
-- What the agent does with one datagram, from its arrival to what goes back to the device.
use sag_c8y_nb_iot_demo.Base.{
  ℕ, ◌≤◌, ◌≡◌, refl, ◌∙◌, Bool, true, false, Option, none, some, List, [], ◌∷◌, ◌++◌, leb,
  if◌then◌else◌, arith,
}
use sag_c8y_nb_iot_demo.Base.Loop.{and_then}
use sag_c8y_nb_iot_demo.Agent.{DataPacket, new_packet, new_data_packet, is_empty}
use sag_c8y_nb_iot_demo.Agent.Arrival.{
  report, represent-report, length-packet, is_empty-append, registering, measuring,
  receive-Registers, receive-measurement,
}
use sag_c8y_nb_iot_demo.Agent.Datagram.{Registers, Fits}
use sag_c8y_nb_iot_demo.Agent.Handler.{
  Platform, account, device_object, register, push, credentials_message, reset_message,
}
use sag_c8y_nb_iot_demo.Agent.Messages.{get_device_message, from_message}
use sag_c8y_nb_iot_demo.Agent.Queues.{
  Origin, register_device-get_register_message, push_measurement-push_message,
  from_message-credentials_message, from_message-reset_message,
}
use sag_c8y_nb_iot_demo.Agent.Routes.{
  Answer, Agent, handled, receive, consume_measurement, consume_registration, encode_packet,
  consume_credentials,
}
use sag_c8y_nb_iot_demo.Agent.Text.{IsLineText, Filled, int_text}
use sag_c8y_nb_iot_demo.Device.{Device}
use sag_c8y_nb_iot_demo.Modem.Send.Wire.{datagram}
use sag_c8y_nb_iot_demo.Node.{Readings, packet}
use sag_c8y_nb_iot_demo.Node.Rounds.{packet-IsByte}

abbrev pub answer : List ℕ → ℕ → List ℕ → List Answer
answer ip port bytes = record { ip_address = ip; port = port; bytes = bytes } ∷ []

module _ (platform : Platform) where
  -- One delivery from each queue, if there is one.
  abbrev deliver :
      (List ℕ → Agent platform → Option (Agent platform))
      → List (List ℕ)
      → Agent platform
      → (List (List ℕ) → Agent platform)
      → Option (Agent platform)
  deliver consume [] a left = some a
  deliver consume (m ∷ rest) a left = consume m (left rest)

  unfoldable pub serve_measurement : Agent platform → Option (Agent platform)
  serve_measurement a =
      deliver (consume_measurement platform) a.measurement_queue a
        (λ rest. record a { measurement_queue = rest })

  unfoldable pub serve_registration : Agent platform → Option (Agent platform)
  serve_registration a =
      deliver (consume_registration platform) a.register_queue a
        (λ rest. record a { register_queue = rest })

  unfoldable pub serve_credentials : Agent platform → Option (Agent platform)
  serve_credentials a =
      deliver (consume_credentials platform) a.credentials_queue a
        (λ rest. record a { credentials_queue = rest })

  -- A datagram comes in, and the three consumers are served in the order of the routes.
  unfoldable pub handle : List ℕ → ℕ → List ℕ → List ℕ → Agent platform → Option (Agent platform)
  unfolding serve_measurement serve_registration serve_credentials
  handle ip port now bytes a =
      and_then (serve_measurement (receive platform ip port now bytes a))
        (λ b. and_then (serve_registration b) serve_credentials)

  -- With empty queues.
  abbrev pub idle : platform.State → List Answer → Bool → Agent platform
  idle s sent context = record {
    measurement_queue = [];
    register_queue = [];
    credentials_queue = [];
    platform_state = s;
    sent = sent;
    has_context = context;
  }

  -- A message for a device goes out as what its packet says.
  credentials-sent :
      (message : List ℕ) (p : DataPacket) (s s' : platform.State) (sent : List Answer)
      → is_empty message ≡ false
      → from_message message ≡ some p
      → p.port ≤ 65535
      → serve_credentials (handled platform (idle s sent true) (message, s'))
        ≡ some (idle s' (sent ++ answer p.ip_address p.port (get_device_message p)) true)
  unfolding serve_credentials consume_credentials encode_packet
  credentials-sent message p s s' sent some_text read small =
      let e : leb p.port 65535 ≡ true = ground arith in rw (some_text, read, e)

  module _ (ip : List ℕ) (port : ℕ) (now : List ℕ) (line : IsLineText ip)
      (small : port ≤ 65535) where
    origin : Origin ip port
    origin = record { ip_line = line; port_small = omega arith }

    -- The datagram of a device without a password: what Cumulocity says to its id decides.
    handle-Registers :
        (device_id bytes : List ℕ) (s : platform.State) (sent : List Answer) (c : Bool)
        → IsLineText device_id
        → Filled device_id
        → Registers ip port device_id (new_data_packet ip port now bytes)
        → handle ip port now bytes (idle s sent c)
          ≡ serve_credentials
              (handled platform (idle s sent true) (register platform ip port device_id s))
    unfolding handle serve_measurement serve_registration consume_registration
    handle-Registers device_id bytes s sent c hl hf r = rw (
      receive-Registers platform ip port now device_id bytes (idle s sent c) hf r,
      register_device-get_register_message platform s (registering ip port device_id) origin hl hf,
    )

    -- Behind a registration that Cumulocity has not accepted nothing goes out.
    pub handle-unaccepted :
        (device_id bytes : List ℕ) (s s' : platform.State) (sent : List Answer) (c : Bool)
        → IsLineText device_id
        → Filled device_id
        → Registers ip port device_id (new_data_packet ip port now bytes)
        → platform.poll_credentials device_id s ≡ (none, s')
        → handle ip port now bytes (idle s sent c) ≡ some (idle s' sent true)
    unfolding register serve_credentials
    handle-unaccepted device_id bytes s s' sent c hl hf r polled =
        handle-Registers device_id bytes s sent c hl hf r ∙ rw polled

    -- Behind one that it has accepted, and whose object it created, the password and the object's id
    -- go out.
    pub handle-accepted :
        (device_id bytes password cumulocity_id : List ℕ) (s s' s'' : platform.State)
        (sent : List Answer) (c : Bool)
        → IsLineText device_id
        → Filled device_id
        → Registers ip port device_id (new_data_packet ip port now bytes)
        → platform.poll_credentials device_id s ≡ (some password, s')
        → platform.create_object (account device_id password) (device_object device_id) s'
          ≡ (some cumulocity_id, s'')
        → IsLineText password
        → IsLineText cumulocity_id
        → Filled cumulocity_id
        → handle ip port now bytes (idle s sent c)
          ≡ some (idle s'' (sent ++ answer ip port (password ++ (10 ∷ cumulocity_id))) true)
    unfolding register get_device_message
    handle-accepted device_id bytes password cumulocity_id s s' s'' sent c hl hf r polled created hp
          hc filled =
        handle-Registers device_id bytes s sent c hl hf r
        ∙ rw (polled, created)
            (credentials-sent (credentials_message ip port password cumulocity_id)
              (record (new_packet ip port none) {
                password = password;
                cumulocity_id = cumulocity_id;
              })
              s s'' sent
              (is_empty-append ip 10 (int_text port ++ (10 ∷ password ++ (10 ∷ cumulocity_id))))
              (from_message-credentials_message ip password cumulocity_id port origin hp hc filled)
              small)

    module _ (d : Device) (x y : ℕ) (password' cumulocity_id' : List ℕ) (r : Readings)
        (token : d.device_token ≡ (x ∷ password') ++ (10 ∷ y ∷ cumulocity_id'))
        (hl : IsLineText d.device_id) (hf : Filled d.device_id) (hp : IsLineText (x ∷ password'))
        (hc : IsLineText (y ∷ cumulocity_id')) (stamp : IsLineText now) (fits : Fits r) where
      handle-pushed :
          (s : platform.State) (sent : List Answer) (c : Bool)
          → handle ip port now (datagram d (packet r)) (idle s sent c)
            ≡ serve_credentials (
                handled platform (idle s sent true) (
                  push platform ip port
                    (account d.device_id (x ∷ password'))
                    (report now (y ∷ cumulocity_id') r)
                    s))
      unfolding handle serve_measurement serve_registration consume_measurement
      handle-pushed s sent c = rw (
        receive-measurement platform ip port now x y password' cumulocity_id' r d (idle s sent c)
            token hl hf hp hc,
        push_measurement-push_message platform s
            (measuring ip port now d.device_id (x ∷ password') (y ∷ cumulocity_id') r) (packet r)
            now refl origin hl hp hc stamp (packet-IsByte r) (length-packet r),
        represent-report now (y ∷ cumulocity_id') r fits,
      )

      -- The datagram of a registered device is posted as its readings, under its name and its
      -- password; if Cumulocity refuses them, the device is sent a newline.
      pub handle-measurement :
          (s s' : platform.State) (sent : List Answer) (c accepted : Bool)
          → platform.post_measurement
              (account d.device_id (x ∷ password'))
              (report now (y ∷ cumulocity_id') r)
              s
            ≡ (accepted, s')
          → handle ip port now (datagram d (packet r)) (idle s sent c)
            ≡ some (idle s' (if accepted then sent else sent ++ answer ip port (10 ∷ [])) true)
      unfolding push serve_credentials get_device_message
      handle-measurement s s' sent c true posted = handle-pushed s sent c ∙ rw posted
      handle-measurement s s' sent c false posted =
          handle-pushed s sent c
          ∙ rw posted (
              credentials-sent (reset_message ip port) (new_packet ip port none) s s' sent
                (is_empty-append ip 10 (int_text port ++ (10 ∷ 10 ∷ [])))
                (from_message-reset_message ip port origin) small)
