-- ===== src/Agent/Orderly.antt =====
-- The queues of the agent in order: every message in them is one that its consumer can handle.
use sag_c8y_nb_iot_demo.Base.{
  All-append, ℕ, ◌≤◌, ◌≡◌, ◌⊎◌, inl, inr, refl, All, Option, none, some, Bool, true, false, List,
  [], ◌∷◌, ◌++◌, leb, ◌&&◌, if◌then◌else◌, arith,
}
use sag_c8y_nb_iot_demo.Base.Loop.{Returns}
use sag_c8y_nb_iot_demo.Agent.{DataPacket, new_packet, is_empty}
use sag_c8y_nb_iot_demo.Agent.Handler.{
  Platform, Account, Representation, account, device_object, register, push, posted, with_password,
  with_object,
}
use sag_c8y_nb_iot_demo.Agent.Messages.{get_register_message, get_device_message, from_message}
use sag_c8y_nb_iot_demo.Agent.Queues.{
  register_device-get_register_message, from_message-credentials_message,
  from_message-reset_message,
}
use sag_c8y_nb_iot_demo.Agent.Routes.{
  Agent, enqueue, consume_measurement, consume_registration, encode_packet, consume_credentials,
}
use sag_c8y_nb_iot_demo.Agent.Arrival.{is_empty-append, report}
use sag_c8y_nb_iot_demo.Agent.Text.{IsLineText, Filled, int_text}
use sag_c8y_nb_iot_demo.Node.{Readings}
use sag_c8y_nb_iot_demo.Agent.Reports.{IsReport, push_measurement-IsReport}

-- A message of the register queue, for a device at its address.
pub record IsRegistration (Named : List ℕ → ℕ → List ℕ → Type 0) (m : List ℕ) : Type 0 where
  pub p : DataPacket
  pub shape : m ≡ get_register_message p
  pub ip_line : IsLineText p.ip_address
  pub port_valid : p.port ≤ 65535
  pub id_line : IsLineText p.device_id
  pub id_filled : Filled p.device_id
  pub named : Named p.ip_address p.port p.device_id

-- A message of the credentials queue, with bytes that are good for the device at the address.
pub record IsCredentials (Good : List ℕ → ℕ → List ℕ → Type 0) (m : List ℕ) : Type 0 where
  pub p : DataPacket
  pub read : from_message m ≡ some p
  pub port_valid : p.port ≤ 65535
  pub good : Good p.ip_address p.port (get_device_message p)

module _ (platform : Platform) (Sent : List ℕ → List ℕ → Readings → Type 0)
    (Named Good : List ℕ → ℕ → List ℕ → Type 0) where
  -- What is asked of Cumulocity: the passwords and the ids that it gives are texts of one line, and
  -- they are good at the address of the device, as the newline of a reset is at any.
  pub record Sound : Type 0 where
    pub reset : (ip : List ℕ) (port : ℕ) → Good ip port (10 ∷ [])
    pub granted :
        (ip : List ℕ) (port : ℕ) (device_id password cumulocity_id : List ℕ)
        (s s' s'' : platform.State)
        → Named ip port device_id
        → platform.poll_credentials device_id s ≡ (some password, s')
        → platform.create_object (account device_id password) (device_object device_id) s'
          ≡ (some cumulocity_id, s'')
        → IsLineText password
          × IsLineText cumulocity_id
          × Filled cumulocity_id
          × Good ip port (password ++ (10 ∷ cumulocity_id))

  -- A message in a queue while the context is there.
  abbrev pub Queued : Bool → (List ℕ → Type 0) → List ℕ → Type 0
  Queued context P m = P m × (context ≡ true)

  pub record Orderly (a : Agent platform) : Type 0 where
    pub measurements : All (Queued a.has_context (IsReport platform Sent)) a.measurement_queue
    pub registrations : All (Queued a.has_context (IsRegistration Named)) a.register_queue
    pub credentials : All (Queued a.has_context (IsCredentials Good)) a.credentials_queue
    pub answers : All (λ x. Good x.ip_address x.port x.bytes) a.sent

  -- What a handler returns: nothing, or a message for the credentials queue.
  abbrev Settled : List ℕ → Type 0
  Settled m = (is_empty m ≡ true) ⊎ ((is_empty m ≡ false) × IsCredentials Good m)

  handled-credentials :
      (c : Bool) (queue : List (List ℕ)) (m : List ℕ)
      → c ≡ true
      → All (Queued c (IsCredentials Good)) queue
      → Settled m
      → All (Queued c (IsCredentials Good)) (if is_empty m then queue else enqueue queue m)
  handled-credentials c queue m e h (inl none_sent) = rw none_sent h
  handled-credentials c queue m e h (inr (some_sent, k)) =
      rw some_sent (All-append (Queued c (IsCredentials Good)) queue (m ∷ []) h ((k, e), tt))

  module _ (sound : Sound) where
    push-Settled :
        (ip : List ℕ) (port : ℕ) (user : Account) (m : Representation) (s : platform.State)
        → IsLineText ip
        → port ≤ 65535
        → Settled (push platform ip port user m s).0
    unfolding push get_device_message
    push-Settled ip port user m s line small = go (platform.post_measurement user m s)
      where
        go : (r : Bool × platform.State) → Settled (posted platform ip port r).0
        go (true, s') = inl refl
        go (false, s') = inr (
          is_empty-append ip 10 (int_text port ++ (10 ∷ 10 ∷ [])),
          record {
            p = new_packet ip port none;
            read =
                from_message-reset_message ip port
                  (record { ip_line = line; port_small = omega arith });
            port_valid = small;
            good = sound.reset ip port;
          },
        )

    register-Settled :
        (ip : List ℕ) (port : ℕ) (device_id : List ℕ) (s : platform.State)
        → IsLineText ip
        → port ≤ 65535
        → Named ip port device_id
        → Settled (register platform ip port device_id s).0
    unfolding register get_device_message
    register-Settled ip port device_id s line small named =
        polled (platform.poll_credentials device_id s) refl
      where
        created :
            (password : List ℕ) (s' : platform.State)
            → platform.poll_credentials device_id s ≡ (some password, s')
            → (r : Option (List ℕ) × platform.State)
            → platform.create_object (account device_id password) (device_object device_id) s' ≡ r
            → Settled (with_object platform ip port password r).0
        created password s' e (none, s'') f = inl refl
        created password s' e (some id, s'') f =
            let (pl, il, filled, good) =
              sound.granted ip port device_id password id s s' s'' named e f in
            inr (
              is_empty-append ip 10 (int_text port ++ (10 ∷ password ++ (10 ∷ id))),
              record {
                p = record (new_packet ip port none) { password = password; cumulocity_id = id };
                read =
                    from_message-credentials_message ip password id port
                      (record { ip_line = line; port_small = omega arith }) pl il filled;
                port_valid = small;
                good = good;
              },
            )

        polled :
            (r : Option (List ℕ) × platform.State)
            → platform.poll_credentials device_id s ≡ r
            → Settled (with_password platform ip port device_id r).0
        polled (none, s') e = inl refl
        polled (some password, s') e =
            created password s' e
              (platform.create_object (account device_id password) (device_object device_id) s')
              refl

    -- The consumers finish, and leave the queues in order.
    pub consume_measurement-Orderly :
        (a : Agent platform) (m : List ℕ)
        → Queued a.has_context (IsReport platform Sent) m
        → Orderly a
        → Returns Orderly (consume_measurement platform m a)
    unfolding consume_measurement
    consume_measurement-Orderly a m (hm, e) h =
        rw (push_measurement-IsReport platform Sent m a.platform_state hm) (record {
          measurements = h.measurements;
          registrations = h.registrations;
          credentials =
              handled-credentials a.has_context a.credentials_queue
                (push platform hm.p.ip_address hm.p.port (account hm.p.device_id hm.p.password)
                  (report hm.time hm.p.cumulocity_id hm.readings) a.platform_state).0
                e h.credentials
                (push-Settled hm.p.ip_address hm.p.port (account hm.p.device_id hm.p.password)
                  (report hm.time hm.p.cumulocity_id hm.readings) a.platform_state hm.origin.ip_line
                  hm.port_valid);
          answers = h.answers;
        })

    pub consume_registration-Orderly :
        (a : Agent platform) (m : List ℕ)
        → Queued a.has_context (IsRegistration Named) m
        → Orderly a
        → Returns Orderly (consume_registration platform m a)
    unfolding consume_registration
    consume_registration-Orderly a m (hm, e) h =
        rw
          (
            hm.shape,
            register_device-get_register_message platform a.platform_state hm.p
                (record { ip_line = hm.ip_line; port_small = omega (arith, hm.port_valid) })
                hm.id_line hm.id_filled,
          )
          (record {
            measurements = h.measurements;
            registrations = h.registrations;
            credentials =
                handled-credentials a.has_context a.credentials_queue
                  (register platform hm.p.ip_address hm.p.port hm.p.device_id a.platform_state).0 e
                  h.credentials
                  (register-Settled hm.p.ip_address hm.p.port hm.p.device_id a.platform_state
                    hm.ip_line hm.port_valid hm.named);
            answers = h.answers;
          })

    pub consume_credentials-Orderly :
        (a : Agent platform) (m : List ℕ)
        → Queued a.has_context (IsCredentials Good) m
        → Orderly a
        → Returns Orderly (consume_credentials platform m a)
    unfolding consume_credentials encode_packet
    consume_credentials-Orderly a m (hm, e) h =
        let valid : leb hm.p.port 65535 ≡ true = ground (arith, hm.port_valid) in
        let both : (a.has_context && leb hm.p.port 65535) ≡ true = rw (e, valid) refl in
        rw (hm.read, both)
          (record {
            measurements = h.measurements;
            registrations = h.registrations;
            credentials = h.credentials;
            answers =
                All-append (λ x. Good x.ip_address x.port x.bytes) a.sent (_ ∷ []) h.answers
                  (hm.good, tt);
          })
