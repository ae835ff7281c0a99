-- ===== src/Agent/Safety.antt =====
-- The agent with its consumers at work in any order: what it ever posts to Cumulocity.
use sag_c8y_nb_iot_demo.Base.{
  All-append, All-taken, ℕ, ◌≤◌, ◌≡◌, ◌⊎◌, inl, inr, All, List, [], ◌∷◌, ◌++◌, leb, ◌&&◌,
  Bool-cases,
}
use sag_c8y_nb_iot_demo.Base.Loop.{Allows, Allows-and_then, anything, Allows-result}
use sag_c8y_nb_iot_demo.Agent.Datagram.{new_data_packet-Registers}
use sag_c8y_nb_iot_demo.Agent.Handler.{Platform, register_device, push_measurement}
use sag_c8y_nb_iot_demo.Agent.Messages.{from_message}
use sag_c8y_nb_iot_demo.Agent.Routes.{
  Agent, receive, consume_measurement, consume_registration, encode_packet, consume_credentials,
}
use sag_c8y_nb_iot_demo.Agent.Arrival.{receive-Registers}
use sag_c8y_nb_iot_demo.Agent.Text.{IsLineText, Filled}
use sag_c8y_nb_iot_demo.Device.{Device}
use sag_c8y_nb_iot_demo.Modem.Send.Wire.{datagram}
use sag_c8y_nb_iot_demo.Node.{Readings, packet}
use sag_c8y_nb_iot_demo.Agent.Steps.{
  unregistered, registered, FromBoard, Step, receives, serves, measures, registers, answers, Reach,
  here, next, Kept,
}
use sag_c8y_nb_iot_demo.Agent.Reports.{IsReport, receive-IsReport}
use sag_c8y_nb_iot_demo.Agent.Calls.{push-Kept, register_device-Kept}

module _ (platform : Platform) (Sent : List ℕ → List ℕ → Readings → Type 0) where
  module _ (I : platform.State → Type 0) (kept : Kept platform Sent I) where
    record Inv (a : Agent platform) : Type 0 where
      reports : All (IsReport platform Sent) a.measurement_queue
      state : I a.platform_state

    consume_credentials-Inv :
        (a : Agent platform) (m : List ℕ) → Inv a → Allows Inv (consume_credentials platform m a)
    unfolding consume_credentials encode_packet
    consume_credentials-Inv a m h =
        Allows-and_then (λ _. Unit) Inv (from_message m) (encode_packet platform a)
          (anything (from_message m))
          (λ p _. elim (Bool-cases (a.has_context && leb p.port 65535)) [
            | inl fine ↦ rw fine (record { reports = h.reports; state = h.state })
            | inr waits ↦ rw waits tt
          ])

    consume_measurement-Inv :
        (a : Agent platform) (m : List ℕ)
        → IsReport platform Sent m
        → Inv a
        → Allows Inv (consume_measurement platform m a)
    unfolding consume_measurement
    consume_measurement-Inv a m hm h =
        Allows-and_then (λ r. I r.1) Inv (push_measurement platform m a.platform_state) _
          (push-Kept platform Sent I kept m a.platform_state hm h.state)
          (λ r i. record { reports = h.reports; state = i })

    consume_registration-Inv :
        (a : Agent platform) (m : List ℕ) → Inv a → Allows Inv (consume_registration platform m a)
    unfolding consume_registration
    consume_registration-Inv a m h =
        Allows-and_then (λ r. I r.1) Inv (register_device platform m a.platform_state) _
          (register_device-Kept platform Sent I kept m a.platform_state h.state)
          (λ r i. record { reports = h.reports; state = i })

    module _ (ip : List ℕ) (port : ℕ) (now : List ℕ) (line : IsLineText ip) (small : port ≤ 65535)
        (stamp : IsLineText now) (a : Agent platform) (h : Inv a) where
      receive-unregistered :
          (d : Device) (r : Readings)
          → (d.device_token ≡ []) ⊎ (d.device_token ≡ 10 ∷ [])
          → IsLineText d.device_id
          → Filled d.device_id
          → Inv (receive platform ip port now (datagram d (packet r)) a)
      unfolding packet
      receive-unregistered d r token hl hf =
          rw
            (receive-Registers platform ip port now d.device_id (datagram d (packet r)) a hf
              (new_data_packet-Registers ip port now d _ _ token hl))
            (record { reports = h.reports; state = h.state })

      receive-Inv :
          (bytes : List ℕ)
          → FromBoard platform Sent bytes
          → Inv (receive platform ip port now bytes a)
      receive-Inv bytes from = elim from.token [
        | unregistered token ↦
            rw from.shape
              (receive-unregistered from.board from.readings token from.id_line from.id_filled)
        | registered x y password id token hp hc ↦
            let (m, is_report, received) =
              receive-IsReport platform Sent ip port now line small stamp a from.board from.readings
                x y password id token from.id_line from.id_filled hp hc from.fits from.sent in
            rw (from.shape, received)
              (record {
                reports =
                    All-append (IsReport platform Sent) a.measurement_queue (m ∷ []) h.reports
                      (is_report, tt);
                state = h.state;
              })
      ]

    Step-Inv : {a b : Agent platform} → Step platform Sent a b → Inv a → Inv b
    Step-Inv (receives ip port now bytes line small stamp from e) h =
        rw e at (receive-Inv ip port now line small stamp _ h bytes from)
    Step-Inv {a} {b} (serves (measures before after m taken e)) h =
        let (hm, others) =
          All-taken (IsReport platform Sent) before after m (rw taken at h.reports) in
        let left : Agent platform = record a { measurement_queue = before ++ after } in
        Allows-result Inv (consume_measurement platform m left) b
          (consume_measurement-Inv left m hm (record { reports = others; state = h.state })) e
    Step-Inv {a} {b} (serves (registers before after m taken e)) h =
        let left : Agent platform = record a { register_queue = before ++ after } in
        Allows-result Inv (consume_registration platform m left) b
          (consume_registration-Inv left m (record { reports = h.reports; state = h.state })) e
    Step-Inv {a} {b} (serves (answers before after m taken e)) h =
        let left : Agent platform = record a { credentials_queue = before ++ after } in
        Allows-result Inv (consume_credentials platform m left) b
          (consume_credentials-Inv left m (record { reports = h.reports; state = h.state })) e

    Reach-Inv : {a b : Agent platform} → Reach platform Sent a b → Inv a → Inv b
    Reach-Inv here h = h
    Reach-Inv (next r st) h = Step-Inv st (Reach-Inv r h)

    -- Whatever the boards send, and in whatever order the consumers take the messages: what Cumulocity
    -- keeps has every property that survives the SDK's calls, a post only of readings that the board
    -- in whose name it is sent, under its password and its id. So nothing else is ever posted. The
    -- run starts without measurements in the queue; the boards' readings fit their packets, their
    -- tokens are nothing, a newline, or a password and an id, and their ids and the addresses have no
    -- newline.
    pub Reach-posts :
        {a b : Agent platform}
        → Reach platform Sent a b
        → a.measurement_queue ≡ []
        → I a.platform_state
        → I b.platform_state
    Reach-posts {a} {b} r empty i =
        (Reach-Inv r (record { reports = rw empty tt; state = i })).state
