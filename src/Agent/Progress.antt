-- ===== src/Agent/Progress.antt =====
-- The agent's run with its consumers at work in any order: no consumer ever throws or waits.
use sag_c8y_nb_iot_demo.Base.{
  All-append, All-taken, ℕ, ◌≤◌, ◌≡◌, ◌⊎◌, refl, All, Option, some, Bool, true, List, [], ◌∷◌, ◌++◌,
}
use sag_c8y_nb_iot_demo.Base.Loop.{Returns}
use sag_c8y_nb_iot_demo.Agent.Datagram.{new_data_packet-Registers}
use sag_c8y_nb_iot_demo.Agent.Handler.{Platform}
use sag_c8y_nb_iot_demo.Agent.Routes.{
  Agent, receive, consume_measurement, consume_registration, consume_credentials,
}
use sag_c8y_nb_iot_demo.Agent.Arrival.{receive-Registers, registering}
use sag_c8y_nb_iot_demo.Agent.Text.{IsLineText, Filled}
use sag_c8y_nb_iot_demo.Device.{Device}
use sag_c8y_nb_iot_demo.Modem.Send.Wire.{datagram}
use sag_c8y_nb_iot_demo.Node.{Readings, packet}
use sag_c8y_nb_iot_demo.Agent.Steps.{
  unregistered, registered, FromBoard, Served, measures, registers, answers,
}
use sag_c8y_nb_iot_demo.Agent.Reports.{IsReport, receive-IsReport}
use sag_c8y_nb_iot_demo.Agent.Orderly.{
  IsRegistration, IsCredentials, Sound, Queued, Orderly, consume_measurement-Orderly,
  consume_registration-Orderly, consume_credentials-Orderly,
}

module _ (platform : Platform) (Sent : List ℕ → List ℕ → Readings → Type 0)
    (Named Good : List ℕ → ℕ → List ℕ → Type 0) where
  -- Every consumer finishes with every message of its queue.
  pub record Handles (a : Agent platform) : Type 0 where
    pub measurements :
        All
          (λ m. Returns (Orderly platform Sent Named Good) (consume_measurement platform m a))
          a.measurement_queue
    pub registrations :
        All
          (λ m. Returns (Orderly platform Sent Named Good) (consume_registration platform m a))
          a.register_queue
    pub credentials :
        All
          (λ m. Returns (Orderly platform Sent Named Good) (consume_credentials platform m a))
          a.credentials_queue

module _ (platform : Platform) (Sent : List ℕ → List ℕ → Readings → Type 0)
    (Named Good : List ℕ → ℕ → List ℕ → Type 0) (sound : Sound platform Sent Named Good) where
  abbrev Tidy : Agent platform → Type 0
  Tidy a = Orderly platform Sent Named Good a

  abbrev InQueue : Bool → (List ℕ → Type 0) → List ℕ → Type 0
  InQueue c P m = Queued platform Sent Named Good c P m

  -- With a context, all that was queued stays queued.
  with_context :
      (c : Bool) (P : List ℕ → Type 0) (queue : List (List ℕ))
      → All (InQueue c P) queue
      → All (InQueue true P) queue
  with_context c P [] h = h
  with_context c P (m ∷ queue) ((hm, e), hs) = ((hm, refl), with_context c P queue hs)

  module _ (ip : List ℕ) (port : ℕ) (now : List ℕ) (line : IsLineText ip) (small : port ≤ 65535)
      (stamp : IsLineText now) (a : Agent platform) (h : Tidy a) where
    receive-registration :
        (d : Device) (r : Readings)
        → (d.device_token ≡ []) ⊎ (d.device_token ≡ 10 ∷ [])
        → IsLineText d.device_id
        → Filled d.device_id
        → Named ip port d.device_id
        → Tidy (receive platform ip port now (datagram d (packet r)) a)
    unfolding packet
    receive-registration d r token hl hf named =
        rw
          (receive-Registers platform ip port now d.device_id (datagram d (packet r)) a hf
            (new_data_packet-Registers ip port now d _ _ token hl))
          (record {
            measurements = with_context a.has_context _ a.measurement_queue h.measurements;
            registrations =
                All-append (InQueue true (IsRegistration Named)) a.register_queue (_ ∷ [])
                  (with_context a.has_context _ a.register_queue h.registrations)
                  (
                    (
                      record {
                        p = registering ip port d.device_id;
                        shape = refl;
                        ip_line = line;
                        port_valid = small;
                        id_line = hl;
                        id_filled = hf;
                        named = named;
                      },
                      refl,
                    ),
                    tt,
                  );
            credentials = with_context a.has_context _ a.credentials_queue h.credentials;
            answers = h.answers;
          })

    pub receive-Orderly :
        (bytes : List ℕ) (from : FromBoard platform Sent bytes)
        → Named ip port from.board.device_id
        → Tidy (receive platform ip port now bytes a)
    receive-Orderly bytes from named = elim from.token [
      | unregistered token ↦
          rw from.shape
            (receive-registration from.board from.readings token from.id_line from.id_filled named)
      | registered x y password id token hp hc ↦
          let (m, is_report, received) =
            receive-IsReport platform Sent ip port now line small stamp a from.board from.readings x
              y password id token from.id_line from.id_filled hp hc from.fits from.sent in
          rw (from.shape, received)
            (record {
              measurements =
                  All-append (InQueue true (IsReport platform Sent)) a.measurement_queue (m ∷ [])
                    (with_context a.has_context _ a.measurement_queue h.measurements)
                    ((is_report, refl), tt);
              registrations = with_context a.has_context _ a.register_queue h.registrations;
              credentials = with_context a.has_context _ a.credentials_queue h.credentials;
              answers = h.answers;
            })
    ]

  -- A result of something that returns what is in order.
  Returns-result_is :
      (o : Option (Agent platform)) (b : Agent platform) → Returns Tidy o → o ≡ some b → Tidy b
  Returns-result_is o b h e = rw e at h

  pub Served-Orderly : {a b : Agent platform} → Served platform Sent a b → Tidy a → Tidy b
  Served-Orderly {a} {b} (measures before after m taken e) h =
      let P = InQueue a.has_context (IsReport platform Sent) in
      let (hm, others) = All-taken P before after m (rw taken at h.measurements) in
      Returns-result_is _ b
        (consume_measurement-Orderly platform Sent Named Good sound
          (record a { measurement_queue = before ++ after }) m hm
          (record {
            measurements = others;
            registrations = h.registrations;
            credentials = h.credentials;
            answers = h.answers;
          }))
        e
  Served-Orderly {a} {b} (registers before after m taken e) h =
      let P = InQueue a.has_context (IsRegistration Named) in
      let (hm, others) = All-taken P before after m (rw taken at h.registrations) in
      Returns-result_is _ b
        (consume_registration-Orderly platform Sent Named Good sound
          (record a { register_queue = before ++ after }) m hm
          (record {
            measurements = h.measurements;
            registrations = others;
            credentials = h.credentials;
            answers = h.answers;
          }))
        e
  Served-Orderly {a} {b} (answers before after m taken e) h =
      let P = InQueue a.has_context (IsCredentials Good) in
      let (hm, others) = All-taken P before after m (rw taken at h.credentials) in
      Returns-result_is _ b
        (consume_credentials-Orderly platform Sent Named Good sound
          (record a { credentials_queue = before ++ after }) m hm
          (record {
            measurements = h.measurements;
            registrations = h.registrations;
            credentials = others;
            answers = h.answers;
          }))
        e

  All-mono :
      (P Q : List ℕ → Type 0) (xs : List (List ℕ))
      → ((x : List ℕ) → P x → Q x)
      → All P xs
      → All Q xs
  All-mono P Q [] f h = tt
  All-mono P Q (x ∷ xs) f (hx, hs) = (f x hx, All-mono P Q xs f hs)

  pub Orderly-Handles : (a : Agent platform) → Tidy a → Handles platform Sent Named Good a
  Orderly-Handles a h = record {
    measurements =
        All-mono _ (λ m. Returns Tidy (consume_measurement platform m a)) a.measurement_queue
          (λ m hm. consume_measurement-Orderly platform Sent Named Good sound a m hm h)
          h.measurements;
    registrations =
        All-mono _ (λ m. Returns Tidy (consume_registration platform m a)) a.register_queue
          (λ m hm. consume_registration-Orderly platform Sent Named Good sound a m hm h)
          h.registrations;
    credentials =
        All-mono _ (λ m. Returns Tidy (consume_credentials platform m a)) a.credentials_queue
          (λ m hm. consume_credentials-Orderly platform Sent Named Good sound a m hm h)
          h.credentials;
  }
