-- ===== src/Agent/Drain.antt =====
-- The agent's consumers at work until the queues are empty.
use sag_c8y_nb_iot_demo.Base.{
  ℕ, suc, ◌+◌, ◌*◌, ◌≤◌, ◌<◌, ◌≡◌, ◌⊎◌, inl, inr, refl, ap, All-taken, Option, none, some, Bool,
  List, [], ◌∷◌, ◌++◌, length, length-append, leb, ◌&&◌, Bool-cases, arith,
}
use sag_c8y_nb_iot_demo.Base.Loop.{Allows, Allows-and_then, Allows-result, Returns, anything}
use sag_c8y_nb_iot_demo.Agent.{is_empty}
use sag_c8y_nb_iot_demo.Agent.Handler.{Platform, register_device, push_measurement}
use sag_c8y_nb_iot_demo.Agent.Messages.{from_message}
use sag_c8y_nb_iot_demo.Agent.Routes.{
  Agent, handled, consume_measurement, consume_registration, encode_packet, consume_credentials,
}
use sag_c8y_nb_iot_demo.Agent.Steps.{Served, measures, registers, answers}
use sag_c8y_nb_iot_demo.Agent.Orderly.{
  IsRegistration, IsCredentials, Sound, Queued, Orderly, consume_measurement-Orderly,
  consume_registration-Orderly, consume_credentials-Orderly,
}
use sag_c8y_nb_iot_demo.Agent.Reports.{IsReport}
use sag_c8y_nb_iot_demo.Agent.Progress.{Served-Orderly}
use sag_c8y_nb_iot_demo.Node.{Readings}

-- Nothing is left to do.
pub record Idle {platform : Platform} (a : Agent platform) : Type 0 where
  pub measurements : a.measurement_queue ≡ []
  pub registrations : a.register_queue ≡ []
  pub credentials : a.credentials_queue ≡ []

-- A measurement or a registration may lead to one message for the credentials queue.
abbrev pub work : {platform : Platform} → Agent platform → ℕ
work a = 2 * length a.measurement_queue + 2 * length a.register_queue + length a.credentials_queue

length-taken :
    (before after : List (List ℕ)) (m : List ℕ)
    → length (before ++ (m ∷ after)) ≡ suc (length (before ++ after))
length-taken before after m =
    omega (arith, length-append before (m ∷ after), length-append before after)

module _ (platform : Platform) (Sent : List ℕ → List ℕ → Readings → Type 0) where
  handled-work :
      (a : Agent platform) (r : List ℕ × platform.State) → work (handled platform a r) ≤ work a + 1
  handled-work a (m, s) = elim (Bool-cases (is_empty m)) [
    | inl e ↦ rw e (omega arith)
    | inr e ↦ rw e (omega (arith, length-append a.credentials_queue (m ∷ [])))
  ]

  consume_measurement-work :
      (a : Agent platform) (m : List ℕ)
      → Allows (λ b. work b ≤ work a + 1) (consume_measurement platform m a)
  unfolding consume_measurement
  consume_measurement-work a m =
      Allows-and_then (λ _. Unit) _ (push_measurement platform m a.platform_state) _
        (anything (push_measurement platform m a.platform_state)) (λ r _. handled-work a r)

  consume_registration-work :
      (a : Agent platform) (m : List ℕ)
      → Allows (λ b. work b ≤ work a + 1) (consume_registration platform m a)
  unfolding consume_registration
  consume_registration-work a m =
      Allows-and_then (λ _. Unit) _ (register_device platform m a.platform_state) _
        (anything (register_device platform m a.platform_state)) (λ r _. handled-work a r)

  consume_credentials-work :
      (a : Agent platform) (m : List ℕ)
      → Allows (λ b. work b ≤ work a) (consume_credentials platform m a)
  unfolding consume_credentials encode_packet
  consume_credentials-work a m =
      Allows-and_then (λ _. Unit) _ (from_message m) (encode_packet platform a)
        (anything (from_message m))
        (λ p _. elim (Bool-cases (a.has_context && leb p.port 65535)) [
          | inl fine ↦ rw fine (omega arith)
          | inr waits ↦ rw waits tt
        ])

  -- A consumer that is served leaves less to do.
  Served-work : {a b : Agent platform} → Served platform Sent a b → work b < work a
  Served-work {a} {b} (measures before after m taken e) = omega (
    arith,
    Allows-result _ _ b
        (consume_measurement-work (record a { measurement_queue = before ++ after }) m) e,
    ap length taken,
    length-taken before after m,
  )
  Served-work {a} {b} (registers before after m taken e) = omega (
    arith,
    Allows-result _ _ b
        (consume_registration-work (record a { register_queue = before ++ after }) m) e,
    ap length taken,
    length-taken before after m,
  )
  Served-work {a} {b} (answers before after m taken e) = omega (
    arith,
    Allows-result _ _ b
        (consume_credentials-work (record a { credentials_queue = before ++ after }) m) e,
    ap length taken,
    length-taken before after m,
  )

  -- So many messages taken, by the consumers in any order.
  pub data Serves (a : Agent platform) : ℕ → Agent platform → Type 0 where
    none_yet : Serves a 0 a
    one_more :
        {n : ℕ} {b c : Agent platform}
        → Serves a n b
        → Served platform Sent b c
        → Serves a (suc n) c

  pub Serves-work :
      {a : Agent platform} {n : ℕ} {b : Agent platform} → Serves a n b → work b + n ≤ work a
  Serves-work none_yet = omega arith
  Serves-work (one_more h served) = omega (arith, Serves-work h, Served-work served)

  -- Some consumer can be served.
  pub record Servable (a : Agent platform) : Type 0 where
    pub next_agent : Agent platform
    pub served : Served platform Sent a next_agent

-- A queue with a message.
record Front (queue : List (List ℕ)) : Type 0 where
  message : List ℕ
  others : List (List ℕ)
  shape : queue ≡ message ∷ others

front : (queue : List (List ℕ)) → (queue ≡ []) ⊎ Front queue
front [] = inl refl
front (m ∷ queue) = inr (record { message = m; others = queue; shape = refl })

module _ (platform : Platform) (Sent : List ℕ → List ℕ → Readings → Type 0)
    (Named Good : List ℕ → ℕ → List ℕ → Type 0) (sound : Sound platform Sent Named Good) where
  abbrev Tidy : Agent platform → Type 0
  Tidy a = Orderly platform Sent Named Good a

  abbrev InQueue : Bool → (List ℕ → Type 0) → List ℕ → Type 0
  InQueue c P m = Queued platform Sent Named Good c P m

  pub Serves-Orderly :
      {a : Agent platform} {n : ℕ} {b : Agent platform}
      → Serves platform Sent a n b
      → Tidy a
      → Tidy b
  Serves-Orderly none_yet h = h
  Serves-Orderly (one_more serves served) h =
      Served-Orderly platform Sent Named Good sound served (Serves-Orderly serves h)

  -- A consumer that returns is served.
  returned :
      (a : Agent platform) (o : Option (Agent platform))
      → Returns Tidy o
      → ((b : Agent platform) → o ≡ some b → Served platform Sent a b)
      → Servable platform Sent a
  returned a none h k = absurd h
  returned a (some b) h k = record { next_agent = b; served = k b refl }

  measurement_next :
      (a : Agent platform) → Tidy a → Front a.measurement_queue → Servable platform Sent a
  measurement_next a h f =
      let (hm, others) =
        All-taken (InQueue a.has_context (IsReport platform Sent)) [] f.others f.message
          (rw f.shape at h.measurements) in
      returned a _
        (consume_measurement-Orderly platform Sent Named Good sound
          (record a { measurement_queue = f.others }) f.message hm
          (record {
            measurements = others;
            registrations = h.registrations;
            credentials = h.credentials;
            answers = h.answers;
          }))
        (λ b e. measures [] f.others f.message f.shape e)

  registration_next :
      (a : Agent platform) → Tidy a → Front a.register_queue → Servable platform Sent a
  registration_next a h f =
      let (hm, others) =
        All-taken (InQueue a.has_context (IsRegistration Named)) [] f.others f.message
          (rw f.shape at h.registrations) in
      returned a _
        (consume_registration-Orderly platform Sent Named Good sound
          (record a { register_queue = f.others }) f.message hm
          (record {
            measurements = h.measurements;
            registrations = others;
            credentials = h.credentials;
            answers = h.answers;
          }))
        (λ b e. registers [] f.others f.message f.shape e)

  credentials_next :
      (a : Agent platform) → Tidy a → Front a.credentials_queue → Servable platform Sent a
  credentials_next a h f =
      let (hm, others) =
        All-taken (InQueue a.has_context (IsCredentials Good)) [] f.others f.message
          (rw f.shape at h.credentials) in
      returned a _
        (consume_credentials-Orderly platform Sent Named Good sound
          (record a { credentials_queue = f.others }) f.message hm
          (record {
            measurements = h.measurements;
            registrations = h.registrations;
            credentials = others;
            answers = h.answers;
          }))
        (λ b e. answers [] f.others f.message f.shape e)

  -- While there is a message, a consumer can be served.
  pub Orderly-Servable : (a : Agent platform) → Tidy a → Idle a ⊎ Servable platform Sent a
  Orderly-Servable a h = elim (front a.measurement_queue) [
    | inr f ↦ inr (measurement_next a h f)
    | inl m ↦ elim (front a.register_queue) [
      | inr f ↦ inr (registration_next a h f)
      | inl r ↦ elim (front a.credentials_queue) [
        | inr f ↦ inr (credentials_next a h f)
        | inl c ↦ inl (record { measurements = m; registrations = r; credentials = c })
      ]
    ]
  ]
