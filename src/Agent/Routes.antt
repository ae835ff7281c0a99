-- ===== src/Agent/Routes.antt =====
-- AgentRouter.java, with NBiotPacketDecoder.java and NBiotPacketEncoder.java at its ends: the four
-- routes, and the queues between them.
use sag_c8y_nb_iot_demo.Base.{
  ℕ, Bool, true, ◌&&◌, Option, none, some, List, [], ◌∷◌, ◌++◌, leb, if◌then◌else◌,
}
use sag_c8y_nb_iot_demo.Base.Loop.{and_then}
use sag_c8y_nb_iot_demo.Agent.{
  DataPacket, new_data_packet, is_empty, is_register_message, is_measurement_message,
}
use sag_c8y_nb_iot_demo.Agent.Handler.{Platform, register_device, push_measurement}
use sag_c8y_nb_iot_demo.Agent.Messages.{
  is_valid, get_register_message, get_push_measurement_message, get_device_message, from_message,
}

-- A datagram to a device.
pub record Answer : Type 0 where
  pub ip_address : List ℕ
  pub port : ℕ
  pub bytes : List ℕ

-- The queues of the broker, what Cumulocity keeps, what went out to the devices, and whether the
-- static `ctx` of NBiotPacketEncoder is set.
pub record Agent (platform : Platform) : Type 0 where
  pub measurement_queue : List (List ℕ)
  pub register_queue : List (List ℕ)
  pub credentials_queue : List (List ℕ)
  pub platform_state : platform.State
  pub sent : List Answer
  pub has_context : Bool

abbrev pub enqueue : List (List ℕ) → List ℕ → List (List ℕ)
enqueue queue message = queue ++ (message ∷ [])

module _ (platform : Platform) where
  -- Route 1; `none` is an exception.
  unfoldable pub route_packet : Agent platform → DataPacket → Option (Agent platform)
  route_packet a p =
      if is_valid p
      then if is_measurement_message p
        then and_then (get_push_measurement_message p)
            (λ m. some (record a { measurement_queue = enqueue a.measurement_queue m }))
        else if is_register_message p
        then some (record a { register_queue = enqueue a.register_queue (get_register_message p) })
        else some a
      else some a

  abbrev pub or_else : Agent platform → Option (Agent platform) → Agent platform
  or_else a none = a
  or_else a (some b) = b

  -- A datagram comes in: `decode`, which keeps the context, and route 1. An exception ends both.
  unfoldable pub receive : List ℕ → ℕ → List ℕ → List ℕ → Agent platform → Agent platform
  unfolding route_packet
  receive ip_address port now bytes a =
      let b : Agent platform = record a { has_context = true } in
      or_else b (and_then (new_data_packet ip_address port now bytes) (route_packet b))

  -- The end of routes 2 and 3: an empty text is filtered out.
  abbrev pub handled : Agent platform → List ℕ × platform.State → Agent platform
  handled a (message, s) = record a {
    credentials_queue =
        if is_empty message then a.credentials_queue else enqueue a.credentials_queue message;
    platform_state = s;
  }

  -- Route 2, for a message that was taken from the queue.
  unfoldable pub consume_measurement : List ℕ → Agent platform → Option (Agent platform)
  consume_measurement message a =
      and_then (push_measurement platform message a.platform_state) (λ r. some (handled a r))

  -- Route 3
  unfoldable pub consume_registration : List ℕ → Agent platform → Option (Agent platform)
  consume_registration message a =
      and_then (register_device platform message a.platform_state) (λ r. some (handled a r))

  -- `encode`: without a context it waits, and the socket address throws for a port that is none.
  unfoldable pub encode_packet : Agent platform → DataPacket → Option (Agent platform)
  encode_packet a p =
      if a.has_context && leb p.port 65535
      then some (record a {
        sent =
            a.sent
            ++ (record { ip_address = p.ip_address; port = p.port; bytes = get_device_message p }
                ∷ []);
      })
      else none

  -- Route 4
  unfoldable pub consume_credentials : List ℕ → Agent platform → Option (Agent platform)
  unfolding encode_packet
  consume_credentials message a = and_then (from_message message) (encode_packet a)
