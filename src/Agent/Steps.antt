-- ===== src/Agent/Steps.antt =====
-- The agent as a system of steps: datagrams of boards come in, and the consumers take messages from
-- their queues in any order.
use sag_c8y_nb_iot_demo.Base.{ℕ, ◌≤◌, ◌≡◌, ◌⊎◌, some, List, [], ◌∷◌, ◌++◌}
use sag_c8y_nb_iot_demo.Agent.Datagram.{Fits}
use sag_c8y_nb_iot_demo.Agent.Handler.{Platform, Account, ManagedObject, account}
use sag_c8y_nb_iot_demo.Agent.Routes.{
  Agent, receive, consume_measurement, consume_registration, consume_credentials,
}
use sag_c8y_nb_iot_demo.Agent.Arrival.{report}
use sag_c8y_nb_iot_demo.Agent.Text.{IsLineText, Filled}
use sag_c8y_nb_iot_demo.Device.{Device}
use sag_c8y_nb_iot_demo.Modem.Send.Wire.{datagram}
use sag_c8y_nb_iot_demo.Node.{Readings, packet}

-- What a board's token is: nothing, the newline of a reset, or a password and an id.
pub data Token (token : List ℕ) : Type 0 where
  unregistered : (token ≡ []) ⊎ (token ≡ 10 ∷ []) → Token token
  registered :
      (x y : ℕ) (password cumulocity_id : List ℕ)
      → token ≡ (x ∷ password) ++ (10 ∷ y ∷ cumulocity_id)
      → IsLineText (x ∷ password)
      → IsLineText (y ∷ cumulocity_id)
      → Token token

module _ (platform : Platform) (Sent : List ℕ → List ℕ → Readings → Type 0) where
  -- A datagram of a board, with readings that it sent.
  pub record FromBoard (bytes : List ℕ) : Type 0 where
    pub board : Device
    pub readings : Readings
    pub shape : bytes ≡ datagram board (packet readings)
    pub sent : Sent board.device_id board.device_token readings
    pub fits : Fits readings
    pub id_line : IsLineText board.device_id
    pub id_filled : Filled board.device_id
    pub token : Token board.device_token

  -- A consumer takes a message from any place in its queue, for there are many consumers of each.
  pub data Served (a b : Agent platform) : Type 0 where
    measures :
        (before after : List (List ℕ)) (m : List ℕ)
        → a.measurement_queue ≡ before ++ (m ∷ after)
        → consume_measurement platform m (record a { measurement_queue = before ++ after }) ≡ some b
        → Served a b
    registers :
        (before after : List (List ℕ)) (m : List ℕ)
        → a.register_queue ≡ before ++ (m ∷ after)
        → consume_registration platform m (record a { register_queue = before ++ after }) ≡ some b
        → Served a b
    answers :
        (before after : List (List ℕ)) (m : List ℕ)
        → a.credentials_queue ≡ before ++ (m ∷ after)
        → consume_credentials platform m (record a { credentials_queue = before ++ after }) ≡ some b
        → Served a b

  -- One step: a board's datagram comes in, or a consumer is served.
  pub data Step (a b : Agent platform) : Type 0 where
    receives :
        (ip : List ℕ) (port : ℕ) (now bytes : List ℕ)
        → IsLineText ip
        → port ≤ 65535
        → IsLineText now
        → FromBoard bytes
        → receive platform ip port now bytes a ≡ b
        → Step a b
    serves : Served a b → Step a b

  pub data Reach (a : Agent platform) : Agent platform → Type 0 where
    here : Reach a a
    next : {b c : Agent platform} → Reach a b → Step b c → Reach a c

  -- A property of what Cumulocity keeps that survives the SDK's calls, a post only if its readings
  -- were sent by the board in whose name it is, under the password and the id that it uses.
  pub record Kept (I : platform.State → Type 0) : Type 0 where
    pub polls :
        (device_id : List ℕ) (s : platform.State)
        → I s
        → I (platform.poll_credentials device_id s).1
    pub creates :
        (user : Account) (object : ManagedObject) (s : platform.State)
        → I s
        → I (platform.create_object user object s).1
    pub posts :
        (device_id password cumulocity_id now : List ℕ) (r : Readings) (s : platform.State)
        → Sent device_id (password ++ (10 ∷ cumulocity_id)) r
        → I s
        → I
            (platform.post_measurement
              (account device_id password)
              (report now cumulocity_id r)
              s).1
