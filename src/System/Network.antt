-- ===== src/System/Network.antt =====
-- Boards, the agent and a network between them that loses, repeats and reorders datagrams.
use sag_c8y_nb_iot_demo.Base.{ℕ, ◌≤◌, ◌<◌, ◌≡◌, ◌⊎◌, some, List, [], ◌∷◌, ◌++◌, All, length}
use sag_c8y_nb_iot_demo.Agent.Datagram.{Fits}
use sag_c8y_nb_iot_demo.Agent.Handler.{Platform, account, device_object}
use sag_c8y_nb_iot_demo.Agent.Routes.{Answer, Agent, receive}
use sag_c8y_nb_iot_demo.Agent.Steps.{Served}
use sag_c8y_nb_iot_demo.Agent.Text.{IsLineText, Filled}
use sag_c8y_nb_iot_demo.Device.{Poll, millis}
use sag_c8y_nb_iot_demo.Device.Steps.{Line}
use sag_c8y_nb_iot_demo.Modem.Send.Wire.{datagram}
use sag_c8y_nb_iot_demo.Node.{Locals, receive_password, loop}
use sag_c8y_nb_iot_demo.Node.Downlink.{renewed}
use sag_c8y_nb_iot_demo.System.Onboarding.{Delivers}
use sag_c8y_nb_iot_demo.Node.{Readings, packet, Node}
use sag_c8y_nb_iot_demo.Node.Storage.{IsText}

-- A board by its id.
pub record Member : Type 0 where
  pub imei : List ℕ
  pub node : Node

-- A datagram and the board that sent it.
pub record Parcel : Type 0 where
  pub imei : List ℕ
  pub bytes : List ℕ

-- The boards, the agent, and every datagram that the boards have sent so far.
pub record World (platform : Platform) : Type 0 where
  pub boards : List Member
  pub agent : Agent platform
  pub uplink : List Parcel

-- A password and an id on two lines, which Cumulocity gave, and which the board can store.
pub record Credential (Granted : List ℕ → Type 0) (bytes : List ℕ) : Type 0 where
  pub x : ℕ
  pub y : ℕ
  pub password : List ℕ
  pub cumulocity_id : List ℕ
  pub shape : bytes ≡ (x ∷ password) ++ (10 ∷ y ∷ cumulocity_id)
  pub password_line : IsLineText (x ∷ password)
  pub id_line : IsLineText (y ∷ cumulocity_id)
  pub granted : Granted bytes
  pub is_text : IsText bytes
  pub short : length bytes ≤ 20

-- What the agent sends: a newline, or such a password and id.
abbrev pub Good : (List ℕ → Type 0) → List ℕ → Type 0
Good Granted bytes = (bytes ≡ 10 ∷ []) ⊎ Credential Granted bytes

-- The token of a board: none yet, or one that the agent sent.
abbrev pub HasToken : (List ℕ → Type 0) → List ℕ → Type 0
HasToken Granted token = (token ≡ []) ⊎ Good Granted token

-- The board is the same, whatever else happened to it.
pub record SameBoard (n n' : Node) : Type 0 where
  pub same_id : n'.device.device_id ≡ n.device.device_id
  pub same_token : n'.device.device_token ≡ n.device.device_token
  pub same_eeprom : n'.eeprom ≡ n.eeprom

-- The board has its id, which is that of a device, a token that is empty or came from the agent, and
-- room for a password.
pub record Ready (Granted : List ℕ → Type 0) (imei : List ℕ) (n : Node) : Type 0 where
  pub id_line : IsLineText imei
  pub id_filled : Filled imei
  pub short_id : length imei ≤ 15
  pub same_id : n.device.device_id ≡ imei
  pub token : HasToken Granted n.device.device_token
  pub room : 22 ≤ length n.eeprom

-- The addresses of the devices, what Cumulocity gave each for a password, and what each measures.
module _ (At : List ℕ → ℕ → List ℕ → Type 0) (Granted : List ℕ → List ℕ → Type 0)
    (Measured : List ℕ → Readings → Type 0) where
  -- Boards send what they measure under no token or one that the agent sent for them.
  abbrev pub Sent : List ℕ → List ℕ → Readings → Type 0
  Sent device_id token r = HasToken (Granted device_id) token × Measured device_id r

  -- A password and an id of the device at an address.
  pub record OwnCredential (ip : List ℕ) (port : ℕ) (bytes : List ℕ) : Type 0 where
    pub device_id : List ℕ
    pub located : At ip port device_id
    pub credential : Credential (Granted device_id) bytes

  -- What the agent sends to an address: a newline, or a password and an id of the device there.
  abbrev pub GoodAt : List ℕ → ℕ → List ℕ → Type 0
  GoodAt ip port bytes = (bytes ≡ 10 ∷ []) ⊎ OwnCredential ip port bytes

  -- A turn of a board, and what it sends: a round of `loop`, in which it takes in what the agent sent
  -- to an address of it, or leaves its id, token and EEPROM as they are, with nothing to receive, a
  -- failed exchange or a stranger's datagram; or time passes. What a round sends is what the
  -- theorems on rounds say; the modem does not name another id.
  pub data Turn (answers : List Answer) (imei : List ℕ) (n : Node)
      : Node → List Parcel → Type 0 where
    sends :
        (locals : Locals) (r : Readings) (m n' : Node)
        → Measured imei r
        → Fits r
        → n.send_next_at < millis n.device
        → receive_password locals n ≡ some m
        → SameBoard n m
        → loop locals r n ≡ some n'
        → n'.device.device_id ≡ imei
        → Turn answers imei n n' (record { imei = imei; bytes = datagram m.device (packet r) } ∷ [])
    takes :
        (locals : Locals) (r : Readings) (n' : Node) (before after : List Answer) (x : Answer)
        (l l' : Line) (rest : List Poll)
        → Measured imei r
        → Fits r
        → answers ≡ before ++ (x ∷ after)
        → At x.ip_address x.port imei
        → Delivers locals n x.bytes l l' rest
        → loop locals r n ≡ some n'
        → n'.device.device_id ≡ imei
        → Turn answers imei n n' (
            record { imei = imei; bytes = datagram (renewed x.bytes l l' rest n).device (packet r) }
            ∷ [])
    passes : (n' : Node) → SameBoard n n' → Turn answers imei n n' []

  module _ (platform : Platform) where
    -- One event: a board's turn; a datagram that a board sent arrives from an address of it; a
    -- consumer is served.
    pub data Event (w w' : World platform) : Type 0 where
      turns :
          (before after : List Member) (b : Member) (n' : Node) (sent : List Parcel)
          → w.boards ≡ before ++ (b ∷ after)
          → Turn w.agent.sent b.imei b.node n' sent
          → record w {
            boards = before ++ (record b { node = n' } ∷ after);
            uplink = sent ++ w.uplink;
          }
            ≡ w'
          → Event w w'
      arrives :
          (ip : List ℕ) (port : ℕ) (now : List ℕ) (before after : List Parcel) (x : Parcel)
          → IsLineText ip
          → port ≤ 65535
          → IsLineText now
          → w.uplink ≡ before ++ (x ∷ after)
          → At ip port x.imei
          → record w { agent = receive platform ip port now x.bytes w.agent } ≡ w'
          → Event w w'
      consumes :
          (a : Agent platform)
          → Served platform Sent w.agent a
          → record w { agent = a } ≡ w'
          → Event w w'

    pub data Run (w : World platform) : World platform → Type 0 where
      still : Run w w
      then : {u v : World platform} → Run w u → Event u v → Run w v

    -- What is asked of Cumulocity: what it gives a device for a password and an id is good for it.
    abbrev pub Gives : Type 0
    Gives =
        (device_id password cumulocity_id : List ℕ) (s s' s'' : platform.State)
        → platform.poll_credentials device_id s ≡ (some password, s')
        → platform.create_object (account device_id password) (device_object device_id) s'
          ≡ (some cumulocity_id, s'')
        → IsLineText password
          × IsLineText cumulocity_id
          × Filled cumulocity_id
          × Credential (Granted device_id) (password ++ (10 ∷ cumulocity_id))

-- An address is that of one device.
abbrev pub Alone : (List ℕ → ℕ → List ℕ → Type 0) → Type 0
Alone At = (ip : List ℕ) (port : ℕ) (d d' : List ℕ) → At ip port d → At ip port d' → d ≡ d'

-- A board without a password, with room for one.
pub record New (b : Member) : Type 0 where
  pub id_line : IsLineText b.imei
  pub id_filled : Filled b.imei
  pub short_id : length b.imei ≤ 15
  pub same_id : b.node.device.device_id ≡ b.imei
  pub no_token : b.node.device.device_token ≡ []
  pub room : 22 ≤ length b.node.eeprom

-- Nothing was sent yet, on either side.
pub record Start {platform : Platform} (w : World platform) : Type 0 where
  pub boards : All New w.boards
  pub nothing_sent : w.uplink ≡ []
  pub measurements : w.agent.measurement_queue ≡ []
  pub registrations : w.agent.register_queue ≡ []
  pub credentials : w.agent.credentials_queue ≡ []
  pub no_answers : w.agent.sent ≡ []
