-- ===== src/System/Onboarding.antt =====
-- How a board comes to its password: what it sends without one, what the agent answers, and what the
-- board does with the answer.
use sag_c8y_nb_iot_demo.Base.{
  ℕ, zero, suc, ◌+◌, ◌≤◌, ◌<◌, ◌≡◌, ◌⊎◌, inr, refl, sym, ap, Bool, true, false, some, List, [], ◌∷◌,
  ◌++◌, length, length-take-le, take, cstr, if◌then◌else◌, arith,
}
use sag_c8y_nb_iot_demo.Base.Loop.{Returns}
use sag_c8y_nb_iot_demo.Agent.Datagram.{Fits, new_data_packet-Registers}
use sag_c8y_nb_iot_demo.Agent.Handler.{Platform, account, device_object}
use sag_c8y_nb_iot_demo.Agent.Routes.{Answer}
use sag_c8y_nb_iot_demo.Agent.Service.{handle, idle, answer, handle-accepted, handle-measurement}
use sag_c8y_nb_iot_demo.Agent.Arrival.{report}
use sag_c8y_nb_iot_demo.Agent.Text.{IsLineText, Filled}
use sag_c8y_nb_iot_demo.Device.{Device, Poll, millis}
use sag_c8y_nb_iot_demo.Device.Steps.{Line}
use sag_c8y_nb_iot_demo.Modem.Parsers.{Packet}
use sag_c8y_nb_iot_demo.Modem.Send.Wire.{datagram}
use sag_c8y_nb_iot_demo.Modem.Udp.Exchange.{Arrives}
use sag_c8y_nb_iot_demo.Node.{Readings, packet, server, Node, Locals, loop}
use sag_c8y_nb_iot_demo.Node.Downlink.{renewed, loop-renewed}
use sag_c8y_nb_iot_demo.Node.Life.{datagram-short}
use sag_c8y_nb_iot_demo.Node.Rounds.{Sends}
use sag_c8y_nb_iot_demo.Node.Storage.{IsText}

-- A round of the board is due and the modem has the agent's datagram, as `loop-renewed` asks for it.
pub record Delivers (locals : Locals) (n : Node) (payload : List ℕ) (l l' : Line) (rest : List Poll)
    : Type 0 where
  pub metadata : Packet
  pub due : n.send_next_at < millis n.device
  pub pending : n.device.pending_bytes ≡ length payload
  pub arrives : Arrives metadata payload l l' rest n.device
  pub array : length locals.content ≡ length payload
  pub from_server : cstr metadata.ip ≡ server
  pub room : length payload + 2 ≤ length n.eeprom
  pub short_id : length n.device.device_id ≤ 15
  pub is_text : IsText payload
  pub short : length payload ≤ 20

take-whole : (k : ℕ) (s : List ℕ) → length s ≤ k → take k s ≡ s
take-whole zero [] h = refl
take-whole zero (c ∷ s) h = absurd (omega arith)
take-whole (suc k) [] h = refl
take-whole (suc k) (c ∷ s) h = ap (λ t. c ∷ t) (take-whole k s (omega arith))

module _ (locals : Locals) (n : Node) (payload : List ℕ) (l l' : Line) (rest : List Poll)
    (h : Delivers locals n payload l l' rest) where
  pub renewed-token : (renewed payload l l' rest n).device.device_token ≡ payload
  renewed-token = take-whole 20 payload h.short

  -- The board's round: it ends, and its packet goes out under the new password.
  pub loop-Delivers :
      (r : Readings) → Returns (Sends r (renewed payload l l' rest n)) (loop locals r n)
  loop-Delivers r =
      loop-renewed locals r n h.metadata payload l l' rest h.due h.pending h.arrives
        (omega (arith, h.short)) h.array h.is_text h.from_server h.room
        (omega (
          arith,
          datagram-short r (renewed payload l l' rest n) (h.short_id, length-take-le 20 payload),
        ))

-- Cumulocity knows the device and gives it a password and an id, each on one line.
pub record Grants (platform : Platform) (device_id password cumulocity_id : List ℕ)
    (s s' : platform.State) : Type 0 where
  pub polled_state : platform.State
  pub polled : platform.poll_credentials device_id s ≡ (some password, polled_state)
  pub created :
      platform.create_object (account device_id password) (device_object device_id) polled_state
      ≡ (some cumulocity_id, s')
  pub password_line : IsLineText password
  pub id_line : IsLineText cumulocity_id
  pub id_filled : Filled cumulocity_id

module _ (platform : Platform) (ip : List ℕ) (port : ℕ) (line : IsLineText ip)
    (small : port ≤ 65535) where
  -- A datagram of a board that has no password, or a reset one.
  handle-granted :
      (now : List ℕ) (d : Device) (r : Readings) (password cumulocity_id : List ℕ)
      (s s' : platform.State) (sent : List Answer) (c : Bool)
      → (d.device_token ≡ []) ⊎ (d.device_token ≡ 10 ∷ [])
      → IsLineText d.device_id
      → Filled d.device_id
      → Grants platform d.device_id password cumulocity_id s s'
      → handle platform ip port now (datagram d (packet r)) (idle platform s sent c)
        ≡ some (idle platform s' (sent ++ answer ip port (password ++ (10 ∷ cumulocity_id))) true)
  unfolding packet
  handle-granted now d r password cumulocity_id s s' sent c token hl hf g =
      handle-accepted platform ip port now line small d.device_id _ password cumulocity_id s
        g.polled_state s' sent c hl hf (new_data_packet-Registers ip port now d _ _ token hl)
        g.polled g.created g.password_line g.id_line g.id_filled

  module _ (locals : Locals) (n : Node) (l l' : Line) (rest : List Poll) (d : Device)
      (r r' : Readings) (now now' : List ℕ) (x y : ℕ) (password cumulocity_id : List ℕ)
      (same : d.device_id ≡ n.device.device_id) (hl : IsLineText d.device_id)
      (hf : Filled d.device_id) where
    abbrev token_text : List ℕ
    token_text = (x ∷ password) ++ (10 ∷ y ∷ cumulocity_id)

    -- A board without a password sends a packet, and Cumulocity gives it one: the agent answers with
    -- the password and the id. Once the modem delivers that answer, the board's round ends and sends
    -- its packet under them, and the agent posts the readings of that packet to Cumulocity under
    -- them.
    pub onboarding :
        (s s' s'' : platform.State) (sent : List Answer) (c accepted : Bool)
        → (d.device_token ≡ []) ⊎ (d.device_token ≡ 10 ∷ [])
        → Grants platform d.device_id (x ∷ password) (y ∷ cumulocity_id) s s'
        → Delivers locals n token_text l l' rest
        → IsLineText now'
        → Fits r'
        → platform.post_measurement
            (account d.device_id (x ∷ password))
            (report now' (y ∷ cumulocity_id) r')
            s'
          ≡ (accepted, s'')
        → let before = sent ++ answer ip port token_text in
          let board = renewed token_text l l' rest n in
          (handle platform ip port now (datagram d (packet r)) (idle platform s sent c)
            ≡ some (idle platform s' before true))
          × Returns (Sends r' board) (loop locals r' n)
          × (handle platform ip port now'
                (datagram board.device (packet r'))
                (idle platform s' before true)
              ≡ some (
                  idle platform s''
                    (if accepted then before else before ++ answer ip port (10 ∷ []))
                    true))
    onboarding s s' s'' sent c accepted token g h stamp fits posted =
        let board = renewed token_text l l' rest n in
        (
          handle-granted now d r (x ∷ password) (y ∷ cumulocity_id) s s' sent c token hl hf g,
          loop-Delivers locals n token_text l l' rest h r',
          handle-measurement platform ip port now' line small board.device x y password
              cumulocity_id r' (renewed-token locals n token_text l l' rest h) (rw (sym same) hl)
              (rw (sym same) hf) g.password_line g.id_line stamp fits s' s''
              (sent ++ answer ip port token_text) true accepted (rw (sym same) posted),
        )

    -- A registered board whose packet Cumulocity refuses: the agent answers with a newline. Once the
    -- modem delivers that, the board's round ends and sends its packet under the newline, and the
    -- agent takes it for a registration: if Cumulocity gives the board a password, the agent answers
    -- with the password and the id.
    pub recovery :
        (password' cumulocity_id' : List ℕ) (s s' s'' : platform.State) (sent : List Answer)
        (c : Bool)
        → d.device_token ≡ token_text
        → IsLineText (x ∷ password)
        → IsLineText (y ∷ cumulocity_id)
        → IsLineText now
        → Fits r
        → platform.post_measurement
            (account d.device_id (x ∷ password))
            (report now (y ∷ cumulocity_id) r)
            s
          ≡ (false, s')
        → Delivers locals n (10 ∷ []) l l' rest
        → Grants platform d.device_id password' cumulocity_id' s' s''
        → let before = sent ++ answer ip port (10 ∷ []) in
          let board = renewed (10 ∷ []) l l' rest n in
          (handle platform ip port now (datagram d (packet r)) (idle platform s sent c)
            ≡ some (idle platform s' before true))
          × Returns (Sends r' board) (loop locals r' n)
          × (handle platform ip port now'
                (datagram board.device (packet r'))
                (idle platform s' before true)
              ≡ some (
                  idle platform s''
                    (before ++ answer ip port (password' ++ (10 ∷ cumulocity_id')))
                    true))
    recovery password' cumulocity_id' s s' s'' sent c token hp hc stamp fits refused h g =
        let board = renewed (10 ∷ []) l l' rest n in
        (
          handle-measurement platform ip port now line small d x y password cumulocity_id r token hl
              hf hp hc stamp fits s s' sent c false refused,
          loop-Delivers locals n (10 ∷ []) l l' rest h r',
          handle-granted now' board.device r' password' cumulocity_id' s' s''
              (sent ++ answer ip port (10 ∷ [])) true
              (inr (renewed-token locals n (10 ∷ []) l l' rest h)) (rw (sym same) hl)
              (rw (sym same) hf) (rw (sym same) g),
        )
