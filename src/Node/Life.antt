-- ===== src/Node/Life.antt =====
-- The sketch's life: from the board's start through `setup` to any number of rounds of `loop`.
use sag_c8y_nb_iot_demo.Base.{
  ℕ, ◌≤◌, ◌<◌, ◌≡◌, true, Bool-cases, inl, inr, some, List, [], ◌∷◌, ◌++◌, length, length-append,
  length-take-le, take, drop, blit, ltb, cstr, arith,
}
use sag_c8y_nb_iot_demo.Base.Loop.{Returns, Allows, Allows-and_then, Allows-result, anything}
use sag_c8y_nb_iot_demo.Device.{Device, Poll, millis}
use sag_c8y_nb_iot_demo.Device.Identity.{HasShortCredentials, Keeps}
use sag_c8y_nb_iot_demo.Modem.Commands.{set_att_device}
use sag_c8y_nb_iot_demo.Modem.Commands
use sag_c8y_nb_iot_demo.Modem.Connect.{Stray}
use sag_c8y_nb_iot_demo.Modem.Connect.Keeps.{connect-Keeps}
use sag_c8y_nb_iot_demo.Modem.Object.{new_device, with_credentials}
use sag_c8y_nb_iot_demo.Modem.Parsers.{Packet}
use sag_c8y_nb_iot_demo.Modem.Response.{positive}
use sag_c8y_nb_iot_demo.Modem.Send.{send_payload, credentials}
use sag_c8y_nb_iot_demo.Modem.Send.Keeps.{send_payload-Keeps}
use sag_c8y_nb_iot_demo.Modem.Send.Wire.{datagram, length-credentials}
use sag_c8y_nb_iot_demo.Modem.Udp.{socket_receive_bytes}
use sag_c8y_nb_iot_demo.Modem.Udp.Keeps.{socket_receive_bytes-Keeps}
use sag_c8y_nb_iot_demo.Node.{
  server, port, Readings, packet, write_pw, read_pw, Node, Locals, power_on, store_password,
  is_from_server, use_datagram, take_password, password_loop, receive_password, send_readings, loop,
  setup,
}
use sag_c8y_nb_iot_demo.Node.Rounds.{Sends, loop-Sends}
use sag_c8y_nb_iot_demo.OnOff.{OnOff, Pins}

length-cstr-terminated : (s : List ℕ) → length (cstr (s ++ (0 ∷ []))) ≤ length s
length-cstr-terminated [] = omega arith
length-cstr-terminated (c ∷ s) = ground (arith, length-cstr-terminated s)

-- The password that is read has 20 characters at most.
read_pw-short : (eeprom : List ℕ) → length (cstr (read_pw eeprom)) ≤ 20
unfolding read_pw
read_pw-short eeprom =
    omega
      (arith, length-cstr-terminated (take 20 (drop 1 eeprom)), length-take-le 20 (drop 1 eeprom))

abbrev pub IsShort : Node → Type 0
IsShort n = HasShortCredentials n.device

store_password-IsShort :
    (passw : List ℕ) (n : Node) → IsShort n → Allows IsShort (store_password passw n)
unfolding store_password set_att_device
store_password-IsShort passw n h = (h.0, read_pw-short (write_pw passw n.eeprom))

use_datagram-IsShort :
    (locals : Locals) (n : Node) (r : (ℕ × Packet × List ℕ) × Device)
    → HasShortCredentials r.1
    → Allows IsShort (use_datagram locals n r)
unfolding use_datagram take_password
use_datagram-IsShort locals n ((size, metadata, bytes), d) h =
    elim (Bool-cases (ltb (length locals.content) (length bytes))) [
      | inl outside ↦ rw outside tt
      | inr inside ↦ elim (Bool-cases (is_from_server size metadata)) [
        | inr foreign ↦ rw (inside, foreign) h
        | inl known ↦
            rw (inside, known)
              (Allows-and_then (λ _. Unit) IsShort
                (password_loop 257 0 n.device.pending_bytes (blit locals.content 0 bytes)) _
                (anything
                  (password_loop 257 0 n.device.pending_bytes (blit locals.content 0 bytes)))
                (λ passw _. store_password-IsShort passw (record n { device = d }) h))
      ]
    ]

pub receive_password-IsShort :
    (locals : Locals) (n : Node) → IsShort n → Allows IsShort (receive_password locals n)
unfolding receive_password
receive_password-IsShort locals n h = elim (Bool-cases (positive n.device.pending_bytes)) [
  | inr none_pending ↦ rw none_pending h
  | inl pending ↦ rw pending (
      Allows-and_then (λ r. HasShortCredentials r.1) IsShort
        (socket_receive_bytes n.device.pending_bytes locals.received n.device)
        (use_datagram locals n)
        (socket_receive_bytes-Keeps n.device.pending_bytes locals.received n.device h)
        (use_datagram-IsShort locals n))
]

send_readings-IsShort : (r : Readings) (n : Node) → IsShort n → Allows IsShort (send_readings r n)
unfolding send_readings
send_readings-IsShort r n h =
    Allows-and_then (λ p. HasShortCredentials p.1) IsShort (send_payload (packet r) n.device) _
      (send_payload-Keeps (packet r) n.device h) (λ p short. short)

loop-IsShort :
    (locals : Locals) (r : Readings) (n : Node) → IsShort n → Allows IsShort (loop locals r n)
unfolding loop
loop-IsShort locals r n h = elim (Bool-cases (ltb n.send_next_at (millis n.device))) [
  | inr early ↦ rw early h
  | inl due ↦ rw due (
      Allows-and_then IsShort IsShort (receive_password locals n) (send_readings r)
        (receive_password-IsShort locals n h) (send_readings-IsShort r))
]

-- The states that a sketch comes to: after a successful `setup`, after rounds of `loop`, and when
-- time passes and more comes in.
pub data Life : Node → Type 0 where
  starts :
      (input : List Poll) (pins : Pins) (below : ℕ) (eeprom : List ℕ) (switch : OnOff)
      (stray : Stray) (d : Device)
      → setup switch stray eeprom (power_on input pins below eeprom).device ≡ some (true, d)
      → Life (record (power_on input pins below eeprom) { device = d })
  rounds :
      (locals : Locals) (r : Readings) (n n' : Node) → Life n → loop locals r n ≡ some n' → Life n'
  passes :
      (n : Node) (clock : ℕ) (input : List Poll)
      → n.device.clock ≤ clock
      → Life n
      → Life (record n { device = record n.device { clock = clock; input = input } })

setup-Keeps : (switch : OnOff) (stray : Stray) (eeprom : List ℕ) → Keeps (setup switch stray eeprom)
unfolding setup set_att_device Commands.init
setup-Keeps switch stray eeprom d (short_id, _) =
    connect-Keeps stray server port _ (short_id, read_pw-short eeprom)

pub Life-IsShort : (n : Node) → Life n → IsShort n
unfolding power_on new_device with_credentials
Life-IsShort n (starts input pins below eeprom switch stray d h) =
    Allows-result (λ p. HasShortCredentials p.1)
      (setup switch stray eeprom (power_on input pins below eeprom).device) (true, d)
      (setup-Keeps switch stray eeprom (power_on input pins below eeprom).device
        (omega arith, omega arith))
      h
Life-IsShort n (rounds locals r m n' life h) =
    Allows-result IsShort (loop locals r m) n (loop-IsShort locals r m (Life-IsShort m life)) h
Life-IsShort n (passes m clock input h life) = Life-IsShort m life

-- What the modem is asked to send is at most 51 bytes.
pub datagram-short :
    (r : Readings) (n : Node) → IsShort n → length (datagram n.device (packet r)) ≤ 51
unfolding packet
datagram-short r n h =
    omega (
      arith,
      length-append (credentials n.device) (packet r),
      length-credentials n.device,
      h.0,
      h.1,
    )

-- At any time of a sketch's life, from a successful `setup` on and whatever the modem has sent, a
-- round of `loop` that is due with nothing to receive always ends and sends its packet: exactly one
-- AT+NSOST command goes out, for the credentials and the packet of the readings, whatever the modem
-- replies; the password stays, polls are taken off the line or at most 5261 ms go by, and the next
-- packet is due ten seconds later by the board's clock.
pub Life-Sends :
    (locals : Locals) (r : Readings) (n : Node)
    → Life n
    → n.send_next_at < millis n.device
    → n.device.pending_bytes ≡ 0
    → Returns (Sends r n) (loop locals r n)
Life-Sends locals r n life due none_pending =
    loop-Sends locals r n due none_pending (omega (arith, datagram-short r n (Life-IsShort n life)))
