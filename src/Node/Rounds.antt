-- ===== src/Node/Rounds.antt =====
-- Rounds of the sketch's `loop`: the packet of a round that is due, and the time until the next.
use sag_c8y_nb_iot_demo.Base.{
  ℕ, ◌+◌, ◌^◌, ◌≤◌, ◌<◌, ◌≡◌, refl, ap, ◌∙◌, Bool, true, false, All, Option, some, List, ◌++◌, cstr,
  length, ltb, arith,
}
use sag_c8y_nb_iot_demo.Base.Loop.{
  and_then, Returns, Returns-and_then, Returns-Allows, Allows, Allows-and_then, Allows-result,
  anything,
}
use sag_c8y_nb_iot_demo.Base.Words.{wrap32}
use sag_c8y_nb_iot_demo.Device.{Device, Poll, millis}
use sag_c8y_nb_iot_demo.Device.Sent.{said, line}
use sag_c8y_nb_iot_demo.Device.Timing.{Moves}
use sag_c8y_nb_iot_demo.Modem.Commands.{succeeds, default_read_ms}
use sag_c8y_nb_iot_demo.Modem.Commands.Returns.{reply-Bounded}
use sag_c8y_nb_iot_demo.Modem.Commands.Script.{succeeds-Quiet}
use sag_c8y_nb_iot_demo.Device.Steps.{Line, took, in_front}
use sag_c8y_nb_iot_demo.Modem.Commands.Replies.{succeeds-Final}
use sag_c8y_nb_iot_demo.Modem.Response.Dialogue.{IsReadable, replied}
use sag_c8y_nb_iot_demo.Modem.Response.Reports.{Final, text_of}
use sag_c8y_nb_iot_demo.Modem.Hex.RoundTrip.{IsByte}
use sag_c8y_nb_iot_demo.Modem.Response.{positive}
use sag_c8y_nb_iot_demo.Modem.Send.{credentials, send_payload}
use sag_c8y_nb_iot_demo.Modem.Send.Wire.{written, nsost, datagram, send_payload-nsost}
use sag_c8y_nb_iot_demo.Node.{Readings, packet, Node, Locals, receive_password, send_readings, loop}

pub packet-IsByte : (r : Readings) → All IsByte (packet r)
unfolding packet
packet-IsByte r = ground arith

-- A round that sent the packet of `r`: one command with the credentials and the packet, nothing
-- else, and the next packet is due in ten seconds by the board's clock.
pub record Sends (r : Readings) (n n' : Node) : Type 0 where
  pub command :
      line (nsost n.device (datagram n.device (packet r))) (said n.device) (said n'.device)
  pub in_time : Moves 1 5261 n.device n'.device
  pub same_eeprom : n'.eeprom ≡ n.eeprom
  pub next_at : n'.send_next_at ≡ wrap32 (millis n'.device + 10000)

-- What the sending of a packet gives.
abbrev Sent : Device → List ℕ → Bool × Device → Type 0
Sent d text p = Moves 1 5261 d p.1 × line text (said d) (said p.1)

send_payload-Sent :
    (r : Readings) (d : Device)
    → length (datagram d (packet r)) < 2 ^ 15
    → Returns (Sent d (nsost d (datagram d (packet r)))) (send_payload (packet r) d)
send_payload-Sent r d h = rw (send_payload-nsost d (packet r) (packet-IsByte r) h) (
    Returns-Allows (λ p. Moves 1 5261 d p.1)
      (λ p. line (nsost d (datagram d (packet r))) (said d) (said p.1))
      (succeeds default_read_ms (written d (nsost d (datagram d (packet r)))))
      (reply-Bounded (written d (nsost d (datagram d (packet r)))))
      (succeeds-Quiet default_read_ms (written d (nsost d (datagram d (packet r))))))

-- The packet goes out, whatever the modem replies.
pub send_readings-Sends :
    (r : Readings) (n : Node)
    → length (datagram n.device (packet r)) < 2 ^ 15
    → Returns (Sends r n) (send_readings r n)
unfolding send_readings
send_readings-Sends r n h =
    Returns-and_then (Sent n.device (nsost n.device (datagram n.device (packet r)))) (Sends r n)
      (send_payload (packet r) n.device) _ (send_payload-Sent r n.device h)
      (λ p sent. record { command = sent.1; in_time = sent.0; same_eeprom = refl; next_at = refl })

pub nothing_received :
    (locals : Locals) (n : Node) → n.device.pending_bytes ≡ 0 → receive_password locals n ≡ some n
unfolding receive_password
nothing_received locals n h = let e : positive n.device.pending_bytes ≡ false = ground arith in rw e

-- A round that is due: the packet goes out behind whatever was received.
pub loop-received :
    (locals : Locals) (r : Readings) (n m : Node)
    → n.send_next_at < millis n.device
    → receive_password locals n ≡ some m
    → length (datagram m.device (packet r)) < 2 ^ 15
    → Returns (Sends r m) (loop locals r n)
unfolding loop
loop-received locals r n m due received h =
    let e : ltb n.send_next_at (millis n.device) ≡ true = ground arith in
    rw (e, received) (send_readings-Sends r m h)

-- A round that is due with nothing to receive always ends and sends its packet: whatever the modem
-- replies, exactly one AT+NSOST command goes out, for the credentials and the packet of the readings;
-- the password stays, polls are taken off the line or at most 5261 ms go by, and the next packet is
-- due ten seconds later by the board's clock. The bytes are fewer than 2 ^ 15.
pub loop-Sends :
    (locals : Locals) (r : Readings) (n : Node)
    → n.send_next_at < millis n.device
    → n.device.pending_bytes ≡ 0
    → length (datagram n.device (packet r)) < 2 ^ 15
    → Returns (Sends r n) (loop locals r n)
loop-Sends locals r n due none_pending h =
    loop-received locals r n n due (nothing_received locals n none_pending) h

-- The sketch behind a packet whose final reply, a line, was all that it took off the line.
abbrev pub sent_off : Readings → Line → List Poll → Node → Node
sent_off r l rest n =
    let d =
      replied (written n.device (nsost n.device (datagram n.device (packet r)))) (took l) rest in
    record n { device = d; send_next_at = wrap32 (millis d + 10000) }

-- The packet, when the modem's final reply is there.
pub send_readings-Final :
    (r : Readings) (n : Node) (l : Line) (rest : List Poll) (reply : Final) (after : List ℕ)
    → length (datagram n.device (packet r)) < 2 ^ 15
    → IsReadable l
    → cstr l.text ≡ text_of reply ++ after
    → n.device.input ≡ in_front l rest
    → send_readings r n ≡ some (sent_off r l rest n)
unfolding send_readings
send_readings-Final r n l rest reply after h hl final shape =
    ap (λ o. and_then o stamped)
      (send_payload-nsost n.device (packet r) (packet-IsByte r) h
        ∙ succeeds-Final default_read_ms l rest reply after _ hl final shape)
  where
    stamped : Bool × Device → Option Node
    stamped p = some (record n { device = p.1; send_next_at = wrap32 (millis p.1 + 10000) })

-- The same round when the modem's final reply is there: it is all that the round takes off the line.
pub loop-Final :
    (locals : Locals) (r : Readings) (n : Node) (l : Line) (rest : List Poll) (reply : Final)
    (after : List ℕ)
    → n.send_next_at < millis n.device
    → n.device.pending_bytes ≡ 0
    → length (datagram n.device (packet r)) < 2 ^ 15
    → IsReadable l
    → cstr l.text ≡ text_of reply ++ after
    → n.device.input ≡ in_front l rest
    → loop locals r n ≡ some (sent_off r l rest n)
unfolding loop
loop-Final locals r n l rest reply after due none_pending h hl final shape =
    let e : ltb n.send_next_at (millis n.device) ≡ true = ground arith in
    rw (e, nothing_received locals n none_pending)
      (send_readings-Final r n l rest reply after h hl final shape)

-- The same sketch some milliseconds later.
abbrev pub later : ℕ → Node → Node
later ms n = record n { device = record n.device { clock = n.device.clock + ms } }

-- The timer is set to ten seconds from now.
abbrev TimerSet : Node → Type 0
TimerSet n = n.send_next_at ≡ wrap32 (millis n.device + 10000)

send_readings-TimerSet : (r : Readings) (n : Node) → Allows TimerSet (send_readings r n)
unfolding send_readings
send_readings-TimerSet r n =
    Allows-and_then (λ _. Unit) TimerSet (send_payload (packet r) n.device) _
      (anything (send_payload (packet r) n.device)) (λ p _. refl)

module _ (locals : Locals) (r : Readings) (n n' : Node) where
  round-TimerSet : n.send_next_at < millis n.device → loop locals r n ≡ some n' → TimerSet n'
  unfolding loop
  round-TimerSet due gives =
      let e : ltb n.send_next_at (millis n.device) ≡ true = ground arith in
      Allows-result TimerSet (loop locals r n) n'
        (rw e (
          Allows-and_then (λ _. Unit) TimerSet (receive_password locals n) (send_readings r)
            (anything (receive_password locals n)) (λ m _. send_readings-TimerSet r m)))
        gives

  -- Two packets are at least ten seconds apart: after a round that sent one, with or without an
  -- incoming password, rounds in the next ten seconds do nothing at all, if the clock does not wrap
  -- around in these ten seconds.
  pub loop-interval :
      (locals' : Locals) (r' : Readings) (ms : ℕ)
      → n.send_next_at < millis n.device
      → loop locals r n ≡ some n'
      → millis n'.device + 10000 < 2 ^ 32
      → ms ≤ 10000
      → loop locals' r' (later ms n') ≡ some (later ms n')
  unfolding loop
  loop-interval locals' r' ms due gives no_wrap soon =
      let timer = round-TimerSet due gives in
      let e : ltb n'.send_next_at (millis (later ms n').device) ≡ false = ground arith in rw e

  -- Near the wrap around of the clock they are not: if less than ten seconds are left when a packet
  -- was sent, and nothing is pending, then the next round, at any time up to the wrap around and
  -- also at once, sends its packet. The bytes are fewer than 2 ^ 15.
  pub loop-burst :
      (locals' : Locals) (r' : Readings) (ms : ℕ)
      → n.send_next_at < millis n.device
      → loop locals r n ≡ some n'
      → 2 ^ 32 ≤ millis n'.device + 10000
      → millis n'.device + ms < 2 ^ 32
      → n'.device.pending_bytes ≡ 0
      → length (datagram n'.device (packet r')) < 2 ^ 15
      → Returns (Sends r' (later ms n')) (loop locals' r' (later ms n'))
  unfolding credentials
  loop-burst locals' r' ms due gives wraps before none_pending h =
      let timer = round-TimerSet due gives in
      loop-Sends locals' r' (later ms n') (omega arith) none_pending h
