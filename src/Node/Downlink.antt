-- ===== src/Node/Downlink.antt =====
-- A round of `loop` with an incoming password: from the modem's answer to the packet that is sent
-- with the new token.
use sag_c8y_nb_iot_demo.Base.{
  ℕ, ◌+◌, ◌^◌, ◌≤◌, ◌<◌, ◌≡◌, refl, sym, ap, ◌∙◌, true, false, some, List, [], ◌∷◌, length, take,
  take-blit, length-blit, blit, ◌++◌, ltb, ◌==◌, cstr, arith,
}
use sag_c8y_nb_iot_demo.Base.Loop.{and_then, Returns}
use sag_c8y_nb_iot_demo.Device.{Poll, millis}
use sag_c8y_nb_iot_demo.Device.Steps.{Line, in_front}
use sag_c8y_nb_iot_demo.Modem.Parsers.{Packet}
use sag_c8y_nb_iot_demo.Modem.Response.Dialogue.{IsReadable}
use sag_c8y_nb_iot_demo.Modem.Response.Reports.{Final, text_of}
use sag_c8y_nb_iot_demo.Modem.Response.{positive}
use sag_c8y_nb_iot_demo.Modem.Send.Wire.{datagram}
use sag_c8y_nb_iot_demo.Modem.Udp.{max_udp_buffer, min}
use sag_c8y_nb_iot_demo.Modem.Udp.Exchange.{Arrives, emptied, socket_receive_bytes-Arrives}
use sag_c8y_nb_iot_demo.Node.{
  server, apn, Readings, packet, write_pw, Node, Locals, is_from_server, use_datagram,
  take_password, receive_password, loop,
}
use sag_c8y_nb_iot_demo.Node.Password.{take_password_lem}
use sag_c8y_nb_iot_demo.Node.Rounds.{Sends, sent_off, send_readings-Sends, send_readings-Final}
use sag_c8y_nb_iot_demo.Node.Storage.{IsText}

take-all : (s : List ℕ) → take (length s) s ≡ s
take-all [] = refl
take-all (c ∷ s) = ap (λ t. c ∷ t) (take-all s)

-- The array of the received bytes, when they fill it.
filled_array :
    (array payload : List ℕ) → length array ≡ length payload → blit array 0 payload ≡ payload
filled_array array payload same =
    sym (take-all (blit array 0 payload))
    ∙ ap (λ k. take k (blit array 0 payload)) whole
    ∙ take-blit array 0 payload (omega arith)
  where
    whole : length (blit array 0 payload) ≡ 0 + length payload
    whole = omega (arith, length-blit array 0 payload)

-- The sketch once the payload of a datagram became its password.
abbrev pub renewed : List ℕ → Line → Line → List Poll → Node → Node
renewed payload l l' rest n = record n {
  device = record (emptied (length payload) (length payload) l l' rest n.device) {
    device_token = take 20 payload;
    apn = apn;
  };
  eeprom = write_pw payload n.eeprom;
}

module _ (locals : Locals) (n : Node) (p : Packet) (payload : List ℕ) (l l' : Line)
    (rest : List Poll) (pending : n.device.pending_bytes ≡ length payload)
    (h : Arrives p payload l l' rest n.device) (small : length payload < 256)
    (array : length locals.content ≡ length payload) (t : IsText payload)
    (from : cstr p.ip ≡ server) (room : length payload + 2 ≤ length n.eeprom) where
  use_datagram-renewed :
      use_datagram locals n
        ((length payload, p, payload), emptied (length payload) (length payload) l l' rest n.device)
      ≡ some (renewed payload l l' rest n)
  unfolding use_datagram is_from_server
  use_datagram-renewed =
      let some_bytes : (length payload == 0) ≡ false = ground (arith, h.filled) in
      let inside : ltb (length locals.content) (length payload) ≡ false = ground arith in
      rw (inside, some_bytes, from)
        ((λ i. take_password (pending i) (filled_array locals.content payload array i) received)
          ∙ take_password_lem (length payload) payload received small (omega arith) t room
          ∙ λ i. some (record received {
            device = record received.device {
              device_token = take 20 (take-all payload i);
              apn = apn;
            };
            eeprom = write_pw (take-all payload i) n.eeprom;
          }))
    where
      received : Node
      received = record n { device = emptied (length payload) (length payload) l l' rest n.device }

  pub receive_password-renewed : receive_password locals n ≡ some (renewed payload l l' rest n)
  unfolding receive_password
  receive_password-renewed =
      let e : positive n.device.pending_bytes ≡ true = ground (arith, h.filled) in
      rw e (
        ap (λ o. and_then o (use_datagram locals n))
          (socket_receive_bytes-Arrives n.device.pending_bytes locals.received p payload l l' rest
              n.device (omega (arith, pending)) h
            ∙ λ i. some (
              (length payload, p, payload),
              emptied (length payload) (whole i) l l' rest n.device,
            ))
        ∙ use_datagram-renewed)
    where
      whole :
          min n.device.pending_bytes (min max_udp_buffer n.device.pending_bytes) ≡ length payload
      whole = ground arith

-- A round of `loop` that is due, with a datagram from the server pending as a whole: its payload
-- without a NUL becomes the password, and the packet goes out with the new token. That the modem
-- answers the request within five seconds, with the datagram's fields in their ranges and then with
-- OK, is the assumption, and that the line of its answer fits the driver's line buffer of 250 bytes,
-- which the lines of payloads up to some 105 bytes do: a longer datagram is lost in the code. Whatever it replies to the packet, the round ends. The
-- array for the bytes has the size of what is pending, as in the sketch, the EEPROM has room for the
-- password, and the bytes to send are fewer than 2 ^ 15.
pub loop-renewed :
    (locals : Locals) (r : Readings) (n : Node) (p : Packet) (payload : List ℕ) (l l' : Line)
    (rest : List Poll)
    → n.send_next_at < millis n.device
    → n.device.pending_bytes ≡ length payload
    → Arrives p payload l l' rest n.device
    → length payload < 256
    → length locals.content ≡ length payload
    → IsText payload
    → cstr p.ip ≡ server
    → length payload + 2 ≤ length n.eeprom
    → length (datagram (renewed payload l l' rest n).device (packet r)) < 2 ^ 15
    → Returns (Sends r (renewed payload l l' rest n)) (loop locals r n)
unfolding loop
loop-renewed locals r n p payload l l' rest due pending h small array t from room short =
    let e : ltb n.send_next_at (millis n.device) ≡ true = ground arith in
    rw (e, receive_password-renewed locals n p payload l l' rest pending h small array t from room)
      (send_readings-Sends r (renewed payload l l' rest n) short)

-- The same round when the modem's final reply to the packet is there.
pub loop-renewed-Final :
    (locals : Locals) (r : Readings) (n : Node) (p : Packet) (payload : List ℕ)
    (l l' final_line : Line) (rest : List Poll) (reply : Final) (after : List ℕ)
    → n.send_next_at < millis n.device
    → n.device.pending_bytes ≡ length payload
    → Arrives p payload l l' (in_front final_line rest) n.device
    → length payload < 256
    → length locals.content ≡ length payload
    → IsText payload
    → cstr p.ip ≡ server
    → length payload + 2 ≤ length n.eeprom
    → length (datagram (renewed payload l l' (in_front final_line rest) n).device (packet r))
      < 2 ^ 15
    → IsReadable final_line
    → cstr final_line.text ≡ text_of reply ++ after
    → loop locals r n
      ≡ some (sent_off r final_line rest (renewed payload l l' (in_front final_line rest) n))
unfolding loop
loop-renewed-Final locals r n p payload l l' final_line rest reply after due pending h small array t
      from room short hl final =
    let e : ltb n.send_next_at (millis n.device) ≡ true = ground arith in
    let taken =
      receive_password-renewed locals n p payload l l' (in_front final_line rest) pending h small
        array t from room in
    rw (e, taken)
      (send_readings-Final r (renewed payload l l' (in_front final_line rest) n) final_line rest
        reply after short hl final refl)
