-- ===== src/Modem/Udp/Receive.antt =====
-- What the receiving operations give and change.
use sag_c8y_nb_iot_demo.Base.{
  ℕ, ◌*◌, ◌≤◌, ◌<◌, ◌≡◌, refl, sym, ap, ◌∙◌, Bool, true, false, not, All, Option, none, some, List,
  [], append-nil, length, leb, ltb, if◌then◌else◌, arith,
}
use sag_c8y_nb_iot_demo.Device.{Device, pure}
use sag_c8y_nb_iot_demo.Device.Steps.{bind-some}
use sag_c8y_nb_iot_demo.Modem.Hex.{hex_text, unhex}
use sag_c8y_nb_iot_demo.Modem.Hex.RoundTrip.{IsByte, unhex-hex_text}
use sag_c8y_nb_iot_demo.Modem.Parsers.{Packet, Received}
use sag_c8y_nb_iot_demo.Modem.Udp.{
  max_udp_buffer, min, fetch, socket_receive, rounds_of, stays_in, decode_received,
  socket_receive_bytes,
}

receive_choice :
    (b : Bool) (size : ℕ) (received : Received) (d : Device)
    → (b ≡ false
        → (if not b then pure (0, received) else fetch size received) d ≡ some ((0, received), d))
      × (b ≡ true
          → (if not b then pure (0, received) else fetch size received) d ≡ fetch size received d)
receive_choice b size received d = ((λ h. rw h), (λ h. rw h))

decode_choice :
    (b : Bool) (size : ℕ) (received : Received) (d : Device)
    → Path
        (Option ((ℕ × Packet × List ℕ) × Device))
        (if b
          then if stays_in size 0
            then some ((0, received.0, unhex (rounds_of 0) received.1), d)
            else none
          else some ((0, received.0, []), d))
        (some ((0, received.0, []), d))
unfolding unhex stays_in
decode_choice true size received d = let inside : leb 0 size ≡ true = ground arith in rw inside refl
decode_choice false size received d = refl

-- With nothing pending, no command is sent and nothing changes: the size is 0 and no byte is
-- written.
pub socket_receive_bytes-nothing :
    (size : ℕ) (received : Received) (d : Device)
    → d.pending_bytes ≡ 0
    → socket_receive_bytes size received d ≡ some ((0, received.0, []), d)
unfolding socket_receive_bytes socket_receive decode_received unhex
socket_receive_bytes-nothing size received d h =
    let e : ltb 0 d.pending_bytes ≡ false = ground arith in
    bind-some (socket_receive (min size (min max_udp_buffer d.pending_bytes)) received)
      (decode_received size) d d (0, received)
      ((receive_choice (ltb 0 d.pending_bytes) _ received d).0 e)
    ∙ decode_choice (ltb 0 size) size received d

-- With bytes pending and room for some, the request is for the smallest of the room, the 256 bytes
-- of the driver's buffer and what is pending. If the modem answers it with a payload in hexadecimal
-- and its length, and the payload fits the caller's buffer and, in hexadecimal, the driver's, the
-- caller gets the payload's bytes, all of them and in their order.
pub socket_receive_bytes-hex_text :
    (size : ℕ) (received : Received) (d d' : Device) (p : Packet) (payload : List ℕ)
    → 0 < size
    → 0 < d.pending_bytes
    → All IsByte payload
    → length payload ≤ size
    → 2 * length payload ≤ 256
    → fetch (min size (min max_udp_buffer d.pending_bytes)) received d
      ≡ some ((length payload, (p, hex_text payload)), d')
    → socket_receive_bytes size received d ≡ some ((length payload, p, payload), d')
unfolding socket_receive_bytes socket_receive decode_received
socket_receive_bytes-hex_text size received d d' p payload hs hp hb held hl answer =
    let e : ltb 0 d.pending_bytes ≡ true = ground arith in
    let f : ltb 0 size ≡ true = ground arith in
    bind-some (socket_receive (min size (min max_udp_buffer d.pending_bytes)) received)
      (decode_received size) d d' (length payload, (p, hex_text payload))
      ((receive_choice (ltb 0 d.pending_bytes) _ received d).1 e ∙ answer)
    ∙ rw (f, in_bounds) (λ i. some ((length payload, p, bytes i), d'))
  where
    rounds : rounds_of (length payload) ≡ length payload
    rounds = omega arith

    in_bounds : stays_in size (length payload) ≡ true
    in_bounds = unfold stays_in in rw rounds (ground arith)

    bytes : unhex (rounds_of (length payload)) (hex_text payload) ≡ payload
    bytes = rw rounds (
        ap (unhex (length payload)) (sym (append-nil (hex_text payload)))
        ∙ unhex-hex_text payload [] hb)
