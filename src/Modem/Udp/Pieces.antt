-- ===== src/Modem/Udp/Pieces.antt =====
-- Bytes that the modem holds, read in pieces: the calls together refine the reading of a stream.
use sag_c8y_nb_iot_demo.Base.{
  ℕ, zero, suc, ◌≤◌, ◌<◌, ◌≡◌, refl, ap, ◌∙◌, some, List, [], ◌∷◌, ◌++◌, arith, append_assoc,
  length, length-take, take, drop,
}
use sag_c8y_nb_iot_demo.Device.{Device, Poll, M, pure, ◌>>=◌}
use sag_c8y_nb_iot_demo.Device.Steps.{bind-some, Line}
use sag_c8y_nb_iot_demo.Modem.Parsers.{Packet, Received}
use sag_c8y_nb_iot_demo.Modem.Udp.{max_udp_buffer, min, socket_receive_bytes}
use sag_c8y_nb_iot_demo.Modem.Udp.Exchange.{Arrives, emptied, socket_receive_bytes-Arrives}

-- How many bytes a call for `size` asks the modem for, when it holds `held`.
abbrev pub piece : ℕ → List ℕ → ℕ
piece size held = min size (min max_udp_buffer (length held))

-- The stream: what calls of these sizes take from its front, and what they leave.
abbrev pub streamed : List ℕ → List ℕ → List ℕ × List ℕ
streamed [] held = ([], held)
streamed (size ∷ sizes) held =
    let (bytes, left) = streamed sizes (drop (piece size held) held) in
    (take (piece size held) held ++ bytes, left)

-- A caller that reads with these sizes, one after the other, and keeps the bytes.
unfoldable pub receive_all : Received → List ℕ → M (List ℕ)
receive_all received [] = pure []
receive_all received (size ∷ sizes) = socket_receive_bytes size received >>= λ r.
    receive_all received sizes >>= λ bytes. pure (r.2 ++ bytes)

-- The modem holds the bytes, all of which are pending, and hands out at each call what it is asked
-- for.
pub data HandsOut : List ℕ → List ℕ → Device → Device → Type 0 where
  no_call : (held : List ℕ) (d : Device) → d.pending_bytes ≡ length held → HandsOut [] held d d
  one_call :
      (size : ℕ) (sizes held : List ℕ) (p : Packet) (l l' : Line) (rest : List Poll) (d d' : Device)
      → 0 < size
      → d.pending_bytes ≡ length held
      → Arrives p (take (piece size held) held) l l' rest d
      → HandsOut sizes
          (drop (piece size held) held)
          (emptied (length (take (piece size held) held)) (piece size held) l l' rest d)
          d'
      → HandsOut (size ∷ sizes) held d d'

take-append-drop : (k : ℕ) (s : List ℕ) → take k s ++ drop k s ≡ s
take-append-drop zero s = refl
take-append-drop (suc k) [] = refl
take-append-drop (suc k) (c ∷ s) = ap (λ t. c ∷ t) (take-append-drop k s)

-- A call does not ask for more than its room.
fits : (size : ℕ) (held : List ℕ) → length (take (piece size held) held) ≤ size
fits size held = ground (arith, length-take (piece size held) held (ground arith))

-- Nothing is lost and nothing repeated.
streamed-whole : (sizes held : List ℕ) → (streamed sizes held).0 ++ (streamed sizes held).1 ≡ held
streamed-whole [] held = refl
streamed-whole (size ∷ sizes) held =
    append_assoc (take (piece size held) held) _ _
    ∙ ap (λ t. take (piece size held) held ++ t)
        (streamed-whole sizes (drop (piece size held) held))
    ∙ take-append-drop (piece size held) held

receive_all-streamed :
    (received : Received) (sizes held : List ℕ) (d d' : Device)
    → HandsOut sizes held d d'
    → (receive_all received sizes d ≡ some ((streamed sizes held).0, d'))
      × (d'.pending_bytes ≡ length (streamed sizes held).1)
unfolding receive_all
receive_all-streamed received _ _ _ _ (no_call held d pending) = (refl, pending)
receive_all-streamed received _ _ _ _
      (one_call size sizes held p l l' rest d d' hs pending h more) =
    let asked = emptied (length (take (piece size held) held)) (piece size held) l l' rest d in
    let (others, left) =
      receive_all-streamed received sizes (drop (piece size held) held) asked d' more in
    (
      bind-some (socket_receive_bytes size received) _ d asked
            (length (take (piece size held) held), p, take (piece size held) held)
            (socket_receive_bytes-Arrives size received p (take (piece size held) held) l l' rest d
                (fits size held) h
              ∙ λ i. some (
                (length (take (piece size held) held), p, take (piece size held) held),
                emptied (length (take (piece size held) held))
                    (min size (min max_udp_buffer (pending i))) l l' rest d,
              ))
          ∙ bind-some (receive_all received sizes) _ asked d'
              (streamed sizes (drop (piece size held) held)).0 others,
      left,
    )

-- What the modem holds can be read in pieces, each short enough for its answer to fit the driver's
-- line buffer of 250 bytes (some 105 bytes): while it hands out at each call as many
-- of its first bytes as it is asked for, the smallest of the room, the driver's buffer and what is
-- pending, the calls together give the front of what it held, in order, and what is pending behind
-- them is the rest; nothing is lost or repeated. Each call has room for some bytes, and the modem
-- answers as `socket_receive_bytes-Arrives` asks for it, with a line that fits the line buffer.
pub receive_all-HandsOut :
    (received : Received) (sizes held : List ℕ) (d d' : Device)
    → HandsOut sizes held d d'
    → (receive_all received sizes d ≡ some ((streamed sizes held).0, d'))
      × (d'.pending_bytes ≡ length (streamed sizes held).1)
      × ((streamed sizes held).0 ++ (streamed sizes held).1 ≡ held)
receive_all-HandsOut received sizes held d d' h =
    let (result, left) = receive_all-streamed received sizes held d d' h in
    (result, left, streamed-whole sizes held)
