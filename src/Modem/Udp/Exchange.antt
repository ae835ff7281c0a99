-- ===== src/Modem/Udp/Exchange.antt =====
-- A datagram's whole way in: the request, the modem's answer and final reply, and the bytes.
use sag_c8y_nb_iot_demo.Base.{
  ℕ, ◌+◌, ◌-◌, ◌*◌, ◌%◌, ◌^◌, ◌≤◌, ◌<◌, ◌≡◌, ◌≢◌, refl, ap, ◌∙◌, false, All, Option, some, List, [],
  ◌∷◌, ◌++◌, length, length-append, ◌/◌, codes, cstr, if◌then◌else◌, arith,
}
use sag_c8y_nb_iot_demo.Device.{Device, Poll, ◌>>=◌}
use sag_c8y_nb_iot_demo.Device.Print.{print, println, print_cr, write_prolog, decimal, decimal_int}
use sag_c8y_nb_iot_demo.Device.Print.Decimal.{Digit, decimal-Digit}
use sag_c8y_nb_iot_demo.Device.Steps.{bind-some, Line, took, in_front}
use sag_c8y_nb_iot_demo.Modem.Commands.{default_read_ms}
use sag_c8y_nb_iot_demo.Modem.Hex.{nibble_to_hex_char, hex_text}
use sag_c8y_nb_iot_demo.Modem.Hex.RoundTrip.{IsByte, length-hex_text}
use sag_c8y_nb_iot_demo.Modem.Parsers.{Packet, Received, udp_read_socket_parser}
use sag_c8y_nb_iot_demo.Modem.Parsers.Fields.{
  nsorf_line, IsPacket, IsQuoted, udp_read_socket_parser-nsorf_line,
}
use sag_c8y_nb_iot_demo.Modem.Response.{ok, not_found, read_response}
use sag_c8y_nb_iot_demo.Modem.Response.Answers.{Digit-IsAnswer}
use sag_c8y_nb_iot_demo.Modem.Response.Dialogue.{IsReadable, replied, read_response-IsAnswer}
use sag_c8y_nb_iot_demo.Modem.Response.Reports.{ok_reply}
use sag_c8y_nb_iot_demo.Modem.Send.Wire.{joined, printed-joined, written}
use sag_c8y_nb_iot_demo.Modem.Udp.{
  max_udp_buffer, min, finish_receive, request_receive, fetch, socket_receive_bytes,
}
use sag_c8y_nb_iot_demo.Modem.Udp.Receive.{socket_receive_bytes-hex_text}

-- The request for bytes of the socket that reported some.
abbrev pub request : Device → ℕ → List ℕ
request d size = joined (
    (if d.is_sara_r4 then codes "AT+USORF=" else codes "AT+NSORF=")
    ∷ decimal_int d.received_socket
    ∷ (b',' ∷ [])
    ∷ decimal (min size d.pending_bytes)
    ∷ (b'\r' ∷ [])
    ∷ [])

request_receive-request :
    (size : ℕ) (d : Device) → request_receive size d ≡ some (tt, written d (request d size))
unfolding request_receive print println print_cr write_prolog
request_receive-request size d =
    ap {B = Option (Unit {0} × Device)}
      (λ o. some (tt, record d { output = o; append_command = false }))
      (printed-joined d.output (
        (if d.is_sara_r4 then codes "AT+USORF=" else codes "AT+NSORF=")
        ∷ decimal_int d.received_socket
        ∷ (b',' ∷ [])
        ∷ decimal (min size d.pending_bytes)
        ∷ (b'\r' ∷ [])
        ∷ []))

digit_unquoted : (i : ℕ) → nibble_to_hex_char i ≢ b'"'
unfolding nibble_to_hex_char
digit_unquoted i = ground arith

-- The characters of a payload in hexadecimal are no quotes.
hex_text-unquoted : (s : List ℕ) → All (λ c. c ≢ b'"') (hex_text s)
unfolding hex_text
hex_text-unquoted [] = tt
hex_text-unquoted (b ∷ s) =
    (digit_unquoted (b / 16 % 16), (digit_unquoted (b % 16), hex_text-unquoted s))

hex_text-IsQuoted : (s : List ℕ) → 0 < length s → IsQuoted (hex_text s)
unfolding hex_text
hex_text-IsQuoted [] h = absurd (omega arith)
hex_text-IsQuoted (b ∷ s) h = record {
  first = _;
  others = _;
  shape = refl;
  unquoted = hex_text-unquoted (b ∷ s);
}

length-cstr : (s : List ℕ) → length (cstr s) ≤ length s
length-cstr [] = omega arith
length-cstr (c ∷ s) = ground (arith, length-cstr s)

-- The answer has more than one character.
nsorf_line-long :
    (s : List ℕ) (p : Packet) (content : List ℕ) → cstr s ≡ nsorf_line p content → 1 < length s
nsorf_line-long s p content shape =
    omega (arith, length-cstr s, ap length shape, length-append (decimal p.socket_id) _)

nsorf_line-Digit :
    (s : List ℕ) (p : Packet) (content : List ℕ) → cstr s ≡ nsorf_line p content → Digit (cstr s)
nsorf_line-Digit s p content shape = rw shape (decimal-Digit p.socket_id _)

-- The device once the datagram of `count` bytes is in.
abbrev pub emptied : ℕ → ℕ → Line → Line → List Poll → Device → Device
emptied count size l l' rest d =
    record (replied (written d (request d size)) (took l + 10 + took l') rest) {
      pending_bytes = d.pending_bytes - count;
    }

fetch-Answer :
    (size : ℕ) (received : Received) (p : Packet) (content : List ℕ) (l l' : Line)
    (rest : List Poll) (after : List ℕ) (d : Device)
    → p.length ≤ d.pending_bytes
    → d.pending_bytes < 2 ^ 16
    → IsPacket p
    → IsQuoted content
    → length content < 256
    → IsReadable l
    → IsReadable l'
    → cstr l.text ≡ nsorf_line p content
    → cstr l'.text ≡ codes "OK" ++ after
    → d.input ≡ in_front l (in_front l' rest)
    → took l + 10 ≤ 5000
    → fetch size received d ≡ some ((p.length, (p, content)), emptied p.length size l l' rest d)
unfolding fetch finish_receive
fetch-Answer size received p content l l' rest after d room small hp hq fit hl hl' answer final
      shape early =
    bind-some (request_receive size)
      (λ _. read_response (some udp_read_socket_parser) received default_read_ms >>= finish_receive)
      d asked tt (request_receive-request size d)
    ∙ bind-some (read_response (some udp_read_socket_parser) received default_read_ms)
        finish_receive asked (replied asked (took l + 10 + took l') rest) (ok, (p, content))
        (read_response-IsAnswer udp_read_socket_parser received (p, content) default_read_ms l l'
          rest ok_reply after asked hl hl'
          (Digit-IsAnswer l.text (nsorf_line-Digit l.text p content answer))
          (udp_read_socket_parser-nsorf_line not_found l.text (length l.text) received p content
            (nsorf_line-long l.text p content answer) hp hq fit answer)
          final shape early (omega arith))
    ∙ λ i. some (
      (p.length, (p, content)),
      record (replied asked (took l + 10 + took l') rest) { pending_bytes = left i },
    )
  where
    asked : Device
    asked = written d (request d size)

    left : (d.pending_bytes + 2 ^ 16 - p.length) % 2 ^ 16 ≡ d.pending_bytes - p.length
    left = omega arith

-- The modem holds the datagram with the fields `p` and this payload, which is not longer than what
-- is pending, and answers within five seconds: the line `l` has the fields, the payload in
-- hexadecimal and its length, and the line `l'` is OK; then `rest` comes. The whole line `l` fits the
-- driver's line buffer of 250 bytes, which leaves room for payloads of some 105 bytes, depending on
-- the other fields: a longer one is lost in the code.
pub record Arrives (p : Packet) (payload : List ℕ) (l l' : Line) (rest : List Poll) (d : Device)
    : Type 0 where
  pub bytes : All IsByte payload
  pub filled : 0 < length payload
  pub short : 2 * length payload < 256
  pub fields : IsPacket p
  pub counted : p.length ≡ length payload
  pub pending : length payload ≤ d.pending_bytes
  pub in_int : d.pending_bytes < 2 ^ 16
  pub answer_line : IsReadable l
  pub final_line : IsReadable l'
  pub answer : cstr l.text ≡ nsorf_line p (hex_text payload)
  pub after : List ℕ
  pub final : cstr l'.text ≡ codes "OK" ++ after
  pub input : d.input ≡ in_front l (in_front l' rest)
  pub early : took l + 10 ≤ 5000

-- A datagram comes in whole: the request goes out for the smallest of the room, the 256 bytes of the
-- driver's buffer and what is pending, and if the modem answers it with a datagram that the caller
-- has room for, within five seconds, with fields in their ranges (an address of at most 15
-- characters), and on a line that fits the driver's line buffer of 250 bytes with its end, which
-- payloads of up to some 105 bytes do, then the caller gets the payload's bytes, all of them and in
-- their order, and the fields; just the two lines of the answer are taken off, and the pending bytes
-- are fewer by the payload's.
pub socket_receive_bytes-Arrives :
    (size : ℕ) (received : Received) (p : Packet) (payload : List ℕ) (l l' : Line)
    (rest : List Poll) (d : Device)
    → length payload ≤ size
    → Arrives p payload l l' rest d
    → socket_receive_bytes size received d
      ≡ some (
        (length payload, p, payload),
        emptied (length payload) (min size (min max_udp_buffer d.pending_bytes)) l l' rest d,
      )
socket_receive_bytes-Arrives size received p payload l l' rest d hs h =
    socket_receive_bytes-hex_text size received d _ p payload (omega (arith, h.filled))
      (omega (arith, h.filled, h.pending)) h.bytes hs (omega (arith, h.short))
      (fetch-Answer room received p (hex_text payload) l l' rest h.after d (rw h.counted h.pending)
          h.in_int h.fields (hex_text-IsQuoted payload h.filled) in_buffer h.answer_line
          h.final_line h.answer h.final h.input h.early
        ∙ λ i. some ((h.counted i, (p, hex_text payload)), emptied (h.counted i) room l l' rest d))
  where
    in_buffer : length (hex_text payload) < 256
    in_buffer = omega (arith, length-hex_text payload, h.short)

    room : ℕ
    room = min size (min max_udp_buffer d.pending_bytes)
