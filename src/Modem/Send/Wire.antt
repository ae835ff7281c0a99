-- ===== src/Modem/Send/Wire.antt =====
-- The AT+NSOST command that the sending operations write, character by character.
use sag_c8y_nb_iot_demo.Base.{
  ℕ, zero, suc, ◌+◌, ◌^◌, ◌≤◌, ◌<◌, ◌≡◌, sym, ap, ◌∙◌, Bool, true, false, All, length-append,
  Option, some, List, [], ◌∷◌, ◌++◌, append_assoc, append-nil, length, length-take, take, ltb,
  codes, arith,
}
use sag_c8y_nb_iot_demo.Base.Words.{wrap16, is_neg16}
use sag_c8y_nb_iot_demo.Device.{Device}
use sag_c8y_nb_iot_demo.Device.Print.{write_prolog, print, print_cr, println, decimal, decimal_int}
use sag_c8y_nb_iot_demo.Modem.Commands.{succeeds, default_read_ms}
use sag_c8y_nb_iot_demo.Modem.Hex.{hex_text, hex_payload}
use sag_c8y_nb_iot_demo.Modem.Hex.RoundTrip.{IsByte, hex_payload-hex_text, hex_text-append}
use sag_c8y_nb_iot_demo.Modem.Send.{
  json_message, send_buffer, Message, value_text, send_message, credentials, credentials_length,
  print_header, send_payload, send_cbor, print_loop,
}
use sag_c8y_nb_iot_demo.Modem.Send.Overrun.{cbor_loop-hex_payload}

abbrev pub joined : List (List ℕ) → List ℕ
joined [] = []
joined (s ∷ ss) = s ++ joined ss

abbrev pub printed : List ℕ → List (List ℕ) → List ℕ
printed out [] = out
printed out (s ∷ ss) = printed (out ++ s) ss

pub printed-joined : (out : List ℕ) (ss : List (List ℕ)) → printed out ss ≡ out ++ joined ss
printed-joined out [] = sym (append-nil out)
printed-joined out (s ∷ ss) = printed-joined (out ++ s) ss ∙ append_assoc out s (joined ss)

-- The device after a command line went out.
abbrev pub written : Device → List ℕ → Device
written d line = record d { output = d.output ++ line; append_command = false }

-- The command up to the bytes, and behind them.
abbrev opening : Device → List ℕ → List (List ℕ) → List (List ℕ)
opening d number rest =
    codes "AT+NSOST=0,\"" ∷ d.udp ∷ codes "\"," ∷ d.port ∷ codes "," ∷ number ∷ codes ",\"" ∷ rest

abbrev closing : List (List ℕ)
closing = codes "\"" ∷ (b'\r' ∷ []) ∷ []

-- The command for a datagram: the address, the number of bytes, and the bytes in hexadecimal.
abbrev pub nsost : Device → List ℕ → List ℕ
nsost d datagram = joined (opening d (decimal (length datagram)) (hex_text datagram ∷ closing))

abbrev line : Device → List ℕ → List ℕ → List ℕ
line d number rest =
    codes "AT+NSOST=0,\""
    ++ (d.udp ++ (codes "\"," ++ (d.port ++ (codes "," ++ (number ++ (codes ",\"" ++ rest))))))

-- What follows once a line is out.
abbrev answered : Device → List ℕ → Option (Bool × Device)
answered d out = succeeds default_read_ms (record d { output = out; append_command = false })

-- A buffer of up to 512 bytes goes out as one command that announces its length, and the result is
-- whether OK came back.
pub send_buffer-nsost :
    (d : Device) (buffer : List ℕ)
    → length buffer ≤ 512
    → send_buffer buffer d ≡ succeeds default_read_ms (written d (nsost d buffer))
unfolding send_buffer print println print_cr write_prolog
send_buffer-nsost d buffer h =
    let e : ltb 512 (length buffer) ≡ false = ground arith in
    rw e (
      ap (answered d)
        (printed-joined d.output (opening d (decimal (length buffer)) (hex_text buffer ∷ closing))))

-- A longer one is refused, and nothing is written.
pub send_buffer-refused :
    (d : Device) (buffer : List ℕ) → 512 < length buffer → send_buffer buffer d ≡ some (false, d)
unfolding send_buffer
send_buffer-refused d buffer h = let e : ltb 512 (length buffer) ≡ true = ground arith in rw e

All-take : (n : ℕ) (s : List ℕ) → All IsByte s → All IsByte (take n s)
All-take zero s h = tt
All-take (suc n) [] h = tt
All-take (suc n) (c ∷ s) (hc, hs) = (hc, All-take n s hs)

-- What the modem is to send: the device's id and token, a line each, and then the packet.
abbrev pub datagram : Device → List ℕ → List ℕ
datagram d packet = credentials d ++ packet

pub length-credentials :
    (d : Device) → length (credentials d) ≡ length d.device_id + length d.device_token + 2
unfolding credentials
length-credentials d = omega (
  arith,
  length-append d.device_id (b'\n' ∷ d.device_token ++ (b'\n' ∷ [])),
  length-append d.device_token (b'\n' ∷ []),
)

announced :
    (d : Device) (packet : List ℕ)
    → length (datagram d packet) < 2 ^ 16
    → wrap16 (credentials_length d + length packet) ≡ length (datagram d packet)
unfolding credentials_length
announced d packet h =
    let e = length-append (credentials d) packet in omega (arith, e, length-credentials d)

decimal_int-decimal : (n : ℕ) → n < 2 ^ 15 → decimal_int n ≡ decimal n
unfolding decimal_int
decimal_int-decimal n h = let e : is_neg16 n ≡ false = ground arith in rw e

-- The two halves of the text, each by its own loop, are the text of the whole.
halves :
    (d : Device) (packet : List ℕ)
    → All IsByte packet
    → joined (hex_text (credentials d) ∷ hex_payload packet ∷ closing)
      ≡ joined (hex_text (datagram d packet) ∷ closing)
halves d packet h =
    rw (hex_payload-hex_text packet h, hex_text-append (credentials d) packet)
      (sym (append_assoc (hex_text (credentials d)) (hex_text packet) (joined closing)))

-- A binary payload goes out as the one command for the credentials and the packet: the number that
-- it announces is that of all the bytes, and its text is the bytes in hexadecimal, although two
-- loops write it in two ways. Then the result is whether OK came back.
-- The packet is of bytes, and all the bytes are fewer than 2 ^ 15.
pub send_payload-nsost :
    (d : Device) (packet : List ℕ)
    → All IsByte packet
    → length (datagram d packet) < 2 ^ 15
    → send_payload packet d ≡ succeeds default_read_ms (written d (nsost d (datagram d packet)))
unfolding send_payload print_header print println print_cr write_prolog
send_payload-nsost d packet hb hl = ap (answered d) (
    printed-joined d.output (
      opening d (decimal_int (wrap16 (credentials_length d + length packet)))
        (hex_text (credentials d) ∷ hex_payload packet ∷ closing))
    ∙ λ i. d.output ++ line d (number i) (halves d packet hb i))
  where
    number :
        decimal_int (wrap16 (credentials_length d + length packet))
        ≡ decimal (length (datagram d packet))
    number =
        ap decimal_int (announced d packet (omega arith))
        ∙ decimal_int-decimal (length (datagram d packet)) hl

shorter :
    (d : Device) (content : List ℕ) (size : ℕ)
    → size ≤ length content
    → length (datagram d content) < 2 ^ 16
    → length (datagram d (take size content)) < 2 ^ 16
shorter d content size hc hl = omega (
  arith,
  length-append (credentials d) (take size content),
  length-append (credentials d) content,
  length-take size content hc,
)

-- A CBOR payload of up to 255 bytes goes out in the same form: one command for the credentials and
-- the bytes up to the size, with the number of them all. The content is of bytes, has at least the
-- size, and with the credentials is shorter than 2 ^ 16.
pub send_cbor-nsost :
    (d : Device) (content : List ℕ) (size : ℕ)
    → All IsByte content
    → size ≤ length content
    → length (datagram d content) < 2 ^ 16
    → size < 256
    → send_cbor content size d
      ≡ succeeds default_read_ms (written d (nsost d (datagram d (take size content))))
unfolding send_cbor print_header print_loop print println print_cr write_prolog
send_cbor-nsost d content size hb hc hl small =
    rw (cbor_loop-hex_payload 257 size content small hc (omega arith)) (
      ap (answered d) (
        printed-joined d.output (
          opening d (decimal (wrap16 (credentials_length d + size)))
            (hex_text (credentials d) ∷ hex_payload (take size content) ∷ closing))
        ∙ λ i.
            d.output
            ++ line d (number i) (halves d (take size content) (All-take size content hb) i)))
  where
    number :
        decimal (wrap16 (credentials_length d + size))
        ≡ decimal (length (datagram d (take size content)))
    number =
        rw (length-take size content hc) at
          (ap decimal (announced d (take size content) (shorter d content size hc hl)))

-- The JSON value that stands for what is sent: a number's digits, `true` or `false`, a quoted text. A
-- text with a quote in it is not escaped.
pub data Literal : Message → List ℕ → Type 0 where
  of_integer : (w : ℕ) → Literal (Message.integer w) (decimal_int w)
  of_number : (digits : List ℕ) → Literal (Message.number digits) digits
  of_true : Literal (Message.boolean true) (codes "true")
  of_false : Literal (Message.boolean false) (codes "false")
  of_chars : (s : List ℕ) → Literal (Message.chars s) (codes "\"" ++ (s ++ codes "\""))

-- Three lines: the id, the token, and `{"ASSET":{"value":VALUE}}`.
abbrev pub json_object : Device → List ℕ → List ℕ → List ℕ
json_object d asset value = joined (
    d.device_id
    ∷ codes "\n"
    ∷ d.device_token
    ∷ codes "\n"
    ∷ codes "{\""
    ∷ asset
    ∷ codes "\":{\"value\":"
    ∷ value
    ∷ codes "}}"
    ∷ [])

-- Each `sendMessage` of a value, whose text has up to 512 bytes, sends three lines in one datagram:
-- the id, the token, and the object `{"ASSET":{"value":VALUE}}`, where VALUE is the integer's digits,
-- the number's text, `true` or `false`, or the text in quotes.
pub send_message_lem :
    (d : Device) (m : Message) (asset value : List ℕ)
    → Literal m value
    → length (json_object d asset value) ≤ 512
    → send_message m asset d
      ≡ succeeds default_read_ms (written d (nsost d (json_object d asset value)))
unfolding send_message json_message value_text
send_message_lem d _ asset _ (of_integer w) h =
    send_buffer-nsost d (json_object d asset (decimal_int w)) h
send_message_lem d _ asset _ (of_number s) h = send_buffer-nsost d (json_object d asset s) h
send_message_lem d _ asset _ of_true h = send_buffer-nsost d (json_object d asset (codes "true")) h
send_message_lem d _ asset _ of_false h =
    send_buffer-nsost d (json_object d asset (codes "false")) h
send_message_lem d _ asset _ (of_chars s) h =
    send_buffer-nsost d (json_object d asset (codes "\"" ++ (s ++ codes "\""))) h
