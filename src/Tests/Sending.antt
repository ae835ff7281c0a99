-- ===== src/Tests/Sending.antt =====
-- The theorems on the commands that carry payloads, at concrete payloads.
use sag_c8y_nb_iot_demo.Base.{
  ℕ, ◌≤◌, ◌<◌, ◌^◌, ◌≡◌, true, none, List, [], ◌∷◌, codes, take, length, arith, All,
}
use sag_c8y_nb_iot_demo.Modem.Commands.{succeeds, default_read_ms}
use sag_c8y_nb_iot_demo.Modem.Hex.{hex_text, hex_payload}
use sag_c8y_nb_iot_demo.Modem.Hex.RoundTrip.{IsByte, hex_payload-hex_text}
use sag_c8y_nb_iot_demo.Modem.Send.{
  boolean, send_message, credentials, send_payload, cbor_loop, send_cbor,
}
use sag_c8y_nb_iot_demo.Modem.Send.Overrun.{cbor_loop-endless}
use sag_c8y_nb_iot_demo.Modem.Send.Wire.{
  written, nsost, datagram, send_payload-nsost, send_cbor-nsost, json_object, of_true,
  send_message_lem,
}
use sag_c8y_nb_iot_demo.Tests.{board}

abbrev payload : List ℕ
payload = 0 ∷ 200 ∷ 10 ∷ 255 ∷ []

datagram_is_short : length (datagram board payload) < 2 ^ 15
unfolding credentials
datagram_is_short = omega arith

message_is_short : length (json_object board (codes "lamp") (codes "true")) ≤ 512
message_is_short = omega arith

payload-IsByte : All IsByte payload
payload-IsByte = (omega arith, (omega arith, (omega arith, (omega arith, tt))))

send_payload-nsost_example :
    send_payload payload board
    ≡ succeeds default_read_ms (written board (nsost board (datagram board payload)))
send_payload-nsost_example = send_payload-nsost board payload payload-IsByte datagram_is_short

send_cbor-nsost_example :
    send_cbor payload 3 board
    ≡ succeeds default_read_ms (written board (nsost board (datagram board (take 3 payload))))
send_cbor-nsost_example =
    send_cbor-nsost board payload 3 payload-IsByte (omega arith) (omega (arith, datagram_is_short))
      (omega arith)

cbor_loop-endless_example : cbor_loop 1000 0 256 payload ≡ none
cbor_loop-endless_example = cbor_loop-endless 1000 0 256 payload (omega arith) (omega arith)

send_message_lem_example :
    send_message (boolean true) (codes "lamp") board
    ≡ succeeds default_read_ms
        (written board (nsost board (json_object board (codes "lamp") (codes "true"))))
send_message_lem_example =
    send_message_lem board (boolean true) (codes "lamp") (codes "true") of_true message_is_short

hex_payload-hex_text_example : hex_payload payload ≡ hex_text payload
hex_payload-hex_text_example = hex_payload-hex_text payload payload-IsByte
