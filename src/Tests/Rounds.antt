-- ===== src/Tests/Rounds.antt =====
-- The theorems on whole exchanges and rounds, with a modem that answers.
use sag_c8y_nb_iot_demo.Base.{
  ℕ, ◌+◌, ◌≡◌, ◌<◌, ◌^◌, refl, some, List, [], ◌∷◌, ◌++◌, codes, length, arith,
}
use sag_c8y_nb_iot_demo.Base.Loop.{Returns}
use sag_c8y_nb_iot_demo.Base.Words.{wrap32}
use sag_c8y_nb_iot_demo.Device.{Device, millis}
use sag_c8y_nb_iot_demo.Device.Sent.{said}
use sag_c8y_nb_iot_demo.Device.Steps.{Timed, Line, in_front}
use sag_c8y_nb_iot_demo.Device.Print.{decimal}
use sag_c8y_nb_iot_demo.Modem.Connect.{connect}
use sag_c8y_nb_iot_demo.Modem.Connect.Script.{connect_steps, connect-follows}
use sag_c8y_nb_iot_demo.Modem.Connect.Steps.{follows}
use sag_c8y_nb_iot_demo.Modem.Hex.{hex_text}
use sag_c8y_nb_iot_demo.Modem.Parsers.Fields.{IsQuoted}
use sag_c8y_nb_iot_demo.Modem.Response.Dialogue.{IsReadable, replied}
use sag_c8y_nb_iot_demo.Modem.Response.Reports.{ok_reply}
use sag_c8y_nb_iot_demo.Modem.Send.{credentials}
use sag_c8y_nb_iot_demo.Modem.Send.Wire.{written, nsost, datagram}
use sag_c8y_nb_iot_demo.Modem.Udp.{socket_receive_bytes}
use sag_c8y_nb_iot_demo.Modem.Udp.Exchange.{Arrives, emptied, socket_receive_bytes-Arrives}
use sag_c8y_nb_iot_demo.Node.{Locals, Node, packet, loop}
use sag_c8y_nb_iot_demo.Node.Downlink.{renewed, loop-renewed}
use sag_c8y_nb_iot_demo.Node.Rounds.{Sends, later, loop-Final, loop-interval, loop-burst}
use sag_c8y_nb_iot_demo.Node.Storage.{IsText}
use sag_c8y_nb_iot_demo.Tests.{board, sketch, stray, token, downlink, unfilled, readings}

connect-follows_example :
    Returns
      (λ p.
        follows
          (connect_steps stray)
          p.0
          (said (record board { udp = codes "10.0.0.1"; port = codes "8888" }))
          (said p.1))
      (connect stray (codes "10.0.0.1") (codes "8888") board)
connect-follows_example = connect-follows stray (codes "10.0.0.1") (codes "8888") board

-- A character each millisecond.
abbrev pub timed : List ℕ → Timed
timed [] = []
timed (c ∷ s) = (c, 1) ∷ timed s

abbrev pub sent : List ℕ → Line
sent s = record { text = s; chars = timed (s ++ (b'\r' ∷ [])); last = 1 }

abbrev pub ok_line : Line
ok_line = sent (codes "OK")

pub ok_line-IsReadable : IsReadable ok_line
ok_line-IsReadable = record {
  sent = record { shape = refl; one_line = ground arith };
  filled = omega arith;
  fits = omega arith;
}

abbrev pub locals : Locals
locals = record { received = (unfilled, []); content = codes "............" }

-- A sketch soon after its start, and one shortly before the clock wraps around.
abbrev early : Node
early = record sketch { device = record board { clock = 20000; input = in_front ok_line [] } }

abbrev late : Node
late = record early { device = record early.device { clock = 4294967000 } }

-- The sketch behind a round whose packet had the reply OK.
abbrev sent_by : Node → Node
sent_by n =
    let d =
      replied (written n.device (nsost n.device (datagram n.device (packet readings)))) 4 [] in
    record n { device = d; send_next_at = wrap32 (millis d + 10000) }

early-short : length (datagram early.device (packet readings)) < 2 ^ 15
unfolding credentials packet
early-short = omega arith

late-short : length (datagram late.device (packet readings)) < 2 ^ 15
unfolding credentials packet
late-short = omega arith

sent-short : length (datagram (sent_by late).device (packet readings)) < 2 ^ 15
unfolding credentials packet
sent-short = omega arith

early-sent_by : loop locals readings early ≡ some (sent_by early)
early-sent_by =
    loop-Final locals readings early ok_line [] ok_reply [] (omega arith) refl early-short
      ok_line-IsReadable refl refl

late-sent_by : loop locals readings late ≡ some (sent_by late)
late-sent_by =
    loop-Final locals readings late ok_line [] ok_reply [] (omega arith) refl late-short
      ok_line-IsReadable refl refl

loop-interval_example :
    loop locals readings (later 9999 (sent_by early)) ≡ some (later 9999 (sent_by early))
loop-interval_example =
    loop-interval locals readings early (sent_by early) locals readings 9999 (omega arith)
      early-sent_by (omega arith) (omega arith)

loop-burst_example :
    Returns
      (Sends readings (later 100 (sent_by late)))
      (loop locals readings (later 100 (sent_by late)))
loop-burst_example =
    loop-burst locals readings late (sent_by late) locals readings 100 (omega arith) late-sent_by
      (omega arith) (omega arith) refl sent-short

-- A registration's answer: a password and a Cumulocity id, 12 bytes.
abbrev pub answer_line : Line
answer_line = sent (codes "0,\"3.120.251.198\",8888,12,\"7333637265740A3130323137\",0")

answer_line-IsReadable : IsReadable answer_line
answer_line-IsReadable = record {
  sent = record { shape = refl; one_line = ground arith };
  filled = omega arith;
  fits = omega arith;
}

pub ip-IsQuoted : IsQuoted downlink.ip
ip-IsQuoted = record {
  first = b'3';
  others = codes ".120.251.198";
  shape = refl;
  unquoted = ground arith;
}

abbrev pub informed : Device
informed = record early.device {
  input = in_front answer_line (in_front ok_line (in_front ok_line []));
  pending_bytes = 12;
  device_token = [];
}

pub token-Arrives : Arrives downlink token answer_line ok_line (in_front ok_line []) informed
unfolding decimal hex_text
token-Arrives = record {
  bytes = ground arith;
  filled = omega arith;
  short = omega arith;
  fields = record {
    socket_id = omega arith;
    ip = ip-IsQuoted;
    ip_fits = omega arith;
    port = omega arith;
    length = omega arith;
    remaining_length = omega arith;
  };
  counted = refl;
  pending = omega arith;
  in_int = omega arith;
  answer_line = answer_line-IsReadable;
  final_line = ok_line-IsReadable;
  answer = refl;
  after = [];
  final = refl;
  input = refl;
  early = omega arith;
}

socket_receive_bytes-Arrives_example :
    socket_receive_bytes 40 (unfilled, []) informed
    ≡ some ((12, downlink, token), emptied 12 12 answer_line ok_line (in_front ok_line []) informed)
socket_receive_bytes-Arrives_example =
    socket_receive_bytes-Arrives 40 (unfilled, []) downlink token answer_line ok_line
      (in_front ok_line []) informed (omega arith) token-Arrives

pub token-IsText : IsText token
token-IsText = ground arith

abbrev pub unregistered : Node
unregistered = record sketch { device = informed }

renewed-short :
    length (
      datagram
        (renewed token answer_line ok_line (in_front ok_line []) unregistered).device
        (packet readings))
    < 2 ^ 15
unfolding credentials packet
renewed-short = omega arith

loop-renewed_example :
    Returns
      (Sends readings (renewed token answer_line ok_line (in_front ok_line []) unregistered))
      (loop locals readings unregistered)
loop-renewed_example =
    loop-renewed locals readings unregistered downlink token answer_line ok_line
      (in_front ok_line []) (omega arith) refl token-Arrives (omega arith) refl token-IsText refl
      (omega arith) renewed-short
