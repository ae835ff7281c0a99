-- ===== src/Tests/Pieces.antt =====
-- Three bytes that are read in two pieces.
use sag_c8y_nb_iot_demo.Base.{◌≡◌, refl, some, [], ◌∷◌, ◌++◌, codes, arith}
use sag_c8y_nb_iot_demo.Device.{Device}
use sag_c8y_nb_iot_demo.Device.Print.{decimal}
use sag_c8y_nb_iot_demo.Device.Steps.{Line, in_front}
use sag_c8y_nb_iot_demo.Modem.Hex.{hex_text}
use sag_c8y_nb_iot_demo.Modem.Parsers.{Packet}
use sag_c8y_nb_iot_demo.Modem.Response.Dialogue.{IsReadable}
use sag_c8y_nb_iot_demo.Modem.Udp.Exchange.{Arrives, emptied}
use sag_c8y_nb_iot_demo.Modem.Udp.Pieces.{
  receive_all, HandsOut, no_call, one_call, receive_all-HandsOut,
}
use sag_c8y_nb_iot_demo.Tests.{downlink, unfilled}
use sag_c8y_nb_iot_demo.Tests.Rounds.{sent, ok_line, ok_line-IsReadable, ip-IsQuoted, informed}

abbrev first_line : Line
first_line = sent (codes "0,\"3.120.251.198\",8888,2,\"6162\",1")

abbrev second_line : Line
second_line = sent (codes "0,\"3.120.251.198\",8888,1,\"63\",0")

first_line-IsReadable : IsReadable first_line
first_line-IsReadable = record {
  sent = record { shape = refl; one_line = ground arith };
  filled = omega arith;
  fits = omega arith;
}

second_line-IsReadable : IsReadable second_line
second_line-IsReadable = record {
  sent = record { shape = refl; one_line = ground arith };
  filled = omega arith;
  fits = omega arith;
}

abbrev first_packet : Packet
first_packet = record downlink { length = 2; remaining_length = 1 }

abbrev second_packet : Packet
second_packet = record downlink { length = 1; remaining_length = 0 }

abbrev holding : Device
holding = record informed {
  input = in_front first_line (in_front ok_line (in_front second_line (in_front ok_line [])));
  pending_bytes = 3;
}

abbrev half_read : Device
half_read = emptied 2 2 first_line ok_line (in_front second_line (in_front ok_line [])) holding

abbrev all_read : Device
all_read = emptied 1 1 second_line ok_line [] half_read

first-Arrives :
    Arrives first_packet
      (codes "ab")
      first_line
      ok_line
      (in_front second_line (in_front ok_line []))
      holding
unfolding decimal hex_text
first-Arrives = record {
  bytes = ground arith;
  filled = omega arith;
  short = omega arith;
  fields = record {
    socket_id = omega arith;
    ip = ip-IsQuoted;
    ip_fits = omega arith;
    port = omega arith;
    length = omega arith;
    remaining_length = omega arith;
  };
  counted = refl;
  pending = omega arith;
  in_int = omega arith;
  answer_line = first_line-IsReadable;
  final_line = ok_line-IsReadable;
  answer = refl;
  after = [];
  final = refl;
  input = refl;
  early = omega arith;
}

second-Arrives : Arrives second_packet (codes "c") second_line ok_line [] half_read
unfolding decimal hex_text
second-Arrives = record {
  bytes = ground arith;
  filled = omega arith;
  short = omega arith;
  fields = record {
    socket_id = omega arith;
    ip = ip-IsQuoted;
    ip_fits = omega arith;
    port = omega arith;
    length = omega arith;
    remaining_length = omega arith;
  };
  counted = refl;
  pending = omega arith;
  in_int = omega arith;
  answer_line = second_line-IsReadable;
  final_line = ok_line-IsReadable;
  answer = refl;
  after = [];
  final = refl;
  input = refl;
  early = omega arith;
}

holding-HandsOut : HandsOut (2 ∷ 40 ∷ []) (codes "abc") holding all_read
holding-HandsOut =
    one_call 2 (40 ∷ []) (codes "abc") first_packet first_line ok_line
      (in_front second_line (in_front ok_line [])) holding all_read (omega arith) refl first-Arrives
      (one_call 40 [] (codes "c") second_packet second_line ok_line [] half_read all_read
        (omega arith) refl second-Arrives (no_call [] all_read refl))

receive_all-HandsOut_example :
    (receive_all (unfilled, []) (2 ∷ 40 ∷ []) holding ≡ some (codes "abc", all_read))
    × (all_read.pending_bytes ≡ 0)
    × (codes "abc" ++ [] ≡ codes "abc")
receive_all-HandsOut_example =
    receive_all-HandsOut (unfilled, []) (2 ∷ 40 ∷ []) (codes "abc") holding all_read
      holding-HandsOut
