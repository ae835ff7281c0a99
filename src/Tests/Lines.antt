-- ===== src/Tests/Lines.antt =====
-- The theorems on reading, waiting and parsing, at concrete lines.
use sag_c8y_nb_iot_demo.Base.{ℕ, ◌≡◌, refl, false, none, some, codes, arith}
use sag_c8y_nb_iot_demo.Base.Loop.{Returns}
use sag_c8y_nb_iot_demo.Device.Print.{decimal}
use sag_c8y_nb_iot_demo.Device.Read.{read_ln}
use sag_c8y_nb_iot_demo.Device.Read.Returns.{IsLine, read_ln-IsLine}
use sag_c8y_nb_iot_demo.Device.Timing.{Moves, Runs}
use sag_c8y_nb_iot_demo.Device.Loops.Found.{WhenFound}
use sag_c8y_nb_iot_demo.Modem.Connect.{connect}
use sag_c8y_nb_iot_demo.Modem.Connect.Returns.{connect-Bounded}
use sag_c8y_nb_iot_demo.Modem.Parsers.{csq_parser, udp_read_socket_parser}
use sag_c8y_nb_iot_demo.Modem.Parsers.Fields.{IsQuoted, IsPacket, udp_read_socket_parser-nsorf_line}
use sag_c8y_nb_iot_demo.Modem.Response.{
  not_found, empty, error, Wait, continues, returns, on_line, read_response,
}
use sag_c8y_nb_iot_demo.Modem.Response.Reports.{cme_reply, IsWord, on_line-Final, on_line-nsonmi}
use sag_c8y_nb_iot_demo.Modem.Response.Returns.{Answers, read_response-Answers}
use sag_c8y_nb_iot_demo.Modem.Signal.{wait_for_signal_quality}
use sag_c8y_nb_iot_demo.Modem.Signal.Found.{HasSignal, wait_for_signal_quality-HasSignal}
use sag_c8y_nb_iot_demo.Modem.Udp.{wait_for_udp_response}
use sag_c8y_nb_iot_demo.Modem.Udp.Returns.{Ends, wait_for_udp_response-Ends}
use sag_c8y_nb_iot_demo.Scan.{is_space}
use sag_c8y_nb_iot_demo.Tests.{board, downlink, unfilled, imei, stray}

connect-Bounded_example :
    Runs 0 193185 board (connect stray (codes "3.120.251.198") (codes "8888") board)
connect-Bounded_example = connect-Bounded stray (codes "3.120.251.198") (codes "8888") board

read_response-Answers_example :
    Returns (Answers 5000 board) (read_response (some csq_parser) (0, 0) 5000 board)
read_response-Answers_example =
    read_response-Answers (some csq_parser) (0, 0) 5000 board (omega arith)

read_ln-IsLine_example : Returns (IsLine 250 250 board) (read_ln 250 250 board)
read_ln-IsLine_example = read_ln-IsLine 248 250 board (omega arith)

wait_for_signal_quality-HasSignal_example :
    Returns
      (λ p. Moves 0 71261 board p.1 × WhenFound HasSignal p)
      (wait_for_signal_quality 60000 board)
wait_for_signal_quality-HasSignal_example = wait_for_signal_quality-HasSignal board

wait_for_udp_response-Ends_example :
    Returns (Ends 20000 (0, 0) (omega arith) board) (wait_for_udp_response (0, 0) 20000 board)
wait_for_udp_response-Ends_example = wait_for_udp_response-Ends 20000 (0, 0) (omega arith) board

abbrev waiting : Wait (ℕ × ℕ)
waiting = record { device = board; parser = some csq_parser; response = not_found; params = (4, 2) }

abbrev plain : Wait (ℕ × ℕ)
plain = record { device = board; parser = none; response = not_found; params = (4, 2) }

on_line-Final_example :
    on_line waiting (codes "+CME ERROR: 512") 15 board
    ≡ returns error waiting.params (record board { disable_diag = false })
on_line-Final_example =
    on_line-Final cme_reply (codes " 512") waiting (codes "+CME ERROR: 512") 15 board refl

on_line-nsonmi_example :
    on_line waiting (codes "+NSONMI: 1,12") 13 board
    ≡ continues (record board { received_socket = 1; pending_bytes = 12 })
unfolding decimal
on_line-nsonmi_example =
    on_line-nsonmi 1 12 waiting (codes "+NSONMI: 1,12") 13 board (omega arith) (omega arith) refl
      refl

imei-IsWord : IsWord imei
unfolding is_space
imei-IsWord = (
  refl,
  (
    refl,
    (
      refl,
      (
        refl,
        (refl, (refl, (refl, (refl, (refl, (refl, (refl, (refl, (refl, (refl, (refl, tt))))))))))),
      ),
    ),
  ),
)

ip-IsQuoted : IsQuoted (codes "3.120.251.198")
ip-IsQuoted = record {
  first = b'3';
  others = codes ".120.251.198";
  shape = refl;
  unquoted = ground arith;
}

content-IsQuoted : IsQuoted (codes "6E6577")
content-IsQuoted = record {
  first = b'6';
  others = codes "E6577";
  shape = refl;
  unquoted = ground arith;
}

downlink-IsPacket : IsPacket downlink
downlink-IsPacket = record {
  socket_id = omega arith;
  ip = ip-IsQuoted;
  ip_fits = omega arith;
  port = omega arith;
  length = omega arith;
  remaining_length = omega arith;
}

udp_read_socket_parser-nsorf_line_example :
    udp_read_socket_parser not_found
      (codes "0,\"3.120.251.198\",8888,12,\"6E6577\",0")
      36
      (unfilled, codes "?")
    ≡ (empty, not_found, (downlink, codes "6E6577"))
unfolding decimal
udp_read_socket_parser-nsorf_line_example =
    udp_read_socket_parser-nsorf_line not_found (codes "0,\"3.120.251.198\",8888,12,\"6E6577\",0")
      36 (unfilled, codes "?") downlink (codes "6E6577") (omega arith) downlink-IsPacket
      content-IsQuoted (omega arith) refl
