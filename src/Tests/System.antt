-- ===== src/Tests/System.antt =====
-- The theorems on the board and the agent together.
use sag_c8y_nb_iot_demo.Base.{◌≡◌, inl, refl, true, false, some, [], ◌∷◌, ◌++◌, codes, arith}
use sag_c8y_nb_iot_demo.Base.Loop.{Returns}
use sag_c8y_nb_iot_demo.Agent.Handler.{account}
use sag_c8y_nb_iot_demo.Agent.Service.{handle, idle, answer}
use sag_c8y_nb_iot_demo.Agent.Arrival.{report}
use sag_c8y_nb_iot_demo.Device.Print.{decimal}
use sag_c8y_nb_iot_demo.Device.Steps.{Line, in_front}
use sag_c8y_nb_iot_demo.Modem.Hex.{hex_text}
use sag_c8y_nb_iot_demo.Modem.Parsers.{Packet}
use sag_c8y_nb_iot_demo.Modem.Response.Dialogue.{IsReadable}
use sag_c8y_nb_iot_demo.Modem.Udp.Exchange.{Arrives}
use sag_c8y_nb_iot_demo.Modem.Send.Wire.{datagram}
use sag_c8y_nb_iot_demo.Node.{packet, Node, Locals, loop}
use sag_c8y_nb_iot_demo.Node.Downlink.{renewed}
use sag_c8y_nb_iot_demo.Node.Rounds.{Sends}
use sag_c8y_nb_iot_demo.System.Onboarding.{Delivers, Grants, onboarding, recovery}
use sag_c8y_nb_iot_demo.Tests.{board, new_board, imei, token, readings, gateway, noon, downlink}
use sag_c8y_nb_iot_demo.Tests.Rounds.{
  sent, ok_line-IsReadable, ip-IsQuoted, ok_line, informed, locals, answer_line, unregistered,
  token-Arrives, token-IsText,
}
use sag_c8y_nb_iot_demo.Tests.Sketch.{imei-IsLineText, readings-Fits}
use sag_c8y_nb_iot_demo.Tests.Service.{open_platform, closed_platform}

-- The round of `loop` that takes the agent's answer in.
pub token-Delivers : Delivers locals unregistered token answer_line ok_line (in_front ok_line [])
token-Delivers = record {
  metadata = downlink;
  due = omega arith;
  pending = refl;
  arrives = token-Arrives;
  array = refl;
  from_server = refl;
  room = omega arith;
  short_id = omega arith;
  is_text = token-IsText;
  short = omega arith;
}

open-Grants : Grants open_platform imei (codes "s3cret") (codes "10217") [] []
open-Grants = record {
  polled_state = [];
  polled = refl;
  created = refl;
  password_line = ground arith;
  id_line = ground arith;
  id_filled = tt;
}

closed-Grants : Grants closed_platform imei (codes "s3cret") (codes "10217") [] []
closed-Grants = record {
  polled_state = [];
  polled = refl;
  created = refl;
  password_line = ground arith;
  id_line = ground arith;
  id_filled = tt;
}

onboarding_example :
    (handle open_platform gateway 40001 noon
        (datagram new_board (packet readings))
        (idle open_platform [] [] false)
      ≡ some (idle open_platform [] (answer gateway 40001 token) true))
    × Returns
        (Sends readings (renewed token answer_line ok_line (in_front ok_line []) unregistered))
        (loop locals readings unregistered)
    × (handle open_platform gateway 40001 noon
          (datagram
            (renewed token answer_line ok_line (in_front ok_line []) unregistered).device
            (packet readings))
          (idle open_platform [] (answer gateway 40001 token) true)
        ≡ some (
            idle open_platform
              ((account imei (codes "s3cret"), report noon (codes "10217") readings) ∷ [])
              (answer gateway 40001 token)
              true))
onboarding_example =
    onboarding open_platform gateway 40001 (ground arith) (omega arith) locals unregistered
      answer_line ok_line (in_front ok_line []) new_board readings readings noon noon b's' b'1'
      (codes "3cret") (codes "0217") refl imei-IsLineText tt [] []
      ((account imei (codes "s3cret"), report noon (codes "10217") readings) ∷ []) [] false true
      (inl refl) open-Grants token-Delivers (ground arith) readings-Fits refl

-- The modem's answer with a newline as the payload.
abbrev reset_line : Line
reset_line = sent (codes "0,\"3.120.251.198\",8888,1,\"0A\",0")

reset_line-IsReadable : IsReadable reset_line
reset_line-IsReadable = record {
  sent = record { shape = refl; one_line = ground arith };
  filled = omega arith;
  fits = omega arith;
}

abbrev refused : Node
refused = record unregistered {
  device = record informed {
    input = in_front reset_line (in_front ok_line (in_front ok_line []));
    pending_bytes = 1;
    device_token = token;
  };
}

abbrev reset_packet : Packet
reset_packet = record downlink { length = 1 }

abbrev small_locals : Locals
small_locals = record locals { content = codes "." }

reset-Arrives :
    Arrives reset_packet (10 ∷ []) reset_line ok_line (in_front ok_line []) refused.device
unfolding decimal hex_text
reset-Arrives = record {
  bytes = ground arith;
  filled = omega arith;
  short = omega arith;
  fields = record {
    socket_id = omega arith;
    ip = ip-IsQuoted;
    ip_fits = omega arith;
    port = omega arith;
    length = omega arith;
    remaining_length = omega arith;
  };
  counted = refl;
  pending = omega arith;
  in_int = omega arith;
  answer_line = reset_line-IsReadable;
  final_line = ok_line-IsReadable;
  answer = refl;
  after = [];
  final = refl;
  input = refl;
  early = omega arith;
}

reset-Delivers : Delivers small_locals refused (10 ∷ []) reset_line ok_line (in_front ok_line [])
reset-Delivers = record {
  metadata = reset_packet;
  due = omega arith;
  pending = refl;
  arrives = reset-Arrives;
  array = refl;
  from_server = refl;
  room = omega arith;
  short_id = omega arith;
  is_text = ground arith;
  short = omega arith;
}

recovery_example :
    (handle closed_platform gateway 40001 noon
        (datagram board (packet readings))
        (idle closed_platform [] [] true)
      ≡ some (idle closed_platform [] (answer gateway 40001 (10 ∷ [])) true))
    × Returns
        (Sends readings (renewed (10 ∷ []) reset_line ok_line (in_front ok_line []) refused))
        (loop small_locals readings refused)
    × (handle closed_platform gateway 40001 noon
          (datagram
            (renewed (10 ∷ []) reset_line ok_line (in_front ok_line []) refused).device
            (packet readings))
          (idle closed_platform [] (answer gateway 40001 (10 ∷ [])) true)
        ≡ some (
            idle closed_platform []
              (answer gateway 40001 (10 ∷ []) ++ answer gateway 40001 token)
              true))
recovery_example =
    recovery closed_platform gateway 40001 (ground arith) (omega arith) small_locals refused
      reset_line ok_line (in_front ok_line []) board readings readings noon noon b's' b'1'
      (codes "3cret") (codes "0217") refl imei-IsLineText tt (codes "s3cret") (codes "10217") [] []
      [] [] true refl (ground arith) (ground arith) (ground arith) readings-Fits refl reset-Delivers
      closed-Grants
