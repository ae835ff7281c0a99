-- ===== src/Tests/Guard.antt =====
-- A round that takes the agent's answer in, and what it leaves.
use sag_c8y_nb_iot_demo.Base.{◌<◌, ◌^◌, ◌≡◌, refl, some, [], length, arith}
use sag_c8y_nb_iot_demo.Device.Steps.{in_front}
use sag_c8y_nb_iot_demo.Modem.Response.Reports.{ok_reply}
use sag_c8y_nb_iot_demo.Modem.Send.{credentials}
use sag_c8y_nb_iot_demo.Modem.Send.Wire.{datagram}
use sag_c8y_nb_iot_demo.Node.{packet, Node, loop}
use sag_c8y_nb_iot_demo.Node.Downlink.{renewed, loop-renewed-Final}
use sag_c8y_nb_iot_demo.Node.Guard.{Guarded, loop-Guarded}
use sag_c8y_nb_iot_demo.Node.Rounds.{sent_off}
use sag_c8y_nb_iot_demo.Tests.{token, readings, downlink}
use sag_c8y_nb_iot_demo.Tests.Rounds.{
  ok_line, ok_line-IsReadable, answer_line, unregistered, locals, token-Arrives, token-IsText,
}

-- The board with the agent's answer: it takes it, and sends under its new token.
abbrev pub taken : Node
taken = renewed token answer_line ok_line (in_front ok_line []) unregistered

abbrev pub registered_board : Node
registered_board = sent_off readings ok_line [] taken

taken-short : length (datagram taken.device (packet readings)) < 2 ^ 15
unfolding credentials packet
taken-short = omega arith

pub unregistered-registered_board : loop locals readings unregistered ≡ some registered_board
unregistered-registered_board =
    loop-renewed-Final locals readings unregistered downlink token answer_line ok_line ok_line []
      ok_reply [] (omega arith) refl token-Arrives (omega arith) refl token-IsText refl
      (omega arith) taken-short ok_line-IsReadable refl

loop-Guarded_example : Guarded locals unregistered registered_board
loop-Guarded_example =
    loop-Guarded locals unregistered readings registered_board (omega arith, omega arith)
      unregistered-registered_board
