-- ===== src/Tests/Service.antt =====
-- The theorems on the agent, at a Cumulocity that knows one board and keeps what is posted.
use sag_c8y_nb_iot_demo.Base.{ℕ, ◌≡◌, refl, ap, true, false, All, some, List, [], ◌∷◌, codes, arith}
use sag_c8y_nb_iot_demo.Agent.{DataPacket}
use sag_c8y_nb_iot_demo.Agent.Datagram.{measurement_of}
use sag_c8y_nb_iot_demo.Agent.Handler.{
  Account, Representation, Platform, account, represent, push, push_measurement,
}
use sag_c8y_nb_iot_demo.Agent.Messages.{push_message}
use sag_c8y_nb_iot_demo.Agent.Queues.{push_measurement-push_message}
use sag_c8y_nb_iot_demo.Agent.Routes.{Agent, receive, consume_measurement}
use sag_c8y_nb_iot_demo.Agent.Safety.{Reach-posts}
use sag_c8y_nb_iot_demo.Agent.Service.{idle}
use sag_c8y_nb_iot_demo.Agent.Arrival.{length-packet, receive-measurement}
use sag_c8y_nb_iot_demo.Agent.Steps.{
  FromBoard, Reach, here, next, receives, serves, measures, Kept, registered,
}
use sag_c8y_nb_iot_demo.Modem.Send.Wire.{datagram}
use sag_c8y_nb_iot_demo.Node.{Readings, packet}
use sag_c8y_nb_iot_demo.Node.Rounds.{packet-IsByte}
use sag_c8y_nb_iot_demo.Tests.{board, imei, readings, gateway, noon}
use sag_c8y_nb_iot_demo.Tests.Sketch.{imei-IsLineText, readings-Fits}

-- What is posted is kept; everything is accepted.
abbrev pub open_platform : Platform
open_platform = record {
  State = List (Account × Representation);
  poll_credentials = λ device_id s. (some (codes "s3cret"), s);
  create_object = λ user object s. (some (codes "10217"), s);
  post_measurement = λ user m s. (true, (user, m) ∷ s);
}

-- The same, but every post is refused.
abbrev pub closed_platform : Platform
closed_platform = record open_platform { post_measurement = λ user m s. (false, s) }

abbrev arrived : DataPacket
arrived = record {
  ip_address = gateway;
  port = 40001;
  device_id = imei;
  password = codes "s3cret";
  cumulocity_id = codes "10217";
  payload = some (packet readings);
  creationdate_timestamp = some noon;
}

push_measurement-push_message_example :
    push_measurement open_platform (push_message arrived (packet readings)) []
    ≡ some (
        push open_platform gateway 40001
          (account imei (codes "s3cret"))
          (represent (codes "10217") noon (packet readings))
          [])
push_measurement-push_message_example =
    push_measurement-push_message open_platform [] arrived (packet readings) noon refl
      (record { ip_line = ground arith; port_small = omega arith }) imei-IsLineText (ground arith)
      (ground arith) (ground arith) (packet-IsByte readings) (length-packet readings)

-- What the board sent: the same readings each time.
abbrev Sent : List ℕ → List ℕ → Readings → Type 0
Sent device_id token' r = (device_id ≡ imei) × (r ≡ readings)

-- All that Cumulocity keeps are those readings.
abbrev Genuine : List (Account × Representation) → Type 0
Genuine s = All (λ p. p.1.values ≡ measurement_of readings) s

Genuine-Kept : Kept open_platform Sent Genuine
Genuine-Kept = record {
  polls = λ device_id s h. h;
  creates = λ user object s h. h;
  posts = λ device_id password cumulocity_id now r s sent h. (ap measurement_of sent.1, h);
}

board-FromBoard : FromBoard open_platform Sent (datagram board (packet readings))
board-FromBoard = record {
  board = board;
  readings = readings;
  shape = refl;
  sent = (refl, refl);
  fits = readings-Fits;
  id_line = imei-IsLineText;
  id_filled = tt;
  token = registered b's' b'1' (codes "3cret") (codes "0217") refl (ground arith) (ground arith);
}

abbrev queued : Agent open_platform
queued = record (idle open_platform [] [] true) {
  measurement_queue = push_message arrived (packet readings) ∷ [];
}

abbrev posted_once : Agent open_platform
posted_once =
    idle open_platform
      ((account imei (codes "s3cret"), represent (codes "10217") noon (packet readings)) ∷ []) []
      true

board-queued :
    receive open_platform gateway 40001 noon
      (datagram board (packet readings))
      (idle open_platform [] [] false)
    ≡ queued
board-queued =
    receive-measurement open_platform gateway 40001 noon b's' b'1' (codes "3cret") (codes "0217")
      readings board (idle open_platform [] [] false) refl imei-IsLineText tt (ground arith)
      (ground arith)

queued-posted :
    consume_measurement open_platform
      (push_message arrived (packet readings))
      (idle open_platform [] [] true)
    ≡ some posted_once
unfolding consume_measurement push
queued-posted = rw push_measurement-push_message_example

board-Reach : Reach open_platform Sent (idle open_platform [] [] false) posted_once
board-Reach =
    next
      (next here (
        receives gateway 40001 noon (datagram board (packet readings)) (ground arith) (omega arith)
          (ground arith) board-FromBoard board-queued))
      (serves (measures [] [] (push_message arrived (packet readings)) refl queued-posted))

Reach-posts_example : Genuine posted_once.platform_state
Reach-posts_example = Reach-posts open_platform Sent Genuine Genuine-Kept board-Reach refl tt
