-- ===== src/Tests/Network.antt =====
-- Two boards, of which one gets its password over the network.
use sag_c8y_nb_iot_demo.Base.{
  ℕ, ◌<◌, ◌^◌, ◌≡◌, ◌⊎◌, ◌∙◌, sym, inl, inr, refl, ap, true, false, All, none, some, Option, List,
  [], ◌∷◌, ◌++◌, codes, length, arith,
}
use sag_c8y_nb_iot_demo.Agent.{
  take_password as take_password_line, new_data_packet, next_new_line, take_cumulocity_id,
  is_measurement_message, is_register_message,
}
use sag_c8y_nb_iot_demo.Agent.Messages.{
  is_valid, get_register_message, get_device_message, from_message,
}
use sag_c8y_nb_iot_demo.Agent.Text.{int_text, split, parse_int}
use sag_c8y_nb_iot_demo.Device.Print.{decimal}
use sag_c8y_nb_iot_demo.Modem.Send.{credentials}
use sag_c8y_nb_iot_demo.Scan.{scan_nat}
use sag_c8y_nb_iot_demo.Agent.Handler.{register_device, register, Account, Representation}
use sag_c8y_nb_iot_demo.Agent.Progress.{Handles}
use sag_c8y_nb_iot_demo.Agent.Routes.{
  Agent, receive, consume_registration, encode_packet, consume_credentials,
}
use sag_c8y_nb_iot_demo.Agent.Service.{idle, answer}
use sag_c8y_nb_iot_demo.Agent.Steps.{registers, answers, Kept}
use sag_c8y_nb_iot_demo.Modem.Send.Wire.{datagram}
use sag_c8y_nb_iot_demo.Device.Steps.{in_front}
use sag_c8y_nb_iot_demo.Modem.Response.Reports.{ok_reply}
use sag_c8y_nb_iot_demo.Node.{Readings, packet, Node, loop}
use sag_c8y_nb_iot_demo.Node.Rounds.{sent_off, nothing_received, loop-Final}
use sag_c8y_nb_iot_demo.System.Network.{
  Member, Parcel, World, Alone, Sent, GoodAt, SameBoard, sends, passes, takes, turns, arrives,
  consumes, Run, still, then, Ready, Start, Gives,
}
use sag_c8y_nb_iot_demo.System.Safety.{Run-Safe}
use sag_c8y_nb_iot_demo.Tests.{imei, token, readings, gateway, noon}
use sag_c8y_nb_iot_demo.Tests.Rounds.{
  ok_line, ok_line-IsReadable, answer_line, informed, unregistered, locals, token-IsText,
}
use sag_c8y_nb_iot_demo.Tests.Service.{open_platform}
use sag_c8y_nb_iot_demo.Tests.Guard.{taken, registered_board, unregistered-registered_board}
use sag_c8y_nb_iot_demo.Tests.System.{token-Delivers}
use sag_c8y_nb_iot_demo.Tests.Sketch.{imei-IsLineText, readings-Fits}

abbrev other_imei : List ℕ
other_imei = codes "357518080012353"

-- The boards have a port each.
abbrev pub At : List ℕ → ℕ → List ℕ → Type 0
At ip port d = ((port ≡ 40001) × (d ≡ imei)) ⊎ ((port ≡ 40002) × (d ≡ other_imei))

abbrev pub Granted : List ℕ → List ℕ → Type 0
Granted d t = t ≡ token

abbrev pub Measured : List ℕ → Readings → Type 0
Measured d r = (d ≡ imei) × (r ≡ readings)

pub At-Alone : Alone At
At-Alone ip port d d' (inl h) (inl k) = h.1 ∙ sym k.1
At-Alone ip port d d' (inr h) (inr k) = h.1 ∙ sym k.1
At-Alone ip port d d' (inl h) (inr k) = absurd (omega (arith, h.0, k.0))
At-Alone ip port d d' (inr h) (inl k) = absurd (omega (arith, h.0, k.0))

abbrev text_of : Option (List ℕ) → List ℕ
text_of none = []
text_of (some t) = t

pub open-Gives : Gives At Granted Measured open_platform
open-Gives device_id password id s s' s'' polled created =
    let p : codes "s3cret" ≡ password = λ i. text_of (polled i).0 in
    let c : codes "10217" ≡ id = λ i. text_of (created i).0 in
    rw⁻¹ (p, c)
      (
        ground arith,
        ground arith,
        tt,
        record {
          x = b's';
          y = b'1';
          password = codes "3cret";
          cumulocity_id = codes "0217";
          shape = refl;
          password_line = ground arith;
          id_line = ground arith;
          granted = refl;
          is_text = token-IsText;
          short = omega arith;
        },
      )

-- Every account that posts is the board's.
abbrev OwnPosts : List (Account × Representation) → Type 0
OwnPosts s = All (λ p. p.0.username ≡ codes "device_" ++ imei) s

OwnPosts-Kept : Kept open_platform (Sent At Granted Measured) OwnPosts
OwnPosts-Kept = record {
  polls = λ device_id s h. h;
  creates = λ user object s h. h;
  posts = λ device_id password id now r s sent h. (ap (λ t. codes "device_" ++ t) sent.1.0, h);
}

-- The board: it starts, has the modem's reply to its packet at hand, and sends.
abbrev started : Node
started = record unregistered {
  device = record informed { input = in_front ok_line []; pending_bytes = 0; clock = 1 };
}

abbrev waiting : Node
waiting = record started { device = record started.device { device_id = other_imei } }

abbrev boards : Node → List Member
boards n = record { imei = imei; node = n } ∷ record { imei = other_imei; node = waiting } ∷ []

abbrev start : World open_platform
start = record { boards = boards started; agent = idle open_platform [] [] false; uplink = [] }

abbrev has_sent : Node
has_sent = sent_off readings ok_line [] started

started-short : length (datagram started.device (packet readings)) < 2 ^ 15
unfolding credentials packet
started-short = omega arith

started-has_sent : loop locals readings started ≡ some has_sent
started-has_sent =
    loop-Final locals readings started ok_line [] ok_reply [] (omega arith) refl started-short
      ok_line-IsReadable refl refl

pub start-Start : Start start
start-Start = record {
  boards = (
    record {
      id_line = imei-IsLineText;
      id_filled = tt;
      short_id = omega arith;
      same_id = refl;
      no_token = refl;
      room = omega arith;
    },
    (
      record {
        id_line = ground arith;
        id_filled = tt;
        short_id = omega arith;
        same_id = refl;
        no_token = refl;
        room = omega arith;
      },
      tt,
    ),
  );
  nothing_sent = refl;
  measurements = refl;
  registrations = refl;
  credentials = refl;
  no_answers = refl;
}

abbrev registration : List ℕ
registration = datagram started.device (packet readings)

abbrev pub message : List ℕ
message = codes "10.20.30.40\n40001\n357518080012345"

abbrev reply : List ℕ
reply = codes "10.20.30.40\n40001\ns3cret\n10217"

abbrev pub queued : Agent open_platform
queued = record (idle open_platform [] [] true) { register_queue = message ∷ [] }

abbrev pub replying : Agent open_platform
replying = record (idle open_platform [] [] true) { credentials_queue = reply ∷ [] }

abbrev replied : Agent open_platform
replied = idle open_platform [] (answer gateway 40001 token) true

registration-queued :
    receive open_platform gateway 40001 noon registration (idle open_platform [] [] false) ≡ queued
unfolding receive packet new_data_packet next_new_line credentials take_password_line
    take_cumulocity_id is_valid is_measurement_message is_register_message get_register_message
    int_text decimal
registration-queued = refl

pub message-replying :
    consume_registration open_platform message (idle open_platform [] [] true) ≡ some replying
unfolding consume_registration register_device register split parse_int scan_nat int_text decimal
message-replying = refl

reply-replied :
    consume_credentials open_platform reply (idle open_platform [] [] true) ≡ some replied
unfolding consume_credentials encode_packet from_message split parse_int scan_nat get_device_message
reply-replied = refl

abbrev asking : Parcel
asking = record { imei = imei; bytes = registration }

abbrev world : Node → Agent open_platform → World open_platform
world n a = record { boards = boards n; agent = a; uplink = asking ∷ [] }

abbrev finish : World open_platform
finish = record {
  boards = boards registered_board;
  agent = replied;
  uplink = record { imei = imei; bytes = datagram taken.device (packet readings) } ∷ asking ∷ [];
}

abbrev board : Node → Member
board n = record { imei = imei; node = n }

abbrev others : List Member
others = record { imei = other_imei; node = waiting } ∷ []

same : SameBoard started started
same = record { same_id = refl; same_token = refl; same_eeprom = refl }

asked : Run At Granted Measured open_platform start (world has_sent start.agent)
asked = then still (
    turns [] others (board started) has_sent (asking ∷ []) refl
      (sends locals readings started has_sent (refl, refl) readings-Fits (omega arith)
        (nothing_received locals started refl) same started-has_sent refl)
      refl)

waits : Run At Granted Measured open_platform start (world unregistered start.agent)
waits = then asked (
    turns [] others (board has_sent) unregistered [] refl
      (passes unregistered (record { same_id = refl; same_token = refl; same_eeprom = refl })) refl)

pub arrived : Run At Granted Measured open_platform start (world unregistered queued)
arrived = then waits (
    arrives gateway 40001 noon [] [] asking (ground arith) (omega arith) (ground arith) refl
      (inl (refl, refl)) (ap (world unregistered) registration-queued))

-- A board sends a packet, the agent registers it, and the board takes the answer in and sends
-- under it.
finish-Run : Run At Granted Measured open_platform start finish
finish-Run =
    then
      (then (then arrived (consumes replying (registers [] [] message refl message-replying) refl))
        (consumes replied (answers [] [] reply refl reply-replied) refl))
      (turns [] others (board unregistered) registered_board _ refl
        (takes locals readings registered_board [] []
          (record { ip_address = gateway; port = 40001; bytes = token }) answer_line ok_line
          (in_front ok_line []) (refl, refl) readings-Fits refl (inl (refl, refl)) token-Delivers
          unregistered-registered_board refl)
        refl)

Run-Safe_example :
    Handles open_platform (Sent At Granted Measured) At (GoodAt At Granted Measured) replied
    × All (λ x. GoodAt At Granted Measured x.ip_address x.port x.bytes) replied.sent
    × All (λ b. Ready (Granted b.imei) b.imei b.node) (boards registered_board)
    × OwnPosts []
Run-Safe_example =
    Run-Safe At Granted Measured open_platform At-Alone open-Gives OwnPosts OwnPosts-Kept finish-Run
      start-Start tt
