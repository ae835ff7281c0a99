-- ===== src/Tests/Life.antt =====
-- A sketch that a modem answered through `setup`, and its next round.
use sag_c8y_nb_iot_demo.Base.{
  ℕ, ◌≡◌, refl, ap, Bool, true, false, Option, none, some, List, [], ◌∷◌, ◌++◌, codes, arith,
}
use sag_c8y_nb_iot_demo.Base.Loop.{Returns, iterate}
use sag_c8y_nb_iot_demo.Device.{Device, Poll}
use sag_c8y_nb_iot_demo.Device.Loops.{repeat_while, wait_for}
use sag_c8y_nb_iot_demo.Device.Print.{print, println, decimal}
use sag_c8y_nb_iot_demo.Device.Read.{
  read, timed_read_round, timed_read, read_bytes_until, end_line, read_ln,
}
use sag_c8y_nb_iot_demo.Modem.Commands.{
  plain_response, succeeds, parsed, is_alive, set_att_device, is_on, ensure_on, alive_within, on,
  init, set_radio_active, set_apn, get_imei, purge_all_responses_read, reboot, set_nconfig_param,
  apply_config, check_and_apply_nconfig, set_operator, create_socket, is_connected,
}
use sag_c8y_nb_iot_demo.Modem.Connect.{attach_bee, choose_operator, join_network, connect}
use sag_c8y_nb_iot_demo.Modem.Object.{new_device, with_credentials}
use sag_c8y_nb_iot_demo.Modem.Parsers.{
  csq_parser, cgatt_parser, create_socket_parser, nconfig_parser,
}
use sag_c8y_nb_iot_demo.Modem.Response.{read_response}
use sag_c8y_nb_iot_demo.Modem.Signal.{
  get_rssi_and_ber, keep_signal, wait_for_signal_quality, convert_csq_to_rssi, is_enough, rssi_of,
}
use sag_c8y_nb_iot_demo.Node.{
  Node, power_on, read_pw, Locals, setup, loop, receive_password, send_readings, packet,
}
use sag_c8y_nb_iot_demo.Modem.Send.{send_payload}
use sag_c8y_nb_iot_demo.Node.Life.{Life, starts, rounds, passes, Life-Sends}
use sag_c8y_nb_iot_demo.Node.Rounds.{Sends}
use sag_c8y_nb_iot_demo.OnOff
use sag_c8y_nb_iot_demo.Scan.{sscanf}
use sag_c8y_nb_iot_demo.Tests.{polls, low_pins, stray, eeprom, readings, unfilled}

-- A read that finds nothing and takes longer than the response is waited for.
abbrev silence : List Poll
silence = record { byte = none; took = 1500 } ∷ []

abbrev ok_reply : List Poll
ok_reply = polls (codes "OK\r\n")

abbrev all_of : List (List Poll) → List Poll
all_of [] = []
all_of (l ∷ ls) = l ++ all_of ls

-- What the modem says to each command of `connect`.
abbrev dialogue : List Poll
dialogue = all_of (
    ok_reply
    ∷ silence
    ∷ ok_reply
    ∷ ok_reply
    ∷ ok_reply
    ∷ ok_reply
    ∷ ok_reply
    ∷ ok_reply
    ∷ silence
    ∷ ok_reply
    ∷ ok_reply
    ∷ ok_reply
    ∷ ok_reply
    ∷ polls (codes "+CSQ: 20,99\r\nOK\r\n")
    ∷ polls (codes "+CGATT: 1\r\nOK\r\n")
    ∷ polls (codes "0\r\nOK\r\n")
    ∷ [])

abbrev start : Node
start = power_on dialogue low_pins 0 eeprom

-- The result with the clock and the pending bytes.
abbrev outcome : Option (Bool × Device) → Bool × ℕ × ℕ
outcome (some (b, d)) = (b, d.clock, d.pending_bytes)
outcome none = (false, 0, 0)

abbrev device_in : Option (Bool × Device) → Device → Device
device_in (some (b, d)) e = d
device_in none e = e

abbrev ran : Option (Bool × Device)
ran = setup OnOff.fresh stray eeprom start.device

setup_outcome : Path (Bool × ℕ × ℕ) (outcome ran) (true, 4183, 0)
unfolding setup power_on connect join_network attach_bee choose_operator on ensure_on alive_within
    is_alive succeeds plain_response parsed purge_all_responses_read reboot set_radio_active set_apn
    get_imei check_and_apply_nconfig set_nconfig_param apply_config set_operator create_socket
    is_connected wait_for_signal_quality get_rssi_and_ber keep_signal is_enough convert_csq_to_rssi
    read_response iterate repeat_while wait_for read_ln read_bytes_until end_line timed_read
    timed_read_round read sscanf print println decimal csq_parser cgatt_parser create_socket_parser
    nconfig_parser set_att_device init is_on read_pw new_device with_credentials OnOff.on
    OnOff.is_on OnOff.init rssi_of
setup_outcome = refl

abbrev first : Bool × ℕ × ℕ → Bool
first (b, clock, pending) = b

abbrev second : Bool × ℕ × ℕ → ℕ
second (b, clock, pending) = clock

abbrev third : Bool × ℕ × ℕ → ℕ
third (b, clock, pending) = pending

succeeds_with :
    (o : Option (Bool × Device)) (e : Device) (clock pending : ℕ)
    → Path (Bool × ℕ × ℕ) (outcome o) (true, clock, pending)
    → (o ≡ some (true, device_in o e))
      × ((device_in o e).clock ≡ clock)
      × ((device_in o e).pending_bytes ≡ pending)
succeeds_with none e clock pending h = let no : Path Bool false true = ap first h in absurd (cc no)
succeeds_with (some (b, d)) e clock pending h =
    ((λ i. some (first (h i), d)), ap second h, ap third h)

-- The sketch half a minute after its start, with an OK on the line.
abbrev started : Node
started = record start { device = device_in ran start.device }

abbrev running : Node
running = record started { device = record started.device { clock = 30000; input = ok_reply } }

abbrev locals : Locals
locals = record { received = (unfilled, []); content = [] }

running-Life : Life running
running-Life =
    let found = succeeds_with ran start.device 4183 0 setup_outcome in
    passes started 30000 ok_reply (omega (arith, found.1))
      (starts dialogue low_pins 0 eeprom OnOff.fresh stray started.device found.0)

Life-Sends_example : Returns (Sends readings running) (loop locals readings running)
unfolding power_on
Life-Sends_example =
    Life-Sends locals readings running running-Life (omega arith)
      (succeeds_with ran start.device 4183 0 setup_outcome).2

-- The same sketch when the reply to its packet comes with the news of 12 bytes.
abbrev news : List Poll
news = polls (codes "+NSONMI: 0,12\r\nOK\r\n")

abbrev hearing : Node
hearing = record running { device = record running.device { input = news } }

abbrev node_outcome : Option Node → Bool × ℕ × ℕ × ℕ
node_outcome (some n) = (true, n.device.clock, n.device.pending_bytes, n.send_next_at)
node_outcome none = (false, 0, 0, 0)

abbrev node_in : Option Node → Node → Node
node_in (some n) m = n
node_in none m = m

abbrev round : Option Node
round = loop locals readings hearing

round_outcome : Path (Bool × ℕ × ℕ × ℕ) (node_outcome round) (true, 30019, 12, 40019)
unfolding loop setup power_on connect join_network attach_bee choose_operator on ensure_on
    alive_within is_alive succeeds plain_response parsed purge_all_responses_read reboot
    set_radio_active set_apn get_imei check_and_apply_nconfig set_nconfig_param apply_config
    set_operator create_socket is_connected wait_for_signal_quality get_rssi_and_ber keep_signal
    is_enough convert_csq_to_rssi read_response iterate repeat_while wait_for read_ln
    read_bytes_until end_line timed_read timed_read_round read sscanf print println decimal
    csq_parser cgatt_parser create_socket_parser nconfig_parser set_att_device init is_on read_pw
    new_device with_credentials OnOff.on OnOff.is_on OnOff.init rssi_of receive_password
    send_readings send_payload packet
round_outcome = refl

leaves :
    (o : Option Node) (m : Node) (clock pending next : ℕ)
    → Path (Bool × ℕ × ℕ × ℕ) (node_outcome o) (true, clock, pending, next)
    → (o ≡ some (node_in o m))
      × ((node_in o m).device.clock ≡ clock)
      × ((node_in o m).device.pending_bytes ≡ pending)
      × ((node_in o m).send_next_at ≡ next)
leaves none m clock pending next h =
    let different : Path Bool false true = λ i. (h i).0 in absurd (cc different)
leaves (some n) m clock pending next h =
    ((λ i. some n), (λ i. (h i).1), (λ i. (h i).2), (λ i. (h i).3))

-- Half a minute later, with the 12 bytes on their way: the packet is due again.
abbrev answer : List Poll
answer = polls (codes "0,\"3.120.251.198\",8888,12,\"7333637265740A3130323137\",0\r\nOK\r\nOK\r\n")

abbrev heard : Node
heard = node_in round hearing

abbrev due : Node
due = record heard { device = record heard.device { clock = 60000; input = answer } }

hearing-Life : Life hearing
hearing-Life = passes running 30000 news (omega arith) running-Life

due-Life : Life due
due-Life =
    let found = leaves round hearing 30019 12 40019 round_outcome in
    passes heard 60000 answer (omega (arith, found.1))
      (rounds locals readings hearing heard hearing-Life found.0)
