-- ===== src/Modem/Connect/Script.antt =====
-- What `connect` says: its commands in their order, up to the step that fails.
use sag_c8y_nb_iot_demo.Base.{
  ℕ, refl, Bool, true, false, Option, none, some, List, [], ◌∷◌, if◌then◌else◌,
}
use sag_c8y_nb_iot_demo.Base.Loop.{Allows-mono, Returns, Returns-Allows}
use sag_c8y_nb_iot_demo.Device.{Device, pure, ◌>>=◌, ◌>>◌, delay}
use sag_c8y_nb_iot_demo.Device.Loops.Sent.{until_found, wait_for-Speaks}
use sag_c8y_nb_iot_demo.Device.Sent.{
  Said, said, Script, line, ◌then◌, Many, some_of, Speaks, pure-Quiet, then_pure-Speaks,
  Quiet-bind-Speaks, Speaks-bind-Quiet,
}
use sag_c8y_nb_iot_demo.Modem.Commands.{
  on, set_radio_active, set_apn, get_imei, purge_all_responses_read, reboot,
  check_and_apply_nconfig, create_socket, is_connected,
}
use sag_c8y_nb_iot_demo.Modem.Commands.Script.{
  cfun, cgdcont, cgsn, nrb, cops, cops_forced, nsocr, cgatt, set_radio_active-line, set_apn-line,
  get_imei-line, reboot-line, force_operator-line, set_operator-line, create_socket-line,
  is_connected-line, purge_all_responses_read-Quiet,
}
use sag_c8y_nb_iot_demo.Modem.Commands.Stages.{
  called, on-called, configured, check_and_apply_nconfig-configured,
}
use sag_c8y_nb_iot_demo.Modem.Connect.{
  Stray, require, attach_bee, is_found, choose_operator, has_socket, join_network, connect,
}
use sag_c8y_nb_iot_demo.Modem.Connect.Returns.{connect-Bounded}
use sag_c8y_nb_iot_demo.Device.Timing.{Moves, Returns-mono}
use sag_c8y_nb_iot_demo.Modem.Signal.{wait_for_signal_quality}
use sag_c8y_nb_iot_demo.Modem.Signal.Sent.{csq, wait_for_signal_quality-csq}
use sag_c8y_nb_iot_demo.Modem.Connect.Steps.{
  Steps, follows, always, require-follows, first_step, sure-follows,
}

abbrev pub operator_line : Option (List ℕ) → List ℕ
operator_line (some (c ∷ name)) = cops_forced (c ∷ name)
operator_line _ = cops

-- A line over and over: a step that succeeds said it at least once.
abbrev pub polled : List ℕ → Bool → Script
polled s true = some_of (line s)
polled s false = Many (line s)

-- The line for the access point that is set.
abbrev pub access_point : Script
access_point v v' = line (cgdcont v.apn) v v'

-- The steps from the signal on, from the radio on, from the second time that the modem is on, and
-- all of them.
abbrev pub signal_steps : Steps
signal_steps = polled csq ∷ polled cgatt ∷ always (line (nsocr 3000)) ∷ []

abbrev operator_steps : Stray → Steps
operator_steps stray =
    always (line (operator_line stray.operator)) ∷ always (line cgsn) ∷ signal_steps

abbrev pub on_air_steps : Stray → Steps
on_air_steps stray = always (line (cfun true)) ∷ operator_steps stray

abbrev restart_steps : Stray → Steps
restart_steps stray = called ∷ always access_point ∷ on_air_steps stray

abbrev pub connect_steps : Stray → Steps
connect_steps stray =
    called
    ∷ always (line (cfun false))
    ∷ always configured
    ∷ always (line nrb)
    ∷ restart_steps stray

choose_operator-line :
    (o : Option (List ℕ)) → Speaks (always (line (operator_line o))) (choose_operator o)
unfolding choose_operator
choose_operator-line none = set_operator-line
choose_operator-line (some []) = set_operator-line
choose_operator-line (some (c ∷ name)) = force_operator-line (c ∷ name)

found-polled :
    (s : List ℕ) (r : Option (Unit {0})) (v v' : Said)
    → until_found (line s) r v v'
    → polled s (is_found r) v v'
unfolding is_found
found-polled s none v v' h = h
found-polled s (some u) v v' h = h

attach_bee-polled : (limit : ℕ) → Speaks (polled cgatt) (attach_bee limit)
unfolding attach_bee
attach_bee-polled limit =
    then_pure-Speaks (until_found (line cgatt)) (polled cgatt) _ is_found
      (wait_for-Speaks (line cgatt) limit (is_connected >>= λ b. pure (if b then some tt else none))
        (Speaks-bind-Quiet (line cgatt) is_connected (λ b. pure (if b then some tt else none))
          is_connected-line (λ b. pure-Quiet (if b then some tt else none))))
      (found-polled cgatt)

signal-polled : Speaks (polled csq) (wait_for_signal_quality 60000 >>= λ r. pure (is_found r))
signal-polled =
    then_pure-Speaks (until_found (line csq)) (polled csq) (wait_for_signal_quality 60000) is_found
      (wait_for_signal_quality-csq 60000) (found-polled csq)

socket-line :
    (stray : Stray)
    → Speaks
        (always (line (nsocr 3000)))
        (create_socket stray.socket 3000 >>= λ s. pure (has_socket s))
socket-line stray =
    Speaks-bind-Quiet (line (nsocr 3000)) (create_socket stray.socket 3000)
      (λ s. pure (has_socket s)) (create_socket-line stray.socket 3000)
      (λ s. pure-Quiet (has_socket s))

-- The commands behind the access point.
on_air-follows :
    (stray : Stray)
    → Speaks (follows (on_air_steps stray)) (
        require (set_radio_active true) (
          require (choose_operator stray.operator) (
            require get_imei (
              require (wait_for_signal_quality 60000 >>= λ r. pure (is_found r)) (
                require (attach_bee 30000) (
                  require
                    (create_socket stray.socket 3000 >>= λ s. pure (has_socket s))
                    (delay 50 >> pure true)))))))
on_air-follows stray =
    require-follows (always (line (cfun true))) (operator_steps stray) _ _
      (set_radio_active-line true)
      (require-follows (always (line (operator_line stray.operator)))
        (always (line cgsn) ∷ signal_steps) _ _ (choose_operator-line stray.operator)
        (require-follows (always (line cgsn)) signal_steps _ _ get_imei-line signal-follows))
  where
    signal-follows : Speaks (follows signal_steps) (
        require (wait_for_signal_quality 60000 >>= λ r. pure (is_found r)) (
          require (attach_bee 30000) (
            require
              (create_socket stray.socket 3000 >>= λ s. pure (has_socket s))
              (delay 50 >> pure true))))
    signal-follows =
        require-follows (polled csq) (polled cgatt ∷ always (line (nsocr 3000)) ∷ []) _ _
          signal-polled
          (require-follows (polled cgatt) (always (line (nsocr 3000)) ∷ []) _ _
            (attach_bee-polled 30000)
            (require-follows (always (line (nsocr 3000))) [] _ _ (socket-line stray)
              (λ d. (refl, refl))))

join_network-follows :
    (stray : Stray)
    → Speaks (follows (always access_point ∷ on_air_steps stray)) (join_network stray)
unfolding join_network
join_network-follows stray =
    Quiet-bind-Speaks (follows (always access_point ∷ on_air_steps stray)) purge_all_responses_read
      _ purge_all_responses_read-Quiet
      (λ _ d.
        Allows-mono
          (λ p.
            follows (always (line (cgdcont d.apn)) ∷ on_air_steps stray) p.0 (said d) (said p.1))
          (λ p. follows (always access_point ∷ on_air_steps stray) p.0 (said d) (said p.1)) _
          (require-follows (always (line (cgdcont d.apn))) (on_air_steps stray) (set_apn d.apn) _
            (set_apn-line d.apn) (on_air-follows stray) d)
          (λ p h.
            first_step (always (line (cgdcont d.apn))) (always access_point) (on_air_steps stray)
              (said d) (λ b w l. l) p.0 (said p.1) h))

connect-says :
    (stray : Stray) (udp port : List ℕ)
    → Speaks
        (λ b v v'. follows (connect_steps stray) b (record v { udp = udp; port = port }) v')
        (connect stray udp port)
unfolding connect
connect-says stray udp port d = commands (record d { udp = udp; port = port })
  where
    settled : Steps
    settled = always configured ∷ always (line nrb) ∷ restart_steps stray

    commands : Speaks (follows (connect_steps stray)) (
        require on (
          purge_all_responses_read
          >> require (set_radio_active false) (
              require
                (check_and_apply_nconfig stray.marks)
                (reboot >> require on (join_network stray)))))
    commands = require-follows called (always (line (cfun false)) ∷ settled) on _ on-called (
        Quiet-bind-Speaks (follows (always (line (cfun false)) ∷ settled)) purge_all_responses_read
          _ purge_all_responses_read-Quiet
          (λ _.
            require-follows (always (line (cfun false))) settled _ _ (set_radio_active-line false) (
              require-follows (always configured) (always (line nrb) ∷ restart_steps stray) _ _
                (check_and_apply_nconfig-configured stray.marks)
                (sure-follows (line nrb) (restart_steps stray) reboot _ reboot-line (
                  require-follows called (always access_point ∷ on_air_steps stray) on _ on-called
                    (join_network-follows stray))))))

-- `connect` returns and keeps to its protocol, whatever the modem sends on lines that overrun none of
-- the driver's arrays, and whatever its uninitialised variables hold: it sets the server and its port, and writes nothing but its
-- commands, in their order, each as often as its step repeats it: all of them when the result is
-- true, and up to the step that failed when it is false. A step that polls and succeeds has polled
-- at least once. Token, access point and minimal signal stay as they were.
pub connect-follows :
    (stray : Stray) (udp port : List ℕ) (d : Device)
    → Returns
        (λ p.
          follows (connect_steps stray) p.0 (said (record d { udp = udp; port = port })) (said p.1))
        (connect stray udp port d)
connect-follows stray udp port d =
    let post = λ (p : Bool × Device).
      follows (connect_steps stray) p.0 (said (record d { udp = udp; port = port })) (said p.1) in
    Returns-mono _ post (connect stray udp port d)
      (Returns-Allows (λ p. Moves 0 193185 d p.1) post (connect stray udp port d)
        (connect-Bounded stray udp port d) (connect-says stray udp port d))
      (λ p h. h.1)
