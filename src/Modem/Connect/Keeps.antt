-- ===== src/Modem/Connect/Keeps.antt =====
-- `connect` keeps the credentials short: an IMEI that it takes from the modem is cut.
use sag_c8y_nb_iot_demo.Base.{
  ℕ, Bool, true, false, Option, none, some, List, [], ◌∷◌, if◌then◌else◌,
}
use sag_c8y_nb_iot_demo.Device.{M, pure, ◌>>=◌, ◌>>◌, delay}
use sag_c8y_nb_iot_demo.Device.Identity.{Keeps, Keeps-bind, Keeps-if}
use sag_c8y_nb_iot_demo.Device.Loops.Keeps.{wait_for-Keeps}
use sag_c8y_nb_iot_demo.Modem.Commands.{
  on, set_radio_active, set_apn, get_imei, purge_all_responses_read, reboot,
  check_and_apply_nconfig, create_socket, is_connected,
}
use sag_c8y_nb_iot_demo.Modem.Commands.Keeps.{
  then_pure-Keeps, on-Keeps, set_radio_active-Keeps, set_apn-Keeps, get_imei-Keeps,
  purge_all_responses_read-Keeps, reboot-Keeps, check_and_apply_nconfig-Keeps, force_operator-Keeps,
  set_operator-Keeps, create_socket-Keeps, is_connected-Keeps,
}
use sag_c8y_nb_iot_demo.Modem.Connect.{
  Stray, require, attach_bee, is_found, choose_operator, has_socket, join_network, connect,
}
use sag_c8y_nb_iot_demo.Modem.Signal.{wait_for_signal_quality}
use sag_c8y_nb_iot_demo.Modem.Signal.Keeps.{wait_for_signal_quality-Keeps}

require-Keeps : (step rest : M Bool) → Keeps step → Keeps rest → Keeps (require step rest)
require-Keeps step rest h k =
    Keeps-bind step (λ b. if b then rest else pure false) h
      (λ b. Keeps-if b rest (pure false) k (λ d short. short))

attach_bee-Keeps : (limit : ℕ) → Keeps (attach_bee limit)
unfolding attach_bee
attach_bee-Keeps limit = then_pure-Keeps _ is_found (
    wait_for-Keeps limit (is_connected >>= λ b. pure (if b then some tt else none))
      (then_pure-Keeps is_connected (λ b. if b then some tt else none) is_connected-Keeps))

choose_operator-Keeps : (o : Option (List ℕ)) → Keeps (choose_operator o)
unfolding choose_operator
choose_operator-Keeps none = set_operator-Keeps
choose_operator-Keeps (some []) = set_operator-Keeps
choose_operator-Keeps (some (c ∷ name)) = force_operator-Keeps (c ∷ name)

on_air-Keeps :
    (stray : Stray)
    → Keeps (
        require get_imei (
          require (wait_for_signal_quality 60000 >>= λ r. pure (is_found r)) (
            require (attach_bee 30000) (
              require
                (create_socket stray.socket 3000 >>= λ s. pure (has_socket s))
                (delay 50 >> pure true)))))
on_air-Keeps stray = require-Keeps get_imei _ get_imei-Keeps (
    require-Keeps _ _
      (then_pure-Keeps (wait_for_signal_quality 60000) is_found
        (wait_for_signal_quality-Keeps 60000))
      (require-Keeps (attach_bee 30000) _ (attach_bee-Keeps 30000) (
        require-Keeps _ (delay 50 >> pure true)
          (then_pure-Keeps (create_socket stray.socket 3000) has_socket
            (create_socket-Keeps stray.socket 3000))
          (λ d short. short))))

join_network-Keeps : (stray : Stray) → Keeps (join_network stray)
unfolding join_network
join_network-Keeps stray =
    Keeps-bind purge_all_responses_read _ purge_all_responses_read-Keeps (λ _ d.
      require-Keeps (set_apn d.apn) _ (set_apn-Keeps d.apn)
        (require-Keeps (set_radio_active true) _ (set_radio_active-Keeps true) (
          require-Keeps (choose_operator stray.operator) _ (choose_operator-Keeps stray.operator)
            (on_air-Keeps stray)))
        d)

pub connect-Keeps : (stray : Stray) (udp port : List ℕ) → Keeps (connect stray udp port)
unfolding connect
connect-Keeps stray udp port d short =
    require-Keeps on _ on-Keeps
      (Keeps-bind purge_all_responses_read _ purge_all_responses_read-Keeps (λ _.
        require-Keeps (set_radio_active false) _ (set_radio_active-Keeps false) (
          require-Keeps (check_and_apply_nconfig stray.marks) _
            (check_and_apply_nconfig-Keeps stray.marks)
            (Keeps-bind reboot _ reboot-Keeps
              (λ _. require-Keeps on (join_network stray) on-Keeps (join_network-Keeps stray))))))
      (record d { udp = udp; port = port }) short
