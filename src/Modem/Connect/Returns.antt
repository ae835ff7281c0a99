-- ===== src/Modem/Connect/Returns.antt =====
-- `connect` returns, whatever the modem sends and whatever its uninitialised variables hold.
use sag_c8y_nb_iot_demo.Base.{
  ℕ, ◌+◌, refl, Option, none, some, List, [], ◌∷◌, arith, Bool, true, false, if◌then◌else◌,
}
use sag_c8y_nb_iot_demo.Device.{M, pure, ◌>>=◌, ◌>>◌, delay}
use sag_c8y_nb_iot_demo.Device.Loops.Returns.{wait_for-Runs}
use sag_c8y_nb_iot_demo.Device.Timing.{
  Bounded, Bounded-bind, Bounded-widen, pure-Bounded, delay-Bounded, if-Bounded,
}
use sag_c8y_nb_iot_demo.Modem.Commands.{
  on, set_radio_active, set_apn, get_imei, purge_all_responses_read, reboot,
  check_and_apply_nconfig, create_socket, is_connected,
}
use sag_c8y_nb_iot_demo.Modem.Commands.Returns.{
  modify-then, get-then, then-pure, on-Bounded, set_radio_active-Bounded, set_apn-Bounded,
  get_imei-Bounded, purge_all_responses_read-Bounded, reboot-Bounded,
  check_and_apply_nconfig-Bounded, force_operator-Bounded, set_operator-Bounded,
  create_socket-Bounded, is_connected-Bounded,
}
use sag_c8y_nb_iot_demo.Modem.Connect.{
  Stray, require, attach_bee, is_found, choose_operator, has_socket, join_network, connect,
}
use sag_c8y_nb_iot_demo.Modem.Signal.{wait_for_signal_quality}
use sag_c8y_nb_iot_demo.Modem.Signal.Returns.{wait_for_signal_quality-Bounded}

require-Bounded :
    (a b c e : ℕ) (step rest : M Bool)
    → Bounded a b step
    → Bounded c e rest
    → Bounded 0 (b + e) (require step rest)
require-Bounded a b c e step rest h k =
    Bounded-widen (a + 0) (b + e) 0 (b + e) (require step rest)
      (Bounded-bind a b 0 e step (λ x. if x then rest else pure false) h
        (λ x.
          if-Bounded 0 e x rest (pure false)
            (Bounded-widen c e 0 e rest k (omega arith) (omega arith))
            (Bounded-widen 0 0 0 e (pure false) (pure-Bounded false) (omega arith) (omega arith))))
      (omega arith) (omega arith)

attach_bee-Bounded : Bounded 0 41261 (attach_bee 30000)
unfolding attach_bee
attach_bee-Bounded = then-pure 0 41261 _ is_found (λ d.
    wait_for-Runs 30000 5261 (omega arith) _ d
      (then-pure 1 5261 is_connected (λ b. if b then some tt else none) is_connected-Bounded))

choose_operator-Bounded : (o : Option (List ℕ)) → Bounded 1 5261 (choose_operator o)
unfolding choose_operator
choose_operator-Bounded none = set_operator-Bounded
choose_operator-Bounded (some []) = set_operator-Bounded
choose_operator-Bounded (some (c ∷ name)) = force_operator-Bounded (c ∷ name)

join_network-Bounded : (stray : Stray) → Bounded 0 142138 (join_network stray)
unfolding join_network
join_network-Bounded stray =
    Bounded-widen 1 142138 0 142138 (join_network stray)
      (Bounded-bind 1 3261 0 138877 purge_all_responses_read _ purge_all_responses_read-Bounded
        (λ _.
          get-then 0 138877 (λ d. d.apn) _
            (λ apn. require-Bounded 1 5261 0 133616 (set_apn apn) _ (set_apn-Bounded apn) (
              require-Bounded 1 5261 0 128355 (set_radio_active true) _
                (set_radio_active-Bounded true)
                (require-Bounded 1 5261 0 123094 (choose_operator stray.operator) _
                  (choose_operator-Bounded stray.operator) on_air)))))
      (omega arith) (omega arith)
  where
    with_socket : Bounded 0 5311 (
        require
          (create_socket stray.socket 3000 >>= λ s. pure (has_socket s))
          (delay 50 >> pure true))
    with_socket =
        require-Bounded 1 5261 50 50 _ (delay 50 >> pure true)
          (then-pure 1 5261 (create_socket stray.socket 3000) has_socket
            (create_socket-Bounded stray.socket 3000))
          (Bounded-bind 50 50 0 0 (delay 50) (λ _. pure true) (delay-Bounded 50)
            (λ _. pure-Bounded true))

    on_air : Bounded 0 123094 (
        require get_imei (
          require (wait_for_signal_quality 60000 >>= λ r. pure (is_found r)) (
            require (attach_bee 30000) (
              require
                (create_socket stray.socket 3000 >>= λ s. pure (has_socket s))
                (delay 50 >> pure true)))))
    on_air = require-Bounded 1 5261 0 117833 get_imei _ get_imei-Bounded (
        require-Bounded 0 71261 0 46572 _ _
          (then-pure 0 71261 (wait_for_signal_quality 60000) is_found
            wait_for_signal_quality-Bounded)
          (require-Bounded 0 41261 0 5311 (attach_bee 30000) _ attach_bee-Bounded with_socket))

-- `connect` always returns, whatever the modem sends on lines that overrun none of the driver's
-- arrays, and whatever its uninitialised variables hold. It has taken polls off the line, and then
-- nothing bounds its time, or at most 193185 ms went by.
pub connect-Bounded :
    (stray : Stray) (udp port : List ℕ) → Bounded 0 193185 (connect stray udp port)
unfolding connect
connect-Bounded stray udp port =
    modify-then 0 193185 (λ d. record d { udp = udp; port = port }) _ (λ d. (refl, refl))
      (require-Bounded 0 7110 1 186075 on _ on-Bounded (
        Bounded-bind 1 3261 0 182814 purge_all_responses_read _ purge_all_responses_read-Bounded
          (λ _.
            require-Bounded 1 5261 0 177553 (set_radio_active false) _
              (set_radio_active-Bounded false)
              (require-Bounded 1 21044 1 156509 (check_and_apply_nconfig stray.marks) _
                (check_and_apply_nconfig-Bounded stray.marks)
                (Bounded-bind 1 7261 0 149248 reboot _ reboot-Bounded (λ _.
                  require-Bounded 0 7110 0 142138 on (join_network stray) on-Bounded
                    (join_network-Bounded stray)))))))
