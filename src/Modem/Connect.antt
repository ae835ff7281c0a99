-- ===== src/Modem/Connect.antt =====
-- `connect` of ATT_NBIOT.cpp: the sequence of commands that brings the modem into the network.
pub mod Returns
pub mod Steps
pub mod Script
pub mod Keeps
use sag_c8y_nb_iot_demo.Base.{
  ℕ, Bool, true, false, Option, none, some, List, [], ◌∷◌, ◌==◌, if◌then◌else◌,
}
use sag_c8y_nb_iot_demo.Base.Words.{wrap8}
use sag_c8y_nb_iot_demo.Device.{Device, M, pure, ◌>>=◌, ◌>>◌, modify, get, delay}
use sag_c8y_nb_iot_demo.Device.Loops.{wait_for}
use sag_c8y_nb_iot_demo.Modem.Commands.{
  on, set_radio_active, set_apn, get_imei, purge_all_responses_read, reboot,
  check_and_apply_nconfig, force_operator, set_operator, create_socket, is_connected,
}
use sag_c8y_nb_iot_demo.Modem.Signal.{wait_for_signal_quality}

-- The local variables that the code reads before it writes them: the pointer `forceOperator` of
-- `connect`, the marks of `checkAndApplyNconfig` and the socket of `createSocket`. They may hold
-- anything, so the operations take them as arguments; a null pointer is `none`.
pub record Stray : Type 0 where
  pub operator : Option (List ℕ)
  pub marks : List Bool
  pub socket : ℕ

-- `if (!step) return false;`
abbrev pub require : M Bool → M Bool → M Bool
require step rest = step >>= λ b. if b then rest else pure false

is_found : Option (Unit {0}) → Bool
is_found (some _) = true
is_found none = false

-- `attachBee`
unfoldable pub attach_bee : ℕ → M Bool
unfolding is_found
attach_bee limit = do
  r ← wait_for limit (is_connected >>= λ b. pure (if b then some tt else none))
  pure (is_found r)

-- `forceOperator && forceOperator[0] != '\0'`
unfoldable pub choose_operator : Option (List ℕ) → M Bool
choose_operator (some (c ∷ name)) = force_operator (c ∷ name)
choose_operator _ = set_operator

has_socket : Option ℕ → Bool
has_socket (some s) = true
has_socket none = false

-- From the second time that the modem is on.
unfoldable pub join_network : Stray → M Bool
unfolding is_found has_socket
join_network stray = do
  purge_all_responses_read
  apn ← get (λ d. d.apn)
  require (set_apn apn) (
      require (set_radio_active true) (
        require (choose_operator stray.operator) (
          require get_imei (
            require (wait_for_signal_quality 60000 >>= λ r. pure (is_found r)) (
              require (attach_bee 30000) (
                require (create_socket stray.socket 3000 >>= λ s. pure (has_socket s))
                  (delay 50 >> pure true)))))))

unfoldable pub connect : Stray → List ℕ → List ℕ → M Bool
unfolding join_network
connect stray udp port = do
  modify (λ d. record d { udp = udp; port = port })
  require on (
      purge_all_responses_read
      >> require (set_radio_active false) (
          require (check_and_apply_nconfig stray.marks)
            (reboot >> require on (join_network stray))))
