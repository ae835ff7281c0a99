-- ===== src/Modem/Commands/Keeps.antt =====
-- The commands keep the credentials short.
use sag_c8y_nb_iot_demo.Base.{
  ℕ, zero, suc, Bool, true, false, not, Option, none, some, List, [], ◌∷◌, if◌then◌else◌, codes,
  arith,
}
use sag_c8y_nb_iot_demo.Device.{Device, M, pure, ◌>>=◌, ◌>>◌, get, millis}
use sag_c8y_nb_iot_demo.Device.Identity.{HasShortCredentials, Keeps, Keeps-bind, Keeps-if}
use sag_c8y_nb_iot_demo.Device.Loops.Keeps.{repeat_while-Keeps}
use sag_c8y_nb_iot_demo.Device.Print.{write_prolog, print, print_cr, println}
use sag_c8y_nb_iot_demo.Modem.Commands.{
  is_ok, is_timeout, default_read_ms, plain_response, succeeds, parsed, is_alive, is_on, switch_on,
  ensure_on, alive_within, on, set_radio_active, set_apn, get_imei, purge_all_responses_read,
  reboot, set_nconfig_param, apply_config, apply_parsed, check_and_apply_nconfig, force_operator,
  set_operator, create_socket, is_connected, is_attached,
}
use sag_c8y_nb_iot_demo.Modem.Parsers.{n_config, nconfig_parser, cgatt_parser}
use sag_c8y_nb_iot_demo.Modem.Response.{Parser}
use sag_c8y_nb_iot_demo.Modem.Response.Quiet.{read_response-Keeps}

pub print-then-Keeps : {A : Type 0} (s : List ℕ) (m : M A) → Keeps m → Keeps (print s >> m)
unfolding print write_prolog
print-then-Keeps s m h d short = h _ short

pub println-then-Keeps : {A : Type 0} (s : List ℕ) (m : M A) → Keeps m → Keeps (println s >> m)
unfolding println print_cr print write_prolog
println-then-Keeps s m h d short = h _ short

pub then_pure-Keeps : {A B : Type 0} (m : M A) (f : A → B) → Keeps m → Keeps (m >>= λ a. pure (f a))
then_pure-Keeps m f h = Keeps-bind m (λ a. pure (f a)) h (λ a d short. short)

plain_response-Keeps : (limit : ℕ) → Keeps (plain_response limit)
unfolding plain_response
plain_response-Keeps limit = then_pure-Keeps _ (λ p. p.0) (read_response-Keeps none tt limit)

pub succeeds-Keeps : (limit : ℕ) → Keeps (succeeds limit)
unfolding succeeds
succeeds-Keeps limit = then_pure-Keeps _ is_ok (plain_response-Keeps limit)

pub parsed-Keeps : {P : Type 0} (f : Parser P) (p : P) → Keeps (parsed f p)
unfolding parsed
parsed-Keeps f p =
    then_pure-Keeps _ (λ q. if is_ok q.0 then some q.1 else none)
      (read_response-Keeps (some f) p default_read_ms)

pub reply-Keeps : Keeps (succeeds default_read_ms)
reply-Keeps = succeeds-Keeps default_read_ms

pub ruleset commands = (
  print-then-Keeps, println-then-Keeps, then_pure-Keeps, reply-Keeps, succeeds-Keeps, parsed-Keeps,
)

pub is_alive-Keeps : Keeps is_alive
unfolding is_alive
is_alive-Keeps d short =
    println-then-Keeps (codes "AT") (succeeds 450) (succeeds-Keeps 450)
      (record d { disable_diag = true }) short

pub purge_all_responses_read-Keeps : Keeps purge_all_responses_read
unfolding purge_all_responses_read
purge_all_responses_read-Keeps =
    repeat_while-Keeps 2000 (plain_response 1000 >>= λ r. pure (not (is_timeout r)))
      (then_pure-Keeps _ (λ r. not (is_timeout r)) (plain_response-Keeps 1000))

pub reboot-Keeps : Keeps reboot
unfolding reboot
reboot-Keeps = println-then-Keeps (codes "AT+NRB") _ (
    repeat_while-Keeps 2000 (plain_response default_read_ms >>= λ r. pure (not (is_ok r)))
      (then_pure-Keeps _ (λ r. not (is_ok r)) (plain_response-Keeps default_read_ms)))

pub set_radio_active-Keeps : (b : Bool) → Keeps (set_radio_active b)
unfolding set_radio_active
set_radio_active-Keeps b = search commands

pub set_apn-Keeps : (apn : List ℕ) → Keeps (set_apn apn)
unfolding set_apn
set_apn-Keeps apn = search commands

pub get_imei-Keeps : Keeps get_imei
unfolding get_imei
get_imei-Keeps = search commands

set_nconfig_param-Keeps : (param value : List ℕ) → Keeps (set_nconfig_param param value)
unfolding set_nconfig_param
set_nconfig_param-Keeps param value = search commands depth 8

pub force_operator-Keeps : (name : List ℕ) → Keeps (force_operator name)
unfolding force_operator
force_operator-Keeps name = search commands

pub set_operator-Keeps : Keeps set_operator
unfolding set_operator
set_operator-Keeps = search commands

pub create_socket-Keeps : (stray local_port : ℕ) → Keeps (create_socket stray local_port)
unfolding create_socket
create_socket-Keeps stray local_port = search commands

pub is_connected-Keeps : Keeps is_connected
unfolding is_connected
is_connected-Keeps =
    println-then-Keeps (codes "AT+CGATT?") _
      (then_pure-Keeps (parsed cgatt_parser 0) is_attached (parsed-Keeps cgatt_parser 0))

alive_within-Keeps : (n : ℕ) → Keeps (alive_within n)
unfolding alive_within
alive_within-Keeps zero = λ d short. short
alive_within-Keeps (suc n) =
    Keeps-bind is_alive (λ alive. if alive then pure true else alive_within n) is_alive-Keeps
      (λ alive.
        Keeps-if alive (pure true) (alive_within n) (λ d short. short) (alive_within-Keeps n))

ensure_on-HasShortCredentials :
    (d : Device) → HasShortCredentials d → HasShortCredentials (ensure_on d)
unfolding ensure_on switch_on
ensure_on-HasShortCredentials d short = ground arith

pub on-Keeps : Keeps on
unfolding on
on-Keeps d short =
    Keeps-bind (alive_within 10) (λ alive. if alive then get is_on else pure false)
      (alive_within-Keeps 10)
      (λ alive. Keeps-if alive (get is_on) (pure false) (λ d short. short) (λ d short. short))
      (ensure_on (record d { start_on = millis d }))
      (ensure_on-HasShortCredentials (record d { start_on = millis d }) short)

apply_config-Keeps :
    (table : List (List ℕ × List ℕ)) (marks : List Bool) → Keeps (apply_config table marks)
unfolding apply_config
apply_config-Keeps [] marks = λ d short. short
apply_config-Keeps (e ∷ table) [] = λ d short. short
apply_config-Keeps ((param, value) ∷ table) (true ∷ marks) = apply_config-Keeps table marks
apply_config-Keeps ((param, value) ∷ table) (false ∷ marks) =
    Keeps-bind (set_nconfig_param param value) (λ _. apply_config table marks)
      (set_nconfig_param-Keeps param value) (λ _. apply_config-Keeps table marks)

apply_parsed-Keeps : (marks : Option (List Bool)) → Keeps (apply_parsed marks)
unfolding apply_parsed
apply_parsed-Keeps none = λ d short. short
apply_parsed-Keeps (some marks) =
    Keeps-bind (apply_config n_config marks) (λ _. pure true) (apply_config-Keeps n_config marks)
      (λ _ d short. short)

pub check_and_apply_nconfig-Keeps : (stray : List Bool) → Keeps (check_and_apply_nconfig stray)
unfolding check_and_apply_nconfig
check_and_apply_nconfig-Keeps stray = println-then-Keeps (codes "AT+NCONFIG?") _ (
    Keeps-bind (parsed nconfig_parser stray) apply_parsed (parsed-Keeps nconfig_parser stray)
      apply_parsed-Keeps)
