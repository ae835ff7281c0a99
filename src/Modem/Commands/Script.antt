-- ===== src/Modem/Commands/Script.antt =====
-- What each command says: one line, however the modem replies.
use sag_c8y_nb_iot_demo.Base.{
  ℕ, refl, ap, Bool, true, not, none, some, List, [], ◌∷◌, ◌++◌, append_assoc, if◌then◌else◌, codes,
}
use sag_c8y_nb_iot_demo.Device.{M, pure, ◌>>=◌, ◌>>◌, modify}
use sag_c8y_nb_iot_demo.Device.Loops.Sent.{repeat_while-Quiet}
use sag_c8y_nb_iot_demo.Device.Print.{write_prolog, print, print_cr, println, decimal}
use sag_c8y_nb_iot_demo.Device.Sent.{
  said, line, ◌then◌, Speaks, Speaks-bind, Quiet, Quiet-bind, pure-Quiet, Quiet-bind-Speaks,
  Speaks-bind-Quiet,
}
use sag_c8y_nb_iot_demo.Modem.Commands.{
  is_ok, is_timeout, default_read_ms, plain_response, succeeds, parsed, is_alive, set_radio_active,
  set_apn, get_imei, purge_all_responses_read, reboot, set_nconfig_param, force_operator,
  set_operator, create_socket, is_connected, is_attached,
}
use sag_c8y_nb_iot_demo.Modem.Parsers.{create_socket_parser, cgatt_parser}
use sag_c8y_nb_iot_demo.Modem.Response.{Parser, read_response}
use sag_c8y_nb_iot_demo.Modem.Response.Quiet.{read_response-Quiet}

-- A text in front of an operation that says one line.
pub print-line :
    {A : Type 0} (s t : List ℕ) (m : M A)
    → Speaks (λ _. line t) m
    → Speaks (λ _. line (s ++ t)) (print s >> m)
unfolding print write_prolog
print-line s t m h =
    Speaks-bind (λ _. line s) (λ _ _. line t) (λ _. line (s ++ t)) (print s) (λ _. m) (λ d. refl)
      (λ _. h)
      (λ a b v w v' e k. rw (k, e) (ap (λ o. record v { output = o }) (append_assoc v.output s t)))

-- A text and its carriage return.
pub println-says : (s : List ℕ) → Speaks (λ _. line (s ++ (b'\r' ∷ []))) (println s)
unfolding println print_cr print write_prolog
println-says s d = ap (λ o. record (said d) { output = o }) (append_assoc d.output s (b'\r' ∷ []))

-- Behind a line, an operation that only listens.
pub println-line :
    {A : Type 0} (s : List ℕ) (m : M A)
    → Quiet m
    → Speaks (λ _. line (s ++ (b'\r' ∷ []))) (println s >> m)
println-line s m h =
    Speaks-bind-Quiet (line (s ++ (b'\r' ∷ []))) (println s) (λ _. m) (println-says s) (λ _. h)

plain_response-Quiet : (limit : ℕ) → Quiet (plain_response limit)
unfolding plain_response
plain_response-Quiet limit =
    Quiet-bind (read_response none tt limit) (λ p. pure p.0) (read_response-Quiet none tt limit)
      (λ p. pure-Quiet p.0)

pub succeeds-Quiet : (limit : ℕ) → Quiet (succeeds limit)
unfolding succeeds
succeeds-Quiet limit =
    Quiet-bind (plain_response limit) (λ r. pure (is_ok r)) (plain_response-Quiet limit)
      (λ r. pure-Quiet (is_ok r))

pub parsed-Quiet : {P : Type 0} (f : Parser P) (p : P) → Quiet (parsed f p)
unfolding parsed
parsed-Quiet f p =
    Quiet-bind (read_response (some f) p default_read_ms)
      (λ q. pure (if is_ok q.0 then some q.1 else none))
      (read_response-Quiet (some f) p default_read_ms)
      (λ q. pure-Quiet (if is_ok q.0 then some q.1 else none))

reply-Quiet : Quiet (succeeds default_read_ms)
reply-Quiet = succeeds-Quiet default_read_ms

pub purge_all_responses_read-Quiet : Quiet purge_all_responses_read
unfolding purge_all_responses_read
purge_all_responses_read-Quiet =
    repeat_while-Quiet 2000 (plain_response 1000 >>= λ r. pure (not (is_timeout r))) (
      Quiet-bind (plain_response 1000) (λ r. pure (not (is_timeout r))) (plain_response-Quiet 1000)
        (λ r. pure-Quiet (not (is_timeout r))))

-- The lines.
abbrev cr : List ℕ
cr = b'\r' ∷ []

abbrev pub at : List ℕ
at = codes "AT" ++ cr

abbrev pub cfun : Bool → List ℕ
cfun active = codes "AT+CFUN=" ++ ((if active then codes "1" else codes "0") ++ cr)

abbrev pub cgdcont : List ℕ → List ℕ
cgdcont apn = codes "AT+CGDCONT=1,\"IP\",\"" ++ (apn ++ (codes "\"" ++ cr))

abbrev pub cgsn : List ℕ
cgsn = codes "AT+CGSN=1" ++ cr

abbrev pub nrb : List ℕ
nrb = codes "AT+NRB" ++ cr

abbrev pub read_nconfig : List ℕ
read_nconfig = codes "AT+NCONFIG?" ++ cr

abbrev pub write_nconfig : List ℕ → List ℕ → List ℕ
write_nconfig param value =
    codes "AT+NCONFIG=\"" ++ (param ++ (codes "\",\"" ++ (value ++ (codes "\"" ++ cr))))

abbrev pub cops_forced : List ℕ → List ℕ
cops_forced name = codes "AT+COPS=1,2,\"" ++ (name ++ (codes "\"" ++ cr))

abbrev pub cops : List ℕ
cops = codes "AT+COPS=0" ++ cr

abbrev pub nsocr : ℕ → List ℕ
nsocr local_port = codes "AT+NSOCR=\"DGRAM\",17," ++ (decimal local_port ++ (codes ",1" ++ cr))

abbrev pub cgatt : List ℕ
cgatt = codes "AT+CGATT?" ++ cr

pub is_alive-line : Speaks (λ _. line at) is_alive
unfolding is_alive
is_alive-line =
    Quiet-bind-Speaks (λ _. line at) (modify (λ d. record d { disable_diag = true }))
      (λ _. println (codes "AT") >> succeeds 450) (λ d. refl)
      (λ _. println-line (codes "AT") (succeeds 450) (succeeds-Quiet 450))

pub set_radio_active-line : (b : Bool) → Speaks (λ _. line (cfun b)) (set_radio_active b)
unfolding set_radio_active
set_radio_active-line b =
    print-line (codes "AT+CFUN=") _ _
      (println-line (if b then codes "1" else codes "0") (succeeds default_read_ms) reply-Quiet)

pub set_apn-line : (apn : List ℕ) → Speaks (λ _. line (cgdcont apn)) (set_apn apn)
unfolding set_apn
set_apn-line apn =
    print-line (codes "AT+CGDCONT=1,\"IP\",\"") _ _
      (print-line apn _ _ (println-line (codes "\"") (succeeds default_read_ms) reply-Quiet))

pub get_imei-line : Speaks (λ _. line cgsn) get_imei
unfolding get_imei
get_imei-line = println-line (codes "AT+CGSN=1") (succeeds default_read_ms) reply-Quiet

pub reboot-line : Speaks (λ _. line nrb) reboot
unfolding reboot
reboot-line = println-line (codes "AT+NRB") _ (
    repeat_while-Quiet 2000 (plain_response default_read_ms >>= λ r. pure (not (is_ok r))) (
      Quiet-bind (plain_response default_read_ms) (λ r. pure (not (is_ok r)))
        (plain_response-Quiet default_read_ms) (λ r. pure-Quiet (not (is_ok r)))))

pub set_nconfig_param-line :
    (param value : List ℕ)
    → Speaks (λ _. line (write_nconfig param value)) (set_nconfig_param param value)
unfolding set_nconfig_param
set_nconfig_param-line param value = print-line (codes "AT+NCONFIG=\"") _ _ (
    print-line param _ _ (
      print-line (codes "\",\"") _ _
        (print-line value _ _ (println-line (codes "\"") (succeeds default_read_ms) reply-Quiet))))

pub force_operator-line :
    (name : List ℕ) → Speaks (λ _. line (cops_forced name)) (force_operator name)
unfolding force_operator
force_operator-line name =
    print-line (codes "AT+COPS=1,2,\"") _ _
      (print-line name _ _ (println-line (codes "\"") (succeeds default_read_ms) reply-Quiet))

pub set_operator-line : Speaks (λ _. line cops) set_operator
unfolding set_operator
set_operator-line = println-line (codes "AT+COPS=0") (succeeds default_read_ms) reply-Quiet

pub create_socket-line :
    (stray local_port : ℕ) → Speaks (λ _. line (nsocr local_port)) (create_socket stray local_port)
unfolding create_socket
create_socket-line stray local_port = print-line (codes "AT+NSOCR=\"DGRAM\",17,") _ _ (
    print-line (decimal local_port) _ _ (
      println-line (codes ",1") (parsed create_socket_parser stray)
        (parsed-Quiet create_socket_parser stray)))

pub is_connected-line : Speaks (λ _. line cgatt) is_connected
unfolding is_connected
is_connected-line =
    println-line (codes "AT+CGATT?") (parsed cgatt_parser 0 >>= λ v. pure (is_attached v)) (
      Quiet-bind (parsed cgatt_parser 0) (λ v. pure (is_attached v)) (parsed-Quiet cgatt_parser 0)
        (λ v. pure-Quiet (is_attached v)))
