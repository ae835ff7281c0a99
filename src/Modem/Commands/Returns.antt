-- ===== src/Modem/Commands/Returns.antt =====
-- Every command returns, and in how much time at most.
use sag_c8y_nb_iot_demo.Base.{
  ℕ, zero, suc, ◌+◌, ◌*◌, ◌^◌, ◌<◌, ◌≡◌, refl, Option, none, some, List, [], ◌∷◌, length, arith,
  Bool, true, false, not, if◌then◌else◌, codes,
}
use sag_c8y_nb_iot_demo.Device.{Device, M, pure, ◌>>=◌, ◌>>◌, modify, get, millis}
use sag_c8y_nb_iot_demo.Device.Print.{print, println, decimal}
use sag_c8y_nb_iot_demo.Device.Loops.{repeat_while}
use sag_c8y_nb_iot_demo.Device.Loops.Returns.{repeat_while-Runs}
use sag_c8y_nb_iot_demo.Device.Timing.{
  Bounded, Bounded-bind, Bounded-widen, modify-Bounded, get-Bounded, pure-Bounded, if-Bounded,
}
use sag_c8y_nb_iot_demo.Modem.Response.{Parser, read_response}
use sag_c8y_nb_iot_demo.Modem.Response.Returns.{read_response-Answers}
use sag_c8y_nb_iot_demo.Modem.Commands.{
  is_ok, is_timeout, default_read_ms, plain_response, succeeds, parsed, is_alive, is_on, ensure_on,
  alive_within, on, set_radio_active, set_apn, get_imei, purge_all_responses_read, reboot,
  set_nconfig_param, apply_config, apply_parsed, check_and_apply_nconfig, force_operator,
  set_operator, create_socket, is_connected, is_attached,
}
use sag_c8y_nb_iot_demo.Modem.Parsers.{create_socket_parser, n_config, nconfig_parser, cgatt_parser}

pub print-Bounded : (s : List ℕ) → Bounded 0 0 (print s)
unfolding print
print-Bounded s d = omega arith

pub println-Bounded : (s : List ℕ) → Bounded 0 0 (println s)
unfolding println
println-Bounded s d = omega arith

-- A text in front of an operation takes no time.
pub print-then :
    {A : Type 0} (lo hi : ℕ) (s : List ℕ) (m : M A) → Bounded lo hi m → Bounded lo hi (print s >> m)
print-then lo hi s m h d =
    Bounded-widen (0 + lo) (0 + hi) lo hi _
      (Bounded-bind 0 0 lo hi (print s) (λ _. m) (print-Bounded s) (λ _. h)) (omega arith)
      (omega arith) d

pub println-then :
    {A : Type 0} (lo hi : ℕ) (s : List ℕ) (m : M A)
    → Bounded lo hi m
    → Bounded lo hi (println s >> m)
println-then lo hi s m h d =
    Bounded-widen (0 + lo) (0 + hi) lo hi _
      (Bounded-bind 0 0 lo hi (println s) (λ _. m) (println-Bounded s) (λ _. h)) (omega arith)
      (omega arith) d

-- A result computed from that of an operation.
pub then-pure :
    {A B : Type 0} (lo hi : ℕ) (m : M A) (f : A → B)
    → Bounded lo hi m
    → Bounded lo hi (m >>= λ x. pure (f x))
then-pure lo hi m f h =
    Bounded-widen (lo + 0) (hi + 0) lo hi _
      (Bounded-bind lo hi 0 0 m (λ x. pure (f x)) h (λ x. pure-Bounded (f x))) (omega arith)
      (omega arith)

pub read_response-Bounded :
    {P : Type 0} (f : Option (Parser P)) (p : P) (limit : ℕ)
    → limit + 261 < 2 ^ 32
    → Bounded 1 (limit + 261) (read_response f p limit)
read_response-Bounded f p limit hb d = read_response-Answers f p limit d hb

pub plain_response-Bounded :
    (limit : ℕ) → limit + 261 < 2 ^ 32 → Bounded 1 (limit + 261) (plain_response limit)
unfolding plain_response
plain_response-Bounded limit hb =
    then-pure 1 (limit + 261) _ (λ p. p.0) (read_response-Bounded none tt limit hb)

pub succeeds-Bounded : (limit : ℕ) → limit + 261 < 2 ^ 32 → Bounded 1 (limit + 261) (succeeds limit)
unfolding succeeds
succeeds-Bounded limit hb = then-pure 1 (limit + 261) _ is_ok (plain_response-Bounded limit hb)

pub parsed-Bounded : {P : Type 0} (f : Parser P) (p : P) → Bounded 1 5261 (parsed f p)
unfolding parsed
parsed-Bounded f p =
    then-pure 1 5261 _ (λ q. if is_ok q.0 then some q.1 else none)
      (read_response-Bounded (some f) p default_read_ms (omega arith))

pub reply-Bounded : Bounded 1 5261 (succeeds default_read_ms)
reply-Bounded = succeeds-Bounded default_read_ms (omega arith)

pub modify-then :
    {A : Type 0} (lo hi : ℕ) (f : Device → Device) (m : M A)
    → ((d : Device) → ((f d).input ≡ d.input) × ((f d).clock ≡ d.clock))
    → Bounded lo hi m
    → Bounded lo hi (modify f >> m)
modify-then lo hi f m k h d =
    Bounded-widen (0 + lo) (0 + hi) lo hi _
      (Bounded-bind 0 0 lo hi (modify f) (λ _. m) (modify-Bounded f k) (λ _. h)) (omega arith)
      (omega arith) d

pub get-then :
    {A B : Type 0} (lo hi : ℕ) (f : Device → A) (m : A → M B)
    → ((a : A) → Bounded lo hi (m a))
    → Bounded lo hi (get f >>= m)
get-then lo hi f m h d =
    Bounded-widen (0 + lo) (0 + hi) lo hi _ (Bounded-bind 0 0 lo hi (get f) m (get-Bounded f) h)
      (omega arith) (omega arith) d

pub is_alive-Bounded : Bounded 1 711 is_alive
unfolding is_alive
is_alive-Bounded =
    modify-then 1 711 (λ d. record d { disable_diag = true }) (println (codes "AT") >> succeeds 450)
      (λ d. (refl, refl))
      (println-then 1 711 (codes "AT") (succeeds 450) (succeeds-Bounded 450 (omega arith)))

alive_within-Bounded : (n : ℕ) → Bounded 0 (n * 711) (alive_within n)
unfolding alive_within
alive_within-Bounded zero = pure-Bounded false
alive_within-Bounded (suc n) =
    Bounded-widen (1 + 0) (711 + n * 711) 0 (suc n * 711)
      (is_alive >>= λ alive. if alive then pure true else alive_within n)
      (Bounded-bind 1 711 0 (n * 711) is_alive
        (λ alive. if alive then pure true else alive_within n) is_alive-Bounded
        (λ alive.
          if-Bounded 0 (n * 711) alive (pure true) (alive_within n)
            (Bounded-widen 0 0 0 (n * 711) (pure true) (pure-Bounded true) (omega arith)
              (omega arith))
            (alive_within-Bounded n)))
      (omega arith) (omega arith)

ensure_on-world : (d : Device) → ((ensure_on d).input ≡ d.input) × ((ensure_on d).clock ≡ d.clock)
unfolding ensure_on
ensure_on-world d = ground arith

pub on-Bounded : Bounded 0 7110 on
unfolding on
on-Bounded =
    modify-then 0 7110 (λ d. record d { start_on = millis d }) _ (λ d. (refl, refl))
      (modify-then 0 7110 ensure_on _ ensure_on-world (
        Bounded-bind 0 7110 0 0 (alive_within 10) (λ alive. if alive then get is_on else pure false)
          (alive_within-Bounded 10)
          (λ alive.
            if-Bounded 0 0 alive (get is_on) (pure false) (get-Bounded is_on)
              (pure-Bounded false))))

pub set_radio_active-Bounded : (b : Bool) → Bounded 1 5261 (set_radio_active b)
unfolding set_radio_active
set_radio_active-Bounded b =
    print-then 1 5261 (codes "AT+CFUN=") _
      (println-then 1 5261 _ (succeeds default_read_ms) reply-Bounded)

pub set_apn-Bounded : (apn : List ℕ) → Bounded 1 5261 (set_apn apn)
unfolding set_apn
set_apn-Bounded apn = print-then 1 5261 (codes "AT+CGDCONT=1,\"IP\",\"") _ (
    print-then 1 5261 apn _
      (println-then 1 5261 (codes "\"") (succeeds default_read_ms) reply-Bounded))

pub get_imei-Bounded : Bounded 1 5261 get_imei
unfolding get_imei
get_imei-Bounded = println-then 1 5261 (codes "AT+CGSN=1") (succeeds default_read_ms) reply-Bounded

pub purge_all_responses_read-Bounded : Bounded 1 3261 purge_all_responses_read
unfolding purge_all_responses_read
purge_all_responses_read-Bounded d =
    repeat_while-Runs 2000 1261 (omega arith)
      (plain_response 1000 >>= λ r. pure (not (is_timeout r))) d
      (then-pure 1 1261 (plain_response 1000) (λ r. not (is_timeout r))
        (plain_response-Bounded 1000 (omega arith)))

pub reboot-Bounded : Bounded 1 7261 reboot
unfolding reboot
reboot-Bounded =
    println-then 1 7261 (codes "AT+NRB")
      (repeat_while 2000 (plain_response default_read_ms >>= λ r. pure (not (is_ok r))))
      (λ d.
        repeat_while-Runs 2000 5261 (omega arith)
          (plain_response default_read_ms >>= λ r. pure (not (is_ok r))) d
          (then-pure 1 5261 (plain_response default_read_ms) (λ r. not (is_ok r))
            (plain_response-Bounded default_read_ms (omega arith))))

set_nconfig_param-Bounded : (p v : List ℕ) → Bounded 1 5261 (set_nconfig_param p v)
unfolding set_nconfig_param
set_nconfig_param-Bounded p v = print-then 1 5261 (codes "AT+NCONFIG=\"") _ (
    print-then 1 5261 p _ (
      print-then 1 5261 (codes "\",\"") _ (
        print-then 1 5261 v _
          (println-then 1 5261 (codes "\"") (succeeds default_read_ms) reply-Bounded))))

apply_config-Bounded :
    (table : List (List ℕ × List ℕ)) (marks : List Bool)
    → Bounded 0 (length table * 5261) (apply_config table marks)
unfolding apply_config
apply_config-Bounded [] marks = pure-Bounded tt
apply_config-Bounded ((n, v) ∷ table) [] =
    Bounded-widen 0 0 0 (suc (length table) * 5261) (pure tt) (pure-Bounded tt) (omega arith)
      (omega arith)
apply_config-Bounded ((n, v) ∷ table) (true ∷ marks) =
    Bounded-widen 0 (length table * 5261) 0 (suc (length table) * 5261) (apply_config table marks)
      (apply_config-Bounded table marks) (omega arith) (omega arith)
apply_config-Bounded ((n, v) ∷ table) (false ∷ marks) =
    Bounded-widen (1 + 0) (5261 + length table * 5261) 0 (suc (length table) * 5261)
      (set_nconfig_param n v >>= λ _. apply_config table marks)
      (Bounded-bind 1 5261 0 (length table * 5261) (set_nconfig_param n v)
        (λ _. apply_config table marks) (set_nconfig_param-Bounded n v)
        (λ _. apply_config-Bounded table marks))
      (omega arith) (omega arith)

pub apply_parsed-Bounded : (r : Option (List Bool)) → Bounded 0 15783 (apply_parsed r)
unfolding apply_parsed
apply_parsed-Bounded none =
    Bounded-widen 0 0 0 15783 (pure false) (pure-Bounded false) (omega arith) (omega arith)
apply_parsed-Bounded (some marks) =
    Bounded-bind 0 15783 0 0 (apply_config n_config marks) (λ _. pure true)
      (apply_config-Bounded n_config marks) (λ _. pure-Bounded true)

pub check_and_apply_nconfig-Bounded :
    (stray : List Bool) → Bounded 1 21044 (check_and_apply_nconfig stray)
unfolding check_and_apply_nconfig
check_and_apply_nconfig-Bounded stray =
    println-then 1 21044 (codes "AT+NCONFIG?") (parsed nconfig_parser stray >>= apply_parsed) (
      Bounded-bind 1 5261 0 15783 (parsed nconfig_parser stray) apply_parsed
        (parsed-Bounded nconfig_parser stray) apply_parsed-Bounded)

pub force_operator-Bounded : (name : List ℕ) → Bounded 1 5261 (force_operator name)
unfolding force_operator
force_operator-Bounded name = print-then 1 5261 (codes "AT+COPS=1,2,\"") _ (
    print-then 1 5261 name _
      (println-then 1 5261 (codes "\"") (succeeds default_read_ms) reply-Bounded))

pub set_operator-Bounded : Bounded 1 5261 set_operator
unfolding set_operator
set_operator-Bounded =
    println-then 1 5261 (codes "AT+COPS=0") (succeeds default_read_ms) reply-Bounded

pub create_socket-Bounded : (stray port : ℕ) → Bounded 1 5261 (create_socket stray port)
unfolding create_socket
create_socket-Bounded stray port = print-then 1 5261 (codes "AT+NSOCR=\"DGRAM\",17,") _ (
    print-then 1 5261 (decimal port) _ (
      println-then 1 5261 (codes ",1") (parsed create_socket_parser stray)
        (parsed-Bounded create_socket_parser stray)))

pub is_connected-Bounded : Bounded 1 5261 is_connected
unfolding is_connected
is_connected-Bounded =
    println-then 1 5261 (codes "AT+CGATT?") (parsed cgatt_parser 0 >>= λ v. pure (is_attached v))
      (then-pure 1 5261 (parsed cgatt_parser 0) is_attached (parsed-Bounded cgatt_parser 0))
