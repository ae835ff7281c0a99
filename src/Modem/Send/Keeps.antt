-- ===== src/Modem/Send/Keeps.antt =====
-- Sending a payload keeps the credentials short.
use sag_c8y_nb_iot_demo.Base.{ℕ, List, length, codes}
use sag_c8y_nb_iot_demo.Device.Identity.{Keeps, Keeps-bind}
use sag_c8y_nb_iot_demo.Device.Print.{write_prolog, print, decimal_int}
use sag_c8y_nb_iot_demo.Modem.Commands.{succeeds, default_read_ms}
use sag_c8y_nb_iot_demo.Modem.Commands.Keeps.{print-then-Keeps, println-then-Keeps, reply-Keeps}
use sag_c8y_nb_iot_demo.Modem.Hex.{hex_payload}
use sag_c8y_nb_iot_demo.Modem.Send.{print_header, send_payload}

print_header-Keeps : (show : ℕ → List ℕ) (size : ℕ) → Keeps (print_header show size)
unfolding print_header print write_prolog
print_header-Keeps show size d short = short

pub send_payload-Keeps : (packet : List ℕ) → Keeps (send_payload packet)
unfolding send_payload
send_payload-Keeps packet =
    Keeps-bind (print_header decimal_int (length packet)) _
      (print_header-Keeps decimal_int (length packet))
      (λ _.
        print-then-Keeps (hex_payload packet) _
          (println-then-Keeps (codes "\"") (succeeds default_read_ms) reply-Keeps))
