-- ===== src/Modem/Udp/Keeps.antt =====
-- Receiving keeps the credentials short.
use sag_c8y_nb_iot_demo.Base.{ℕ, not, Bool-cases, inl, inr, some, ltb}
use sag_c8y_nb_iot_demo.Device.{pure}
use sag_c8y_nb_iot_demo.Device.Identity.{Keeps, Keeps-bind, Keeps-if}
use sag_c8y_nb_iot_demo.Device.Print.{write_prolog, print, print_cr, println}
use sag_c8y_nb_iot_demo.Modem.Commands.{is_ok, default_read_ms}
use sag_c8y_nb_iot_demo.Modem.Parsers.{Received, udp_read_socket_parser}
use sag_c8y_nb_iot_demo.Modem.Response.{ResponseType, read_response}
use sag_c8y_nb_iot_demo.Modem.Response.Quiet.{read_response-Keeps}
use sag_c8y_nb_iot_demo.Modem.Udp.{
  max_udp_buffer, min, has_pending_udp_bytes, finish_receive, request_receive, fetch,
  socket_receive, stays_in, decode_received, socket_receive_bytes,
}

finish_receive-Keeps : (r : ResponseType × Received) → Keeps (finish_receive r)
unfolding finish_receive
finish_receive-Keeps (r, received) d short = elim (Bool-cases (is_ok r)) [
  | inl fine ↦ rw fine short
  | inr bad ↦ rw bad short
]

request_receive-Keeps : (size : ℕ) → Keeps (request_receive size)
unfolding request_receive print println print_cr write_prolog
request_receive-Keeps size d short = short

fetch-Keeps : (size : ℕ) (received : Received) → Keeps (fetch size received)
unfolding fetch
fetch-Keeps size received = Keeps-bind (request_receive size) _ (request_receive-Keeps size) (λ _.
    Keeps-bind (read_response (some udp_read_socket_parser) received default_read_ms) finish_receive
      (read_response-Keeps (some udp_read_socket_parser) received default_read_ms)
      finish_receive-Keeps)

socket_receive-Keeps : (size : ℕ) (received : Received) → Keeps (socket_receive size received)
unfolding socket_receive
socket_receive-Keeps size received d =
    Keeps-if (not (has_pending_udp_bytes d)) (pure (0, received)) (fetch size received)
      (λ e short. short) (fetch-Keeps size received) d

decode_received-Keeps : (size : ℕ) (r : ℕ × Received) → Keeps (decode_received size r)
unfolding decode_received
decode_received-Keeps size (n, (packet, content)) d short = elim (Bool-cases (ltb 0 size)) [
  | inr no_room ↦ rw no_room short
  | inl room ↦ elim (Bool-cases (stays_in size n)) [
    | inl inside ↦ rw (room, inside) short
    | inr outside ↦ rw (room, outside) tt
  ]
]

pub socket_receive_bytes-Keeps :
    (size : ℕ) (received : Received) → Keeps (socket_receive_bytes size received)
unfolding socket_receive_bytes
socket_receive_bytes-Keeps size received d =
    Keeps-bind (socket_receive (min size (min max_udp_buffer d.pending_bytes)) received)
      (decode_received size)
      (socket_receive-Keeps (min size (min max_udp_buffer d.pending_bytes)) received)
      (decode_received-Keeps size) d
