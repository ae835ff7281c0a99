-- ===== src/Modem/Udp/Token.antt =====
-- Receiving keeps the device's token, whatever the modem sends.
use sag_c8y_nb_iot_demo.Base.{
  ℕ, ◌≡◌, refl, ap, ◌∙◌, Bool, true, false, not, Bool-cases, inl, inr, some, if◌then◌else◌, ltb,
}
use sag_c8y_nb_iot_demo.Base.Loop.{Allows}
use sag_c8y_nb_iot_demo.Device.{Device, M, pure, ◌>>=◌}
use sag_c8y_nb_iot_demo.Device.Print.{write_prolog, print, print_cr, println}
use sag_c8y_nb_iot_demo.Device.Sent.{Script, Speaks, Speaks-bind, Speaks-mono, silence}
use sag_c8y_nb_iot_demo.Modem.Commands.{is_ok, default_read_ms}
use sag_c8y_nb_iot_demo.Modem.Parsers.{Received, udp_read_socket_parser}
use sag_c8y_nb_iot_demo.Modem.Response.{ResponseType, read_response}
use sag_c8y_nb_iot_demo.Modem.Response.Quiet.{read_response-Quiet}
use sag_c8y_nb_iot_demo.Modem.Udp.{
  max_udp_buffer, min, has_pending_udp_bytes, finish_receive, request_receive, fetch,
  socket_receive, stays_in, decode_received, socket_receive_bytes,
}

abbrev same_token : Script
same_token v v' = v'.token ≡ v.token

-- An operation that leaves the token as it is.
abbrev KeepsToken : {A : Type 0} → M A → Type 0
KeepsToken m = Speaks (λ _. same_token) m

KeepsToken-bind :
    {A B : Type 0} (m : M A) (f : A → M B)
    → KeepsToken m
    → ((a : A) → KeepsToken (f a))
    → KeepsToken (m >>= f)
KeepsToken-bind m f h k =
    Speaks-bind (λ _. same_token) (λ _ _. same_token) (λ _. same_token) m f h k
      (λ a b v w v' r q. q ∙ r)

finish_receive-KeepsToken : (r : ResponseType × Received) → KeepsToken (finish_receive r)
unfolding finish_receive
finish_receive-KeepsToken (r, received) d = elim (Bool-cases (is_ok r)) [
  | inl fine ↦ rw fine refl
  | inr bad ↦ rw bad refl
]

request_receive-KeepsToken : (size : ℕ) → KeepsToken (request_receive size)
unfolding request_receive print println print_cr write_prolog
request_receive-KeepsToken size d = refl

fetch-KeepsToken : (size : ℕ) (received : Received) → KeepsToken (fetch size received)
unfolding fetch
fetch-KeepsToken size received =
    KeepsToken-bind (request_receive size) _ (request_receive-KeepsToken size) (λ _.
      KeepsToken-bind (read_response (some udp_read_socket_parser) received default_read_ms)
        finish_receive
        (Speaks-mono (λ _. silence) (λ _. same_token)
          (read_response (some udp_read_socket_parser) received default_read_ms)
          (read_response-Quiet (some udp_read_socket_parser) received default_read_ms)
          (λ a v v' e. ap (λ w. w.token) e))
        finish_receive-KeepsToken)

if-KeepsToken :
    {A : Type 0} (b : Bool) (m n : M A)
    → KeepsToken m
    → KeepsToken n
    → KeepsToken (if b then m else n)
if-KeepsToken true m n h k = h
if-KeepsToken false m n h k = k

socket_receive-KeepsToken :
    (size : ℕ) (received : Received) → KeepsToken (socket_receive size received)
unfolding socket_receive
socket_receive-KeepsToken size received d =
    if-KeepsToken (not (has_pending_udp_bytes d)) (pure (0, received)) (fetch size received)
      (λ e. refl) (fetch-KeepsToken size received) d

decode_received-KeepsToken : (size : ℕ) (r : ℕ × Received) → KeepsToken (decode_received size r)
unfolding decode_received
decode_received-KeepsToken size (n, (packet, content)) d = elim (Bool-cases (ltb 0 size)) [
  | inr no_room ↦ rw no_room refl
  | inl room ↦ elim (Bool-cases (stays_in size n)) [
    | inl inside ↦ rw (room, inside) refl
    | inr outside ↦ rw (room, outside) tt
  ]
]

pub socket_receive_bytes-KeepsToken :
    (size : ℕ) (received : Received) (d : Device)
    → Allows (λ p. p.1.device_token ≡ d.device_token) (socket_receive_bytes size received d)
unfolding socket_receive_bytes
socket_receive_bytes-KeepsToken size received d =
    KeepsToken-bind (socket_receive (min size (min max_udp_buffer d.pending_bytes)) received)
      (decode_received size)
      (socket_receive-KeepsToken (min size (min max_udp_buffer d.pending_bytes)) received)
      (decode_received-KeepsToken size) d
