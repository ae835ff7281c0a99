-- ===== src/Modem/Udp.antt =====
-- The receiving half of ATT_NBIOT.cpp: datagrams that a socket report announced.
pub mod Receive
pub mod Returns
pub mod Keeps
pub mod Exchange
pub mod Token
pub mod Pieces
pub mod Origin
use sag_c8y_nb_iot_demo.Base.{
  ℕ, zero, suc, ◌+◌, ◌-◌, ◌*◌, ◌/◌, ◌%◌, ◌^◌, Bool, true, false, not, ◌&&◌, Option, none, some,
  List, [], ◌∷◌, ltb, leb, if◌then◌else◌, codes,
}
use sag_c8y_nb_iot_demo.Base.Loop.{Next, again, done, iterate, and_then}
use sag_c8y_nb_iot_demo.Base.Words.{wrap16}
use sag_c8y_nb_iot_demo.Device.{
  Device, M, pure, ◌>>=◌, ◌>>◌, modify, get, millis, since, fuel_for, safe_delay,
}
use sag_c8y_nb_iot_demo.Device.Print.{print, println, decimal, decimal_int}
use sag_c8y_nb_iot_demo.Modem.Commands.{is_ok, is_alive, parsed, default_read_ms}
use sag_c8y_nb_iot_demo.Modem.Hex.{unhex}
use sag_c8y_nb_iot_demo.Modem.Parsers.{
  Packet, Received, udp_read_urc_parser, udp_read_socket_parser,
}
use sag_c8y_nb_iot_demo.Modem.Response.{ResponseType, read_response}

-- SODAQ_NBIOT_MAX_UDP_BUFFER
abbrev pub max_udp_buffer : ℕ
max_udp_buffer = 256

abbrev pub min : ℕ → ℕ → ℕ
min a b = if ltb a b then a else b

-- `hasPendingUDPBytes`; `getPendingUDPBytes` is the field itself.
abbrev pub has_pending_udp_bytes : Device → Bool
has_pending_udp_bytes d = ltb 0 d.pending_bytes

-- The end of `socketReceive`: the pending bytes lose what the packet says, in size_t.
unfoldable pub finish_receive : ResponseType × Received → M (ℕ × Received)
finish_receive (r, received) d =
    if is_ok r
    then some (
      (received.0.length, received),
      record d { pending_bytes = (d.pending_bytes + 2 ^ 16 - received.0.length) % 2 ^ 16 },
    )
    else some ((0, received), d)

unfoldable pub request_receive : ℕ → M (Unit {0})
request_receive size = do
  r4 ← get (λ d. d.is_sara_r4)
  print (if r4 then codes "AT+USORF=" else codes "AT+NSORF=")
  socket ← get (λ d. d.received_socket)
  print (decimal_int socket)
  print (b',' ∷ [])
  pending ← get (λ d. d.pending_bytes)
  println (decimal (min size pending))

-- From the request on.
unfoldable pub fetch : ℕ → Received → M (ℕ × Received)
unfolding finish_receive request_receive
fetch size received = do
  request_receive size
  r ← read_response (some udp_read_socket_parser) received default_read_ms
  finish_receive r

-- `socketReceive`: the number of bytes, the packet and the characters of its content.
unfoldable pub socket_receive : ℕ → Received → M (ℕ × Received)
unfolding fetch
socket_receive size received = do
  waiting ← get has_pending_udp_bytes
  if not waiting then pure (0, received) else fetch size received

-- `socketReceiveHex`
unfoldable pub socket_receive_hex : ℕ → Received → M (ℕ × Received)
socket_receive_hex size received =
    get (λ d. d.pending_bytes) >>= λ pending. socket_receive (min size pending) received

-- The loop's rounds: `i` goes in steps of two up to `receivedSize * 2`, in size_t.
abbrev pub rounds_of : ℕ → ℕ
rounds_of received_size = wrap16 (received_size * 2) / 2

-- The loop stays in the caller's buffer of `size` bytes, and in the driver's of 256 characters.
unfoldable pub stays_in : ℕ → ℕ → Bool
stays_in size received_size =
    leb (rounds_of received_size) size && leb (rounds_of received_size * 2) max_udp_buffer

-- Nothing of the code compares what the modem says with the sizes of the buffers: where the loop
-- leaves one of them, C defines nothing, and there is no result here.
decode_received : ℕ → ℕ × Received → M (ℕ × Packet × List ℕ)
unfolding stays_in
decode_received size (n, (packet, content)) d =
    if ltb 0 size
    then if stays_in size n then some ((n, packet, unhex (rounds_of n) content), d) else none
    else some ((n, packet, []), d)

-- `socketReceiveBytes`: the number of bytes, the packet, and what is written to the caller's
-- buffer of `size` bytes; `none` where that is more than the buffer holds.
unfoldable pub socket_receive_bytes : ℕ → Received → M (ℕ × Packet × List ℕ)
unfolding decode_received
socket_receive_bytes size received = do
  pending ← get (λ d. d.pending_bytes)
  r ← socket_receive (min size (min max_udp_buffer pending)) received
  decode_received size r

-- One round of `waitForUDPResponse` behind its test.
take_length : Option (ℕ × ℕ) → M (Unit {0})
take_length (some (socket, size)) = modify (λ d. record d { pending_bytes = size })
take_length none = pure tt

poll_socket : ℕ × ℕ → M (Unit {0})
unfolding take_length
poll_socket stray = do
  print (codes "AT+USORF=")
  socket ← get (λ d. d.received_socket)
  print (decimal_int socket)
  print (codes ",")
  println (codes "0")
  r ← parsed udp_read_urc_parser stray
  take_length r

unfoldable pub poll_response : ℕ × ℕ → M (Unit {0})
unfolding poll_socket
poll_response stray = do
  r4 ← get (λ d. d.is_sara_r4)
  if r4 then poll_socket stray else (is_alive >>= λ _. pure tt)
  safe_delay 10

again_with : Unit {0} × Device → Option (Next Device (Bool × Device))
again_with (u, d) = some (again d)

unfoldable pub wait_response_round : ℕ → ℕ → ℕ × ℕ → Device → Option (Next Device (Bool × Device))
unfolding again_with
wait_response_round start limit stray d =
    if not (has_pending_udp_bytes d) && ltb (since start d) limit
    then and_then (poll_response stray d) again_with
    else some (done (has_pending_udp_bytes d, d))

-- `waitForUDPResponse`. The variables behind the parser are not initialised: their values are an
-- argument.
unfoldable pub wait_for_udp_response : ℕ × ℕ → ℕ → M Bool
unfolding wait_response_round
wait_for_udp_response stray limit d =
    if has_pending_udp_bytes d
    then some (true, d)
    else iterate (fuel_for limit d) (wait_response_round (millis d) limit stray) d
