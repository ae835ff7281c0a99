-- ===== src/Modem/Udp/Returns.antt =====
-- The wait for a datagram returns.
use sag_c8y_nb_iot_demo.Base.{
  ℕ, ◌+◌, ◌^◌, ◌<◌, ◌≡◌, refl, sym, inl, inr, Bool, true, not, ◌&&◌, Bool-cases, Option, none, some,
  codes, ltb, if◌then◌else◌, arith,
}
use sag_c8y_nb_iot_demo.Base.Loop.{Returns, Proceeds, iterate-Returns, Returns-and_then}
use sag_c8y_nb_iot_demo.Device.{Device, pure, ◌>>=◌, millis, since, fuel_for, safe_delay}
use sag_c8y_nb_iot_demo.Device.Print.{decimal_int}
use sag_c8y_nb_iot_demo.Device.Timing.{
  Moves, rest, rest_drops, rest-lt-fuel_for, Bounded, Bounded-bind, Bounded-widen, if-Bounded,
  safe_delay-delay,
}
use sag_c8y_nb_iot_demo.Modem.Commands.{is_alive, parsed}
use sag_c8y_nb_iot_demo.Modem.Commands.Returns.{
  is_alive-Bounded, parsed-Bounded, print-then, println-then, get-then, then-pure,
}
use sag_c8y_nb_iot_demo.Modem.Parsers.{udp_read_urc_parser}
use sag_c8y_nb_iot_demo.Modem.Udp.{
  has_pending_udp_bytes, take_length, poll_socket, poll_response, again_with, wait_response_round,
  wait_for_udp_response,
}

take_length-Bounded : (o : Option (ℕ × ℕ)) → Bounded 0 0 (take_length o)
unfolding take_length
take_length-Bounded none d = omega arith
take_length-Bounded (some (socket, size)) d = omega arith

poll_socket-Bounded : (stray : ℕ × ℕ) → Bounded 1 5261 (poll_socket stray)
unfolding poll_socket
poll_socket-Bounded stray = print-then 1 5261 (codes "AT+USORF=") _ (
    get-then 1 5261 (λ d. d.received_socket) _
      (λ socket. print-then 1 5261 (decimal_int socket) _ (
        print-then 1 5261 (codes ",") _ (
          println-then 1 5261 (codes "0") (parsed udp_read_urc_parser stray >>= take_length) (
            Bounded-bind 1 5261 0 0 (parsed udp_read_urc_parser stray) take_length
              (parsed-Bounded udp_read_urc_parser stray) take_length-Bounded)))))

safe_delay-Bounded : (ms : ℕ) → Bounded ms ms (safe_delay ms)
safe_delay-Bounded ms d = rw (safe_delay-delay ms d) (omega arith)

-- One round: the request for a SARA R4, or an `AT` for a SARA N2, and a pause.
poll_response-Bounded : (stray : ℕ × ℕ) → Bounded 11 5271 (poll_response stray)
unfolding poll_response
poll_response-Bounded stray =
    get-then 11 5271 (λ d. d.is_sara_r4) _
      (λ r4.
        Bounded-bind 1 5261 10 10 (if r4 then poll_socket stray else (is_alive >>= λ _. pure tt))
          (λ _. safe_delay 10)
          (if-Bounded 1 5261 r4 (poll_socket stray) (is_alive >>= λ _. pure tt)
            (poll_socket-Bounded stray)
            (Bounded-widen 1 711 1 5261 (is_alive >>= λ _. pure tt)
              (then-pure 1 711 is_alive (λ _. tt) is_alive-Bounded) (omega arith) (omega arith)))
          (λ _. safe_delay-Bounded 10))

module _ (limit : ℕ) (stray : ℕ × ℕ) (hb : limit + 5271 < 2 ^ 32) where
  -- While the loop goes on, the time since its start stays within one round of the limit.
  abbrev Going : Device → Device → Type 0
  Going d e = Moves 0 (limit + 5271) d e

  -- The result says whether bytes are pending at the end.
  abbrev pub Ends : Device → Bool × Device → Type 0
  Ends d (found, e) = Moves 0 (limit + 5271) d e × (found ≡ has_pending_udp_bytes e)

  wait_response_round-Proceeds :
      (d e : Device)
      → Going d e
      → Returns
          (Proceeds (Going d) (Ends d) (rest limit (millis d)) (rest limit (millis d) e))
          (wait_response_round (millis d) limit stray e)
  unfolding wait_response_round again_with
  wait_response_round-Proceeds d e h =
      elim (Bool-cases (not (has_pending_udp_bytes e) && ltb (since (millis d) e) limit)) [
        | inr stop ↦ rw stop (h, refl)
        | inl go ↦ rw go (
            Returns-and_then (λ p. Moves 11 5271 e p.1) _ (poll_response stray e) again_with
              (poll_response-Bounded stray e) (λ p mv. next p.1 (early go) mv))
      ]
    where
      early :
          (not (has_pending_udp_bytes e) && ltb (since (millis d) e) limit) ≡ true
          → since (millis d) e < limit
      early h = ground arith

      next :
          (e' : Device)
          → since (millis d) e < limit
          → Moves 11 5271 e e'
          → Going d e' × (rest limit (millis d) e' < rest limit (millis d) e)
      next e' within mv = (
        omega arith,
        rest_drops limit 5271 (millis d) e e' (omega arith) hb (omega arith) (omega arith),
      )

  -- `waitForUDPResponse` returns, whatever the modem sends on lines that overrun none of the
  -- driver's arrays: it takes polls off the line, or ends at most one round after its timeout, which is up to 5271 ms short of a turn of the clock. Its result
  -- is whether bytes are pending then.
  pub wait_for_udp_response-Ends :
      (d : Device) → Returns (Ends d) (wait_for_udp_response stray limit d)
  unfolding wait_for_udp_response
  wait_for_udp_response-Ends d = elim (Bool-cases (has_pending_udp_bytes d)) [
    | inl waiting ↦ rw waiting (omega arith, sym waiting)
    | inr none_yet ↦ rw none_yet (
        iterate-Returns (Going d) (Ends d) (rest limit (millis d))
          (wait_response_round (millis d) limit stray) (λ e h. wait_response_round-Proceeds d e h)
          (fuel_for limit d) d (rest-lt-fuel_for limit (millis d) d) (omega arith))
  ]
