-- ===== src/Modem/Udp/Origin.antt =====
-- Where the address of a received packet comes from: the modem reported it on a line, or the
-- caller's struct held it before.
use sag_c8y_nb_iot_demo.Base.{
  ℕ, ◌≡◌, ◌⊎◌, ◌==◌, length, refl, sym, Bool, true, false, Option, none, some, List, cstr, ltb,
  if◌then◌else◌, Bool-cases, inl, inr,
}
use mathlib.Core.Path.{subst}
use sag_c8y_nb_iot_demo.Base.Loop.{Allows, Allows-given, Allows-and_then, Stays, iterate-Stays}
use sag_c8y_nb_iot_demo.Device.{Device, Poll, M, ◌>>=◌, millis, is_timedout, fuel_for}
use sag_c8y_nb_iot_demo.Device.Read.{read_ln}
use sag_c8y_nb_iot_demo.Device.Read.Tails.{Tail, whole, read_ln-Tail}
use sag_c8y_nb_iot_demo.Device.Print.{write_prolog, print, print_cr, println}
use sag_c8y_nb_iot_demo.Modem.Commands.{is_ok, default_read_ms}
use sag_c8y_nb_iot_demo.Modem.Parsers.{Received, udp_read_socket_parser}
use sag_c8y_nb_iot_demo.Modem.Parsers.Origin.{Reports, Origin, udp_read_socket_parser-Origin}
use sag_c8y_nb_iot_demo.Modem.Response.{
  ResponseType, not_found, ok, error, prompt, timeout, empty, pending_extra, Parser, Wait, Outcome,
  continues, returns, falls, Reply, echo, fine, failed, other, reply_of, recorded, after_parser,
  run_parser, on_report, on_reply, enable_diag, take_imei, take_nsonmi, fota_format, nsonmi_format,
  cgsn_format, on_line, until_timeout, after_line, after_read, positive, read_response_round,
  read_response,
}
use sag_c8y_nb_iot_demo.Scan.{sscanf}
use sag_c8y_nb_iot_demo.Modem.Response.Returns.{device_of, on_line-KeepsWorld}
use sag_c8y_nb_iot_demo.Modem.Udp.{
  max_udp_buffer, min, has_pending_udp_bytes, finish_receive, request_receive, fetch,
  socket_receive, stays_in, decode_received, socket_receive_bytes,
}

-- At some point of what the modem sent, `l`, `readLn` gave this line.
pub record Given (l : List Poll) (count : ℕ) (line : List ℕ) : Type 0 where
  pub here : Device
  pub there : Device
  pub sent : Tail l here.input
  pub read : read_ln 250 250 here ≡ some ((count, line), there)

-- A line that `readLn` gave reports the address.
pub record Reported (l : List Poll) (ip : List ℕ) : Type 0 where
  pub count : ℕ
  pub line : List ℕ
  pub given : Given l count line
  pub reports : Reports line ip

bind-Allows :
    {A B : Type 0} (P : A × Device → Type 0) (Q : B × Device → Type 0) (m : M A) (f : A → M B)
    (d : Device)
    → Allows P (m d)
    → ((a : A) (e : Device) → P (a, e) → Allows Q (f a e))
    → Allows Q ((m >>= f) d)
bind-Allows {A} {B} P Q m f d h k = go (m d) h
  where
    go :
        (o : Option (A × Device))
        → Allows P o
        → Allows Q (elim o [ none ↦ none | some (a, e) ↦ f a e ])
    go none r = tt
    go (some (a, e)) r = k a e r

module _ (l : List Poll) (before : List ℕ) where
  abbrev From : List ℕ → Type 0
  From ip = (ip ≡ before) ⊎ Reported l ip

  -- A parser that takes no address but the line's.
  abbrev IsOurs : Option (Parser Received) → Type 0
  IsOurs none = Unit
  IsOurs (some g) =
      (response : ResponseType) (s : List ℕ) (count : ℕ) (p : Received)
      → Origin s p.0.ip (g response s count p).2.0.ip

  abbrev IsFine : Outcome Received → Type 0
  IsFine (continues d) = Unit
  IsFine (returns r p d) = From p.0.ip
  IsFine (falls f r p d) = From p.0.ip × IsOurs f

  abbrev Going : Wait Received → Type 0
  Going w = Tail l w.device.input × From w.params.0.ip × IsOurs w.parser

  abbrev Gone : (ResponseType × Received) × Device → Type 0
  Gone p = From p.0.1.0.ip

  recorded-IsFine :
      (r : ResponseType) (o o' : Outcome Received) → IsFine o → IsFine o' → IsFine (recorded r o o')
  recorded-IsFine not_found o o' h k = h
  recorded-IsFine ok o o' h k = k
  recorded-IsFine error o o' h k = k
  recorded-IsFine prompt o o' h k = k
  recorded-IsFine timeout o o' h k = k
  recorded-IsFine empty o o' h k = k
  recorded-IsFine pending_extra o o' h k = k

  after_parser-IsFine :
      (g : Parser Received) (r : ResponseType × ResponseType × Received) (d : Device)
      → IsOurs (some g)
      → From r.2.0.ip
      → IsFine (after_parser g r d)
  unfolding after_parser
  after_parser-IsFine g (empty, response, p) d ours h =
      recorded-IsFine response (falls none response p d) (returns response p d) (h, tt) h
  after_parser-IsFine g (pending_extra, response, p) d ours h =
      recorded-IsFine response (falls (some g) response p d) (returns response p d) (h, ours) h
  after_parser-IsFine g (not_found, response, p) d ours h = h
  after_parser-IsFine g (ok, response, p) d ours h = h
  after_parser-IsFine g (error, response, p) d ours h = h
  after_parser-IsFine g (prompt, response, p) d ours h = h
  after_parser-IsFine g (timeout, response, p) d ours h = h

  -- A line that the modem sent gives an address that it reports, or leaves the one before.
  From-Origin :
      (count : ℕ) (s ip ip' : List ℕ) → Given l count s → From ip → Origin s ip ip' → From ip'
  From-Origin count s ip ip' given h (inl same) = subst From (sym same) h
  From-Origin count s ip ip' given h (inr reports) =
      inr (record { count = count; line = s; given = given; reports = reports })

  run_parser-IsFine :
      (f : Option (Parser Received)) (response : ResponseType) (p : Received) (s : List ℕ)
      (count : ℕ) (d : Device)
      → Given l count s
      → IsOurs f
      → From p.0.ip
      → IsFine (run_parser f response p s count d)
  unfolding run_parser
  run_parser-IsFine none response p s count d given ours h =
      recorded-IsFine response (falls none response p d) (returns response p d) (h, tt) h
  run_parser-IsFine (some g) response p s count d given ours h =
      after_parser-IsFine g (g response s count p) d ours
        (From-Origin count s p.0.ip _ given h (ours response s count p))

  on_reply-IsFine :
      (r : Reply) (w : Wait Received) (s : List ℕ) (count : ℕ) (d : Device)
      → Given l count s
      → Going w
      → IsFine (on_reply r w s count d)
  unfolding on_reply
  on_reply-IsFine echo w s count d given h = tt
  on_reply-IsFine fine w s count d given h = h.1
  on_reply-IsFine failed w s count d given h = h.1
  on_reply-IsFine other w s count d given h =
      run_parser-IsFine w.parser w.response w.params s count (record d { disable_diag = false })
        given h.2 h.1

  on_report-IsFine :
      (report : Option Device) (o : Outcome Received) → IsFine o → IsFine (on_report report o)
  on_report-IsFine none o h = h
  on_report-IsFine (some d) o h = tt

  on_line-IsFine :
      (w : Wait Received) (s : List ℕ) (count : ℕ) (d : Device)
      → Given l count s
      → Going w
      → IsFine (on_line w s count d)
  unfolding on_line
  on_line-IsFine w s count d given h =
      let d' = enable_diag (cstr s) d in
      let identified = take_imei (sscanf s cgsn_format) d' in
      let reply = on_reply (reply_of (cstr s)) w s count identified in
      let report = if d'.is_sara_r4 then none else take_nsonmi (sscanf s nsonmi_format) d' in
      on_report-IsFine (if length (sscanf s fota_format) == 2 then some d' else none)
        (on_report report reply)
        (on_report-IsFine report reply
          (on_reply-IsFine (reply_of (cstr s)) w s count identified given h))

  until_timeout-Stays :
      (start limit : ℕ) (w : Wait Received)
      → Going w
      → Allows (Stays Going Gone) (until_timeout start limit w)
  unfolding until_timeout
  until_timeout-Stays start limit w h = elim (Bool-cases (is_timedout start limit w.device)) [
    | inl late ↦ rw late h.1
    | inr early ↦ rw early h
  ]

  after_line-Stays :
      (start limit : ℕ) (w : Wait Received) (o : Outcome Received)
      → Going w
      → Tail l (device_of o).input
      → IsFine o
      → Allows (Stays Going Gone) (after_line start limit w o)
  unfolding after_line
  after_line-Stays start limit w (returns r p d) h t k = k
  after_line-Stays start limit w (continues d) h t k =
      until_timeout-Stays start limit (record w { device = d }) (t, h.1, h.2)
  after_line-Stays start limit w (falls f r p d) h t k =
      until_timeout-Stays start limit _ (t, k.0, k.1)

  body-Stays :
      (b : Bool) (start limit : ℕ) (w : Wait Received) (s : List ℕ) (count : ℕ) (d : Device)
      → Going w
      → Tail l d.input
      → Given l count s
      → Allows (Stays Going Gone) (
          after_line start limit w
            (if b then on_line w s count d else falls w.parser w.response w.params d))
  body-Stays true start limit w s count d h t given =
      after_line-Stays start limit w (on_line w s count d) h
        (subst (λ i. Tail l i) (sym (on_line-KeepsWorld w s count d).same_input) t)
        (on_line-IsFine w s count d given h)
  body-Stays false start limit w s count d h t given =
      after_line-Stays start limit w (falls w.parser w.response w.params d) h t (h.1, h.2)

  round-Stays :
      (start limit : ℕ) (w : Wait Received)
      → Going w
      → Allows (Stays Going Gone) (read_response_round start limit w)
  unfolding read_response_round after_read
  round-Stays start limit w h =
      Allows-and_then _ (Stays Going Gone) (read_ln 250 250 w.device) (after_read start limit w)
        (Allows-given (λ p. Tail l p.1.input) (read_ln 250 250 w.device)
          (read_ln-Tail l 250 250 w.device h.0))
        (λ p e.
          body-Stays (positive p.0.0) start limit w p.0.1 p.0.0 p.1 h e.1
            (record { here = w.device; there = p.1; sent = h.0; read = e.0 }))

  read_response-From :
      (f : Option (Parser Received)) (p : Received) (limit : ℕ) (d : Device)
      → Tail l d.input
      → From p.0.ip
      → IsOurs f
      → Allows Gone (read_response f p limit d)
  unfolding read_response
  read_response-From f p limit d t h ours =
      iterate-Stays Going Gone (read_response_round (millis d) limit)
        (λ w k. round-Stays (millis d) limit w k) (fuel_for limit d) _ (t, h, ours)

  request_receive-input :
      (size : ℕ) (d : Device) → Allows (λ p. p.1.input ≡ d.input) (request_receive size d)
  unfolding request_receive print println print_cr write_prolog
  request_receive-input size d = refl

  finish_receive-From :
      (r : ResponseType × Received) (d : Device)
      → From r.1.0.ip
      → Allows (λ p. From p.0.1.0.ip) (finish_receive r d)
  unfolding finish_receive
  finish_receive-From (r, received) d h = elim (Bool-cases (is_ok r)) [
    | inl good ↦ rw good h
    | inr bad ↦ rw bad h
  ]

  fetch-From :
      (size : ℕ) (received : Received) (d : Device)
      → Tail l d.input
      → From received.0.ip
      → Allows (λ p. From p.0.1.0.ip) (fetch size received d)
  unfolding fetch
  fetch-From size received d t h =
      bind-Allows (λ p. p.1.input ≡ d.input) _ (request_receive size) _ d
        (request_receive-input size d)
        (λ a e same.
          bind-Allows Gone _ (read_response (some udp_read_socket_parser) received default_read_ms)
            finish_receive e
            (read_response-From (some udp_read_socket_parser) received default_read_ms e
              (subst (λ i. Tail l i) (sym same) t) h
              (λ response s count p. udp_read_socket_parser-Origin s p response count))
            (λ r v k. finish_receive-From r v k))

  socket_receive-From :
      (size : ℕ) (received : Received) (d : Device)
      → Tail l d.input
      → From received.0.ip
      → Allows (λ p. From p.0.1.0.ip) (socket_receive size received d)
  unfolding socket_receive
  socket_receive-From size received d t h = elim (Bool-cases (has_pending_udp_bytes d)) [
    | inl some_pending ↦ rw some_pending (fetch-From size received d t h)
    | inr nothing ↦ rw nothing h
  ]

  decode_received-From :
      (size : ℕ) (r : ℕ × Received) (d : Device)
      → From r.1.0.ip
      → Allows (λ p. From p.0.1.ip) (decode_received size r d)
  unfolding decode_received
  decode_received-From size (n, (packet, content)) d h = elim (Bool-cases (ltb 0 size)) [
    | inr no_room ↦ rw no_room h
    | inl room ↦ elim (Bool-cases (stays_in size n)) [
      | inl inside ↦ rw (room, inside) h
      | inr outside ↦ rw (room, outside) tt
    ]
  ]

-- The address that `socketReceiveBytes` leaves is the one that the struct held, or the modem sent a
-- line that reports it.
pub socket_receive_bytes-From :
    (size : ℕ) (received : Received) (d : Device)
    → Allows
        (λ p. (p.0.1.ip ≡ received.0.ip) ⊎ Reported d.input p.0.1.ip)
        (socket_receive_bytes size received d)
unfolding socket_receive_bytes
socket_receive_bytes-From size received d =
    bind-Allows (λ p. From d.input received.0.ip p.0.1.0.ip) _
      (socket_receive (min size (min max_udp_buffer d.pending_bytes)) received)
      (decode_received size) d
      (socket_receive-From d.input received.0.ip (min size (min max_udp_buffer d.pending_bytes))
        received d whole (inl refl))
      (λ r e k. decode_received-From d.input received.0.ip size r e k)
