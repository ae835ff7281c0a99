-- ===== src/Modem/Response/Quiet.antt =====
-- What a wait for a response leaves as it is, whatever the modem sends and whatever the parser: it
-- says nothing, and keeps the credentials short.
use sag_c8y_nb_iot_demo.Base.{
  ℕ, ◌+◌, ◌≤◌, ◌≡◌, refl, sym, ap, ◌∙◌, Bool, true, false, Option, List, length, if◌then◌else◌,
  Bool-cases, inl, inr,
}
use mathlib.Core.Path.{subst}
use sag_c8y_nb_iot_demo.Base.Loop.{Allows-mono, Allows, Stays, iterate-Stays, Allows-and_then}
use sag_c8y_nb_iot_demo.Device.{Device, millis, is_timedout, fuel_for}
use sag_c8y_nb_iot_demo.Device.Identity.{HasShortCredentials, Keeps}
use sag_c8y_nb_iot_demo.Device.Read.{read_ln}
use sag_c8y_nb_iot_demo.Device.Read.Quiet.{read_ln-Fixes, read_ln-Quiet}
use sag_c8y_nb_iot_demo.Device.Sent.{said, Quiet, quiet_after}
use sag_c8y_nb_iot_demo.Modem.Response.{
  ResponseType, Parser, Wait, Outcome, continues, returns, falls, on_line, until_timeout,
  after_line, after_read, positive, read_response_round, read_response,
}
use sag_c8y_nb_iot_demo.Modem.Response.Returns.{device_of, on_line-KeepsWorld}

-- What a line and its treatment preserve, the whole wait preserves.
module _ {P : Type 0} (Q : Device → Type 0)
    (later : (d : Device) (clock : ℕ) → Q d → Q (record d { clock = clock }))
    (reads : (d : Device) → Q d → Allows (λ p. Q p.1) (read_ln 250 250 d))
    (takes : (w : Wait P) (s : List ℕ) (count : ℕ) (d : Device)
      → Q d
      → Q (device_of (on_line w s count d))) where
  abbrev Going : Wait P → Type 0
  Going w = Q w.device

  abbrev Gone : (ResponseType × P) × Device → Type 0
  Gone p = Q p.1

  until_timeout-Stays :
      (start limit : ℕ) (w : Wait P)
      → Going w
      → Allows (Stays Going Gone) (until_timeout start limit w)
  unfolding until_timeout
  until_timeout-Stays start limit w h = elim (Bool-cases (is_timedout start limit w.device)) [
    | inl late ↦ rw late h
    | inr early ↦ rw early h
  ]

  after_line-Stays :
      (start limit : ℕ) (w : Wait P) (o : Outcome P)
      → Q (device_of o)
      → Allows (Stays Going Gone) (after_line start limit w o)
  unfolding after_line
  after_line-Stays start limit w (returns r p d) h = h
  after_line-Stays start limit w (continues d) h = until_timeout-Stays start limit _ h
  after_line-Stays start limit w (falls f r p d) h =
      until_timeout-Stays start limit _ (later d (d.clock + 10) h)

  body-Stays :
      (b : Bool) (w : Wait P) (s : List ℕ) (count : ℕ) (d : Device)
      → Q d
      → Q (device_of (if b then on_line w s count d else falls w.parser w.response w.params d))
  body-Stays true w s count d h = takes w s count d h
  body-Stays false w s count d h = h

  round-Stays :
      (start limit : ℕ) (w : Wait P)
      → Going w
      → Allows (Stays Going Gone) (read_response_round start limit w)
  unfolding read_response_round after_read
  round-Stays start limit w h =
      Allows-and_then (λ p. Q p.1) (Stays Going Gone) (read_ln 250 250 w.device)
        (after_read start limit w) (reads w.device h)
        (λ p e. after_line-Stays start limit w _ (body-Stays (positive p.0.0) w p.0.1 p.0.0 p.1 e))

  read_response-Stays :
      (f : Option (Parser P)) (p : P) (limit : ℕ) (d : Device)
      → Q d
      → Allows Gone (read_response f p limit d)
  unfolding read_response
  read_response-Stays f p limit d h =
      iterate-Stays Going Gone (read_response_round (millis d) limit)
        (λ w k. round-Stays (millis d) limit w k) (fuel_for limit d) _ h

-- `readResponse` says nothing.
pub read_response-Quiet :
    {P : Type 0} (f : Option (Parser P)) (p : P) (limit : ℕ) → Quiet (read_response f p limit)
read_response-Quiet {P} f p limit d =
    read_response-Stays {P = P} (λ e. said e ≡ said d) (λ e clock h. h)
      (λ e h. quiet_after (read_ln 250 250) (said d) e (read_ln-Quiet 250 250) h)
      (λ w s count e h. (on_line-KeepsWorld w s count e).same_said ∙ h) f p limit d refl

-- An IMEI that it takes from the modem is cut to 15 characters.
pub read_response-Keeps :
    {P : Type 0} (f : Option (Parser P)) (p : P) (limit : ℕ) → Keeps (read_response f p limit)
read_response-Keeps {P} f p limit =
    read_response-Stays {P = P} HasShortCredentials (λ e clock h. h)
      (λ e h.
        Allows-mono (λ p. credentials_of p.1 ≡ credentials_of e) (λ p. HasShortCredentials p.1)
          (read_ln 250 250 e) (read_ln-Fixes credentials_of (λ d clock input below. refl) 250 250 e)
          (λ p same. subst (λ c. (length c.0 ≤ 15) × (length c.1 ≤ 20)) (sym same) h))
      (λ w s count e h.
        let k = on_line-KeepsWorld w s count e in
        (k.short_id h.0, rw (ap (λ v. v.token) k.same_said) h.1))
      f p limit
  where
    credentials_of : Device → List ℕ × List ℕ
    credentials_of d = (d.device_id, d.device_token)
