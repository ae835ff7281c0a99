-- ===== src/Modem/Response/Returns.antt =====
-- `readResponse` always returns: each round takes polls off the line or spends time.
use sag_c8y_nb_iot_demo.Base.{
  ℕ, ◌+◌, ◌^◌, ◌≤◌, ◌<◌, ◌≡◌, refl, ap, Option, none, some, length, List, arith, Bool, false,
  if◌then◌else◌, cstr,
}
use sag_c8y_nb_iot_demo.Base.Loop.{Returns, Proceeds, iterate-Returns, Returns-and_then}
use sag_c8y_nb_iot_demo.Device.{Device, millis, since, fuel_for}
use sag_c8y_nb_iot_demo.Device.Read.{read_ln}
use sag_c8y_nb_iot_demo.Device.Read.Returns.{IsLine, read_ln-IsLine}
use sag_c8y_nb_iot_demo.Device.Timing.{Moves, rest, rest_drops, rest-lt-fuel_for}
use sag_c8y_nb_iot_demo.Device.Sent.{said}
use sag_c8y_nb_iot_demo.Modem.Response.{
  ResponseType, Parser, Wait, Outcome, Reply, echo, fine, failed, other, reply_of, continues,
  returns, falls, take_nsonmi, take_imei, enable_diag, after_parser, run_parser, on_reply, on_line,
  cgsn_format, on_report, after_line, after_read, positive, read_response_round, read_response,
}
use sag_c8y_nb_iot_demo.Scan.{Value, sscanf}

-- The device in which a line leaves the loop's body.
abbrev pub device_of : {P : Type 0} → Outcome P → Device
device_of (continues d) = d
device_of (returns r p d) = d
device_of (falls f r p d) = d

-- A line changes fields of the driver: it uses neither the line nor time, and says nothing.
pub record KeepsWorld {P : Type 0} (d : Device) (o : Outcome P) : Type 0 where
  pub same_input : (device_of o).input ≡ d.input
  pub same_clock : (device_of o).clock ≡ d.clock
  pub same_said : said (device_of o) ≡ said d
  pub short_id : length d.device_id ≤ 15 → length (device_of o).device_id ≤ 15

module _ {P : Type 0} where
  after_parser-KeepsWorld :
      (f : Parser P) (r : ResponseType × ResponseType × P) (d : Device)
      → KeepsWorld d (after_parser f r d)
  unfolding after_parser
  after_parser-KeepsWorld f (r, response, p) d = ground arith

  run_parser-KeepsWorld :
      (f : Option (Parser P)) (response : ResponseType) (p : P) (s : List ℕ) (count : ℕ)
      (d : Device)
      → KeepsWorld d (run_parser f response p s count d)
  unfolding run_parser
  run_parser-KeepsWorld none response p s count d = ground arith
  run_parser-KeepsWorld (some f) response p s count d = after_parser-KeepsWorld f _ d

  on_reply-KeepsWorld :
      (r : Reply) (w : Wait P) (s : List ℕ) (count : ℕ) (d : Device)
      → KeepsWorld d (on_reply r w s count d)
  unfolding on_reply
  on_reply-KeepsWorld echo w s count d = record {
    same_input = refl;
    same_clock = refl;
    same_said = refl;
    short_id = λ h. h;
  }
  on_reply-KeepsWorld fine w s count d = record {
    same_input = refl;
    same_clock = refl;
    same_said = refl;
    short_id = λ h. h;
  }
  on_reply-KeepsWorld failed w s count d = record {
    same_input = refl;
    same_clock = refl;
    same_said = refl;
    short_id = λ h. h;
  }
  on_reply-KeepsWorld other w s count d =
      let k =
        run_parser-KeepsWorld w.parser w.response w.params s count
          (record d { disable_diag = false }) in
      record {
        same_input = k.same_input;
        same_clock = k.same_clock;
        same_said = k.same_said;
        short_id = k.short_id;
      }

  on_report-KeepsWorld :
      (r : Option Device) (d : Device) (o : Outcome P)
      → ((e : Device) → r ≡ some e → KeepsWorld {P = P} d (continues e))
      → KeepsWorld d o
      → KeepsWorld d (on_report r o)
  on_report-KeepsWorld none d o h k = k
  on_report-KeepsWorld (some e) d o h k = h e refl

  fota-KeepsWorld :
      (b : Bool) (d e : Device)
      → (if b then some d else none) ≡ some e
      → KeepsWorld {P = P} d (continues e)
  fota-KeepsWorld b d e h = ground arith

  nsonmi-KeepsWorld :
      (b : Bool) (l : List Value) (d e : Device)
      → (if b then none else take_nsonmi l d) ≡ some e
      → KeepsWorld {P = P} d (continues e)
  nsonmi-KeepsWorld b l d e h = ground arith

  imei-KeepsWorld :
      (l : List Value) (d : Device) (o : Outcome P) → KeepsWorld (take_imei l d) o → KeepsWorld d o
  imei-KeepsWorld l d o k = ground arith

  pub on_line-KeepsWorld :
      (w : Wait P) (s : List ℕ) (count : ℕ) (d : Device) → KeepsWorld d (on_line w s count d)
  unfolding on_line
  on_line-KeepsWorld w s count d =
      let k =
        on_report-KeepsWorld _ (enable_diag (cstr s) d) _
          (fota-KeepsWorld _ (enable_diag (cstr s) d))
          (on_report-KeepsWorld _ (enable_diag (cstr s) d) _
            (nsonmi-KeepsWorld d.is_sara_r4 _ (enable_diag (cstr s) d))
            (imei-KeepsWorld (sscanf s cgsn_format) _ _
              (on_reply-KeepsWorld (reply_of (cstr s)) w s count _))) in
      record {
        same_input = k.same_input;
        same_clock = k.same_clock;
        same_said = k.same_said;
        short_id = k.short_id;
      }

-- Where the loop may stand between two rounds.
abbrev Waiting : {P : Type 0} → ℕ → Device → Wait P → Type 0
Waiting limit d w = (since (millis d) w.device ≤ limit) × Moves 0 limit d w.device

-- What it gives in the end.
abbrev pub Answers : {P : Type 0} → ℕ → Device → (ResponseType × P) × Device → Type 0
Answers limit d p = Moves 1 (limit + 261) d p.1

module _ {P : Type 0} where
  after_line-Proceeds :
      (limit : ℕ) (d : Device) (w : Wait P) (o : Outcome P)
      → limit + 261 < 2 ^ 32
      → Waiting limit d w
      → Moves 1 251 w.device (device_of o)
      → Returns
          (Proceeds
            (Waiting limit d)
            (Answers limit d)
            (λ (v : Wait P). rest limit (millis d) v.device)
            (rest limit (millis d) w.device))
          (after_line (millis d) limit w o)
  unfolding after_line
  after_line-Proceeds limit d w (returns r p e) hb h mv = omega arith
  after_line-Proceeds limit d w (continues e) hb h mv =
      ground (arith, rest_drops limit 261 (millis d) w.device e (omega arith) hb h.0)
  after_line-Proceeds limit d w (falls f r p e) hb h mv = ground (
    arith,
    rest_drops limit 261 (millis d) w.device (record e { clock = e.clock + 10 }) (omega arith) hb
        h.0,
  )

  line-Moves :
      (w : Wait P) (s : List ℕ) (count : ℕ) (c e : Device)
      → Moves 1 251 c e
      → Moves 1 251 c (
          device_of
            (if positive count then on_line w s count e else falls w.parser w.response w.params e))
  line-Moves w s count c e mv =
      let k = on_line-KeepsWorld w s count e in ground (arith, ap length k.same_input, k.same_clock)

  after_read-Proceeds :
      (limit : ℕ) (d : Device) (w : Wait P) (p : (ℕ × List ℕ) × Device)
      → limit + 261 < 2 ^ 32
      → Waiting limit d w
      → IsLine 250 250 w.device p
      → Returns
          (Proceeds
            (Waiting limit d)
            (Answers limit d)
            (λ (v : Wait P). rest limit (millis d) v.device)
            (rest limit (millis d) w.device))
          (after_read (millis d) limit w p)
  unfolding after_read
  after_read-Proceeds limit d w ((count, s), e) hb h line =
      after_line-Proceeds limit d w _ hb h (line-Moves w s count w.device e line.2)

  read_response_round-Proceeds :
      (limit : ℕ) (d : Device) (w : Wait P)
      → limit + 261 < 2 ^ 32
      → Waiting limit d w
      → Returns
          (Proceeds
            (Waiting limit d)
            (Answers limit d)
            (λ (v : Wait P). rest limit (millis d) v.device)
            (rest limit (millis d) w.device))
          (read_response_round (millis d) limit w)
  unfolding read_response_round
  read_response_round-Proceeds limit d w hb h =
      Returns-and_then (IsLine 250 250 w.device) _ (read_ln 250 250 w.device)
        (after_read (millis d) limit w) (read_ln-IsLine 248 250 w.device (omega arith))
        (λ p line. after_read-Proceeds limit d w p hb h line)

  -- `readResponse`, with any timeout up to 261 ms short of a turn of the clock, returns, whatever
  -- the modem sends on lines that overrun none of the driver's arrays, and whatever the parser: it
  -- took polls off the line, and then nothing bounds its time, or from 1 ms to 261 ms more than the
  -- timeout went by.
  pub read_response-Answers :
      (f : Option (Parser P)) (p : P) (limit : ℕ) (d : Device)
      → limit + 261 < 2 ^ 32
      → Returns (Answers limit d) (read_response f p limit d)
  unfolding read_response
  read_response-Answers f p limit d hb =
      iterate-Returns (Waiting limit d) (Answers limit d)
        (λ (v : Wait P). rest limit (millis d) v.device) (read_response_round (millis d) limit)
        (λ w h. read_response_round-Proceeds limit d w hb h) (fuel_for limit d) _
        (rest-lt-fuel_for limit (millis d) d) (omega arith)
