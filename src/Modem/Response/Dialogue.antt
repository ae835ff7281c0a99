-- ===== src/Modem/Response/Dialogue.antt =====
-- A whole exchange: `readResponse` while the modem delivers an answer and a final reply.
use sag_c8y_nb_iot_demo.Base.{
  ℕ, suc, ◌+◌, ◌-◌, ◌%◌, ◌^◌, ◌≤◌, ◌<◌, ◌≡◌, refl, ap, ◌∙◌, Bool, true, false, Option, none, some,
  List, [], ◌++◌, length, ltb, if◌then◌else◌, cstr, arith,
}
use sag_c8y_nb_iot_demo.Base.Loop.{again, done, and_then, carry_on, iterate-suc}
use sag_c8y_nb_iot_demo.Device.{Device, Poll, millis, fuel_for}
use sag_c8y_nb_iot_demo.Device.Read.Lines.{IsSent, read_ln-Line}
use sag_c8y_nb_iot_demo.Device.Steps.{Line, took, in_front, past}
use sag_c8y_nb_iot_demo.Modem.Response.{
  not_found, empty, Parser, Wait, Outcome, falls, positive, fota_format, nsonmi_format, cgsn_format,
  on_report, other, reply_of, run_parser, on_reply, on_line, until_timeout, after_line, after_read,
  read_response_round, read_response,
}
use sag_c8y_nb_iot_demo.Modem.Response.Reports.{Final, text_of, type_of, on_line-Final}
use sag_c8y_nb_iot_demo.Scan.{sscanf}

-- A line that the driver's buffer of 250 bytes holds, with some text on it.
pub record IsReadable (l : Line) : Type 0 where
  pub sent : IsSent l
  pub filled : 0 < length l.text
  pub fits : length l.text + 2 < 250

-- A line that is left to the parser: no report, no echo and no final reply.
pub record IsAnswer (s : List ℕ) : Type 0 where
  pub no_fota : sscanf s fota_format ≡ []
  pub no_nsonmi : sscanf s nsonmi_format ≡ []
  pub no_cgsn : sscanf s cgsn_format ≡ []
  pub plain : reply_of (cstr s) ≡ other

-- The device once a reply was taken.
abbrev pub replied : Device → ℕ → List Poll → Device
replied d ms rest = record (past d ms rest) { disable_diag = false }

module _ {P : Type 0} where
  -- A round of the wait reads the line that is there.
  pub round-Line :
      (start limit : ℕ) (w : Wait P) (l : Line) (rest : List Poll)
      → IsReadable l
      → w.device.input ≡ in_front l rest
      → read_response_round start limit w
        ≡ after_line start limit w (on_line w l.text (length l.text) (past w.device (took l) rest))
  unfolding read_response_round after_read
  round-Line start limit w l rest h shape =
      ap (λ r. and_then r (after_read start limit w))
        (read_ln-Line 250 250 l rest w.device h.sent h.fits shape)
      ∙ rw number
    where
      number : positive (length l.text) ≡ true
      number = ground (arith, h.filled, h.fits)

  -- A final reply ends the wait.
  pub round-Final :
      (start limit : ℕ) (w : Wait P) (l : Line) (rest : List Poll) (r : Final) (after : List ℕ)
      → IsReadable l
      → cstr l.text ≡ text_of r ++ after
      → w.device.input ≡ in_front l rest
      → read_response_round start limit w
        ≡ some (done ((type_of r, w.params), replied w.device (took l) rest))
  unfolding after_line
  round-Final start limit w l rest r after h final shape =
      round-Line start limit w l rest h shape
      ∙ ap (after_line start limit w)
          (on_line-Final r after w l.text (length l.text) (past w.device (took l) rest) final)

  pub no_report : (b : Bool) (o : Outcome P) → on_report (if b then none else none) o ≡ o
  no_report true o = refl
  no_report false o = refl

  -- An answer that the parser takes.
  on_line-IsAnswer :
      (f : Parser P) (p p' : P) (e : Device) (s : List ℕ) (count : ℕ) (d : Device)
      → IsAnswer s
      → f not_found s count p ≡ (empty, not_found, p')
      → on_line (record { device = e; parser = some f; response = not_found; params = p }) s count d
        ≡ falls none not_found p' (record d { disable_diag = false })
  unfolding on_line on_reply run_parser
  on_line-IsAnswer f p p' e s count d h parsed =
      rw (h.no_fota, h.no_nsonmi, h.no_cgsn, h.plain) (no_report d.is_sara_r4 _ ∙ rw parsed)

  round-IsAnswer :
      (f : Parser P) (p p' : P) (limit : ℕ) (l : Line) (rest : List Poll) (d : Device)
      → IsReadable l
      → IsAnswer l.text
      → f not_found l.text (length l.text) p ≡ (empty, not_found, p')
      → d.input ≡ in_front l rest
      → took l + 10 ≤ limit
      → limit < 2 ^ 32
      → read_response_round
          (millis d)
          limit
          (record { device = d; parser = some f; response = not_found; params = p })
        ≡ some (
            again (record {
              device = replied d (took l + 10) rest;
              parser = none;
              response = not_found;
              params = p';
            }))
  unfolding after_line until_timeout
  round-IsAnswer f p p' limit l rest d h answer parsed shape early small =
      round-Line (millis d) limit first l rest h shape
      ∙ ap (after_line (millis d) limit first)
          (on_line-IsAnswer f p p' d l.text (length l.text) (past d (took l) rest) answer parsed)
      ∙ rw in_time (λ i. some (
          again (record {
            device = record d { clock = sum i; input = rest; disable_diag = false };
            parser = none;
            response = not_found;
            params = p';
          })))
    where
      first : Wait P
      first = record { device = d; parser = some f; response = not_found; params = p }

      in_time :
          ltb limit ((((d.clock + took l + 10) % 2 ^ 32) + 2 ^ 32 - millis d) % 2 ^ 32) ≡ false
      in_time = ground arith

      sum : d.clock + took l + 10 ≡ d.clock + (took l + 10)
      sum = omega arith

  -- `readResponse`, with or without a parser, when the modem delivers a final reply that the buffer
  -- holds: it returns the reply's kind and leaves the parameters alone; just the reply is taken off
  -- the line, and nothing else changes but that diagnostics are printed again.
  pub read_response-Final :
      (f : Option (Parser P)) (p : P) (limit : ℕ) (l : Line) (rest : List Poll) (r : Final)
      (after : List ℕ) (d : Device)
      → IsReadable l
      → cstr l.text ≡ text_of r ++ after
      → d.input ≡ in_front l rest
      → read_response f p limit d ≡ some ((type_of r, p), replied d (took l) rest)
  unfolding read_response
  read_response-Final f p limit l rest r after d h final shape =
      let fuel : fuel_for limit d ≡ suc (fuel_for limit d - 1) = omega arith in
      rw fuel (
        iterate-suc (fuel_for limit d - 1) (read_response_round (millis d) limit) first
        ∙ ap (carry_on (fuel_for limit d - 1) (read_response_round (millis d) limit))
            (round-Final (millis d) limit first l rest r after h final shape))
    where
      first : Wait P
      first = record { device = d; parser = f; response = not_found; params = p }

  -- `readResponse` with a parser, when the modem delivers an answer that the parser takes, within
  -- the time limit, and then a final reply: it returns the reply's kind and the parameters as the
  -- parser filled them; just the two lines are taken off, and nothing else changes but that
  -- diagnostics are printed again.
  pub read_response-IsAnswer :
      (f : Parser P) (p p' : P) (limit : ℕ) (l l' : Line) (rest : List Poll) (r : Final)
      (after : List ℕ) (d : Device)
      → IsReadable l
      → IsReadable l'
      → IsAnswer l.text
      → f not_found l.text (length l.text) p ≡ (empty, not_found, p')
      → cstr l'.text ≡ text_of r ++ after
      → d.input ≡ in_front l (in_front l' rest)
      → took l + 10 ≤ limit
      → limit < 2 ^ 32
      → read_response (some f) p limit d
        ≡ some ((type_of r, p'), replied d (took l + 10 + took l') rest)
  unfolding read_response
  read_response-IsAnswer f p p' limit l l' rest r after d h h' answer parsed final shape early
        small =
      let fuel : fuel_for limit d ≡ suc (suc (fuel_for limit d - 2)) = omega arith in
      rw fuel (
        iterate-suc (suc (fuel_for limit d - 2)) (read_response_round (millis d) limit) first
        ∙ ap (carry_on (suc (fuel_for limit d - 2)) (read_response_round (millis d) limit))
            (round-IsAnswer f p p' limit l (in_front l' rest) d h answer parsed shape early small)
        ∙ iterate-suc (fuel_for limit d - 2) (read_response_round (millis d) limit) second
        ∙ ap (carry_on (fuel_for limit d - 2) (read_response_round (millis d) limit))
            (round-Final (millis d) limit second l' rest r after h' final refl)
        ∙ λ i.
            some ((type_of r, p'), record d { clock = sum i; input = rest; disable_diag = false }))
    where
      first : Wait P
      first = record { device = d; parser = some f; response = not_found; params = p }

      second : Wait P
      second = record {
        device = replied d (took l + 10) (in_front l' rest);
        parser = none;
        response = not_found;
        params = p';
      }

      sum : d.clock + (took l + 10) + took l' ≡ d.clock + (took l + 10 + took l')
      sum = omega arith
