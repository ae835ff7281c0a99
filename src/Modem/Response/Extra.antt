-- ===== src/Modem/Response/Extra.antt =====
-- An exchange in which the modem answers with several lines: each is left to the parser, which asks
-- for more, until the final reply.
use sag_c8y_nb_iot_demo.Base.{
  ℕ, zero, suc, ◌+◌, ◌-◌, ◌*◌, ◌%◌, ◌^◌, ◌≤◌, ◌<◌, ◌≡◌, refl, ap, ◌∙◌, false, some, List, [], ◌∷◌,
  ◌++◌, length, length-append, ltb, cstr, arith,
}
use sag_c8y_nb_iot_demo.Base.Loop.{again, carry_on, iterate, iterate-suc}
use sag_c8y_nb_iot_demo.Device.{Device, Poll, fuel_for}
use sag_c8y_nb_iot_demo.Device.Steps.{Line, took, delivered, in_front, past}
use sag_c8y_nb_iot_demo.Modem.Response.{
  not_found, pending_extra, Parser, Wait, falls, run_parser, on_reply, on_line, until_timeout,
  after_line, read_response_round, read_response,
}
use sag_c8y_nb_iot_demo.Modem.Response.Dialogue.{
  IsReadable, IsAnswer, replied, no_report, round-Line, round-Final,
}
use sag_c8y_nb_iot_demo.Modem.Response.Reports.{Final, text_of, type_of}

-- The lines in front of others.
abbrev pub all_in_front : List Line → List Poll → List Poll
all_in_front [] rest = rest
all_in_front (l ∷ ls) rest = in_front l (all_in_front ls rest)

-- The time for the lines, with the pause behind each.
abbrev pub took_all : List Line → ℕ
took_all [] = 0
took_all (l ∷ ls) = took l + 10 + took_all ls

-- Every line is an answer that the parser takes and asks for more: what it makes of the parameters.
pub data Reads {P : Type 0} (f : Parser P) : P → List Line → P → Type 0 where
  no_line : (p : P) → Reads f p [] p
  one_line :
      (p p' p'' : P) (l : Line) (ls : List Line)
      → IsReadable l
      → IsAnswer l.text
      → f not_found l.text (length l.text) p ≡ (pending_extra, not_found, p')
      → Reads f p' ls p''
      → Reads f p (l ∷ ls) p''

all_in_front-long :
    (ls : List Line) (rest : List Poll) → length ls + length rest ≤ length (all_in_front ls rest)
all_in_front-long [] rest = omega arith
all_in_front-long (l ∷ ls) rest =
    omega (
      arith,
      all_in_front-long ls rest,
      length-append (delivered l.chars) (_ ∷ all_in_front ls rest),
    )

module _ {P : Type 0} where
  -- An answer with which the parser is not done.
  on_line-Extra :
      (f : Parser P) (p p' : P) (e : Device) (s : List ℕ) (count : ℕ) (d : Device)
      → IsAnswer s
      → f not_found s count p ≡ (pending_extra, not_found, p')
      → on_line (record { device = e; parser = some f; response = not_found; params = p }) s count d
        ≡ falls (some f) not_found p' (record d { disable_diag = false })
  unfolding on_line on_reply run_parser
  on_line-Extra f p p' e s count d h parsed =
      rw (h.no_fota, h.no_nsonmi, h.no_cgsn, h.plain) (no_report d.is_sara_r4 _ ∙ rw parsed)

  module _ (f : Parser P) (limit begin : ℕ) (small : limit < 2 ^ 32) where
    waiting : Device → P → Wait P
    waiting d p = record { device = d; parser = some f; response = not_found; params = p }

    round-Extra :
        (p p' : P) (spent : ℕ) (l : Line) (rest : List Poll) (d : Device)
        → IsReadable l
        → IsAnswer l.text
        → f not_found l.text (length l.text) p ≡ (pending_extra, not_found, p')
        → d.input ≡ in_front l rest
        → d.clock ≡ begin + spent
        → spent + (took l + 10) ≤ limit
        → read_response_round (begin % 2 ^ 32) limit (waiting d p)
          ≡ some (again (waiting (replied d (took l + 10) rest) p'))
    unfolding after_line until_timeout waiting
    round-Extra p p' spent l rest d h answer parsed shape clock early =
        round-Line (begin % 2 ^ 32) limit (waiting d p) l rest h shape
        ∙ ap (after_line (begin % 2 ^ 32) limit (waiting d p))
            (on_line-Extra f p p' d l.text (length l.text) (past d (took l) rest) answer parsed)
        ∙ rw in_time (λ i. some (
            again (record {
              device = record d { clock = sum i; input = rest; disable_diag = false };
              parser = some f;
              response = not_found;
              params = p';
            })))
      where
        in_time :
            ltb limit ((((d.clock + took l + 10) % 2 ^ 32) + 2 ^ 32 - (begin % 2 ^ 32)) % 2 ^ 32)
            ≡ false
        in_time = ground arith

        sum : d.clock + took l + 10 ≡ d.clock + (took l + 10)
        sum = omega arith

    module _ (l' : Line) (rest : List Poll) (r : Final) (after : List ℕ) (h' : IsReadable l')
        (final : cstr l'.text ≡ text_of r ++ after) where
      iterate-Reads :
          (p : P) (ls : List Line) (p' : P) (fuel spent : ℕ) (d : Device)
          → Reads f p ls p'
          → length ls < fuel
          → d.input ≡ all_in_front ls (in_front l' rest)
          → d.clock ≡ begin + spent
          → spent + took_all ls ≤ limit
          → iterate fuel (read_response_round (begin % 2 ^ 32) limit) (waiting d p)
            ≡ some ((type_of r, p'), replied d (took_all ls + took l') rest)
      unfolding waiting
      iterate-Reads p ls p' zero spent d reads enough shape clock early = absurd (omega arith)
      iterate-Reads p _ _ (suc fuel) spent d (no_line _) enough shape clock early =
          iterate-suc fuel (read_response_round (begin % 2 ^ 32) limit) (waiting d p)
          ∙ ap (carry_on fuel (read_response_round (begin % 2 ^ 32) limit))
              (round-Final (begin % 2 ^ 32) limit (waiting d p) l' rest r after h' final shape)
          ∙ λ i. some ((type_of r, p), replied d (sum i) rest)
        where
          sum : took l' ≡ 0 + took l'
          sum = omega arith
      iterate-Reads p _ p'' (suc fuel) spent d (one_line _ p' _ l ls h answer parsed reads) enough
            shape clock early =
          iterate-suc fuel (read_response_round (begin % 2 ^ 32) limit) (waiting d p)
          ∙ ap (carry_on fuel (read_response_round (begin % 2 ^ 32) limit)) (
              round-Extra p p' spent l (all_in_front ls (in_front l' rest)) d h answer parsed shape
                clock (omega arith))
          ∙ iterate-Reads p' ls p'' fuel (spent + (took l + 10))
              (replied d (took l + 10) (all_in_front ls (in_front l' rest))) reads (omega arith)
              refl (omega arith) (omega arith)
          ∙ λ i.
              some
                ((type_of r, p''), record d { clock = sum i; input = rest; disable_diag = false })
        where
          sum :
              d.clock + (took l + 10) + (took_all ls + took l')
              ≡ d.clock + (took l + 10 + took_all ls + took l')
          sum = omega arith

-- `readResponse` with a parser that asks for more, when the modem delivers answers that it takes,
-- all within the time limit, and then a final reply: it returns the reply's kind and the parameters
-- as the parser left them behind the last answer; just these lines are taken off, and nothing else
-- changes but that diagnostics are printed again.
pub read_response-Reads :
    {P : Type 0} (f : Parser P) (p p' : P) (limit : ℕ) (ls : List Line) (l' : Line)
    (rest : List Poll) (r : Final) (after : List ℕ) (d : Device)
    → Reads f p ls p'
    → IsReadable l'
    → cstr l'.text ≡ text_of r ++ after
    → d.input ≡ all_in_front ls (in_front l' rest)
    → took_all ls ≤ limit
    → limit < 2 ^ 32
    → read_response (some f) p limit d
      ≡ some ((type_of r, p'), replied d (took_all ls + took l') rest)
unfolding read_response waiting
read_response-Reads f p p' limit ls l' rest r after d reads h' final shape early small =
    iterate-Reads f limit d.clock small l' rest r after h' final p ls p' (fuel_for limit d) 0 d
      reads
      (enough (length d.input)
        (omega (arith, all_in_front-long ls (in_front l' rest), ap length shape)))
      shape (omega arith) (omega arith)
  where
    grows : (n : ℕ) → n ≤ n * (limit + 2)
    grows zero = omega arith
    grows (suc n) = omega (arith, grows n)

    enough : (n : ℕ) → length ls ≤ n → length ls < n * (limit + 2) + limit + 2
    enough n h = omega (arith, grows n)
