-- ===== src/Modem/Commands/Config.antt =====
-- `checkAndApplyNconfig` with a modem that reports its settings.
use sag_c8y_nb_iot_demo.Base.{
  ℕ, ◌+◌, ◌≤◌, ◌<◌, ◌≡◌, refl, sym, ap, ◌∙◌, Bool, true, false, none, some, List, [], ◌∷◌, ◌++◌,
  append_assoc, append-nil, length, codes, cstr, if◌then◌else◌, arith,
}
use mathlib.Core.Path.{subst}
use sag_c8y_nb_iot_demo.Base.Loop.{Returns, Returns-Allows}
use sag_c8y_nb_iot_demo.Device.{Device, Poll, pure, ◌>>=◌}
use sag_c8y_nb_iot_demo.Device.Print.{write_prolog, print, print_cr, println}
use sag_c8y_nb_iot_demo.Device.Sent.{said, line, Speaks, Speaks-bind, then_pure-Speaks}
use sag_c8y_nb_iot_demo.Device.Steps.{bind-some, Line, took, in_front}
use sag_c8y_nb_iot_demo.Device.Timing.{Moves, Returns-mono}
use sag_c8y_nb_iot_demo.Modem.Commands.{
  is_ok, default_read_ms, parsed, set_nconfig_param, apply_config, apply_parsed,
  check_and_apply_nconfig,
}
use sag_c8y_nb_iot_demo.Modem.Commands.Returns.{apply_parsed-Bounded}
use sag_c8y_nb_iot_demo.Modem.Commands.Script.{read_nconfig, write_nconfig, set_nconfig_param-line}
use sag_c8y_nb_iot_demo.Modem.Parsers.{n_config, mark_config, nconfig_parser}
use sag_c8y_nb_iot_demo.Modem.Parsers.Config.{
  Setting, nconfig_line, nconfig_parser-nconfig_line, with_reports, with_reports-nothing,
  with_reports-mark_config,
}
use sag_c8y_nb_iot_demo.Modem.Parsers.Fields.{IsQuoted}
use sag_c8y_nb_iot_demo.Modem.Response.{ok, not_found, read_response, reply_of}
use sag_c8y_nb_iot_demo.Modem.Response.Dialogue.{IsReadable, IsAnswer, replied}
use sag_c8y_nb_iot_demo.Modem.Response.Extra.{
  all_in_front, took_all, Reads, no_line, one_line, read_response-Reads,
}
use sag_c8y_nb_iot_demo.Modem.Response.Reports.{ok_reply}
use sag_c8y_nb_iot_demo.Modem.Send.Wire.{written}
use sag_c8y_nb_iot_demo.Scan.{scan, sscanf}

-- A report of a setting is left to the parser.
nconfig_line-IsAnswer : (s name value : List ℕ) → cstr s ≡ nconfig_line (name, value) → IsAnswer s
unfolding sscanf scan reply_of
nconfig_line-IsAnswer s name value shape = record {
  no_fota = rw shape refl;
  no_nsonmi = rw shape refl;
  no_cgsn = rw shape refl;
  plain = rw shape refl;
}

-- The lines report these settings, whose names and values fit the parser's arrays of 32 characters.
pub data Tells : List Line → List Setting → Type 0 where
  no_setting : Tells [] []
  one_setting :
      (l : Line) (ls : List Line) (name value : List ℕ) (reports : List Setting)
      → IsReadable l
      → IsQuoted name
      → IsQuoted value
      → length name < 32
      → length value < 32
      → cstr l.text ≡ nconfig_line (name, value)
      → Tells ls reports
      → Tells (l ∷ ls) ((name, value) ∷ reports)

Tells-Reads :
    (ls : List Line) (reports : List Setting) (marks : List Bool)
    → Tells ls reports
    → Reads nconfig_parser marks ls (with_reports reports n_config marks)
Tells-Reads _ _ marks no_setting =
    subst (λ m. Reads nconfig_parser marks [] m) (sym (with_reports-nothing n_config marks))
      (no_line marks)
Tells-Reads _ _ marks (one_setting l ls name value reports h hn hv small short shape tells) =
    let marked = mark_config name value n_config marks in
    one_line marks marked (with_reports ((name, value) ∷ reports) n_config marks) l ls h
      (nconfig_line-IsAnswer l.text name value shape)
      (nconfig_parser-nconfig_line not_found l.text (length l.text) marks name value hn hv small
        short shape)
      (subst (λ m. Reads nconfig_parser marked ls m)
        (with_reports-mark_config name value reports marks) (Tells-Reads ls reports marked tells))

-- The commands for the entries that are not marked, in the order of the table.
abbrev pub commands_for : List Setting → List Bool → List ℕ
commands_for ((name, value) ∷ table) (true ∷ marks) = commands_for table marks
commands_for ((name, value) ∷ table) (false ∷ marks) =
    write_nconfig name value ++ commands_for table marks
commands_for _ _ = []

apply_config-line :
    (table : List Setting) (marks : List Bool)
    → Speaks (λ _. line (commands_for table marks)) (apply_config table marks)
unfolding apply_config
apply_config-line [] marks d = ap (λ o. record (said d) { output = o }) (sym (append-nil d.output))
apply_config-line (e ∷ table) [] d =
    ap (λ o. record (said d) { output = o }) (sym (append-nil d.output))
apply_config-line ((name, value) ∷ table) (true ∷ marks) d = apply_config-line table marks d
apply_config-line ((name, value) ∷ table) (false ∷ marks) d =
    Speaks-bind (λ _. line (write_nconfig name value)) (λ _ _. line (commands_for table marks))
      (λ _. line (write_nconfig name value ++ commands_for table marks))
      (set_nconfig_param name value) (λ _. apply_config table marks)
      (set_nconfig_param-line name value) (λ _. apply_config-line table marks)
      (λ a b v w v' e k.
        rw (k, e)
          (ap (λ o. record v { output = o })
            (append_assoc v.output (write_nconfig name value) (commands_for table marks))))
      d

-- All of them go out, and the operation succeeds, whatever the modem replies to them.
apply_parsed-Applies :
    (marks : List Bool)
    → Speaks
        (λ b v v'. (b ≡ true) × line (commands_for n_config marks) v v')
        (apply_parsed (some marks))
unfolding apply_parsed
apply_parsed-Applies marks =
    then_pure-Speaks (λ _. line (commands_for n_config marks))
      (λ b v v'. (b ≡ true) × line (commands_for n_config marks) v v') (apply_config n_config marks)
      (λ _. true) (apply_config-line n_config marks) (λ a v v' e. (refl, e))

-- The question goes out, and the modem's reports mark the table.
asked :
    (stray : List Bool) (reports : List Setting) (ls : List Line) (l' : Line) (rest : List Poll)
    (after : List ℕ) (d : Device)
    → Tells ls reports
    → IsReadable l'
    → cstr l'.text ≡ codes "OK" ++ after
    → d.input ≡ all_in_front ls (in_front l' rest)
    → took_all ls ≤ 5000
    → check_and_apply_nconfig stray d
      ≡ apply_parsed
          (some (with_reports reports n_config stray))
          (replied (written d read_nconfig) (took_all ls + took l') rest)
unfolding check_and_apply_nconfig parsed println print_cr print write_prolog
asked stray reports ls l' rest after d tells h' final shape early =
    bind-some (println (codes "AT+NCONFIG?")) (λ _. parsed nconfig_parser stray >>= apply_parsed) d
      (written d read_nconfig) tt
      (λ i. some (
        tt,
        record d {
          output = append_assoc d.output (codes "AT+NCONFIG?") (b'\r' ∷ []) i;
          append_command = false;
        },
      ))
    ∙ bind-some (parsed nconfig_parser stray) apply_parsed (written d read_nconfig)
        (replied (written d read_nconfig) (took_all ls + took l') rest)
        (some (with_reports reports n_config stray))
        (bind-some (read_response (some nconfig_parser) stray default_read_ms)
          (λ q. pure (if is_ok q.0 then some q.1 else none)) (written d read_nconfig)
          (replied (written d read_nconfig) (took_all ls + took l') rest)
          (ok, with_reports reports n_config stray)
          (read_response-Reads nconfig_parser stray (with_reports reports n_config stray)
            default_read_ms ls l' rest ok_reply after (written d read_nconfig)
            (Tells-Reads ls reports stray tells) h' final shape early (omega arith)))

-- The settings are brought in line: the modem is asked for them, and if it reports any number of
-- settings within five seconds, in any order and also others, and then OK, the operation returns
-- true and writes just the commands for those entries of its table that were not reported with
-- their value, in the table's order, whatever the modem replies to them. The marks of the table are
-- not initialised: an entry whose mark happens to be set is left out too. The names and values that
-- are reported are not empty, have no quote, and have at most 31 characters: longer ones overrun the
-- parser's arrays.
pub check_and_apply_nconfig-Tells :
    (stray : List Bool) (reports : List Setting) (ls : List Line) (l' : Line) (rest : List Poll)
    (after : List ℕ) (d : Device)
    → Tells ls reports
    → IsReadable l'
    → cstr l'.text ≡ codes "OK" ++ after
    → d.input ≡ all_in_front ls (in_front l' rest)
    → took_all ls ≤ 5000
    → Returns
        (λ p.
          (p.0 ≡ true)
          × line
              (read_nconfig ++ commands_for n_config (with_reports reports n_config stray))
              (said d)
              (said p.1))
        (check_and_apply_nconfig stray d)
check_and_apply_nconfig-Tells stray reports ls l' rest after d tells h' final shape early =
    let marks = with_reports reports n_config stray in
    let e = replied (written d read_nconfig) (took_all ls + took l') rest in
    rw (asked stray reports ls l' rest after d tells h' final shape early) (
      Returns-mono _ _ (apply_parsed (some marks) e)
        (Returns-Allows (λ p. Moves 0 15783 e p.1)
          (λ p. (p.0 ≡ true) × line (commands_for n_config marks) (said e) (said p.1))
          (apply_parsed (some marks) e) (apply_parsed-Bounded (some marks) e)
          (apply_parsed-Applies marks e))
        (λ p h. (
          h.1.0,
          h.1.1
              ∙ ap (λ o. record (said d) { output = o })
                  (append_assoc d.output read_nconfig (commands_for n_config marks)),
        )))
