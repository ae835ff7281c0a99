-- ===== src/Tests/Config.antt =====
-- A modem that reports two settings, of which one is right.
use sag_c8y_nb_iot_demo.Base.{◌≡◌, refl, true, false, List, [], ◌∷◌, ◌++◌, codes, arith}
use sag_c8y_nb_iot_demo.Base.Loop.{Returns}
use sag_c8y_nb_iot_demo.Device.{Device}
use sag_c8y_nb_iot_demo.Device.Sent.{said, line}
use sag_c8y_nb_iot_demo.Device.Steps.{Line, in_front}
use sag_c8y_nb_iot_demo.Modem.Commands.{check_and_apply_nconfig}
use sag_c8y_nb_iot_demo.Modem.Commands.Config.{
  Tells, no_setting, one_setting, commands_for, check_and_apply_nconfig-Tells,
}
use sag_c8y_nb_iot_demo.Modem.Commands.Script.{read_nconfig}
use sag_c8y_nb_iot_demo.Modem.Parsers.{n_config}
use sag_c8y_nb_iot_demo.Modem.Parsers.Config.{Setting}
use sag_c8y_nb_iot_demo.Modem.Parsers.Fields.{IsQuoted}
use sag_c8y_nb_iot_demo.Modem.Response.Dialogue.{IsReadable}
use sag_c8y_nb_iot_demo.Modem.Response.Extra.{all_in_front}
use sag_c8y_nb_iot_demo.Tests.{board}
use sag_c8y_nb_iot_demo.Tests.Rounds.{sent, ok_line, ok_line-IsReadable}

abbrev right_line : Line
right_line = sent (codes "+NCONFIG: \"AUTOCONNECT\",\"TRUE\"")

abbrev wrong_line : Line
wrong_line = sent (codes "+NCONFIG: \"CR_0859_SI_AVOID\",\"FALSE\"")

right_line-IsReadable : IsReadable right_line
right_line-IsReadable = record {
  sent = record { shape = refl; one_line = ground arith };
  filled = omega arith;
  fits = omega arith;
}

wrong_line-IsReadable : IsReadable wrong_line
wrong_line-IsReadable = record {
  sent = record { shape = refl; one_line = ground arith };
  filled = omega arith;
  fits = omega arith;
}

autoconnect-IsQuoted : IsQuoted (codes "AUTOCONNECT")
autoconnect-IsQuoted = record { first = _; others = _; shape = refl; unquoted = ground arith }

avoid-IsQuoted : IsQuoted (codes "CR_0859_SI_AVOID")
avoid-IsQuoted = record { first = _; others = _; shape = refl; unquoted = ground arith }

true-IsQuoted : IsQuoted (codes "TRUE")
true-IsQuoted = record { first = _; others = _; shape = refl; unquoted = ground arith }

false-IsQuoted : IsQuoted (codes "FALSE")
false-IsQuoted = record { first = _; others = _; shape = refl; unquoted = ground arith }

abbrev reports : List Setting
reports = (codes "AUTOCONNECT", codes "TRUE") ∷ (codes "CR_0859_SI_AVOID", codes "FALSE") ∷ []

lines-Tells : Tells (right_line ∷ wrong_line ∷ []) reports
lines-Tells =
    one_setting right_line _ _ _ _ right_line-IsReadable autoconnect-IsQuoted true-IsQuoted
      (omega arith) (omega arith) refl
      (one_setting wrong_line _ _ _ _ wrong_line-IsReadable avoid-IsQuoted false-IsQuoted
        (omega arith) (omega arith) refl no_setting)

abbrev reporting : Device
reporting = record board {
  input = all_in_front (right_line ∷ wrong_line ∷ []) (in_front ok_line []);
}

check_and_apply_nconfig-Tells_example :
    Returns
      (λ p.
        (p.0 ≡ true)
        × line
            (read_nconfig ++ commands_for n_config (true ∷ false ∷ false ∷ []))
            (said reporting)
            (said p.1))
      (check_and_apply_nconfig (false ∷ false ∷ false ∷ []) reporting)
check_and_apply_nconfig-Tells_example =
    check_and_apply_nconfig-Tells (false ∷ false ∷ false ∷ []) reports
      (right_line ∷ wrong_line ∷ []) ok_line [] [] reporting lines-Tells ok_line-IsReadable refl
      refl (omega arith)
