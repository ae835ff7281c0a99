-- ===== src/Modem/Commands/Replies.antt =====
-- The commands that wait for nothing but a final reply, when it comes at once.
use sag_c8y_nb_iot_demo.Base.{ℕ, ◌≡◌, none, some, List, ◌++◌, cstr}
use sag_c8y_nb_iot_demo.Device.{Device, Poll, pure, ◌>>=◌}
use sag_c8y_nb_iot_demo.Device.Steps.{bind-some, Line, took, in_front}
use sag_c8y_nb_iot_demo.Modem.Commands.{is_ok, plain_response, succeeds}
use sag_c8y_nb_iot_demo.Modem.Response.{read_response}
use sag_c8y_nb_iot_demo.Modem.Response.Dialogue.{IsReadable, replied, read_response-Final}
use sag_c8y_nb_iot_demo.Modem.Response.Reports.{Final, text_of, type_of}

-- The command succeeds just with an OK.
pub succeeds-Final :
    (limit : ℕ) (l : Line) (rest : List Poll) (r : Final) (after : List ℕ) (d : Device)
    → IsReadable l
    → cstr l.text ≡ text_of r ++ after
    → d.input ≡ in_front l rest
    → succeeds limit d ≡ some (is_ok (type_of r), replied d (took l) rest)
unfolding succeeds plain_response
succeeds-Final limit l rest r after d h final shape =
    bind-some (read_response none tt limit >>= λ p. pure p.0) (λ x. pure (is_ok x)) d
      (replied d (took l) rest) (type_of r)
      (bind-some (read_response none tt limit) (λ p. pure p.0) d (replied d (took l) rest)
        (type_of r, tt) (read_response-Final none tt limit l rest r after d h final shape))
