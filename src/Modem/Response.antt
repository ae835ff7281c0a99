-- ===== src/Modem/Response.antt =====
-- `readResponse` of ATT_NBIOT.cpp: it reads lines until one decides the response or the time is
-- over, and takes the modem's unsolicited reports on the way.
pub mod Reports
pub mod Dialogue
pub mod Extra
pub mod Quiet
pub mod Answers
pub mod Returns
use sag_c8y_nb_iot_demo.Base.{
  ℕ, suc, ◌+◌, Bool, true, false, not, ◌&&◌, ◌||◌, Option, none, some, List, [], ◌∷◌, length, take,
  ltb, ◌==◌, if◌then◌else◌, codes, cstr, is_prefix,
}
use sag_c8y_nb_iot_demo.Base.Loop.{Next, again, done, iterate, and_then}
use sag_c8y_nb_iot_demo.Device.{Device, M, millis, is_timedout, fuel_for}
use sag_c8y_nb_iot_demo.Device.Read.{read_ln}
use sag_c8y_nb_iot_demo.Scan.{Directive, Value, num, text, lit, blank, int, word, lits, sscanf}

-- `enum ResponseTypes`
pub data ResponseType : Type 0 where
  not_found ok error prompt timeout empty pending_extra : ResponseType

-- `CallbackMethodPtr`: from the response so far, the buffer, its length and the two parameters to
-- what it returns, the response (a reference) and the parameters (pointers).
abbrev pub Parser : Type 0 → Type 0
Parser P = ResponseType → List ℕ → ℕ → P → ResponseType × ResponseType × P

-- The variables of the loop.
pub record Wait (P : Type 0) : Type 0 where
  pub device : Device
  pub parser : Option (Parser P)
  pub response : ResponseType
  pub params : P

-- What one line does: `continue`, `return`, or fall through to the end of the loop's body.
pub data Outcome (P : Type 0) : Type 0 where
  continues : Device → Outcome P
  returns : ResponseType → P → Device → Outcome P
  falls : Option (Parser P) → ResponseType → P → Device → Outcome P

abbrev pub fota_format : List Directive
fota_format = lits (codes "+UFOTAS:") (blank ∷ int ∷ lit b',' ∷ int ∷ [])

abbrev pub nsonmi_format : List Directive
nsonmi_format = lits (codes "+NSONMI:") (blank ∷ int ∷ lit b',' ∷ int ∷ [])

abbrev pub cgsn_format : List Directive
cgsn_format = lits (codes "+CGSN:") (blank ∷ word 16 ∷ [])

-- The socket report: which socket, and how many bytes wait.
abbrev pub take_nsonmi : List Value → Device → Option Device
take_nsonmi (num socket ∷ num size ∷ []) d =
    some (record d { received_socket = socket; pending_bytes = size })
take_nsonmi _ d = none

-- `getConst`: the first 15 characters are kept.
abbrev pub get_const : List ℕ → List ℕ
get_const input = take 15 input

-- `char CGSN[15]` has no room for the NUL behind 15 characters, which is written one past it; that
-- byte is not modelled, and the format takes 15 characters at most. A longer word, which C would
-- write over what lies behind the array, is not converted here.
abbrev pub take_imei : List Value → Device → Device
take_imei (text w ∷ []) d = record d { device_id = get_const w }
take_imei _ d = d

-- `_disableDiag` is cleared by any line but an OK.
abbrev pub enable_diag : List ℕ → Device → Device
enable_diag s d = record d { disable_diag = d.disable_diag && is_prefix (codes "OK") s }

-- The end of the body, once the parser has run: another response that it recorded is returned.
abbrev pub recorded {ℓ} : {A : Type ℓ} → ResponseType → A → A → A
recorded not_found go stop = go
recorded _ go stop = stop

-- `count > 0` for an int
abbrev pub positive : ℕ → Bool
positive count = ltb 0 count && ltb count 32768

-- The tests on the line, in the order of the code.
pub data Reply : Type 0 where
  echo fine failed other : Reply

unfoldable pub reply_of : List ℕ → Reply
reply_of s =
    if is_prefix (codes "AT") s
    then echo
    else if is_prefix (codes "OK") s
    then fine
    else if is_prefix (codes "ERROR") s
        || is_prefix (codes "+CME ERROR:") s
        || is_prefix (codes "+CMS ERROR:") s
    then failed
    else other

module _ {P : Type 0} where
  -- After the parser: what it returns ends the wait, unless it is empty or asks for more lines.
  unfoldable pub after_parser : Parser P → ResponseType × ResponseType × P → Device → Outcome P
  after_parser f (empty, response, params) d =
      recorded response (falls none response params d) (returns response params d)
  after_parser f (pending_extra, response, params) d =
      recorded response (falls (some f) response params d) (returns response params d)
  after_parser f (result, response, params) d = returns result params d

  unfoldable pub run_parser : Option (Parser P) → ResponseType → P → List ℕ → ℕ → Device → Outcome P
  unfolding after_parser
  run_parser none response params s count d =
      recorded response (falls none response params d) (returns response params d)
  run_parser (some f) response params s count d = after_parser f (f response s count params) d

  -- A report that is recognised ends the body; any other line goes on.
  abbrev pub on_report : Option Device → Outcome P → Outcome P
  on_report (some d) o = continues d
  on_report none o = o

  -- From the echo test on, by the kind of the line.
  unfoldable pub on_reply : Reply → Wait P → List ℕ → ℕ → Device → Outcome P
  unfolding run_parser
  on_reply echo w s count d = continues d
  on_reply fine w s count d = returns ok w.params (record d { disable_diag = false })
  on_reply failed w s count d = returns error w.params (record d { disable_diag = false })
  on_reply other w s count d =
      run_parser w.parser w.response w.params s count (record d { disable_diag = false })

  -- The body of `if (count > 0)`.
  unfoldable pub on_line : Wait P → List ℕ → ℕ → Device → Outcome P
  unfolding on_reply reply_of
  on_line w s count d =
      let d' = enable_diag (cstr s) d in
      on_report (if length (sscanf s fota_format) == 2 then some d' else none) (
        on_report (if d'.is_sara_r4 then none else take_nsonmi (sscanf s nsonmi_format) d')
          (on_reply (reply_of (cstr s)) w s count (take_imei (sscanf s cgsn_format) d')))

  -- `while (!is_timedout(from, timeout))`, and what follows the loop.
  unfoldable pub until_timeout :
      ℕ → ℕ → Wait P → Option (Next (Wait P) ((ResponseType × P) × Device))
  until_timeout start limit w =
      if is_timedout start limit w.device
      then some (done ((timeout, w.params), w.device))
      else some (again w)

  -- `continue` jumps to the test; the other ways wait for 10 ms first.
  unfoldable pub after_line :
      ℕ → ℕ → Wait P → Outcome P → Option (Next (Wait P) ((ResponseType × P) × Device))
  unfolding until_timeout
  after_line start limit w (continues d) = until_timeout start limit (record w { device = d })
  after_line start limit w (returns r params d) = some (done ((r, params), d))
  after_line start limit w (falls f response params d) = until_timeout start limit (record {
    device = record d { clock = d.clock + 10 };
    parser = f;
    response = response;
    params = params;
  })

  unfoldable pub after_read :
      ℕ → ℕ → Wait P → (ℕ × List ℕ) × Device → Option (Next (Wait P) ((ResponseType × P) × Device))
  unfolding on_line after_line
  after_read start limit w ((count, s), d) =
      after_line start limit w
        (if positive count then on_line w s count d else falls w.parser w.response w.params d)

  unfoldable pub read_response_round :
      ℕ → ℕ → Wait P → Option (Next (Wait P) ((ResponseType × P) × Device))
  unfolding after_read
  read_response_round start limit w = and_then (read_ln 250 250 w.device) (after_read start limit w)

  -- `readResponse(parser, params, timeout)`. Every call leaves `outSize` null.
  unfoldable pub read_response : Option (Parser P) → P → ℕ → M (ResponseType × P)
  unfolding read_response_round
  read_response f params limit d =
      iterate (fuel_for limit d) (read_response_round (millis d) limit)
        (record { device = d; parser = f; response = not_found; params = params })
