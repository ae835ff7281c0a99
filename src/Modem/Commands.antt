-- ===== src/Modem/Commands.antt =====
-- The single commands of ATT_NBIOT.cpp, each a line of text and a response, with the switching on
-- and off of Sodaq_AT_Device.cpp.
pub mod Returns
pub mod Script
pub mod Config
pub mod Replies
pub mod Stages
pub mod Keeps
use sag_c8y_nb_iot_demo.Base.{
  ℕ, zero, suc, ◌+◌, Bool, true, false, not, Option, none, some, List, [], ◌∷◌, ◌++◌, ◌==◌,
  if◌then◌else◌, codes,
}
use sag_c8y_nb_iot_demo.Device.{Device, M, pure, ◌>>=◌, ◌>>◌, modify, get, millis, delay}
use sag_c8y_nb_iot_demo.Device.Loops.{repeat_while}
use sag_c8y_nb_iot_demo.Device.Print.{print, println, decimal}
use sag_c8y_nb_iot_demo.Modem.Parsers.{
  create_socket_parser, n_config, nconfig_parser, cgatt_parser, nqmgs_parser,
}
use sag_c8y_nb_iot_demo.Modem.Response.{
  ResponseType, not_found, ok, error, prompt, timeout, empty, pending_extra, Parser, read_response,
}
use sag_c8y_nb_iot_demo.OnOff.{OnOff}
use sag_c8y_nb_iot_demo.OnOff

-- `== ResponseOK`, `== ResponseTimeout`
abbrev pub is_ok : ResponseType → Bool
is_ok ok = true
is_ok _ = false

abbrev pub is_timeout : ResponseType → Bool
is_timeout timeout = true
is_timeout _ = false

-- SODAQ_AT_DEVICE_DEFAULT_READ_MS
abbrev pub default_read_ms : ℕ
default_read_ms = 5000

-- A response with no parser.
unfoldable pub plain_response : ℕ → M ResponseType
plain_response limit = read_response none tt limit >>= λ p. pure p.0

-- `return readResponse() == ResponseOK`
unfoldable pub succeeds : ℕ → M Bool
unfolding plain_response
succeeds limit = plain_response limit >>= λ r. pure (is_ok r)

-- A response that fills variables; they count only after an OK.
unfoldable pub parsed : {P : Type 0} → Parser P → P → M (Option P)
parsed f p =
    read_response (some f) p default_read_ms >>= λ q. pure (if is_ok q.0 then some q.1 else none)

-- `isAlive`
unfoldable pub is_alive : M Bool
is_alive = do modify (λ d. record d { disable_diag = true }); println (codes "AT"); succeeds 450

-- `setAttDevice`
unfoldable pub set_att_device : List ℕ → List ℕ → M (Unit {0})
set_att_device token apn = modify (λ d. record d { device_token = token; apn = apn })

switch_is_on : Option OnOff → Device → Bool
switch_is_on none d = true
switch_is_on (some o) d = OnOff.is_on o d.pins

-- `Sodaq_AT_Device::isOn`
unfoldable pub is_on : Device → Bool
unfolding switch_is_on
is_on d = switch_is_on d.onoff d

switch_on : Option OnOff → Device → Device
switch_on none d = d
switch_on (some o) d =
    let (o', pins) = OnOff.on o d.pins in record d { onoff = some o'; pins = pins }

-- `for (i = 0; i < 10; i++) if (isAlive()) …`: whether one of the rounds had a reply.
unfoldable pub alive_within : ℕ → M Bool
alive_within zero = pure false
alive_within (suc rounds) = is_alive >>= λ alive. if alive then pure true else alive_within rounds

-- `if (!isOn()) { if (_onoff) _onoff->on(); }`
unfoldable pub ensure_on : Device → Device
unfolding switch_on
ensure_on d = if is_on d then d else switch_on d.onoff d

-- `Sodaq_AT_Device::on`
unfoldable pub on : M Bool
unfolding ensure_on
on = do
  modify (λ d. record d { start_on = millis d })
  modify ensure_on
  alive ← alive_within 10
  if alive then get is_on else pure false

switch_off : Option OnOff → M (Unit {0})
switch_off none = pure tt
switch_off (some o) = do
  modify (λ d. let (o', pins) = OnOff.off o d.pins in record d { onoff = some o'; pins = pins })
  delay 50

-- `Sodaq_AT_Device::off`
unfoldable pub off : M Bool
unfolding switch_off
off = do o ← get (λ d. d.onoff); switch_off o; get (λ d. not (is_on d))

-- `init`: the buffer is allocated once; the static switch object is set up and attached.
unfoldable pub init : OnOff → ℕ → M (Unit {0})
init switch pin = do
  modify (λ d. record d { buffer_ready = true })
  modify (λ d.
      let (o, pins) = OnOff.init pin switch d.pins in record d { onoff = some o; pins = pins })

unfoldable pub set_radio_active : Bool → M Bool
set_radio_active active = do
  print (codes "AT+CFUN=")
  println (if active then codes "1" else codes "0")
  succeeds default_read_ms

unfoldable pub set_apn : List ℕ → M Bool
set_apn apn = do
  print (codes "AT+CGDCONT=1,\"IP\",\"")
  print apn
  println (codes "\"")
  succeeds default_read_ms

-- `getIMEI`: the number itself is taken by `readResponse`.
unfoldable pub get_imei : M Bool
get_imei = println (codes "AT+CGSN=1") >> succeeds default_read_ms

-- `purgeAllResponsesRead`
unfoldable pub purge_all_responses_read : M (Unit {0})
purge_all_responses_read =
    repeat_while 2000 (plain_response 1000 >>= λ r. pure (not (is_timeout r)))

unfoldable pub reboot : M (Unit {0})
reboot = do
  println (codes "AT+NRB")
  repeat_while 2000 (plain_response default_read_ms >>= λ r. pure (not (is_ok r)))

unfoldable pub set_nconfig_param : List ℕ → List ℕ → M Bool
set_nconfig_param param value = do
  print (codes "AT+NCONFIG=\"")
  print param
  print (codes "\",\"")
  print value
  println (codes "\"")
  succeeds default_read_ms

-- The loop over the table: each entry that is not marked is sent, whatever the reply.
unfoldable pub apply_config : List (List ℕ × List ℕ) → List Bool → M (Unit {0})
apply_config ((name, value) ∷ table) (true ∷ marks) = apply_config table marks
apply_config ((name, value) ∷ table) (false ∷ marks) =
    set_nconfig_param name value >>= λ _. apply_config table marks
apply_config _ _ = pure tt

pub apply_parsed : Option (List Bool) → M Bool
apply_parsed (some marks) = apply_config n_config marks >> pure true
apply_parsed none = pure false

-- `checkAndApplyNconfig`. The array of marks is not initialised: what it holds is an argument.
unfoldable pub check_and_apply_nconfig : List Bool → M Bool
unfolding apply_parsed
check_and_apply_nconfig stray = do
  println (codes "AT+NCONFIG?")
  marks ← parsed nconfig_parser stray
  apply_parsed marks

-- `setOperator(forceOperator)` and `setOperator()`
unfoldable pub force_operator : List ℕ → M Bool
force_operator name = do
  print (codes "AT+COPS=1,2,\"")
  print name
  println (codes "\"")
  succeeds default_read_ms

unfoldable pub set_operator : M Bool
set_operator = println (codes "AT+COPS=0") >> succeeds default_read_ms

-- `createSocket`; `none` is SOCKET_FAIL. `socket` is not initialised: what it holds is an argument.
unfoldable pub create_socket : ℕ → ℕ → M (Option ℕ)
create_socket stray local_port = do
  print (codes "AT+NSOCR=\"DGRAM\",17,")
  print (decimal local_port)
  println (codes ",1")
  parsed create_socket_parser stray

unfoldable pub disconnect : M Bool
disconnect = println (codes "AT+CGATT=0") >> succeeds 40000

is_attached : Option ℕ → Bool
is_attached (some value) = value == 1
is_attached none = false

unfoldable pub is_connected : M Bool
unfolding is_attached
is_connected = do
  println (codes "AT+CGATT?")
  value ← parsed cgatt_parser 0
  pure (is_attached value)

pub data SentMessageStatus : Type 0 where
  pending errors : SentMessageStatus

count_of : SentMessageStatus → Option (ℕ × ℕ) → Option ℕ
count_of pending (some (p, e)) = some p
count_of errors (some (p, e)) = some e
count_of filter none = none

-- `getSentMessagesCount`; `none` is -1.
unfoldable pub get_sent_messages_count : SentMessageStatus → M (Option ℕ)
unfolding count_of
get_sent_messages_count filter = do
  println (codes "AT+NQMGS")
  counts ← parsed nqmgs_parser (0, 0)
  pure (count_of filter counts)
