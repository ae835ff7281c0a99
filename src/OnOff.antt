-- ===== src/OnOff.antt =====
-- The modem's power switch: Sodaq_OnOffBee.h and the class Sodaq_nbIotOnOff at the end of
-- ATT_NBIOT.cpp, in the variant for the AVR boards.
pub mod State
use sag_c8y_nb_iot_demo.Base.{ℕ, Bool, true, false, ltb, ◌==◌, if◌then◌else◌}

-- `_onoffPin` is an int8_t: its pattern, 255 for -1.
pub record OnOff : Type 0 where
  pub onoff_pin : ℕ
  pub onoff_status : Bool

-- The level of each pin, as `digitalWrite` sets it and `digitalRead` reads it back.
abbrev pub Pins : Type 0
Pins = ℕ → Bool

abbrev pub digital_write : Pins → ℕ → Bool → Pins
digital_write pins p level q = if p == q then level else pins q

unfoldable pub fresh : OnOff
fresh = record { onoff_pin = 255; onoff_status = false }

-- `onoffPin >= 0` for an int8_t
abbrev pub has_pin : ℕ → Bool
has_pin p = ltb p 128

unfoldable pub init : ℕ → OnOff → Pins → OnOff × Pins
init pin o pins =
    if has_pin pin then (record o { onoff_pin = pin }, digital_write pins pin false) else (o, pins)

unfoldable pub on : OnOff → Pins → OnOff × Pins
on o pins = (
  record o { onoff_status = true },
  if has_pin o.onoff_pin then digital_write pins o.onoff_pin true else pins,
)

-- Without the 50 ms wait, which the caller adds.
unfoldable pub off : OnOff → Pins → OnOff × Pins
off o pins = (
  record o { onoff_status = false },
  if has_pin o.onoff_pin then digital_write pins o.onoff_pin false else pins,
)

-- The pin is read back, with no test of its sign.
unfoldable pub is_on : OnOff → Pins → Bool
is_on o pins = pins o.onoff_pin
