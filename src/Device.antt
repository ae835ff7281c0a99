-- ===== src/Device.antt =====
-- The state of the modem object: the fields of Sodaq_AT_Device and of ATT_NBIOT, and of the world
-- that they act on: the clock, the serial line and the pins. Every operation is a function on it.
pub mod Print
pub mod Read
pub mod Timing
pub mod Steps
pub mod Sent
pub mod Identity
pub mod Loops
use sag_c8y_nb_iot_demo.Base.{
  ℕ, zero, suc, ◌+◌, ◌-◌, ◌*◌, ◌%◌, ◌^◌, Bool, true, false, Option, none, some, List, [], ◌∷◌, ◌++◌,
  length, ltb,
}
use sag_c8y_nb_iot_demo.Base.Words.{sub32, wrap32}
use sag_c8y_nb_iot_demo.OnOff.{OnOff, Pins}

-- One call of `read()` of the serial line: the byte, or none for -1, and how long it took. A list
-- of these is what the modem sends; behind its end the line is silent, and each call takes 1 ms.
pub record Poll : Type 0 where
  pub byte : Option ℕ
  pub took : ℕ

pub record Device : Type 0 where
  -- the world: milliseconds since the start (not wrapped), the line in both directions, the pins
  pub clock : ℕ
  pub input : List Poll
  pub output : List ℕ
  pub pins : Pins
  -- the byte below the input buffer, which `readLn` reads and may write
  pub below : ℕ
  -- Sodaq_AT_Device; the debug stream is not modelled
  pub buffer_ready : Bool
  pub disable_diag : Bool
  pub append_command : Bool
  pub start_on : ℕ
  pub onoff : Option OnOff
  -- ATT_NBIOT: int8_t, uint8_t and int as patterns
  pub last_rssi : ℕ
  pub csq_time : ℕ
  pub min_rssi : ℕ
  pub received_socket : ℕ
  pub pending_bytes : ℕ
  pub is_sara_r4 : Bool
  -- C strings; a null pointer is the empty one
  pub udp : List ℕ
  pub port : List ℕ
  pub device_id : List ℕ
  pub device_token : List ℕ
  pub apn : List ℕ

-- `none` means that a loop ran out of fuel: the theorems in the modules Returns exclude it for the
-- loops with a timeout. In `send_cbor` it is the loop that does not end.
abbrev pub M : Type 0 → Type 0
M A = Device → Option (A × Device)

abbrev pub pure : {A : Type 0} → A → M A
pure a d = some (a, d)

infixl 5 ◌>>=◌ ◌>>◌
abbrev pub ◌>>=◌ : {A B : Type 0} → M A → (A → M B) → M B
◌>>=◌ m f d = elim (m d) [ none ↦ none | some (a, d') ↦ f a d' ]

abbrev pub ◌>>◌ : {B : Type 0} → M (Unit {0}) → M B → M B
m >> k = m >>= λ _. k

abbrev pub modify : (Device → Device) → M (Unit {0})
modify f d = some (tt, f d)

abbrev pub get : {A : Type 0} → (Device → A) → M A
get f d = some (f d, d)

-- `millis()`
abbrev pub millis : Device → ℕ
millis d = wrap32 d.clock

-- `delay(ms)`
abbrev pub delay : ℕ → M (Unit {0})
delay ms d = some (tt, record d { clock = d.clock + ms })

-- `millis() - start` in uint32_t
abbrev pub since : ℕ → Device → ℕ
since start d = sub32 (millis d) start

-- `is_timedout`
abbrev pub is_timedout : ℕ → ℕ → Device → Bool
is_timedout from nr_ms d = ltb nr_ms (since from d)

-- Enough rounds for a loop that ends `timeout` after its start, whatever the line does.
abbrev pub fuel_for : ℕ → Device → ℕ
fuel_for timeout d = length d.input * (timeout + 2) + timeout + 2

-- `sodaq_wdt_safe_delay`: steps of at most 10 ms; the watchdog's register is not modelled.
safe_delay_loop : ℕ → ℕ → Device → Device
safe_delay_loop zero ms d = d
safe_delay_loop (suc fuel) ms d = elim (ltb 10 ms) [
  | true ↦ safe_delay_loop fuel (ms - 10) (record d { clock = d.clock + 10 })
  | false ↦ record d { clock = d.clock + ms }
]

-- Each step takes 10 off, so `ms + 1` rounds are enough.
pub safe_delay : ℕ → M (Unit {0})
safe_delay ms d = some (tt, safe_delay_loop (suc ms) ms d)
