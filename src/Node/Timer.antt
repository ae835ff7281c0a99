-- ===== src/Node/Timer.antt =====
-- The interrupt of NB-IoT_node.ino that samples the air quality sensor.
use sag_c8y_nb_iot_demo.Base.{
  ℕ, ◌+◌, ◌<◌, ◌≡◌, Bool, true, false, not, List, [], ◌∷◌, length, ◌==◌, if◌then◌else◌, arith,
}

-- The fields of AirQuality that the interrupt uses, and the bit of PORTB that it flips.
pub record AirQuality : Type 0 where
  pub counter : ℕ
  pub first_vol : ℕ
  pub last_vol : ℕ
  pub timer_index : Bool
  pub led : Bool

-- `ISR(TIMER1_OVF_vect)`; `voltage` is what `analogRead` gives.
unfoldable pub on_overflow : ℕ → AirQuality → AirQuality
on_overflow voltage a =
    if a.counter == 61
    then record {
      counter = 0;
      first_vol = voltage;
      last_vol = a.first_vol;
      timer_index = true;
      led = not a.led;
    }
    else record a { counter = a.counter + 1 }

-- Interrupts one after the other, with what the pin reads at each.
unfoldable pub on_overflows : List ℕ → AirQuality → AirQuality
on_overflows [] a = a
on_overflows (v ∷ vs) a = on_overflows vs (on_overflow v a)

on_overflow-count :
    (v : ℕ) (a : AirQuality)
    → a.counter < 61
    → on_overflow v a ≡ record a { counter = a.counter + 1 }
unfolding on_overflow
on_overflow-count v a h = let e : (a.counter == 61) ≡ false = ground arith in rw e

on_overflow-sample :
    (v : ℕ) (a : AirQuality)
    → a.counter ≡ 61
    → on_overflow v a ≡ record {
      counter = 0;
      first_vol = v;
      last_vol = a.first_vol;
      timer_index = true;
      led = not a.led;
    }
unfolding on_overflow
on_overflow-sample v a h = let e : (a.counter == 61) ≡ true = ground arith in rw e

-- From any count up to 61 the interrupts before the next sample only count, whatever the pin reads;
-- the sample then moves the last value down, takes the pin's value and starts the count again. So
-- one interrupt of 62 takes a sample.
pub on_overflows-sample :
    (vs : List ℕ) (v : ℕ) (a : AirQuality)
    → a.counter + length vs ≡ 61
    → on_overflow v (on_overflows vs a) ≡ record {
      counter = 0;
      first_vol = v;
      last_vol = a.first_vol;
      timer_index = true;
      led = not a.led;
    }
unfolding on_overflows
on_overflows-sample [] v a h = on_overflow-sample v a (omega arith)
on_overflows-sample (w ∷ vs) v a h =
    rw (on_overflow-count w a (omega arith))
      (on_overflows-sample vs v (record a { counter = a.counter + 1 }) (omega arith))
