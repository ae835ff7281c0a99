-- ===== src/OnOff/State.antt =====
-- The switch remembers what it was told, and the pin shows it.
use sag_c8y_nb_iot_demo.Base.{
  ℕ, ◌≡◌, refl, ap, ◌∙◌, ◌<◌, Bool, true, false, List, [], ◌∷◌, lt→ltb, ◌==◌, ==_iff, if◌then◌else◌,
}
use sag_c8y_nb_iot_demo.OnOff.{OnOff, Pins, digital_write, fresh, init, on, off, is_on}

pub data Press : Type 0 where
  press_on press_off : Press

unfoldable pub press : Press → OnOff × Pins → OnOff × Pins
press press_on (o, pins) = on o pins
press press_off (o, pins) = off o pins

unfoldable pub press_all : List Press → OnOff × Pins → OnOff × Pins
press_all [] s = s
press_all (p ∷ ps) s = press_all ps (press p s)

-- The switch has the pin, the pins are those from before with the remembered state written to that
-- pin, and this is what the switch reads.
pub record Agrees (pin : ℕ) (before : Pins) (s : OnOff × Pins) : Type 0 where
  pub same_pin : s.0.onoff_pin ≡ pin
  pub shown : is_on s.0 s.1 ≡ s.0.onoff_status
  pub levels : (q : ℕ) → s.1 q ≡ digital_write before pin s.0.onoff_status q

written_here : (pins : Pins) (p : ℕ) (level : Bool) → digital_write pins p level p ≡ level
written_here pins p level = let e : (p == p) ≡ true = (==_iff p p).1 refl in rw e

-- Of two writes to a pin the second counts.
written_twice :
    (pins : Pins) (p : ℕ) (a b : Bool) (q : ℕ)
    → digital_write (digital_write pins p a) p b q ≡ digital_write pins p b q
written_twice pins p a b q = by_pin (p == q)
  where
    by_pin :
        (here : Bool)
        → (if here then b else (if here then a else pins q)) ≡ (if here then b else pins q)
    by_pin true = refl
    by_pin false = refl

init-Agrees : (pin : ℕ) (pins : Pins) → pin < 128 → Agrees pin pins (init pin fresh pins)
unfolding init fresh is_on
init-Agrees pin pins h =
    rw (lt→ltb pin 128 h)
      (record { same_pin = refl; shown = written_here pins pin false; levels = λ q. refl })

press-Agrees :
    (p : Press) (pin : ℕ) (before : Pins) (s : OnOff × Pins)
    → pin < 128
    → Agrees pin before s
    → Agrees pin before (press p s)
unfolding press on off is_on
press-Agrees press_on pin before (o, pins) h a =
    rw (a.same_pin, lt→ltb pin 128 h)
      (record {
        same_pin = refl;
        shown = written_here pins pin true;
        levels = λ q.
            ap (λ l. if pin == q then true else l) (a.levels q)
            ∙ written_twice before pin o.onoff_status true q;
      })
press-Agrees press_off pin before (o, pins) h a =
    rw (a.same_pin, lt→ltb pin 128 h)
      (record {
        same_pin = refl;
        shown = written_here pins pin false;
        levels = λ q.
            ap (λ l. if pin == q then false else l) (a.levels q)
            ∙ written_twice before pin o.onoff_status false q;
      })

press_all-Agrees :
    (ps : List Press) (pin : ℕ) (before : Pins) (s : OnOff × Pins)
    → pin < 128
    → Agrees pin before s
    → Agrees pin before (press_all ps s)
unfolding press_all
press_all-Agrees [] pin before s h a = a
press_all-Agrees (p ∷ ps) pin before s h a =
    press_all-Agrees ps pin before (press p s) h (press-Agrees p pin before s h a)

-- A switch that was set up with a pin of an int8_t, after any sequence of `on` and `off`: `isOn`
-- reads from the pin what the switch remembers, and no other pin has changed.
pub press_all-init-Agrees :
    (ps : List Press) (pin : ℕ) (pins : Pins)
    → pin < 128
    → Agrees pin pins (press_all ps (init pin fresh pins))
press_all-init-Agrees ps pin pins h =
    press_all-Agrees ps pin pins (init pin fresh pins) h (init-Agrees pin pins h)
