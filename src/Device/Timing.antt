-- ===== src/Device/Timing.antt =====
-- How far one operation of the device brings the world: it takes polls off the line, or time
-- passes. From that every loop with a timeout ends, also when `millis` wraps around.
use sag_c8y_nb_iot_demo.Base.{
  ℕ, zero, suc, ◌+◌, ◌-◌, ◌*◌, ◌^◌, ◌≤◌, ◌<◌, ◌≡◌, ◌⊎◌, inl, inr, Option, none, some, length, arith,
  Bool, true, false, ap, if◌then◌else◌,
}
use sag_c8y_nb_iot_demo.Base.Loop.{Returns}
use sag_c8y_nb_iot_demo.Device.{
  Device, M, ◌>>=◌, millis, since, fuel_for, safe_delay_loop, safe_delay, delay, modify, get, pure,
}

-- From `d` to `d'` the line got shorter, or at least `lo` and at most `hi` milliseconds went by.
abbrev pub Moves : ℕ → ℕ → Device → Device → Type 0
Moves lo hi d d' =
    (length d'.input < length d.input)
    ⊎ ((length d'.input ≡ length d.input) × (d.clock + lo ≤ d'.clock) × (d'.clock ≤ d.clock + hi))

-- An operation that always returns, within such bounds.
abbrev pub Runs : {A : Type 0} → ℕ → ℕ → Device → Option (A × Device) → Type 0
Runs lo hi d r = Returns (λ p. Moves lo hi d p.1) r

-- What is left for a loop that started at `start`: rounds that take polls, then silent ones.
abbrev pub rest : ℕ → ℕ → Device → ℕ
rest timeout start d = length d.input * (timeout + 2) + (timeout + 1 - since start d)

drop_row : (m n k : ℕ) → m < n → m * k + k ≤ n * k
drop_row m n k h = grind arith

-- A round that moves the world by at least 1 ms and not by a whole turn of the clock.
pub rest_drops :
    (timeout hi start : ℕ) (d d' : Device)
    → start < 2 ^ 32
    → timeout + hi < 2 ^ 32
    → since start d ≤ timeout
    → Moves 1 hi d d'
    → rest timeout start d' < rest timeout start d
rest_drops timeout hi start d d' hs hb within (inl shorter) =
    omega (arith, drop_row (length d'.input) (length d.input) (timeout + 2) shorter)
rest_drops timeout hi start d d' hs hb within (inr (same, lo, up)) = omega (arith, ap_row)
  where
    ap_row : length d'.input * (timeout + 2) ≡ length d.input * (timeout + 2)
    ap_row = rw same

pub rest-lt-fuel_for : (timeout start : ℕ) (d : Device) → rest timeout start d < fuel_for timeout d
rest-lt-fuel_for timeout start d = omega arith

-- At its start no time of the loop has gone by.
pub since-millis : (d : Device) → since (millis d) d ≡ 0
since-millis d = omega arith

pub Moves-trans :
    (a b c e : ℕ) (d d' d'' : Device)
    → Moves a b d d'
    → Moves c e d' d''
    → Moves (a + c) (b + e) d d''
Moves-trans a b c e d d' d'' h k = omega arith

pub Moves-widen : (a b c e : ℕ) (d d' : Device) → Moves a b d d' → c ≤ a → b ≤ e → Moves c e d d'
Moves-widen a b c e d d' h p q = omega arith

-- The rule for a sequence: what the first part gives is enough for the second.
pub Returns-bind :
    {A B : Type 0} (P : A × Device → Type 0) (Q : B × Device → Type 0) (m : M A) (f : A → M B)
    (d : Device)
    → Returns P (m d)
    → ((x : A) (d' : Device) → P (x, d') → Returns Q (f x d'))
    → Returns Q ((m >>= f) d)
Returns-bind {A} {B} P Q m f d h k = go (m d) h
  where
    go :
        (o : Option (A × Device))
        → Returns P o
        → Returns Q (elim o [ none ↦ none | some (x, d') ↦ f x d' ])
    go none r = r
    go (some (x, d')) r = k x d' r

pub Returns-mono :
    {A : Type 0} (P Q : A → Type 0) (r : Option A)
    → Returns P r
    → ((x : A) → P x → Q x)
    → Returns Q r
Returns-mono P Q none h k = h
Returns-mono P Q (some x) h k = k x h

-- The sequence of two operations within bounds.
pub Runs-bind :
    {A B : Type 0} (a b c e : ℕ) (m : M A) (f : A → M B) (d : Device)
    → Runs a b d (m d)
    → ((x : A) (d' : Device) → Runs c e d' (f x d'))
    → Runs (a + c) (b + e) d ((m >>= f) d)
Runs-bind {A} {B} a b c e m f d h k =
    Returns-bind (λ p. Moves a b d p.1) (λ p. Moves (a + c) (b + e) d p.1) m f d h
      (λ x d' mv.
        Returns-mono (λ (p : B × Device). Moves c e d' p.1) (λ p. Moves (a + c) (b + e) d p.1)
          (f x d') (k x d') (λ p mv'. Moves-trans a b c e d d' p.1 mv mv'))

pub Runs-widen :
    {A : Type 0} (a b c e : ℕ) (d : Device) (r : Option (A × Device))
    → Runs a b d r
    → c ≤ a
    → b ≤ e
    → Runs c e d r
Runs-widen a b c e d none h p q = h
Runs-widen a b c e d (some (x, d')) h p q = Moves-widen a b c e d d' h p q

safe_delay_loop-eq :
    (fuel ms : ℕ) (d : Device)
    → ms < fuel
    → safe_delay_loop fuel ms d ≡ record d { clock = d.clock + ms }
unfolding safe_delay_loop
safe_delay_loop-eq zero ms d h = absurd (omega arith)
safe_delay_loop-eq (suc fuel) ms d h =
    ground (arith, safe_delay_loop-eq fuel (ms - 10) (record d { clock = d.clock + 10 }))

-- `sodaq_wdt_safe_delay(ms)` waits exactly `ms` milliseconds and touches nothing else.
pub safe_delay-delay : (ms : ℕ) (d : Device) → safe_delay ms d ≡ delay ms d
unfolding safe_delay
safe_delay-delay ms d = rw (safe_delay_loop-eq (suc ms) ms d (omega arith))

-- An operation that returns within the same bounds in every state.
abbrev pub Bounded : {A : Type 0} → ℕ → ℕ → M A → Type 0
Bounded lo hi m = (d : Device) → Runs lo hi d (m d)

pub Bounded-bind :
    {A B : Type 0} (a b c e : ℕ) (m : M A) (f : A → M B)
    → Bounded a b m
    → ((x : A) → Bounded c e (f x))
    → Bounded (a + c) (b + e) (m >>= f)
Bounded-bind a b c e m f h k d = Runs-bind a b c e m f d (h d) (λ x d'. k x d')

pub Bounded-widen :
    {A : Type 0} (a b c e : ℕ) (m : M A) → Bounded a b m → c ≤ a → b ≤ e → Bounded c e m
Bounded-widen a b c e m h p q d = Runs-widen a b c e d (m d) (h d) p q

-- A change of the driver's fields takes no time.
pub modify-Bounded :
    (f : Device → Device)
    → ((d : Device) → ((f d).input ≡ d.input) × ((f d).clock ≡ d.clock))
    → Bounded 0 0 (modify f)
modify-Bounded f h d = omega (arith, ap length (h d).0, (h d).1)

pub get-Bounded : {A : Type 0} (f : Device → A) → Bounded 0 0 (get f)
get-Bounded f d = omega arith

pub pure-Bounded : {A : Type 0} (a : A) → Bounded 0 0 (pure a)
pure-Bounded a d = omega arith

pub delay-Bounded : (ms : ℕ) → Bounded ms ms (delay ms)
delay-Bounded ms d = omega arith

-- An operation chosen by a test is bounded as both are.
pub if-Bounded :
    {A : Type 0} (lo hi : ℕ) (b : Bool) (m n : M A)
    → Bounded lo hi m
    → Bounded lo hi n
    → Bounded lo hi (if b then m else n)
if-Bounded lo hi true m n h k = h
if-Bounded lo hi false m n h k = k
