-- ===== src/Device/Sent.antt =====
-- What the driver says: the part of the device that the reading operations never touch, and the
-- command lines that an operation writes.
use sag_c8y_nb_iot_demo.Base.{
  ℕ, ◌≡◌, refl, ◌∙◌, Bool, true, false, Option, none, some, List, ◌++◌, if◌then◌else◌,
}
use sag_c8y_nb_iot_demo.Base.Loop.{Allows, Allows-mono}
use sag_c8y_nb_iot_demo.Device.{Device, M, pure, ◌>>=◌, get, modify, delay}

-- The characters written so far, and the settings that commands are made of.
pub record Said : Type 0 where
  pub output : List ℕ
  pub udp : List ℕ
  pub port : List ℕ
  pub token : List ℕ
  pub apn : List ℕ
  pub min_rssi : ℕ
  pub is_sara_r4 : Bool

abbrev pub said : Device → Said
said d = record {
  output = d.output;
  udp = d.udp;
  port = d.port;
  token = d.device_token;
  apn = d.apn;
  min_rssi = d.min_rssi;
  is_sara_r4 = d.is_sara_r4;
}

-- A conversation: what may be said between two moments.
abbrev pub Script : Type 1
Script = Said → Said → Type 0

-- Nothing.
abbrev pub silence : Script
silence v v' = v' ≡ v

-- One line of text, with its carriage return.
abbrev pub line : List ℕ → Script
line s v v' = v' ≡ record v { output = v.output ++ s }

infixr 5 ◌then◌
-- One after the other.
pub record ◌then◌ (R S : Script) (v v' : Said) : Type 0 where
  pub middle : Said
  pub first : R v middle
  pub second : S middle v'

-- Any number of times.
pub data Many (R : Script) : Said → Said → Type 0 where
  stop : (v : Said) → Many R v v
  more : (v w v' : Said) → R v w → Many R w v' → Many R v v'

-- At least once.
abbrev pub some_of : Script → Script
some_of R = Many R then R

pub Many-snoc : (R : Script) (v w v' : Said) → Many R v w → R w v' → Many R v v'
Many-snoc R v _ v' (stop _) r = more v v' v' r (stop v')
Many-snoc R v w v' (more _ u _ q h) r = more v u v' q (Many-snoc R u w v' h r)

-- The operation may give a result only after the conversation that belongs to it.
abbrev pub Speaks : {A : Type 0} → (A → Script) → M A → Type 0
Speaks R m = (d : Device) → Allows (λ p. R p.0 (said d) (said p.1)) (m d)

module _ {A : Type 0} where
  pub Speaks-mono :
      (R S : A → Script) (m : M A)
      → Speaks R m
      → ((a : A) (v v' : Said) → R a v v' → S a v v')
      → Speaks S m
  Speaks-mono R S m h k d =
      Allows-mono (λ p. R p.0 (said d) (said p.1)) (λ p. S p.0 (said d) (said p.1)) (m d) (h d)
        (λ p r. k p.0 (said d) (said p.1) r)

  -- Behind what was said before, an operation that keeps quiet leaves just that.
  pub quiet_after :
      (m : M A) (v : Said) (d : Device)
      → Speaks (λ _. silence) m
      → silence v (said d)
      → Allows (λ p. silence v (said p.1)) (m d)
  quiet_after m v d h e =
      Allows-mono (λ p. silence (said d) (said p.1)) (λ p. silence v (said p.1)) (m d) (h d)
        (λ p r. r ∙ e)

-- A sequence speaks as its parts do.
pub Speaks-bind :
    {A B : Type 0} (R : A → Script) (S : A → B → Script) (T : B → Script) (m : M A) (f : A → M B)
    → Speaks R m
    → ((a : A) → Speaks (S a) (f a))
    → ((a : A) (b : B) (v w v' : Said) → R a v w → S a b w v' → T b v v')
    → Speaks T (m >>= f)
Speaks-bind {A} {B} R S T m f h k both d = go (m d) (h d)
  where
    go :
        (o : Option (A × Device))
        → Allows (λ p. R p.0 (said d) (said p.1)) o
        → Allows (λ p. T p.0 (said d) (said p.1)) (elim o [ none ↦ none | some (a, e) ↦ f a e ])
    go none r = tt
    go (some (a, e)) r =
        Allows-mono (λ p. S a p.0 (said e) (said p.1)) (λ p. T p.0 (said d) (said p.1)) (f a e)
          (k a e) (λ p q. both a p.0 (said d) (said e) (said p.1) r q)

-- An operation that says nothing.
abbrev pub Quiet : {A : Type 0} → M A → Type 0
Quiet m = Speaks (λ _. silence) m

pub Quiet-bind :
    {A B : Type 0} (m : M A) (f : A → M B) → Quiet m → ((a : A) → Quiet (f a)) → Quiet (m >>= f)
Quiet-bind m f h k =
    Speaks-bind (λ _. silence) (λ _ _. silence) (λ _. silence) m f h k (λ a b v w v' r q. q ∙ r)

pub pure-Quiet : {A : Type 0} (a : A) → Quiet (pure a)
pure-Quiet a d = refl

pub get-Quiet : {A : Type 0} (f : Device → A) → Quiet (get f)
get-Quiet f d = refl

pub delay-Quiet : (ms : ℕ) → Quiet (delay ms)
delay-Quiet ms d = refl

-- A change of what is not said.
pub modify-Quiet : (f : Device → Device) → ((d : Device) → said (f d) ≡ said d) → Quiet (modify f)
modify-Quiet f h d = h d

pub if-Quiet : {A : Type 0} (b : Bool) (m n : M A) → Quiet m → Quiet n → Quiet (if b then m else n)
if-Quiet true m n h k = h
if-Quiet false m n h k = k

-- The result changes nothing of what was said.
pub then_pure-Speaks :
    {A B : Type 0} (R : A → Script) (S : B → Script) (m : M A) (f : A → B)
    → Speaks R m
    → ((a : A) (v v' : Said) → R a v v' → S (f a) v v')
    → Speaks S (m >>= λ a. pure (f a))
then_pure-Speaks {A} {B} R S m f h k =
    Speaks-bind R (λ a b v v'. (b ≡ f a) × (v' ≡ v)) S m (λ a. pure (f a)) h (λ a d. (refl, refl))
      (λ a b v w v' r q. rw (q.0, q.1) (k a v w r))

-- Quiet parts do not show.
pub Quiet-bind-Speaks :
    {A B : Type 0} (R : B → Script) (m : M A) (f : A → M B)
    → Quiet m
    → ((a : A) → Speaks R (f a))
    → Speaks R (m >>= f)
Quiet-bind-Speaks R m f h k =
    Speaks-bind (λ _. silence) (λ _. R) R m f h k (λ a b v w v' e r. rw e at r)

pub Speaks-bind-Quiet :
    {A B : Type 0} (R : Script) (m : M A) (f : A → M B)
    → Speaks (λ _. R) m
    → ((a : A) → Quiet (f a))
    → Speaks (λ _. R) (m >>= f)
Speaks-bind-Quiet R m f h k =
    Speaks-bind (λ _. R) (λ _ _. silence) (λ _. R) m f h k (λ a b v w v' r e. rw e r)
