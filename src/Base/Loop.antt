-- ===== src/Base/Loop.antt =====
-- A loop whose rounds may fail, on fuel, with the rule for its total correctness.
use Prim.Native.Nat.{ℕ, zero, suc, ◌<◌}
use mathlib.Core.Path.{◌≡◌, refl}
use mathlib.Core.Option.{Option, none, some}
use native.Mathlib.Omega.{arith}

-- What one round decides: go on from a state, or leave with a result.
pub data Next (S R : Type 0) : Type 0 where
  again : S → Next S R
  done : R → Next S R

-- `none` means that the fuel, or that of a loop inside the round, ran out.
unfoldable pub iterate : {S R : Type 0} → ℕ → (S → Option (Next S R)) → S → Option R
iterate zero round s = none
iterate (suc fuel) round s = elim (round s) [
  | none ↦ none
  | some (again s') ↦ iterate fuel round s'
  | some (done r) ↦ some r
]

-- One round of a loop whose outcome is known.
abbrev pub carry_on : {S R : Type 0} → ℕ → (S → Option (Next S R)) → Option (Next S R) → Option R
carry_on fuel round none = none
carry_on fuel round (some (again s)) = iterate fuel round s
carry_on fuel round (some (done r)) = some r

pub iterate-suc :
    {S R : Type 0} (fuel : ℕ) (round : S → Option (Next S R)) (s : S)
    → iterate (suc fuel) round s ≡ carry_on fuel round (round s)
unfolding iterate
iterate-suc {S} {R} fuel round s = go (round s)
  where
    go :
        (o : Option (Next S R))
        → elim o [ none ↦ none | some (again s') ↦ iterate fuel round s' | some (done r) ↦ some r ]
          ≡ carry_on fuel round o
    go none = refl
    go (some (again s')) = refl
    go (some (done r)) = refl

-- A finished computation whose result satisfies `Post`.
abbrev pub Returns : {R : Type 0} → (R → Type 0) → Option R → Type 0
Returns Post none = ⊥
Returns Post (some r) = Post r

-- What a round must give: on `again` the invariant and a smaller measure, on `done` the result.
abbrev pub Proceeds : {S R : Type 0} → (S → Type 0) → (R → Type 0) → (S → ℕ) → ℕ → Next S R → Type 0
Proceeds Inv Post measure bound (again s) = Inv s × (measure s < bound)
Proceeds Inv Post measure bound (done r) = Post r

-- With a measure below the fuel the loop returns, and its result satisfies `Post`.
pub iterate-Returns :
    {S R : Type 0} (Inv : S → Type 0) (Post : R → Type 0) (measure : S → ℕ)
    (round : S → Option (Next S R))
    → ((s : S) → Inv s → Returns (Proceeds Inv Post measure (measure s)) (round s))
    → (fuel : ℕ) (s : S) → measure s < fuel
    → Inv s
    → Returns Post (iterate fuel round s)
unfolding iterate
iterate-Returns Inv Post measure round keep zero s m h = absurd (omega arith)
iterate-Returns {S} {R} Inv Post measure round keep (suc fuel) s m h =
    go (iterate-Returns Inv Post measure round keep fuel) (round s) (keep s h)
  where
    go :
        ((s' : S) → measure s' < fuel → Inv s' → Returns Post (iterate fuel round s'))
        → (o : Option (Next S R)) → Returns (Proceeds Inv Post measure (measure s)) o
        → Returns Post (elim o [
          | none ↦ none
          | some (again s') ↦ iterate fuel round s'
          | some (done r) ↦ some r
        ])
    go rest none k = k
    go rest (some (again s')) k = rest s' (omega (arith, k.1)) k.0
    go rest (some (done r)) k = k

abbrev pub and_then : {A B : Type 0} → Option A → (A → Option B) → Option B
and_then none f = none
and_then (some a) f = f a

pub Returns-and_then :
    {A B : Type 0} (P : A → Type 0) (Q : B → Type 0) (o : Option A) (f : A → Option B)
    → Returns P o
    → ((a : A) → P a → Returns Q (f a))
    → Returns Q (and_then o f)
Returns-and_then P Q none f h k = h
Returns-and_then P Q (some a) f h k = k a h

-- What a computation gives, if it gives something.
abbrev pub Allows : {R : Type 0} → (R → Type 0) → Option R → Type 0
Allows Post none = Unit
Allows Post (some r) = Post r

pub Allows-result :
    {R : Type 0} (Post : R → Type 0) (o : Option R) (r : R) → Allows Post o → o ≡ some r → Post r
Allows-result Post o r h e = rw e at h

pub anything : {R : Type 0} (o : Option R) → Allows (λ _. Unit) o
anything none = tt
anything (some r) = tt

-- What a round that may not finish gives: the invariant, or the result.
abbrev pub Stays : {S R : Type 0} → (S → Type 0) → (R → Type 0) → Next S R → Type 0
Stays Inv Post (again s) = Inv s
Stays Inv Post (done r) = Post r

-- A loop whose rounds keep the invariant: its result, if it gives one, satisfies `Post`.
pub iterate-Stays :
    {S R : Type 0} (Inv : S → Type 0) (Post : R → Type 0) (round : S → Option (Next S R))
    → ((s : S) → Inv s → Allows (Stays Inv Post) (round s))
    → (fuel : ℕ) (s : S) → Inv s
    → Allows Post (iterate fuel round s)
unfolding iterate
iterate-Stays Inv Post round keep zero s h = tt
iterate-Stays {S} {R} Inv Post round keep (suc fuel) s h =
    go (iterate-Stays Inv Post round keep fuel) (round s) (keep s h)
  where
    go :
        ((s' : S) → Inv s' → Allows Post (iterate fuel round s'))
        → (o : Option (Next S R)) → Allows (Stays Inv Post) o
        → Allows Post (elim o [
          | none ↦ none
          | some (again s') ↦ iterate fuel round s'
          | some (done r) ↦ some r
        ])
    go others none k = tt
    go others (some (again s')) k = others s' k
    go others (some (done r)) k = k

abbrev pub Leaves : {S R : Type 0} → (R → Type 0) → Next S R → Type 0
Leaves Post n = Stays (λ _. Unit) Post n

-- A loop's result comes from one of its rounds.
pub iterate-Allows :
    {S R : Type 0} (Post : R → Type 0) (round : S → Option (Next S R))
    → ((s : S) → Allows (Leaves Post) (round s))
    → (fuel : ℕ) (s : S) → Allows Post (iterate fuel round s)
iterate-Allows Post round keep fuel s =
    iterate-Stays (λ _. Unit) Post round (λ s' _. keep s') fuel s tt

pub Allows-and_then :
    {A B : Type 0} (P : A → Type 0) (Q : B → Type 0) (o : Option A) (f : A → Option B)
    → Allows P o
    → ((a : A) → P a → Allows Q (f a))
    → Allows Q (and_then o f)
Allows-and_then P Q none f h k = tt
Allows-and_then P Q (some a) f h k = k a h

-- What a computation gives that is known to finish.
pub Returns-Allows :
    {R : Type 0} (P Q : R → Type 0) (o : Option R)
    → Returns P o
    → Allows Q o
    → Returns (λ r. P r × Q r) o
Returns-Allows P Q none h k = h
Returns-Allows P Q (some r) h k = (h, k)

-- What a computation gives is its result.
pub Allows-given :
    {R : Type 0} (P : R → Type 0) (o : Option R) → Allows P o → Allows (λ r. (o ≡ some r) × P r) o
Allows-given P none h = tt
Allows-given P (some r) h = (refl, h)

pub Allows-both :
    {R : Type 0} (P Q : R → Type 0) (o : Option R)
    → Allows P o
    → Allows Q o
    → Allows (λ r. P r × Q r) o
Allows-both P Q none h k = tt
Allows-both P Q (some r) h k = (h, k)

pub Allows-mono :
    {R : Type 0} (P Q : R → Type 0) (o : Option R) → Allows P o → ((r : R) → P r → Q r) → Allows Q o
Allows-mono P Q none h k = tt
Allows-mono P Q (some r) h k = k r h

pub Returns-Allowed : {R : Type 0} (P : R → Type 0) (o : Option R) → Returns P o → Allows P o
Returns-Allowed P none h = tt
Returns-Allowed P (some r) h = h

-- A computation that finishes has a result, which satisfies what it promises.
pub Returns-result :
    {R : Type 0} (P : R → Type 0) (o : Option R) → Returns P o → Returns (λ r. (o ≡ some r) × P r) o
Returns-result P none h = h
Returns-result P (some r) h = (refl, h)
