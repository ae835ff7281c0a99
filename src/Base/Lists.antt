-- ===== src/Base/Lists.antt =====
-- Lists measured and indexed by native numbers, byte texts and C strings.
use Prim.Native.Nat.{ℕ, zero, suc, ◌+◌, ◌≤◌, ◌<◌}
use Prim.Native.Char.{code}
use Prim.Native.String.{String}
use mathlib.Core.Path.{◌≡◌, refl, ap, ◌∙◌}
use mathlib.Core.Bool.{Bool, true, false}
use mathlib.Core.List.{List, [], ◌∷◌, ◌++◌, append-nil, append_assoc}
use native.Mathlib.Omega.{arith}
use sag_c8y_nb_iot_demo.Base.Tests.{◌==◌, Bool-cases}
use mathlib.Core.Logic.{inl, inr}

module _ {ℓ} {A : Type ℓ} where
  abbrev pub length : List A → ℕ
  length [] = 0
  length (x ∷ xs) = suc (length xs)

  abbrev pub get_or : List A → ℕ → A → A
  get_or [] i d = d
  get_or (x ∷ xs) zero d = x
  get_or (x ∷ xs) (suc i) d = get_or xs i d

  abbrev pub take : ℕ → List A → List A
  take zero xs = []
  take (suc n) [] = []
  take (suc n) (x ∷ xs) = x ∷ take n xs

  abbrev pub drop : ℕ → List A → List A
  drop zero xs = xs
  drop (suc n) [] = []
  drop (suc n) (x ∷ xs) = drop n xs

  abbrev pub All {κ} : (A → Type κ) → List A → Type κ
  All P [] = Unit {κ}
  All P (x ∷ xs) = P x × All P xs

  pub length-append : (xs ys : List A) → length (xs ++ ys) ≡ length xs + length ys
  length-append [] ys = omega arith
  length-append (x ∷ xs) ys = omega (arith, length-append xs ys)

  pub length-take-le : (n : ℕ) (xs : List A) → length (take n xs) ≤ n
  length-take-le zero xs = omega arith
  length-take-le (suc n) [] = omega arith
  length-take-le (suc n) (x ∷ xs) = omega (arith, length-take-le n xs)

-- The code points of a text: its bytes, if it is ASCII.
abbrev pub codes : String → List ℕ
codes String.[] = []
codes (String.◌∷◌ c s) = code c ∷ codes s

-- The C string that starts at the first byte: what stands before the first NUL.
abbrev pub cstr : List ℕ → List ℕ
cstr [] = []
cstr (c ∷ s) = elim (c == 0) [ true ↦ [] | false ↦ c ∷ cstr s ]

-- `strncmp(pre, str, strlen(pre)) == 0` on two C strings.
abbrev pub is_prefix : List ℕ → List ℕ → Bool
is_prefix [] s = true
is_prefix (p ∷ ps) [] = false
is_prefix (p ∷ ps) (c ∷ s) = elim (p == c) [ true ↦ is_prefix ps s | false ↦ false ]

-- `strcmp(a, b) == 0` on two C strings.
abbrev pub str_eq : List ℕ → List ℕ → Bool
str_eq [] [] = true
str_eq (a ∷ as') (b ∷ bs) = elim (a == b) [ true ↦ str_eq as' bs | false ↦ false ]
str_eq _ _ = false

pub str_eq-true : (s t : List ℕ) → str_eq s t ≡ true → s ≡ t
str_eq-true [] [] h = refl
str_eq-true [] (c ∷ t) h = absurd (ground arith)
str_eq-true (c ∷ s) [] h = absurd (ground arith)
str_eq-true (c ∷ s) (c' ∷ t) h = elim (Bool-cases (c == c')) [
  | inl same ↦
      let e : c ≡ c' = ground arith in λ i. e i ∷ str_eq-true s t (rw (str_eq, same) at h) i
  | inr other ↦ let wrong : false ≡ true = rw (str_eq, other) at h in absurd (ground arith)
]

module _ {ℓ} {A : Type ℓ} where
  -- A write out of bounds changes nothing: where it could happen the models test for it.
  abbrev pub set : List A → ℕ → A → List A
  set [] i v = []
  set (x ∷ xs) zero v = v ∷ xs
  set (x ∷ xs) (suc i) v = x ∷ set xs i v

  -- `memcpy(xs + i, vs, length vs)`
  abbrev pub blit : List A → ℕ → List A → List A
  blit xs i [] = xs
  blit xs i (v ∷ vs) = blit (set xs i v) (suc i) vs

module _ {ℓ} {A : Type ℓ} where
  pub length-set : (xs : List A) (i : ℕ) (v : A) → length (set xs i v) ≡ length xs
  length-set [] i v = refl
  length-set (x ∷ xs) zero v = refl
  length-set (x ∷ xs) (suc i) v = ap suc (length-set xs i v)

  -- Writing just behind the part that is in use appends to it.
  pub take-set :
      (xs : List A) (i : ℕ) (v : A)
      → i < length xs
      → take (suc i) (set xs i v) ≡ take i xs ++ (v ∷ [])
  take-set [] i v h = absurd (omega arith)
  take-set (x ∷ xs) zero v h = refl
  take-set (x ∷ xs) (suc i) v h = ap (λ t. x ∷ t) (take-set xs i v (omega arith))

  pub length-blit : (xs : List A) (i : ℕ) (vs : List A) → length (blit xs i vs) ≡ length xs
  length-blit xs i [] = refl
  length-blit xs i (v ∷ vs) = length-blit (set xs i v) (suc i) vs ∙ length-set xs i v

  pub take-blit :
      (xs : List A) (i : ℕ) (vs : List A)
      → i + length vs ≤ length xs
      → take (i + length vs) (blit xs i vs) ≡ take i xs ++ vs
  take-blit xs i [] h = let e : i + 0 ≡ i = omega arith in rw (e, append-nil)
  take-blit xs i (v ∷ vs) h =
      let e : i + suc (length vs) ≡ suc i + length vs = omega arith in
      rw e (
        take-blit (set xs i v) (suc i) vs (omega (arith, length-set xs i v))
        ∙ rw (take-set xs i v (omega arith)) (append_assoc (take i xs) (v ∷ []) vs))

  pub length-take : (n : ℕ) (xs : List A) → n ≤ length xs → length (take n xs) ≡ n
  length-take zero xs h = refl
  length-take (suc n) [] h = absurd (omega arith)
  length-take (suc n) (x ∷ xs) h = ap suc (length-take n xs (omega arith))

module _ {ℓ κ} {A : Type ℓ} (P : A → Type κ) where
  pub All-append : (xs ys : List A) → All P xs → All P ys → All P (xs ++ ys)
  All-append [] ys h k = k
  All-append (x ∷ xs) ys (hx, hs) k = (hx, All-append xs ys hs k)

  -- What is taken from anywhere in a list was in it, and the others stay.
  pub All-taken : (xs ys : List A) (x : A) → All P (xs ++ (x ∷ ys)) → P x × All P (xs ++ ys)
  All-taken [] ys x (h, hs) = (h, hs)
  All-taken (y ∷ xs) ys x (h, hs) = let (hx, rest) = All-taken xs ys x hs in (hx, (h, rest))

  pub All-put : (xs ys : List A) (x : A) → P x → All P (xs ++ ys) → All P (xs ++ (x ∷ ys))
  All-put [] ys x h hs = (h, hs)
  All-put (y ∷ xs) ys x h (hy, hs) = (hy, All-put xs ys x h hs)
