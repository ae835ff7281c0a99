-- ===== src/Base/Table.antt =====
-- Facts about small ranges, checked at every value by evaluation.
use Prim.Native.Nat.{ℕ, zero, suc, ◌*◌, ◌/◌, ◌%◌, ◌+◌, ◌<◌, bit_or}
use mathlib.Core.Path.{◌≡◌, refl, sym, subst}
use mathlib.Core.Logic.{◌⊎◌, inl, inr}
use mathlib.Core.Bool.{Bool, true, false, ◌&&◌}
use native.Mathlib.Omega.{arith}
use sag_c8y_nb_iot_demo.Base.Tests.{◌==◌, ==_iff}

-- The two functions agree at each number below the bound.
unfoldable pub agree_below : (f g : ℕ → ℕ) → ℕ → Bool
agree_below f g zero = true
agree_below f g (suc bound) = agree_below f g bound && (f bound == g bound)

both : (a b : Bool) → (a && b) ≡ true → (a ≡ true) × (b ≡ true)
both true b h = (refl, h)
both false b h = ground arith

last_or_below : (i bound : ℕ) → i < suc bound → (i ≡ bound) ⊎ (i < bound)
last_or_below i bound h = omega arith

pub agree_at : (f g : ℕ → ℕ) (bound i : ℕ) → i < bound → agree_below f g bound ≡ true → f i ≡ g i
unfolding agree_below
agree_at f g zero i small table = absurd (omega arith)
agree_at f g (suc bound) i small table =
    let (earlier, here) = both (agree_below f g bound) (f bound == g bound) table in
    elim (last_or_below i bound small) [
      | inl e ↦ subst (λ k. f k ≡ g k) (sym e) ((==_iff _ _).0 here)
      | inr below ↦ agree_at f g bound i below earlier
    ]

bit_or_split : (i : ℕ) → i < 256 → bit_or (i / 32 * 32) (i % 32) ≡ i
unfolding agree_below
bit_or_split i small = agree_at (λ k. bit_or (k / 32 * 32) (k % 32)) (λ k. k) 256 i small refl

-- Three bits above and five below do not meet, so `|` adds them.
pub bit_or_add : (a b : ℕ) → a < 8 → b < 32 → bit_or (a * 32) b ≡ a * 32 + b
bit_or_add a b ha hb =
    let e : (a * 32 + b) / 32 ≡ a = omega arith in
    let f : (a * 32 + b) % 32 ≡ b = omega arith in
    rw (e, f) at (bit_or_split (a * 32 + b) (omega arith))
