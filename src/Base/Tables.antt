-- ===== src/Base/Tables.antt =====
-- Laws over a small range, checked value by value.
use Prim.Native.Nat.{ℕ, zero, suc, ◌<◌}
use mathlib.Core.Path.{◌≡◌}
use mathlib.Core.Bool.{Bool, true, false, not}
use native.Mathlib.Omega.{arith}
use zkmips_zkvm_impl_in_rust.Base.Tests.{if◌then◌else◌}

-- The law holds of the numbers from 0 up to the bound, the bound left out.
unfoldable pub up_to : ℕ → (ℕ → Bool) → Bool
up_to zero law = true
up_to (suc last) law = let before = up_to last law in if law last then before else false

pub up_to-at :
    (bound : ℕ) (law : ℕ → Bool) (i : ℕ) → up_to bound law ≡ true → i < bound → law i ≡ true
unfolding up_to
up_to-at zero law i holds below = absurd (omega arith)
up_to-at (suc last) law i holds below = ground (arith, up_to-at last law i)

-- Two tests agree.
abbrev pub same : Bool → Bool → Bool
same true b = b
same false b = not b

pub same_sound : (a b : Bool) → same a b ≡ true → a ≡ b
same_sound true b h = ground arith
same_sound false b h = ground arith
