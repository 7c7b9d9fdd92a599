-- ===== src/Base/Word.antt =====
-- Machine words of 64 bits. An `i64`, a `u64` or a `usize` is its bit pattern, a number below
-- 2 ^ 64, so that `as` between them changes nothing; `signed` is the integer that an `i64` means.
-- Cargo builds with or without overflow checks: with them an overflow panics, without it wraps.
use Prim.Native.Nat.{ℕ, zero, suc, ◌+◌, ◌-◌, ◌*◌, ◌/◌, ◌%◌, ◌^◌, ◌<◌}
use mathlib.Core.Path.{◌≡◌, refl}
use mathlib.Core.Logic.{◌⊎◌, inl, inr}
use mathlib.Core.Bool.{Bool, true, false, not, ◌&&◌}
use mathlib.Core.List.{List, [], ◌∷◌}
use native.Mathlib.Omega.{arith}
use zkmips_zkvm_impl_in_rust.Base.Tests.{ltb, leb, eqb, if◌then◌else◌}
use zkmips_zkvm_impl_in_rust.Base.Lists.{length, take, drop}
use zkmips_zkvm_impl_in_rust.Base.Results.{Outcome, ok, panic}
use zkmips_zkvm_impl_in_rust.Base.Int.{ℤ, pos, negsuc, ◌+ℤ◌, ◌*ℤ◌, leb_ℤ}

abbrev pub modulus : ℕ
modulus = 2 ^ 64

abbrev pub usize_max : ℕ
usize_max = 2 ^ 64 - 1

abbrev pub signed : ℕ → ℤ
signed w = if ltb w (2 ^ 63) then pos w else negsuc (2 ^ 64 - w - 1)

-- The integer is an `i64`.
abbrev pub fits : ℤ → Bool
fits z = leb_ℤ (negsuc (2 ^ 63 - 1)) z && leb_ℤ z (pos (2 ^ 63 - 1))

module _ {E : Type 0} where
  -- `a + b` and `a * b` on `i64`.
  unfoldable pub add_i64 : Bool → ℕ → ℕ → Outcome E ℕ
  add_i64 checks a b =
      if checks && not (fits (signed a +ℤ signed b)) then panic else ok ((a + b) % modulus)

  unfoldable pub mul_i64 : Bool → ℕ → ℕ → Outcome E ℕ
  mul_i64 checks a b =
      if checks && not (fits (signed a *ℤ signed b)) then panic else ok (a * b % modulus)

  -- `a + b` on `usize` or `u64`.
  unfoldable pub add_usize : Bool → ℕ → ℕ → Outcome E ℕ
  add_usize checks a b = if checks && leb modulus (a + b) then panic else ok ((a + b) % modulus)

  -- `a - b` on `usize`.
  unfoldable pub sub_usize : Bool → ℕ → ℕ → Outcome E ℕ
  sub_usize checks a b = if checks && ltb a b then panic else ok ((a + modulus - b) % modulus)

  -- `a / b` on `usize`, which panics at zero in every build.
  unfoldable pub div_usize : ℕ → ℕ → Outcome E ℕ
  div_usize a b = if eqb b 0 then panic else ok (a / b)

  -- `a * b` on `usize`.
  unfoldable pub mul_usize : Bool → ℕ → ℕ → Outcome E ℕ
  mul_usize checks a b = if checks && leb modulus (a * b) then panic else ok (a * b % modulus)

  -- `&v[from..to]`.
  unfoldable pub slice : {A : Type 0} → List A → ℕ → ℕ → Outcome E (List A)
  slice xs from to =
      if leb from to && leb to (length xs) then ok (take (to - from) (drop from xs)) else panic

-- An operation that is checked gives a word, or panics in the build with checks.
abbrev pub Checked : {E : Type 0} → Bool → Outcome E ℕ → Type 0
Checked checks r = ((w : ℕ) × (r ≡ ok w)) ⊎ ((r ≡ panic) × (checks ≡ true))

if-Checked :
    {E : Type 0} (checks over : Bool) (w : ℕ)
    → Checked {E = E} checks (if checks && over then panic else ok w)
if-Checked true true w = inr (refl, refl)
if-Checked true false w = inl (w, refl)
if-Checked false over w = inl (w, refl)

pub add_i64-Checked :
    {E : Type 0} (checks : Bool) (a b : ℕ) → Checked {E = E} checks (add_i64 checks a b)
unfolding add_i64
add_i64-Checked checks a b = if-Checked checks _ _

pub mul_i64-Checked :
    {E : Type 0} (checks : Bool) (a b : ℕ) → Checked {E = E} checks (mul_i64 checks a b)
unfolding mul_i64
mul_i64-Checked checks a b = if-Checked checks _ _

-- The low byte first.
unfoldable pub to_le_bytes : ℕ → ℕ → List ℕ
to_le_bytes zero w = []
to_le_bytes (suc n) w = (w % 256) ∷ to_le_bytes n (w / 256)

-- Where the exact sum is an `i64`, the word computed means that sum, in either build.
pub signed-add :
    (a b : ℕ)
    → a < 2 ^ 64
    → b < 2 ^ 64
    → fits (signed a +ℤ signed b) ≡ true
    → signed ((a + b) % modulus) ≡ signed a +ℤ signed b
unfolding ◌+ℤ◌
signed-add a b ha hb h = ground arith
