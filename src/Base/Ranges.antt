-- ===== src/Base/Ranges.antt =====
-- A list with a range replaced, as `copy_from_slice` leaves it.
use Prim.Native.Nat.{ℕ, zero, suc, ◌+◌, ◌-◌, ◌≤◌}
use mathlib.Core.Path.{◌≡◌, refl, ap, subst, ◌∙◌, sym}
use mathlib.Core.List.{List, [], ◌∷◌, ◌++◌}
use native.Mathlib.Omega.{arith}
use zkmips_zkvm_impl_in_rust.Base.Lists.{
  length, take, drop, length-append, length-take, length-drop, take-append, drop-append,
}

module _ {ℓ} {A : Type ℓ} where
  abbrev pub patched : List A → ℕ → List A → List A
  patched xs offset source = take offset xs ++ (source ++ drop (offset + length source) xs)

  pub length-patched :
      (xs source : List A) (offset : ℕ)
      → offset + length source ≤ length xs
      → length (patched xs offset source) ≡ length xs
  length-patched xs source offset le = omega (
    arith,
    length-append {ℓ} (take offset xs) (source ++ drop (offset + length source) xs),
    length-append {ℓ} source (drop (offset + length source) xs),
    length-take {ℓ} offset xs,
    length-drop {ℓ} (offset + length source) xs,
  )

  -- The range put in is the range read back.
  pub range_patched :
      (xs source : List A) (offset : ℕ)
      → offset ≤ length xs
      → take (length source) (drop offset (patched xs offset source)) ≡ source
  range_patched xs source offset le =
      let rest = source ++ drop (offset + length source) xs in
      let e : length (take offset xs) ≡ offset = omega (arith, length-take {ℓ} offset xs) in
      ap (take (length source))
        (subst (λ n. drop n (take offset xs ++ rest) ≡ rest) e (drop-append (take offset xs) rest))
      ∙ take-append source (drop (offset + length source) xs)

  take-take-append :
      (n k : ℕ) (xs ys : List A) → n ≤ k → k ≤ length xs → take n (take k xs ++ ys) ≡ take n xs
  unfolding take
  take-take-append zero k xs ys le h = refl
  take-take-append (suc n) zero xs ys le h = absurd (omega arith)
  take-take-append (suc n) (suc k) [] ys le h = absurd (omega arith)
  take-take-append (suc n) (suc k) (x ∷ xs) ys le h =
      ap (◌∷◌ x) (take-take-append n k xs ys (omega arith) (omega arith))

  take-drop_before :
      (n o k : ℕ) (xs ys : List A)
      → o + n ≤ k
      → k ≤ length xs
      → take n (drop o (take k xs ++ ys)) ≡ take n (drop o xs)
  unfolding take drop
  take-drop_before n zero k xs ys le h = take-take-append n k xs ys (omega arith) h
  take-drop_before n (suc o) zero xs ys le h = absurd (omega arith)
  take-drop_before n (suc o) (suc k) [] ys le h = absurd (omega arith)
  take-drop_before n (suc o) (suc k) (x ∷ xs) ys le h =
      take-drop_before n o k xs ys (omega arith) (omega arith)

  drop-append_ge :
      (n : ℕ) (xs ys : List A) → length xs ≤ n → drop n (xs ++ ys) ≡ drop (n - length xs) ys
  unfolding drop
  drop-append_ge n [] ys h = ap (λ k. drop k ys) (omega arith)
  drop-append_ge zero (x ∷ xs) ys h = absurd (omega arith)
  drop-append_ge (suc n) (x ∷ xs) ys h =
      drop-append_ge n xs ys (omega arith) ∙ ap (λ k. drop k ys) (omega arith)

  drop-nil : (n : ℕ) → drop {A = A} n [] ≡ []
  unfolding drop
  drop-nil zero = refl
  drop-nil (suc n) = refl

  drop-drop : (m n : ℕ) (xs : List A) → drop m (drop n xs) ≡ drop (n + m) xs
  unfolding drop
  drop-drop m zero xs = ap (λ k. drop k xs) (omega arith)
  drop-drop m (suc n) [] = drop-nil m ∙ sym (drop-nil (suc n + m))
  drop-drop m (suc n) (x ∷ xs) =
      drop-drop m n xs ∙ ap {B = List A} (λ k. drop k (x ∷ xs)) {x = suc (n + m)} (omega arith)

  -- What lies before the range, or behind it, is as it was.
  pub range_before :
      (xs source : List A) (offset o n : ℕ)
      → o + n ≤ offset
      → offset ≤ length xs
      → take n (drop o (patched xs offset source)) ≡ take n (drop o xs)
  range_before xs source offset o n le h =
      take-drop_before n o offset xs (source ++ drop (offset + length source) xs) le h

  pub range_behind :
      (xs source : List A) (offset o : ℕ)
      → offset + length source ≤ o
      → offset ≤ length xs
      → drop o (patched xs offset source) ≡ drop o xs
  range_behind xs source offset o le h =
      let e : length (take offset xs) ≡ offset = omega (arith, length-take {ℓ} offset xs) in
      drop-append_ge o (take offset xs) (source ++ drop (offset + length source) xs) (omega arith)
      ∙ drop-append_ge (o - length (take offset xs)) source (drop (offset + length source) xs)
          (omega arith)
      ∙ drop-drop (o - length (take offset xs) - length source) (offset + length source) xs
      ∙ ap (λ k. drop k xs) (omega arith)
