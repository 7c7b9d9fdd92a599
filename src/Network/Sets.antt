-- ===== src/Network/Sets.antt =====
-- `HashSet` as a list in which nothing stands twice.
use zkmips_zkvm_impl_in_rust.Base.{
  suc, ◌+◌, ◌≤◌, ◌<◌, ◌≡◌, refl, Bool, true, false, List, [], ◌∷◌, Eq, ◌==◌, if◌then◌else◌, length,
  arith, inl, inr, Bool-cases,
}

module _ {ℓ} {A : Type ℓ} ⦃e : Eq A⦄ where
  unfoldable pub contains : A → List A → Bool
  contains a [] = false
  contains a (x ∷ l) = if x == a then true else contains a l

  unfoldable pub add : A → List A → List A
  add a l = if contains a l then l else a ∷ l

  unfoldable pub discard : A → List A → List A
  discard a [] = []
  discard a (x ∷ l) = let rest = discard a l in if x == a then rest else x ∷ rest

  abbrev pub Once : List A → Type 0
  Once [] = Unit
  Once (x ∷ l) = (contains x l ≡ false) × Once l

  -- Every member of the one is a member of the other.
  abbrev pub Within : List A → List A → Type ℓ
  Within l u = (a : A) → contains a l ≡ true → contains a u ≡ true

  pub contains-add :
      (a b : A) (l : List A) → contains b (add a l) ≡ (if a == b then true else contains b l)
  unfolding contains add
  contains-add a b l = ground (arith, e.beq_iff a b)

  pub add-Once : (a : A) (l : List A) → Once l → Once (add a l)
  unfolding add
  add-Once a l o = ground arith

  pub contains-discard :
      (a b : A) (l : List A) → contains b (discard a l) ≡ (if a == b then false else contains b l)
  unfolding contains discard
  contains-discard a b [] = ground arith
  contains-discard a b (x ∷ l) =
      ground (arith, contains-discard a b l, e.beq_iff a b, e.beq_iff x a, e.beq_iff x b)

  pub discard-Once : (a : A) (l : List A) → Once l → Once (discard a l)
  unfolding discard
  discard-Once a [] o = tt
  discard-Once a (x ∷ l) o = ground (arith, discard-Once a l o.1, contains-discard a x l)

  discard_absent : (a : A) (l : List A) → contains a l ≡ false → discard a l ≡ l
  unfolding contains discard
  discard_absent a [] h = refl
  discard_absent a (x ∷ l) h = ground (arith, discard_absent a l)

  pub length-discard :
      (a : A) (l : List A) → Once l → contains a l ≡ true → length l ≡ suc (length (discard a l))
  unfolding contains discard
  length-discard a [] o h = cc
  length-discard a (x ∷ l) o h =
      ground (arith, length-discard a l o.1, e.beq_iff x a, discard_absent x l)

  -- A set has at most as many members as one that it lies in.
  pub length-Within : (l u : List A) → Once l → Once u → Within l u → length l ≤ length u
  unfolding contains
  length-Within [] u o v w = omega arith
  length-Within (x ∷ l) u o v w =
      let there = w x (ground (arith, e.beq_iff x x)) in
      omega (
        arith,
        length-Within l (discard x u) o.1 (discard-Once x u v)
            (λ a h. ground (arith, contains-discard x a u, w a, e.beq_iff x a)),
        length-discard x u v there,
      )

  -- Two sets in a third, together larger than it, have a member in common.
  pub common :
      (l k u : List A)
      → Once l
      → Once k
      → Once u
      → Within l u
      → Within k u
      → length u < length l + length k
      → (a : A) × (contains a l ≡ true) × (contains a k ≡ true)
  unfolding contains
  common [] k u ol ok ou wl wk lt = absurd (omega (arith, length-Within k u ok ou wk))
  common (x ∷ l) k u ol ok ou wl wk lt = elim (Bool-cases (contains x k)) [
    | inl both ↦ (x, ground (arith, e.beq_iff x x), both)
    | inr only ↦
        let there = wl x (ground (arith, e.beq_iff x x)) in
        let (a, al, ak) =
          common l k (discard x u) ol.1 ok (discard-Once x u ou)
            (λ a h. ground (arith, contains-discard x a u, wl a, e.beq_iff x a))
            (λ a h. ground (arith, contains-discard x a u, wk a, e.beq_iff x a))
            (omega (arith, length-discard x u ou there)) in
        (a, ground arith, ak)
  ]
