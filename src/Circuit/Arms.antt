-- ===== src/Circuit/Arms.antt =====
-- src/circuit.rs: what the constraints of the arithmetic and of the store hold their values to, and
-- that the loop that extends the memory has turns enough.
use zkmips_zkvm_impl_in_rust.Base.{
  ℕ, zero, suc, ◌+◌, ◌<◌, ◌≡◌, refl, sym, subst, ◌∙◌, List, [], ◌∷◌, ◌++◌, some, ok, pure, length,
  get_elem?, leb, if_split, arith, length-append,
}
use zkmips_zkvm_impl_in_rust.Base.Keeps.{Returns, Returns-bind, bind-ok}
use zkmips_zkvm_impl_in_rust.Circuit.System.{
  SynthesisError, Field, ConstraintSystem, IsProver, Satisfied,
}
use zkmips_zkvm_impl_in_rust.Circuit.{VmCircuit, AllocatedState}
use zkmips_zkvm_impl_in_rust.Circuit.Steps.{
  enforce, extend_memory, binary_at, binary_value, store_at, set_at,
}
use zkmips_zkvm_impl_in_rust.Circuit.Extends.{
  Extends, order, alloc-Extends, enforce-Extends, extend_memory-Extends,
}
use zkmips_zkvm_impl_in_rust.Circuit.Registers.{alloc-assigned}
use zkmips_zkvm_impl_in_rust.Circuit.Soundness.{run-Extends, enforce-Holds}

module _ {CS V F : Type 0} {field : Field F} {cs : ConstraintSystem CS V F}
    (prover : IsProver field cs) where
  -- ADD as well as MUL: where the constraints come to hold, the value pushed, and with it the sum or the
  -- product that its closure computed from the initial stack, is the product of the two popped.
  pub binary_at-product :
      (op : F → F → F) (c : VmCircuit F) (current r : AllocatedState V) (a b : V) (stack : List V)
      (s t u : CS) (x y : F)
      → binary_at cs field op c current (a ∷ b ∷ stack) s ≡ (ok r, t)
      → Extends prover t u
      → Satisfied prover u
      → prover.assigned s a ≡ some x
      → prover.assigned s b ≡ some y
      → (v : V) × (r.stack ≡ v ∷ stack)
        × (prover.assigned u v ≡ some (field.mul x y))
        × (binary_value field op c ≡ ok (field.mul x y))
  unfolding binary_at enforce
  binary_at-product op c current r a b stack s t u x y e k sat ea eb =
      let o = order prover in
      let (v, s1, e1, q1) = bind-ok (cs.alloc (binary_value field op c)) _ s r t e in
      let (z, ez, hz) = alloc-assigned prover (binary_value field op c) s v s1 e1 in
      let k1 : Extends prover s s1 = run-Extends prover _ s v s1 (alloc-Extends prover _) e1 in
      let k2 : Extends prover s1 (enforce cs field a b v s1).1 =
        (enforce-Extends prover a b v).at s1 in
      let et : (enforce cs field a b v s1).1 ≡ t = cc in
      let k3 : Extends prover (enforce cs field a b v s1).1 u = rw et k in
      let k4 : Extends prover s1 u = o.trans s1 _ u k2 k3 in
      let q : field.mul x y ≡ z =
        enforce-Holds prover a b v s1 u x y z k3 sat (k4.kept a x (k1.kept a x ea))
          (k4.kept b y (k1.kept b y eb)) (k4.kept v z hz) in
      (v, cc, rw q (k4.kept v z hz), rw q ez)

  Returns-value :
      (P : List V → Type 0) (m : List V) → P m → Returns {E = SynthesisError} {S = CS} P (pure m)
  Returns-value P m h = record { at = λ s a t e. let q : m ≡ a = cc in subst P q h }

  pub extend_memory-Returns :
      (fuel step : ℕ) (memory : List V)
      → step < length memory + fuel
      → Returns (λ m. step < length m) (extend_memory cs field fuel step memory)
  unfolding extend_memory
  extend_memory-Returns zero step memory h =
      Returns-value (λ m. step < length m) memory (omega arith)
  extend_memory-Returns (suc fuel) step memory h =
      if_split (Returns (λ m. step < length m)) (leb (length memory) step) _ _
        (λ le. Returns-bind (cs.alloc (ok field.zero)) (λ v.
          extend_memory-Returns fuel step (memory ++ (v ∷ []))
            (omega (arith, length-append memory (v ∷ [])))))
        (λ gt. Returns-value (λ m. step < length m) memory (ground arith))

  set_at-get :
      {A : Type 0} (i : ℕ) (x : A) (l : List A) → i < length l → get_elem? (set_at i x l) i ≡ some x
  set_at-get i x [] h = absurd (omega arith)
  set_at-get zero x (y ∷ l) h = refl
  set_at-get (suc i) x (y ∷ l) h = set_at-get i x l (omega arith)

  -- STORE: the memory has the value at the number of the step, whatever the address, and where the
  -- constraints come to hold the address and the value are equal.
  pub store_at-equal :
      (step : ℕ) (current r : AllocatedState V) (value addr : V) (stack : List V) (s t u : CS)
      (x y : F)
      → store_at cs field step current (value ∷ addr ∷ stack) s ≡ (ok r, t)
      → Extends prover t u
      → Satisfied prover u
      → prover.assigned s value ≡ some x
      → prover.assigned s addr ≡ some y
      → (r.stack ≡ stack) × (get_elem? r.memory step ≡ some value) × (y ≡ x)
  unfolding store_at enforce
  store_at-equal step current r value addr stack s t u x y e k sat ev ea =
      let o = order prover in
      let (m, s1, e1, q1) =
        bind-ok (extend_memory cs field (step + 1) step current.memory) _ s r t e in
      let k1 : Extends prover s s1 =
        run-Extends prover _ s m s1 (extend_memory-Extends prover (step + 1) step current.memory)
          e1 in
      let k2 : Extends prover s1 (enforce cs field addr cs.one value s1).1 =
        (enforce-Extends prover addr cs.one value).at s1 in
      let et : (enforce cs field addr cs.one value s1).1 ≡ t = cc in
      let k3 : Extends prover (enforce cs field addr cs.one value s1).1 u = rw et k in
      let k4 : Extends prover s u = o.trans s s1 u k1 (o.trans s1 _ u k2 k3) in
      let lt : step < length m =
        (extend_memory-Returns (step + 1) step current.memory (omega arith)).at s m s1 e1 in
      let em : r.memory ≡ set_at step value m = cc in
      (
        cc,
        rw em (set_at-get step value m lt),
        sym (prover.mul-one y)
            ∙ enforce-Holds prover addr cs.one value s1 u y field.one x k3 sat (k4.kept addr y ea)
                (prover.assigned-one u) (k4.kept value x ev),
      )
