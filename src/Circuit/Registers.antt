-- ===== src/Circuit/Registers.antt =====
-- src/circuit.rs: that the steps leave the variables of the program counter and of the gas alone,
-- and the values that `alloc_state` gives them.
use zkmips_zkvm_impl_in_rust.Base.{
  ℕ, zero, suc, ◌+◌, ◌≡◌, refl, ◌∙◌, List, [], ◌∷◌, some, Outcome, ok, err, lift, subst, pure,
  panic,
}
use zkmips_zkvm_impl_in_rust.Base.Keeps.{Returns, Returns-bind, bind-ok}
use zkmips_zkvm_impl_in_rust.Circuit.System.{SynthesisError, Field, ConstraintSystem, IsProver}
use zkmips_zkvm_impl_in_rust.Circuit.{
  VmState, VmCircuit, AllocatedState, alloc_all, alloc_pairs, alloc_state,
}
use zkmips_zkvm_impl_in_rust.Circuit.Steps.{
  enforce, push_step, binary_at, extend_memory, store_at, sha3_at, Arm, push, add, mul, store, sha3,
  other, arm, circuit_step, current_opcode, ok_or, sha3_input, sha3_value,
}
use zkmips_zkvm_impl_in_rust.Circuit.Synthesis.{steps}
use zkmips_zkvm_impl_in_rust.Circuit.Extends.{Extends, alloc-Extends}

abbrev pub SameRegisters : {V : Type 0} → AllocatedState V → AllocatedState V → Type 0
SameRegisters a b = (b.program_counter ≡ a.program_counter) × (b.gas_remaining ≡ a.gas_remaining)

module _ {CS V F : Type 0} (cs : ConstraintSystem CS V F) (field : Field F) where
  pure-Same :
      (a b : AllocatedState V)
      → SameRegisters a b
      → Returns {E = SynthesisError} {S = CS} (SameRegisters a) (pure b)
  pure-Same a b h = record { at = λ s c t e. let q : b ≡ c = cc in subst (SameRegisters a) q h }

  binary_at-Same :
      (op : F → F → F) (c : VmCircuit F) (current : AllocatedState V) (stack : List V)
      → Returns (SameRegisters current) (binary_at cs field op c current stack)
  unfolding binary_at
  binary_at-Same op c current (a ∷ b ∷ stack) =
      Returns-bind _
        (λ v. Returns-bind (enforce cs field a b v) (λ _. pure-Same current _ (refl, refl)))
  binary_at-Same op c current (a ∷ []) = pure-Same current current (refl, refl)
  binary_at-Same op c current [] = pure-Same current current (refl, refl)

  store_at-Same :
      (step : ℕ) (current : AllocatedState V) (stack : List V)
      → Returns (SameRegisters current) (store_at cs field step current stack)
  unfolding store_at
  store_at-Same step current (a ∷ b ∷ stack) =
      Returns-bind (extend_memory cs field (step + 1) step current.memory)
        (λ v. Returns-bind (enforce cs field b cs.one a) (λ _. pure-Same current _ (refl, refl)))
  store_at-Same step current (a ∷ []) = pure-Same current current (refl, refl)
  store_at-Same step current [] = pure-Same current current (refl, refl)

  sha3_at-Same :
      (h : List ℕ → List ℕ) (c : VmCircuit F) (current : AllocatedState V) (stack : List V)
      → Returns (SameRegisters current) (sha3_at cs field h c current stack)
  unfolding sha3_at
  sha3_at-Same h c current (a ∷ b ∷ stack) = Returns-bind (lift (sha3_input field c)) (λ i.
      Returns-bind (cs.alloc (sha3_value field h c i)) (λ _. pure-Same current _ (refl, refl)))
  sha3_at-Same h c current (a ∷ []) = pure-Same current current (refl, refl)
  sha3_at-Same h c current [] = pure-Same current current (refl, refl)

  arm-Same :
      (h : List ℕ → List ℕ) (c : VmCircuit F) (final : AllocatedState V) (step : ℕ)
      (current : AllocatedState V) (a : Arm)
      → Returns (SameRegisters current) (arm cs field h c final step current a)
  unfolding arm push_step
  arm-Same h c final step current push =
      Returns-bind _
        (λ v. Returns-bind (enforce cs field _ _ _) (λ _. pure-Same current _ (refl, refl)))
  arm-Same h c final step current add = binary_at-Same field.add c current current.stack
  arm-Same h c final step current mul = binary_at-Same field.mul c current current.stack
  arm-Same h c final step current store = store_at-Same step current current.stack
  arm-Same h c final step current sha3 = sha3_at-Same h c current current.stack
  arm-Same h c final step current other = pure-Same current current (refl, refl)

  circuit_step-Same :
      (h : List ℕ → List ℕ) (c : VmCircuit F) (final : AllocatedState V) (step : ℕ)
      (current : AllocatedState V)
      → Returns (SameRegisters current) (circuit_step cs field h c final step current)
  unfolding circuit_step
  circuit_step-Same h c final step current =
      Returns-bind (lift (current_opcode field c))
        (λ o. Returns-bind (cs.alloc (ok_or o)) (λ v. arm-Same h c final step current _))

  pub steps-Same :
      (h : List ℕ → List ℕ) (c : VmCircuit F) (final : AllocatedState V) (remaining step : ℕ)
      (current : AllocatedState V)
      → Returns (SameRegisters current) (steps cs field h c final remaining step current)
  unfolding steps
  steps-Same h c final zero step current = pure-Same current current (refl, refl)
  steps-Same h c final (suc remaining) step current = record {
    at = λ s b u e.
        let (a, t, e1, e2) = bind-ok (circuit_step cs field h c final step current) _ s b u e in
        let (p, g) = (circuit_step-Same h c final step current).at s a t e1 in
        let (q, k) = (steps-Same h c final remaining (step + 1) a).at t b u e2 in (q ∙ p, k ∙ g);
  }

module _ {CS V F : Type 0} {field : Field F} {cs : ConstraintSystem CS V F}
    (prover : IsProver field cs) where
  -- An `alloc` that returns has a value of its closure, and gives it to its variable.
  pub alloc-assigned :
      (r : Outcome SynthesisError F) (s : CS) (v : V) (t : CS)
      → cs.alloc r s ≡ (ok v, t)
      → (x : F) × (r ≡ ok x) × (prover.assigned t v ≡ some x)
  alloc-assigned (ok x) s v t e = (x, refl, cc (e, prover.alloc-ok x s, prover.assigned-fresh x s))
  alloc-assigned (err x) s v t e = absurd (cc (prover.alloc-err x s, e))
  alloc-assigned panic s v t e = absurd (cc (prover.alloc-panic s, e))

  -- The same with the value known.
  alloc-value :
      (x : F) (s : CS) (v : V) (t : CS)
      → cs.alloc (ok x) s ≡ (ok v, t)
      → prover.assigned t v ≡ some x
  alloc-value x s v t e = let (y, ey, h) = alloc-assigned (ok x) s v t e in cc (ey, h)

  alloc-kept :
      (x y : F) (s : CS) (v w : V) (t : CS)
      → cs.alloc (ok x) s ≡ (ok v, t)
      → prover.assigned s w ≡ some y
      → prover.assigned t w ≡ some y
  alloc-kept x y s v w t e h =
      let k : Extends prover s t =
        subst (λ r. Extends prover s r.1) e ((alloc-Extends prover (ok x)).at s) in
      k.kept w y h

  returned :
      (P : AllocatedState V → CS → Type 0) (a b : AllocatedState V) (t u : CS)
      → pure {E = SynthesisError} b t ≡ (ok a, u)
      → P b t
      → P a u
  returned P a b t u e h =
      let q : b ≡ a = cc in let r : t ≡ u = cc in subst (λ x. P x u) q (subst (P b) r h)

  abbrev pub HasRegisters : VmState F → AllocatedState V → CS → Type 0
  HasRegisters state a t =
      (prover.assigned t a.program_counter ≡ some state.program_counter)
      × (prover.assigned t a.gas_remaining ≡ some state.gas_remaining)

  pub alloc_state-registers :
      (state : VmState F) (s : CS) (a : AllocatedState V) (t : CS)
      → alloc_state cs (some state) s ≡ (ok a, t)
      → HasRegisters state a t
  unfolding alloc_state
  alloc_state-registers state s a u e =
      let (st, s1, e1, q1) = bind-ok (alloc_all cs state.stack) _ s a u e in
      let (me, s2, e2, q2) = bind-ok (alloc_all cs state.memory) _ s1 a u q1 in
      let (so, s3, e3, q3) = bind-ok (alloc_pairs cs state.storage) _ s2 a u q2 in
      let (pc, s4, e4, q4) = bind-ok (cs.alloc (ok state.program_counter)) _ s3 a u q3 in
      let (ga, s5, e5, q5) = bind-ok (cs.alloc (ok state.gas_remaining)) _ s4 a u q4 in
      returned (HasRegisters state) a _ s5 u q5 (
        alloc-kept state.gas_remaining state.program_counter s4 ga pc s5 e5
            (alloc-value state.program_counter s3 pc s4 e4),
        alloc-value state.gas_remaining s4 ga s5 e5,
      )
