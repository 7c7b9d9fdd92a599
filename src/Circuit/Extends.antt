-- ===== src/Circuit/Extends.antt =====
-- src/circuit.rs: that no call of `synthesize` takes away a value or a constraint, and that the steps
-- leave the variables of the program counter and of the gas alone.
use mathlib.Core.List.{reverse}
use zkmips_zkvm_impl_in_rust.Base.{
  ℕ, zero, suc, ◌≡◌, refl, ap, subst, ◌∙◌, List, [], ◌∷◌, ◌++◌, Option, some, All, Outcome, ok, err,
  panic, ◌+◌, ◌>>=◌, pure, leb, if_cases, length,
}
use zkmips_zkvm_impl_in_rust.Base.Keeps.{Keeps, IsPreorder, Keeps-bind, Keeps-lift}
use zkmips_zkvm_impl_in_rust.Circuit.System.{
  SynthesisError, Field, Constraint, ConstraintSystem, IsProver,
}
use zkmips_zkvm_impl_in_rust.Circuit.{
  VmState, VmCircuit, AllocatedState, alloc_all, alloc_pairs, alloc_state, stack_of, memory_of,
  storage_of,
}
use zkmips_zkvm_impl_in_rust.Circuit.Steps.{
  enforce, push_step, binary_at, extend_memory, store_at, sha3_at, Arm, push, add, mul, store, sha3,
  other, arm, circuit_step,
}
use zkmips_zkvm_impl_in_rust.Circuit.Synthesis.{steps, enforce_equal, enforce_zip, enforce_pairs}

module _ {CS V F : Type 0} {field : Field F} {cs : ConstraintSystem CS V F}
    (prover : IsProver field cs) where
  -- What `t` has of `s`: every value, and every constraint.
  pub record Extends (s t : CS) : Type 0 where
    pub kept : (v : V) (y : F) → prover.assigned s v ≡ some y → prover.assigned t v ≡ some y
    pub added : List (Constraint V)
    pub added_lem : prover.constraints t ≡ added ++ prover.constraints s

  append_assoc : {A : Type 0} (l m n : List A) → l ++ (m ++ n) ≡ (l ++ m) ++ n
  append_assoc [] m n = refl
  append_assoc (x ∷ l) m n = ap (◌∷◌ x) (append_assoc l m n)

  pub order : IsPreorder Extends
  order = record {
    refl = λ s. record { kept = λ v y h. h; added = []; added_lem = refl };
    trans = λ s t u h k. record {
      kept = λ v y e. k.kept v y (h.kept v y e);
      added = k.added ++ h.added;
      added_lem =
          k.added_lem
          ∙ ap (λ l. k.added ++ l) h.added_lem
          ∙ append_assoc k.added h.added (prover.constraints s);
    };
  }

  All-suffix : {A : Type 0} (P : A → Type 0) (l m : List A) → All P (l ++ m) → All P m
  All-suffix P [] m h = h
  All-suffix P (x ∷ l) m h = All-suffix P l m h.1

  -- What holds of every constraint later holds of those of before.
  pub All-extended :
      (P : Constraint V → Type 0) (s t : CS)
      → Extends s t
      → All P (prover.constraints t)
      → All P (prover.constraints s)
  All-extended P s t h k = All-suffix P h.added (prover.constraints s) (subst (All P) h.added_lem k)

  pub alloc-Extends : (r : Outcome SynthesisError F) → Keeps Extends (cs.alloc r)
  alloc-Extends (ok x) = record {
    at = λ s. rw (prover.alloc-ok x s) (record {
      kept = λ v y h. prover.assigned-extended x y s v h;
      added = [];
      added_lem = prover.constraints-extended x s;
    });
  }
  alloc-Extends (err e) = record { at = λ s. rw (prover.alloc-err e s) (order.refl s) }
  alloc-Extends panic = record { at = λ s. rw (prover.alloc-panic s) (order.refl s) }

  pub pure-Extends : {A : Type 0} (a : A) → Keeps {E = SynthesisError} Extends (pure a)
  pure-Extends a = record { at = order.refl }

  pub enforce-Extends : (a b c : V) → Keeps Extends (enforce cs field a b c)
  unfolding enforce
  enforce-Extends a b c = record {
    at = λ s. record {
      kept = λ v y h. prover.assigned-enforce _ s v ∙ h;
      added = _ ∷ [];
      added_lem = prover.constraints-enforce _ s;
    };
  }

  pub enforce_equal-Extends : (a b : V) → Keeps Extends (enforce_equal cs field a b)
  unfolding enforce_equal
  enforce_equal-Extends a b = enforce-Extends a cs.one b

  pub alloc_all-Extends : (values : List F) → Keeps Extends (alloc_all cs values)
  unfolding alloc_all
  alloc_all-Extends [] = pure-Extends []
  alloc_all-Extends (x ∷ values) =
      Keeps-bind order (alloc-Extends (ok x))
        (λ v. Keeps-bind order (alloc_all-Extends values) (λ vs. pure-Extends (v ∷ vs)))

  pub alloc_pairs-Extends : (pairs : List (F × F)) → Keeps Extends (alloc_pairs cs pairs)
  unfolding alloc_pairs
  alloc_pairs-Extends [] = pure-Extends []
  alloc_pairs-Extends ((k, v) ∷ pairs) = Keeps-bind order (alloc-Extends (ok k)) (λ x.
      Keeps-bind order (alloc-Extends (ok v))
        (λ y. Keeps-bind order (alloc_pairs-Extends pairs) (λ vs. pure-Extends ((x, y) ∷ vs))))

  pub alloc_state-Extends : (state : Option (VmState F)) → Keeps Extends (alloc_state cs state)
  unfolding alloc_state
  alloc_state-Extends state = Keeps-bind order (alloc_all-Extends (stack_of state)) (λ a.
      Keeps-bind order (alloc_all-Extends (memory_of state)) (λ b.
        Keeps-bind order (alloc_pairs-Extends (storage_of state)) (λ c.
          Keeps-bind order (alloc-Extends _)
            (λ d. Keeps-bind order (alloc-Extends _) (λ e. pure-Extends _)))))

  push_step-Extends :
      (c : VmCircuit F) (final : AllocatedState V) (step : ℕ) (current : AllocatedState V)
      → Keeps Extends (push_step cs field c final step current)
  unfolding push_step
  push_step-Extends c final step current =
      Keeps-bind order (alloc-Extends _)
        (λ v. Keeps-bind order (enforce-Extends _ _ _) (λ _. pure-Extends _))

  binary_at-Extends :
      (op : F → F → F) (c : VmCircuit F) (current : AllocatedState V) (stack : List V)
      → Keeps Extends (binary_at cs field op c current stack)
  unfolding binary_at
  binary_at-Extends op c current (a ∷ b ∷ stack) =
      Keeps-bind order (alloc-Extends _)
        (λ v. Keeps-bind order (enforce-Extends _ _ _) (λ _. pure-Extends _))
  binary_at-Extends op c current (a ∷ []) = pure-Extends _
  binary_at-Extends op c current [] = pure-Extends _

  pub extend_memory-Extends :
      (fuel step : ℕ) (memory : List V) → Keeps Extends (extend_memory cs field fuel step memory)
  unfolding extend_memory
  extend_memory-Extends zero step memory = pure-Extends memory
  extend_memory-Extends (suc fuel) step memory =
      if_cases (Keeps Extends) (leb (length memory) step) _ _
        (Keeps-bind order (alloc-Extends _) (λ v. extend_memory-Extends fuel step _))
        (pure-Extends memory)

  store_at-Extends :
      (step : ℕ) (current : AllocatedState V) (stack : List V)
      → Keeps Extends (store_at cs field step current stack)
  unfolding store_at
  store_at-Extends step current (a ∷ b ∷ stack) =
      Keeps-bind order (extend_memory-Extends _ step _)
        (λ v. Keeps-bind order (enforce-Extends _ _ _) (λ _. pure-Extends _))
  store_at-Extends step current (a ∷ []) = pure-Extends _
  store_at-Extends step current [] = pure-Extends _

  sha3_at-Extends :
      (h : List ℕ → List ℕ) (c : VmCircuit F) (current : AllocatedState V) (stack : List V)
      → Keeps Extends (sha3_at cs field h c current stack)
  unfolding sha3_at
  sha3_at-Extends h c current (a ∷ b ∷ stack) =
      Keeps-bind order (Keeps-lift order _)
        (λ i. Keeps-bind order (alloc-Extends _) (λ v. pure-Extends _))
  sha3_at-Extends h c current (a ∷ []) = pure-Extends _
  sha3_at-Extends h c current [] = pure-Extends _

  arm-Extends :
      (h : List ℕ → List ℕ) (c : VmCircuit F) (final : AllocatedState V) (step : ℕ)
      (current : AllocatedState V) (a : Arm)
      → Keeps Extends (arm cs field h c final step current a)
  unfolding arm
  arm-Extends h c final step current push = push_step-Extends c final step current
  arm-Extends h c final step current add = binary_at-Extends field.add c current current.stack
  arm-Extends h c final step current mul = binary_at-Extends field.mul c current current.stack
  arm-Extends h c final step current store = store_at-Extends step current current.stack
  arm-Extends h c final step current sha3 = sha3_at-Extends h c current current.stack
  arm-Extends h c final step current other = pure-Extends current

  pub circuit_step-Extends :
      (h : List ℕ → List ℕ) (c : VmCircuit F) (final : AllocatedState V) (step : ℕ)
      (current : AllocatedState V)
      → Keeps Extends (circuit_step cs field h c final step current)
  unfolding circuit_step
  circuit_step-Extends h c final step current =
      Keeps-bind order (Keeps-lift order _)
        (λ o. Keeps-bind order (alloc-Extends _) (λ v. arm-Extends h c final step current _))

  pub steps-Extends :
      (h : List ℕ → List ℕ) (c : VmCircuit F) (final : AllocatedState V) (remaining step : ℕ)
      (current : AllocatedState V)
      → Keeps Extends (steps cs field h c final remaining step current)
  unfolding steps
  steps-Extends h c final zero step current = pure-Extends current
  steps-Extends h c final (suc remaining) step current =
      Keeps-bind order (circuit_step-Extends h c final step current)
        (steps-Extends h c final remaining (step + 1))

  enforce_zip-Extends : (l m : List V) → Keeps Extends (enforce_zip cs field l m)
  unfolding enforce_zip
  enforce_zip-Extends (a ∷ l) (b ∷ m) =
      Keeps-bind order (enforce_equal-Extends a b) (λ _. enforce_zip-Extends l m)
  enforce_zip-Extends [] m = pure-Extends tt
  enforce_zip-Extends (a ∷ l) [] = pure-Extends tt

  enforce_pairs-Extends : (l m : List (V × V)) → Keeps Extends (enforce_pairs cs field l m)
  unfolding enforce_pairs
  enforce_pairs-Extends ((k, v) ∷ l) ((j, w) ∷ m) =
      Keeps-bind order
        (Keeps-bind order (enforce_equal-Extends k j) (λ _. enforce_equal-Extends v w))
        (λ _. enforce_pairs-Extends l m)
  enforce_pairs-Extends [] m = pure-Extends tt
  enforce_pairs-Extends (a ∷ l) [] = pure-Extends tt

  -- What `enforce_final` adds after its first two constraints.
  pub enforce_rest-Extends :
      (current final : AllocatedState V)
      → Keeps Extends (
          enforce_zip cs field (reverse current.stack) (reverse final.stack) >>= λ _.
          enforce_zip cs field current.memory final.memory >>= λ _.
          enforce_pairs cs field current.storage final.storage)
  enforce_rest-Extends current final =
      Keeps-bind order (enforce_zip-Extends _ _)
        (λ _. Keeps-bind order (enforce_zip-Extends _ _) (λ _. enforce_pairs-Extends _ _))
