-- ===== src/Circuit/Steps.antt =====
-- src/circuit.rs: one turn of the loop of `synthesize`. The values that the closures compute come
-- from the circuit's initial state, whatever the step. Blake2b is a parameter.
use zkmips_zkvm_impl_in_rust.Base.{
  ℕ, zero, suc, ◌+◌, ◌-◌, List, [], ◌∷◌, ◌++◌, Option, none, some, ltb, leb, eqb, length, get_elem?,
  if◌then◌else◌, Outcome, ok, err, panic, Exec, pure, lift, ◌>>=◌,
}
use zkmips_zkvm_impl_in_rust.Base.Word.{slice}
use zkmips_zkvm_impl_in_rust.Circuit.System.{
  SynthesisError, assignment_missing, Field, ConstraintSystem,
}
use zkmips_zkvm_impl_in_rust.Circuit.{VmCircuit, AllocatedState, of_state}

abbrev pub and_then :
    {A B : Type 0}
    → Outcome SynthesisError A
    → (A → Outcome SynthesisError B)
    → Outcome SynthesisError B
and_then (ok a) f = f a
and_then (err e) f = err e
and_then panic f = panic

-- `v[i]`.
abbrev pub index : {A : Type 0} → List A → ℕ → Outcome SynthesisError A
index l i = elim (get_elem? l i) [ some x ↦ ok x | none ↦ panic ]

-- `stack[stack.len() - n]`, which panics where the length is less than `n`, in every build.
abbrev pub from_end : {A : Type 0} → ℕ → List A → Outcome SynthesisError A
from_end n stack = if ltb (length stack) n then panic else index stack (length stack - n)

-- `memory[i] = v`, in range.
abbrev pub set_at : {A : Type 0} → ℕ → A → List A → List A
set_at i x [] = []
set_at zero x (y ∷ l) = x ∷ l
set_at (suc i) x (y ∷ l) = y ∷ set_at i x l

abbrev pub with_stack : {V : Type 0} → AllocatedState V → List V → AllocatedState V
with_stack current stack = record current { stack = stack }

-- `opcode.ok_or(AssignmentMissing)`
abbrev pub ok_or : {A : Type 0} → Option A → Outcome SynthesisError A
ok_or (some x) = ok x
ok_or none = err assignment_missing

module _ {F : Type 0} (field : Field F) where
  -- `value.to_repr().as_ref()[0] as usize`
  unfoldable pub low_byte : F → Outcome SynthesisError ℕ
  low_byte x = index (field.to_repr x) 0

  -- The opcode that a step allocates is the one at the initial program counter, in every step.
  unfoldable pub current_opcode : VmCircuit F → Outcome SynthesisError (Option F)
  unfolding low_byte
  current_opcode circuit = elim circuit.initial_state [
    | none ↦ ok none
    | some state ↦ and_then (low_byte state.program_counter) (λ pc.
        elim (get_elem? circuit.program pc) [
          | some opcode ↦ ok (some (field.from opcode))
          | none ↦ ok none
        ])
  ]

  unfoldable pub push_value : VmCircuit F → ℕ → Outcome SynthesisError F
  push_value circuit step =
      of_state circuit.initial_state
        (λ s. and_then (index circuit.program (step + 1)) (λ b. ok (field.from b)))

  unfoldable pub binary_value : (F → F → F) → VmCircuit F → Outcome SynthesisError F
  binary_value op circuit = of_state circuit.initial_state (λ state.
      and_then (from_end 1 state.stack)
        (λ a_val. and_then (from_end 2 state.stack) (λ b_val. ok (op a_val b_val))))

  abbrev pub repr_bytes : List F → List ℕ
  repr_bytes [] = []
  repr_bytes (x ∷ xs) = field.to_repr x ++ repr_bytes xs

  -- What the hasher was given.
  unfoldable pub sha3_input : VmCircuit F → Outcome SynthesisError (List ℕ)
  unfolding low_byte
  sha3_input circuit = elim circuit.initial_state [
    | none ↦ ok []
    | some state ↦ and_then (from_end 2 state.stack) (λ offset_val.
        and_then (from_end 1 state.stack) (λ size_val. and_then (low_byte offset_val) (λ from.
          and_then (low_byte (field.add offset_val size_val)) (λ to.
            and_then (slice state.memory from to) (λ memory_slice. ok (repr_bytes memory_slice))))))
  ]

  abbrev pub repr_or_zero : Option F → F
  repr_or_zero (some x) = x
  repr_or_zero none = field.zero

  unfoldable pub sha3_value : (List ℕ → List ℕ) → VmCircuit F → List ℕ → Outcome SynthesisError F
  sha3_value blake2b512 circuit input = of_state circuit.initial_state (λ s.
      and_then (slice (blake2b512 input) 0 32) (λ bytes. ok (repr_or_zero (field.from_repr bytes))))

pub data Arm : Type 0 where
  push : Arm
  add : Arm
  mul : Arm
  store : Arm
  sha3 : Arm
  other : Arm

-- The arm that `self.program.get(step)` selects.
unfoldable pub arm_of : Option ℕ → Arm
arm_of none = other
arm_of (some opcode) =
    if eqb opcode 0x01
    then push
    else if eqb opcode 0x02
    then add
    else if eqb opcode 0x03
    then mul
    else if eqb opcode 0x04
    then store
    else if eqb opcode 0x0E
    then sha3
    else other

module _ {CS V F : Type 0} (cs : ConstraintSystem CS V F) (field : Field F) where
  unfoldable pub enforce : V → V → V → Exec SynthesisError CS Unit
  enforce a b c s = (ok tt, cs.enforce (record { left = a; right = b; result = c }) s)

  unfoldable pub push_step :
      VmCircuit F
      → AllocatedState V
      → ℕ
      → AllocatedState V
      → Exec SynthesisError CS (AllocatedState V)
  push_step circuit final step current = do
    value ← cs.alloc (push_value field circuit step)
    _ ← enforce current.program_counter cs.one final.program_counter
    pure (with_stack current (value ∷ current.stack))

  -- ADD and MUL: what is allocated is the sum or the product, and both enforce a product.
  unfoldable pub binary_at :
      (F → F → F)
      → VmCircuit F
      → AllocatedState V
      → List V
      → Exec SynthesisError CS (AllocatedState V)
  binary_at op circuit current (a ∷ b ∷ stack) = do
    result ← cs.alloc (binary_value field op circuit)
    _ ← enforce a b result
    pure (with_stack current (result ∷ stack))
  binary_at op circuit current (a ∷ []) = pure current
  binary_at op circuit current [] = pure current

  abbrev pub binary_step :
      (F → F → F) → VmCircuit F → AllocatedState V → Exec SynthesisError CS (AllocatedState V)
  binary_step op circuit current = binary_at op circuit current current.stack

  -- `while memory.len() <= step`, where `fuel` turns are enough.
  unfoldable pub extend_memory : ℕ → ℕ → List V → Exec SynthesisError CS (List V)
  extend_memory zero step memory = pure memory
  extend_memory (suc fuel) step memory =
      let rest : V → Exec SynthesisError CS (List V) =
        λ zero_var. extend_memory fuel step (memory ++ (zero_var ∷ [])) in
      if leb (length memory) step then cs.alloc (ok field.zero) >>= rest else pure memory

  unfoldable pub store_at :
      ℕ → AllocatedState V → List V → Exec SynthesisError CS (AllocatedState V)
  unfolding extend_memory
  store_at step current (value ∷ addr ∷ stack) = do
    memory ← extend_memory (step + 1) step current.memory
    _ ← enforce addr cs.one value
    pure (record current { stack = stack; memory = set_at step value memory })
  store_at step current (value ∷ []) = pure current
  store_at step current [] = pure current

  abbrev pub store_step : ℕ → AllocatedState V → Exec SynthesisError CS (AllocatedState V)
  store_step step current = store_at step current current.stack

  unfoldable pub sha3_at :
      (List ℕ → List ℕ)
      → VmCircuit F
      → AllocatedState V
      → List V
      → Exec SynthesisError CS (AllocatedState V)
  sha3_at blake2b512 circuit current (size ∷ offset ∷ stack) = do
    input ← lift (sha3_input field circuit)
    hash_result ← cs.alloc (sha3_value field blake2b512 circuit input)
    pure (with_stack current (hash_result ∷ stack))
  sha3_at blake2b512 circuit current (size ∷ []) = pure current
  sha3_at blake2b512 circuit current [] = pure current

  abbrev pub sha3_step :
      (List ℕ → List ℕ) → VmCircuit F → AllocatedState V → Exec SynthesisError CS (AllocatedState V)
  sha3_step blake2b512 circuit current = sha3_at blake2b512 circuit current current.stack

  unfoldable pub arm :
      (List ℕ → List ℕ)
      → VmCircuit F
      → AllocatedState V
      → ℕ
      → AllocatedState V
      → Arm
      → Exec SynthesisError CS (AllocatedState V)
  unfolding push_step binary_at store_at sha3_at
  arm blake2b512 circuit final step current push = push_step circuit final step current
  arm blake2b512 circuit final step current add = binary_step field.add circuit current
  arm blake2b512 circuit final step current mul = binary_step field.mul circuit current
  arm blake2b512 circuit final step current store = store_step step current
  arm blake2b512 circuit final step current sha3 = sha3_step blake2b512 circuit current
  arm blake2b512 circuit final step current other = pure current

  unfoldable pub circuit_step :
      (List ℕ → List ℕ)
      → VmCircuit F
      → AllocatedState V
      → ℕ
      → AllocatedState V
      → Exec SynthesisError CS (AllocatedState V)
  unfolding arm arm_of
  circuit_step blake2b512 circuit final step current = do
    opcode ← lift (current_opcode field circuit)
    _ ← cs.alloc (ok_or opcode)
    arm blake2b512 circuit final step current (arm_of (get_elem? circuit.program step))
