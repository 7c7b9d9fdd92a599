-- ===== src/Circuit.antt =====
-- src/circuit.rs: `VMCircuit` and its states. The stack of allocated variables has the newest first,
-- a state has its `Vec`s as they are. Steps and `synthesize` are in the children.
pub mod System
pub mod Steps
pub mod Synthesis
pub mod Extends
pub mod Registers
pub mod Soundness
pub mod Arms
pub mod Missing
mod Tests
use mathlib.Core.List.{reverse}
use zkmips_zkvm_impl_in_rust.Base.{
  ℕ, List, [], ◌∷◌, Option, none, some, Outcome, ok, err, Exec, pure, ◌>>=◌,
}
use zkmips_zkvm_impl_in_rust.Circuit.System.{SynthesisError, assignment_missing, ConstraintSystem}

pub record VmState (F : Type 0) : Type 0 where
  pub stack : List F
  pub memory : List F
  pub storage : List (F × F)
  pub program_counter : F
  pub gas_remaining : F

pub record VmCircuit (F : Type 0) : Type 0 where
  pub initial_state : Option (VmState F)
  pub final_state : Option (VmState F)
  pub program : List ℕ
  pub max_steps : ℕ

pub record AllocatedState (V : Type 0) : Type 0 where
  pub stack : List V
  pub memory : List V
  pub storage : List (V × V)
  pub program_counter : V
  pub gas_remaining : V

unfoldable pub new : {F : Type 0} → List ℕ → ℕ → VmCircuit F
new program max_steps = record {
  initial_state = none;
  final_state = none;
  program = program;
  max_steps = max_steps;
}

unfoldable pub with_witness : {F : Type 0} → List ℕ → ℕ → VmState F → VmState F → VmCircuit F
with_witness program max_steps initial_state final_state = record {
  initial_state = some initial_state;
  final_state = some final_state;
  program = program;
  max_steps = max_steps;
}

-- `state.as_ref().map(f).ok_or(AssignmentMissing)`, where `f` may panic.
abbrev pub of_state :
    {F A : Type 0}
    → Option (VmState F)
    → (VmState F → Outcome SynthesisError A)
    → Outcome SynthesisError A
of_state (some state) f = f state
of_state none f = err assignment_missing

module _ {F : Type 0} where
  abbrev pub stack_of : Option (VmState F) → List F
  stack_of (some state) = state.stack
  stack_of none = []

  abbrev pub memory_of : Option (VmState F) → List F
  memory_of (some state) = state.memory
  memory_of none = []

  abbrev pub storage_of : Option (VmState F) → List (F × F)
  storage_of (some state) = state.storage
  storage_of none = []

module _ {CS V F : Type 0} (cs : ConstraintSystem CS V F) where
  unfoldable pub alloc_all : List F → Exec SynthesisError CS (List V)
  alloc_all [] = pure []
  alloc_all (value ∷ values) = do v ← cs.alloc (ok value); vs ← alloc_all values; pure (v ∷ vs)

  unfoldable pub alloc_pairs : List (F × F) → Exec SynthesisError CS (List (V × V))
  alloc_pairs [] = pure []
  alloc_pairs ((key, value) ∷ pairs) = do
    k ← cs.alloc (ok key)
    v ← cs.alloc (ok value)
    vs ← alloc_pairs pairs
    pure ((k, v) ∷ vs)

  unfoldable pub alloc_state : Option (VmState F) → Exec SynthesisError CS (AllocatedState V)
  unfolding alloc_all alloc_pairs
  alloc_state state = do
    stack ← alloc_all (stack_of state)
    memory ← alloc_all (memory_of state)
    storage ← alloc_pairs (storage_of state)
    program_counter ← cs.alloc (of_state state (λ s. ok s.program_counter))
    gas_remaining ← cs.alloc (of_state state (λ s. ok s.gas_remaining))
    pure (record {
      stack = reverse stack;
      memory = memory;
      storage = storage;
      program_counter = program_counter;
      gas_remaining = gas_remaining;
    })
