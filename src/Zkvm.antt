-- ===== src/Zkvm.antt =====
-- src/lib.rs: `ZKVM`, the machine with its circuit and its record of what happened. The circuit is a
-- value of any type; what bellman makes of it is an argument.
mod Tests
pub mod Bookkeeping
use zkmips_zkvm_impl_in_rust.Base.{
  ℕ, Bool, List, [], ◌∷◌, ◌++◌, Option, none, some, replicate, Outcome, ok, err, panic, Exec, Eq,
}
use zkmips_zkvm_impl_in_rust.Vm.Value.{Value, VmError}
use zkmips_zkvm_impl_in_rust.Vm.Run
use zkmips_zkvm_impl_in_rust.Vm.Run.{Vm}
use zkmips_zkvm_impl_in_rust.Proof
use zkmips_zkvm_impl_in_rust.Proof.{ProofData, Backend, ProofCache}

pub data ZkvmError : Type 0 where
  vm_error : VmError → ZkvmError
  proof_error : ZkvmError
  circuit_already_consumed : ZkvmError

pub record ExecutionStep : Type 0 where
  pub opcode : ℕ
  pub stack_snapshot : List Value
  pub memory_snapshot : List (ℕ × Value)
  pub gas_cost : ℕ

pub record VmState : Type 0 where
  pub gas_used : ℕ
  pub execution_trace : List ExecutionStep
  pub state_root : List ℕ

unfoldable pub default_state : VmState
default_state = record { gas_used = 0; execution_trace = []; state_root = replicate 32 0 }

-- The machine, the cache of the proof system, the circuit until it is used, and the record.
pub record Zkvm (Circuit C : Type 0) : Type 0 where
  pub vm : Vm
  pub proof_cache : C
  pub circuit : Option Circuit
  pub state : VmState

abbrev pub recorded : Vm → VmState → VmState
recorded vm s = record {
  gas_used = Run.get_gas_remaining vm;
  state_root = Run.get_state_root vm;
  execution_trace =
      s.execution_trace
      ++ (record {
        opcode = 0;
        stack_snapshot = Run.get_stack vm;
        memory_snapshot = Run.get_memory vm;
        gas_cost = 0;
      }
          ∷ []);
}

module _ {Circuit C : Type 0} where
  -- What `new` answers once the setup of the proof system has succeeded.
  unfoldable pub new : (List ℕ → Circuit) → C → List ℕ → Zkvm Circuit C
  unfolding Run.new default_state
  new make_circuit empty_cache program = record {
    vm = Run.new program;
    proof_cache = empty_cache;
    circuit = some (make_circuit program);
    state = default_state;
  }

  abbrev pub executed :
      Outcome VmError Unit × Vm → Zkvm Circuit C → Outcome ZkvmError Unit × Zkvm Circuit C
  executed (ok _, vm) z = (ok tt, record z { vm = vm; state = recorded vm z.state })
  executed (err e, vm) z = (err (vm_error e), record z { vm = vm })
  executed (panic, vm) z = (panic, record z { vm = vm })

  -- `none` where the fuel of the machine would run out.
  unfoldable pub execute :
      (List ℕ → List ℕ) → Bool → Zkvm Circuit C → Option (Outcome ZkvmError Unit × Zkvm Circuit C)
  execute blake2b512 checks z = elim (Run.execute blake2b512 checks z.vm) [
    | none ↦ none
    | some result ↦ some (executed result z)
  ]

  unfoldable pub get_gas_used : Zkvm Circuit C → ℕ
  get_gas_used z = z.state.gas_used

  unfoldable pub get_execution_trace : Zkvm Circuit C → List ExecutionStep
  get_execution_trace z = z.state.execution_trace

  unfoldable pub get_state_root : Zkvm Circuit C → List ℕ
  get_state_root z = z.state.state_root

module _ {Circuit F P C : Type 0} ⦃same : Eq P⦄ (b : Backend F P) (cache : ProofCache P C) where
  abbrev pub proved :
      Zkvm Circuit C
      → Option (ProofData F P) × C
      → Outcome ZkvmError (ProofData F P) × Zkvm Circuit C
  proved z (some d, c) = (ok d, record z { circuit = none; proof_cache = c })
  proved z (none, c) = (err proof_error, record z { circuit = none; proof_cache = c })

  -- `self.circuit.take()`, and then the proof of the circuit.
  unfoldable pub generate_proof :
      (Circuit → Option P) → Exec ZkvmError (Zkvm Circuit C) (ProofData F P)
  generate_proof create_proof z = elim z.circuit [
    | none ↦ (err circuit_already_consumed, z)
    | some circuit ↦ proved z (Proof.prove b cache (create_proof circuit) z.proof_cache)
  ]

  unfoldable pub verify_proof : Zkvm Circuit C → ProofData F P → Option Bool
  verify_proof z d = Proof.verify b cache z.proof_cache d
