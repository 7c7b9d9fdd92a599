-- ===== src/Circuit/Synthesis.antt =====
-- src/circuit.rs: `VMCircuit::synthesize`, its loop and the constraints on the final state.
use mathlib.Core.List.{reverse}
use zkmips_zkvm_impl_in_rust.Base.{ℕ, zero, suc, ◌+◌, List, [], ◌∷◌, Exec, pure, ◌>>=◌, ◌>>◌}
use zkmips_zkvm_impl_in_rust.Circuit.System.{SynthesisError, Field, ConstraintSystem}
use zkmips_zkvm_impl_in_rust.Circuit.{VmCircuit, AllocatedState, alloc_state}
use zkmips_zkvm_impl_in_rust.Circuit.Steps.{enforce, circuit_step}

module _ {CS V F : Type 0} (cs : ConstraintSystem CS V F) (field : Field F) where
  -- Turn `step` of the loop and those after it, `remaining` in all.
  unfoldable pub steps :
      (List ℕ → List ℕ)
      → VmCircuit F
      → AllocatedState V
      → ℕ
      → ℕ
      → AllocatedState V
      → Exec SynthesisError CS (AllocatedState V)
  unfolding circuit_step
  steps blake2b512 circuit final zero step current = pure current
  steps blake2b512 circuit final (suc remaining) step current =
      circuit_step cs field blake2b512 circuit final step current
      >>= steps blake2b512 circuit final remaining (step + 1)

  unfoldable pub enforce_equal : V → V → Exec SynthesisError CS Unit
  unfolding enforce
  enforce_equal a b = enforce cs field a cs.one b

  -- The loops over two zipped lists: what is longer has its rest unconstrained.
  unfoldable pub enforce_zip : List V → List V → Exec SynthesisError CS Unit
  unfolding enforce_equal
  enforce_zip (a ∷ l) (b ∷ m) = enforce_equal a b >> enforce_zip l m
  enforce_zip [] m = pure tt
  enforce_zip (a ∷ l) [] = pure tt

  unfoldable pub enforce_pairs : List (V × V) → List (V × V) → Exec SynthesisError CS Unit
  unfolding enforce_equal
  enforce_pairs ((k, v) ∷ ps) ((l, w) ∷ qs) =
      enforce_equal k l >> enforce_equal v w >> enforce_pairs ps qs
  enforce_pairs [] qs = pure tt
  enforce_pairs (p ∷ ps) [] = pure tt

  unfoldable pub enforce_final : AllocatedState V → AllocatedState V → Exec SynthesisError CS Unit
  unfolding enforce_equal enforce_zip enforce_pairs
  enforce_final current final = do
    _ ← enforce_equal current.program_counter final.program_counter
    _ ← enforce_equal current.gas_remaining final.gas_remaining
    _ ← enforce_zip (reverse current.stack) (reverse final.stack)
    _ ← enforce_zip current.memory final.memory
    enforce_pairs current.storage final.storage

  unfoldable pub synthesize : (List ℕ → List ℕ) → VmCircuit F → Exec SynthesisError CS Unit
  unfolding alloc_state steps enforce_final
  synthesize blake2b512 circuit = do
    initial ← alloc_state cs circuit.initial_state
    final ← alloc_state cs circuit.final_state
    current ← steps blake2b512 circuit final circuit.max_steps 0 initial
    enforce_final current final
