-- ===== src/Vm/Run.antt =====
-- src/vm.rs: `VM` and the loop of `VM::execute`. The loop takes fuel; with one turn more than the
-- program has bytes it never runs out, since every turn moves the program counter on.
use zkmips_zkvm_impl_in_rust.Base.{
  ℕ, zero, suc, Bool, true, false, List, Option, none, some, ltb, length, Outcome, ok, err, panic,
}
use mathlib.Core.List.{reverse}
use zkmips_zkvm_impl_in_rust.Vm.Value.{Value, VmError, Log}
use zkmips_zkvm_impl_in_rust.Vm.Context.{ExecutionContext, new_context, compute_state_root}
use zkmips_zkvm_impl_in_rust.Vm.Step.{next, stop, step}

pub record Vm : Type 0 where
  pub context : ExecutionContext
  pub program : List ℕ

unfoldable pub new : List ℕ → Vm
unfolding new_context
new program = record { context = new_context 1_000_000; program = program }

module _ (blake2b512 : List ℕ → List ℕ) (checks : Bool) where
  -- `none` when the fuel is used up.
  unfoldable pub run :
      List ℕ → ℕ → ExecutionContext → Option (Outcome VmError Unit × ExecutionContext)
  run program zero c = none
  run program (suc fuel) c = elim (ltb c.program_counter (length program)) [
    | false ↦ some (ok tt, c)
    | true ↦
        let (r, c') = step blake2b512 checks program c in
        elim r [
          | ok next ↦ run program fuel c'
          | ok stop ↦ some (ok tt, c')
          | err e ↦ some (err e, c')
          | panic ↦ some (panic, c')
        ]
  ]

-- The state root is computed only when the loop ends without an error.
abbrev pub conclude :
    (List ℕ → List ℕ) → Vm → Outcome VmError Unit → ExecutionContext → Outcome VmError Unit × Vm
conclude blake2b512 vm (ok _) c = (ok tt, record vm { context = compute_state_root blake2b512 c })
conclude blake2b512 vm r c = (r, record vm { context = c })

unfoldable pub execute : (List ℕ → List ℕ) → Bool → Vm → Option (Outcome VmError Unit × Vm)
execute blake2b512 checks vm =
    elim (run blake2b512 checks vm.program (suc (length vm.program)) vm.context) [
      | none ↦ none
      | some (r, c) ↦ some (conclude blake2b512 vm r c)
    ]

-- The stack as the `Vec` has it, the newest value last.
unfoldable pub get_stack : Vm → List Value
get_stack vm = reverse vm.context.stack

unfoldable pub get_memory : Vm → List (ℕ × Value)
get_memory vm = vm.context.memory

unfoldable pub get_storage : Vm → List (List ℕ × Value)
get_storage vm = vm.context.storage

unfoldable pub get_state_root : Vm → List ℕ
get_state_root vm = vm.context.state_root

unfoldable pub get_logs : Vm → List Log
get_logs vm = vm.context.logs

unfoldable pub get_gas_remaining : Vm → ℕ
get_gas_remaining vm = vm.context.gas_remaining
