-- ===== src/Vm/Tests.antt =====
-- The theorems on the machine at work: PUSH 5, PUSH 3, ADD, STOP.
use zkmips_zkvm_impl_in_rust.Base.{
  ℕ, ◌+◌, ◌-◌, ◌^◌, ◌≤◌, ◌≡◌, refl, Bool, true, false, List, [], ◌∷◌, ◌++◌, some, ok, arith, length,
  replicate, take, Outcome, nat_eq,
}
use zkmips_zkvm_impl_in_rust.Base.Int.{◌+ℤ◌}
use zkmips_zkvm_impl_in_rust.Base.Word.{add_i64}
use zkmips_zkvm_impl_in_rust.Base.Map.{lookup}
use zkmips_zkvm_impl_in_rust.Vm.Value.{int, VmError}
use zkmips_zkvm_impl_in_rust.Vm.Gas.{gas_cost}
use zkmips_zkvm_impl_in_rust.Vm.Context.{
  ExecutionContext, new_context, compute_state_root, use_gas, storage_bytes, sort_by_key, log_bytes,
}
use zkmips_zkvm_impl_in_rust.Vm.Step.{step, decode, exec_instr, op_push, op_add, pop_int}
use zkmips_zkvm_impl_in_rust.Vm.Run.{Vm, new, run, execute, get_stack, get_gas_remaining}
use zkmips_zkvm_impl_in_rust.Vm.Expr.{Expr, lit, add, mul, code, value, cost, depth}
use zkmips_zkvm_impl_in_rust.Vm.Expr.Correct.{execute_expr}
use zkmips_zkvm_impl_in_rust.Vm.Typing.{Typed, an_int, pushes, adds, stops, Allowed}
use zkmips_zkvm_impl_in_rust.Vm.Typing.Sound.{execute-Typed}
use zkmips_zkvm_impl_in_rust.Vm.Progress.{execute_total}
use zkmips_zkvm_impl_in_rust.Vm.Depth.{execute_depth}
use zkmips_zkvm_impl_in_rust.Vm.GasUse.{step_gas, extra}

unfoldable test_hash : List ℕ → List ℕ
test_hash l = replicate 32 (length l + 1)

abbrev sample : List ℕ
sample = 0x01 ∷ 5 ∷ 0x01 ∷ 3 ∷ 0x02 ∷ 0xFF ∷ []

unfoldable start : Vm
start = new sample

unfoldable ended : Vm
ended = record {
  context = record (new_context 1_000_000) {
    stack = int 8 ∷ [];
    program_counter = 5;
    gas_remaining = 999_987;
    state_root = take 32 (replicate 32 1);
  };
  program = sample;
}

sample_run : (checks : Bool) → execute test_hash checks start ≡ some (ok tt, ended)
unfolding start ended execute run new new_context step use_gas gas_cost lookup decode exec_instr
    op_push op_add pop_int add_i64 compute_state_root test_hash storage_bytes sort_by_key log_bytes
    ◌+ℤ◌
sample_run true = refl
sample_run false = refl

execute_total_example :
    (r : Outcome VmError Unit) × (w : Vm) × (execute test_hash true start ≡ some (r, w))
execute_total_example = execute_total test_hash true start

abbrev halted : Outcome VmError Unit
halted = ok tt

execute_depth_example : length ended.context.stack ≤ 1024
unfolding start new new_context
execute_depth_example =
    execute_depth test_hash true start ended (ok tt) (omega arith) (sample_run true)

-- (5 + 3) * 2
abbrev product : Expr
product = mul (add (lit 5) (lit 3)) (lit 2)

execute_expr_example :
    (w : Vm) × (execute test_hash false (new (code product ++ (0xFF ∷ []))) ≡ some (ok tt, w))
    × (get_stack w ≡ int (value product) ∷ [])
    × (get_gas_remaining w + cost product + 2 ≡ 1_000_000)
unfolding depth cost
execute_expr_example = execute_expr test_hash product (omega arith) (omega arith)

product_value : value product ≡ 16
unfolding value
product_value = refl

unfoldable fresh : ExecutionContext
fresh = new_context 1_000_000

unfoldable pushed : ExecutionContext
pushed = record fresh { stack = int 5 ∷ []; program_counter = 2; gas_remaining = 999_997 }

step_gas_example :
    pushed.gas_remaining + extra fresh (decode 0x01) + gas_cost fresh.gas_config 0x01
    ≡ fresh.gas_remaining
unfolding fresh pushed new_context step use_gas gas_cost lookup decode exec_instr op_push
step_gas_example = step_gas test_hash true sample fresh pushed 0x01 refl refl

abbrev jump : List ℕ
jump = 0x06 ∷ []

abbrev two_values : ExecutionContext
two_values = record fresh { stack = int 3 ∷ int (2 ^ 64 - 5) ∷ [] }

-- PUSH 5, PUSH 3, ADD and STOP on the empty stack.
sample-Typed : Typed sample 0 []
unfolding decode
sample-Typed =
    pushes 0 [] 5 (0x01, refl, refl) refl (omega arith)
      (pushes 2 (an_int ∷ []) 3 (0x01, refl, refl) refl (omega arith)
        (adds 4 [] (0x02, refl, refl) (stops 5 (an_int ∷ []) (0xFF, refl, refl))))

execute-Typed_example :
    (q : Outcome VmError Unit) × (w : Vm) × (execute test_hash true (new sample) ≡ some (q, w))
    × Allowed true q
execute-Typed_example = execute-Typed test_hash true sample sample-Typed
