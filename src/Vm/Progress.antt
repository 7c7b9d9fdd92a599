-- ===== src/Vm/Progress.antt =====
-- The loop of `VM::execute` ends: what the fuel is good for.
use zkmips_zkvm_impl_in_rust.Base.{
  ℕ, zero, suc, ◌+◌, ◌<◌, ◌≡◌, refl, Bool, List, some, ltb, length, Outcome, ok, err, panic, arith,
  inl, inr, Bool-cases,
}
use zkmips_zkvm_impl_in_rust.Vm.Value.{VmError}
use zkmips_zkvm_impl_in_rust.Vm.Context.{ExecutionContext}
use zkmips_zkvm_impl_in_rust.Vm.Step.{Flow, next, stop, step}
use zkmips_zkvm_impl_in_rust.Vm.Frame.{step-Ahead}
use zkmips_zkvm_impl_in_rust.Vm.Run.{Vm, run, execute, conclude}

module _ (h : List ℕ → List ℕ) (checks : Bool) where
  abbrev pub Result : Type 0
  Result = Outcome VmError Unit × ExecutionContext

  -- How the loop goes on from the outcome of a turn.
  run_on :
      (p : List ℕ) (fuel : ℕ) (c d : ExecutionContext) (r : Outcome VmError Flow)
      → c.program_counter < length p
      → step h checks p c ≡ (r, d)
      → (r ≡ ok next → (x : Result) × (run h checks p fuel d ≡ some x))
      → (x : Result) × (run h checks p (suc fuel) c ≡ some x)
  unfolding run
  run_on p fuel c d (ok next) lt e more = let (x, q) = more refl in (x, ground (arith, q))
  run_on p fuel c d (ok stop) lt e more = ((ok tt, d), ground arith)
  run_on p fuel c d (err x) lt e more = ((err x, d), ground arith)
  run_on p fuel c d panic lt e more = ((panic, d), ground arith)

  -- With more fuel than bytes ahead of the program counter the loop returns.
  pub run_total :
      (p : List ℕ) (fuel : ℕ) (c : ExecutionContext)
      → length p < fuel + c.program_counter
      → 0 < fuel
      → (x : Result) × (run h checks p fuel c ≡ some x)
  unfolding run
  run_total p zero c enough some_fuel = absurd (omega arith)
  run_total p (suc fuel) c enough some_fuel = elim (Bool-cases (ltb c.program_counter (length p))) [
    | inl more ↦
        run_on p fuel c (step h checks p c).1 (step h checks p c).0 (ground arith) refl λ e.
          let a = step-Ahead h checks p c (step h checks p c).1 (ground arith) in
          run_total p fuel (step h checks p c).1 (omega arith) (ground arith)
    | inr done ↦ ((ok tt, c), ground arith)
  ]

-- `VM::execute` returns for every machine, every hash and either build: the loop ends within one
-- turn more than the program has bytes.
pub execute_total :
    (h : List ℕ → List ℕ) (checks : Bool) (v : Vm)
    → (r : Outcome VmError Unit) × (w : Vm) × (execute h checks v ≡ some (r, w))
unfolding execute
execute_total h checks v =
    let (x, e) =
      run_total h checks v.program (suc (length v.program)) v.context (omega arith) (omega arith) in
    ((conclude h v x.0 x.1).0, (conclude h v x.0 x.1).1, ground (arith, e))
