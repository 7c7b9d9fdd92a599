-- ===== src/Vm/Turn.antt =====
-- The fetch and the charge of one turn of the loop of `VM::execute`, apart from the arm.
use zkmips_zkvm_impl_in_rust.Base.{
  ℕ, ◌-◌, ◌≤◌, ◌<◌, ◌≡◌, Bool, List, none, some, get_elem?, err, panic, arith, Option-cases, inl,
  inr,
}
use native.Mathlib.Decide.{dec_le}
use zkmips_zkvm_impl_in_rust.Vm.Value.{gas_limit_exceeded}
use zkmips_zkvm_impl_in_rust.Vm.Context.{ExecutionContext}
use zkmips_zkvm_impl_in_rust.Vm.Gas.{gas_cost}
use zkmips_zkvm_impl_in_rust.Vm.Step.{step, decode, exec_instr}

-- The context once `n` gas is paid.
abbrev pub paid : ExecutionContext → ℕ → ExecutionContext
paid c n = record c { gas_remaining = c.gas_remaining - n }

module _ (h : List ℕ → List ℕ) (checks : Bool) (p : List ℕ) (c : ExecutionContext) where
  pub step_past : get_elem? p c.program_counter ≡ none → step h checks p c ≡ (panic, c)
  unfolding step
  step_past e = ground arith

  pub step_unpaid :
      (o : ℕ)
      → get_elem? p c.program_counter ≡ some o
      → c.gas_remaining < gas_cost c.gas_config o
      → step h checks p c ≡ (err gas_limit_exceeded, c)
  unfolding step
  step_unpaid o e g = ground arith

  pub step-paid :
      (o : ℕ)
      → get_elem? p c.program_counter ≡ some o
      → gas_cost c.gas_config o ≤ c.gas_remaining
      → step h checks p c ≡ exec_instr h checks p (decode o) (paid c (gas_cost c.gas_config o))
  unfolding step
  step-paid o e g = ground arith

  -- One of the three happens.
  pub step_cases {ℓ} :
      (P : Type ℓ)
      → (get_elem? p c.program_counter ≡ none → P)
      → ((o : ℕ)
          → get_elem? p c.program_counter ≡ some o
          → c.gas_remaining < gas_cost c.gas_config o
          → P)
      → ((o : ℕ)
          → get_elem? p c.program_counter ≡ some o
          → gas_cost c.gas_config o ≤ c.gas_remaining
          → P)
      → P
  step_cases P past unpaid enough = elim (Option-cases (get_elem? p c.program_counter)) [
    | inl e ↦ past e
    | inr (o, e) ↦ elim (dec_le (gas_cost c.gas_config o) c.gas_remaining) [
      | yes g ↦ enough o e g
      | no g ↦ unpaid o e (omega arith)
    ]
  ]
