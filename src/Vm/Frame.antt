-- ===== src/Vm/Frame.antt =====
-- What one turn of the loop leaves alone: the contract storage, the logs, the gas schedule and the
-- state root; gas is only used up, and the program counter only moves on.
use zkmips_zkvm_impl_in_rust.Base.{ℕ, suc, ◌≤◌, ◌<◌, ◌≡◌, sym, ◌∙◌, Bool, List, ok, arith}
use zkmips_zkvm_impl_in_rust.Base.Keeps.{Keeps, Gives, IsPreorder, Keeps-bind, Gives-bind}
use zkmips_zkvm_impl_in_rust.Vm.Value.{ContractData, contract_data}
use zkmips_zkvm_impl_in_rust.Vm.Context.{ExecutionContext, use_gas}
use zkmips_zkvm_impl_in_rust.Vm.Gas.{gas_cost}
use zkmips_zkvm_impl_in_rust.Vm.Turn.{paid, step_past, step_unpaid, step-paid, step_cases}
use zkmips_zkvm_impl_in_rust.Vm.Loop.{step-Keeps, op_call-Keeps}
use zkmips_zkvm_impl_in_rust.Vm.Step.{
  next, step, decode, exec_instr, Instr, i_push, i_add, i_mul, i_store, i_load, i_create, i_call,
  i_return, i_sha3, i_balance, i_stop, i_invalid, op_push, op_add, op_mul, op_store, op_load,
  op_create, op_call, op_return, op_sha3, op_balance, pop_int, pop_address, contract_at, push_frame,
  advance,
}

pub record Frame (c d : ExecutionContext) : Type 0 where
  pub gas : d.gas_remaining ≤ c.gas_remaining
  pub counter : c.program_counter ≤ d.program_counter
  pub storage : d.storage ≡ c.storage
  pub logs : d.logs ≡ c.logs
  pub config : d.gas_config ≡ c.gas_config
  pub root : d.state_root ≡ c.state_root

abbrev Ahead : ExecutionContext → ExecutionContext → Type 0
Ahead c d = c.program_counter < d.program_counter

pub Frame-refl : (c : ExecutionContext) → Frame c c
Frame-refl c = ground arith

pub Frame-trans : (c d x : ExecutionContext) → Frame c d → Frame d x → Frame c x
Frame-trans c d x p q = ground arith

abbrev pub order : IsPreorder Frame
order = record { refl = Frame-refl; trans = Frame-trans }

pop_int-Frame : Keeps Frame pop_int
unfolding pop_int
pop_int-Frame = record { at = λ c. ground arith }

pop_address-Frame : Keeps Frame pop_address
unfolding pop_address
pop_address-Frame = record { at = λ c. ground arith }

push_frame-Frame : (a : List ℕ) (v g : ℕ) (d : ContractData) → Keeps Frame (push_frame a v g d)
unfolding push_frame
push_frame-Frame a v g (contract_data code storage balance) = record { at = λ c. ground arith }

advance-Frame : (n : ℕ) → Keeps Frame (advance n)
advance-Frame n = record { at = λ c. ground arith }

advance-Ahead : (n : ℕ) → Gives Ahead (advance (suc n))
advance-Ahead n = record { at = λ c a d e. ground arith }

op_call-Frame : Keeps Frame op_call
op_call-Frame =
    op_call-Keeps order pop_address-Frame pop_int-Frame push_frame-Frame (advance-Frame 1)

ahead : (c d x : ExecutionContext) → Frame c d → Ahead d x → Ahead c x
ahead c d x f a = ground arith

op_call-Ahead : Gives Ahead op_call
unfolding op_call contract_at
op_call-Ahead = Gives-bind ahead pop_address-Frame λ t. Gives-bind ahead pop_int-Frame λ v.
    Gives-bind ahead pop_int-Frame λ g.
      Gives-bind {m = contract_at t} ahead (record { at = Frame-refl })
        λ d. Gives-bind ahead (push_frame-Frame t v g d) λ _. advance-Ahead 0

module _ (h : List ℕ → List ℕ) (checks : Bool) (p : List ℕ) where
  exec_instr-Frame : (i : Instr) → Keeps Frame (exec_instr h checks p i)
  unfolding exec_instr op_push op_add op_mul op_store op_load op_create op_return op_sha3 op_balance
  exec_instr-Frame i_push = record { at = λ c. ground arith }
  exec_instr-Frame i_add = record { at = λ c. ground arith }
  exec_instr-Frame i_mul = record { at = λ c. ground arith }
  exec_instr-Frame i_store = record { at = λ c. ground arith }
  exec_instr-Frame i_load = record { at = λ c. ground arith }
  exec_instr-Frame i_create = record { at = λ c. ground arith }
  exec_instr-Frame i_call = Keeps-bind order op_call-Frame λ _. record { at = Frame-refl }
  exec_instr-Frame i_return = record { at = λ c. ground arith }
  exec_instr-Frame i_sha3 = record { at = λ c. ground arith }
  exec_instr-Frame i_balance = record { at = λ c. ground arith }
  exec_instr-Frame i_stop = record { at = λ c. ground arith }
  exec_instr-Frame (i_invalid o) = record { at = λ c. ground arith }

  use_gas-Frame : (n : ℕ) → Keeps Frame (use_gas n)
  unfolding use_gas
  use_gas-Frame n = record { at = λ c. ground arith }

  pub step-Frame : Keeps Frame (step h checks p)
  step-Frame = step-Keeps h checks p order use_gas-Frame exec_instr-Frame

  exec_instr-Ahead :
      (i : Instr) (c d : ExecutionContext) → exec_instr h checks p i c ≡ (ok next, d) → Ahead c d
  unfolding exec_instr op_push op_add op_mul op_store op_load op_create op_return op_sha3 op_balance
  exec_instr-Ahead i_push c d e = ground arith
  exec_instr-Ahead i_add c d e = ground arith
  exec_instr-Ahead i_mul c d e = ground arith
  exec_instr-Ahead i_store c d e = ground arith
  exec_instr-Ahead i_load c d e = ground arith
  exec_instr-Ahead i_create c d e = ground arith
  exec_instr-Ahead i_call c d e = ground (arith, op_call-Ahead.at c tt d)
  exec_instr-Ahead i_return c d e = ground arith
  exec_instr-Ahead i_sha3 c d e = ground arith
  exec_instr-Ahead i_balance c d e = ground arith
  exec_instr-Ahead i_stop c d e = ground arith
  exec_instr-Ahead (i_invalid o) c d e = ground arith

  -- A turn that goes on leaves the program counter higher.
  pub step-Ahead : (c d : ExecutionContext) → step h checks p c ≡ (ok next, d) → Ahead c d
  step-Ahead c d e =
      step_cases h checks p c (Ahead c d) (λ x. cc (step_past h checks p c x))
        (λ o x g. cc (step_unpaid h checks p c o x g))
        (λ o x g.
          exec_instr-Ahead (decode o) (paid c (gas_cost c.gas_config o)) d
            (sym (step-paid h checks p c o x g) ∙ e))
