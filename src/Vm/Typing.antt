-- ===== src/Vm/Typing.antt =====
-- src/vm.rs: a type system for programs of the machine, an independent description of those that keep
-- to their stack: PUSH, ADD, MUL, STORE, LOAD and STOP.
pub mod Turns
pub mod Sound
use zkmips_zkvm_impl_in_rust.Base.{
  ℕ, zero, suc, ◌+◌, ◌≤◌, ◌<◌, ◌≡◌, refl, ap, sym, ◌∙◌, subst, ◌⊎◌, inl, inr, Bool, true, false,
  List, [], ◌∷◌, Option, none, some, length, get_elem?, Outcome, ok, err, panic, arith, ltb, nat_eq,
  Bool-cases, Option-cases,
}
use zkmips_zkvm_impl_in_rust.Base.Map.{lookup, insert}
use zkmips_zkvm_impl_in_rust.Base.Word.{add_i64, mul_i64, add_i64-Checked, mul_i64-Checked}
use zkmips_zkvm_impl_in_rust.Vm.Value.{Value, int, VmError, gas_limit_exceeded, memory_error}
use zkmips_zkvm_impl_in_rust.Vm.Context.{ExecutionContext}
use zkmips_zkvm_impl_in_rust.Vm.Gas.{gas_cost}
use zkmips_zkvm_impl_in_rust.Vm.Step.{
  Flow, next, stop, step, Instr, i_push, i_add, i_mul, i_store, i_load, i_stop, decode, exec_instr,
  op_push, op_add, op_mul, op_store, op_load, pop_int, pop_value,
}
use zkmips_zkvm_impl_in_rust.Vm.Turn.{paid, step_cases, step-paid, step_unpaid}
use zkmips_zkvm_impl_in_rust.Vm.Run.{Vm, run, execute, conclude}

-- What is known of a value on the stack.
pub data Ty : Type 0 where
  an_int any_value : Ty

abbrev pub OfType : Ty → Value → Type 0
OfType an_int v = (n : ℕ) × (v ≡ int n)
OfType any_value v = Unit

abbrev pub StackOf : List Ty → List Value → Type 0
StackOf [] s = s ≡ []
StackOf (t ∷ ts) s = (v : Value) × (vs : List Value) × (s ≡ v ∷ vs) × OfType t v × StackOf ts vs

abbrev pub Fetches : List ℕ → ℕ → Instr → Type 0
Fetches p pc i = (o : ℕ) × (get_elem? p pc ≡ some o) × (decode o ≡ i)

-- From the byte at `pc`, on a stack of these types, the rest of the program keeps to its stack.
pub data Typed (p : List ℕ) : ℕ → List Ty → Type 0 where
  past : (pc : ℕ) (ts : List Ty) → length p ≤ pc → Typed p pc ts
  stops : (pc : ℕ) (ts : List Ty) → Fetches p pc i_stop → Typed p pc ts
  pushes :
      (pc : ℕ) (ts : List Ty) (b : ℕ)
      → Fetches p pc i_push
      → get_elem? p (pc + 1) ≡ some b
      → length ts < 1024
      → Typed p (pc + 2) (an_int ∷ ts)
      → Typed p pc ts
  adds :
      (pc : ℕ) (ts : List Ty)
      → Fetches p pc i_add
      → Typed p (pc + 1) (an_int ∷ ts)
      → Typed p pc (an_int ∷ an_int ∷ ts)
  muls :
      (pc : ℕ) (ts : List Ty)
      → Fetches p pc i_mul
      → Typed p (pc + 1) (an_int ∷ ts)
      → Typed p pc (an_int ∷ an_int ∷ ts)
  stores :
      (pc : ℕ) (t : Ty) (ts : List Ty)
      → Fetches p pc i_store
      → Typed p (pc + 1) ts
      → Typed p pc (an_int ∷ t ∷ ts)
  loads :
      (pc : ℕ) (ts : List Ty)
      → Fetches p pc i_load
      → Typed p (pc + 1) (any_value ∷ ts)
      → Typed p pc (an_int ∷ ts)

-- A turn that goes on to a context with `P`, or stops, or ends in one of the three ways that types do
-- not rule out.
pub data Good (checks : Bool) (P : ExecutionContext → Type 0)
    : Outcome VmError Flow × ExecutionContext → Type 0 where
  goes_on : (d : ExecutionContext) → P d → Good checks P (ok next, d)
  stopped : (d : ExecutionContext) → Good checks P (ok stop, d)
  out_of_gas : (d : ExecutionContext) → Good checks P (err gas_limit_exceeded, d)
  missing : (a : ℕ) (d : ExecutionContext) → Good checks P (err (memory_error a), d)
  overflows : (d : ExecutionContext) → checks ≡ true → Good checks P (panic, d)

abbrev pub Allowed : Bool → Outcome VmError Unit → Type 0
Allowed checks q =
    (q ≡ ok tt)
    ⊎ ((q ≡ err gas_limit_exceeded)
        ⊎ (((a : ℕ) × (q ≡ err (memory_error a))) ⊎ ((q ≡ panic) × (checks ≡ true))))

-- The stack and the program counter after a turn.
abbrev pub Lands : ℕ → List Ty → ExecutionContext → Type 0
Lands pc ts d = (d.program_counter ≡ pc) × StackOf ts d.stack
