-- ===== src/Vm/Typing/Turns.antt =====
-- src/vm.rs: each arm on a stack of the types that it asks for.
use zkmips_zkvm_impl_in_rust.Base.{
  ℕ, suc, ◌+◌, ◌<◌, ◌≡◌, refl, ap, sym, ◌∙◌, subst, inl, inr, Bool, List, [], ◌∷◌, some, length,
  get_elem?, ok, err, panic, arith, nat_eq, Option-cases,
}
use zkmips_zkvm_impl_in_rust.Base.Map.{lookup, insert}
use zkmips_zkvm_impl_in_rust.Base.Word.{add_i64-Checked, mul_i64-Checked}
use zkmips_zkvm_impl_in_rust.Vm.Value.{Value, int, VmError, memory_error}
use zkmips_zkvm_impl_in_rust.Vm.Context.{ExecutionContext}
use zkmips_zkvm_impl_in_rust.Vm.Gas.{gas_cost}
use zkmips_zkvm_impl_in_rust.Vm.Step.{
  next, step, Instr, i_push, i_add, i_mul, i_store, i_load, decode, exec_instr, op_push, op_add,
  op_mul, op_store, op_load, pop_int, pop_value,
}
use zkmips_zkvm_impl_in_rust.Vm.Turn.{paid, step_cases, step-paid, step_unpaid}
use zkmips_zkvm_impl_in_rust.Vm.Typing.{
  Ty, an_int, any_value, StackOf, Fetches, Good, goes_on, out_of_gas, missing, overflows, Lands,
}

module _ (h : List ℕ → List ℕ) (checks : Bool) (p : List ℕ) (c : ExecutionContext) where
  -- ADD and MUL, from what the operation gives.
  pub add-Good :
      (ts : List Ty) (a b : ℕ) (vs : List Value)
      → c.stack ≡ int b ∷ int a ∷ vs
      → StackOf ts vs
      → Good checks (Lands (c.program_counter + 1) (an_int ∷ ts)) (exec_instr h checks p i_add c)
  unfolding exec_instr op_add pop_int
  add-Good ts a b vs e s = elim (add_i64-Checked {E = VmError} checks a b) [
    | inl (w, q) ↦
        let d = record c { stack = int w ∷ vs; program_counter = c.program_counter + 1 } in
        let r : exec_instr h checks p i_add c ≡ (ok next, d) = ground arith in
        subst (Good checks (Lands (c.program_counter + 1) (an_int ∷ ts))) (sym r)
          (goes_on d (refl, (int w, vs, refl, (w, refl), s)))
    | inr (q, k) ↦
        let d = record c { stack = vs } in
        let r : exec_instr h checks p i_add c ≡ (panic, d) = ground arith in
        subst (Good checks (Lands (c.program_counter + 1) (an_int ∷ ts))) (sym r) (overflows d k)
  ]

  pub mul-Good :
      (ts : List Ty) (a b : ℕ) (vs : List Value)
      → c.stack ≡ int b ∷ int a ∷ vs
      → StackOf ts vs
      → Good checks (Lands (c.program_counter + 1) (an_int ∷ ts)) (exec_instr h checks p i_mul c)
  unfolding exec_instr op_mul pop_int
  mul-Good ts a b vs e s = elim (mul_i64-Checked {E = VmError} checks a b) [
    | inl (w, q) ↦
        let d = record c { stack = int w ∷ vs; program_counter = c.program_counter + 1 } in
        let r : exec_instr h checks p i_mul c ≡ (ok next, d) = ground arith in
        subst (Good checks (Lands (c.program_counter + 1) (an_int ∷ ts))) (sym r)
          (goes_on d (refl, (int w, vs, refl, (w, refl), s)))
    | inr (q, k) ↦
        let d = record c { stack = vs } in
        let r : exec_instr h checks p i_mul c ≡ (panic, d) = ground arith in
        subst (Good checks (Lands (c.program_counter + 1) (an_int ∷ ts))) (sym r) (overflows d k)
  ]

  pub push-Good :
      (ts : List Ty) (b : ℕ)
      → get_elem? p (c.program_counter + 1) ≡ some b
      → length c.stack < 1024
      → StackOf ts c.stack
      → Good checks (Lands (c.program_counter + 2) (an_int ∷ ts)) (exec_instr h checks p i_push c)
  unfolding exec_instr op_push
  push-Good ts b e l s =
      let d = record c { stack = int b ∷ c.stack; program_counter = c.program_counter + 2 } in
      let r : exec_instr h checks p i_push c ≡ (ok next, d) = ground arith in
      subst (Good checks (Lands (c.program_counter + 2) (an_int ∷ ts))) (sym r)
        (goes_on d (refl, (int b, c.stack, refl, (b, refl), s)))

  pub store-Good :
      (ts : List Ty) (a : ℕ) (v : Value) (vs : List Value)
      → c.stack ≡ int a ∷ v ∷ vs
      → StackOf ts vs
      → Good checks (Lands (c.program_counter + 1) ts) (exec_instr h checks p i_store c)
  unfolding exec_instr op_store pop_int pop_value
  store-Good ts a v vs e s =
      let d = record c {
        stack = vs;
        memory = insert a v c.memory;
        program_counter = c.program_counter + 1;
      } in
      let r : exec_instr h checks p i_store c ≡ (ok next, d) = ground arith in
      subst (Good checks (Lands (c.program_counter + 1) ts)) (sym r) (goes_on d (refl, s))

  pub load-Good :
      (ts : List Ty) (a : ℕ) (vs : List Value)
      → c.stack ≡ int a ∷ vs
      → StackOf ts vs
      → Good checks
          (Lands (c.program_counter + 1) (any_value ∷ ts))
          (exec_instr h checks p i_load c)
  unfolding exec_instr op_load pop_int
  load-Good ts a vs e s = elim (Option-cases (lookup a c.memory)) [
    | inl q ↦
        let d = record c { stack = vs } in
        let r : exec_instr h checks p i_load c ≡ (err (memory_error a), d) = ground arith in
        subst (Good checks (Lands (c.program_counter + 1) (any_value ∷ ts))) (sym r) (missing a d)
    | inr (v, q) ↦
        let d = record c { stack = v ∷ vs; program_counter = c.program_counter + 1 } in
        let r : exec_instr h checks p i_load c ≡ (ok next, d) = ground arith in
        subst (Good checks (Lands (c.program_counter + 1) (any_value ∷ ts))) (sym r)
          (goes_on d (refl, (v, vs, refl, tt, s)))
  ]

  -- A turn that fetches `i` runs out of gas, or executes `i`.
  pub step-Good :
      (i : Instr) (pc : ℕ) (ts : List Ty)
      → Fetches p c.program_counter i
      → ((n : ℕ) → Good checks (Lands pc ts) (exec_instr h checks p i (paid c n)))
      → Good checks (Lands pc ts) (step h checks p c)
  step-Good i pc ts (o, f, e) k =
      step_cases h checks p c (Good checks (Lands pc ts) (step h checks p c))
        (λ none_there. absurd (ground arith))
        (λ b q less.
          subst (Good checks (Lands pc ts)) (sym (step_unpaid h checks p c b q less))
            (out_of_gas c))
        (λ b q enough.
          let same : decode b ≡ i = cc in
          subst (Good checks (Lands pc ts)) (sym (step-paid h checks p c b q enough))
            (rw same (k (gas_cost c.gas_config b))))

pub StackOf-length : (ts : List Ty) (s : List Value) → StackOf ts s → length s ≡ length ts
StackOf-length [] s e = ap length e
StackOf-length (t ∷ ts) s (v, vs, e, o, r) = ap length e ∙ ap suc (StackOf-length ts vs r)
