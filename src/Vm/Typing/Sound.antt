-- ===== src/Vm/Typing/Sound.antt =====
-- src/vm.rs: the loop on a typed program.
use zkmips_zkvm_impl_in_rust.Base.{
  ℕ, zero, suc, ◌+◌, ◌≤◌, ◌<◌, ◌≡◌, refl, ap, sym, ◌∙◌, subst, inl, inr, Bool, List, [], ◌∷◌, some,
  length, get_elem?, Outcome, ok, err, panic, arith, nat_eq,
}
use zkmips_zkvm_impl_in_rust.Vm.Value.{Value, int, VmError}
use zkmips_zkvm_impl_in_rust.Vm.Context.{ExecutionContext, new_context}
use zkmips_zkvm_impl_in_rust.Vm.Step.{
  Flow, step, Instr, i_push, i_add, i_mul, i_store, i_load, i_stop, exec_instr,
}
use zkmips_zkvm_impl_in_rust.Vm.Turn.{paid}
use zkmips_zkvm_impl_in_rust.Vm.Run.{Vm, new, run, execute, conclude}
use zkmips_zkvm_impl_in_rust.Vm.Typing.{
  Ty, an_int, any_value, StackOf, Fetches, Typed, past, stops, pushes, adds, muls, stores, loads,
  Good, goes_on, stopped, out_of_gas, missing, overflows, Allowed, Lands,
}
use zkmips_zkvm_impl_in_rust.Vm.Progress.{execute_total}
use zkmips_zkvm_impl_in_rust.Vm.Loop.{execute_inv}
use zkmips_zkvm_impl_in_rust.Vm.Expr.{get_elem?-lt}
use zkmips_zkvm_impl_in_rust.Vm.Typing.Turns.{
  add-Good, mul-Good, push-Good, store-Good, load-Good, step-Good, StackOf-length,
}

module _ (h : List ℕ → List ℕ) (checks : Bool) (p : List ℕ) where
  -- The loop goes on from a good turn.
  after_turn :
      (fuel : ℕ) (c e : ExecutionContext) (q : Outcome VmError Unit) (P : ExecutionContext → Type 0)
      (r : Outcome VmError Flow × ExecutionContext)
      → step h checks p c ≡ r
      → c.program_counter < length p
      → Good checks P r
      → run h checks p (suc fuel) c ≡ some (q, e)
      → ((d : ExecutionContext) → P d → run h checks p fuel d ≡ some (q, e) → Allowed checks q)
      → Allowed checks q
  unfolding run
  after_turn fuel c e q P r s lt (goes_on d k) x more = more d k (ground arith)
  after_turn fuel c e q P r s lt (stopped d) x more = inl (ground arith)
  after_turn fuel c e q P r s lt (out_of_gas d) x more = inr (inl (ground arith))
  after_turn fuel c e q P r s lt (missing a d) x more = inr (inr (inl (a, ground arith)))
  after_turn fuel c e q P r s lt (overflows d k) x more = inr (inr (inr (ground arith, k)))

  -- A turn of a typed program, whose instruction is good wherever it is executed, and then the rest.
  turn :
      (fuel : ℕ) (i : Instr) (pc k : ℕ) (ts : List Ty) (c e : ExecutionContext)
      (q : Outcome VmError Unit)
      → Fetches p pc i
      → c.program_counter ≡ pc
      → ((n : ℕ) → Good checks (Lands k ts) (exec_instr h checks p i (paid c n)))
      → run h checks p (suc fuel) c ≡ some (q, e)
      → ((d : ExecutionContext)
          → Lands k ts d
          → run h checks p fuel d ≡ some (q, e)
          → Allowed checks q)
      → Allowed checks q
  turn fuel i pc k ts c e q (o, f, g) at good x more =
      let there : get_elem? p c.program_counter ≡ some o = rw at f in
      after_turn fuel c e q (Lands k ts) (step h checks p c) refl
        (get_elem?-lt p c.program_counter o there)
        (step-Good h checks p c i k ts (o, there, g) good) x more

  -- Behind the program the loop ends.
  run_past :
      (fuel : ℕ) (c e : ExecutionContext) (q : Outcome VmError Unit)
      → length p ≤ c.program_counter
      → run h checks p fuel c ≡ some (q, e)
      → Allowed checks q
  unfolding run
  run_past zero c e q le x = absurd (ground arith)
  run_past (suc fuel) c e q le x = inl (ground arith)

  stop-Good :
      (P : ExecutionContext → Type 0) (c : ExecutionContext)
      → Good checks P (exec_instr h checks p i_stop c)
  unfolding exec_instr
  stop-Good P c = stopped c

  two_ints :
      (ts : List Ty) (s : List Value)
      → StackOf (an_int ∷ an_int ∷ ts) s
      → (b : ℕ) × (a : ℕ) × (vs : List Value) × (s ≡ int b ∷ int a ∷ vs) × StackOf ts vs
  two_ints ts s (v, vs, ev, (b, eb), (w, ws, ew, (a, ea), r)) = (b, a, ws, cc, r)

  run-Typed :
      (pc : ℕ) (ts : List Ty)
      → Typed p pc ts
      → (fuel : ℕ) (c e : ExecutionContext) (q : Outcome VmError Unit) → c.program_counter ≡ pc
      → StackOf ts c.stack
      → run h checks p fuel c ≡ some (q, e)
      → Allowed checks q
  unfolding run
  run-Typed pc ts t zero c e q at s x = absurd (ground arith)
  run-Typed _ _ (past pc ts le) (suc fuel) c e q at s x = run_past (suc fuel) c e q (omega arith) x
  run-Typed _ _ (stops pc ts f) (suc fuel) c e q at s x =
      turn fuel i_stop pc (length p) ts c e q f at (λ n. stop-Good _ (paid c n)) x
        (λ d k y. run_past fuel d e q (omega (arith, k.0)) y)
  run-Typed _ _ (pushes pc ts b f g l t) (suc fuel) c e q at s x =
      let room : length c.stack < 1024 = omega (arith, StackOf-length ts c.stack s) in
      turn fuel i_push pc (c.program_counter + 2) (an_int ∷ ts) c e q f at
        (λ n. push-Good h checks p (paid c n) ts b (rw at g) room s) x
        (λ d k y. run-Typed (pc + 2) (an_int ∷ ts) t fuel d e q (k.0 ∙ ap (λ z. z + 2) at) k.1 y)
  run-Typed _ _ (adds pc ts f t) (suc fuel) c e q at s x =
      let (b, a, vs, es, r) = two_ints ts c.stack s in
      turn fuel i_add pc (c.program_counter + 1) (an_int ∷ ts) c e q f at
        (λ n. add-Good h checks p (paid c n) ts a b vs es r) x
        (λ d k y. run-Typed (pc + 1) (an_int ∷ ts) t fuel d e q (k.0 ∙ ap (λ z. z + 1) at) k.1 y)
  run-Typed _ _ (muls pc ts f t) (suc fuel) c e q at s x =
      let (b, a, vs, es, r) = two_ints ts c.stack s in
      turn fuel i_mul pc (c.program_counter + 1) (an_int ∷ ts) c e q f at
        (λ n. mul-Good h checks p (paid c n) ts a b vs es r) x
        (λ d k y. run-Typed (pc + 1) (an_int ∷ ts) t fuel d e q (k.0 ∙ ap (λ z. z + 1) at) k.1 y)
  run-Typed _ _ (stores pc ty ts f t) (suc fuel) c e q at (v, vs, ev, (a, ea), (w, ws, ew, ow, r))
        x =
      turn fuel i_store pc (c.program_counter + 1) ts c e q f at
        (λ n. store-Good h checks p (paid c n) ts a w ws (cc (ev, ea, ew)) r) x
        (λ d k y. run-Typed (pc + 1) ts t fuel d e q (k.0 ∙ ap (λ z. z + 1) at) k.1 y)
  run-Typed _ _ (loads pc ts f t) (suc fuel) c e q at (v, vs, ev, (a, ea), r) x =
      turn fuel i_load pc (c.program_counter + 1) (any_value ∷ ts) c e q f at
        (λ n. load-Good h checks p (paid c n) ts a vs (cc (ev, ea)) r) x
        (λ d k y. run-Typed (pc + 1) (any_value ∷ ts) t fuel d e q (k.0 ∙ ap (λ z. z + 1) at) k.1 y)

conclude_same :
    (h : List ℕ → List ℕ) (v : Vm) (r : Outcome VmError Unit) (c : ExecutionContext)
    → (conclude h v r c).0 ≡ r
conclude_same h v (ok x) c = refl
conclude_same h v (err x) c = refl
conclude_same h v panic c = refl

-- A program that is typed from its first byte on the empty stack, run by a new machine, ends: without an
-- error, out of gas, at an address of the memory that holds nothing, or, in the build with overflow
-- checks only, by a panic. It meets no stack underflow or overflow, no invalid opcode and no other panic.
pub execute-Typed :
    (h : List ℕ → List ℕ) (checks : Bool) (p : List ℕ)
    → Typed p 0 []
    → (q : Outcome VmError Unit) × (w : Vm) × (execute h checks (new p) ≡ some (q, w))
      × Allowed checks q
unfolding new new_context
execute-Typed h checks p t =
    let (q, w, e) = execute_total h checks (new p) in
    let (r, c, x, k) = execute_inv h checks (new p) w q e in
    let same : r ≡ q = sym (conclude_same h (new p) r c) ∙ ap (λ z. z.0) k in
    (
      q,
      w,
      e,
      subst (Allowed checks) same
          (run-Typed h checks p 0 [] t (suc (length p)) (new p).context c r refl refl x),
    )
