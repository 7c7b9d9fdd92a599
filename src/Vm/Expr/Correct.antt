-- ===== src/Vm/Expr/Correct.antt =====
-- The machine runs the code of an expression to its value.
use native.Mathlib.Nat.{zero-add}
use zkmips_zkvm_impl_in_rust.Base.{
  ℕ, suc, ◌+◌, ◌-◌, ◌≤◌, ◌≡◌, ◌∙◌, ap, refl, false, List, [], ◌∷◌, ◌++◌, some, ok, arith, length,
  get_elem?, length-append,
}
use zkmips_zkvm_impl_in_rust.Base.Map.{lookup}
use zkmips_zkvm_impl_in_rust.Vm.Value.{Value, int}
use zkmips_zkvm_impl_in_rust.Vm.Gas.{gas_cost, default_gas_config}
use zkmips_zkvm_impl_in_rust.Vm.Context.{ExecutionContext, new_context, compute_state_root}
use zkmips_zkvm_impl_in_rust.Vm.Step.{decode, exec_instr}
use zkmips_zkvm_impl_in_rust.Vm.Turn.{step-paid}
use zkmips_zkvm_impl_in_rust.Vm.Run.{Vm, new, run, execute, get_stack, get_gas_remaining}
use zkmips_zkvm_impl_in_rust.Vm.Expr.{
  Expr, lit, add, mul, value, code, cost, depth, turns, At, At-append, At-self, get_elem?-lt, at,
  turn_lit, turn_add, turn_mul,
}

at_congr :
    (c : ExecutionContext) {i j g k : ℕ} (s : List Value) → i ≡ j → g ≡ k → at c s i g ≡ at c s j k
at_congr c s p q = cc

length_code :
    (a b : Expr) (o i : ℕ)
    → i + length (code a) + length (code b) + 1 ≡ i + length (code a ++ (code b ++ (o ∷ [])))
length_code a b o i =
    omega
      (arith, length-append {0} (code a) (code b ++ (o ∷ [])), length-append {0} (code b) (o ∷ []))

module _ (h : List ℕ → List ℕ) (p : List ℕ) (c : ExecutionContext)
    (cfg : c.gas_config ≡ default_gas_config) where
  operator :
      (a b : Expr) (o i : ℕ)
      → At p i (code a ++ (code b ++ (o ∷ [])))
      → get_elem? p (i + length (code a) + length (code b)) ≡ some o
  operator a b o i here =
      (At-append p (i + length (code a)) (code b) (o ∷ [])
        (At-append p i (code a) (code b ++ (o ∷ [])) here).1).1.0

  -- The machine as the code of `e` leaves it.
  abbrev after : Expr → List Value → ℕ → ℕ → ExecutionContext
  after e s i g = at c (int (value e) ∷ s) (i + length (code e)) (g - cost e)

  -- Where both operands run as they should, so does the operation at their end.
  module _ (a b : Expr) (o : ℕ) (i g : ℕ) (s : List Value)
      (here : At p i (code a ++ (code b ++ (o ∷ []))))
      (run_a : (fuel : ℕ)
        → At p i (code a)
        → run h false p (turns a + fuel) (at c s i g) ≡ run h false p fuel (after a s i g))
      (run_b : (fuel : ℕ)
        → At p (i + length (code a)) (code b)
        → run h false p (turns b + fuel) (after a s i g)
          ≡ run h false p fuel
              (after b (int (value a) ∷ s) (i + length (code a)) (g - cost a))) where
    operands :
        (fuel : ℕ)
        → run h false p (turns a + turns b + 1 + fuel) (at c s i g)
          ≡ run h false p
              (suc fuel)
              (after b (int (value a) ∷ s) (i + length (code a)) (g - cost a))
    operands fuel =
        let (ha, hr) = At-append p i (code a) (code b ++ (o ∷ [])) here in
        let (hb, ho) = At-append p (i + length (code a)) (code b) (o ∷ []) hr in
        ap (λ f. run h false p f (at c s i g)) (omega arith)
        ∙ run_a (turns b + suc fuel) ha
        ∙ run_b (suc fuel) hb

  run_code :
      (e : Expr) (fuel i g : ℕ) (s : List Value)
      → At p i (code e)
      → length s + depth e ≤ 1024
      → cost e ≤ g
      → run h false p (turns e + fuel) (at c s i g) ≡ run h false p fuel (after e s i g)
  unfolding code turns cost depth value
  run_code (lit n) fuel i g s a d le =
      ap (λ f. run h false p f (at c s i g)) (omega arith)
      ∙ turn_lit h p c cfg fuel i g n s a le (omega arith)
  run_code (add a b) fuel i g s here d le =
      operands a b 0x02 i g s here (λ f ha. run_code a f i g s ha (omega arith) (omega arith))
        (λ f hb.
          run_code b f (i + length (code a)) (g - cost a) (int (value a) ∷ s) hb (omega arith)
            (omega arith))
        fuel
      ∙ turn_add h p c cfg fuel _ _ (value a) (value b) s (operator a b 0x02 i here) (omega arith)
      ∙ ap (run h false p fuel) (at_congr c _ (length_code a b 0x02 i) (omega arith))
  run_code (mul a b) fuel i g s here d le =
      operands a b 0x03 i g s here (λ f ha. run_code a f i g s ha (omega arith) (omega arith))
        (λ f hb.
          run_code b f (i + length (code a)) (g - cost a) (int (value a) ∷ s) hb (omega arith)
            (omega arith))
        fuel
      ∙ turn_mul h p c cfg fuel _ _ (value a) (value b) s (operator a b 0x03 i here) (omega arith)
      ∙ ap (run h false p fuel) (at_congr c _ (length_code a b 0x03 i) (omega arith))

turns-le : (e : Expr) → turns e ≤ length (code e)
unfolding turns code
turns-le (lit n) = omega arith
turns-le (add a b) = omega (arith, length_code a b 0x02 0, turns-le a, turns-le b)
turns-le (mul a b) = omega (arith, length_code a b 0x03 0, turns-le a, turns-le b)

At-stop :
    (p : List ℕ) (i : ℕ) (xs : List ℕ)
    → At p i (xs ++ (0xFF ∷ []))
    → get_elem? p (i + length xs) ≡ some 0xFF
At-stop p i xs a = (At-append p i xs (0xFF ∷ []) a).1.0

module _ (h : List ℕ → List ℕ) (p : List ℕ) (c : ExecutionContext)
    (cfg : c.gas_config ≡ default_gas_config) where
  -- STOP is not in the schedule, and costs the base.
  run_stop :
      (fuel i g : ℕ) (s : List Value)
      → get_elem? p i ≡ some 0xFF
      → 2 ≤ g
      → run h false p (suc fuel) (at c s i g) ≡ some (ok tt, at c s i (g - 2))
  unfolding run gas_cost lookup decode exec_instr
  run_stop fuel i g s a le =
      ground (arith, get_elem?-lt p i 0xFF a, step-paid h false p (at c s i g) 0xFF a, cfg)

abbrev with_stop : Expr → List ℕ
with_stop e = code e ++ (0xFF ∷ [])

-- The machine at the end.
abbrev end_of : Expr → ExecutionContext
end_of e =
    at (new_context 1_000_000) (int (value e) ∷ []) (length (code e)) (1_000_000 - cost e - 2)

run-with_stop :
    (h : List ℕ → List ℕ) (e : Expr)
    → depth e ≤ 1024
    → cost e + 2 ≤ 1_000_000
    → run h false (with_stop e) (suc (length (with_stop e))) (new_context 1_000_000)
      ≡ some (ok tt, end_of e)
unfolding new_context
run-with_stop h e d le =
    let c = new_context 1_000_000 in
    let p = with_stop e in
    let rest = length (code e) - turns e + 1 in
    let (body, last) = At-append p 0 (code e) (0xFF ∷ []) (At-self p) in
    ap (λ f. run h false p f c) (omega (arith, turns-le e, length-append {0} (code e) (0xFF ∷ [])))
    ∙ run_code h p c refl e (suc rest) 0 1_000_000 [] body (omega arith) (omega arith)
    ∙ ap (run h false p (suc rest)) (at_congr c (int (value e) ∷ []) (omega arith) refl)
    ∙ run_stop h p c refl rest (length (code e)) (1_000_000 - cost e) (int (value e) ∷ [])
        (rw (zero-add (length (code e))) at last.0) (omega arith)

-- The code of an expression that needs at most 1024 stack places and, with the STOP behind it, at most the
-- 1000000 gas of a new machine runs without an error in the build without overflow checks: it
-- leaves the value of the expression alone on the stack, and has used the cost of the expression
-- and 2 for the STOP, the base price of an opcode that the schedule does not list.
pub execute_expr :
    (h : List ℕ → List ℕ) (e : Expr)
    → depth e ≤ 1024
    → cost e + 2 ≤ 1_000_000
    → (w : Vm) × (execute h false (new (code e ++ (0xFF ∷ []))) ≡ some (ok tt, w))
      × (get_stack w ≡ int (value e) ∷ [])
      × (get_gas_remaining w + cost e + 2 ≡ 1_000_000)
unfolding execute new new_context get_stack get_gas_remaining compute_state_root
execute_expr h e d le = (
  record { context = compute_state_root h (end_of e); program = with_stop e },
  ground (arith, run-with_stop h e d le),
  refl,
  omega arith,
)
