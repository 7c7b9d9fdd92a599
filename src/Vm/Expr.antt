-- ===== src/Vm/Expr.antt =====
-- Arithmetic programs, such as the one of src/main.rs: the machine against an evaluator that knows
-- nothing of stacks, program counters or gas meters.
pub mod Correct
use Prim.Native.Nat.{max}
use zkmips_zkvm_impl_in_rust.Base.{
  ℕ, zero, suc, ◌+◌, ◌-◌, ◌*◌, ◌%◌, ◌^◌, ◌<◌, ◌≤◌, ◌≡◌, ◌∙◌, sym, ap, refl, subst, Bool, true,
  false, List, [], ◌∷◌, ◌++◌, Option, none, some, ok, err, panic, arith, length, get_elem?,
  length-append, Outcome, ltb,
}
use zkmips_zkvm_impl_in_rust.Base.Word.{add_i64, mul_i64}
use zkmips_zkvm_impl_in_rust.Base.Map.{lookup}
use zkmips_zkvm_impl_in_rust.Vm.Value.{Value, int, VmError}
use zkmips_zkvm_impl_in_rust.Vm.Gas.{GasConfig, gas_cost, default_gas_config}
use zkmips_zkvm_impl_in_rust.Vm.Context.{ExecutionContext, new_context, compute_state_root}
use zkmips_zkvm_impl_in_rust.Vm.Step.{step, decode, exec_instr, op_push, op_add, op_mul, next, stop}
use zkmips_zkvm_impl_in_rust.Vm.Turn.{paid, step-paid}
use zkmips_zkvm_impl_in_rust.Vm.Run.{Vm, new, run, execute, conclude, get_stack, get_gas_remaining}

pub data Expr : Type 0 where
  lit : ℕ → Expr
  add mul : Expr → Expr → Expr

-- The value, as an `i64` word without overflow checks.
unfoldable pub value : Expr → ℕ
value (lit n) = n
value (add a b) = (value a + value b) % 2 ^ 64
value (mul a b) = value a * value b % 2 ^ 64

-- Operands first, the left one before the right one.
unfoldable pub code : Expr → List ℕ
code (lit n) = 0x01 ∷ n ∷ []
code (add a b) = code a ++ (code b ++ (0x02 ∷ []))
code (mul a b) = code a ++ (code b ++ (0x03 ∷ []))

unfoldable pub cost : Expr → ℕ
cost (lit n) = 3
cost (add a b) = cost a + cost b + 5
cost (mul a b) = cost a + cost b + 5

-- How many values the program has on the stack at once.
unfoldable pub depth : Expr → ℕ
depth (lit n) = 1
depth (add a b) = max (depth a) (1 + depth b)
depth (mul a b) = max (depth a) (1 + depth b)

unfoldable pub turns : Expr → ℕ
turns (lit n) = 1
turns (add a b) = turns a + turns b + 1
turns (mul a b) = turns a + turns b + 1

-- The bytes `xs` stand in the program from `i` on.
abbrev pub At : List ℕ → ℕ → List ℕ → Type 0
At p i [] = Unit {0}
At p i (x ∷ xs) = (get_elem? p i ≡ some x) × At p (suc i) xs

pub At-append :
    (p : List ℕ) (i : ℕ) (xs ys : List ℕ) → At p i (xs ++ ys) → At p i xs × At p (i + length xs) ys
At-append p i [] ys h = (tt, subst (λ j. At p j ys) (omega arith) h)
At-append p i (x ∷ xs) ys h =
    let (l, r) = At-append p (suc i) xs ys h.1 in ((h.0, l), subst (λ j. At p j ys) (omega arith) r)

At-cons : (x : ℕ) (p : List ℕ) (i : ℕ) (ys : List ℕ) → At p i ys → At (x ∷ p) (suc i) ys
At-cons x p i [] h = tt
At-cons x p i (y ∷ ys) h = (h.0, At-cons x p (suc i) ys h.1)

pub At-self : (p : List ℕ) → At p 0 p
At-self [] = tt
At-self (x ∷ p) = (refl, At-cons x p 0 p (At-self p))

pub get_elem?-lt {ℓ} :
    {A : Type ℓ} (p : List A) (i : ℕ) (x : A) → get_elem? p i ≡ some x → i < length p
get_elem?-lt [] i x e = cc
get_elem?-lt (y ∷ p) zero x e = omega arith
get_elem?-lt (y ∷ p) (suc i) x e = omega (arith, get_elem?-lt p i x e)

-- The machine with another stack, program counter and gas.
abbrev pub at : ExecutionContext → List Value → ℕ → ℕ → ExecutionContext
at c s i g = record c { stack = s; program_counter = i; gas_remaining = g }

module _ (h : List ℕ → List ℕ) (p : List ℕ) (c : ExecutionContext)
    (cfg : c.gas_config ≡ default_gas_config) where
  pub turn :
      (fuel i g o n : ℕ) (s : List Value) (d : ExecutionContext)
      → get_elem? p i ≡ some o
      → gas_cost default_gas_config o ≡ n
      → n ≤ g
      → exec_instr h false p (decode o) (at c s i (g - n)) ≡ (ok next, d)
      → run h false p (suc fuel) (at c s i g) ≡ run h false p fuel d
  unfolding run
  turn fuel i g o n s d x k le e =
      ground (arith, get_elem?-lt p i o x, step-paid h false p (at c s i g) o x, k, e, cfg)

  pub turn_lit :
      (fuel i g n : ℕ) (s : List Value)
      → At p i (code (lit n))
      → 3 ≤ g
      → length s < 1024
      → run h false p (suc fuel) (at c s i g)
        ≡ run h false p fuel (at c (int n ∷ s) (i + 2) (g - 3))
  unfolding code gas_cost lookup decode exec_instr op_push
  turn_lit fuel i g n s a le room =
      turn fuel i g 0x01 3 s _ a.0 refl le
        (ground (arith, subst (λ j. get_elem? p j ≡ some n) add-one' a.1.0))
    where
      add-one' : suc i ≡ i + 1
      add-one' = omega arith

  pub turn_add :
      (fuel i g x y : ℕ) (s : List Value)
      → get_elem? p i ≡ some 0x02
      → 5 ≤ g
      → run h false p (suc fuel) (at c (int y ∷ int x ∷ s) i g)
        ≡ run h false p fuel (at c (int ((x + y) % 2 ^ 64) ∷ s) (i + 1) (g - 5))
  unfolding gas_cost lookup decode exec_instr op_add add_i64
  turn_add fuel i g x y s a le = turn fuel i g 0x02 5 _ _ a refl le (ground arith)

  pub turn_mul :
      (fuel i g x y : ℕ) (s : List Value)
      → get_elem? p i ≡ some 0x03
      → 5 ≤ g
      → run h false p (suc fuel) (at c (int y ∷ int x ∷ s) i g)
        ≡ run h false p fuel (at c (int (x * y % 2 ^ 64) ∷ s) (i + 1) (g - 5))
  unfolding gas_cost lookup decode exec_instr op_mul mul_i64
  turn_mul fuel i g x y s a le = turn fuel i g 0x03 5 _ _ a refl le (ground arith)
