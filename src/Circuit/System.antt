-- ===== src/Circuit/System.antt =====
-- src/circuit.rs: the `ConstraintSystem` and the `PrimeField` that the circuit is generic in, and
-- what bellman's prover is relied on for. Both are parameters.
use zkmips_zkvm_impl_in_rust.Base.{
  ℕ, ◌≡◌, List, ◌∷◌, Option, some, All, Outcome, ok, err, panic, Exec,
}

pub data SynthesisError : Type 0 where
  assignment_missing : SynthesisError

pub record Field (F : Type 0) : Type 0 where
  pub zero : F
  pub one : F
  pub add : F → F → F
  pub mul : F → F → F
  pub from : ℕ → F
  pub to_repr : F → List ℕ
  pub from_repr : List ℕ → Option F

-- The product of the first two is to be the third.
pub record Constraint (V : Type 0) : Type 0 where
  pub left : V
  pub right : V
  pub result : V

-- `CS::one()`, `alloc` with what its closure would return, and `enforce` of one variable each.
pub record ConstraintSystem (CS V F : Type 0) : Type 0 where
  pub one : V
  pub alloc : Outcome SynthesisError F → Exec SynthesisError CS V
  pub enforce : Constraint V → CS → CS

-- Each variable has the value that its closure computed, a closure that fails makes `alloc` fail,
-- and no variable or constraint is lost.
pub record IsProver {CS V F : Type 0} (field : Field F) (cs : ConstraintSystem CS V F)
    : Type 0 where
  pub assigned : CS → V → Option F
  pub constraints : CS → List (Constraint V)
  pub fresh : CS → V
  pub extended : F → CS → CS
  pub alloc-ok : (x : F) (s : CS) → cs.alloc (ok x) s ≡ (ok (fresh s), extended x s)
  pub alloc-err : (e : SynthesisError) (s : CS) → cs.alloc (err e) s ≡ (err e, s)
  pub alloc-panic : (s : CS) → cs.alloc panic s ≡ (panic, s)
  pub assigned-fresh : (x : F) (s : CS) → assigned (extended x s) (fresh s) ≡ some x
  pub assigned-extended :
      (x y : F) (s : CS) (v : V) → assigned s v ≡ some y → assigned (extended x s) v ≡ some y
  pub constraints-extended : (x : F) (s : CS) → constraints (extended x s) ≡ constraints s
  pub assigned-enforce :
      (c : Constraint V) (s : CS) (v : V) → assigned (cs.enforce c s) v ≡ assigned s v
  pub constraints-enforce :
      (c : Constraint V) (s : CS) → constraints (cs.enforce c s) ≡ c ∷ constraints s
  pub assigned-one : (s : CS) → assigned s cs.one ≡ some field.one
  pub mul-one : (x : F) → field.mul x field.one ≡ x

module _ {CS V F : Type 0} {field : Field F} {cs : ConstraintSystem CS V F}
    (prover : IsProver field cs) where
  -- Wherever the three variables have values, these satisfy the constraint.
  abbrev pub Holds : CS → Constraint V → Type 0
  Holds s c =
      (a b r : F)
      → prover.assigned s c.left ≡ some a
      → prover.assigned s c.right ≡ some b
      → prover.assigned s c.result ≡ some r
      → field.mul a b ≡ r

  abbrev pub Satisfied : CS → Type 0
  Satisfied s = All (Holds s) (prover.constraints s)
