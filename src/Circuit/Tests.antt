-- ===== src/Circuit/Tests.antt =====
-- The theorems on the circuit at work, with the numbers for a field and a prover that writes down what
-- it is asked for.
use zkmips_zkvm_impl_in_rust.Base.{
  ℕ, zero, suc, ◌+◌, ◌*◌, ◌≡◌, ◌≢◌, refl, List, [], ◌∷◌, ◌++◌, Option, none, some, Outcome, ok, err,
  panic, Exec, length, get_elem?, arith, true, nat_eq, bytes_eq,
}
use zkmips_zkvm_impl_in_rust.Base.Map
use zkmips_zkvm_impl_in_rust.Circuit.System.{
  SynthesisError, Field, Constraint, ConstraintSystem, IsProver, Satisfied,
}
use zkmips_zkvm_impl_in_rust.Circuit
use zkmips_zkvm_impl_in_rust.Circuit.{
  VmState, VmCircuit, AllocatedState, with_witness, alloc_all, alloc_pairs, alloc_state,
}
use zkmips_zkvm_impl_in_rust.Circuit.Steps.{
  push_step, binary_at, store_at, arm, arm_of, circuit_step, enforce, extend_memory, low_byte,
  current_opcode, push_value, binary_value,
}
use zkmips_zkvm_impl_in_rust.Circuit.Synthesis.{
  steps, synthesize, enforce_equal, enforce_zip, enforce_pairs, enforce_final,
}
use zkmips_zkvm_impl_in_rust.Circuit.Extends.{order}
use zkmips_zkvm_impl_in_rust.Circuit.Soundness.{synthesize_registers}
use zkmips_zkvm_impl_in_rust.Circuit.Arms.{binary_at-product, store_at-equal}
use zkmips_zkvm_impl_in_rust.Circuit.Missing.{generate_proof-new}
use zkmips_zkvm_impl_in_rust.Proof.{Backend, ProofCache}
use zkmips_zkvm_impl_in_rust.Zkvm
use zkmips_zkvm_impl_in_rust.Zkvm.{ZkvmError, proof_error, generate_proof}

abbrev numbers : Field ℕ
numbers = record {
  zero = 0;
  one = 1;
  add = λ x y. x + y;
  mul = λ x y. x * y;
  from = λ x. x;
  to_repr = λ x. x ∷ [];
  from_repr = λ l. get_elem? l 0;
}

-- The values in their order, and the constraints, the last one first. `none` is the variable one.
record Record : Type 0 where
  values : List ℕ
  constraints : List (Constraint (Option ℕ))

abbrev value_of : Record → Option ℕ → Option ℕ
value_of s none = some 1
value_of s (some v) = get_elem? s.values v

abbrev with_value : ℕ → Record → Record
with_value x s = record s { values = s.values ++ (x ∷ []) }

abbrev recorded : Outcome SynthesisError ℕ → Exec SynthesisError Record (Option ℕ)
recorded (ok x) s = (ok (some (length s.values)), with_value x s)
recorded (err e) s = (err e, s)
recorded panic s = (panic, s)

abbrev recorder : ConstraintSystem Record (Option ℕ) ℕ
recorder = record {
  one = none;
  alloc = recorded;
  enforce = λ c s. record s { constraints = c ∷ s.constraints };
}

get_elem?-fresh : (l : List ℕ) (x : ℕ) → get_elem? (l ++ (x ∷ [])) (length l) ≡ some x
get_elem?-fresh [] x = refl
get_elem?-fresh (y ∷ l) x = get_elem?-fresh l x

get_elem?-kept :
    (l : List ℕ) (x y v : ℕ) → get_elem? l v ≡ some y → get_elem? (l ++ (x ∷ [])) v ≡ some y
get_elem?-kept [] x y v h = absurd cc
get_elem?-kept (z ∷ l) x y zero h = h
get_elem?-kept (z ∷ l) x y (suc v) h = get_elem?-kept l x y v h

value_of-kept :
    (x y : ℕ) (s : Record) (v : Option ℕ)
    → value_of s v ≡ some y
    → value_of (with_value x s) v ≡ some y
value_of-kept x y s none h = h
value_of-kept x y s (some v) h = get_elem?-kept s.values x y v h

abbrev recorder-IsProver : IsProver numbers recorder
recorder-IsProver = record {
  assigned = value_of;
  constraints = λ s. s.constraints;
  fresh = λ s. some (length s.values);
  extended = with_value;
  alloc-ok = λ x s. refl;
  alloc-err = λ e s. refl;
  alloc-panic = λ s. refl;
  assigned-fresh = λ x s. get_elem?-fresh s.values x;
  assigned-extended = value_of-kept;
  constraints-extended = λ x s. refl;
  assigned-enforce = λ c s v. refl;
  constraints-enforce = λ c s. refl;
  assigned-one = λ s. refl;
  mul-one = λ x. omega arith;
}

abbrev empty : Record
empty = record { values = []; constraints = [] }

abbrev state : VmState ℕ
state = record {
  stack = 2 ∷ 2 ∷ [];
  memory = [];
  storage = [];
  program_counter = 0;
  gas_remaining = 7;
}

abbrev pushed : VmCircuit ℕ
pushed = with_witness (1 ∷ 5 ∷ []) 1 state state

abbrev no_hash : List ℕ → List ℕ
no_hash l = l

abbrev equal : ℕ → ℕ → Constraint (Option ℕ)
equal a b = record { left = some a; right = none; result = some b }

abbrev synthesized : Record
synthesized = record {
  values = 2 ∷ 2 ∷ 0 ∷ 7 ∷ 2 ∷ 2 ∷ 0 ∷ 7 ∷ 1 ∷ 5 ∷ [];
  constraints = equal 1 5 ∷ equal 0 4 ∷ equal 3 7 ∷ equal 2 6 ∷ equal 2 6 ∷ [];
}

synthesized_lem : synthesize recorder numbers no_hash pushed empty ≡ (ok tt, synthesized)
unfolding synthesize with_witness steps circuit_step enforce_final push_step arm arm_of
    current_opcode low_byte push_value enforce enforce_equal enforce_zip enforce_pairs alloc_state
    alloc_all alloc_pairs
synthesized_lem = refl

synthesized-Satisfied : Satisfied recorder-IsProver synthesized
synthesized-Satisfied =
    let same : (x : ℕ) (a b r : ℕ)
        → some x ≡ some a
        → some 1 ≡ some b
        → some x ≡ some r
        → a * b ≡ r =
      λ x a b r ea eb er. ground arith in
    (same 2, (same 2, (same 7, (same 0, (same 0, tt)))))

synthesize_registers_example :
    (state.program_counter ≡ state.program_counter) × (state.gas_remaining ≡ state.gas_remaining)
synthesize_registers_example =
    synthesize_registers recorder-IsProver no_hash (1 ∷ 5 ∷ []) 1 state state empty synthesized
      synthesized_lem synthesized-Satisfied

abbrev allocated : AllocatedState (Option ℕ)
allocated = record {
  stack = some 1 ∷ some 0 ∷ [];
  memory = [];
  storage = [];
  program_counter = some 2;
  gas_remaining = some 3;
}

abbrev started : Record
started = record { values = 2 ∷ 2 ∷ 0 ∷ 7 ∷ []; constraints = [] }

-- Two and two, whose sum is their product.
abbrev added : Record
added = record {
  values = 2 ∷ 2 ∷ 0 ∷ 7 ∷ 4 ∷ [];
  constraints = record { left = some 1; right = some 0; result = some 4 } ∷ [];
}

binary_at-product_example :
    (v : Option ℕ) × ((some 4 ∷ []) ≡ v ∷ [])
    × (value_of added v ≡ some 4)
    × (binary_value numbers (λ x y. x + y) pushed ≡ ok 4)
unfolding with_witness binary_at enforce binary_value
binary_at-product_example =
    binary_at-product recorder-IsProver (λ x y. x + y) pushed allocated
      (record allocated { stack = some 4 ∷ [] }) (some 1) (some 0) [] started added added 2 2 refl
      ((order recorder-IsProver).refl added) ((λ a b r ea eb er. ground arith), tt) refl refl

abbrev two : ℕ
two = 2

abbrev rest : List (Option ℕ)
rest = []

abbrev memory_after : List (Option ℕ)
memory_after = some 4 ∷ some 1 ∷ []

abbrev stored : Record
stored = record { values = 2 ∷ 2 ∷ 0 ∷ 7 ∷ 0 ∷ 0 ∷ []; constraints = equal 0 1 ∷ [] }

store_at-equal_example : (rest ≡ rest) × (get_elem? memory_after 1 ≡ some (some 1)) × (two ≡ two)
unfolding store_at extend_memory enforce
store_at-equal_example =
    store_at-equal recorder-IsProver 1 allocated
      (record allocated { stack = []; memory = memory_after }) (some 1) (some 0) rest started stored
      stored two two refl ((order recorder-IsProver).refl stored)
      ((λ a b r ea eb er. ground arith), tt) refl refl

abbrev backend : Backend ℕ ℕ
backend = record {
  verify_proof = λ p xs. some true;
  to_uncompressed = λ p. p ∷ [];
  to_repr = λ x. x ∷ [];
  blake2s = λ l. l;
}

abbrev map_cache : ProofCache ℕ (List (List ℕ × ℕ))
map_cache = record {
  get = Map.lookup;
  put = Map.insert;
  get-put = λ h p c. Map.lookup-insert_self h p c;
}

-- Bellman's proof of a circuit, where its synthesis succeeds.
abbrev proof_of : Outcome SynthesisError Unit → Option ℕ
proof_of (ok _) = some 5
proof_of (err e) = none
proof_of panic = none

proof_of-none : (r : Outcome SynthesisError Unit) → r ≢ ok tt → proof_of r ≡ none
proof_of-none (ok tt) h = absurd (h refl)
proof_of-none (err e) h = refl
proof_of-none panic h = refl

abbrev create_proof : VmCircuit ℕ → Option ℕ
create_proof c = proof_of (synthesize recorder numbers no_hash c empty).0

generate_proof-new_example :
    (generate_proof backend map_cache create_proof
      (Zkvm.new (λ p. Circuit.new p 1000) [] (1 ∷ 5 ∷ []))).0
    ≡ err proof_error
generate_proof-new_example =
    generate_proof-new recorder-IsProver backend map_cache no_hash empty create_proof
      (λ c h. proof_of-none _ h) [] (1 ∷ 5 ∷ [])
