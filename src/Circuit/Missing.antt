-- ===== src/Circuit/Missing.antt =====
-- src/circuit.rs: a circuit without its states, and what src/lib.rs makes of one.
use zkmips_zkvm_impl_in_rust.Base.{ℕ, ◌≡◌, ◌≢◌, refl, ap, List, Option, none, ok, err, Eq}
use zkmips_zkvm_impl_in_rust.Circuit.System.{assignment_missing, Field, ConstraintSystem, IsProver}
use zkmips_zkvm_impl_in_rust.Circuit
use zkmips_zkvm_impl_in_rust.Circuit.{VmCircuit, alloc_all, alloc_pairs, alloc_state}
use zkmips_zkvm_impl_in_rust.Circuit.Synthesis.{synthesize}
use zkmips_zkvm_impl_in_rust.Proof.{Backend, ProofCache}
use zkmips_zkvm_impl_in_rust.Proof
use zkmips_zkvm_impl_in_rust.Zkvm
use zkmips_zkvm_impl_in_rust.Zkvm.{Zkvm, ZkvmError, proof_error, generate_proof}

module _ {CS V F : Type 0} {field : Field F} {cs : ConstraintSystem CS V F}
    (prover : IsProver field cs) where
  alloc_state-missing : (s : CS) → alloc_state cs none s ≡ (err assignment_missing, s)
  unfolding alloc_state alloc_all alloc_pairs
  alloc_state-missing s = rw (prover.alloc-err assignment_missing s) refl

  synthesize_missing :
      (h : List ℕ → List ℕ) (program : List ℕ) (max_steps : ℕ) (s : CS)
      → synthesize cs field h (Circuit.new program max_steps) s ≡ (err assignment_missing, s)
  unfolding synthesize Circuit.new
  synthesize_missing h program max_steps s = rw (alloc_state-missing s) refl

  module _ {P C : Type 0} ⦃same : Eq P⦄ (b : Backend F P) (cache : ProofCache P C) where
    -- Where bellman makes no proof of a circuit whose `synthesize` fails, `generate_proof` of a machine
    -- that `new` has made gives a proof error for every program, since its circuit has no states.
    pub generate_proof-new :
        (h : List ℕ → List ℕ) (empty : CS) (create_proof : VmCircuit F → Option P)
        → ((c : VmCircuit F) → (synthesize cs field h c empty).0 ≢ ok tt → create_proof c ≡ none)
        → (c : C) (program : List ℕ)
        → (generate_proof b cache create_proof (Zkvm.new (λ p. Circuit.new p 1000) c program)).0
          ≡ err proof_error
    unfolding generate_proof Zkvm.new Proof.prove
    generate_proof-new h empty create_proof fails c program =
        let e : (synthesize cs field h (Circuit.new program 1000) empty).0
            ≡ err assignment_missing =
          ap (λ r. r.0) (synthesize_missing h program 1000 empty) in
        let n : create_proof (Circuit.new program 1000) ≡ none =
          fails (Circuit.new program 1000) (λ q. cc) in
        rw n refl
