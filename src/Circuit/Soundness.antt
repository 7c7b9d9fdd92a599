-- ===== src/Circuit/Soundness.antt =====
-- src/circuit.rs: what it takes of the values that the constraints hold.
use zkmips_zkvm_impl_in_rust.Base.{ℕ, ◌≡◌, sym, subst, ◌∙◌, List, some, ok, Exec}
use zkmips_zkvm_impl_in_rust.Base.Keeps.{Keeps, bind-ok}
use zkmips_zkvm_impl_in_rust.Circuit.System.{
  SynthesisError, Field, ConstraintSystem, IsProver, Holds, Satisfied,
}
use zkmips_zkvm_impl_in_rust.Circuit.{VmState, VmCircuit, AllocatedState, alloc_state, with_witness}
use zkmips_zkvm_impl_in_rust.Circuit.Steps.{enforce}
use zkmips_zkvm_impl_in_rust.Circuit.Synthesis.{steps, synthesize, enforce_equal, enforce_final}
use zkmips_zkvm_impl_in_rust.Circuit.Extends.{
  Extends, order, All-extended, enforce_equal-Extends, alloc_state-Extends, steps-Extends,
  enforce_rest-Extends,
}
use zkmips_zkvm_impl_in_rust.Circuit.Registers.{steps-Same, alloc_state-registers}

module _ {CS V F : Type 0} {field : Field F} {cs : ConstraintSystem CS V F}
    (prover : IsProver field cs) where
  -- A method that keeps what there was, run to a value.
  pub run-Extends :
      {A : Type 0} (m : Exec SynthesisError CS A) (s : CS) (a : A) (t : CS)
      → Keeps (Extends prover) m
      → m s ≡ (ok a, t)
      → Extends prover s t
  run-Extends m s a t k e = subst (λ r. Extends prover s r.1) e (k.at s)

  -- The constraint that `enforce` has put in holds from then on.
  pub enforce-Holds :
      (a b c : V) (s u : CS) (x y z : F)
      → Extends prover (enforce cs field a b c s).1 u
      → Satisfied prover u
      → prover.assigned u a ≡ some x
      → prover.assigned u b ≡ some y
      → prover.assigned u c ≡ some z
      → field.mul x y ≡ z
  unfolding enforce
  enforce-Holds a b c s u x y z k h ea eb ec =
      (rw (prover.constraints-enforce _ s) at (All-extended prover (Holds prover u) _ u k h)).0 x y
        z ea eb ec

  enforce_equal-eq :
      (a b : V) (s u : CS) (x y : F)
      → Extends prover (enforce_equal cs field a b s).1 u
      → Satisfied prover u
      → prover.assigned u a ≡ some x
      → prover.assigned u b ≡ some y
      → x ≡ y
  unfolding enforce_equal
  enforce_equal-eq a b s u x y k h ea eb =
      sym (prover.mul-one x)
      ∙ enforce-Holds a cs.one b s u x field.one y k h ea (prover.assigned-one u) eb

  abbrev after : V → V → CS → CS
  after a b s = (enforce_equal cs field a b s).1

  enforce_final-registers :
      (current final : AllocatedState V) (s u : CS)
      → enforce_final cs field current final s ≡ (ok tt, u)
      → let s1 = after current.program_counter final.program_counter s in
        Extends prover s s1
        × Extends prover s1 (after current.gas_remaining final.gas_remaining s1)
        × Extends prover (after current.gas_remaining final.gas_remaining s1) u
  unfolding enforce_final enforce_equal enforce
  enforce_final-registers current final s u e =
      let s1 = after current.program_counter final.program_counter s in
      let s2 = after current.gas_remaining final.gas_remaining s1 in
      (
        (enforce_equal-Extends prover current.program_counter final.program_counter).at s,
        (enforce_equal-Extends prover current.gas_remaining final.gas_remaining).at s1,
        run-Extends _ s2 tt u (enforce_rest-Extends prover current final) e,
      )

  -- A circuit whose constraints hold has one program counter and one amount of gas, before and after:
  -- from initial and final values that differ in either, no satisfied system is synthesized.
  pub synthesize_registers :
      (h : List ℕ → List ℕ) (program : List ℕ) (max_steps : ℕ) (initial final : VmState F)
      (s u : CS)
      → synthesize cs field h (with_witness program max_steps initial final) s ≡ (ok tt, u)
      → Satisfied prover u
      → (initial.program_counter ≡ final.program_counter)
        × (initial.gas_remaining ≡ final.gas_remaining)
  unfolding synthesize with_witness
  synthesize_registers h program max_steps initial final s u e sat =
      let c : VmCircuit F = with_witness program max_steps initial final in
      let (a, s1, e1, q1) = bind-ok (alloc_state cs (some initial)) _ s tt u e in
      let (b, s2, e2, q2) = bind-ok (alloc_state cs (some final)) _ s1 tt u q1 in
      let (d, s3, e3, q3) = bind-ok (steps cs field h c b max_steps 0 a) _ s2 tt u q2 in
      let (p, g) = (steps-Same cs field h c b max_steps 0 a).at s2 d s3 e3 in
      let (pa, ga) = alloc_state-registers prover initial s a s1 e1 in
      let (pb, gb) = alloc_state-registers prover final s1 b s2 e2 in
      let (k1, k2, k3) = enforce_final-registers d b s3 u q3 in
      let o = order prover in
      let m3 : Extends prover s3 u = o.trans s3 _ u k1 (o.trans _ _ u k2 k3) in
      let m2 : Extends prover s2 u =
        o.trans s2 s3 u (run-Extends _ s2 d s3 (steps-Extends prover h c b max_steps 0 a) e3) m3 in
      let m1 : Extends prover s1 u =
        o.trans s1 s2 u (run-Extends _ s1 b s2 (alloc_state-Extends prover (some final)) e2) m2 in
      (
        enforce_equal-eq d.program_counter b.program_counter s3 u _ _ (o.trans _ _ u k2 k3) sat
            (rw p (m1.kept _ _ pa)) (m2.kept _ _ pb),
        enforce_equal-eq d.gas_remaining b.gas_remaining _ u _ _ k3 sat (rw g (m1.kept _ _ ga))
            (m2.kept _ _ gb),
      )
