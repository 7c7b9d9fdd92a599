-- ===== src/Zkvm/Tests.antt =====
-- The theorems on the wrapper at work, with numbers for circuits and proofs.
use zkmips_zkvm_impl_in_rust.Base.{
  ℕ, ◌+◌, ◌≡◌, true, false, List, [], ◌∷◌, ◌++◌, Option, none, some, ok, arith, length, nat_eq,
  bytes_eq,
}
use zkmips_zkvm_impl_in_rust.Base.Map
use zkmips_zkvm_impl_in_rust.Vm.Value.{int}
use zkmips_zkvm_impl_in_rust.Vm.Expr.{Expr, lit, add, code, value, cost, depth}
use zkmips_zkvm_impl_in_rust.Proof.{ProofData, Backend, ProofCache}
use zkmips_zkvm_impl_in_rust.Zkvm.{Zkvm, new, execute, get_gas_used, get_execution_trace}
use zkmips_zkvm_impl_in_rust.Zkvm.Bookkeeping.{stacks, gas_used_is_left}

abbrev no_hash : List ℕ → List ℕ
no_hash l = l

abbrev sum : Expr
sum = add (lit 5) (lit 3)

abbrev Cached : Type 0
Cached = List (List ℕ × ℕ)

gas_used_is_left_example :
    (z : Zkvm ℕ Cached) × (execute no_hash false (new length [] (code sum ++ (0xFF ∷ [])))
      ≡ some (ok tt, z))
    × (get_gas_used z + (cost sum + 2) ≡ 1_000_000)
    × (stacks (get_execution_trace z) ≡ (int (value sum) ∷ []) ∷ [])
unfolding depth cost
gas_used_is_left_example = gas_used_is_left no_hash length [] sum (omega arith) (omega arith)

abbrev backend : Backend ℕ ℕ
backend = record {
  verify_proof = λ p xs. some true;
  to_uncompressed = λ p. p ∷ [];
  to_repr = λ x. x ∷ [];
  blake2s = λ l. l;
}

abbrev map_cache : ProofCache ℕ Cached
map_cache = record {
  get = Map.lookup;
  put = Map.insert;
  get-put = λ h p c. Map.lookup-insert_self h p c;
}

abbrev fresh : Zkvm ℕ Cached
fresh = new length [] (0xFF ∷ [])

abbrev proof_of : ℕ → Option ℕ
proof_of circuit = some (circuit + 4)

abbrev proved_once : Zkvm ℕ Cached
proved_once = record fresh { circuit = none; proof_cache = (5 ∷ [], 5) ∷ [] }

abbrev five : ProofData ℕ ℕ
five = record { proof = 5; public_inputs = []; hash = 5 ∷ [] }
