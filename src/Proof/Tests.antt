-- ===== src/Proof/Tests.antt =====
-- The theorems on the proof system at work: numbers for proofs, and a map for a cache.
use zkmips_zkvm_impl_in_rust.Base.{
  ℕ, Bool, true, List, [], ◌∷◌, Option, none, some, nat_eq, bytes_eq, eqb, ◌≡◌, refl,
}
use zkmips_zkvm_impl_in_rust.Base.Map
use zkmips_zkvm_impl_in_rust.Proof.{
  ProofData, Backend, ProofCache, hash_proof, input_bytes, prove, collect_public_inputs, verify,
  batch_verify,
}
use zkmips_zkvm_impl_in_rust.Proof.Caching.{proved_with_any_inputs, verify_each, batch_verify_lem}

-- A proof is valid for itself as the only input.
abbrev valid_for : ℕ → List ℕ → Option Bool
valid_for p (x ∷ []) = some (eqb p x)
valid_for p _ = none

abbrev backend : Backend ℕ ℕ
backend = record {
  verify_proof = valid_for;
  to_uncompressed = λ p. p ∷ [];
  to_repr = λ x. x ∷ [];
  blake2s = λ l. l;
}

abbrev map_cache : ProofCache ℕ (List (List ℕ × ℕ))
map_cache = record {
  get = Map.lookup;
  put = Map.insert;
  get-put = λ h p c. Map.lookup-insert_self h p c;
}

abbrev made : ProofData ℕ ℕ
made = record { proof = 5; public_inputs = []; hash = 5 ∷ [] }

abbrev cached : List (List ℕ × ℕ)
cached = (prove backend map_cache (some 5) []).1

proved_with_any_inputs_example :
    (verify backend map_cache cached (record made { public_inputs = 6 ∷ [] }) ≡ some true)
    × (batch_verify backend map_cache cached (record made { public_inputs = 6 ∷ [] } ∷ []) ≡ true)
unfolding prove collect_public_inputs hash_proof input_bytes
proved_with_any_inputs_example = proved_with_any_inputs backend map_cache 5 [] made (6 ∷ []) refl

abbrev proper : ProofData ℕ ℕ
proper = record { proof = 5; public_inputs = 5 ∷ []; hash = 5 ∷ 5 ∷ [] }

batch_verify_lem_example :
    batch_verify backend map_cache [] (proper ∷ proper ∷ [])
    ≡ verify_each backend map_cache [] (proper ∷ proper ∷ [])
unfolding hash_proof input_bytes Map.lookup
batch_verify_lem_example =
    batch_verify_lem backend map_cache [] (proper ∷ proper ∷ []) ((refl, refl), ((refl, refl), tt))

abbrev forged : ProofData ℕ ℕ
forged = record proper { hash = 9 ∷ [] }
