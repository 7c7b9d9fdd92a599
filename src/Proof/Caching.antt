-- ===== src/Proof/Caching.antt =====
-- What the cache does to verification, one by one and in a batch.
use zkmips_zkvm_impl_in_rust.Base.{
  Bool, true, false, ◌&&◌, List, [], ◌∷◌, none, some, Eq, bytes_eq, ◌≡◌, ◌≢◌, refl, All, arith,
}
use zkmips_zkvm_impl_in_rust.Proof.{
  ProofData, Backend, ProofCache, hash_proof, prove, verify, batch_verify, or_false,
}

module _ {F P C : Type 0} ⦃same : Eq P⦄ (b : Backend F P) (cache : ProofCache P C) where
  -- Once a proof was made, it is accepted with any public inputs, alone and in a batch, whatever
  -- the proof library says of it: the cache is asked for the hash and the proof only.
  pub proved_with_any_inputs :
      (p : P) (c : C) (d : ProofData F P) (inputs : List F)
      → (prove b cache (some p) c).0 ≡ some d
      → (verify b cache (prove b cache (some p) c).1 (record d { public_inputs = inputs })
          ≡ some true)
        × (batch_verify b cache
              (prove b cache (some p) c).1
              (record d { public_inputs = inputs } ∷ [])
            ≡ true)
  unfolding prove verify batch_verify
  proved_with_any_inputs p c d inputs e = (
    ground (arith, cache.get-put (hash_proof b p []) p c, same.beq_iff p p),
    ground (arith, cache.get-put (hash_proof b p []) p c, same.beq_iff p p),
  )

  -- Not cached, and with the hash of its proof and its inputs.
  abbrev pub Sound : C → ProofData F P → Type 0
  Sound c d = (cache.get d.hash c ≡ none) × (hash_proof b d.proof d.public_inputs ≡ d.hash)

  abbrev pub verify_each : C → List (ProofData F P) → Bool
  verify_each c [] = true
  verify_each c (d ∷ ds) = or_false b cache (verify b cache c d) && verify_each c ds

  -- On proofs that are not cached and whose hashes are right, the batch is accepted just where each
  -- proof is when it is verified alone.
  pub batch_verify_lem :
      (c : C) (ds : List (ProofData F P))
      → All (Sound c) ds
      → batch_verify b cache c ds ≡ verify_each c ds
  unfolding batch_verify verify
  batch_verify_lem c [] h = refl
  batch_verify_lem c (d ∷ ds) h = ground (
    arith,
    batch_verify_lem c ds h.1,
    bytes_eq.beq_iff (hash_proof b d.proof d.public_inputs) d.hash,
  )

  -- Where they differ: for a valid proof that is not cached, a wrong hash is rejected by `verify`
  -- and not looked at in a batch, which accepts it.
  pub batch_skips_hash :
      (c : C) (d : ProofData F P)
      → cache.get d.hash c ≡ none
      → b.verify_proof d.proof d.public_inputs ≡ some true
      → hash_proof b d.proof d.public_inputs ≢ d.hash
      → (verify b cache c d ≡ some false) × (batch_verify b cache c (d ∷ []) ≡ true)
  unfolding batch_verify verify
  batch_skips_hash c d e v n =
      (ground (arith, bytes_eq.beq_iff (hash_proof b d.proof d.public_inputs) d.hash), ground arith)
