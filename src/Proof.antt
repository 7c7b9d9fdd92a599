-- ===== src/Proof.antt =====
-- src/proof.rs: `ProofSystem`. Bellman, Blake2s and the cache of the `lru` crate are parameters, and
-- the proof that bellman makes from random numbers is an argument. A result is `none` where the
-- source gives an error.
mod Tests
pub mod Caching
use zkmips_zkvm_impl_in_rust.Base.{
  ℕ, Bool, true, false, ◌&&◌, List, [], ◌∷◌, ◌++◌, Option, none, some, Eq, ◌==◌, bytes_eq, ◌≡◌,
  if◌then◌else◌,
}

pub record ProofData (F P : Type 0) : Type 0 where
  pub proof : P
  pub public_inputs : List F
  pub hash : List ℕ

-- What is called of bellman, of the field and of Blake2s.
pub record Backend (F P : Type 0) : Type 0 where
  pub verify_proof : P → List F → Option Bool
  pub to_uncompressed : P → List ℕ
  pub to_repr : F → List ℕ
  pub blake2s : List ℕ → List ℕ

-- `lru::LruCache`: what was put last is there to be got.
pub record ProofCache (P C : Type 0) : Type 0 where
  pub get : List ℕ → C → Option P
  pub put : List ℕ → P → C → C
  pub get-put : (h : List ℕ) (p : P) (c : C) → get h (put h p c) ≡ some p

module _ {F P : Type 0} (b : Backend F P) where
  unfoldable pub input_bytes : List F → List ℕ
  input_bytes [] = []
  input_bytes (x ∷ xs) = b.to_repr x ++ input_bytes xs

  unfoldable pub hash_proof : P → List F → List ℕ
  unfolding input_bytes
  hash_proof proof public_inputs = b.blake2s (b.to_uncompressed proof ++ input_bytes public_inputs)

-- `collect_public_inputs`, a placeholder in the source.
unfoldable pub collect_public_inputs : {F P : Type 0} → P → List F
collect_public_inputs proof = []

module _ {F P C : Type 0} ⦃same : Eq P⦄ (b : Backend F P) (cache : ProofCache P C) where
  -- `prove`, given what bellman answers.
  unfoldable pub prove : Option P → C → Option (ProofData F P) × C
  unfolding collect_public_inputs
  prove none c = (none, c)
  prove (some proof) c =
      let public_inputs : List F = collect_public_inputs proof in
      let proof_hash : List ℕ = hash_proof b proof public_inputs in
      (
        some (record { proof = proof; public_inputs = public_inputs; hash = proof_hash }),
        cache.put proof_hash proof c,
      )

  -- What `verify` does without the cache.
  unfoldable pub verify_uncached : ProofData F P → Option Bool
  verify_uncached d = elim (b.verify_proof d.proof d.public_inputs) [
    | none ↦ none
    | some is_valid ↦ some (is_valid && (hash_proof b d.proof d.public_inputs == d.hash))
  ]

  unfoldable pub verify : C → ProofData F P → Option Bool
  unfolding verify_uncached
  verify c d = elim (cache.get d.hash c) [
    | some cached_proof ↦ if cached_proof == d.proof then some true else verify_uncached d
    | none ↦ verify_uncached d
  ]

  abbrev pub or_false : Option Bool → Bool
  or_false (some is_valid) = is_valid
  or_false none = false

  unfoldable pub batch_verify_one : C → ProofData F P → Bool
  batch_verify_one c d = elim (cache.get d.hash c) [
    | some cached_proof ↦ cached_proof == d.proof
    | none ↦ or_false (b.verify_proof d.proof d.public_inputs)
  ]

  unfoldable pub batch_verify : C → List (ProofData F P) → Bool
  unfolding batch_verify_one
  batch_verify c [] = true
  batch_verify c (d ∷ ds) = batch_verify_one c d && batch_verify c ds
