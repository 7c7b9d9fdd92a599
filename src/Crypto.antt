-- ===== src/Crypto.antt =====
-- src/crypto/mod.rs: `CryptoEngine`, `SymmetricCrypto` and `ZKProofSystem`. The signatures of k256, the
-- cipher of aes_gcm and the hashes are parameters; random bytes and keys are arguments.
pub mod Roundtrip
mod Tests
use zkmips_zkvm_impl_in_rust.Base.{
  ℕ, ◌+◌, ◌≡◌, Bool, true, List, ◌++◌, Option, none, some, ltb, length, take, drop, if◌then◌else◌,
  Outcome, ok, err, panic, Exec,
}

pub data CryptoError : Type 0 where
  invalid_key invalid_signature verification_failed encryption_failed decryption_failed :
      CryptoError

-- ECDSA of k256: a verifying key is made from its signing key.
pub record SignatureScheme (Key PublicKey Signature : Type 0) : Type 0 where
  pub public_of : Key → PublicKey
  pub sign : Key → List ℕ → Signature
  pub verify : PublicKey → List ℕ → Signature → Bool
  pub verify-sign :
      (k : Key) (message : List ℕ) → verify (public_of k) message (sign k message) ≡ true

pub record Hashes : Type 0 where
  pub keccak256 : List ℕ → List ℕ
  pub blake3 : List ℕ → List ℕ

pub record CryptoEngine (Key PublicKey : Type 0) : Type 0 where
  pub signing_key : Option Key
  pub verifying_key : Option PublicKey

module _ {Key PublicKey Signature : Type 0} (scheme : SignatureScheme Key PublicKey Signature) where
  unfoldable pub new : CryptoEngine Key PublicKey
  new = record { signing_key = none; verifying_key = none }

  -- With the key that was drawn.
  unfoldable pub generate_keypair : Key → Exec CryptoError (CryptoEngine Key PublicKey) Unit
  generate_keypair signing_key engine = (
    ok tt,
    record { signing_key = some signing_key; verifying_key = some (scheme.public_of signing_key) },
  )

  unfoldable pub sign : CryptoEngine Key PublicKey → List ℕ → Outcome CryptoError Signature
  sign engine message = elim engine.signing_key [
    | some signing_key ↦ ok (scheme.sign signing_key message)
    | none ↦ err invalid_key
  ]

  unfoldable pub verify : CryptoEngine Key PublicKey → List ℕ → Signature → Outcome CryptoError Bool
  verify engine message signature = elim engine.verifying_key [
    | some verifying_key ↦ ok (scheme.verify verifying_key message signature)
    | none ↦ err invalid_key
  ]

unfoldable pub hash_keccak256 : Hashes → List ℕ → List ℕ
hash_keccak256 hashes bytes = hashes.keccak256 bytes

unfoldable pub hash_blake3 : Hashes → List ℕ → List ℕ
hash_blake3 hashes bytes = hashes.blake3 bytes

-- AES-GCM of aes_gcm under one key: nonce, message and associated data. What was encrypted is
-- decrypted under the same nonce and data, and a ciphertext is longer by the tag of sixteen bytes.
pub record Cipher : Type 0 where
  pub encrypt : List ℕ → List ℕ → List ℕ → Option (List ℕ)
  pub decrypt : List ℕ → List ℕ → List ℕ → Option (List ℕ)
  pub decrypt-encrypt :
      (nonce message aad c : List ℕ)
      → encrypt nonce message aad ≡ some c
      → decrypt nonce c aad ≡ some message
  pub length-encrypt :
      (nonce message aad c : List ℕ)
      → encrypt nonce message aad ≡ some c
      → length c ≡ length message + 16

-- `map_err(|_| ...)`
abbrev pub or_error : {A : Type 0} → CryptoError → Option A → Outcome CryptoError A
or_error e (some a) = ok a
or_error e none = err e

abbrev pub with_nonce : List ℕ → Outcome CryptoError (List ℕ) → Outcome CryptoError (List ℕ)
with_nonce nonce (ok ciphertext) = ok (nonce ++ ciphertext)
with_nonce nonce (err e) = err e
with_nonce nonce panic = panic

-- `SymmetricCrypto`, with the cipher of its key.
unfoldable pub encrypt : Cipher → List ℕ → List ℕ → List ℕ → Outcome CryptoError (List ℕ)
encrypt cipher nonce plaintext associated_data =
    with_nonce nonce (or_error encryption_failed (cipher.encrypt nonce plaintext associated_data))

unfoldable pub decrypt : Cipher → List ℕ → List ℕ → Outcome CryptoError (List ℕ)
decrypt cipher ciphertext associated_data =
    if ltb (length ciphertext) 12
    then err decryption_failed
    else or_error decryption_failed
        (cipher.decrypt (take 12 ciphertext) (drop 12 ciphertext) associated_data)

-- `ZKProofSystem::verify`, which does not look at what it is given.
unfoldable pub verify_zk : {Proof F : Type 0} → Proof → List F → Bool
verify_zk proof public_inputs = true
