-- ===== src/Network/Signing/Roundtrip.antt =====
-- src/network/message.rs with src/crypto/mod.rs: what is signed verifies.
use zkmips_zkvm_impl_in_rust.Base.{
  ℕ, ◌≡◌, refl, subst, true, List, [], ◌∷◌, some, Outcome, ok, err, panic, continue, none,
  Bool-cases, inl, inr, if◌then◌else◌,
}
use zkmips_zkvm_impl_in_rust.Crypto
use zkmips_zkvm_impl_in_rust.Crypto.{
  CryptoError, invalid_signature, SignatureScheme, CryptoEngine, generate_keypair,
}
use zkmips_zkvm_impl_in_rust.Crypto.Roundtrip.{generated}
use zkmips_zkvm_impl_in_rust.Network.Message.{Transaction, verify_transaction}
use zkmips_zkvm_impl_in_rust.Network.Signing.{
  Message, SignedCodec, sign, verify, hash, sign_transaction,
}

module _ {Key PublicKey : Type 0} (scheme : SignatureScheme Key PublicKey (List ℕ))
    (codec : SignedCodec) where
  generated_pair :
      (keys : List Key) (k : Key) (p : PublicKey)
      → (generated scheme keys).signing_key ≡ some k
      → (generated scheme keys).verifying_key ≡ some p
      → scheme.public_of k ≡ p
  unfolding generated Crypto.new generate_keypair
  generated_pair [] k p h i = absurd cc
  generated_pair (j ∷ keys) k p h i = let q : j ≡ k = cc in cc (q, i)

  -- What `verify` makes of the message `t` under any signature: with one that the scheme takes for the
  -- bytes of the message it is true, with one that it refuses an error, and without one an error.
  pub record Verified (p : PublicKey) (t : Message) : Type 0 where
    pub bytes : List ℕ
    pub serialized : codec.serialize_message t.message_type t.sender t.timestamp ≡ ok bytes
    pub with_any :
        (other : List ℕ)
        → verify scheme codec p (record t { signature = some other })
          ≡ (if scheme.verify p bytes other then ok true else err codec.refused)
    pub without : verify scheme codec p (record t { signature = none }) ≡ err invalid_signature

  any_signature :
      (p : PublicKey) (m : Message) (bytes : List ℕ)
      → codec.serialize_message m.message_type m.sender m.timestamp ≡ ok bytes
      → Verified p m
  unfolding verify
  any_signature p m bytes q = record {
    bytes = bytes;
    serialized = q;
    with_any = λ other. elim (Bool-cases (scheme.verify p bytes other)) [
      | inl good ↦ rw (q, good) refl
      | inr bad ↦ rw (q, bad) refl
    ];
    without = refl;
  }

  -- A message signed with the signing key of an engine verifies under its verifying key, whatever key
  -- pairs the engine has generated, and signing changes nothing but the signature. With another
  -- signature the signed message verifies only if the scheme takes that for the bytes of the message;
  -- else, and without a signature, the answer is an error and never false.
  pub verify-sign :
      (keys : List Key) (k : Key) (p : PublicKey) (m t : Message)
      → (generated scheme keys).signing_key ≡ some k
      → (generated scheme keys).verifying_key ≡ some p
      → sign scheme codec k m ≡ (ok tt, t)
      → (verify scheme codec p t ≡ ok true)
        × (t ≡ record m { signature = t.signature })
        × Verified p t
  unfolding sign verify
  verify-sign keys k p m t h i e =
      go (codec.serialize_message m.message_type m.sender m.timestamp) refl e
    where
      go :
          (r : Outcome CryptoError (List ℕ))
          → codec.serialize_message m.message_type m.sender m.timestamp ≡ r
          → continue r (λ bytes n. (ok tt, record n { signature = some (scheme.sign k bytes) })) m
            ≡ (ok tt, t)
          → (verify scheme codec p t ≡ ok true)
            × (t ≡ record m { signature = t.signature })
            × Verified p t
      go (ok bytes) q f =
          let signed : record m { signature = some (scheme.sign k bytes) } ≡ t = cc in
          let pair : scheme.public_of k ≡ p = generated_pair keys k p h i in
          subst
            (λ x.
              (verify scheme codec p x ≡ ok true)
              × (x ≡ record m { signature = x.signature })
              × Verified p x)
            signed
            (rw (q, ← pair, scheme.verify-sign k bytes) refl, refl, any_signature p _ bytes q)
      go (err x) q f = absurd cc
      go panic q f = absurd cc

  -- The hash of a transaction does not depend on its signature; signing changes nothing but that, and a
  -- transaction that was signed passes `verify`, but so it does with any other signature.
  pub verify_transaction-sign :
      (k : Key) (tx t : Transaction) (other : List ℕ)
      → sign_transaction scheme codec k tx ≡ (ok tt, t)
      → (hash scheme codec t ≡ hash scheme codec tx)
        × (verify_transaction t ≡ true)
        × (verify_transaction (record tx { signature = some other }) ≡ true)
  unfolding sign_transaction hash verify_transaction
  verify_transaction-sign k tx t other e = go (hash scheme codec tx) e
    where
      go :
          (r : Outcome CryptoError (List ℕ))
          → continue r (λ bytes n. (ok tt, record n { signature = some (scheme.sign k bytes) })) tx
            ≡ (ok tt, t)
          → (hash scheme codec t ≡ hash scheme codec tx)
            × (verify_transaction t ≡ true)
            × (verify_transaction (record tx { signature = some other }) ≡ true)
      go (ok bytes) f =
          let signed : record tx { signature = some (scheme.sign k bytes) } ≡ t = cc in
          subst
            (λ x.
              (hash scheme codec x ≡ hash scheme codec tx)
              × (verify_transaction x ≡ true)
              × (verify_transaction (record tx { signature = some other }) ≡ true))
            signed (refl, refl, refl)
      go (err x) f = absurd cc
      go panic f = absurd cc
