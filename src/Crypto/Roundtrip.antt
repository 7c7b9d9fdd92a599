-- ===== src/Crypto/Roundtrip.antt =====
-- src/crypto/mod.rs: what is signed verifies, and what is encrypted is decrypted.
use zkmips_zkvm_impl_in_rust.Base.{
  ℕ, ◌+◌, ◌≤◌, ◌≡◌, refl, ap, subst, true, false, List, [], ◌∷◌, ◌++◌, Option, none, some, ltb,
  length, take, drop, length-append, take-append, drop-append, ok, arith,
}
use zkmips_zkvm_impl_in_rust.Crypto
use zkmips_zkvm_impl_in_rust.Crypto.{
  CryptoError, invalid_key, encryption_failed, decryption_failed, SignatureScheme, CryptoEngine,
  generate_keypair, Cipher, encrypt, decrypt, or_error, with_nonce,
}

module _ {Key PublicKey Signature : Type 0} (scheme : SignatureScheme Key PublicKey Signature) where
  -- A new engine for which key pairs were generated, one after the other.
  unfoldable pub generated : List Key → CryptoEngine Key PublicKey
  unfolding generate_keypair Crypto.new
  generated [] = Crypto.new scheme
  generated (k ∷ keys) = (generate_keypair scheme k (generated keys)).1

  -- Whatever key pairs were generated, an engine that signs a message verifies the signature.
  pub verify-sign :
      (keys : List Key) (message : List ℕ) (s : Signature)
      → Crypto.sign scheme (generated keys) message ≡ ok s
      → Crypto.verify scheme (generated keys) message s ≡ ok true
  unfolding generated Crypto.sign Crypto.verify Crypto.new generate_keypair
  verify-sign [] message s e = absurd cc
  verify-sign (k ∷ keys) message s e =
      let q : scheme.sign k message ≡ s = cc in rw (← q) (ap ok (scheme.verify-sign k message))

decrypt-prefixed :
    (cipher : Cipher) (nonce body plaintext aad : List ℕ)
    → length nonce ≡ 12
    → cipher.encrypt nonce plaintext aad ≡ some body
    → (length (nonce ++ body) ≡ length plaintext + 28)
      × (decrypt cipher (nonce ++ body) aad ≡ ok plaintext)
unfolding decrypt
decrypt-prefixed cipher nonce body plaintext aad n p =
    let enough : 12 ≤ length (nonce ++ body) = omega (arith, length-append nonce body) in
    let long : ltb (length (nonce ++ body)) 12 ≡ false = ground arith in
    let front : take 12 (nonce ++ body) ≡ nonce = rw n at (take-append nonce body) in
    let back : drop 12 (nonce ++ body) ≡ body = rw n at (drop-append nonce body) in
    (
      omega (arith, length-append nonce body, cipher.length-encrypt nonce plaintext aad body p),
      rw (long, front, back, cipher.decrypt-encrypt nonce plaintext aad body p) refl,
    )

-- What `encrypt` makes with a nonce of twelve bytes is longer than the message by 28 bytes, the nonce
-- and the tag, and `decrypt` with the same
-- associated data gives the message back.
pub decrypt-encrypt :
    (cipher : Cipher) (nonce plaintext aad c : List ℕ)
    → length nonce ≡ 12
    → encrypt cipher nonce plaintext aad ≡ ok c
    → (length c ≡ length plaintext + 28) × (decrypt cipher c aad ≡ ok plaintext)
unfolding encrypt
decrypt-encrypt cipher nonce plaintext aad c n e = go (cipher.encrypt nonce plaintext aad) refl e
  where
    go :
        (o : Option (List ℕ))
        → cipher.encrypt nonce plaintext aad ≡ o
        → with_nonce nonce (or_error encryption_failed o) ≡ ok c
        → (length c ≡ length plaintext + 28) × (decrypt cipher c aad ≡ ok plaintext)
    go none p q = absurd cc
    go (some body) p q =
        let split : nonce ++ body ≡ c = cc in
        let lemma = decrypt-prefixed cipher nonce body plaintext aad n p in
        subst (λ x. (length x ≡ length plaintext + 28) × (decrypt cipher x aad ≡ ok plaintext))
          split lemma
