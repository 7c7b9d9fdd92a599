-- ===== src/Crypto/Tests.antt =====
-- The theorems on keys and ciphers at work: a signature that names the key and the message, and a cipher
-- that puts a tag to the message.
use zkmips_zkvm_impl_in_rust.Base.{
  ℕ, ◌+◌, drop, replicate, arith, ◌≡◌, refl, true, List, [], ◌∷◌, ◌++◌, none, some, ok, length,
  bytes_beq, bytes_beq_iff,
}
use zkmips_zkvm_impl_in_rust.Crypto
use zkmips_zkvm_impl_in_rust.Crypto.{
  verification_failed, Cipher, SignatureScheme, encrypt, decrypt, generate_keypair,
}
use zkmips_zkvm_impl_in_rust.Crypto.Roundtrip.{decrypt-encrypt, generated}
use zkmips_zkvm_impl_in_rust.Network.Message.{Transaction, verify_transaction}
use zkmips_zkvm_impl_in_rust.Network.Manager.{ping}
use zkmips_zkvm_impl_in_rust.Network.Signing.{
  Message, SignedCodec, sign, verify, hash, sign_transaction,
}
use zkmips_zkvm_impl_in_rust.Network.Signing.Roundtrip.{
  Verified, verify-sign, verify_transaction-sign,
}

abbrev tag : List ℕ
tag = replicate 16 0

untagged : (nonce m aad c : List ℕ) → some (tag ++ m) ≡ some c → some (drop 16 c) ≡ some m
unfolding drop replicate
untagged nonce m aad c e = let q : tag ++ m ≡ c = cc in rw (← q) refl

tagged_length : (nonce m aad c : List ℕ) → some (tag ++ m) ≡ some c → length c ≡ length m + 16
unfolding replicate
tagged_length nonce m aad c e = let q : tag ++ m ≡ c = cc in rw (← q) (omega arith)

abbrev tagged : Cipher
tagged = record {
  encrypt = λ nonce m aad. some (tag ++ m);
  decrypt = λ nonce c aad. some (drop 16 c);
  decrypt-encrypt = untagged;
  length-encrypt = tagged_length;
}

abbrev nonce : List ℕ
nonce = 1 ∷ 2 ∷ 3 ∷ 4 ∷ 5 ∷ 6 ∷ 7 ∷ 8 ∷ 9 ∷ 10 ∷ 11 ∷ 12 ∷ []

decrypt-encrypt_example :
    (length (nonce ++ (tag ++ (7 ∷ 8 ∷ []))) ≡ 2 + 28)
    × (decrypt tagged (nonce ++ (tag ++ (7 ∷ 8 ∷ []))) (0 ∷ []) ≡ ok (7 ∷ 8 ∷ []))
unfolding encrypt
decrypt-encrypt_example =
    decrypt-encrypt tagged nonce (7 ∷ 8 ∷ []) (0 ∷ []) (nonce ++ (tag ++ (7 ∷ 8 ∷ []))) refl refl

-- Both keys are one number.
abbrev named : SignatureScheme ℕ ℕ (List ℕ)
named = record {
  public_of = λ k. k;
  sign = λ k m. k ∷ m;
  verify = λ k m s. bytes_beq (k ∷ m) s;
  verify-sign = λ k m. (bytes_beq_iff (k ∷ m) (k ∷ m)).1 refl;
}

abbrev codec : SignedCodec
codec = record {
  serialize_message = λ t s n. ok (n ∷ s);
  serialize_transaction = λ n f t v d. some (n ∷ v ∷ d);
  blake3 = λ l. l;
  refused = verification_failed;
}

abbrev unsigned : Message
unsigned = record { message_type = ping; sender = 65 ∷ []; timestamp = 3; signature = none }

abbrev signed : Message
signed = record unsigned { signature = some (9 ∷ 3 ∷ 65 ∷ []) }

verify-sign_example :
    (verify named codec 9 signed ≡ ok true)
    × (signed ≡ record unsigned { signature = signed.signature })
    × Verified named codec 9 signed
unfolding generated Crypto.new generate_keypair sign
verify-sign_example = verify-sign named codec (9 ∷ 4 ∷ []) 9 9 unsigned signed refl refl refl

abbrev transfer : Transaction
transfer = record { nonce = 1; from = []; to = []; value = 5; payload = []; signature = none }

abbrev signed_transfer : Transaction
signed_transfer = record transfer { signature = some (9 ∷ 1 ∷ 5 ∷ []) }

transaction_verified :
    (hash named codec signed_transfer ≡ hash named codec transfer)
    × (verify_transaction signed_transfer ≡ true)
    × (verify_transaction (record transfer { signature = some (0 ∷ []) }) ≡ true)
unfolding sign_transaction hash
transaction_verified = verify_transaction-sign named codec 9 transfer signed_transfer (0 ∷ []) refl
