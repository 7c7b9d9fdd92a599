-- ===== src/Network/Signing.antt =====
-- src/network/message.rs: `Message` and the signing of messages and transactions. Bincode is a
-- parameter; its failure is an error for a message and a panic for a transaction.
pub mod Roundtrip
use zkmips_zkvm_impl_in_rust.Base.{
  ℕ, Bool, true, false, List, Option, none, some, Outcome, ok, err, panic, Exec, pure, lift, ◌>>=◌,
}
use zkmips_zkvm_impl_in_rust.Crypto.{CryptoError, invalid_signature, SignatureScheme}
use zkmips_zkvm_impl_in_rust.Network.Message.{Transaction}
use zkmips_zkvm_impl_in_rust.Network.Manager.{MessageType}

pub record Message : Type 0 where
  pub message_type : MessageType
  pub sender : List ℕ
  pub timestamp : ℕ
  pub signature : Option (List ℕ)

-- Bincode on the signed parts, and Blake3.
pub record SignedCodec : Type 0 where
  pub serialize_message : MessageType → List ℕ → ℕ → Outcome CryptoError (List ℕ)
  pub serialize_transaction : ℕ → List ℕ → List ℕ → ℕ → List ℕ → Option (List ℕ)
  pub blake3 : List ℕ → List ℕ
  -- What the `?` of `Message::verify` makes of the error with which k256 refuses a signature.
  pub refused : CryptoError

-- `Message::new`, at the time of the clock.
unfoldable pub new : ℕ → MessageType → List ℕ → Message
new now message_type sender = record {
  message_type = message_type;
  sender = sender;
  timestamp = now;
  signature = none;
}

module _ {Key PublicKey : Type 0} (scheme : SignatureScheme Key PublicKey (List ℕ))
    (codec : SignedCodec) where
  unfoldable pub sign : Key → Exec CryptoError Message Unit
  sign key m =
      (do
        bytes ← lift (codec.serialize_message m.message_type m.sender m.timestamp)
        (λ m. (ok tt, record m { signature = some (scheme.sign key bytes) })))
        m

  -- `signature.as_ref().ok_or(...)`
  abbrev pub signature_of : Option (List ℕ) → Outcome CryptoError (List ℕ)
  signature_of (some signature) = ok signature
  signature_of none = err invalid_signature

  -- `key.verify(..)?`: a signature that is refused is an error.
  abbrev pub accepted : Bool → Outcome CryptoError Bool
  accepted true = ok true
  accepted false = err codec.refused

  unfoldable pub verify : PublicKey → Message → Outcome CryptoError Bool
  verify key m =
      ((do
        signature ← lift (signature_of m.signature)
        bytes ← lift (codec.serialize_message m.message_type m.sender m.timestamp)
        lift (accepted (scheme.verify key bytes signature)))
        m).0

  -- The bytes that `unwrap` gives.
  abbrev pub unwrap : {E A : Type 0} → Option A → Outcome E A
  unwrap (some a) = ok a
  unwrap none = panic

  -- `Transaction::hash`
  unfoldable pub hash : Transaction → Outcome CryptoError (List ℕ)
  hash tx = elim (unwrap (codec.serialize_transaction tx.nonce tx.from tx.to tx.value tx.payload)) [
    | ok bytes ↦ ok (codec.blake3 bytes)
    | err e ↦ err e
    | panic ↦ panic
  ]

  -- `Transaction::sign`
  unfoldable pub sign_transaction : Key → Exec CryptoError Transaction Unit
  unfolding hash
  sign_transaction key tx =
      (do
        bytes ← lift (hash tx)
        (λ tx. (ok tt, record tx { signature = some (scheme.sign key bytes) })))
        tx
