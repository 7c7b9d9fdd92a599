-- ===== src/Network/Message.antt =====
-- src/network/message.rs: blocks and transactions; src/network/mod.rs: the errors. A string is the
-- list of its bytes, and so is a hash. Bincode and Blake3 are parameters: `serialize` gives `none`
-- where bincode fails.
use zkmips_zkvm_impl_in_rust.Base.{
  ℕ, Bool, true, false, List, [], ◌∷◌, ◌++◌, Option, none, some, ◌==◌, bytes_eq, if◌then◌else◌,
}

pub record Transaction : Type 0 where
  pub nonce : ℕ
  pub from : List ℕ
  pub to : List ℕ
  pub value : ℕ
  pub payload : List ℕ
  pub signature : Option (List ℕ)

pub record BlockHeader : Type 0 where
  pub parent_hash : List ℕ
  pub timestamp : ℕ
  pub number : ℕ
  pub author : List ℕ
  pub transactions_root : List ℕ
  pub state_root : List ℕ
  pub receipts_root : List ℕ

pub record Block : Type 0 where
  pub header : BlockHeader
  pub transactions : List Transaction
  pub state_root : List ℕ
  pub receipts_root : List ℕ

-- Errors by the method that makes them and its message.
pub data NetworkError : Type 0 where
  invalid_transaction invalid_block invalid_validator : NetworkError
  finalization_timeout no_valid_proposer serialization_failed : NetworkError
  max_peers_reached peer_is_banned : NetworkError
  request_failed_after : ℕ → NetworkError

-- What the code calls of bincode and Blake3.
pub record Codec : Type 0 where
  pub blake3 : List ℕ → List ℕ
  pub serialize_header : BlockHeader → List ℕ
  pub serialize_transaction : Transaction → Option (List ℕ)
  pub default_hash : List ℕ

-- `Transaction::verify`
unfoldable pub verify_transaction : Transaction → Bool
verify_transaction tx = elim tx.signature [ some signature ↦ true | none ↦ false ]

module _ (codec : Codec) where
  -- `Block::hash`
  unfoldable pub hash : Block → List ℕ
  hash block = codec.blake3 (codec.serialize_header block.header)

  -- The bytes that are hashed, or `none` where `unwrap` panics.
  unfoldable pub transactions_bytes : List Transaction → Option (List ℕ)
  transactions_bytes [] = some []
  transactions_bytes (tx ∷ txs) =
      let rest = transactions_bytes txs in
      elim (codec.serialize_transaction tx) [
        | none ↦ none
        | some tx_bytes ↦ elim rest [ none ↦ none | some more ↦ some (tx_bytes ++ more) ]
      ]

  unfoldable pub compute_transactions_root : List Transaction → Option (List ℕ)
  unfolding transactions_bytes
  compute_transactions_root txs = elim (transactions_bytes txs) [
    | none ↦ none
    | some all ↦ some (codec.blake3 all)
  ]

  abbrev pub verify_all : List Transaction → Bool
  verify_all [] = true
  verify_all (tx ∷ txs) = if verify_transaction tx then verify_all txs else false

  -- `Block::verify`; `none` where the root panics.
  unfoldable pub verify : Block → Option Bool
  unfolding compute_transactions_root verify_transaction
  verify block = elim (compute_transactions_root block.transactions) [
    | none ↦ none
    | some tx_root ↦
        some (
          if tx_root == block.header.transactions_root
          then verify_all block.transactions
          else false)
  ]
