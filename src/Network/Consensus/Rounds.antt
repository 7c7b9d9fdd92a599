-- ===== src/Network/Consensus/Rounds.antt =====
-- What goes into the block of a round, and what becomes of it; and the cleaning behind it.
use zkmips_zkvm_impl_in_rust.Base.{
  ℕ, suc, ◌+◌, ◌-◌, ◌^◌, ◌≤◌, ◌<◌, ◌≡◌, refl, ap, Bool, List, [], ◌∷◌, ◌++◌, none, some, ltb,
  length, drop, subst, arith, ok, err, if◌then◌else◌, bytes_eq, nat_eq, inl, inr, ◌⊎◌, Option-cases,
  Bool-cases,
}
use zkmips_zkvm_impl_in_rust.Base.Map.{lookup, contains_key}
use zkmips_zkvm_impl_in_rust.Base.Word.{add_usize}
use zkmips_zkvm_impl_in_rust.Network.Message.{
  Transaction, Block, serialization_failed, Codec, compute_transactions_root, transactions_bytes,
}
use zkmips_zkvm_impl_in_rust.Network.Consensus.{
  ConsensusConfig, ConsensusState, collect_transactions, create_block, cleanup, trim,
  get_parent_hash,
}
use zkmips_zkvm_impl_in_rust.Network.Consensus.Votes.{contains-retain}

module _ (codec : Codec) where
  -- The bytes of the transactions together, those that cannot be serialized left out.
  unfoldable pub weight : List Transaction → ℕ
  weight [] = 0
  weight (tx ∷ txs) = elim (codec.serialize_transaction tx) [
    | none ↦ weight txs
    | some b ↦ length b + weight txs
  ]

  -- The first of the rest, if there is one, does not fit.
  abbrev pub Full : ℕ → List Transaction → Type 0
  Full room [] = Unit
  Full room (tx ∷ txs) =
      (b : List ℕ) × (codec.serialize_transaction tx ≡ some b) × (room < length b)

  -- The transactions of a block: a prefix of those that wait, as long as fits.
  pub record Filled (limit size : ℕ) (waiting txs rest : List Transaction) : Type 0 where
    pub split : waiting ≡ txs ++ rest
    pub fits : size + weight txs ≤ limit
    pub full : Full (limit - (size + weight txs)) rest
    pub hashable : (all : List ℕ) × (transactions_bytes codec txs ≡ some all)

  collect_lem :
      (limit size : ℕ) (waiting : List Transaction)
      → size ≤ limit
      → ((txs : List Transaction) × (rest : List Transaction) × (collect_transactions codec limit
              size waiting
            ≡ (ok txs, rest))
          × Filled limit size waiting txs rest)
        ⊎ ((rest : List Transaction) × (collect_transactions codec limit size waiting
              ≡ (err serialization_failed, rest))
            × (length rest ≤ length waiting))
  unfolding collect_transactions weight transactions_bytes
  collect_lem limit size [] le =
      inl (
        [],
        [],
        refl,
        record { split = refl; fits = omega arith; full = tt; hashable = ([], refl) },
      )
  collect_lem limit size (tx ∷ waiting) le = elim (Option-cases (codec.serialize_transaction tx)) [
    | inl n ↦ inr (tx ∷ waiting, ground arith, omega arith)
    | inr (b, e) ↦ elim (Bool-cases (ltb limit (size + length b))) [
      | inl big ↦ inl (
        [],
        tx ∷ waiting,
        ground arith,
        record {
          split = refl;
          fits = omega arith;
          full = (b, e, ground arith);
          hashable = ([], refl);
        },
      )
      | inr small ↦ elim (collect_lem limit (size + length b) waiting (ground arith)) [
        | inr (rest, c, less) ↦ inr (rest, ground (arith, c), omega (arith, less))
        | inl (txs, rest, c, f) ↦ inl (
          tx ∷ txs,
          rest,
          ground (arith, c),
          record {
            split = ground (arith, f.split);
            fits = ground (arith, f.fits);
            full = subst (λ n. Full n rest) (ground arith) f.full;
            hashable = (b ++ f.hashable.0, ground (arith, f.hashable.1));
          },
        )
      ]
    ]
  ]

  -- The block is made of the longest run of waiting transactions that fits, from the front, and
  -- stands above the finalized block of the current height, which is to be less than 2 ^ 64 - 1. The transactions are no longer waiting then. The
  -- only error is of a transaction that cannot be serialized; there is no panic.
  pub create_block_lem :
      (config : ConsensusConfig) (checks : Bool) (timestamp : ℕ) (proposer : List ℕ)
      (s : ConsensusState)
      → s.current_height + 1 < 2 ^ 64
      → ((b : Block) × (rest : List Transaction) × (create_block codec config checks timestamp
              proposer s
            ≡ (ok b, record s { pending_transactions = rest }))
          × Filled config.max_block_size 0 s.pending_transactions b.transactions rest
          × (compute_transactions_root codec b.transactions ≡ some b.header.transactions_root)
          × (b.header.number ≡ s.current_height + 1)
          × (b.header.parent_hash ≡ get_parent_hash codec s)
          × (b.header.author ≡ proposer))
        ⊎ ((rest : List Transaction) × (create_block codec config checks timestamp proposer s
              ≡ (err serialization_failed, record s { pending_transactions = rest })))
  unfolding create_block compute_transactions_root get_parent_hash add_usize
  create_block_lem config checks timestamp proposer s high =
      elim (collect_lem config.max_block_size 0 s.pending_transactions (omega arith)) [
        | inr (rest, c, less) ↦ inr (rest, ground (arith, c))
        | inl (txs, rest, c, f) ↦ inl (
          record {
            header = record {
              parent_hash = get_parent_hash codec s;
              timestamp = timestamp;
              number = s.current_height + 1;
              author = proposer;
              transactions_root = codec.blake3 f.hashable.0;
              state_root = codec.default_hash;
              receipts_root = codec.default_hash;
            };
            transactions = txs;
            state_root = codec.default_hash;
            receipts_root = codec.default_hash;
          },
          rest,
          ground (arith, c, f.hashable.1),
          f,
          ground (arith, f.hashable.1),
          refl,
          refl,
          refl,
        )
      ]

trim_lem : (l : List Transaction) → trim l ≡ drop (length l - 10_000) l
unfolding drop
trim_lem [] = refl
trim_lem (tx ∷ l) = elim (Bool-cases (ltb 10_000 (length (tx ∷ l)))) [
  | inl e ↦
      let next : suc (length l - 10_000) ≡ length (tx ∷ l) - 10_000 = ground arith in
      ground (arith, trim_lem l, ap (λ n. drop n (tx ∷ l)) next)
  | inr e ↦
      let none_over : 0 ≡ length (tx ∷ l) - 10_000 = ground arith in
      ground (arith, ap (λ n. drop n (tx ∷ l)) none_over)
]

-- After a cleaning the last 10000 transactions wait, or all of them if they were fewer, and there
-- are votes only for pending blocks, as there were before.
pub cleanup_lem :
    (s : ConsensusState)
    → ((cleanup s).0 ≡ ok tt)
      × ((cleanup s).1.pending_transactions
          ≡ drop (length s.pending_transactions - 10_000) s.pending_transactions)
      × ((h : List ℕ)
          → lookup h (cleanup s).1.votes
            ≡ (if contains_key h s.pending_blocks then lookup h s.votes else none))
unfolding cleanup
cleanup_lem s =
    (refl, trim_lem s.pending_transactions, λ h. contains-retain s.pending_blocks h s.votes)
