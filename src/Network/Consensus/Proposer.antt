-- ===== src/Network/Consensus/Proposer.antt =====
-- Who proposes in a round.
use zkmips_zkvm_impl_in_rust.Base.{
  ℕ, ◌+◌, ◌-◌, ◌*◌, ◌%◌, ◌^◌, ◌≤◌, ◌<◌, ◌≡◌, refl, Bool, List, [], ◌∷◌, ◌++◌, length, arith, ok,
  err, panic,
}
use zkmips_zkvm_impl_in_rust.Base.Word.{add_usize}
use native.Mathlib.Decide.{dec_lt}
use zkmips_zkvm_impl_in_rust.Base.{inl, inr, ◌⊎◌, bytes_eq, nat_eq}
use zkmips_zkvm_impl_in_rust.Network.Message.{no_valid_proposer, Codec}
use zkmips_zkvm_impl_in_rust.Network.Consensus.{
  ConsensusConfig, ValidatorInfo, ConsensusState, sum_stakes, walk, select_proposer, process_round,
}

unfoldable pub total : List (List ℕ × ValidatorInfo) → ℕ
total [] = 0
total ((a, info) ∷ rest) = info.stake + total rest

sum_stakes_lem :
    (checks : Bool) (n : ℕ) (m : List (List ℕ × ValidatorInfo))
    → n + total m < 2 ^ 64
    → sum_stakes checks n m ≡ ok (n + total m)
unfolding sum_stakes total add_usize
sum_stakes_lem checks n [] lt = ground arith
sum_stakes_lem checks n ((a, info) ∷ m) lt =
    ground (arith, sum_stakes_lem checks (n + info.stake) m (omega arith))

-- The stakes lie end to end; the value falls into that of the proposer.
pub record Chosen (m : List (List ℕ × ValidatorInfo)) (value : ℕ) (a : List ℕ) : Type 0 where
  pub before : List (List ℕ × ValidatorInfo)
  pub info : ValidatorInfo
  pub behind : List (List ℕ × ValidatorInfo)
  pub split : m ≡ before ++ ((a, info) ∷ behind)
  pub from : total before ≤ value
  pub to : value < total before + info.stake

walk_lem :
    (value : ℕ) (m : List (List ℕ × ValidatorInfo))
    → ((a : List ℕ) × (walk value m ≡ ok a) × Chosen m value a)
      ⊎ ((walk value m ≡ err no_valid_proposer) × (total m ≤ value))
unfolding walk total
walk_lem value [] = inr (refl, omega arith)
walk_lem value ((a, info) ∷ m) = elim (dec_lt value info.stake) [
  | yes lt ↦ inl (
    a,
    ground arith,
    record {
      before = [];
      info = info;
      behind = m;
      split = refl;
      from = omega arith;
      to = omega arith;
    },
  )
  | no ge ↦ elim (walk_lem (value - info.stake) m) [
    | inl (b, e, c) ↦ inl (
      b,
      ground (arith, e),
      record {
        before = (a, info) ∷ c.before;
        info = c.info;
        behind = c.behind;
        split = ground (arith, c.split);
        from = omega (arith, c.from);
        to = omega (arith, c.to);
      },
    )
    | inr (e, le) ↦ inr (ground (arith, e), omega arith)
  ]
]

-- With no validators the choice of a proposer panics, by the remainder by zero, and so does the
-- round. An engine has none when it is made.
pub no_validators_panic :
    (codec : Codec) (config : ConsensusConfig) (checks : Bool) (timestamp : ℕ) (s : ConsensusState)
    → s.validators ≡ []
    → (select_proposer checks s ≡ panic)
      × ((process_round codec config checks timestamp s).0 ≡ panic)
unfolding select_proposer process_round add_usize
no_validators_panic codec config checks timestamp s e = (ground arith, ground arith)

-- With validators whose stakes do not overflow together, the proposer is the one into whose stake
-- the round times the total stake, modulo the number of validators, falls, where the stakes lie
-- end to end; it is an error only where that number is at least all the stakes together.
pub select_proposer_lem :
    (checks : Bool) (s : ConsensusState) (a : List ℕ) (info : ValidatorInfo)
    (rest : List (List ℕ × ValidatorInfo))
    → s.validators ≡ (a, info) ∷ rest
    → total s.validators < 2 ^ 64
    → ((b : List ℕ) × (select_proposer checks s ≡ ok b)
        × Chosen s.validators (s.current_round * total s.validators % length s.validators) b)
      ⊎ ((select_proposer checks s ≡ err no_valid_proposer)
          × (total s.validators ≤ s.current_round * total s.validators % length s.validators))
unfolding select_proposer
select_proposer_lem checks s a info rest e lt =
    elim (walk_lem (s.current_round * total s.validators % length s.validators) s.validators) [
      | inl (b, w, c) ↦
          inl (b, ground (arith, sum_stakes_lem checks 0 s.validators (omega arith), w), c)
      | inr (w, le) ↦
          inr (ground (arith, sum_stakes_lem checks 0 s.validators (omega arith), w), le)
    ]

-- Where the stakes do not overflow together and the first validator has at least as much stake as
-- there are validators, it proposes, whatever the round and the stake of the others.
pub first_always_proposes :
    (checks : Bool) (s : ConsensusState) (a : List ℕ) (info : ValidatorInfo)
    (rest : List (List ℕ × ValidatorInfo))
    → s.validators ≡ (a, info) ∷ rest
    → total s.validators < 2 ^ 64
    → length s.validators ≤ info.stake
    → select_proposer checks s ≡ ok a
unfolding select_proposer walk
first_always_proposes checks s a info rest e lt le =
    ground (arith, sum_stakes_lem checks 0 s.validators (omega arith))
