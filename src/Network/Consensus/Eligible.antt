-- ===== src/Network/Consensus/Eligible.antt =====
-- The validators whose votes count, as a set.
use zkmips_zkvm_impl_in_rust.Base.{
  ℕ, ◌≤◌, ◌≡◌, refl, Bool, false, List, [], ◌∷◌, Option, none, some, leb, bytes_eq, if◌then◌else◌,
  length, arith,
}
use zkmips_zkvm_impl_in_rust.Base.Map.{lookup, Distinct}
use zkmips_zkvm_impl_in_rust.Network.Sets.{contains, Once}
use zkmips_zkvm_impl_in_rust.Network.Consensus.{
  ConsensusConfig, ValidatorInfo, ConsensusState, is_valid_validator,
}

unfoldable pub eligible : ℕ → List (List ℕ × ValidatorInfo) → List (List ℕ)
eligible threshold [] = []
eligible threshold ((a, info) ∷ rest) =
    let others = eligible threshold rest in if leb threshold info.stake then a ∷ others else others

may_vote : ℕ → Option ValidatorInfo → Bool
may_vote threshold (some info) = leb threshold info.stake
may_vote threshold none = false

contains_eligible_lem :
    (threshold : ℕ) (a : List ℕ) (m : List (List ℕ × ValidatorInfo))
    → Distinct m
    → contains a (eligible threshold m) ≡ may_vote threshold (lookup a m)
unfolding contains eligible lookup may_vote
contains_eligible_lem threshold a [] d = refl
contains_eligible_lem threshold a ((b, info) ∷ m) d =
    ground (arith, contains_eligible_lem threshold a m d.1, bytes_eq.beq_iff b a)

pub contains-eligible :
    (config : ConsensusConfig) (a : List ℕ) (s : ConsensusState)
    → Distinct s.validators
    → contains a (eligible config.validator_stake_threshold s.validators)
      ≡ is_valid_validator config a s
unfolding is_valid_validator may_vote
contains-eligible config a s d =
    ground (arith, contains_eligible_lem config.validator_stake_threshold a s.validators d)

pub eligible-Once :
    (threshold : ℕ) (m : List (List ℕ × ValidatorInfo)) → Distinct m → Once (eligible threshold m)
unfolding eligible may_vote
eligible-Once threshold [] d = tt
eligible-Once threshold ((a, info) ∷ m) d =
    ground (arith, eligible-Once threshold m d.1, contains_eligible_lem threshold a m d.1)

pub length-eligible :
    (threshold : ℕ) (m : List (List ℕ × ValidatorInfo)) → length (eligible threshold m) ≤ length m
unfolding eligible
length-eligible threshold [] = omega arith
length-eligible threshold ((a, info) ∷ m) = ground (arith, length-eligible threshold m)
