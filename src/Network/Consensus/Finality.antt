-- ===== src/Network/Consensus/Finality.antt =====
-- Votes enough finalize a block.
use zkmips_zkvm_impl_in_rust.Base.{
  ℕ, ◌≤◌, ◌≡◌, refl, ap, ◌∙◌, true, false, List, [], ◌∷◌, none, some, bytes_eq, nat_eq, length,
  arith, Bool-cases, inl, inr, ◌⊎◌, All, ◌==◌,
}
use zkmips_zkvm_impl_in_rust.Base.Map.{lookup, lookup-insert_self, lookup-remove_self}
use zkmips_zkvm_impl_in_rust.Network.Sets
use zkmips_zkvm_impl_in_rust.Network.Sets.{contains, Once, Within}
use zkmips_zkvm_impl_in_rust.Network.Message.{Block, Codec}
use zkmips_zkvm_impl_in_rust.Network.Consensus.{
  ConsensusConfig, ConsensusState, is_valid_validator, submit_vote, check_consensus, finalize,
  count_vote,
}
use zkmips_zkvm_impl_in_rust.Network.Consensus.Votes.{IsValid}
use zkmips_zkvm_impl_in_rust.Network.Consensus.Quorum.{
  submit_vote-cases, submit_vote-IsValid, Ballot-of,
}

-- The voters of a list of votes, each with its time.
abbrev pub voters : List (ℕ × List ℕ) → List (List ℕ)
voters [] = []
voters ((now, a) ∷ l) = a ∷ voters l

-- The votes for one block, one after the other, whatever they are answered.
unfoldable pub submit_votes :
    ConsensusConfig → List ℕ → List (ℕ × List ℕ) → ConsensusState → ConsensusState
submit_votes config h [] s = s
submit_votes config h ((now, a) ∷ l) s = submit_votes config h l (submit_vote config now a h s).1

-- The block is final, and no longer pending.
abbrev pub Final : List ℕ → Block → ConsensusState → Type 0
Final h b s =
    (lookup b.header.number s.finalized_blocks ≡ some b) × (lookup h s.pending_blocks ≡ none)

-- The block is pending, with these votes.
abbrev pub Open : List ℕ → Block → List (List ℕ) → ConsensusState → Type 0
Open h b vs s = (lookup h s.pending_blocks ≡ some b) × (lookup h s.votes ≡ some vs)

module _ (codec : Codec) (config : ConsensusConfig) (h : List ℕ) (b : Block) where
  count_vote-Final :
      (now : ℕ) (vs : List (List ℕ)) (s : ConsensusState)
      → Final h b s
      → Final h b (count_vote now h vs s)
  unfolding finalize
  count_vote-Final now vs s (f, p) = ground arith

  submit_vote-Final :
      (now : ℕ) (a : List ℕ) (s : ConsensusState)
      → Final h b s
      → Final h b (submit_vote config now a h s).1
  submit_vote-Final now a s f = elim (submit_vote-cases codec config now a h s) [
    | inl (_, e) ↦ rw e f
    | inr (inl (_, e)) ↦ rw e f
    | inr (inr (votes, _, _, e)) ↦ rw e (count_vote-Final now (Sets.add a votes) s f)
  ]

  submit_votes-Final :
      (l : List (ℕ × List ℕ)) (s : ConsensusState)
      → Final h b s
      → Final h b (submit_votes config h l s)
  unfolding submit_votes
  submit_votes-Final [] s f = f
  submit_votes-Final ((now, a) ∷ l) s f =
      submit_votes-Final l (submit_vote config now a h s).1 (submit_vote-Final now a s f)

  -- What one vote of a validator makes of a pending block.
  count_vote-Open :
      (now : ℕ) (vs us : List (List ℕ)) (s : ConsensusState)
      → Open h b vs s
      → Final h b (count_vote now h us s)
        ⊎ (Open h b us (count_vote now h us s)
            × (check_consensus (length us) (length s.validators) ≡ false))
  unfolding finalize
  count_vote-Open now vs us s (p, v) =
      elim (Bool-cases (check_consensus (length us) (length s.validators))) [
        | inl e ↦ inl (
          ground (arith, lookup-insert_self b.header.number b s.finalized_blocks),
          ground (arith, lookup-remove_self h s.pending_blocks),
        )
        | inr e ↦ inr ((ground arith, ground (arith, lookup-insert_self h us s.votes)), e)
      ]

  submit_vote-Open :
      (now : ℕ) (a : List ℕ) (vs : List (List ℕ)) (s : ConsensusState)
      → is_valid_validator config a s ≡ true
      → Open h b vs s
      → Final h b (submit_vote config now a h s).1
        ⊎ (Open h b (Sets.add a vs) (submit_vote config now a h s).1
            × (check_consensus (length (Sets.add a vs)) (length s.validators) ≡ false))
  submit_vote-Open now a vs s may o = elim (submit_vote-cases codec config now a h s) [
    | inl (not_valid, e) ↦ absurd (cc)
    | inr (inl (no_votes, e)) ↦ absurd (cc (no_votes, o.1))
    | inr (inr (votes, _, there, e)) ↦
        let same : votes ≡ vs = cc (there, o.1) in
        rw e (rw same (count_vote-Open now vs (Sets.add a vs) s o))
  ]

  submit_vote-validators :
      (now : ℕ) (a : List ℕ) (s : ConsensusState)
      → (submit_vote config now a h s).1.validators ≡ s.validators
  unfolding submit_vote finalize
  submit_vote-validators now a s = ground arith

  -- Whoever was valid is valid after a vote.
  still_valid :
      (now : ℕ) (a : List ℕ) (s : ConsensusState) (l : List (List ℕ))
      → All (λ x. is_valid_validator config x s ≡ true) l
      → All (λ x. is_valid_validator config x (submit_vote config now a h s).1 ≡ true) l
  unfolding is_valid_validator
  still_valid now a s [] v = tt
  still_valid now a s (x ∷ l) (v, vs) =
      (rw (submit_vote-validators now a s, is_valid_validator) v, still_valid now a s l vs)

  -- What votes of validators make of a pending block whose votes were not enough: they are not enough
  -- still, and every voter is among them.
  submit_votes-Open :
      (l : List (ℕ × List ℕ)) (vs : List (List ℕ)) (n : ℕ) (s : ConsensusState)
      → length s.validators ≡ n
      → All (λ x. is_valid_validator config x s ≡ true) (voters l)
      → Open h b vs s
      → check_consensus (length vs) n ≡ false
      → Final h b (submit_votes config h l s)
        ⊎ ((us : List (List ℕ)) × Open h b us (submit_votes config h l s)
            × (check_consensus (length us) n ≡ false)
            × Within vs us
            × Within (voters l) us)
  unfolding submit_votes contains
  submit_votes-Open [] vs n s en v o c = inr (vs, o, c, (λ a q. q), (λ a q. absurd (ground arith)))
  submit_votes-Open ((now, a) ∷ l) vs n s en (v, more) o c =
      elim (submit_vote-Open now a vs s v o) [
        | inl f ↦ inl (submit_votes-Final l _ f)
        | inr (o1, c1) ↦
            elim (submit_votes-Open l (Sets.add a vs) n (submit_vote config now a h s).1
              (ap length (submit_vote-validators now a s) ∙ en)
              (still_valid now a s (voters l) more) o1 (rw (← en) c1)) [
                | inl f ↦ inl f
                | inr (us, o2, c2, w, wl) ↦ inr (
                  us,
                  o2,
                  c2,
                  (λ x q. w x (ground (arith, Sets.contains-add a x vs, bytes_eq.beq_iff a x))),
                  (λ x q. elim (Bool-cases (a == x)) [
                    | inl same ↦ w x (ground (arith, Sets.contains-add a x vs))
                    | inr apart ↦ wl x (ground arith)
                  ]),
                )
              ]
      ]

  submit_votes-IsValid :
      (l : List (ℕ × List ℕ)) (s : ConsensusState)
      → IsValid codec config s
      → IsValid codec config (submit_votes config h l s)
  unfolding submit_votes
  submit_votes-IsValid [] s v = v
  submit_votes-IsValid ((now, a) ∷ l) s v =
      submit_votes-IsValid l (submit_vote config now a h s).1
        (submit_vote-IsValid codec config now a h s v)

  submit_votes-validators :
      (l : List (ℕ × List ℕ)) (s : ConsensusState)
      → (submit_votes config h l s).validators ≡ s.validators
  unfolding submit_votes
  submit_votes-validators [] s = refl
  submit_votes-validators ((now, a) ∷ l) s =
      submit_votes-validators l (submit_vote config now a h s).1 ∙ submit_vote-validators now a s

  check_consensus-more :
      (k m n : ℕ) → k ≤ m → check_consensus k n ≡ true → check_consensus m n ≡ true
  unfolding check_consensus
  check_consensus-more k m n le c = ground arith

  add-Within :
      (a : List ℕ) (vs us l : List (List ℕ))
      → Within (Sets.add a vs) us
      → Within l us
      → Within (a ∷ l) us
  unfolding contains
  add-Within a vs us l w wl x q = elim (Bool-cases (a == x)) [
    | inl same ↦ w x (ground (arith, Sets.contains-add a x vs))
    | inr apart ↦ wl x (ground arith)
  ]

  quorum-Within :
      (l us : List (List ℕ)) (n : ℕ)
      → Once l
      → Once us
      → Within l us
      → check_consensus (length l) n ≡ true
      → check_consensus (length us) n ≡ true
  quorum-Within l us n ol ou w c =
      check_consensus-more (length l) (length us) n (Sets.length-Within l us ol ou w) c

  -- A pending block is finalized once different validators with stake enough, more than two thirds of
  -- all, have voted for it by calls of `submit_vote` with no other call between them, in whatever order
  -- and at whatever times, and whoever has voted before.
  pub Final-by_votes :
      (l : List (ℕ × List ℕ)) (vs : List (List ℕ)) (s : ConsensusState)
      → IsValid codec config s
      → Open h b vs s
      → Once (voters l)
      → All (λ x. is_valid_validator config x s ≡ true) (voters l)
      → check_consensus (length (voters l)) (length s.validators) ≡ true
      → Final h b (submit_votes config h l s)
  unfolding submit_votes check_consensus
  Final-by_votes [] vs s v o once may enough = absurd (ground arith)
  Final-by_votes ((now, a) ∷ l) vs s v o once may enough =
      elim (submit_vote-Open now a vs s may.0 o) [
        | inl f ↦ submit_votes-Final l _ f
        | inr (o1, c1) ↦
            let s1 = (submit_vote config now a h s).1 in
            let t = submit_votes config h l s1 in
            let good = submit_votes-IsValid l s1 (submit_vote-IsValid codec config now a h s v) in
            elim (submit_votes-Open l (Sets.add a vs) (length s.validators) s1
              (ap length (submit_vote-validators now a s)) (still_valid now a s (voters l) may.1) o1
              c1) [
                | inl f ↦ f
                | inr (us, o2, c2, w, wl) ↦
                    let all_there = add-Within a vs us (voters l) w wl in
                    let ballot = Ballot-of codec config h us t good o2.1 in
                    let reached =
                      quorum-Within (a ∷ voters l) us (length s.validators) once ballot.once
                        all_there enough in
                    absurd (cc (reached, c2))
              ]
      ]
