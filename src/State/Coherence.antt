-- ===== src/State/Coherence.antt =====
-- src/state/mod.rs: the cache of accounts against the trie.
use zkmips_zkvm_impl_in_rust.Base.{
  ℕ, false, ◌≡◌, inl, inr, refl, ap, List, Option, none, some, Outcome, ok, err, panic, Attempt,
  done, bytes_eq, leb, if_split,
}
use zkmips_zkvm_impl_in_rust.Base.Map.{lookup, insert, lookup-insert_cases}
use zkmips_zkvm_impl_in_rust.State.{
  StateError, trie_error, invalid_state, Account, Services, StateManager,
}
use zkmips_zkvm_impl_in_rust.Base.Method.{next}
use zkmips_zkvm_impl_in_rust.State.Calls.{cached, cached_or}
use zkmips_zkvm_impl_in_rust.State.Reads.{get_account, read_account, decoded, cache_account}
use zkmips_zkvm_impl_in_rust.State.Trie
use zkmips_zkvm_impl_in_rust.State.Trie.{TrieError, TrieLibrary, MerklePatriciaTrie, map_err}

module _ {Db View S N : Type 0} (library : TrieLibrary Db View) (services : Services Db S N) where
  abbrev deserialized : Option Account → Outcome StateError (Option Account)
  deserialized (some account) = ok (some account)
  deserialized none = err invalid_state

  -- An account read from the trie, without a cache.
  unfoldable pub account_of :
      Outcome TrieError (Option (List ℕ)) → Outcome StateError (Option Account)
  account_of (ok none) = ok none
  account_of (ok (some bytes)) = deserialized (services.deserialize bytes)
  account_of (err e) = err (trie_error e)
  account_of panic = panic

  pub account_of-some :
      (r : Outcome TrieError (Option (List ℕ))) (account : Account)
      → account_of r ≡ ok (some account)
      → (bytes : List ℕ) × (r ≡ ok (some bytes))
  unfolding account_of
  account_of-some (ok none) account h = absurd cc
  account_of-some (ok (some bytes)) account h = (bytes, refl)
  account_of-some (err e) account h = absurd cc
  account_of-some panic account h = absurd cc

  -- Each account in the cache is the one in the trie.
  abbrev pub Coherent : StateManager Db S N → Type 0
  Coherent m =
      (a : List ℕ) (account : Account) (n : ℕ)
      → lookup a m.cached_accounts ≡ some (account, n)
      → account_of (Trie.get library m.trie a) ≡ ok (some account)

  -- What a call answers, and that the manager after it has the same trie and is coherent.
  abbrev Answers :
      StateManager Db S N
      → Outcome StateError (Option Account)
      → Attempt (Outcome StateError (Option Account) × StateManager Db S N)
      → Type 0
  Answers m r x = (t : StateManager Db S N) × (x ≡ done (r, t)) × (t.trie ≡ m.trie) × Coherent t

  cached-Coherent :
      (a : List ℕ) (account : Account) (n : ℕ) (m : StateManager Db S N)
      → Coherent m
      → account_of (Trie.get library m.trie a) ≡ ok (some account)
      → Coherent (record m { cached_accounts = insert a (account, n) m.cached_accounts })
  cached-Coherent a account n m h e b other k l =
      elim (lookup-insert_cases a b (account, n) (other, k) m.cached_accounts l) [
        | inl (ab, same) ↦ rw (← ab) (rw (← ap (λ p. p.0) same) e)
        | inr (apart, found) ↦ h b other k found
      ]

  decoded-Answers :
      (a : List ℕ) (n : ℕ) (m : StateManager Db S N) (bytes : List ℕ) (d : Option Account)
      → Coherent m
      → Trie.get library m.trie a ≡ ok (some bytes)
      → services.deserialize bytes ≡ d
      → Answers m (account_of (ok (some bytes))) (decoded library services a n (some bytes) m)
  unfolding account_of decoded cache_account
  decoded-Answers a n m bytes none h e q = rw q (m, refl, refl, h)
  decoded-Answers a n m bytes (some account) h e q = rw q (
    record m { cached_accounts = insert a (account, n) m.cached_accounts },
    refl,
    refl,
    cached-Coherent a account n m h (rw (e, q) refl),
  )

  read-Answers :
      (a : List ℕ) (n : ℕ) (m : StateManager Db S N) (r : Outcome TrieError (Option (List ℕ)))
      → Coherent m
      → Trie.get library m.trie a ≡ r
      → Answers m
          (account_of r)
          (next (done (map_err trie_error r, m)) (decoded library services a n))
  unfolding account_of decoded
  read-Answers a n m (ok none) h e = (m, refl, refl, h)
  read-Answers a n m (ok (some bytes)) h e =
      decoded-Answers a n m bytes (services.deserialize bytes) h e refl
  read-Answers a n m (err x) h e = (m, refl, refl, h)
  read-Answers a n m panic h e = (m, refl, refl, h)

  read_account-Answers :
      (a : List ℕ) (n : ℕ) (m : StateManager Db S N)
      → Coherent m
      → Answers m
          (account_of (Trie.get library m.trie a))
          (read_account library services false a n m)
  unfolding read_account
  read_account-Answers a n m h = read-Answers a n m (Trie.get library m.trie a) h refl

  lookup-Answers :
      (a : List ℕ) (n : ℕ) (m : StateManager Db S N) (x : Option (Account × ℕ))
      → Coherent m
      → lookup a m.cached_accounts ≡ x
      → Answers m
          (account_of (Trie.get library m.trie a))
          (cached_or (cached x n) (read_account library services false a n) m)
  unfolding cached
  lookup-Answers a n m none h e = read_account-Answers a n m h
  lookup-Answers a n m (some (account, last)) h e =
      if_split
        (λ o.
          Answers m (account_of (Trie.get library m.trie a))
            (cached_or o (read_account library services false a n) m))
        (leb n last) (some account) none (λ q. rw (h a account last e) (m, refl, refl, h))
        (λ q. read_account-Answers a n m h)

  -- `get_account` answers, at any number of a block, what reading the trie answers, and the cache stays
  -- coherent: an entry changes how the account is found, not which it is.
  pub get_account-Coherent :
      (a : List ℕ) (n : ℕ) (m : StateManager Db S N)
      → Coherent m
      → (t : StateManager Db S N) × (get_account library services false a n m
          ≡ done (account_of (Trie.get library m.trie a), t))
        × (t.trie ≡ m.trie)
        × Coherent t
  unfolding get_account
  get_account-Coherent a n m h = lookup-Answers a n m (lookup a m.cached_accounts) h refl
