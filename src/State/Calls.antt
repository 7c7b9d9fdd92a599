-- ===== src/State/Calls.antt =====
-- src/state/mod.rs: how the methods of `StateManager` call its parts, and the futures of a batch, which
-- are run in the order of the batch, each to its end.
use zkmips_zkvm_impl_in_rust.Base.{
  ℕ, List, [], ◌∷◌, Option, none, some, leb, if◌then◌else◌, Outcome, ok, err, panic, Exec, bytes_eq,
  nat_eq, pair_eq, Attempt, done, blocked,
}
use zkmips_zkvm_impl_in_rust.State.{StateError, trie_error, invalid_state, StateManager}
use zkmips_zkvm_impl_in_rust.Base.Method.{Method}
use zkmips_zkvm_impl_in_rust.State.Trie.{TrieError, MerklePatriciaTrie, map_err}

abbrev pub Manager : Type 0 → Type 0 → Type 0 → Type 0
Manager Db S N = StateManager Db S N

abbrev pub Op : Type 0 → Type 0 → Type 0 → Type 0 → Type 0
Op Db S N A = Method StateError (StateManager Db S N) A

-- `bincode::...map_err(...)?`
abbrev pub or_invalid : {A : Type 0} → Option A → Outcome StateError A
or_invalid (some a) = ok a
or_invalid none = err invalid_state

-- The cached value, if the block that it was cached for is not before the one asked for.
unfoldable pub cached {ℓ} : {A : Type ℓ} → Option (A × ℕ) → ℕ → Option A
cached none block_number = none
cached (some (a, last_block)) block_number = if leb block_number last_block then some a else none

-- The first error of the results, or all their values.
unfoldable pub first_error :
    {A : Type 0} → List (Outcome StateError A) → Outcome StateError (List A)
first_error [] = ok []
first_error (ok a ∷ rs) = elim (first_error rs) [
  | ok l ↦ ok (a ∷ l)
  | err e ↦ err e
  | panic ↦ panic
]
first_error (err e ∷ rs) = err e
first_error (panic ∷ rs) = panic

module _ {Db S N : Type 0} where
  -- A call of the storage, of the snapshots, or of the trie that it changes.
  abbrev pub on_storage : {A : Type 0} → Exec StateError S A → Op Db S N A
  on_storage f m = let (r, s) = f m.storage in done (r, record m { storage = s })

  abbrev pub on_snapshots : {A : Type 0} → Exec StateError N A → Op Db S N A
  on_snapshots f m = let (r, n) = f m.snapshots in done (r, record m { snapshots = n })

  abbrev pub on_trie : {A : Type 0} → Exec TrieError (MerklePatriciaTrie Db) A → Op Db S N A
  on_trie f m = let (r, t) = f m.trie in done (map_err trie_error r, record m { trie = t })

  abbrev pub reading : {A : Type 0} → (StateManager Db S N → Outcome StateError A) → Op Db S N A
  reading f m = done (f m, m)

  abbrev pub of_trie : {A : Type 0} → (MerklePatriciaTrie Db → Outcome TrieError A) → Op Db S N A
  of_trie f m = done (map_err trie_error (f m.trie), m)

  -- A future of a batch: its error is a result, and the batch goes on.
  abbrev pub collected :
      {A : Type 0}
      → Attempt (Outcome StateError A × StateManager Db S N)
      → Attempt (Outcome StateError (Outcome StateError A) × StateManager Db S N)
  collected blocked = blocked
  collected (done (ok a, m)) = done (ok (ok a), m)
  collected (done (err e, m)) = done (ok (err e), m)
  collected (done (panic, m)) = done (panic, m)

  abbrev pub future : {A : Type 0} → Op Db S N A → Op Db S N (Outcome StateError A)
  future f m = collected (f m)

  -- A value of the cache, or else the method.
  abbrev pub cached_or : {A : Type 0} → Option A → Op Db S N (Option A) → Op Db S N (Option A)
  cached_or (some a) f m = done (ok (some a), m)
  cached_or none f m = f m
