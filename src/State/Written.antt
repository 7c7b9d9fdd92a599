-- ===== src/State/Written.antt =====
-- src/state/mod.rs: what `update_account` leaves behind.
use zkmips_zkvm_impl_in_rust.Base.{
  ℕ, ◌≡◌, List, [], ◌∷◌, Option, none, some, ok, bytes_eq, nat_eq, ◌==◌, if◌then◌else◌,
}
use zkmips_zkvm_impl_in_rust.Base.Map
use zkmips_zkvm_impl_in_rust.Base.Map.{lookup}
use zkmips_zkvm_impl_in_rust.State.{Account, AccountUpdate, Services, StateManager}
use zkmips_zkvm_impl_in_rust.State.Trie
use zkmips_zkvm_impl_in_rust.State.Trie.{TrieLibrary}
use zkmips_zkvm_impl_in_rust.State.Trie.Refines.{IsTrie, insert, left_by, Holds}

-- The value of the update where it gives one, and the old one where it gives none.
abbrev pub Given : {A : Type 0} → Option A → A → A → Type 0
Given (some given) old a = a ≡ given
Given none old a = a ≡ old

-- The last amount that the update gives for a token, or else the old balance.
unfoldable pub balance_after : List (ℕ × ℕ) → ℕ → Option ℕ → Option ℕ
balance_after [] token old = old
balance_after ((t, amount) ∷ l) token old =
    balance_after l token (if t == token then some amount else old)

module _ {Db View S N : Type 0} {library : TrieLibrary Db View} (services : Services Db S N)
    (laws : IsTrie library)
    (decodes : (a : Account) (b : List ℕ)
      → services.serialize a ≡ some b
      → services.deserialize b ≡ some a) where
  -- The root is the old one where nothing is to be stored, and else what the storage answers.
  abbrev pub RootOf : List ℕ → List (List ℕ × List ℕ) → List ℕ → List ℕ → Type 0
  RootOf a [] old root = root ≡ old
  RootOf a (x ∷ l) old root =
      (storage : S) × ((services.update_storage a (x ∷ l) old storage).0 ≡ ok root)

  abbrev pub hash_of : Option (List ℕ) → List ℕ → List ℕ
  hash_of none old = old
  hash_of (some code) old = services.blake3 code

  -- The account has what the update gives and what the old one has for the rest.
  pub record IsUpdated (a : List ℕ) (update : AccountUpdate) (n : ℕ) (old account : Account)
      : Type 0 where
    pub nonce : Given update.nonce old.nonce account.nonce
    pub pub_key_hash : Given update.pub_key_hash old.pub_key_hash account.pub_key_hash
    pub balance :
        (token : ℕ)
        → lookup token account.balance
          ≡ balance_after update.balance token (lookup token old.balance)
    pub storage_root : RootOf a update.storage old.storage_root account.storage_root
    pub code_hash : account.code_hash ≡ hash_of update.code old.code_hash
    pub last_modified_block : account.last_modified_block ≡ n

  -- What there is once the account is written: it alone is in the trie, and it is in the cache.
  pub record Written (t : StateManager Db S N) (a : List ℕ) (n : ℕ) (account : Account)
      : Type 0 where
    pub bytes : List ℕ
    pub decoded : services.deserialize bytes ≡ some account
    pub holds : Holds library t.trie (left_by (insert a bytes))
    pub is_cached : lookup a t.cached_accounts ≡ some (account, n)
