-- ===== src/State/Trie/Tests.antt =====
-- The theorems on the trie at work, with numbered tables for the database.
use zkmips_zkvm_impl_in_rust.Base.{
  ◌≡◌, refl, true, false, List, [], ◌∷◌, none, some, ok, nat_eq, bytes_eq, map,
}
use zkmips_zkvm_impl_in_rust.Base.Map
use zkmips_zkvm_impl_in_rust.State.Trie
use zkmips_zkvm_impl_in_rust.State.Trie.{TrieLibrary, MerklePatriciaTrie}
use zkmips_zkvm_impl_in_rust.State.Trie.Table.{Tables, table_library, table-IsTrie}
use zkmips_zkvm_impl_in_rust.State.Trie.Refines.{
  Op, insert, delete, apply, run, is_insert, last_left, Holds, run-get,
}

abbrev ops : List Op
ops =
    insert (1 ∷ []) (5 ∷ [])
    ∷ delete (1 ∷ [])
    ∷ insert (1 ∷ []) (6 ∷ [])
    ∷ insert (2 ∷ []) (7 ∷ [])
    ∷ []

abbrev after : MerklePatriciaTrie Tables
after = record {
  db = ((2 ∷ [], 7 ∷ []) ∷ []) ∷ ((1 ∷ [], 6 ∷ []) ∷ []) ∷ [] ∷ ((1 ∷ [], 5 ∷ []) ∷ []) ∷ [];
  root = some (4 ∷ []);
}

run-get_example :
    ((true ∷ false ∷ true ∷ true ∷ []) ≡ map is_insert ops)
    × Holds table_library after (last_left (λ k. none) ops)
unfolding run apply Trie.insert Trie.delete Trie.new Map.insert Map.remove Map.lookup
run-get_example = run-get table-IsTrie ops (true ∷ false ∷ true ∷ true ∷ []) after refl

-- The first key is gone.
first_is_lost : Trie.get table_library after (1 ∷ []) ≡ ok none
unfolding Trie.get Map.lookup
first_is_lost = refl
