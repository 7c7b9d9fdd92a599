-- ===== src/State/Trie/Table.antt =====
-- A database that the tests run on: the tables that were written, each under the number of its root.
use zkmips_zkvm_impl_in_rust.Base.{
  ℕ, zero, suc, ◌≡◌, refl, Bool, true, List, [], ◌∷◌, none, some, ok, nat_eq, bytes_eq, ◌≢◌, ap,
  sym, ◌∙◌, ◌==◌, if◌then◌else◌, length,
}
use zkmips_zkvm_impl_in_rust.Base.Map
use zkmips_zkvm_impl_in_rust.State.Trie.{TrieLibrary}
use zkmips_zkvm_impl_in_rust.State.Trie.Refines.{IsTrie, EmptyReads, ReadsAs, is_some}

abbrev pub Table : Type 0
Table = List (List ℕ × List ℕ)

abbrev pub Tables : Type 0
Tables = List Table

-- The table that was written as the one of this number.
abbrev pub numbered : ℕ → Tables → Table
numbered n [] = []
numbered n (t ∷ tables) = let older = numbered n tables in if n == length tables then t else older

-- The root 0 is that of the empty table.
abbrev pub table_at : Tables → List ℕ → Table
table_at tables [] = []
table_at tables (zero ∷ rest) = []
table_at tables (suc n ∷ rest) = numbered n tables

abbrev pub next_root : Tables → List ℕ
next_root tables = suc (length tables) ∷ []

abbrev pub table_library : TrieLibrary Tables Table
table_library = record {
  new = [];
  new_with_root = λ db root. ok (table_at db root);
  get = λ table k. ok (Map.lookup k table);
  get_proof = λ table k. ok (k ∷ []);
  verify_proof = λ table k p. ok true;
  iter = λ table. [];
  empty_root = 0 ∷ [];
  insert = λ k v root db. (ok (tt, next_root db), Map.insert k v (table_at db root) ∷ db);
  remove = λ k root db. (
    ok (is_some (Map.lookup k (table_at db root)), next_root db),
    Map.remove k (table_at db root) ∷ db,
  );
}

written_last : (t : Table) (db : Tables) → table_at (t ∷ db) (next_root db) ≡ t
written_last t db =
    let self : (length db == length db) ≡ true = (nat_eq.beq_iff _ _).1 refl in rw self refl

pub insert_lem :
    (k v root r : List ℕ) (db n : Tables)
    → table_library.insert k v root db ≡ (ok (tt, r), n)
    → ReadsAs table_library n r (λ j. Map.lookup j (table_at n r))
      × ((j : List ℕ)
          → Map.lookup j (table_at n r)
            ≡ (if k == j then some v else Map.lookup j (table_at db root)))
insert_lem k v root r db n e =
    let here : next_root db ≡ r = cc in
    let there : Map.insert k v (table_at db root) ∷ db ≡ n = cc in
    (
      (table_at n r, refl, λ j. refl),
      λ j.
          rw (← here, ← there)
            (ap (Map.lookup j) (written_last (Map.insert k v (table_at db root)) db)
              ∙ Map.lookup-insert k j v (table_at db root)),
    )

pub remove_lem :
    (k root r : List ℕ) (b : Bool) (db n : Tables)
    → table_library.remove k root db ≡ (ok (b, r), n)
    → ReadsAs table_library n r (λ j. Map.lookup j (table_at n r))
      × (b ≡ is_some (Map.lookup k (table_at db root)))
      × ((j : List ℕ)
          → Map.lookup j (table_at n r)
            ≡ (if k == j then none else Map.lookup j (table_at db root)))
remove_lem k root r b db n e =
    let here : next_root db ≡ r = cc in
    let there : Map.remove k (table_at db root) ∷ db ≡ n = cc in
    let answer : is_some (Map.lookup k (table_at db root)) ≡ b = cc in
    (
      (table_at n r, refl, λ j. refl),
      sym answer,
      λ j.
          rw (← here, ← there)
            (ap (Map.lookup j) (written_last (Map.remove k (table_at db root)) db)
              ∙ Map.lookup-remove k j (table_at db root)),
    )

abbrev pub table-IsTrie : IsTrie table_library
unfolding Map.lookup
table-IsTrie = record {
  contents = λ db root j. Map.lookup j (table_at db root);
  contents-empty = λ db k. refl;
  insert-contents = insert_lem;
  remove-contents = remove_lem;
}

abbrev empty : Tables
empty = []

nothing_there : (root : List ℕ) → table_at empty root ≡ []
nothing_there [] = refl
nothing_there (zero ∷ rest) = refl
nothing_there (suc n ∷ rest) = refl

pub empty_view :
    (root : List ℕ) (view : Table) (k v : List ℕ)
    → table_library.new_with_root empty root ≡ ok view
    → table_library.get view k ≢ ok (some v)
unfolding Map.lookup
empty_view root view k v e q =
    let opened : table_at empty root ≡ view = cc in
    let found : Map.lookup k view ≡ some v = cc in
    let is_empty : [] ≡ view = sym (nothing_there root) ∙ opened in cc (rw (← is_empty) at found)

pub table-EmptyReads : EmptyReads table_library
table-EmptyReads = record { get-empty = empty_view }
