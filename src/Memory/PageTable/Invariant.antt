-- ===== src/Memory/PageTable/Invariant.antt =====
-- The invariant of the page table.
use zkmips_zkvm_impl_in_rust.Base.{
  ℕ, ◌+◌, ◌^◌, ◌<◌, ◌≤◌, ◌≡◌, ◌≢◌, refl, List, [], ◌∷◌, none, some, ok, err, arith, nat_eq, length,
  All, length-replicate, inl, inr, ◌⊎◌,
}
use native.Mathlib.Decide.{dec_lt}
use zkmips_zkvm_impl_in_rust.Memory.Address.{out_of_memory}
use zkmips_zkvm_impl_in_rust.Base.Map.{
  lookup, insert, remove, Distinct, insert-Distinct, All-remove, lookup-remove, lookup-insert,
}
use zkmips_zkvm_impl_in_rust.Memory.PageTable.{Page, PageTable, new, take_id, blank}

abbrev pub Sized : ℕ → ℕ → ℕ × Page → Type 0
Sized size next e = (length e.1.bytes ≡ size) × (e.0 < next)

-- A freed page is no page of the table, and was given out before.
abbrev pub Unused : List (ℕ × Page) → ℕ → ℕ → Type 0
Unused pages next id = (lookup id pages ≡ none) × (id < next)

abbrev pub Apart : List ℕ → Type 0
Apart [] = Unit {0}
Apart (x ∷ xs) = All (λ y. y ≢ x) xs × Apart xs

pub record IsValid (t : PageTable) : Type 0 where
  pub distinct : Distinct t.pages
  pub sized : All (Sized t.page_size t.next_page_id) t.pages
  pub unused : All (Unused t.pages t.next_page_id) t.free_pages
  pub apart : Apart t.free_pages
  pub bounded : t.next_page_id < 2 ^ 32

pub new-IsValid : (size : ℕ) → IsValid (new size)
unfolding new
new-IsValid size = ground arith

pub Sized-mono :
    (size n k : ℕ) (m : List (ℕ × Page)) → n ≤ k → All (Sized size n) m → All (Sized size k) m
Sized-mono size n k [] le h = tt
Sized-mono size n k (e ∷ m) le h = ((h.0.0, omega arith), Sized-mono size n k m le h.1)

-- An id not yet given out is no page.
lookup_fresh :
    (size n i : ℕ) (m : List (ℕ × Page)) → All (Sized size n) m → n ≤ i → lookup i m ≡ none
unfolding lookup
lookup_fresh size n i [] h le = refl
lookup_fresh size n i (e ∷ m) h le = ground (arith, lookup_fresh size n i m h.1)

pub Unused-mono :
    (pages : List (ℕ × Page)) (n k : ℕ) (l : List ℕ)
    → n ≤ k
    → All (Unused pages n) l
    → All (Unused pages k) l
Unused-mono pages n k [] le h = tt
Unused-mono pages n k (x ∷ l) le h = ((h.0.0, omega arith), Unused-mono pages n k l le h.1)

-- Ids below the counter are not the counter.
below_ne :
    (pages : List (ℕ × Page)) (n : ℕ) (l : List ℕ) → All (Unused pages n) l → All (λ y. y ≢ n) l
below_ne pages n [] h = tt
below_ne pages n (x ∷ l) h = (omega arith, below_ne pages n l h.1)

pub Unused-insert :
    (pages : List (ℕ × Page)) (n i : ℕ) (page : Page) (l : List ℕ)
    → All (λ y. y ≢ i) l
    → All (Unused pages n) l
    → All (Unused (insert i page pages) n) l
Unused-insert pages n i page [] ne h = tt
Unused-insert pages n i page (x ∷ l) ne h =
    ((ground (arith, lookup-insert i x page pages), h.0.1), Unused-insert pages n i page l ne.1 h.1)

pub Unused-remove :
    (pages : List (ℕ × Page)) (n i : ℕ) (l : List ℕ)
    → All (Unused pages n) l
    → All (Unused (remove i pages) n) l
Unused-remove pages n i [] h = tt
Unused-remove pages n i (x ∷ l) h =
    ((ground (arith, lookup-remove i x pages), h.0.1), Unused-remove pages n i l h.1)

-- A page that is in the table is not on the free list.
pub page_ne_free :
    (pages : List (ℕ × Page)) (n i : ℕ) (page : Page) (l : List ℕ)
    → lookup i pages ≡ some page
    → All (Unused pages n) l
    → All (λ y. y ≢ i) l
page_ne_free pages n i page [] e h = tt
page_ne_free pages n i page (x ∷ l) e h = ((λ q. cc), page_ne_free pages n i page l e h.1)

-- The table with an id taken out of it.
pub record Taken (t u : PageTable) (id : ℕ) : Type 0 where
  pub absent : lookup id t.pages ≡ none
  pub same_pages : u.pages ≡ t.pages
  pub same_size : u.page_size ≡ t.page_size
  pub id_below : id < u.next_page_id
  pub grows : t.next_page_id ≤ u.next_page_id
  pub unused : All (Unused t.pages u.next_page_id) u.free_pages
  pub apart : Apart u.free_pages
  pub not_free : All (λ y. y ≢ id) u.free_pages
  pub bounded : u.next_page_id < 2 ^ 32

take_popped :
    (t : PageTable) (x : ℕ) (l : List ℕ)
    → t.free_pages ≡ x ∷ l
    → IsValid t
    → Taken t (record t { free_pages = l }) x
take_popped t x l e v =
    let un : All (Unused t.pages t.next_page_id) (x ∷ l) = rw e at v.unused in
    let ap' : Apart (x ∷ l) = rw e at v.apart in
    record {
      absent = un.0.0;
      same_pages = refl;
      same_size = refl;
      id_below = un.0.1;
      grows = omega arith;
      unused = un.1;
      apart = ap'.1;
      not_free = ap'.0;
      bounded = v.bounded;
    }

take_next :
    (t : PageTable)
    → t.next_page_id + 1 < 2 ^ 32
    → IsValid t
    → Taken t (record t { next_page_id = t.next_page_id + 1 }) t.next_page_id
take_next t lt v = record {
  absent = lookup_fresh t.page_size t.next_page_id t.next_page_id t.pages v.sized (omega arith);
  same_pages = refl;
  same_size = refl;
  id_below = omega arith;
  grows = omega arith;
  unused = Unused-mono t.pages _ _ t.free_pages (omega arith) v.unused;
  apart = v.apart;
  not_free = below_ne t.pages t.next_page_id t.free_pages v.unused;
  bounded = lt;
}

-- An id is taken from the free list or is the counter; the table fails only when the counter is
-- used up.
pub take_id-Taken :
    (t : PageTable) (l : List ℕ)
    → t.free_pages ≡ l
    → IsValid t
    → ((id : ℕ) × (u : PageTable) × (take_id t ≡ (ok id, u)) × Taken t u id)
      ⊎ ((take_id t ≡ (err out_of_memory, t)) × (t.free_pages ≡ []) × (t.next_page_id + 1 ≡ 2 ^ 32))
unfolding take_id
take_id-Taken t (x ∷ l) e v =
    inl (x, record t { free_pages = l }, ground arith, take_popped t x l e v)
take_id-Taken t [] e v = elim (dec_lt (t.next_page_id + 1) (2 ^ 32)) [
  | yes lt ↦ inl (
    t.next_page_id,
    record t { next_page_id = t.next_page_id + 1 },
    ground arith,
    take_next t lt v,
  )
  | no ge ↦ inr (ground arith, e, omega (arith, v.bounded))
]

-- The table with the new page put in.
abbrev pub with_page : PageTable → ℕ → PageTable
with_page u id = record u { pages = insert id (blank u.page_size) u.pages }

pub Taken-IsValid : (t u : PageTable) (id : ℕ) → IsValid t → Taken t u id → IsValid (with_page u id)
unfolding insert
Taken-IsValid t u id v k = record {
  distinct = insert-Distinct id (blank u.page_size) u.pages (rw k.same_pages v.distinct);
  sized = (
    (length-replicate u.page_size 0, k.id_below),
    All-remove (Sized u.page_size u.next_page_id) id u.pages
        (rw (k.same_pages, k.same_size) (Sized-mono _ _ _ t.pages k.grows v.sized)),
  );
  unused =
      Unused-insert u.pages u.next_page_id id (blank u.page_size) u.free_pages k.not_free
        (rw k.same_pages k.unused);
  apart = k.apart;
  bounded = k.bounded;
}
