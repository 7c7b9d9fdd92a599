-- ===== src/Memory/PageTable/Alloc.antt =====
-- Pages are given out and taken back.
use zkmips_zkvm_impl_in_rust.Base.{
  ℕ, ◌+◌, ◌^◌, ◌<◌, ◌≡◌, refl, List, [], ◌∷◌, none, some, ok, err, arith, nat_eq, eqb,
  if◌then◌else◌, All, Option-cases, inl, inr, ◌⊎◌,
}
use zkmips_zkvm_impl_in_rust.Memory.Address.{out_of_memory}
use zkmips_zkvm_impl_in_rust.Base.Map.{
  lookup, remove, remove-Distinct, All-remove, remove_absent, lookup-remove, lookup-insert,
  lookup-remove_self,
}
use zkmips_zkvm_impl_in_rust.Memory.PageTable.{Page, PageTable, allocate_page, free_page, blank}
use zkmips_zkvm_impl_in_rust.Memory.PageTable.Invariant.{
  IsValid, Sized, take_id-Taken, with_page, Taken-IsValid, Unused-remove, page_ne_free,
}

-- A page in the table has an id below the counter.
below_of_page :
    (size n i : ℕ) (page : Page) (m : List (ℕ × Page))
    → All (Sized size n) m
    → lookup i m ≡ some page
    → i < n
unfolding lookup
below_of_page size n i page [] h e = cc
below_of_page size n i page (x ∷ m) h e = ground (arith, below_of_page size n i page m h.1)

-- In a table that keeps its invariant, allocation gives the id of a page that is not in the table,
-- of zeros and with the default flags; the other pages and the invariant stay. It fails, and
-- changes nothing, only when no page is free and the counter has reached its last value.
pub allocate_page_lem :
    (t : PageTable)
    → IsValid t
    → ((id : ℕ) × (u : PageTable) × (allocate_page t ≡ (ok id, u))
        × (lookup id t.pages ≡ none)
        × ((j : ℕ)
            → lookup j u.pages ≡ (if eqb id j then some (blank t.page_size) else lookup j t.pages))
        × IsValid u)
      ⊎ ((allocate_page t ≡ (err out_of_memory, t))
          × (t.free_pages ≡ [])
          × (t.next_page_id + 1 ≡ 2 ^ 32))
unfolding allocate_page
allocate_page_lem t v = elim (take_id-Taken t t.free_pages refl v) [
  | inl (id, u, e, k) ↦ inl (
    id,
    with_page u id,
    ground (arith, e),
    k.absent,
    (λ j. ground (arith, lookup-insert id j (blank u.page_size) u.pages, k.same_pages)),
    Taken-IsValid t u id v k,
  )
  | inr (e, empty, last) ↦ inr (ground (arith, e), empty, last)
]

freed-IsValid :
    (t : PageTable) (i : ℕ) (page : Page)
    → lookup i t.pages ≡ some page
    → IsValid t
    → IsValid (record t { pages = remove i t.pages; free_pages = i ∷ t.free_pages })
freed-IsValid t i page e v = record {
  distinct = remove-Distinct i t.pages v.distinct;
  sized = All-remove (Sized t.page_size t.next_page_id) i t.pages v.sized;
  unused = (
    (
      lookup-remove_self i t.pages,
      below_of_page t.page_size t.next_page_id i page t.pages v.sized e,
    ),
    Unused-remove t.pages t.next_page_id i t.free_pages v.unused,
  );
  apart = (page_ne_free t.pages t.next_page_id i page t.free_pages e v.unused, v.apart);
  bounded = v.bounded;
}

-- A freed page is gone, the other pages stay, and so does the invariant.
pub free_page_lem :
    (t : PageTable) (i : ℕ)
    → IsValid t
    → IsValid (free_page i t)
      × ((j : ℕ) → lookup j (free_page i t).pages ≡ (if eqb i j then none else lookup j t.pages))
unfolding free_page
free_page_lem t i v = elim (Option-cases (lookup i t.pages)) [
  | inl absent ↦ (
    ground (arith, remove_absent i t.pages absent, v),
    λ j. ground (arith, lookup-remove i j t.pages),
  )
  | inr (page, found) ↦ (
    rw (found, free_page) (freed-IsValid t i page found v),
    λ j. ground (arith, lookup-remove i j t.pages),
  )
]
