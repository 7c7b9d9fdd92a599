-- ===== src/Memory/Manager/Allocation.antt =====
-- What `allocate` does: with the lock that it holds, and behind the test of the threshold.
use zkmips_zkvm_impl_in_rust.Base.{
  done, blocked, ℕ, zero, suc, ◌≡◌, refl, ap, sym, ◌∙◌, Bool, false, List, [], ◌∷◌, none, some,
  length, ok, err, arith, nat_eq, eqb_iff, leb, ◌≢◌, All, Option-cases, inl, inr, ◌⊎◌,
}
use zkmips_zkvm_impl_in_rust.Base.Map.{lookup}
use zkmips_zkvm_impl_in_rust.Memory.Address.{MemoryError, out_of_memory, address_eq}
use zkmips_zkvm_impl_in_rust.Memory.PageTable
use zkmips_zkvm_impl_in_rust.Memory.PageTable.{PageTable, Page, blank}
use zkmips_zkvm_impl_in_rust.Memory.PageTable.Invariant.{IsValid, Apart}
use zkmips_zkvm_impl_in_rust.Memory.Segment.{SegmentType}
use zkmips_zkvm_impl_in_rust.Memory.Manager.{
  MemoryManager, should_collect_garbage, allocate, allocate_pages, total_size, on_pages,
}

-- `allocate` never returns: it waits for the segments that it holds itself, whatever it is asked
-- for, while the same question without the guard is answered.
pub allocate_blocks :
    (checks : Bool) (elapsed_ms now size : ℕ) (segment_type : SegmentType) (m : MemoryManager)
    → (allocate checks elapsed_ms now size segment_type m ≡ blocked)
      × (should_collect_garbage false m ≡ done (leb m.gc.threshold (total_size m.segments)))
unfolding allocate should_collect_garbage
allocate_blocks checks elapsed_ms now size segment_type m = (refl, refl)

-- The page of the id is one of zeros in the second table, and there is none in the first.
abbrev pub Fresh : PageTable → PageTable → ℕ → Type 0
Fresh t u id = (lookup id t.pages ≡ none) × (lookup id u.pages ≡ some (blank u.page_size))

-- What a run of `allocate_pages` leaves alone, and what it gives.
pub record Given (m n : MemoryManager) : Type 0 where
  pub valid : IsValid n.page_table
  pub others :
      (id : ℕ) (page : Page)
      → lookup id m.page_table.pages ≡ some page
      → lookup id n.page_table.pages ≡ some page
  pub same_size : n.page_table.page_size ≡ m.page_table.page_size
  pub same_rest : n ≡ record m { page_table = n.page_table }

allocate_page-page_size : (t : PageTable) → (PageTable.allocate_page t).1.page_size ≡ t.page_size
unfolding PageTable.allocate_page PageTable.take_id
allocate_page-page_size t = ground arith

-- One page, as a step of the manager.
one_page :
    (m : MemoryManager)
    → IsValid m.page_table
    → ((on_pages PageTable.allocate_page m ≡ (err out_of_memory, m)))
      ⊎ ((id : ℕ) × (k : MemoryManager) × (on_pages PageTable.allocate_page m ≡ (ok id, k))
          × Given m k
          × Fresh m.page_table k.page_table id)
one_page m v = elim (PageTable.Alloc.allocate_page_lem m.page_table v) [
  | inr (e, empty, last) ↦ inl (ground (arith, e))
  | inl (id, t, e, absent, looks, w) ↦
      let size : t.page_size ≡ m.page_table.page_size =
        ap (λ x. x.1.page_size) (sym e) ∙ allocate_page-page_size m.page_table in
      inr (
        id,
        record m { page_table = t },
        ground (arith, e),
        record {
          valid = w;
          others = λ j page h. ground (arith, looks j, eqb_iff id j);
          same_size = size;
          same_rest = refl;
        },
        (absent, ground (arith, looks id, eqb_iff id id)),
      )
]

-- Of pages that are new behind a first one: they are not that one.
others_Fresh :
    (m k n : MemoryManager) (id : ℕ) (ids : List ℕ)
    → Given m k
    → Fresh m.page_table k.page_table id
    → All (Fresh k.page_table n.page_table) ids
    → All (Fresh m.page_table n.page_table) ids × All (λ j. j ≢ id) ids
others_Fresh m k n id [] g f h = (tt, tt)
others_Fresh m k n id (j ∷ ids) g f h =
    let (h1, h2) = others_Fresh m k n id ids g f h.1 in
    (
      (
        (
          elim (Option-cases (lookup j m.page_table.pages)) [
            | inl absent ↦ absent
            | inr (page, there) ↦ absurd (ground (arith, g.others j page there, h.0.0))
          ],
          h.0.1,
        ),
        h1,
      ),
      ((λ e. absurd (ground (arith, e, h.0.0, f.1))), h2),
    )

Given-trans : (m k n : MemoryManager) → Given m k → Given k n → Given m n
Given-trans m k n g h = record {
  valid = h.valid;
  others = λ id page e. h.others id page (g.others id page e);
  same_size = h.same_size ∙ g.same_size;
  same_rest = ground (arith, g.same_rest, h.same_rest);
}

still_Fresh :
    (m k n : MemoryManager) (id : ℕ)
    → Fresh m.page_table k.page_table id
    → Given k n
    → Fresh m.page_table n.page_table id
still_Fresh m k n id f h =
    (f.0, ground (arith, f.1, h.same_size, h.others id (blank k.page_table.page_size) f.1))

stopped :
    (n : ℕ) (m k : MemoryManager) (x : MemoryError)
    → on_pages PageTable.allocate_page m ≡ (err x, k)
    → allocate_pages (suc n) m ≡ (err x, k)
unfolding allocate_pages
stopped n m k x e = ground (arith, e)

rest_stopped :
    (n : ℕ) (m k : MemoryManager) (id : ℕ) (x : MemoryError)
    → on_pages PageTable.allocate_page m ≡ (ok id, k)
    → (allocate_pages n k).0 ≡ err x
    → allocate_pages (suc n) m ≡ (err x, (allocate_pages n k).1)
unfolding allocate_pages
rest_stopped n m k id x e e' = ground (arith, e, e')

went_on :
    (n : ℕ) (m k : MemoryManager) (id : ℕ) (ids : List ℕ)
    → on_pages PageTable.allocate_page m ≡ (ok id, k)
    → (allocate_pages n k).0 ≡ ok ids
    → allocate_pages (suc n) m ≡ (ok (id ∷ ids), (allocate_pages n k).1)
unfolding allocate_pages
went_on n m k id ids e e' = ground (arith, e, e')

-- From a page table that keeps its invariant, the loop of `allocate` gives as many pages as it is
-- asked for, all different, each of zeros, and none that the table had; or it runs out of ids. It
-- never panics. Either way the pages that there were are as they were, and the table keeps its
-- invariant.
pub allocate_pages_lem :
    (n : ℕ) (m : MemoryManager)
    → IsValid m.page_table
    → Given m (allocate_pages n m).1
      × (((allocate_pages n m).0 ≡ err out_of_memory)
          ⊎ ((ids : List ℕ) × ((allocate_pages n m).0 ≡ ok ids)
              × (length ids ≡ n)
              × Apart ids
              × All (Fresh m.page_table (allocate_pages n m).1.page_table) ids))
unfolding allocate_pages
allocate_pages_lem zero m v = (
  record { valid = v; others = λ id page e. e; same_size = refl; same_rest = refl },
  inr ([], refl, refl, tt, tt),
)
allocate_pages_lem (suc n) m v = elim (one_page m v) [
  | inl e ↦
      rw (stopped n m m out_of_memory e) (
        record { valid = v; others = λ id page h. h; same_size = refl; same_rest = refl },
        inl refl,
      )
  | inr (id, k, e, g, f) ↦
      let (g', given) = allocate_pages_lem n k g.valid in
      let to = (allocate_pages n k).1 in
      elim given [
        | inl e' ↦ rw (rest_stopped n m k id out_of_memory e e') (Given-trans m k to g g', inl refl)
        | inr (ids, e', len, apart, fresh) ↦
            let (fresh', ne) = others_Fresh m k to id ids g f fresh in
            rw (went_on n m k id ids e e') (
              Given-trans m k to g g',
              inr (id ∷ ids, refl, ap suc len, (ne, apart), (still_Fresh m k to id f g', fresh')),
            )
      ]
]
