-- ===== src/Memory/PageTable/Access.antt =====
-- Reads and writes of pages: on every branch, and one after the other.
use zkmips_zkvm_impl_in_rust.Base.{
  ℕ, ◌+◌, ◌%◌, ◌^◌, ◌<◌, ◌≤◌, ◌≡◌, ap, ◌∙◌, Bool, true, false, ◌&&◌, List, [], ◌∷◌, Option, none,
  some, ok, err, panic, arith, nat_eq, leb, if◌then◌else◌, length, take, drop, All, Outcome,
  Option-cases, inl, inr, ◌⊎◌, eqb,
}
use zkmips_zkvm_impl_in_rust.Base.Map.{
  lookup, insert, insert-Distinct, All-remove, lookup-insert, lookup-insert_self,
}
use zkmips_zkvm_impl_in_rust.Base.Ranges.{
  patched, length-patched, range_patched, range_before, range_behind,
}
use zkmips_zkvm_impl_in_rust.Memory.Address.{MemoryError, page_fault}
use zkmips_zkvm_impl_in_rust.Memory.PageTable.{Page, PageTable, read, write, touched}
use zkmips_zkvm_impl_in_rust.Memory.PageTable.Invariant.{
  IsValid, Sized, page_ne_free, Unused-insert,
}

page_length :
    (size n i : ℕ) (m : List (ℕ × Page)) (page : Page)
    → All (Sized size n) m
    → lookup i m ≡ some page
    → (length page.bytes ≡ size) × (i < n)
unfolding lookup
page_length size n i [] page h e = cc
page_length size n i (x ∷ m) page h e = ground (arith, page_length size n i m page h.1)

-- What a read of a page gives.
abbrev pub read_result : PageTable → ℕ → ℕ → ℕ → Option Page → Outcome MemoryError (List ℕ)
read_result t i offset size none = err (page_fault i)
read_result t i offset size (some page) =
    if page.flags.present && leb (offset + size) t.page_size
    then ok (take size (drop offset page.bytes))
    else err (page_fault i)

-- With no overflow of `offset + size`, a read in either build never panics: it gives the bytes
-- asked for if the page exists, is present and holds the range, and else a page fault.
pub read_lem :
    (t : PageTable) (checks : Bool) (i offset size : ℕ)
    → IsValid t
    → offset + size < 2 ^ 64
    → read checks i offset size t ≡ read_result t i offset size (lookup i t.pages)
unfolding read
read_lem t checks i offset size v lt = elim (Option-cases (lookup i t.pages)) [
  | inl e ↦ ground arith
  | inr (page, e) ↦ ground (arith, page_length t.page_size t.next_page_id i t.pages page v.sized e)
]

abbrev pub write_result :
    PageTable → ℕ → ℕ → List ℕ → Option Page → Outcome MemoryError Unit × PageTable
write_result t i offset source none = (err (page_fault i), t)
write_result t i offset source (some page) =
    if page.flags.present && (page.flags.writable && leb (offset + length source) t.page_size)
    then (
      ok tt,
      record t { pages = insert i (touched (patched page.bytes offset source) page) t.pages },
    )
    else (err (page_fault i), t)

-- In a table that keeps its invariant, with no overflow, a write in either build never panics: it
-- replaces the range and marks the page dirty and accessed if the page exists, is present and
-- writable and holds the range, and else it is a page fault that changes nothing.
pub write_lem :
    (t : PageTable) (checks : Bool) (i offset : ℕ) (source : List ℕ)
    → IsValid t
    → offset + length source < 2 ^ 64
    → write checks i offset source t ≡ write_result t i offset source (lookup i t.pages)
unfolding write
write_lem t checks i offset source v lt = elim (Option-cases (lookup i t.pages)) [
  | inl e ↦ ground arith
  | inr (page, e) ↦ ground (arith, page_length t.page_size t.next_page_id i t.pages page v.sized e)
]

-- Where the sum of offset and size overflows and the page is present, a read is never answered:
-- with overflow checks it panics, and without it is a page fault if the wrapped sum lies past the
-- page, and else a panic.
pub read_overflow :
    (t : PageTable) (i offset size : ℕ) (page : Page)
    → lookup i t.pages ≡ some page
    → page.flags.present ≡ true
    → size < 2 ^ 64
    → 2 ^ 64 ≤ offset + size
    → (read true i offset size t ≡ panic)
      × (read false i offset size t
          ≡ (if leb ((offset + size) % 2 ^ 64) t.page_size then panic else err (page_fault i)))
unfolding read
read_overflow t i offset size page e p ls over = (ground arith, ground arith)

patched-page-IsValid :
    (t : PageTable) (i : ℕ) (page new : Page)
    → lookup i t.pages ≡ some page
    → length new.bytes ≡ length page.bytes
    → IsValid t
    → IsValid (record t { pages = insert i new t.pages })
unfolding insert
patched-page-IsValid t i page new e len v =
    let (sz, below) = page_length t.page_size t.next_page_id i t.pages page v.sized e in
    record {
      distinct = insert-Distinct i new t.pages v.distinct;
      sized = ((len ∙ sz, below), All-remove (Sized t.page_size t.next_page_id) i t.pages v.sized);
      unused =
          Unused-insert t.pages t.next_page_id i new t.free_pages
            (page_ne_free t.pages t.next_page_id i page t.free_pages e v.unused) v.unused;
      apart = v.apart;
      bounded = v.bounded;
    }

-- What a write that succeeds wrote, and to which page.
written :
    (t u : PageTable) (checks : Bool) (i offset : ℕ) (source : List ℕ)
    → IsValid t
    → offset + length source < 2 ^ 64
    → write checks i offset source t ≡ (ok tt, u)
    → (page : Page) × (lookup i t.pages ≡ some page)
      × (page.flags.present ≡ true)
      × (offset + length source ≤ length page.bytes)
      × (length page.bytes ≡ t.page_size)
      × (u
          ≡ record t { pages = insert i (touched (patched page.bytes offset source) page) t.pages })
written t u checks i offset source v lt e = elim (Option-cases (lookup i t.pages)) [
  | inl none_found ↦ absurd (ground (arith, write_lem t checks i offset source v lt))
  | inr (page, found) ↦
      let sz = page_length t.page_size t.next_page_id i t.pages page v.sized found in
      (
        page,
        found,
        ground (arith, write_lem t checks i offset source v lt),
        ground (arith, write_lem t checks i offset source v lt, sz),
        sz.0,
        ground (arith, write_lem t checks i offset source v lt),
      )
]

-- From a table that keeps its invariant, after a write that succeeds, a read of the same range in
-- either build gives what was written, every other page is as it was, and the table keeps its
-- invariant. The end of the range is a word.
pub write-read :
    (t u : PageTable) (checks again : Bool) (i offset : ℕ) (source : List ℕ)
    → IsValid t
    → offset + length source < 2 ^ 64
    → write checks i offset source t ≡ (ok tt, u)
    → IsValid u
      × (read again i offset (length source) u ≡ ok source)
      × ((j : ℕ)
          → (if eqb i j then none else lookup j u.pages)
            ≡ (if eqb i j then none else lookup j t.pages))
write-read t u checks again i offset source v lt e =
    let (page, found, present, fits, sz, eq) = written t u checks i offset source v lt e in
    let new = touched (patched page.bytes offset source) page in
    let w =
      patched-page-IsValid t i page new found (length-patched page.bytes source offset fits) v in
    (
      rw eq w,
      rw eq (
          ground (
            arith,
            read_lem (record t { pages = insert i new t.pages }) again i offset (length source) w
                lt,
            lookup-insert_self i new t.pages,
            range_patched page.bytes source offset (omega arith),
          )),
      λ j. rw eq (ground (arith, lookup-insert i j new t.pages)),
    )

-- From a table that keeps its invariant, a write that succeeds leaves the bytes of its page before
-- and behind its range: a read of a range that does not meet it gives what it gave before. The
-- ends of the ranges are words.
pub write-read_apart :
    (t u : PageTable) (checks again : Bool) (i offset o n : ℕ) (source : List ℕ)
    → IsValid t
    → offset + length source < 2 ^ 64
    → write checks i offset source t ≡ (ok tt, u)
    → o + n < 2 ^ 64
    → (o + n ≤ offset) ⊎ (offset + length source ≤ o)
    → read again i o n u ≡ read again i o n t
write-read_apart t u checks again i offset o n source v lt e lt' side =
    let (page, found, present, fits, sz, eq) = written t u checks i offset source v lt e in
    let new = touched (patched page.bytes offset source) page in
    let w =
      patched-page-IsValid t i page new found (length-patched page.bytes source offset fits) v in
    let same : take n (drop o (patched page.bytes offset source)) ≡ take n (drop o page.bytes) =
      elim side [
        | inl before ↦ range_before page.bytes source offset o n before (omega arith)
        | inr behind ↦ ap (take n) (range_behind page.bytes source offset o behind (omega arith))
      ] in
    rw eq (
      ground (
        arith,
        read_lem (record t { pages = insert i new t.pages }) again i o n w lt',
        read_lem t again i o n v lt',
        lookup-insert_self i new t.pages,
        same,
      ))
