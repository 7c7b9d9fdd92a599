-- ===== src/Memory/PageTable.antt =====
-- src/memory/page_table.rs: the page table. The free list has the page freed last first, as the
-- `Vec` that is pushed and popped at its end. Sizes and offsets are 64-bit words, page ids 32-bit
-- words; `checks` says whether the build checks for overflow.
pub mod Invariant
pub mod Alloc
pub mod Access
use zkmips_zkvm_impl_in_rust.Base.{
  ℕ, ◌+◌, ◌^◌, Bool, true, false, not, ◌&&◌, ◌||◌, List, [], ◌∷◌, ◌++◌, Option, none, some, ltb,
  leb, nat_eq, if◌then◌else◌, length, take, drop, replicate, Outcome, ok, err, panic, Exec, lift,
  ◌>>=◌, ◌>>◌,
}
use zkmips_zkvm_impl_in_rust.Base.Map.{lookup, insert, remove}
use zkmips_zkvm_impl_in_rust.Base.Word.{add_usize, slice}
use zkmips_zkvm_impl_in_rust.Memory.Address.{MemoryError, page_fault, out_of_memory}

pub record PageFlags : Type 0 where
  pub present : Bool
  pub writable : Bool
  pub executable : Bool
  pub user_accessible : Bool
  pub dirty : Bool
  pub accessed : Bool

-- `PageFlags::default()`
abbrev pub default_flags : PageFlags
default_flags = record {
  present = true;
  writable = true;
  executable = false;
  user_accessible = true;
  dirty = false;
  accessed = false;
}

pub record Page : Type 0 where
  pub bytes : List ℕ
  pub flags : PageFlags

pub record PageTable : Type 0 where
  pub pages : List (ℕ × Page)
  pub free_pages : List ℕ
  pub page_size : ℕ
  pub next_page_id : ℕ

unfoldable pub new : ℕ → PageTable
new page_size = record { pages = []; free_pages = []; page_size = page_size; next_page_id = 0 }

-- `id.checked_add(1)` on a `u32`.
abbrev pub checked_suc : ℕ → Option ℕ
checked_suc id = if ltb (id + 1) (2 ^ 32) then some (id + 1) else none

-- The id of the next page: a freed one if there is one.
unfoldable pub take_id : Exec MemoryError PageTable ℕ
take_id t = elim t.free_pages [
  | id ∷ rest ↦ (ok id, record t { free_pages = rest })
  | [] ↦ elim (checked_suc t.next_page_id) [
    | some n ↦ (ok t.next_page_id, record t { next_page_id = n })
    | none ↦ (err out_of_memory, t)
  ]
]

abbrev pub blank : ℕ → Page
blank size = record { bytes = replicate size 0; flags = default_flags }

unfoldable pub allocate_page : Exec MemoryError PageTable ℕ
unfolding take_id
allocate_page = do
  page_id ← take_id
  λ t. (ok page_id, record t { pages = insert page_id (blank t.page_size) t.pages })

unfoldable pub free_page : ℕ → PageTable → PageTable
free_page page_id t = elim (lookup page_id t.pages) [
  | some page ↦ record t { pages = remove page_id t.pages; free_pages = page_id ∷ t.free_pages }
  | none ↦ record t { pages = remove page_id t.pages }
]

-- `self.pages.get(&page_id).ok_or(MemoryError::PageFault(..))`
unfoldable pub find_page : ℕ → PageTable → Outcome MemoryError Page
find_page page_id t = elim (lookup page_id t.pages) [
  | some page ↦ ok page
  | none ↦ err (page_fault page_id)
]

abbrev pub read_page : Bool → PageTable → ℕ → ℕ → ℕ → Page → Outcome MemoryError (List ℕ)
read_page checks t page_id offset size page =
    if not page.flags.present
    then err (page_fault page_id)
    else elim (add_usize checks offset size) [
      | ok to ↦ if ltb t.page_size to then err (page_fault page_id) else slice page.bytes offset to
      | err e ↦ err e
      | panic ↦ panic
    ]

unfoldable pub read : Bool → ℕ → ℕ → ℕ → PageTable → Outcome MemoryError (List ℕ)
unfolding find_page add_usize slice
read checks page_id offset size t = elim (find_page page_id t) [
  | ok page ↦ read_page checks t page_id offset size page
  | err e ↦ err e
  | panic ↦ panic
]

-- `page.data[offset..to].copy_from_slice(data)`, which panics outside the page.
abbrev pub copy_into : List ℕ → ℕ → ℕ → List ℕ → Outcome MemoryError (List ℕ)
copy_into bytes offset to source =
    if leb offset to && leb to (length bytes)
    then ok (take offset bytes ++ (source ++ drop (offset + length source) bytes))
    else panic

abbrev pub write_page : Bool → PageTable → ℕ → ℕ → List ℕ → Page → Outcome MemoryError (List ℕ)
write_page checks t page_id offset source page =
    if not page.flags.present || not page.flags.writable
    then err (page_fault page_id)
    else elim (add_usize checks offset (length source)) [
      | ok to ↦
          if ltb t.page_size to
          then err (page_fault page_id)
          else copy_into page.bytes offset to source
      | err e ↦ err e
      | panic ↦ panic
    ]

abbrev pub touched : List ℕ → Page → Page
touched bytes page = record {
  bytes = bytes;
  flags = record page.flags { dirty = true; accessed = true };
}

unfoldable pub write : Bool → ℕ → ℕ → List ℕ → Exec MemoryError PageTable Unit
unfolding find_page add_usize
write checks page_id offset source t = elim (find_page page_id t) [
  | ok page ↦ elim (write_page checks t page_id offset source page) [
    | ok bytes ↦ (ok tt, record t { pages = insert page_id (touched bytes page) t.pages })
    | err e ↦ (err e, t)
    | panic ↦ (panic, t)
  ]
  | err e ↦ (err e, t)
  | panic ↦ (panic, t)
]

unfoldable pub set_flags : ℕ → PageFlags → Exec MemoryError PageTable Unit
unfolding find_page
set_flags page_id flags t = elim (find_page page_id t) [
  | ok page ↦ (ok tt, record t { pages = insert page_id (record page { flags = flags }) t.pages })
  | err e ↦ (err e, t)
  | panic ↦ (panic, t)
]

unfoldable pub get_flags : ℕ → PageTable → Outcome MemoryError PageFlags
unfolding find_page
get_flags page_id t = elim (find_page page_id t) [
  | ok page ↦ ok page.flags
  | err e ↦ err e
  | panic ↦ panic
]

-- `Page::clear`
unfoldable pub clear : Page → Page
clear page = record {
  bytes = replicate (length page.bytes) 0;
  flags = record page.flags { dirty = false; accessed = false };
}
