-- ===== src/Memory/Manager.antt =====
-- src/memory/mod.rs: `MemoryManager`. One thread calls it; the clocks that it reads are arguments.
-- `MemoryAddress` is a key of hash maps in the source, so its equality is that of its fields. The
-- counters of the statistics stay far from 2 ^ 64.
pub mod Reads
pub mod Writes
pub mod Allocation
use zkmips_zkvm_impl_in_rust.Base.{
  Attempt, done, blocked, ℕ, zero, suc, ◌+◌, ◌%◌, ◌^◌, Bool, true, false, List, [], ◌∷◌, ◌++◌,
  Option, none, some, leb, ltb, if◌then◌else◌, length, get_elem?, remove_at, Outcome, ok, err,
  panic, Exec, pure, fail, lift, continue, ◌>>=◌, ◌>>◌,
}
use zkmips_zkvm_impl_in_rust.Base.Map
use zkmips_zkvm_impl_in_rust.Base.Word.{add_usize, sub_usize, div_usize}
use zkmips_zkvm_impl_in_rust.Memory.Address.{
  MemoryAddress, MemoryError, permission_denied, address_eq,
}
use zkmips_zkvm_impl_in_rust.Memory.Permissions
use zkmips_zkvm_impl_in_rust.Memory.Permissions.{
  AccessPermissions, Permission, read_write, has_permission,
}
use zkmips_zkvm_impl_in_rust.Memory.PageTable
use zkmips_zkvm_impl_in_rust.Memory.PageTable.{PageTable}
use zkmips_zkvm_impl_in_rust.Memory.Segment
use zkmips_zkvm_impl_in_rust.Memory.Segment.{SegmentType, MemorySegment}
use zkmips_zkvm_impl_in_rust.Memory.Gc
use zkmips_zkvm_impl_in_rust.Memory.Gc.{GarbageCollector}
use zkmips_zkvm_impl_in_rust.Memory.Cache
use zkmips_zkvm_impl_in_rust.Memory.Cache.{LruCache}

pub record MemoryStats : Type 0 where
  pub total_allocations : ℕ
  pub total_deallocations : ℕ
  pub page_faults : ℕ
  pub cache_hits : ℕ
  pub cache_misses : ℕ

pub record MemoryManager : Type 0 where
  pub page_table : PageTable
  pub segments : List MemorySegment
  pub permissions : List (MemoryAddress × AccessPermissions)
  pub gc : GarbageCollector
  pub cache : LruCache MemoryAddress (List ℕ)
  pub stats : MemoryStats

pub record MemoryConfig : Type 0 where
  pub page_size : ℕ
  pub gc_threshold : ℕ
  pub cache_size : ℕ

abbrev pub Op : Type 0 → Type 0
Op A = Exec MemoryError MemoryManager A

unfoldable pub new : MemoryConfig → MemoryManager
unfolding PageTable.new Gc.new Cache.new
new config = record {
  page_table = PageTable.new config.page_size;
  segments = [];
  permissions = [];
  gc = Gc.new config.gc_threshold;
  cache = Cache.new config.cache_size;
  stats = record {
    total_allocations = 0;
    total_deallocations = 0;
    page_faults = 0;
    cache_hits = 0;
    cache_misses = 0;
  };
}

-- A call of a method of the page table.
abbrev pub on_pages : {A : Type 0} → Exec MemoryError PageTable A → Op A
on_pages f m = ((f m.page_table).0, record m { page_table = (f m.page_table).1 })

unfoldable pub check_permissions : MemoryAddress → Permission → Op Unit
check_permissions addr required m = elim (Map.lookup addr m.permissions) [
  | some perms ↦
      if has_permission perms required
      then (ok tt, m)
      else (err (permission_denied addr.segment_id), m)
  | none ↦ (err (permission_denied addr.segment_id), m)
]

-- What `read` does after a miss.
unfoldable pub read_through : Bool → MemoryAddress → ℕ → Op (List ℕ)
read_through checks addr size = do
  check_permissions addr Permissions.read
  found ← λ m. (PageTable.read checks addr.page_id addr.offset size m.page_table, m)
  λ m. (ok found, record m { cache = Cache.insert addr found m.cache })

unfoldable pub read : Bool → MemoryAddress → ℕ → Op (List ℕ)
unfolding read_through
read checks addr size m =
    let (hit, c) = Cache.get addr m.cache in
    elim hit [
      | some found ↦ (
        ok found,
        record m { cache = c; stats = record m.stats { cache_hits = m.stats.cache_hits + 1 } },
      )
      | none ↦ read_through checks addr size (record m {
        cache = c;
        stats = record m.stats { cache_misses = m.stats.cache_misses + 1 };
      })
    ]

unfoldable pub write : Bool → MemoryAddress → List ℕ → Op Unit
write checks addr source = do
  check_permissions addr Permissions.write
  on_pages (PageTable.write checks addr.page_id addr.offset source)
  λ m. (ok tt, record m { cache = Cache.remove addr m.cache })

unfoldable pub protect : MemoryAddress → AccessPermissions → Op Unit
protect addr perms m = (ok tt, record m { permissions = Map.insert addr perms m.permissions })

-- `segments.remove(id)` panics out of range, before anything is changed.
unfoldable pub deallocate : MemoryAddress → Op Unit
deallocate addr m =
    if ltb addr.segment_id (length m.segments)
    then (
      ok tt,
      record m {
        segments = remove_at addr.segment_id m.segments;
        page_table = PageTable.free_page addr.page_id m.page_table;
        permissions = Map.remove addr m.permissions;
        stats = record m.stats { total_deallocations = m.stats.total_deallocations + 1 };
      },
    )
    else (panic, m)

abbrev pub total_size : List MemorySegment → ℕ
total_size [] = 0
total_size (s ∷ l) = s.size + total_size l

-- `self.segments.read()`, by a thread that holds the write guard or does not.
abbrev pub read_segments : Bool → MemoryManager → Attempt (List MemorySegment)
read_segments true m = blocked
read_segments false m = done m.segments

unfoldable pub should_collect_garbage : Bool → MemoryManager → Attempt Bool
should_collect_garbage write_held m = elim (read_segments write_held m) [
  | blocked ↦ blocked
  | done segments ↦ done (leb m.gc.threshold (total_size segments))
]

-- The `for` loop of `allocate`: the pages of the segment. What was given out before an error stays
-- given out.
unfoldable pub allocate_pages : ℕ → Op (List ℕ)
allocate_pages zero = pure []
allocate_pages (suc n) = do
  page_id ← on_pages PageTable.allocate_page
  rest ← allocate_pages n
  pure (page_id ∷ rest)

abbrev pub pages_needed : Bool → ℕ → ℕ → Outcome MemoryError ℕ
pages_needed checks size page_size = elim (add_usize {E = MemoryError} checks size page_size) [
  | ok sum ↦ elim (sub_usize {E = MemoryError} checks sum 1) [
    | ok top ↦ div_usize top page_size
    | err e ↦ err e
    | panic ↦ panic
  ]
  | err e ↦ err e
  | panic ↦ panic
]

abbrev pub first_page : List ℕ → Outcome MemoryError ℕ
first_page [] = panic
first_page (id ∷ rest) = ok id

-- `allocate` behind the test of the threshold, for either answer. `elapsed_ms` is what a collection
-- takes and `now` the time at which the segment is made.
abbrev pub maybe_collect : Bool → ℕ → Op Unit
maybe_collect false elapsed_ms m = (ok tt, m)
maybe_collect true elapsed_ms m = elim (Gc.collect elapsed_ms m.gc m.segments) [
  | some (gc, segments) ↦ (ok tt, record m { gc = gc; segments = segments })
  | none ↦ (panic, m)
]

-- The address, with the default permissions.
abbrev pub granted : MemoryAddress → Op MemoryAddress
granted addr m = (
  ok addr,
  record m {
    permissions = Map.insert addr read_write m.permissions;
    stats = record m.stats { total_allocations = m.stats.total_allocations + 1 };
  },
)

unfoldable pub allocate_rest : Bool → Bool → ℕ → ℕ → ℕ → SegmentType → Op MemoryAddress
allocate_rest checks collects elapsed_ms now size segment_type = do
  maybe_collect collects elapsed_ms
  segment ← lift (Segment.new checks now now segment_type size)
  segment_id ← λ m. (ok (length m.segments % 2 ^ 32), m)
  λ m. (ok tt, record m { segments = m.segments ++ (segment ∷ []) })
  page_size ← λ m. (ok m.page_table.page_size, m)
  needed ← lift (pages_needed checks size page_size)
  page_ids ← allocate_pages needed
  page_id ← lift (first_page page_ids)
  granted (record { segment_id = segment_id; page_id = page_id; offset = 0 })

-- `allocate` takes the write guard of the segments before it asks whether to collect.
unfoldable pub allocate :
    Bool
    → ℕ
    → ℕ
    → ℕ
    → SegmentType
    → MemoryManager
    → Attempt (Outcome MemoryError MemoryAddress × MemoryManager)
allocate checks elapsed_ms now size segment_type m = elim (should_collect_garbage true m) [
  | blocked ↦ blocked
  | done collects ↦ done (allocate_rest checks collects elapsed_ms now size segment_type m)
]
