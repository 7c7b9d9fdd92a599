-- ===== src/Memory/Tests.antt =====
-- The theorems on the memory at work, on a table with one page of four bytes.
use zkmips_zkvm_impl_in_rust.Base.{
  ℕ, ◌≤◌, ◌≡◌, refl, true, false, List, [], ◌∷◌, none, some, ok, arith, length, replicate, take,
  drop, inr, nat_eq, eqb, if◌then◌else◌,
}
use Prim.Native.Nat.{max}
use zkmips_zkvm_impl_in_rust.Base.Map
use zkmips_zkvm_impl_in_rust.Memory.Address.{MemoryAddress, address_eq}
use zkmips_zkvm_impl_in_rust.Memory.Permissions.{AccessPermissions, read_write, has_permission}
use zkmips_zkvm_impl_in_rust.Memory.PageTable
use zkmips_zkvm_impl_in_rust.Memory.PageTable.{Page, PageTable, blank, touched}
use zkmips_zkvm_impl_in_rust.Memory.PageTable.Access.{write-read, write-read_apart}
use zkmips_zkvm_impl_in_rust.Memory.Segment.{MemorySegment, code_segment, new_metadata}
use zkmips_zkvm_impl_in_rust.Memory.Gc
use zkmips_zkvm_impl_in_rust.Memory.Gc.{GarbageCollector, is_root_segment}
use zkmips_zkvm_impl_in_rust.Memory.Cache
use zkmips_zkvm_impl_in_rust.Memory.Cache.{LruCache}
use zkmips_zkvm_impl_in_rust.Memory.Cache.Methods.{get_lem}
use zkmips_zkvm_impl_in_rust.Memory.Cache.Recent.{
  Call, getting, reading, removing, answers, recents, recent, touch, shortened, shorten, keys,
}
use zkmips_zkvm_impl_in_rust.Memory.Cache.Refines.{new-answers}
use zkmips_zkvm_impl_in_rust.Memory.Manager
use zkmips_zkvm_impl_in_rust.Memory.Manager.{MemoryManager, MemoryStats}
use zkmips_zkvm_impl_in_rust.Memory.Manager.Reads.{IsValid, may}
use zkmips_zkvm_impl_in_rust.Memory.Manager.Writes.{write-read_back}

unfoldable table : PageTable
table = record { pages = (0, blank 4) ∷ []; free_pages = []; page_size = 4; next_page_id = 1 }

unfoldable written : PageTable
written = record table { pages = (0, touched (0 ∷ 7 ∷ 8 ∷ 0 ∷ []) (blank 4)) ∷ [] }

table-IsValid : PageTable.Invariant.IsValid table
unfolding table Map.lookup replicate
table-IsValid = record {
  distinct = (refl, tt);
  sized = ((refl, omega arith), tt);
  unused = tt;
  apart = tt;
  bounded = omega arith;
}

table_write : PageTable.write true 0 1 (7 ∷ 8 ∷ []) table ≡ (ok tt, written)
unfolding table written PageTable.write PageTable.find_page Map.lookup Map.insert Map.remove
    replicate take drop
table_write = refl

write-read_example :
    PageTable.Invariant.IsValid written
    × (PageTable.read false 0 1 2 written ≡ ok (7 ∷ 8 ∷ []))
    × ((j : ℕ)
        → (if eqb 0 j then none else Map.lookup j written.pages)
          ≡ (if eqb 0 j then none else Map.lookup j table.pages))
write-read_example =
    write-read table written true false 0 1 (7 ∷ 8 ∷ []) table-IsValid (omega arith) table_write

write-read_apart_example : PageTable.read false 0 3 1 written ≡ PageTable.read false 0 3 1 table
write-read_apart_example =
    write-read_apart table written true false 0 1 3 1 (7 ∷ 8 ∷ []) table-IsValid (omega arith)
      table_write (omega arith) (inr (omega arith))

unfoldable cache : LruCache ℕ ℕ
cache = record { capacity = 2; cache = (5, 50) ∷ (6, 60) ∷ []; lru = 5 ∷ 6 ∷ [] }

cache-IsValid : Cache.Recency.IsValid cache
unfolding cache Cache.listed Map.contains_key Map.lookup
cache-IsValid = record {
  distinct = (refl, (refl, tt));
  once = (refl, (refl, tt));
  agree = λ k. ground arith;
  sized = refl;
  bounded = omega arith;
}

six_is_found :
    ((Cache.get 6 cache).0 ≡ Map.lookup 6 cache.cache)
    × ((Cache.get 6 cache).1.cache ≡ cache.cache)
    × Cache.Recency.IsValid (Cache.get 6 cache).1
six_is_found = get_lem 6 cache cache-IsValid

-- A cache of two values: the first is read again, so that the third call drops the second.
abbrev calls : List (Call ℕ ℕ)
calls =
    reading 5 50 ∷ reading 6 60 ∷ getting 5 ∷ reading 7 70 ∷ getting 6 ∷ removing 7 ∷ getting 5 ∷ []

new-answers_example :
    ((answers calls (Cache.new 2)).0 ≡ (recents 2 calls []).0)
    × ((answers calls (Cache.new 2)).1.lru ≡ keys (recents 2 calls []).1)
    × (length (answers calls (Cache.new 2)).1.cache ≤ max 1 2)
new-answers_example = new-answers 2 calls

calls_answered : (recents 2 calls []).0 ≡ none ∷ none ∷ some 50 ∷ none ∷ none ∷ none ∷ some 50 ∷ []
unfolding recents recent touch shortened shorten Map.lookup Map.remove
calls_answered = refl

abbrev plain : MemorySegment
plain = record {
  segment_type = code_segment;
  base = 0;
  size = 16;
  max_size = 16;
  is_growable = false;
  metadata = new_metadata 0 0;
}

abbrev shared : MemorySegment
shared = record plain { metadata = record (new_metadata 0 0) { is_shared = true } }

abbrev segments : List MemorySegment
segments = shared ∷ plain ∷ shared ∷ []

abbrev place : MemoryAddress
place = record { segment_id = 0; page_id = 0; offset = 1 }

unfoldable manager : MemoryManager
manager = record {
  page_table = table;
  segments = plain ∷ [];
  permissions = (place, read_write) ∷ [];
  gc = Gc.new 100;
  cache = record { capacity = 2; cache = []; lru = [] };
  stats = record {
    total_allocations = 1;
    total_deallocations = 0;
    page_faults = 0;
    cache_hits = 0;
    cache_misses = 0;
  };
}

manager-IsValid : IsValid manager
unfolding manager Cache.listed Map.contains_key Map.lookup
manager-IsValid = record {
  table = table-IsValid;
  cached = record {
    distinct = tt;
    once = tt;
    agree = λ k. refl;
    sized = refl;
    bounded = omega arith;
  };
}

abbrev kept : MemoryManager
kept = record manager { page_table = written }

manager-write : Manager.write true place (7 ∷ 8 ∷ []) manager ≡ (ok tt, kept)
unfolding manager table written Manager.write Manager.check_permissions has_permission Cache.remove
    Cache.listed PageTable.write PageTable.find_page Map.lookup Map.insert Map.remove replicate take
    drop
manager-write = refl

write-read_back_example : IsValid kept × ((Manager.read false place 2 kept).0 ≡ ok (7 ∷ 8 ∷ []))
unfolding manager may has_permission Map.lookup
write-read_back_example =
    write-read_back manager kept true false place (7 ∷ 8 ∷ []) manager-IsValid (omega arith)
      manager-write refl

unfoldable caching : MemoryManager
caching = record manager {
  cache = record { capacity = 2; cache = (place, 7 ∷ 8 ∷ []) ∷ []; lru = place ∷ [] };
}

caching-IsValid : IsValid caching
unfolding caching manager Cache.listed Map.contains_key Map.lookup
caching-IsValid = record {
  table = table-IsValid;
  cached = record {
    distinct = (refl, tt);
    once = (refl, tt);
    agree = λ k. ground arith;
    sized = refl;
    bounded = omega arith;
  };
}

abbrev nothing_allowed : AccessPermissions
nothing_allowed = record { bits = 0 }
