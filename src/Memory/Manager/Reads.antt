-- ===== src/Memory/Manager/Reads.antt =====
-- Reads and writes through the cache.
use zkmips_zkvm_impl_in_rust.Base.{
  ℕ, ◌+◌, ◌^◌, ◌<◌, ◌≡◌, refl, ap, ◌∙◌, Bool, false, List, none, some, length, Outcome, ok, err,
  panic, arith, if◌then◌else◌, nat_eq,
}
use zkmips_zkvm_impl_in_rust.Base.Map
use zkmips_zkvm_impl_in_rust.Memory.Address.{
  MemoryAddress, MemoryError, permission_denied, address_eq,
}
use zkmips_zkvm_impl_in_rust.Memory.Permissions
use zkmips_zkvm_impl_in_rust.Memory.Permissions.{AccessPermissions, Permission, has_permission}
use zkmips_zkvm_impl_in_rust.Memory.PageTable
use zkmips_zkvm_impl_in_rust.Memory.PageTable.{PageTable}
use zkmips_zkvm_impl_in_rust.Memory.Cache
use zkmips_zkvm_impl_in_rust.Memory.Cache.{LruCache}
use zkmips_zkvm_impl_in_rust.Memory.Manager.{
  MemoryManager, check_permissions, read_through, read, protect, deallocate,
}

-- What the manager keeps: a sound page table and a sound cache.
pub record IsValid (m : MemoryManager) : Type 0 where
  pub table : PageTable.Invariant.IsValid m.page_table
  pub cached : Cache.Recency.IsValid m.cache

-- Whether the address has the permission.
unfoldable pub may : MemoryManager → MemoryAddress → Permission → Bool
may m addr p = elim (Map.lookup addr m.permissions) [
  | some perms ↦ has_permission perms p
  | none ↦ false
]

pub check_permissions_lem :
    (m : MemoryManager) (addr : MemoryAddress) (p : Permission)
    → check_permissions addr p m
      ≡ ((if may m addr p then ok tt else err (permission_denied addr.segment_id)), m)
unfolding may check_permissions
check_permissions_lem m addr p = ground arith

-- A cached address is read without a look at the permissions, the page or the size asked for:
-- the answer is what was cached, and the read counts as a hit.
pub read_cached :
    (m : MemoryManager) (checks : Bool) (addr : MemoryAddress) (size : ℕ) (found : List ℕ)
    → IsValid m
    → Map.lookup addr m.cache.cache ≡ some found
    → ((read checks addr size m).0 ≡ ok found)
      × ((read checks addr size m).1.stats.cache_hits ≡ m.stats.cache_hits + 1)
unfolding read
read_cached m checks addr size found v e =
    ground (arith, (Cache.Methods.get_lem addr m.cache v.cached).0)

-- In a manager that keeps the invariant, no change of the permissions of an address stops it from
-- being read while it is cached.
pub read_after_protect :
    (m : MemoryManager) (checks : Bool) (addr : MemoryAddress) (size : ℕ)
    (perms : AccessPermissions) (found : List ℕ)
    → IsValid m
    → Map.lookup addr m.cache.cache ≡ some found
    → (read checks addr size (protect addr perms m).1).0 ≡ ok found
unfolding protect
read_after_protect m checks addr size perms found v e =
    (read_cached (protect addr perms m).1 checks addr size found
      (record { table = v.table; cached = v.cached }) e).0

-- Giving the memory at an address back succeeds, and does not stop the address from being read
-- while it is cached, in a manager that keeps the invariant and has the segment.
pub read_after_deallocate :
    (m : MemoryManager) (checks : Bool) (addr : MemoryAddress) (size : ℕ) (found : List ℕ)
    → IsValid m
    → addr.segment_id < length m.segments
    → Map.lookup addr m.cache.cache ≡ some found
    → ((deallocate addr m).0 ≡ ok tt) × ((read checks addr size (deallocate addr m).1).0 ≡ ok found)
unfolding deallocate read
read_after_deallocate m checks addr size found v lt e =
    (ground arith, ground (arith, (Cache.Methods.get_lem addr m.cache v.cached).0))

-- What the page table answers.
abbrev pub page_answer : MemoryManager → MemoryAddress → ℕ → Outcome MemoryError (List ℕ)
page_answer m addr size =
    PageTable.Access.read_result m.page_table addr.page_id addr.offset size
      (Map.lookup addr.page_id m.page_table.pages)

-- The cache after an answer.
abbrev pub remembered :
    Outcome MemoryError (List ℕ)
    → MemoryAddress
    → LruCache MemoryAddress (List ℕ)
    → LruCache MemoryAddress (List ℕ)
remembered (ok found) addr c = Cache.insert addr found c
remembered (err e) addr c = c
remembered panic addr c = c

remembered-IsValid :
    (a : Outcome MemoryError (List ℕ)) (addr : MemoryAddress) (c : LruCache MemoryAddress (List ℕ))
    → Cache.Recency.IsValid c
    → Map.lookup addr c.cache ≡ none
    → Cache.Recency.IsValid (remembered a addr c)
remembered-IsValid (ok found) addr c v e = (Cache.Methods.insert_lem addr found c v e).0
remembered-IsValid (err x) addr c v e = v
remembered-IsValid panic addr c v e = v

abbrev pub checked_answer : MemoryManager → MemoryAddress → ℕ → Outcome MemoryError (List ℕ)
checked_answer m addr size =
    if may m addr Permissions.read
    then page_answer m addr size
    else err (permission_denied addr.segment_id)

read_through_lem :
    (m : MemoryManager) (checks : Bool) (addr : MemoryAddress) (size : ℕ)
    → IsValid m
    → addr.offset + size < 2 ^ 64
    → read_through checks addr size m ≡ (
      checked_answer m addr size,
      record m { cache = remembered (checked_answer m addr size) addr m.cache },
    )
unfolding read_through
read_through_lem m checks addr size v lt = ground (
  arith,
  check_permissions_lem m addr Permissions.read,
  PageTable.Access.read_lem m.page_table checks addr.page_id addr.offset size v.table lt,
)

-- In a manager that keeps the invariant, a read, within the words, of an address that is not
-- cached needs the permission, and then gives what the page holds; it is an error where either is
-- missing. It keeps the invariant.
pub read_uncached :
    (m : MemoryManager) (checks : Bool) (addr : MemoryAddress) (size : ℕ)
    → IsValid m
    → addr.offset + size < 2 ^ 64
    → Map.lookup addr m.cache.cache ≡ none
    → ((read checks addr size m).0 ≡ (
        if may m addr Permissions.read
        then PageTable.Access.read_result m.page_table addr.page_id addr.offset size
            (Map.lookup addr.page_id m.page_table.pages)
        else err (permission_denied addr.segment_id)))
      × IsValid (read checks addr size m).1
unfolding read may
read_uncached m checks addr size v lt e =
    let (answer, same, w) = Cache.Methods.get_lem addr m.cache v.cached in
    let missed : MemoryManager = record m {
      cache = (Cache.get addr m.cache).1;
      stats = record m.stats { cache_misses = m.stats.cache_misses + 1 };
    } in
    let through =
      read_through_lem missed checks addr size (record { table = v.table; cached = w }) lt in
    let kept =
      remembered-IsValid (checked_answer missed addr size) addr missed.cache w
        (ap (Map.lookup addr) same ∙ e) in
    rw (answer ∙ e, through, read) (refl, record { table = v.table; cached = kept })
