-- ===== src/Memory/Manager/Writes.antt =====
-- Writes through the cache, and reads behind them.
use zkmips_zkvm_impl_in_rust.Base.{
  ℕ, ◌+◌, ◌^◌, ◌<◌, ◌≡◌, Bool, true, List, length, Outcome, ok, err, panic, arith, if◌then◌else◌,
  nat_eq,
}
use zkmips_zkvm_impl_in_rust.Memory.Address.{
  MemoryAddress, MemoryError, permission_denied, address_eq,
}
use zkmips_zkvm_impl_in_rust.Memory.Permissions
use zkmips_zkvm_impl_in_rust.Memory.Permissions.{AccessPermissions, Permission, has_permission}
use zkmips_zkvm_impl_in_rust.Memory.PageTable
use zkmips_zkvm_impl_in_rust.Memory.PageTable.{PageTable}
use zkmips_zkvm_impl_in_rust.Memory.Cache
use zkmips_zkvm_impl_in_rust.Memory.Manager.{MemoryManager, read, write}
use zkmips_zkvm_impl_in_rust.Memory.Manager.Reads
use zkmips_zkvm_impl_in_rust.Memory.Manager.Reads.{IsValid, may, check_permissions_lem}

-- The manager after a write that the page table took.
abbrev pub stored : MemoryManager → MemoryAddress → PageTable → MemoryManager
stored m addr t = record m { page_table = t; cache = Cache.remove addr m.cache }

abbrev pub write_answer :
    MemoryManager
    → MemoryAddress
    → Outcome MemoryError Unit × PageTable
    → Outcome MemoryError Unit × MemoryManager
write_answer m addr (ok x, t) = (ok tt, stored m addr t)
write_answer m addr (err e, t) = (err e, record m { page_table = t })
write_answer m addr (panic, t) = (panic, record m { page_table = t })

-- A write needs the permission, before the page is looked at; without it, nothing changes. With
-- it, the page table decides, and the cache forgets the address just where the page is written.
pub write_lem :
    (m : MemoryManager) (checks : Bool) (addr : MemoryAddress) (source : List ℕ)
    → write checks addr source m ≡ (
        if may m addr Permissions.write
        then write_answer m addr
            (PageTable.write checks addr.page_id addr.offset source m.page_table)
        else (err (permission_denied addr.segment_id), m))
unfolding write
write_lem m checks addr source = ground (arith, check_permissions_lem m addr Permissions.write)

page_written :
    (m n : MemoryManager) (checks : Bool) (addr : MemoryAddress) (source : List ℕ)
    → write checks addr source m ≡ (ok tt, n)
    → (t : PageTable) × (PageTable.write checks addr.page_id addr.offset source m.page_table
        ≡ (ok tt, t))
      × (n ≡ stored m addr t)
page_written m n checks addr source e = (
  (PageTable.write checks addr.page_id addr.offset source m.page_table).1,
  ground (arith, write_lem m checks addr source),
  ground (arith, write_lem m checks addr source),
)

-- In a manager that keeps the invariant, behind a write that succeeds, a read of the address in
-- either build, with the permission, gives what was written, whatever the cache held before. The
-- manager keeps its invariant. The end of the range is a word.
pub write-read_back :
    (m n : MemoryManager) (checks again : Bool) (addr : MemoryAddress) (source : List ℕ)
    → IsValid m
    → addr.offset + length source < 2 ^ 64
    → write checks addr source m ≡ (ok tt, n)
    → may m addr Permissions.read ≡ true
    → IsValid n × ((read again addr (length source) n).0 ≡ ok source)
unfolding may
write-read_back m n checks again addr source v lt e readable =
    let (t, we, eq) = page_written m n checks addr source e in
    let (w, back, others) =
      PageTable.Access.write-read m.page_table t checks again addr.page_id addr.offset source
        v.table lt we in
    let (c, gone) = Cache.Methods.remove_lem addr addr m.cache v.cached in
    let u : IsValid (stored m addr t) = record { table = w; cached = c } in
    let given =
      Reads.read_uncached (stored m addr t) again addr (length source) u lt
        (ground (arith, gone, (address_eq).beq_iff addr addr)) in
    rw eq (
      u,
      ground (
        arith,
        given.0,
        PageTable.Access.read_lem t again addr.page_id addr.offset (length source) w lt,
        back,
      ),
    )
