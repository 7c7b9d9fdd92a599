-- ===== src/Memory/Segment.antt =====
-- src/memory/segment.rs: segments. The clock that `SystemTime::now` reads is an argument, a number.
pub mod Sizes
use zkmips_zkvm_impl_in_rust.Base.{
  ℕ, ◌+◌, ◌-◌, ◌*◌, Bool, true, false, not, ◌&&◌, Option, none, some, ltb, leb, eqb, if◌then◌else◌,
  Outcome, ok, err, panic, Exec,
}
use zkmips_zkvm_impl_in_rust.Base.Word.{mul_usize, add_usize, usize_max}
use zkmips_zkvm_impl_in_rust.Memory.Address.{MemoryError, segment_fault, out_of_memory}

pub data SegmentType : Type 0 where
  code_segment data_segment stack_segment heap_segment : SegmentType

pub record SegmentMetadata : Type 0 where
  pub creation_time : ℕ
  pub last_access : ℕ
  pub reference_count : ℕ
  pub is_shared : Bool
  pub owner_id : Option ℕ

pub record MemorySegment : Type 0 where
  pub segment_type : SegmentType
  pub base : ℕ
  pub size : ℕ
  pub max_size : ℕ
  pub is_growable : Bool
  pub metadata : SegmentMetadata

-- `SegmentMetadata::new`: the clock is read twice.
unfoldable pub new_metadata : ℕ → ℕ → SegmentMetadata
new_metadata created accessed = record {
  creation_time = created;
  last_access = accessed;
  reference_count = 1;
  is_shared = false;
  owner_id = none;
}

-- The largest size and whether the segment may grow.
unfoldable pub limits : Bool → SegmentType → ℕ → Outcome MemoryError (ℕ × Bool)
unfolding mul_usize
limits checks code_segment size = ok (size, false)
limits checks data_segment size = elim (mul_usize {E = MemoryError} checks size 2) [
  | ok m ↦ ok (m, true)
  | err e ↦ err e
  | panic ↦ panic
]
limits checks stack_segment size = ok (1024 * 1024, true)
limits checks heap_segment size = ok (usize_max, true)

unfoldable pub new : Bool → ℕ → ℕ → SegmentType → ℕ → Outcome MemoryError MemorySegment
unfolding limits new_metadata
new checks created accessed segment_type size =
    if eqb size 0 then err out_of_memory else elim (limits checks segment_type size) [
      | ok (m, growable) ↦ ok (record {
        segment_type = segment_type;
        base = 0;
        size = size;
        max_size = m;
        is_growable = growable;
        metadata = new_metadata created accessed;
      })
      | err e ↦ err e
      | panic ↦ panic
    ]

unfoldable pub resize : ℕ → Exec MemoryError MemorySegment Unit
resize new_size s =
    if not s.is_growable
    then (err (segment_fault s.base), s)
    else if ltb s.max_size new_size
    then (err out_of_memory, s)
    else (ok tt, record s { size = new_size })

-- `&&` does not add where the address lies below the base.
unfoldable pub contains : Bool → MemorySegment → ℕ → Outcome MemoryError Bool
unfolding add_usize
contains checks s address =
    if leb s.base address
    then elim (add_usize {E = MemoryError} checks s.base s.size) [
      | ok end ↦ ok (ltb address end)
      | err e ↦ err e
      | panic ↦ panic
    ]
    else ok false

unfoldable pub offset : Bool → MemorySegment → ℕ → Outcome MemoryError (Option ℕ)
unfolding contains
offset checks s address = elim (contains checks s address) [
  | ok inside ↦ ok (if inside then some (address - s.base) else none)
  | err e ↦ err e
  | panic ↦ panic
]

unfoldable pub set_base : ℕ → MemorySegment → MemorySegment
set_base base s = record s { base = base }

-- A counter of references is far from 2 ^ 64.
unfoldable pub increment_ref_count : MemorySegment → MemorySegment
increment_ref_count s = record s {
  metadata = record s.metadata { reference_count = s.metadata.reference_count + 1 };
}

unfoldable pub decrement_ref_count : MemorySegment → ℕ × MemorySegment
decrement_ref_count s =
    let n : ℕ = s.metadata.reference_count - 1 in
    (n, record s { metadata = record s.metadata { reference_count = n } })

unfoldable pub set_shared : Bool → MemorySegment → MemorySegment
set_shared shared s = record s { metadata = record s.metadata { is_shared = shared } }

unfoldable pub set_owner : ℕ → MemorySegment → MemorySegment
set_owner owner_id s = record s { metadata = record s.metadata { owner_id = some owner_id } }

unfoldable pub update_access_time : ℕ → MemorySegment → MemorySegment
update_access_time now s = record s { metadata = record s.metadata { last_access = now } }
