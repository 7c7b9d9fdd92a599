-- ===== src/Memory/Segment/Sizes.antt =====
-- The sizes of segments.
use zkmips_zkvm_impl_in_rust.Base.{
  ℕ, ◌+◌, ◌-◌, ◌*◌, ◌^◌, ◌<◌, ◌≤◌, ◌≡◌, ◌≢◌, ◌↔◌, ◌⊎◌, refl, Bool, true, false, none, some, ok,
  arith, ltb, leb, ◌&&◌, if◌then◌else◌,
}
use zkmips_zkvm_impl_in_rust.Memory.Segment.{
  SegmentType, code_segment, data_segment, stack_segment, heap_segment, MemorySegment, new, resize,
  offset, increment_ref_count, decrement_ref_count,
}

-- A segment keeps within its largest size.
pub record IsValid (s : MemorySegment) : Type 0 where
  pub within : s.size ≤ s.max_size

abbrev made : SegmentType → ℕ → ℕ → Bool → ℕ → ℕ → MemorySegment
made t size m growable created accessed = record {
  segment_type = t;
  base = 0;
  size = size;
  max_size = m;
  is_growable = growable;
  metadata = record {
    creation_time = created;
    last_access = accessed;
    reference_count = 1;
    is_shared = false;
    owner_id = none;
  };
}

-- A segment of a nonzero size, whose double is a word, and for a stack of at most 1 MiB, is made
-- in either build, with that size and within its limits.
pub new-IsValid :
    (checks : Bool) (created accessed size : ℕ) (t : SegmentType)
    → 0 < size
    → size * 2 < 2 ^ 64
    → (t ≢ stack_segment) ⊎ (size ≤ 1024 * 1024)
    → (s : MemorySegment) × (new checks created accessed t size ≡ ok s)
      × IsValid s
      × (s.size ≡ size)
      × (s.segment_type ≡ t)
unfolding new
new-IsValid checks created accessed size code_segment positive lt side =
    (made code_segment size size false created accessed, ground arith, ground arith, refl, refl)
new-IsValid checks created accessed size data_segment positive lt side = (
  made data_segment size (size * 2) true created accessed,
  ground arith,
  ground arith,
  refl,
  refl,
)
new-IsValid checks created accessed size stack_segment positive lt side = (
  made stack_segment size (1024 * 1024) true created accessed,
  ground arith,
  ground arith,
  refl,
  refl,
)
new-IsValid checks created accessed size heap_segment positive lt side = (
  made heap_segment size (2 ^ 64 - 1) true created accessed,
  ground arith,
  ground arith,
  refl,
  refl,
)

-- A stack may begin larger than it may ever be resized to.
pub new_stack_unbounded :
    (checks : Bool) (created accessed size : ℕ) (s : MemorySegment)
    → new checks created accessed stack_segment size ≡ ok s
    → 1024 * 1024 < size
    → ¬ IsValid s
unfolding new
new_stack_unbounded checks created accessed size s e big v = ground (arith, v.within)

-- A resize succeeds exactly for a segment that may grow and a size within its limit; it then sets
-- the size and nothing else, and otherwise changes nothing.
pub resize_lem :
    (s : MemorySegment) (n : ℕ)
    → IsValid s
    → IsValid (resize n s).1
      × ((resize n s).1
          ≡ record s { size = if s.is_growable && leb n s.max_size then n else s.size })
      × (((resize n s).0 ≡ ok tt) ↔ ((s.is_growable ≡ true) × (n ≤ s.max_size)))
unfolding resize
resize_lem s n v = (ground arith, ground arith, ground arith)

-- Where the end of the segment is a word, the offset of an address is its distance from the base
-- if the address is in the segment, and otherwise there is none.
pub offset_lem :
    (checks : Bool) (s : MemorySegment) (a : ℕ)
    → s.base + s.size < 2 ^ 64
    → offset checks s a
      ≡ ok (if leb s.base a && ltb a (s.base + s.size) then some (a - s.base) else none)
unfolding offset
offset_lem checks s a lt = ground arith

-- Counting a reference and dropping it again gives the segment back, and the count from before.
pub decrement-increment :
    (s : MemorySegment)
    → decrement_ref_count (increment_ref_count s) ≡ (s.metadata.reference_count, s)
unfolding decrement_ref_count increment_ref_count
decrement-increment s = ground arith
