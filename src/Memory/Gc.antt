-- ===== src/Memory/Gc.antt =====
-- src/memory/gc.rs: the collector. The marked set is a list; the time that a collection takes is an
-- argument. The counters stay far from 2 ^ 64. The page table, which `sweep` is given and does not
-- touch, is left out of its model.
pub mod Sweep
use zkmips_zkvm_impl_in_rust.Base.{
  ℕ, zero, suc, ◌+◌, ◌%◌, ◌^◌, Bool, true, false, ◌||◌, List, [], ◌∷◌, Option, none, some, ltb, eqb,
  if◌then◌else◌, length, remove_at,
}
use zkmips_zkvm_impl_in_rust.Memory.Segment.{MemorySegment}

pub record GcStats : Type 0 where
  pub collections : ℕ
  pub freed_segments : ℕ
  pub freed_pages : ℕ
  pub total_time_ms : ℕ

pub record GarbageCollector : Type 0 where
  pub threshold : ℕ
  pub marked : List ℕ
  pub stats : GcStats

unfoldable pub new : ℕ → GarbageCollector
new threshold = record {
  threshold = threshold;
  marked = [];
  stats = record { collections = 0; freed_segments = 0; freed_pages = 0; total_time_ms = 0 };
}

unfoldable pub contains : ℕ → List ℕ → Bool
contains i [] = false
contains i (x ∷ xs) = eqb x i || contains i xs

unfoldable pub is_root_segment : MemorySegment → Bool
is_root_segment s =
    s.metadata.is_shared || elim s.metadata.owner_id [ some o ↦ true | none ↦ false ]

-- `marked.insert(segment_id)`
unfoldable pub mark_segment : ℕ → List ℕ → List ℕ
unfolding contains
mark_segment i marked = if contains i marked then marked else i ∷ marked

-- The loop over `segments.iter().enumerate()` from the index `i` on; `i as u32` wraps.
unfoldable pub mark_from : ℕ → List MemorySegment → List ℕ → List ℕ
unfolding mark_segment is_root_segment
mark_from i [] marked = marked
mark_from i (s ∷ segments) marked =
    mark_from (i + 1) segments
      (if is_root_segment s then mark_segment (i % 2 ^ 32) marked else marked)

unfoldable pub mark : List MemorySegment → List ℕ → List ℕ
unfolding mark_from
mark segments marked = mark_from 0 segments marked

-- The loop of `sweep`, on fuel: the segments left, and how many segments and pages are counted as
-- freed. `none` when the fuel is used up.
unfoldable pub sweep_from :
    List ℕ → ℕ → ℕ → List MemorySegment → ℕ → ℕ → Option (List MemorySegment × ℕ × ℕ)
unfolding contains remove_at
sweep_from marked zero i segments freed_segments freed_pages = none
sweep_from marked (suc fuel) i segments freed_segments freed_pages =
    elim (ltb i (length segments)) [
      | false ↦ some (segments, freed_segments, freed_pages)
      | true ↦ elim (contains (i % 2 ^ 32) marked) [
        | true ↦ sweep_from marked fuel (i + 1) segments freed_segments freed_pages
        | false ↦
            sweep_from marked fuel i (remove_at i segments) (freed_segments + 1) (freed_pages + 1)
      ]
    ]

-- One turn for each segment, and one to leave the loop.
unfoldable pub sweep : List ℕ → List MemorySegment → Option (List MemorySegment × ℕ × ℕ)
unfolding sweep_from
sweep marked segments = sweep_from marked (suc (length segments)) 0 segments 0 0

abbrev pub collected :
    GarbageCollector → ℕ → List MemorySegment × ℕ × ℕ → GarbageCollector × List MemorySegment
collected gc elapsed_ms (segments, freed_segments, freed_pages) = (
  record gc {
    marked = [];
    stats = record {
      collections = gc.stats.collections + 1;
      freed_segments = gc.stats.freed_segments + freed_segments;
      freed_pages = gc.stats.freed_pages + freed_pages;
      total_time_ms = gc.stats.total_time_ms + elapsed_ms;
    };
  },
  segments,
)

unfoldable pub collect :
    ℕ → GarbageCollector → List MemorySegment → Option (GarbageCollector × List MemorySegment)
unfolding mark sweep
collect elapsed_ms gc segments = elim (sweep (mark segments gc.marked) segments) [
  | none ↦ none
  | some result ↦ some (collected gc elapsed_ms result)
]

unfoldable pub total_freed_memory : GcStats → ℕ
total_freed_memory stats = stats.freed_segments + stats.freed_pages
