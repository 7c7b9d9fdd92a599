-- ===== src/Memory/Gc/Sweep.antt =====
-- What a collection leaves.
use zkmips_zkvm_impl_in_rust.Base.{
  ℕ, zero, suc, ◌+◌, ◌-◌, ◌%◌, ◌^◌, ◌<◌, ◌≤◌, ◌≡◌, ◌∙◌, refl, sym, ap, Bool, false, ◌||◌, List, [],
  ◌∷◌, ◌++◌, some, arith, eqb, if◌then◌else◌, length, remove_at, length-append, Bool-cases, inl,
  inr,
}
use mathlib.Core.List.{append-nil, append_assoc}
use zkmips_zkvm_impl_in_rust.Memory.Segment.{MemorySegment}
use zkmips_zkvm_impl_in_rust.Memory.Gc.{
  GarbageCollector, contains, is_root_segment, mark_segment, mark_from, mark, sweep_from, sweep,
  collected, collect,
}

-- The segments before the first one that `test` refuses, counted from the index `i`.
abbrev pub prefix_from : (ℕ → MemorySegment → Bool) → ℕ → List MemorySegment → List MemorySegment
prefix_from test i [] = []
prefix_from test i (s ∷ l) = if test i s then s ∷ prefix_from test (i + 1) l else []

abbrev is_marked : List ℕ → ℕ → MemorySegment → Bool
is_marked marked i s = contains (i % 2 ^ 32) marked

remove_at-append :
    (pre post : List MemorySegment) (s : MemorySegment)
    → remove_at (length pre) (pre ++ s ∷ post) ≡ pre ++ post
unfolding remove_at
remove_at-append [] post s = refl
remove_at-append (x ∷ pre) post s = ap (◌∷◌ x) (remove_at-append pre post s)

length_middle :
    (pre post : List MemorySegment) (s : MemorySegment)
    → length (pre ++ s ∷ post) ≡ length pre + suc (length post)
length_middle pre post s = length-append {0} pre (s ∷ post)

-- From an index that is not marked on, everything goes: the index never moves.
sweep_unmarked :
    (marked : List ℕ) (pre rest : List MemorySegment) (fuel f g : ℕ)
    → contains (length pre % 2 ^ 32) marked ≡ false
    → length rest < fuel
    → sweep_from marked fuel (length pre) (pre ++ rest) f g
      ≡ some (pre, f + length rest, g + length rest)
unfolding sweep_from
sweep_unmarked marked pre rest zero f g e lt = absurd (omega arith)
sweep_unmarked marked pre [] (suc fuel) f g e lt = ground (arith, append-nil pre)
sweep_unmarked marked pre (s ∷ rest) (suc fuel) f g e lt = ground (
  arith,
  length_middle pre rest s,
  remove_at-append pre rest s,
  sweep_unmarked marked pre rest fuel (f + 1) (g + 1) e,
)

-- The count of what the prefix leaves behind.
abbrev lost : List ℕ → ℕ → List MemorySegment → ℕ
lost marked i l = length l - length (prefix_from (is_marked marked) i l)

prefix_le :
    (test : ℕ → MemorySegment → Bool) (i : ℕ) (l : List MemorySegment)
    → length (prefix_from test i l) ≤ length l
prefix_le test i [] = omega arith
prefix_le test i (s ∷ l) = ground (arith, prefix_le test (i + 1) l)

shift :
    (pre rest : List MemorySegment) (s : MemorySegment)
    → pre ++ s ∷ rest ≡ (pre ++ (s ∷ [])) ++ rest
shift pre rest s = sym (append_assoc pre (s ∷ []) rest)

sweep_from_lem :
    (marked : List ℕ) (i : ℕ) (pre rest all : List MemorySegment) (fuel f g : ℕ)
    → i ≡ length pre
    → all ≡ pre ++ rest
    → length rest < fuel
    → sweep_from marked fuel i all f g
      ≡ some (
        pre ++ prefix_from (is_marked marked) i rest,
        f + lost marked i rest,
        g + lost marked i rest,
      )
unfolding sweep_from
sweep_from_lem marked i pre rest all zero f g p q lt = absurd (omega arith)
sweep_from_lem marked i pre [] all (suc fuel) f g p q lt = ground (arith, append-nil pre)
sweep_from_lem marked i pre (s ∷ rest) all (suc fuel) f g p q lt =
    elim (Bool-cases (contains (i % 2 ^ 32) marked)) [
      | inl m ↦
          let n : i + 1 ≡ length (pre ++ (s ∷ [])) =
            omega (arith, length-append {0} pre (s ∷ [])) in
          let ih =
            sweep_from_lem marked (i + 1) (pre ++ (s ∷ [])) rest all fuel f g n
              (q ∙ shift pre rest s) (omega arith) in
          ground (
            arith,
            ih,
            m,
            length_middle pre rest s,
            sym (shift pre (prefix_from (is_marked marked) (i + 1) rest) s),
          )
      | inr u ↦ ground (arith, sweep_unmarked marked pre (s ∷ rest) (suc fuel) f g, append-nil pre)
    ]

contains_of_eq : (i j : ℕ) (m : List ℕ) → i ≡ j → contains i m ≡ contains j m
contains_of_eq i j m e = ap (λ k. contains k m) e

contains-mark_segment :
    (i j : ℕ) (m : List ℕ) → contains j (mark_segment i m) ≡ (eqb i j || contains j m)
unfolding contains mark_segment
contains-mark_segment i j m = elim (Bool-cases (contains i m)) [
  | inl old ↦ ground (arith, contains_of_eq i j m)
  | inr new ↦ ground arith
]

-- Marking from an index on marks nothing below it.
mark_from_below :
    (i j : ℕ) (l : List MemorySegment) (m : List ℕ)
    → j < i
    → i + length l ≤ 2 ^ 32
    → contains j (mark_from i l m) ≡ contains j m
unfolding mark_from
mark_from_below i j [] m lt le = refl
mark_from_below i j (s ∷ l) m lt le =
    mark_from_below (i + 1) j l (if is_root_segment s then mark_segment (i % 2 ^ 32) m else m)
      (omega arith) (omega arith)
    ∙ ground (arith, contains-mark_segment (i % 2 ^ 32) j m)

-- The marks agree with the roots, from the index `i` on.
abbrev Agree : List ℕ → ℕ → List MemorySegment → Type 0
Agree m i [] = Unit {0}
Agree m i (s ∷ l) = (contains (i % 2 ^ 32) m ≡ is_root_segment s) × Agree m (i + 1) l

mark_from-Agree :
    (i : ℕ) (l : List MemorySegment) (m : List ℕ)
    → ((j : ℕ) → i ≤ j → contains j m ≡ false)
    → i + length l ≤ 2 ^ 32
    → Agree (mark_from i l m) i l
unfolding mark_from
mark_from-Agree i [] m clear le = tt
mark_from-Agree i (s ∷ l) m clear le =
    let m' = if is_root_segment s then mark_segment (i % 2 ^ 32) m else m in
    (
      (ap (λ k. contains k (mark_from (i + 1) l m')) {x = i % 2 ^ 32} {y = i} (omega arith)
          ∙ mark_from_below (i + 1) i l m' (omega arith) (omega arith)
          ∙ ground (arith, contains-mark_segment (i % 2 ^ 32) i m, clear i)),
      mark_from-Agree (i + 1) l m'
          (λ j le'. ground (arith, contains-mark_segment (i % 2 ^ 32) j m, clear j)) (omega arith),
    )

abbrev pub take_while_root : List MemorySegment → List MemorySegment
take_while_root [] = []
take_while_root (s ∷ l) = if is_root_segment s then s ∷ take_while_root l else []

prefix-Agree :
    (m : List ℕ) (i : ℕ) (l : List MemorySegment)
    → Agree m i l
    → prefix_from (is_marked m) i l ≡ take_while_root l
prefix-Agree m i [] a = refl
prefix-Agree m i (s ∷ l) a = ground (arith, a.0, prefix-Agree m (i + 1) l a.1)

pub collect_lem :
    (elapsed_ms : ℕ) (gc : GarbageCollector) (l : List MemorySegment)
    → gc.marked ≡ []
    → length l ≤ 2 ^ 32
    → collect elapsed_ms gc l
      ≡ some (
          collected gc elapsed_ms (
            take_while_root l,
            length l - length (take_while_root l),
            length l - length (take_while_root l),
          ))
unfolding collect mark sweep
collect_lem elapsed_ms gc l e le = ground (
  arith,
  sweep_from_lem (mark_from 0 l gc.marked) 0 [] l l (suc (length l)) 0 0 refl refl,
  prefix-Agree (mark_from 0 l gc.marked) 0 l
      (mark_from-Agree 0 l gc.marked (λ j le'. rw (e, contains)) (omega arith)),
)

-- In particular a root that stands behind a segment that is no root is lost.
pub collect_loses_root :
    (elapsed_ms : ℕ) (gc : GarbageCollector) (s : MemorySegment) (l : List MemorySegment)
    → gc.marked ≡ []
    → length l < 2 ^ 32
    → is_root_segment s ≡ false
    → collect elapsed_ms gc (s ∷ l)
      ≡ some (collected gc elapsed_ms ([], suc (length l), suc (length l)))
collect_loses_root elapsed_ms gc s l e le r =
    collect_lem elapsed_ms gc (s ∷ l) e (omega arith) ∙ ground arith
