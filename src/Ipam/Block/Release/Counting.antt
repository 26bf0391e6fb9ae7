-- ===== src/Ipam/Block/Release/Counting.antt =====
-- The reference counts of the attributes, as ordinals are freed.
use mathlib.Core.List.{append_assoc, append-nil}
use zyzxlibcalico_go.Prelude.{
  ==_iff, ℕ, zero, suc, ◌+◌, ◌≤◌, ◌<◌, ◌≡◌, refl, ◌∙◌, Option, none, some, List, [], ◌∷◌, ◌++◌,
  length, get_elem?, set, count, leb, ◌==◌, if◌then◌else◌, arith, Bool-cases, inl, inr,
  lt-of_get_elem?, get_elem?-set, length-set, lt→ltb,
}
use zyzxlibcalico_go.Ipam.Block.{AllocationBlock, ok}
use zyzxlibcalico_go.Ipam.Block.Release.{attribute_ref_counts, free_ordinals}

abbrev pub clear : List ℕ → List (Option ℕ) → List (Option ℕ)
clear [] allocs = allocs
clear (o ∷ os) allocs = clear os (set allocs o none)

-- The ordinals are different, and allocated with the indexes beside them.
abbrev pub AllocatedAs : List (Option ℕ) → List ℕ → List ℕ → Type 0
AllocatedAs allocs [] [] = Unit
AllocatedAs allocs [] (i ∷ is) = ⊥
AllocatedAs allocs (o ∷ os) [] = ⊥
AllocatedAs allocs (o ∷ os) (i ∷ is) =
    (get_elem? allocs o ≡ some (some i)) × (count o os ≡ 0) × AllocatedAs allocs os is

AllocatedAs-set :
    (allocs : List (Option ℕ)) (o : ℕ) (os is : List ℕ)
    → o < length allocs
    → count o os ≡ 0
    → AllocatedAs allocs os is
    → AllocatedAs (set allocs o none) os is
AllocatedAs-set allocs o [] [] h c a = tt
AllocatedAs-set allocs o [] (i ∷ is) h c a = a
AllocatedAs-set allocs o (p ∷ os) [] h c a = a
AllocatedAs-set allocs o (p ∷ os) (i ∷ is) h c (there, once, rest) = (
  ground (arith, get_elem?-set allocs o p none h),
  once,
  AllocatedAs-set allocs o os is h (ground arith) rest,
)

-- The ordinals are different, and below `n`.
abbrev pub Distinct : ℕ → List ℕ → Type 0
Distinct n [] = Unit
Distinct n (o ∷ os) = (o < n) × (count o os ≡ 0) × Distinct n os

pub AllocatedAs-Distinct :
    (allocs : List (Option ℕ)) (os is : List ℕ)
    → AllocatedAs allocs os is
    → Distinct (length allocs) os
AllocatedAs-Distinct allocs [] is a = tt
AllocatedAs-Distinct allocs (o ∷ os) [] a = absurd a
AllocatedAs-Distinct allocs (o ∷ os) (i ∷ is) (there, once, rest) =
    (lt-of_get_elem? allocs o there, once, AllocatedAs-Distinct allocs os is rest)

pub Distinct-count : (n : ℕ) (os : List ℕ) (j : ℕ) → Distinct n os → count j os ≤ 1
Distinct-count n [] j d = omega arith
Distinct-count n (o ∷ os) j (h, once, rest) = ground (arith, Distinct-count n os j rest)

pub AllocatedAs-count :
    (allocs : List (Option ℕ)) (os is : List ℕ) (j : ℕ)
    → AllocatedAs allocs os is
    → 0 < count j os
    → (i : ℕ) × (get_elem? allocs j ≡ some (some i))
AllocatedAs-count allocs [] is j a h = absurd (omega arith)
AllocatedAs-count allocs (o ∷ os) [] j a h = absurd a
AllocatedAs-count allocs (o ∷ os) (i ∷ is) j (there, once, rest) h = elim (Bool-cases (o == j)) [
  | inl same ↦ (i, rw (← (==_iff o j).0 same) there)
  | inr other ↦ AllocatedAs-count allocs os is j rest (ground arith)
]

pub length-clear :
    (os : List ℕ) (allocs : List (Option ℕ)) → length (clear os allocs) ≡ length allocs
length-clear [] allocs = refl
length-clear (o ∷ os) allocs = length-clear os (set allocs o none) ∙ length-set allocs o none

-- Clearing makes the ordinals free, and changes no other.
pub get_elem?-clear :
    (os : List ℕ) (allocs : List (Option ℕ)) (j : ℕ)
    → Distinct (length allocs) os
    → get_elem? (clear os allocs) j ≡ (if leb 1 (count j os) then some none else get_elem? allocs j)
get_elem?-clear [] allocs j d = refl
get_elem?-clear (o ∷ os) allocs j (pos, once, rest) = ground (
  arith,
  get_elem?-set allocs o j none pos,
  get_elem?-clear os (set allocs o none) j (rw (length-set allocs o none) rest),
)

refs-set :
    (allocs : List (Option ℕ)) (o i j : ℕ)
    → get_elem? allocs o ≡ some (some i)
    → count j (attribute_ref_counts (set allocs o none)) + (if i == j then 1 else 0)
      ≡ count j (attribute_ref_counts allocs)
unfolding attribute_ref_counts
refs-set [] o i j h = cc
refs-set (none ∷ allocs) zero i j h = cc
refs-set (some k ∷ allocs) zero i j h = ground arith
refs-set (none ∷ allocs) (suc o) i j h = refs-set allocs o i j h
refs-set (some k ∷ allocs) (suc o) i j h = ground (arith, refs-set allocs o i j h)

-- Freeing the ordinals takes away as many references as they hold.
pub refs-clear :
    (os is : List ℕ) (allocs : List (Option ℕ)) (j : ℕ)
    → AllocatedAs allocs os is
    → count j (attribute_ref_counts (clear os allocs)) + count j is
      ≡ count j (attribute_ref_counts allocs)
refs-clear [] [] allocs j a = omega arith
refs-clear [] (i ∷ is) allocs j a = absurd a
refs-clear (o ∷ os) [] allocs j a = absurd a
refs-clear (o ∷ os) (i ∷ is) allocs j (there, once, rest) =
    let pos = lt-of_get_elem? allocs o there in
    ground (
      arith,
      refs-set allocs o i j there,
      refs-clear os is (set allocs o none) j (AllocatedAs-set allocs o os is pos once rest),
    )

pub refs-pos :
    (allocs : List (Option ℕ)) (o i : ℕ)
    → get_elem? allocs o ≡ some (some i)
    → 0 < count i (attribute_ref_counts allocs)
unfolding attribute_ref_counts
refs-pos [] o i h = cc
refs-pos (none ∷ allocs) zero i h = cc
refs-pos (some k ∷ allocs) zero i h = ground arith
refs-pos (none ∷ allocs) (suc o) i h = refs-pos allocs o i h
refs-pos (some k ∷ allocs) (suc o) i h = ground (arith, refs-pos allocs o i h)

pub free_ordinals_lem :
    (os : List ℕ) (b : AllocationBlock)
    → Distinct (length b.allocations) os
    → free_ordinals os b
      ≡ ok (record b { allocations = clear os b.allocations; unallocated = b.unallocated ++ os })
unfolding free_ordinals
free_ordinals_lem [] b d = rw (append-nil b.unallocated)
free_ordinals_lem (o ∷ os) b (pos, once, rest) = rw (lt→ltb _ _ pos) (
    rw
      (free_ordinals_lem os
        (record b { allocations = set b.allocations o none; unallocated = b.unallocated ++ o ∷ [] })
        (rw (length-set b.allocations o none) rest))
      (rw (append_assoc b.unallocated (o ∷ []) os)))
