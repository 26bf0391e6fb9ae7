-- ===== src/Ipam/Block/Release/Effect.antt =====
-- What the operations that release addresses do to the block.
use zyzxlibcalico_go.Prelude.{
  ℕ, ◌<◌, ◌≡◌, refl, ◌∙◌, Option, none, some, List, ◌++◌, length, get_elem?, count, count-append,
  leb, if◌then◌else◌, arith, Bool-cases, inl, inr, get_elem?-of_lt, lt-of_get_elem?,
}
use zyzxlibcalico_go.Ipam.Block.{AllocationBlock, AllocationAttribute, Outcome, ok}
use zyzxlibcalico_go.Ipam.Block.Invariant.{one_if_free, IsBlock, attributes_of, attr_at}
use zyzxlibcalico_go.Ipam.Block.Release.{free_ordinals}
use zyzxlibcalico_go.Ipam.Block.Release.Counting.{
  clear, AllocatedAs, Distinct, AllocatedAs-Distinct, Distinct-count, AllocatedAs-count,
  length-clear, get_elem?-clear, free_ordinals_lem,
}

-- The ordinals are free, the other ordinals keep their attributes, and the block is well formed.
pub record Freed (os : List ℕ) (b : AllocationBlock) (out : Outcome AllocationBlock) : Type 0 where
  pub block : AllocationBlock
  pub returns : out ≡ ok block
  pub valid : IsBlock block
  pub range : block.cidr ≡ b.cidr
  pub lists : block.unallocated ≡ b.unallocated ++ os
  pub attrs : (j : ℕ) → attr_at block j ≡ (if leb 1 (count j os) then none else attr_at b j)

-- `allocs` and `attrs` are those of a block whose allocations were renumbered, some of them away.
pub record Renumbered (os : List ℕ) (b : AllocationBlock) (allocs : List (Option ℕ))
    (attrs : List AllocationAttribute) : Type 0 where
  pub sized : length allocs ≡ length b.allocations
  pub free : (o : ℕ) → get_elem? b.allocations o ≡ some none → get_elem? allocs o ≡ some none
  pub missing : (o : ℕ) → get_elem? b.allocations o ≡ none → get_elem? allocs o ≡ none
  pub kept :
      (o i : ℕ)
      → get_elem? b.allocations o ≡ some (some i)
      → count o os ≡ 0
      → (k : ℕ) × (get_elem? allocs o ≡ some (some k))
        × (get_elem? attrs k ≡ get_elem? b.attributes i)

module _ (os is : List ℕ) (b : AllocationBlock) (allocs : List (Option ℕ))
    (attrs : List AllocationAttribute) (v : IsBlock b) (a : AllocatedAs b.allocations os is)
    (r : Renumbered os b allocs attrs) where
  distinct : Distinct (length allocs) os
  distinct = rw r.sized (AllocatedAs-Distinct b.allocations os is a)

  -- An ordinal of `os` is allocated before, and counted once.
  once : (j : ℕ) → 0 < count j os → (count j os ≡ 1) × (count j b.unallocated ≡ 0)
  once j h =
      let (i, there) = AllocatedAs-count b.allocations os is j a h in
      (omega (arith, Distinct-count (length allocs) os j distinct), ground (arith, v.counted j))

  counted-freed :
      (j : ℕ) → count j (b.unallocated ++ os) ≡ one_if_free (get_elem? (clear os allocs) j)
  counted-freed j = elim (Bool-cases (leb 1 (count j os))) [
    | inl gone ↦
        ground
          (arith, get_elem?-clear os allocs j distinct, count-append j b.unallocated os, once j)
    | inr stays ↦ go (get_elem? b.allocations j) refl (ground arith)
  ]
    where
      go :
          (x : Option (Option ℕ))
          → get_elem? b.allocations j ≡ x
          → count j os ≡ 0
          → count j (b.unallocated ++ os) ≡ one_if_free (get_elem? (clear os allocs) j)
      go none e z = ground (
        arith,
        get_elem?-clear os allocs j distinct,
        count-append j b.unallocated os,
        v.counted j,
        r.missing j e,
      )
      go (some none) e z = ground (
        arith,
        get_elem?-clear os allocs j distinct,
        count-append j b.unallocated os,
        v.counted j,
        r.free j e,
      )
      go (some (some i)) e z =
          let (k, there, same) = r.kept j i e z in
          ground (
            arith,
            get_elem?-clear os allocs j distinct,
            count-append j b.unallocated os,
            v.counted j,
          )

  attrs-freed :
      (j : ℕ)
      → attributes_of attrs (get_elem? (clear os allocs) j)
        ≡ (if leb 1 (count j os) then none else attr_at b j)
  attrs-freed j = elim (Bool-cases (leb 1 (count j os))) [
    | inl gone ↦ ground (arith, get_elem?-clear os allocs j distinct)
    | inr stays ↦ go (get_elem? b.allocations j) refl (ground arith)
  ]
    where
      go :
          (x : Option (Option ℕ))
          → get_elem? b.allocations j ≡ x
          → count j os ≡ 0
          → attributes_of attrs (get_elem? (clear os allocs) j)
            ≡ (if leb 1 (count j os) then none else attr_at b j)
      go none e z = ground (arith, get_elem?-clear os allocs j distinct, r.missing j e)
      go (some none) e z = ground (arith, get_elem?-clear os allocs j distinct, r.free j e)
      go (some (some i)) e z =
          let (k, there, same) = r.kept j i e z in
          ground (arith, get_elem?-clear os allocs j distinct)

  indexed-freed : (j k : ℕ) → get_elem? (clear os allocs) j ≡ some (some k) → k < length attrs
  indexed-freed j k h = elim (Bool-cases (leb 1 (count j os))) [
    | inl gone ↦ absurd (ground (arith, get_elem?-clear os allocs j distinct))
    | inr stays ↦
        go (get_elem? b.allocations j) refl (ground arith)
          (ground (arith, get_elem?-clear os allocs j distinct))
  ]
    where
      go :
          (x : Option (Option ℕ))
          → get_elem? b.allocations j ≡ x
          → count j os ≡ 0
          → get_elem? allocs j ≡ some (some k)
          → k < length attrs
      go none e z at = absurd (ground (arith, r.missing j e))
      go (some none) e z at = absurd (ground (arith, r.free j e))
      go (some (some i)) e z at =
          let (k', there, same) = r.kept j i e z in
          let (attr, found) = get_elem?-of_lt b.attributes i (v.indexed j i e) in
          let here : get_elem? attrs k' ≡ some attr = same ∙ found in
          let below : k' < length attrs = lt-of_get_elem? attrs k' here in
          let eq : k' ≡ k = ground arith in ground arith

  pub freed : Freed os b (free_ordinals os (record b { allocations = allocs; attributes = attrs }))
  freed = record {
    block = record b {
      allocations = clear os allocs;
      attributes = attrs;
      unallocated = b.unallocated ++ os;
    };
    returns = free_ordinals_lem os (record b { allocations = allocs; attributes = attrs }) distinct;
    valid = record {
      sized = length-clear os allocs ∙ (r.sized ∙ v.sized);
      counted = counted-freed;
      indexed = indexed-freed;
    };
    range = refl;
    lists = refl;
    attrs = attrs-freed;
  }
