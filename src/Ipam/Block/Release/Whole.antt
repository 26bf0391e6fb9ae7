-- ===== src/Ipam/Block/Release/Whole.antt =====
-- release, from the attributes that it deletes to the block that it leaves.
use zyzxlibcalico_go.Prelude.{
  String, ℕ, ◌≤◌, ◌≡◌, refl, ◌∙◌, true, Option, none, some, List, [], ◌∷◌, get_elem?, count, leb,
  if◌then◌else◌, arith, Bool-cases, inl, inr,
}
use zyzxlibcalico_go.Prelude.Dict.{lookup, Dict}
use zyzxlibcalico_go.Ipam.Address.{Ip}
use zyzxlibcalico_go.Ipam.Block.{AllocationBlock, AllocationAttribute, Outcome, ok}
use zyzxlibcalico_go.Ipam.Block.Invariant.{IsBlock, attributes_of, attr_at}
use zyzxlibcalico_go.Ipam.Block.Release.{
  int_in_slice, delete_attributes, delete_if_any, attribute_ref_counts, attrs_to_delete,
  release_unique, empty_scan,
}
use zyzxlibcalico_go.Ipam.Block.Release.Scanning.{
  AllOne, is_named, At, idle, if_allocated, scan-Scanned,
}
use zyzxlibcalico_go.Ipam.Block.Release.Compaction.{delete_attributes-Compacted}
use zyzxlibcalico_go.Ipam.Block.Release.Counting.{
  clear, AllocatedAs, refs-clear, refs-pos, get_elem?-clear, AllocatedAs-Distinct,
}
use zyzxlibcalico_go.Ipam.Block.Release.Effect.{Renumbered, freed}

attrs_to_delete_lem :
    (freed refs rest : List ℕ) (i : ℕ)
    → int_in_slice i (attrs_to_delete freed refs rest) ≡ true
    → count i refs ≡ count i freed
unfolding attrs_to_delete int_in_slice
attrs_to_delete_lem freed refs [] i h = cc
attrs_to_delete_lem freed refs (k ∷ rest) i h =
    ground (arith, attrs_to_delete_lem freed refs rest i)

-- Every allocation whose attribute is deleted is freed.
closed :
    (b : AllocationBlock) (os is : List ℕ)
    → AllocatedAs b.allocations os is
    → (j i : ℕ) → get_elem? b.allocations j ≡ some (some i)
    → int_in_slice i (attrs_to_delete is (attribute_ref_counts b.allocations) is) ≡ true
    → 1 ≤ count j os
closed b os is a j i there goes = elim (Bool-cases (leb 1 (count j os))) [
  | inl freed ↦ ground arith
  | inr stays ↦
      let distinct = AllocatedAs-Distinct b.allocations os is a in
      let still : get_elem? (clear os b.allocations) j ≡ some (some i) =
        ground (arith, get_elem?-clear os b.allocations j distinct) in
      absurd (
        omega (
          arith,
          refs-pos (clear os b.allocations) j i still,
          refs-clear os is b.allocations i a,
          attrs_to_delete_lem is (attribute_ref_counts b.allocations) is i goes,
        ))
]

-- The deletion of attributes that only ordinals of `os` have.
pub record Deleted (os : List ℕ) (b : AllocationBlock) (out : Outcome AllocationBlock)
    : Type 0 where
  pub allocs : List (Option ℕ)
  pub attrs : List AllocationAttribute
  pub returns : out ≡ ok (record b { attributes = attrs; allocations = allocs })
  pub renumbered : Renumbered os b allocs attrs

pub delete_attributes-Deleted :
    (os del : List ℕ) (b : AllocationBlock)
    → IsBlock b
    → ((j i : ℕ)
        → get_elem? b.allocations j ≡ some (some i)
        → int_in_slice i del ≡ true
        → 1 ≤ count j os)
    → Deleted os b (delete_attributes del b)
delete_attributes-Deleted os del b v only =
    let c = delete_attributes-Compacted del b v.sized v.indexed in
    record {
      allocs = c.allocations;
      attrs = c.attributes;
      returns = c.returns;
      renumbered = record {
        sized = c.sized;
        free = c.free;
        missing = c.missing;
        kept = λ o i e z. elim (Bool-cases (int_in_slice i del)) [
          | inl goes ↦ absurd (omega (arith, only o i e goes))
          | inr stays ↦ c.kept o i e stays
        ];
      };
    }

delete_if_any-Deleted :
    (os del : List ℕ) (b : AllocationBlock)
    → IsBlock b
    → ((j i : ℕ)
        → get_elem? b.allocations j ≡ some (some i)
        → int_in_slice i del ≡ true
        → 1 ≤ count j os)
    → Deleted os b (delete_if_any del b)
delete_if_any-Deleted os [] b v only = record {
  allocs = b.allocations;
  attrs = b.attributes;
  returns = refl;
  renumbered = record {
    sized = refl;
    free = λ o h. h;
    missing = λ o h. h;
    kept = λ o i e z. (i, e, refl);
  };
}
delete_if_any-Deleted os (i ∷ del) b v only = delete_attributes-Deleted os (i ∷ del) b v only

-- What release does with addresses at the ordinals `os`.
pub record Released (ips : List Ip) (os : List ℕ) (b : AllocationBlock)
    (out : Outcome (List Ip × Dict ℕ × AllocationBlock)) : Type 0 where
  pub counts : Dict ℕ
  pub block : AllocationBlock
  pub ones : AllOne counts
  pub named :
      (handle : String) → lookup handle counts ≡ (if is_named b handle os then some 1 else none)
  pub range : block.cidr ≡ b.cidr
  pub returns : out ≡ ok (idle b ips os, counts, block)
  pub valid : IsBlock block
  pub attrs : (j : ℕ) → attr_at block j ≡ (if leb 1 (count j os) then none else attr_at b j)

freed_once :
    (x : Option (Option ℕ)) (n : ℕ) (attrs : List AllocationAttribute)
    → (if leb 1 (if_allocated x n) then none else attributes_of attrs x)
      ≡ (if leb 1 n then none else attributes_of attrs x)
freed_once none n attrs = ground arith
freed_once (some none) n attrs = ground arith
freed_once (some (some i)) n attrs = refl

-- release of addresses in a well-formed block, at different ordinals, never fails: it returns
-- exactly the addresses that were not allocated, and leaves a well-formed block in which the
-- ordinals of the addresses are not allocated and every other ordinal has the attributes it had. It
-- returns a count for exactly the handles of the addresses that it released, and each count is 1,
-- whatever number of the handle's addresses that is.
pub release_unique_lem :
    (b : AllocationBlock) (ips : List Ip) (os : List ℕ)
    → IsBlock b
    → At b.cidr ips os
    → ((j : ℕ) → count j os ≤ 1)
    → Released ips os b (release_unique ips b)
unfolding release_unique lookup
release_unique_lem b ips os v at once =
    let s = scan-Scanned b ips os empty_scan v at tt (λ j. omega (arith, once j)) in
    let del = attrs_to_delete s.found.freed (attribute_ref_counts b.allocations) s.found.freed in
    let d =
      delete_if_any-Deleted s.found.ordinals del b v
        (closed b s.found.ordinals s.found.freed s.pairs) in
    let f = freed s.found.ordinals s.found.freed b d.allocs d.attrs v s.pairs d.renumbered in
    record {
      counts = s.found.count_by_handle;
      block = f.block;
      ones = s.ones (λ h n e. cc);
      named = s.named;
      returns = rw s.returns (rw d.returns (rw f.returns (rw s.reported refl)));
      range = f.range;
      valid = f.valid;
      attrs = λ j.
          let c : count j s.found.ordinals ≡ if_allocated (get_elem? b.allocations j) (count j os) =
            omega (arith, s.counts j) in
          f.attrs j ∙ rw c (freed_once (get_elem? b.allocations j) (count j os) b.attributes);
    }
