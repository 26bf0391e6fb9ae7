-- ===== src/Ipam/Block/Assigning.antt =====
-- autoAssign and assign of ipam_block.go keep the block well formed, and change exactly what they
-- hand out.
pub mod Single
use mathlib.Core.Option
use zyzxlibcalico_go.Prelude.{
  ℕ, zero, suc, ◌+◌, ◌≤◌, ◌<◌, ◌≡◌, refl, sym, ◌∙◌, ap, String, Bool, true, false, ◌&&◌, Option,
  none, some, List, [], ◌∷◌, ◌++◌, map, length, get_elem?, set, count, ltb, leb, ◌==◌,
  if◌then◌else◌, arith, Bool-cases, Option-cases, inl, inr, get_elem?-set, lt-of_get_elem?,
  length-set, take, drop, lt→ltb,
}
use zyzxlibcalico_go.Prelude.Dict.{Dict}
use zyzxlibcalico_go.Ipam.Address.{Ip, IpNet, num_addresses, increment_ip, ip_to_ordinal}
use zyzxlibcalico_go.Ipam.Block.{
  AllocationBlock, AllocationAttribute, Outcome, ok, err, panic, ◌>>=◌, index, assign_index,
  attribute, find_or_add, find_or_add_attribute, take_ordinals, allocate, auto_assign,
  remove_ordinal, assign, check_affinity, check_free, or_not_in_block,
}
use zyzxlibcalico_go.Ipam.Block.Invariant.{
  one_if_free, IsPending, IsBlock, attributes_of, attr_at, handle_at, Found, find_or_add-Found,
}

-- The address of an ordinal, as autoAssign returns it.
abbrev pub ip_net_at : IpNet → ℕ → IpNet
ip_net_at cidr o = record cidr { ip = increment_ip cidr.ip o }

-- One ordinal is allocated with the attributes that are found or added.
abbrev pub give : ℕ → ℕ × List AllocationAttribute → AllocationBlock → AllocationBlock
give o r b = record b { attributes = r.1; allocations = set b.allocations o (some r.0) }

module _ (o : ℕ) (attr : AllocationAttribute) (r : ℕ × List AllocationAttribute)
    (b : AllocationBlock) (f : Found attr b.attributes r) (pos : o < length b.allocations) where
  pub give-indexed :
      ((o i : ℕ) → get_elem? b.allocations o ≡ some (some i) → i < length b.attributes)
      → (j i : ℕ) → get_elem? (give o r b).allocations j ≡ some (some i)
      → i < length r.1
  give-indexed h j i e =
      ground (arith, h j i, get_elem?-set b.allocations o j (some r.0), f.grows, f.inside)

  pub handle_at-give :
      ((o i : ℕ) → get_elem? b.allocations o ≡ some (some i) → i < length b.attributes)
      → (j : ℕ)
      → handle_at (give o r b) j ≡ (if o == j then some attr.attr_primary else handle_at b j)
  handle_at-give h j =
      rw (get_elem?-set b.allocations o j (some r.0) pos) (go (get_elem? b.allocations j) refl)
    where
      go :
          (a : Option (Option ℕ))
          → get_elem? b.allocations j ≡ a
          → Option.map
              (λ (a : AllocationAttribute). a.attr_primary)
              (attributes_of r.1 (if o == j then some (some r.0) else a))
            ≡ (if o == j
                then some attr.attr_primary
                else Option.map
                    (λ (a : AllocationAttribute). a.attr_primary)
                    (attributes_of b.attributes a))
      go none e = ground (arith, f.handled)
      go (some none) e = ground (arith, f.handled)
      go (some (some i)) e = ground (arith, f.handled, f.kept i (h j i e))

  IsPending-give : (os : List ℕ) → IsPending (o ∷ os) b → IsPending os (give o r b)
  IsPending-give os p = record {
    sized = length-set b.allocations o (some r.0) ∙ p.sized;
    counted = λ j. ground (arith, p.counted j, get_elem?-set b.allocations o j (some r.0));
    indexed = give-indexed p.indexed;
  }

-- A pending ordinal is in range.
lt-of_pending :
    (o : ℕ) (os : List ℕ) (b : AllocationBlock) → IsPending (o ∷ os) b → o < length b.allocations
lt-of_pending o os b p = elim (Option-cases (get_elem? b.allocations o)) [
  | inl missing ↦ absurd (ground (arith, p.counted o))
  | inr (a, there) ↦ lt-of_get_elem? b.allocations o there
]

-- What a run of the allocating loop returns, and what it leaves.
pub record Allocated (os : List ℕ) (handle : Option String) (b : AllocationBlock)
    (out : Outcome (List IpNet × AllocationBlock)) : Type 0 where
  pub block : AllocationBlock
  pub returns : out ≡ ok (map (ip_net_at b.cidr) os, block)
  pub valid : IsBlock block
  pub handles :
      (j : ℕ) → handle_at block j ≡ (if leb 1 (count j os) then some handle else handle_at b j)
  pub left : block.unallocated ≡ b.unallocated
  pub same : block.cidr ≡ b.cidr

allocate-Allocated :
    (os : List ℕ) (handle : Option String) (attrs : Option (Dict String)) (b : AllocationBlock)
    → IsPending os b
    → Allocated os handle b (allocate os handle attrs b)
unfolding allocate find_or_add_attribute
allocate-Allocated [] handle attrs b p = record {
  block = b;
  returns = refl;
  valid = record {
    sized = p.sized;
    counted = λ j. omega (arith, p.counted j);
    indexed = p.indexed;
  };
  handles = λ j. refl;
  left = refl;
  same = refl;
}
allocate-Allocated (o ∷ os) handle attrs b p =
    let attr = attribute handle attrs in
    let r = find_or_add attr b.attributes in
    let f = find_or_add-Found attr b.attributes in
    let pos = lt-of_pending o os b p in
    let rest =
      allocate-Allocated os handle attrs (give o r b) (IsPending-give o attr r b f pos os p) in
    record {
      block = rest.block;
      returns = rw (lt→ltb _ _ pos) (rw rest.returns (rw rest.same refl));
      valid = rest.valid;
      handles = λ j. ground (arith, rest.handles j, handle_at-give o attr r b f pos p.indexed j);
      left = rest.left;
      same = rest.same;
    }

take_ordinals-count :
    (num : ℕ) (us : List ℕ) (j : ℕ)
    → count j (take_ordinals num us).0 + count j (take_ordinals num us).1 ≡ count j us
unfolding take_ordinals
take_ordinals-count zero us j = omega arith
take_ordinals-count (suc num) [] j = omega arith
take_ordinals-count (suc num) (u ∷ us) j = ground (arith, take_ordinals-count num us j)

take_ordinals_lem : (num : ℕ) (us : List ℕ) → take_ordinals num us ≡ (take num us, drop num us)
unfolding take_ordinals
take_ordinals_lem zero us = refl
take_ordinals_lem (suc num) [] = refl
take_ordinals_lem (suc num) (u ∷ us) = rw (take_ordinals_lem num us)

-- If the affinity check passes, autoAssign hands out the first `num` unallocated ordinals, or all
-- of them if there are fewer: it returns their addresses, leaves the others unallocated, gives each
-- of them the handle, changes the handle of no other ordinal, and keeps the block well formed and its
-- CIDR.
pub auto_assign_lem :
    (num : ℕ) (handle : Option String) (host : String) (attrs : Option (Dict String)) (check : Bool)
    (b : AllocationBlock)
    → IsBlock b
    → check_affinity check host b.affinity ≡ ok tt
    → (b' : AllocationBlock) × (auto_assign num handle host attrs check b
        ≡ ok (map (ip_net_at b.cidr) (take num b.unallocated), b'))
      × IsBlock b'
      × (b'.unallocated ≡ drop num b.unallocated)
      × ((j : ℕ)
          → handle_at b' j
            ≡ (if leb 1 (count j (take num b.unallocated)) then some handle else handle_at b j))
      × (b'.cidr ≡ b.cidr)
unfolding auto_assign
auto_assign_lem num handle host attrs check b v passes =
    let taken = take num b.unallocated in
    let b1 = record b { unallocated = drop num b.unallocated } in
    let parts = take_ordinals_lem num b.unallocated in
    let pending : IsPending taken b1 = record {
      sized = v.sized;
      counted =
          λ j. ground (arith, v.counted j, rw parts at (take_ordinals-count num b.unallocated j));
      indexed = v.indexed;
    } in
    let a = allocate-Allocated taken handle attrs b1 pending in
    (a.block, rw passes (rw parts a.returns), a.valid, a.left, a.handles, a.same)
