-- ===== src/Ipam/Block/Assigning/Single.antt =====
-- assign of ipam_block.go: one address that the caller chooses.

use zyzxlibcalico_go.Prelude.{
  ℕ, ◌-◌, ◌<◌, ◌≡◌, refl, ◌∙◌, String, Bool, Option, none, some, List, [], ◌∷◌, length, get_elem?,
  count, ◌==◌, if◌then◌else◌, arith, get_elem?-set, get_elem?-of_lt, lt-of_get_elem?, length-set,
  lt→ltb,
}
use zyzxlibcalico_go.Prelude.Dict.{Dict}
use zyzxlibcalico_go.Ipam.Address.{Ip, IpNet, num_addresses, ip_to_ordinal}
use zyzxlibcalico_go.Ipam.Block.{
  AllocationBlock, Outcome, ok, err, already_exists, index, attribute, find_or_add,
  find_or_add_attribute, remove_ordinal, assign, check_affinity,
}
use zyzxlibcalico_go.Ipam.Block.Invariant.{IsBlock, handle_at, find_or_add-Found}
use zyzxlibcalico_go.Ipam.Block.Assigning.{give, handle_at-give, give-indexed}

pub ip_to_ordinal-lt :
    (cidr : IpNet) (ip : Ip) {o : ℕ} → ip_to_ordinal cidr ip ≡ some o → o < num_addresses cidr
unfolding ip_to_ordinal
ip_to_ordinal-lt cidr ip h = ground arith

count-remove_ordinal :
    (o : ℕ) (us : List ℕ) (j : ℕ)
    → count j (remove_ordinal o us) ≡ count j us - (if o == j then 1 else 0)
unfolding remove_ordinal
count-remove_ordinal o [] j = omega arith
count-remove_ordinal o (u ∷ us) j = ground (arith, count-remove_ordinal o us j)

-- The outcome of assign for an ordinal, by what the block said of it before: the free ordinal gets
-- the handle, and no other ordinal changes; one that is allocated is refused.
abbrev pub Assigns :
    AllocationBlock → ℕ → Option String → Option (Option String) → Outcome AllocationBlock → Type 0
Assigns b o handle (some h) out = out ≡ err already_exists
Assigns b o handle none out =
    (b' : AllocationBlock) × (out ≡ ok b')
    × IsBlock b'
    × (b'.cidr ≡ b.cidr)
    × ((j : ℕ) → handle_at b' j ≡ (if o == j then some handle else handle_at b j))

module _ (check : Bool) (address : Ip) (handle : Option String) (attrs : Option (Dict String))
    (host : String) (b : AllocationBlock) (o : ℕ) where
  assign_free :
      IsBlock b
      → check_affinity check host b.affinity ≡ ok tt
      → ip_to_ordinal b.cidr address ≡ some o
      → get_elem? b.allocations o ≡ some none
      → Assigns b o handle none (assign check address handle attrs host b)
  unfolding assign find_or_add_attribute
  assign_free v passes inside free =
      let attr = attribute handle attrs in
      let r = find_or_add attr b.attributes in
      let f = find_or_add-Found attr b.attributes in
      let pos = lt-of_get_elem? b.allocations o free in
      (
        record (give o r b) { unallocated = remove_ordinal o b.unallocated },
        rw passes (rw inside (rw (free, index) (rw (lt→ltb _ _ pos) refl))),
        record {
          sized = length-set b.allocations o (some r.0) ∙ v.sized;
          counted = λ j. ground (
            arith,
            v.counted j,
            count-remove_ordinal o b.unallocated j,
            get_elem?-set b.allocations o j (some r.0),
          );
          indexed = give-indexed o attr r b f pos v.indexed;
        },
        refl,
        handle_at-give o attr r b f pos v.indexed,
      )

  assign_taken :
      (i : ℕ)
      → check_affinity check host b.affinity ≡ ok tt
      → ip_to_ordinal b.cidr address ≡ some o
      → get_elem? b.allocations o ≡ some (some i)
      → assign check address handle attrs host b ≡ err already_exists
  unfolding assign
  assign_taken i passes inside taken = rw passes (rw inside (rw (taken, index) refl))

  -- If the affinity check passes and the address is the ordinal `o` of the block, assign gives a free
  -- ordinal the handle, changes the handle of no other ordinal and keeps the block well formed; it
  -- refuses an ordinal that is allocated. It never panics.
  pub assign_lem :
      IsBlock b
      → check_affinity check host b.affinity ≡ ok tt
      → ip_to_ordinal b.cidr address ≡ some o
      → Assigns b o handle (handle_at b o) (assign check address handle attrs host b)
  assign_lem v passes inside =
      let pos : o < length b.allocations =
        omega (arith, v.sized, ip_to_ordinal-lt b.cidr address inside) in
      let (a, there) = get_elem?-of_lt b.allocations o pos in go a there
    where
      go :
          (a : Option ℕ)
          → get_elem? b.allocations o ≡ some a
          → Assigns b o handle (handle_at b o) (assign check address handle attrs host b)
      go none there = rw there (assign_free v passes inside there)
      go (some i) there =
          let (attr, known) = get_elem?-of_lt b.attributes i (v.indexed o i there) in
          rw there (rw known (assign_taken i passes inside there))
