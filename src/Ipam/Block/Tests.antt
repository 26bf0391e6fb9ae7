-- ===== src/Ipam/Block/Tests.antt =====
-- A block of four addresses, 10.0.0.0/30: one free, two of one handle and one of another.
use zyzxlibcalico_go.Ipam.Block.Emptiness.{Decides, OnlyReserved, empty_lem}
use zyzxlibcalico_go.Ipam.Block.Queries.{empty, handle_for_ip}
use zyzxlibcalico_go.Ipam.Block.RoundTrips.{
  Undone, release-assign, or_unassigned_handle, handle_for_ip_lem,
}
use zyzxlibcalico_go.Prelude.{
  ◌^◌, ◌&&◌, ◌-◌, ltb, ℕ, zero, suc, ◌+◌, ◌≡◌, ◌≤◌, ◌<◌, refl, true, false, none, some, List, [],
  ◌∷◌, map, take, drop, count, leb, length, get_elem?, if◌then◌else◌, arith,
}
use zyzxlibcalico_go.Prelude.Dict.{lookup, insert}
use zyzxlibcalico_go.Ipam.Address.{
  Ip, v4, v6, IpNet, num_addresses, ip_to_ordinal, ordinal_to_ip, sub_int64, ip_to_big_int,
}
use zyzxlibcalico_go.Ipam.Address.Ordinals.{
  block_at, ip_to_ordinal_v4, ip_to_ordinal-ordinal_to_ip, ip_to_ordinal_wraps,
}
use zyzxlibcalico_go.Ipam.Block.{
  host_affinity_matches, AllocationBlock, HostReservedAttr, ok, check_affinity, attribute,
  auto_assign, assign,
}
use zyzxlibcalico_go.Ipam.Block.Creation.{new_block}
use zyzxlibcalico_go.Ipam.Block.Invariant.{IsBlock, handle_at, one_if_free}
use zyzxlibcalico_go.Ipam.Block.Fresh.{NewBlock, new_block_lem}
use zyzxlibcalico_go.Ipam.Block.Assigning.{auto_assign_lem, ip_net_at}
use zyzxlibcalico_go.Ipam.Block.Assigning.Single.{assign_lem, Assigns}
use zyzxlibcalico_go.Ipam.Block.Release.{
  release_unique, release_by_handle, int_in_slice, attribute_ref_counts, new_indexes,
  new_attributes, remap, delete_attributes, free_ordinals, scan, attrs_to_delete,
}
use zyzxlibcalico_go.Ipam.Block.Release.Whole.{Released, release_unique_lem}
use zyzxlibcalico_go.Ipam.Block.Release.ByHandle.{ReleasedHandle, release_by_handle_lem}

-- 10.0.0.0
abbrev base : ℕ
base = 167772160

abbrev four : IpNet
four = block_at (v4 base) 30 32

abbrev used : AllocationBlock
used = record {
  cidr = four;
  affinity = some "host:n1";
  allocations = none ∷ some 0 ∷ some 1 ∷ some 0 ∷ [];
  unallocated = 0 ∷ [];
  attributes = attribute (some "h1") none ∷ attribute (some "h2") none ∷ [];
  deleted = false;
}

used-counted : (o : ℕ) → count o used.unallocated ≡ one_if_free (get_elem? used.allocations o)
used-counted zero = refl
used-counted (suc zero) = refl
used-counted (suc (suc zero)) = refl
used-counted (suc (suc (suc zero))) = refl
used-counted (suc (suc (suc (suc o)))) = ground arith

used-indexed : (o i : ℕ) → get_elem? used.allocations o ≡ some (some i) → i < length used.attributes
used-indexed zero i h = cc
used-indexed (suc zero) i h = ground arith
used-indexed (suc (suc zero)) i h = ground arith
used-indexed (suc (suc (suc zero))) i h = ground arith
used-indexed (suc (suc (suc (suc o)))) i h = cc

used-IsBlock : IsBlock used
unfolding num_addresses
used-IsBlock = record { sized = refl; counted = used-counted; indexed = used-indexed }

matches : check_affinity true "n1" used.affinity ≡ ok tt
unfolding host_affinity_matches
matches = refl

auto_assign_lem_example :
    (b' : AllocationBlock) × (auto_assign 2 (some "h2") "n1" none true used
      ≡ ok (map (ip_net_at four) (take 2 (0 ∷ [])), b'))
    × IsBlock b'
    × (b'.unallocated ≡ drop 2 (0 ∷ []))
    × ((j : ℕ)
        → handle_at b' j
          ≡ (if leb 1 (count j (take 2 (0 ∷ []))) then some (some "h2") else handle_at used j))
    × (b'.cidr ≡ used.cidr)
auto_assign_lem_example = auto_assign_lem 2 (some "h2") "n1" none true used used-IsBlock matches

second : ip_to_ordinal four (v4 (base + 2)) ≡ some 2
unfolding ip_to_ordinal num_addresses sub_int64 ip_to_big_int
second = refl

assign_lem_example :
    Assigns used 2
      (some "h3")
      (handle_at used 2)
      (assign true (v4 (base + 2)) (some "h3") none "n1" used)
assign_lem_example =
    assign_lem true (v4 (base + 2)) (some "h3") none "n1" used 2 used-IsBlock matches second

abbrev three : List Ip
three = v4 base ∷ v4 (base + 1) ∷ v4 (base + 3) ∷ []

release_two :
    (b' : AllocationBlock) × (release_unique three used ≡ ok (v4 base ∷ [], ("h1", 1) ∷ [], b'))
unfolding release_unique scan ip_to_ordinal num_addresses sub_int64 ip_to_big_int lookup insert
    attribute_ref_counts attrs_to_delete delete_attributes remap new_indexes new_attributes
    int_in_slice free_ordinals
release_two = (
  record used {
    allocations = none ∷ none ∷ some 0 ∷ none ∷ [];
    unallocated = 0 ∷ 1 ∷ 3 ∷ [];
    attributes = attribute (some "h2") none ∷ [];
  },
  refl,
)

three_once : (j : ℕ) → count j (0 ∷ 1 ∷ 3 ∷ []) ≤ 1
three_once j = ground arith

release_unique_lem_example : Released three (0 ∷ 1 ∷ 3 ∷ []) used (release_unique three used)
unfolding ip_to_ordinal num_addresses sub_int64 ip_to_big_int
release_unique_lem_example =
    release_unique_lem used three (0 ∷ 1 ∷ 3 ∷ []) used-IsBlock
      (refl, omega arith, (refl, omega arith, (refl, omega arith, tt))) three_once

release_by_handle_lem_example : ReleasedHandle "h1" used (release_by_handle "h1" used)
release_by_handle_lem_example = release_by_handle_lem "h1" used used-IsBlock

abbrev windows : HostReservedAttr
windows = record {
  start_of_block = 1;
  end_of_block = 1;
  handle = "windows-reserved-ipam-handle";
  note = "";
}

new_block_lem_example : NewBlock four windows (new_block four (some windows))
unfolding num_addresses
new_block_lem_example = new_block_lem four windows (omega arith)

ip_to_ordinal_v4_example :
    (ip_to_ordinal (block_at (v4 base) 30 32) (v4 (base + 5)) ≡ (
      if leb base (base + 5) && ltb (base + 5 - base) (num_addresses (block_at (v4 base) 30 32))
      then some (base + 5 - base)
      else none))
    × ((block : IpNet) → ip_to_ordinal block (v6 (base + 5)) ≡ ip_to_ordinal block (v4 (base + 5)))
ip_to_ordinal_v4_example = ip_to_ordinal_v4 base (base + 5) 30 32 (omega arith) (omega arith)

ip_to_ordinal-ordinal_to_ip_example :
    ip_to_ordinal (block_at (v4 base) 30 32) (ordinal_to_ip (block_at (v4 base) 30 32) 3) ≡ some 3
unfolding num_addresses
ip_to_ordinal-ordinal_to_ip_example =
    ip_to_ordinal-ordinal_to_ip base 30 32 3 (omega arith) (omega arith) (omega arith)

ip_to_ordinal_wraps_example :
    ip_to_ordinal (block_at (v6 (2 ^ 100)) 122 128) (v6 (2 ^ 100 + 7 + 2 ^ 64)) ≡ some 7
unfolding num_addresses
ip_to_ordinal_wraps_example = ip_to_ordinal_wraps (2 ^ 100) 122 128 7 (omega arith) (omega arith)

first : ip_to_ordinal four (v4 base) ≡ some 0
unfolding ip_to_ordinal num_addresses sub_int64 ip_to_big_int
first = refl

release-assign_example :
    (b' : AllocationBlock) × (assign true (v4 base) (some "h3") none "n1" used ≡ ok b')
    × (handle_for_ip (v4 base) b' ≡ ok (some "h3"))
    × Undone used (release_unique (v4 base ∷ []) b')
release-assign_example =
    release-assign true (v4 base) (some "h3") none "n1" used 0 used-IsBlock matches first refl

handle_for_ip_lem_example :
    handle_for_ip (v4 (base + 2)) used ≡ or_unassigned_handle (handle_at used 2)
handle_for_ip_lem_example = handle_for_ip_lem used (v4 (base + 2)) 2 used-IsBlock second

empty_lem_example : Decides (OnlyReserved (handle_at used)) (empty used)
empty_lem_example = empty_lem used used-IsBlock
