-- ===== src/Ipam/Block/Release.antt =====
-- release and releaseByHandle of ipam_block.go, with the compaction of the attributes.
-- A `map[int]int` of reference counts is the list of the indexes that were counted.
pub mod Compaction
pub mod Counting
pub mod Effect
pub mod Scanning
pub mod Whole
pub mod ByHandle
use Prim.Native.Char.{code}
use text.Mathlib.Text.{◌==◌ as str_eq}
use zyzxlibcalico_go.Prelude.{
  count, ℕ, zero, suc, ◌+◌, String, Bool, true, false, ◌||◌, ◌&&◌, Option, none, some, List, [],
  ◌∷◌, ◌++◌, length, ◌==◌, if◌then◌else◌,
}
use zyzxlibcalico_go.Prelude.Dict.{Dict, lookup, insert}
use zyzxlibcalico_go.Ipam.Address.{Ip, v4, v6, num_addresses, ip_to_ordinal}
use zyzxlibcalico_go.Ipam.Block.{
  AllocationBlock, AllocationAttribute, Outcome, ok, panic, ◌>>=◌, index, assign_index,
  or_not_in_block,
}

unfoldable pub int_in_slice : ℕ → List ℕ → Bool
int_in_slice n [] = false
int_in_slice n (v ∷ slice) = v == n || int_in_slice n slice

-- attributeRefCounts
unfoldable pub attribute_ref_counts : List (Option ℕ) → List ℕ
attribute_ref_counts [] = []
attribute_ref_counts (none ∷ allocs) = attribute_ref_counts allocs
attribute_ref_counts (some i ∷ allocs) = i ∷ attribute_ref_counts allocs

-- The first loop of deleteAttributes, from the attribute `x` on: the new indexes and attributes.
unfoldable pub new_indexes : ℕ → ℕ → List ℕ → List AllocationAttribute → List (Option ℕ)
new_indexes x y del [] = []
new_indexes x y del (attr ∷ attrs) =
    let kept = some y ∷ new_indexes (x + 1) (y + 1) del attrs in
    let gone = none ∷ new_indexes (x + 1) y del attrs in if int_in_slice x del then gone else kept

unfoldable pub new_attributes : ℕ → List ℕ → List AllocationAttribute → List AllocationAttribute
new_attributes x del [] = []
new_attributes x del (attr ∷ attrs) =
    let rest = new_attributes (x + 1) del attrs in if int_in_slice x del then rest else attr ∷ rest

-- The second loop, over the first `n` allocations.
unfoldable pub remap : ℕ → List (Option ℕ) → List (Option ℕ) → Outcome (List (Option ℕ))
remap zero indexes allocs = ok allocs
remap (suc n) indexes [] = panic
remap (suc n) indexes (none ∷ allocs) = do allocs ← remap n indexes allocs; ok (none ∷ allocs)
remap (suc n) indexes (some i ∷ allocs) = do
  new_index ← index indexes i
  allocs ← remap n indexes allocs
  ok (new_index ∷ allocs)

unfoldable pub delete_attributes : List ℕ → AllocationBlock → Outcome AllocationBlock
delete_attributes del b = do
  allocations ← remap (num_addresses b.cidr) (new_indexes 0 0 del b.attributes) b.allocations
  ok (record b { attributes = new_attributes 0 del b.attributes; allocations = allocations })

-- The loop that frees the ordinals.
unfoldable pub free_ordinals : List ℕ → AllocationBlock → Outcome AllocationBlock
free_ordinals [] b = ok b
free_ordinals (o ∷ os) b = do
  allocations ← assign_index b.allocations o none
  free_ordinals os (record b { allocations = allocations; unallocated = b.unallocated ++ o ∷ [] })

-- What the first loop of release collects. `freed` has the attribute's index of each ordinal.
pub record Scan : Type 0 where
  pub unallocated : List Ip
  pub ordinals : List ℕ
  pub freed : List ℕ
  pub count_by_handle : Dict ℕ

abbrev pub zero_count : Option ℕ → ℕ
zero_count none = 0
zero_count (some count) = 0

-- The count of a handle starts at 0 also where the map has an entry: the source takes the entry's
-- count only if there is none.
abbrev count_handle : Option String → Dict ℕ → Dict ℕ
count_handle none counts = counts
count_handle (some handle) counts = insert handle (zero_count (lookup handle counts) + 1) counts

abbrev scan_ordinal : Ip → ℕ → Option ℕ → AllocationBlock → Scan → Outcome Scan
scan_ordinal ip ordinal none b s = ok (record s { unallocated = s.unallocated ++ ip ∷ [] })
scan_ordinal ip ordinal (some i) b s = do
  attr ← index b.attributes i
  ok (record s {
    ordinals = s.ordinals ++ ordinal ∷ [];
    freed = s.freed ++ i ∷ [];
    count_by_handle = count_handle attr.attr_primary s.count_by_handle;
  })

unfoldable pub scan : List Ip → AllocationBlock → Scan → Outcome Scan
scan [] b s = ok s
scan (ip ∷ ips) b s = do
  ordinal ← or_not_in_block (ip_to_ordinal b.cidr ip)
  current ← index b.allocations ordinal
  s ← scan_ordinal ip ordinal current b s
  scan ips b s

-- The attributes all of whose references are freed.
unfoldable pub attrs_to_delete : List ℕ → List ℕ → List ℕ → List ℕ
attrs_to_delete freed refs [] = []
attrs_to_delete freed refs (i ∷ rest) =
    let others = attrs_to_delete freed refs rest in
    if count i refs == count i freed then i ∷ others else others

abbrev delete_if_any : List ℕ → AllocationBlock → Outcome AllocationBlock
delete_if_any [] b = ok b
delete_if_any (i ∷ del) b = delete_attributes (i ∷ del) b

abbrev empty_scan : Scan
empty_scan = record { unallocated = []; ordinals = []; freed = []; count_by_handle = [] }

-- release, from the addresses without duplicates, in the order in which Go's map yields them.
unfoldable pub release_unique :
    List Ip → AllocationBlock → Outcome (List Ip × Dict ℕ × AllocationBlock)
release_unique addresses b = do
  s ← scan addresses b empty_scan
  b ← delete_if_any (attrs_to_delete s.freed (attribute_ref_counts b.allocations) s.freed) b
  b ← free_ordinals s.ordinals b
  ok (s.unallocated, s.count_by_handle, b)

abbrev ip_eq : Ip → Ip → Bool
ip_eq (v4 a) (v4 b) = a == b
ip_eq (v6 a) (v6 b) = a == b
ip_eq _ _ = false

unfoldable pub contains_ip : Ip → List Ip → Bool
contains_ip ip [] = false
contains_ip ip (x ∷ ips) = ip_eq x ip || contains_ip ip ips

-- An address is its String() form.
unfoldable pub unique_addresses : List Ip → List Ip
unique_addresses [] = []
unique_addresses (ip ∷ ips) =
    let rest = unique_addresses ips in if contains_ip ip ips then rest else ip ∷ rest

unfoldable pub release : List Ip → AllocationBlock → Outcome (List Ip × Dict ℕ × AllocationBlock)
release addresses b = release_unique (unique_addresses addresses) b

-- strings.Split(handleID, "\r")[0]
unfoldable pub sanitize_handle : String → String
sanitize_handle String.[] = String.[]
sanitize_handle (String.◌∷◌ c s) =
    if code c == 13 then String.[] else String.◌∷◌ c (sanitize_handle s)

abbrev pub has_handle : String → Option String → Bool
has_handle handle none = false
has_handle handle (some h) = str_eq (sanitize_handle h) handle

-- attributeIndexesByHandle, from the index `x` on.
unfoldable pub indexes_by_handle : ℕ → String → List AllocationAttribute → List ℕ
indexes_by_handle x handle [] = []
indexes_by_handle x handle (attr ∷ attrs) =
    let rest = indexes_by_handle (x + 1) handle attrs in
    if has_handle handle attr.attr_primary then x ∷ rest else rest

abbrev pub allocated_in : List ℕ → Option ℕ → Bool
allocated_in indexes none = false
allocated_in indexes (some i) = int_in_slice i indexes

-- The loop over the ordinals from `o` on, `n` of them, that are allocated with one of the indexes.
unfoldable pub ordinals_with : ℕ → ℕ → List ℕ → List (Option ℕ) → Outcome (List ℕ)
ordinals_with o zero indexes allocs = ok []
ordinals_with o (suc n) indexes [] = panic
ordinals_with o (suc n) indexes (a ∷ allocs) = do
  rest ← ordinals_with (o + 1) n indexes allocs
  ok (if allocated_in indexes a then o ∷ rest else rest)

abbrev pub release_indexes : List ℕ → AllocationBlock → Outcome (ℕ × AllocationBlock)
release_indexes [] b = ok (0, b)
release_indexes (i ∷ indexes) b = do
  ordinals ← ordinals_with 0 (num_addresses b.cidr) (i ∷ indexes) b.allocations
  b ← delete_attributes (i ∷ indexes) b
  b ← free_ordinals ordinals b
  ok (length ordinals, b)

unfoldable pub release_by_handle : String → AllocationBlock → Outcome (ℕ × AllocationBlock)
release_by_handle handle b = release_indexes (indexes_by_handle 0 handle b.attributes) b
