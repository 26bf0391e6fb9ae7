-- ===== src/Ipam/Block/Queries.antt =====
-- The operations of a block that change nothing: ipam_block.go and lib/backend/model/block.go.
use Prim.Native.Char.{code}
use text.Mathlib.Text.{◌==◌ as str_eq}
use zyzxlibcalico_go.Prelude.{
  ℕ, ◌+◌, String, Bool, true, false, ◌&&◌, Option, none, some, List, [], ◌∷◌, map, length, ◌==◌,
  leb, not, get_elem?, if◌then◌else◌,
}
use zyzxlibcalico_go.Prelude.Dict.{Dict, lookup}
use zyzxlibcalico_go.Ipam.Address.{Ip, num_addresses, ip_to_ordinal, ordinal_to_ip}
use zyzxlibcalico_go.Ipam.Block.{
  AllocationBlock, AllocationAttribute, Outcome, ok, err, does_not_exist, ◌>>=◌, index,
  or_not_in_block,
}
use zyzxlibcalico_go.Ipam.Block.Release.{indexes_by_handle, ordinals_with}

unfoldable pub num_free_addresses : AllocationBlock → ℕ
num_free_addresses b = length b.unallocated

abbrev pub or_unassigned : Option ℕ → Outcome ℕ
or_unassigned none = err does_not_exist
or_unassigned (some i) = ok i

unfoldable pub attributes_for_ip : Ip → AllocationBlock → Outcome (Option (Dict String))
attributes_for_ip ip b = do
  ordinal ← or_not_in_block (ip_to_ordinal b.cidr ip)
  current ← index b.allocations ordinal
  i ← or_unassigned current
  attr ← index b.attributes i
  ok attr.attr_secondary

unfoldable pub handle_for_ip : Ip → AllocationBlock → Outcome (Option String)
handle_for_ip ip b = do
  ordinal ← or_not_in_block (ip_to_ordinal b.cidr ip)
  current ← index b.allocations ordinal
  i ← or_unassigned current
  attr ← index b.attributes i
  ok attr.attr_primary

unfoldable pub ips_by_handle : String → AllocationBlock → Outcome (List Ip)
ips_by_handle handle b = do
  let indexes = indexes_by_handle 0 handle b.attributes
  ordinals ← ordinals_with 0 (num_addresses b.cidr) indexes b.allocations
  ok (map (ordinal_to_ip b.cidr) ordinals)

-- unicode.ToLower, where the lower case is an ASCII letter: of the capital letters of ASCII, of the i with
-- a dot above, U+0130, and of the Kelvin sign, U+212A. Other letters are left as they are: the text that is
-- compared with is ASCII, so that neither they nor their lower case are in it.
unfoldable pub lower : ℕ → ℕ
lower c =
    if leb b'A' c && leb c b'Z'
    then c + 32
    else if c == 0x130
    then b'i'
    else if c == 0x212a
    then b'k'
    else c

-- strings.ToLower, as code points.
unfoldable pub to_lower : String → List ℕ
to_lower String.[] = []
to_lower (String.◌∷◌ c s) = lower (code c) ∷ to_lower s

abbrev codes : String → List ℕ
codes String.[] = []
codes (String.◌∷◌ c s) = code c ∷ codes s

unfoldable pub codes_eq : List ℕ → List ℕ → Bool
codes_eq [] [] = true
codes_eq (x ∷ xs) (y ∷ ys) = x == y && codes_eq xs ys
codes_eq _ _ = false

abbrev windows_reserved_handle : String
windows_reserved_handle = "windows-reserved-ipam-handle"

abbrev pub is_reserved : Option String → Bool
is_reserved none = false
is_reserved (some h) = codes_eq (to_lower h) (codes windows_reserved_handle)

abbrev rest_if_reserved : Bool → Outcome Bool → Outcome Bool
rest_if_reserved true rest = rest
rest_if_reserved false rest = ok false

-- containsOnlyReservedIPs, over the allocations.
unfoldable pub only_reserved : List (Option ℕ) → List AllocationAttribute → Outcome Bool
only_reserved [] attrs = ok true
only_reserved (none ∷ allocs) attrs = only_reserved allocs attrs
only_reserved (some i ∷ allocs) attrs = do
  attr ← index attrs i
  rest_if_reserved (is_reserved attr.attr_primary) (only_reserved allocs attrs)

unfoldable pub empty : AllocationBlock → Outcome Bool
empty b = only_reserved b.allocations b.attributes

-- What follows the prefix "host:", or the empty text without it.
unfoldable pub after_prefix : String → String → String
after_prefix String.[] s = s
after_prefix (String.◌∷◌ p ps) String.[] = ""
after_prefix (String.◌∷◌ p ps) (String.◌∷◌ c s) = if code p == code c then after_prefix ps s else ""

abbrev host_of : Option String → String
host_of none = ""
host_of (some a) = after_prefix "host:" a

-- getHostAffinity, and Host of the model.
unfoldable pub get_host_affinity : AllocationBlock → String
get_host_affinity b = host_of b.affinity

pub record Allocation : Type 0 where
  pub addr : Ip
  pub host : String

abbrev node_of : Option (Dict String) → String
node_of none = ""
node_of (some m) = elim (lookup "node" m) [ none ↦ "" | some h ↦ h ]

abbrev non_affine : String → Ip → Option AllocationAttribute → List Allocation → List Allocation
non_affine my_host ip none rest = rest
non_affine my_host ip (some attr) rest =
    let host = node_of attr.attr_secondary in
    if not (str_eq my_host "") && str_eq host my_host
    then rest
    else record { addr = ip; host = host } ∷ rest

-- The loop of NonAffineAllocations, from the ordinal `o` on.
unfoldable pub non_affine_from : ℕ → AllocationBlock → List (Option ℕ) → List Allocation
non_affine_from o b [] = []
non_affine_from o b (none ∷ allocs) = non_affine_from (o + 1) b allocs
non_affine_from o b (some i ∷ allocs) =
    non_affine (get_host_affinity b) (ordinal_to_ip b.cidr o) (get_elem? b.attributes i)
      (non_affine_from (o + 1) b allocs)

unfoldable pub non_affine_allocations : AllocationBlock → List Allocation
non_affine_allocations b = non_affine_from 0 b b.allocations
