-- ===== src/Ipam/Block.antt =====
-- lib/ipam/ipam_block.go over the AllocationBlock of lib/backend/model/block.go: the record of which
-- addresses of a block are assigned, and with which attributes.
-- A *int of `Allocations` is the number that it points to: no number is changed through its pointer.
pub mod Creation
pub mod Fresh
pub mod Release
pub mod Queries
pub mod Invariant
pub mod Assigning
pub mod RoundTrips
pub mod Emptiness
mod Tests
use Prim.Native.String.{◌++◌ as str_append}
use text.Mathlib.Text.{◌==◌ as str_eq}
use zyzxlibcalico_go.Prelude.{
  ℕ, zero, suc, ◌+◌, ◌-◌, ◌≤◌, String, Bool, true, false, not, ◌&&◌, ◌||◌, Option, none, some, List,
  [], ◌∷◌, ◌++◌, length, get_elem?, set, replicate, drop, take, ltb, leb, ◌==◌, if◌then◌else◌,
}
use zyzxlibcalico_go.Prelude.Dict.{Dict, lookup}
use zyzxlibcalico_go.Ipam.Address.{Ip, IpNet, num_addresses, ip_to_ordinal, increment_ip}

-- `none` for a nil map.
pub record AllocationAttribute : Type 0 where
  pub attr_primary : Option String
  pub attr_secondary : Option (Dict String)

pub record AllocationBlock : Type 0 where
  pub cidr : IpNet
  pub affinity : Option String
  pub allocations : List (Option ℕ)
  pub unallocated : List ℕ
  pub attributes : List AllocationAttribute
  pub deleted : Bool

pub record HostReservedAttr : Type 0 where
  pub start_of_block : ℕ
  pub end_of_block : ℕ
  pub handle : String
  pub note : String

pub data BlockError : Type 0 where
  affinity_mismatch no_affinity not_in_block already_exists does_not_exist : BlockError

-- `panic` is an index out of range.
pub data Outcome {ℓ} (A : Type ℓ) : Type ℓ where
  ok : A → Outcome A
  err : BlockError → Outcome A
  panic : Outcome A

infixl 5 ◌>>=◌
abbrev pub ◌>>=◌ {ℓ κ} : {A : Type ℓ} {B : Type κ} → Outcome A → (A → Outcome B) → Outcome B
ok a >>= f = f a
err e >>= f = err e
panic >>= f = panic

-- s[i]
abbrev pub index {ℓ} : {A : Type ℓ} → List A → ℕ → Outcome A
index xs i = elim (get_elem? xs i) [ none ↦ panic | some x ↦ ok x ]

-- s[i] = v
abbrev pub assign_index {ℓ} : {A : Type ℓ} → List A → ℕ → A → Outcome (List A)
assign_index xs i v = if ltb i (length xs) then ok (set xs i v) else panic

-- hostAffinityMatches, of an affinity that is not nil.
unfoldable pub host_affinity_matches : String → String → Bool
host_affinity_matches host affinity = str_eq affinity (str_append "host:" host)

-- The two checks at the head of autoAssign and assign.
abbrev pub check_affinity : Bool → String → Option String → Outcome (Unit {0})
check_affinity check host none = if check then err no_affinity else ok tt
check_affinity check host (some a) =
    if check && not (host_affinity_matches host a) then err affinity_mismatch else ok tt

-- reflect.DeepEqual of two attributes.
unfoldable pub included : Dict String → Dict String → Bool
included [] n = true
included ((k, v) ∷ m) n = elim (lookup k n) [ none ↦ false | some w ↦ str_eq v w ] && included m n

abbrev equal_secondary : Option (Dict String) → Option (Dict String) → Bool
equal_secondary none none = true
equal_secondary (some m) (some n) = included m n && included n m
equal_secondary _ _ = false

abbrev pub equal_primary : Option String → Option String → Bool
equal_primary none none = true
equal_primary (some a) (some b) = str_eq a b
equal_primary _ _ = false

unfoldable pub deep_equal : AllocationAttribute → AllocationAttribute → Bool
deep_equal a b =
    equal_primary a.attr_primary b.attr_primary && equal_secondary a.attr_secondary b.attr_secondary

-- The index of the first attribute that is equal to `attr`, or else of the place after the last,
-- with the attributes to append there.
unfoldable pub find_or_add :
    AllocationAttribute → List AllocationAttribute → ℕ × List AllocationAttribute
find_or_add attr [] = (0, attr ∷ [])
find_or_add attr (existing ∷ rest) =
    let (i, rest') = find_or_add attr rest in
    if deep_equal attr existing then (0, existing ∷ rest) else (suc i, existing ∷ rest')

abbrev pub attribute : Option String → Option (Dict String) → AllocationAttribute
attribute handle attrs = record { attr_primary = handle; attr_secondary = attrs }

unfoldable pub find_or_add_attribute :
    Option String → Option (Dict String) → AllocationBlock → ℕ × AllocationBlock
find_or_add_attribute handle attrs b =
    let (i, attributes) = find_or_add (attribute handle attrs) b.attributes in
    (i, record b { attributes = attributes })

-- The loop that takes at most `num` ordinals: those taken, and those left.
unfoldable pub take_ordinals : ℕ → List ℕ → List ℕ × List ℕ
take_ordinals zero unallocated = ([], unallocated)
take_ordinals (suc num) [] = ([], [])
take_ordinals (suc num) (o ∷ unallocated) =
    let (taken, left) = take_ordinals num unallocated in (o ∷ taken, left)

-- The loop that allocates the taken ordinals.
unfoldable pub allocate :
    List ℕ
    → Option String
    → Option (Dict String)
    → AllocationBlock
    → Outcome (List IpNet × AllocationBlock)
allocate [] handle attrs b = ok ([], b)
allocate (o ∷ os) handle attrs b = do
  let (i, b) = find_or_add_attribute handle attrs b
  allocations ← assign_index b.allocations o (some i)
  (ips, b) ← allocate os handle attrs (record b { allocations = allocations })
  ok (record b.cidr { ip = increment_ip b.cidr.ip o } ∷ ips, b)

unfoldable pub auto_assign :
    ℕ
    → Option String
    → String
    → Option (Dict String)
    → Bool
    → AllocationBlock
    → Outcome (List IpNet × AllocationBlock)
auto_assign num handle host attrs check b = do
  _ ← check_affinity check host b.affinity
  let (ordinals, left) = take_ordinals num b.unallocated
  allocate ordinals handle attrs (record b { unallocated = left })

abbrev pub or_not_in_block : Option ℕ → Outcome ℕ
or_not_in_block none = err not_in_block
or_not_in_block (some o) = ok o

abbrev pub check_free : Option ℕ → Outcome (Unit {0})
check_free none = ok tt
check_free (some i) = err already_exists

-- The loop that removes the first occurrence of an ordinal.
unfoldable pub remove_ordinal : ℕ → List ℕ → List ℕ
remove_ordinal o [] = []
remove_ordinal o (u ∷ us) = if u == o then us else u ∷ remove_ordinal o us

unfoldable pub assign :
    Bool
    → Ip
    → Option String
    → Option (Dict String)
    → String
    → AllocationBlock
    → Outcome AllocationBlock
assign check address handle attrs host b = do
  _ ← check_affinity check host b.affinity
  ordinal ← or_not_in_block (ip_to_ordinal b.cidr address)
  current ← index b.allocations ordinal
  _ ← check_free current
  let (i, b) = find_or_add_attribute handle attrs b
  allocations ← assign_index b.allocations ordinal (some i)
  ok (record b { allocations = allocations; unallocated = remove_ordinal ordinal b.unallocated })
