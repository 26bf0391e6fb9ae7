-- ===== src/Ipam/Block/Release/Scanning.antt =====
-- The first loop of release: what it collects of the addresses.
use text.Mathlib.Text.{◌==◌ as str_eq}
use mathlib.Core.List.{append_assoc, append-nil}
use zyzxlibcalico_go.Prelude.{
  String, Bool, true, false, ◌||◌, ==_iff, ℕ, suc, ◌+◌, ◌≤◌, ◌<◌, ◌≡◌, refl, sym, ◌∙◌, ap, Option,
  none, some, List, [], ◌∷◌, ◌++◌, get_elem?, count, count-append, ◌==◌, if◌then◌else◌, arith,
  Bool-cases, inl, inr, get_elem?-of_lt,
}
use zyzxlibcalico_go.Prelude.Dict.{lookup, lookup-insert, Dict}
use zyzxlibcalico_go.Ipam.Address.{Ip, IpNet, ip_to_ordinal, num_addresses}
use zyzxlibcalico_go.Ipam.Block.{AllocationBlock, Outcome, ok, index}
use zyzxlibcalico_go.Ipam.Block.Invariant.{IsBlock, handle_at}
use zyzxlibcalico_go.Ipam.Block.Release.{Scan, scan, count_handle, zero_count}
use zyzxlibcalico_go.Ipam.Block.Release.Counting.{AllocatedAs}

-- The addresses are in the block, at the ordinals.
abbrev pub At : IpNet → List Ip → List ℕ → Type 0
At cidr [] [] = Unit
At cidr [] (o ∷ os) = ⊥
At cidr (ip ∷ ips) [] = ⊥
At cidr (ip ∷ ips) (o ∷ os) =
    (ip_to_ordinal cidr ip ≡ some o) × (o < num_addresses cidr) × At cidr ips os

-- The addresses that are not allocated.
abbrev if_idle : Option (Option ℕ) → Ip → List Ip → List Ip
if_idle (some (some i)) ip rest = rest
if_idle _ ip rest = ip ∷ rest

abbrev pub idle : AllocationBlock → List Ip → List ℕ → List Ip
idle b (ip ∷ ips) (o ∷ os) = if_idle (get_elem? b.allocations o) ip (idle b ips os)
idle b _ _ = []

abbrev pub if_allocated : Option (Option ℕ) → ℕ → ℕ
if_allocated (some (some i)) n = n
if_allocated _ n = 0

if_allocated_zero : (x : Option (Option ℕ)) → if_allocated x 0 ≡ 0
if_allocated_zero none = refl
if_allocated_zero (some none) = refl
if_allocated_zero (some (some i)) = refl

counted_idle :
    (allocs : List (Option ℕ)) (o j n : ℕ)
    → get_elem? allocs o ≡ some none
    → if_allocated (get_elem? allocs j) (if o == j then suc n else n)
      ≡ if_allocated (get_elem? allocs j) n
counted_idle allocs o j n h = elim (Bool-cases (o == j)) [
  | inl same ↦ rw (← (==_iff o j).0 same) (rw h refl)
  | inr other ↦ rw other refl
]

counted_live :
    (allocs : List (Option ℕ)) (o j n i : ℕ)
    → get_elem? allocs o ≡ some (some i)
    → if_allocated (get_elem? allocs j) (if o == j then suc n else n)
      ≡ (if o == j then 1 else 0) + if_allocated (get_elem? allocs j) n
counted_live allocs o j n i h = elim (Bool-cases (o == j)) [
  | inl same ↦ rw (← (==_iff o j).0 same) (rw h (ground arith))
  | inr other ↦ rw other (omega arith)
]

AllocatedAs-snoc :
    (allocs : List (Option ℕ)) (os is : List ℕ) (o i : ℕ)
    → AllocatedAs allocs os is
    → get_elem? allocs o ≡ some (some i)
    → count o os ≡ 0
    → AllocatedAs allocs (os ++ o ∷ []) (is ++ i ∷ [])
AllocatedAs-snoc allocs [] [] o i a there once = (there, refl, tt)
AllocatedAs-snoc allocs [] (k ∷ is) o i a there once = absurd a
AllocatedAs-snoc allocs (p ∷ os) [] o i a there once = absurd a
AllocatedAs-snoc allocs (p ∷ os) (k ∷ is) o i (here, first, rest) there once = (
  here,
  ground (arith, count-append p os (o ∷ [])),
  AllocatedAs-snoc allocs os is o i rest there (ground arith),
)

-- Every handle is counted once.
abbrev pub AllOne : Dict ℕ → Type 0
AllOne counts = (handle : String) (n : ℕ) → lookup handle counts ≡ some n → n ≡ 1

zero_count_lem : (x : Option ℕ) → zero_count x ≡ 0
zero_count_lem none = refl
zero_count_lem (some n) = refl

count_handle-AllOne :
    (handle : Option String) (counts : Dict ℕ) → AllOne counts → AllOne (count_handle handle counts)
count_handle-AllOne none counts a j n h = a j n h
count_handle-AllOne (some handle) counts a j n h = ground (
  arith,
  lookup-insert handle j (zero_count (lookup handle counts) + 1) counts,
  zero_count_lem (lookup handle counts),
  a j n,
)

abbrev has_name : String → Option (Option String) → Bool
has_name handle (some (some h)) = str_eq h handle
has_name handle _ = false

-- One of the ordinals is allocated with the handle.
abbrev pub is_named : AllocationBlock → String → List ℕ → Bool
is_named b handle [] = false
is_named b handle (o ∷ os) = has_name handle (handle_at b o) || is_named b handle os

lookup-count_handle :
    (primary : Option String) (handle : String) (counts : Dict ℕ)
    → lookup handle (count_handle primary counts)
      ≡ (if has_name handle (some primary) then some 1 else lookup handle counts)
lookup-count_handle none handle counts = refl
lookup-count_handle (some h) handle counts =
    lookup-insert h handle (zero_count (lookup h counts) + 1) counts
    ∙ rw (zero_count_lem (lookup h counts)) refl

named_first :
    (named rest : Bool) (x : Option ℕ)
    → (if rest then some 1 else if named then some 1 else x) ≡ (if named || rest then some 1 else x)
named_first true true x = refl
named_first true false x = refl
named_first false true x = refl
named_first false false x = refl

pub record Scanned (b : AllocationBlock) (ips : List Ip) (os : List ℕ) (s : Scan)
    (out : Outcome Scan) : Type 0 where
  pub found : Scan
  pub returns : out ≡ ok found
  pub pairs : AllocatedAs b.allocations found.ordinals found.freed
  pub counts :
      (j : ℕ)
      → count j found.ordinals
        ≡ count j s.ordinals + if_allocated (get_elem? b.allocations j) (count j os)
  pub ones : AllOne s.count_by_handle → AllOne found.count_by_handle
  pub named :
      (handle : String)
      → lookup handle found.count_by_handle
        ≡ (if is_named b handle os then some 1 else lookup handle s.count_by_handle)
  pub reported : found.unallocated ≡ s.unallocated ++ idle b ips os

pub scan-Scanned :
    (b : AllocationBlock) (ips : List Ip) (os : List ℕ) (s : Scan)
    → IsBlock b
    → At b.cidr ips os
    → AllocatedAs b.allocations s.ordinals s.freed
    → ((j : ℕ) → count j s.ordinals + count j os ≤ 1)
    → Scanned b ips os s (scan ips b s)
unfolding scan
scan-Scanned b [] [] s v at a once = record {
  found = s;
  returns = refl;
  pairs = a;
  ones = λ h. h;
  named = λ handle. refl;
  counts = λ j. sym (
      ap (λ n. count j s.ordinals + n) (if_allocated_zero (get_elem? b.allocations j))
      ∙ (omega arith));
  reported = sym (append-nil s.unallocated);
}
scan-Scanned b [] (o ∷ os) s v at a once = absurd at
scan-Scanned b (ip ∷ ips) [] s v at a once = absurd at
scan-Scanned b (ip ∷ ips) (o ∷ os) s v (here, inside, rest) a once =
    let (x, there) = get_elem?-of_lt b.allocations o (rw v.sized inside) in
    go (λ t. scan-Scanned b ips os t v rest) x there
  where
    go :
        ((t : Scan)
          → AllocatedAs b.allocations t.ordinals t.freed
          → ((j : ℕ) → count j t.ordinals + count j os ≤ 1)
          → Scanned b ips os t (scan ips b t))
        → (x : Option ℕ) → get_elem? b.allocations o ≡ some x
        → Scanned b (ip ∷ ips) (o ∷ os) s (scan (ip ∷ ips) b s)
    go rec none there =
        let t : Scan = record s { unallocated = s.unallocated ++ ip ∷ [] } in
        let r = rec t a (λ j. ground (arith, once j)) in
        record {
          found = r.found;
          returns = rw here (rw (there, index) r.returns);
          pairs = r.pairs;
          ones = r.ones;
          named = λ handle. rw there (r.named handle);
          counts = λ j.
              r.counts j
              ∙ ap (λ n. count j s.ordinals + n)
                  (sym (counted_idle b.allocations o j (count j os) there));
          reported = r.reported ∙ rw there (append_assoc s.unallocated (ip ∷ []) (idle b ips os));
        }
    go rec (some i) there =
        let (attr, has) = get_elem?-of_lt b.attributes i (v.indexed o i there) in
        let t : Scan = record s {
          ordinals = s.ordinals ++ o ∷ [];
          freed = s.freed ++ i ∷ [];
          count_by_handle = count_handle attr.attr_primary s.count_by_handle;
        } in
        let fresh : count o s.ordinals ≡ 0 = ground (arith, once o) in
        let r =
          rec t (AllocatedAs-snoc b.allocations s.ordinals s.freed o i a there fresh)
            (λ j. ground (arith, once j, count-append j s.ordinals (o ∷ []))) in
        record {
          found = r.found;
          returns = rw here (rw (there, index) (rw (has, index) r.returns));
          pairs = r.pairs;
          ones = λ h. r.ones (count_handle-AllOne attr.attr_primary s.count_by_handle h);
          named = λ handle.
              r.named handle
              ∙ (rw (lookup-count_handle attr.attr_primary handle s.count_by_handle) (
                  rw there (
                    rw has (
                      named_first (has_name handle (some attr.attr_primary)) (is_named b handle os)
                        (lookup handle s.count_by_handle)))));
          counts = λ j. omega (
            arith,
            r.counts j,
            count-append j s.ordinals (o ∷ []),
            counted_live b.allocations o j (count j os) i there,
          );
          reported = r.reported ∙ rw there refl;
        }
