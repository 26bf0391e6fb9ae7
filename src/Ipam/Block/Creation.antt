-- ===== src/Ipam/Block/Creation.antt =====
-- newBlock of ipam_block.go, with the addresses that a host reserves.
use zyzxlibcalico_go.Prelude.{
  ℕ, zero, suc, ◌+◌, ◌-◌, false, ◌&&◌, Option, none, some, List, [], ◌∷◌, length, replicate, drop,
  take, leb, if◌then◌else◌,
}
use zyzxlibcalico_go.Ipam.Address.{IpNet, num_addresses}
use zyzxlibcalico_go.Ipam.Block.{
  AllocationBlock, HostReservedAttr, Outcome, ok, panic, ◌>>=◌, assign_index,
}

-- The ordinals from `i`, `n` of them.
unfoldable pub ordinals_from : ℕ → ℕ → List ℕ
ordinals_from i zero = []
ordinals_from i (suc n) = i ∷ ordinals_from (i + 1) n

-- s[lo:hi]
abbrev slice : {A : Type 0} → List A → ℕ → ℕ → Outcome (List A)
slice xs lo hi = if leb lo hi && leb hi (length xs) then ok (take (hi - lo) (drop lo xs)) else panic

-- The loop that reserves the first ordinals, and the one that reserves the last.
unfoldable pub reserve_start : ℕ → List (Option ℕ) → Outcome (List (Option ℕ))
reserve_start zero allocs = ok allocs
reserve_start (suc i) allocs = do allocs ← reserve_start i allocs; assign_index allocs i (some 0)

unfoldable pub reserve_end : ℕ → ℕ → List (Option ℕ) → Outcome (List (Option ℕ))
reserve_end n zero allocs = ok allocs
reserve_end n (suc i) allocs = do
  allocs ← reserve_end n i allocs
  if leb (i + 1) n then assign_index allocs (n - (i + 1)) (some 0) else panic

unfoldable pub reserve : HostReservedAttr → AllocationBlock → Outcome AllocationBlock
reserve r b = do
  let n = num_addresses b.cidr
  unallocated ←
      if leb r.end_of_block n
      then slice b.unallocated r.start_of_block (n - r.end_of_block)
      else panic
  allocations ← reserve_start r.start_of_block b.allocations
  allocations ← reserve_end n r.end_of_block allocations
  ok (record b {
    unallocated = unallocated;
    allocations = allocations;
    attributes =
        record { attr_primary = some r.handle; attr_secondary = some (("note", r.note) ∷ []) } ∷ [];
  })

unfoldable pub new_block : IpNet → Option HostReservedAttr → Outcome AllocationBlock
new_block cidr rsvd =
    let b : AllocationBlock = record {
      cidr = cidr;
      affinity = none;
      allocations = replicate (num_addresses cidr) none;
      unallocated = ordinals_from 0 (num_addresses cidr);
      attributes = [];
      deleted = false;
    } in
    elim rsvd [ none ↦ ok b | some r ↦ reserve r b ]
