-- ===== src/Ipam/ReaderWriter/Searching.antt =====
-- The searches of lib/ipam/ipam_block_reader_writer.go: for the blocks of a host, for a block that nobody
-- has claimed, and for the pool or the block of an address.
pub mod Unclaimed
use text.Mathlib.Text.{◌==◌ as str_eq}
use zyzxlibcalico_go.Prelude.{
  ℕ, zero, suc, String, Bool, true, false, ◌&&◌, ◌||◌, Option, none, some, List, [], ◌∷◌, map, ◌==◌,
  if◌then◌else◌,
}
use zyzxlibcalico_go.Ipam.Address.{Ip, IpNet}
use zyzxlibcalico_go.Ipam.Pools.{
  IpPool, Generator, random_block_generator, next, net_contains, version,
}
use zyzxlibcalico_go.Ipam.Datastore.{
  block_affinity, allocation_block, KvPair, ListReply, StoreError,
}
use zyzxlibcalico_go.Ipam.Datastore.Programs.{Program, returning, listing}
use zyzxlibcalico_go.Ipam.ReaderWriter.{
  IpamError, store_error, no_pools, invalid_pool, no_free_blocks, Attempt, done, failed,
  is_does_not_exist,
}

-- KeyFromDefaultPath of BlockAffinityListOptions and of BlockListOptions: no host and version 0 match
-- everything.
abbrev pub affinity_listed : String → ℕ → String × IpNet → Bool
affinity_listed host ver (h, cidr) =
    (str_eq host "" || str_eq host h) && (ver == 0 || ver == version cidr.ip)

abbrev pub block_listed : ℕ → IpNet → Bool
block_listed ver cidr = ver == 0 || ver == version cidr.ip

-- Whether one of the pools net_contains the address; a pool that does not parse is an error if it is
-- come to.
unfoldable pub in_pools : List IpPool → Ip → Attempt Bool
in_pools [] ip = done false
in_pools (pool ∷ pools) ip =
    let rest = in_pools pools ip in
    elim pool.cidr [
      | none ↦ failed invalid_pool
      | some net ↦ if net_contains net ip then done true else rest
    ]

abbrev add_block :
    IpNet → Bool → Attempt (List IpNet × List IpNet) → Attempt (List IpNet × List IpNet)
add_block cidr inside (failed e) = failed e
add_block cidr true (done (ins, outs)) = done (cidr ∷ ins, outs)
add_block cidr false (done (ins, outs)) = done (ins, cidr ∷ outs)

-- The blocks in the pools and those outside, each in the order of the list.
unfoldable pub sort_blocks :
    List IpPool → List (KvPair block_affinity) → Attempt (List IpNet × List IpNet)
sort_blocks pools [] = done ([], [])
sort_blocks [] (o ∷ os) = add_block o.key.1 true (sort_blocks [] os)
sort_blocks (pool ∷ pools) (o ∷ os) =
    let rest = sort_blocks (pool ∷ pools) os in
    elim (in_pools (pool ∷ pools) o.key.1.ip) [
      | failed e ↦ failed e
      | done inside ↦ add_block o.key.1 inside rest
    ]

abbrev affine_blocks :
    List IpPool → ListReply block_affinity → Program (Attempt (List IpNet × List IpNet))
affine_blocks pools (ListReply.listed os) = returning (sort_blocks pools os)
affine_blocks pools (ListReply.list_failed e) =
    if is_does_not_exist e then returning (done ([], [])) else returning (failed (store_error e))

unfoldable pub get_affine_blocks :
    String → ℕ → List IpPool → Program (Attempt (List IpNet × List IpNet))
get_affine_blocks host ver pools =
    listing block_affinity (affinity_listed host ver) (affine_blocks pools)

module _ (same : IpNet → IpNet → Bool) where
  -- exists[subnet.String()]
  unfoldable pub exists_in : List (KvPair allocation_block) → IpNet → Bool
  exists_in [] cidr = false
  exists_in (o ∷ os) cidr = same o.key cidr || exists_in os cidr

  -- The first block of the generator that does not exist, in at most that many calls.
  unfoldable pub first_free : List (KvPair allocation_block) → ℕ → Generator → Option IpNet
  first_free os zero g = none
  first_free os (suc n) g =
      let (block, g) = next g in
      elim block [
        | none ↦ none
        | some subnet ↦ if exists_in os subnet then first_free os n g else some subnet
      ]

  -- A pool that does not parse has no blocks.
  abbrev free_in_pool : (IpPool → ℕ) → List (KvPair allocation_block) → IpPool → Option IpNet
  free_in_pool initial_index os pool = elim pool.cidr [
    | none ↦ none
    | some cidr ↦
        (let g = random_block_generator pool cidr (initial_index pool) in
          first_free os (suc g.num_blocks) g)
  ]

  unfoldable pub free_in_pools :
      (IpPool → ℕ) → List (KvPair allocation_block) → List IpPool → Attempt IpNet
  free_in_pools initial_index os [] = failed no_free_blocks
  free_in_pools initial_index os (pool ∷ pools) =
      let rest = free_in_pools initial_index os pools in
      elim (free_in_pool initial_index os pool) [ none ↦ rest | some subnet ↦ done subnet ]

  abbrev pub unclaimed :
      (IpPool → ℕ) → List IpPool → ListReply allocation_block → Program (Attempt IpNet)
  unclaimed initial_index pools (ListReply.listed os) =
      returning (free_in_pools initial_index os pools)
  unclaimed initial_index pools (ListReply.list_failed e) = returning (failed (store_error e))

  abbrev unclaimed_in : (IpPool → ℕ) → List IpPool → Program (Attempt IpNet)
  unclaimed_in initial_index [] = returning (failed no_pools)
  unclaimed_in initial_index (pool ∷ pools) =
      listing allocation_block (λ cidr. true) (unclaimed initial_index (pool ∷ pools))

  -- The index that is drawn for each pool is a parameter.
  unfoldable pub find_unclaimed_block : (IpPool → ℕ) → List IpPool → Program (Attempt IpNet)
  find_unclaimed_block initial_index pools = unclaimed_in initial_index pools

-- A pool that does not parse is passed over.
unfoldable pub pool_for_ip : List IpPool → Ip → Option IpPool
pool_for_ip [] ip = none
pool_for_ip (p ∷ pools) ip =
    let rest = pool_for_ip pools ip in
    elim p.cidr [ none ↦ rest | some net ↦ if net_contains net ip then some p else rest ]

-- getPoolForIP, of pools that are given, or else of the enabled ones of the address's version.
unfoldable pub get_pool_for_ip :
    (ℕ → Attempt (List IpPool)) → Ip → Option (List IpPool) → Attempt (Option IpPool)
get_pool_for_ip get_enabled_pools ip (some pools) = done (pool_for_ip pools ip)
get_pool_for_ip get_enabled_pools ip none = elim (get_enabled_pools (version ip)) [
  | failed e ↦ failed e
  | done pools ↦ done (pool_for_ip pools ip)
]

unfoldable pub block_with : List (KvPair allocation_block) → Ip → Option IpNet
block_with [] ip = none
block_with (o ∷ os) ip =
    let rest = block_with os ip in if net_contains o.key ip then some o.key else rest

abbrev block_for_ip : Ip → ListReply allocation_block → Program (Attempt (Option IpNet))
block_for_ip ip (ListReply.listed os) = returning (done (block_with os ip))
block_for_ip ip (ListReply.list_failed e) = returning (failed (store_error e))

unfoldable pub get_block_for_ip : Ip → Program (Attempt (Option IpNet))
get_block_for_ip ip = listing allocation_block (block_listed (version ip)) (block_for_ip ip)
