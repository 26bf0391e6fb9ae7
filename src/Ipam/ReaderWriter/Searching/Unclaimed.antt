-- ===== src/Ipam/ReaderWriter/Searching/Unclaimed.antt =====
-- The block that findUnclaimedBlock of lib/ipam/ipam_block_reader_writer.go returns.
use zyzxlibcalico_go.Ipam.Datastore.Moves.{Kept}
use zyzxlibcalico_go.Prelude.{
  ℕ, zero, suc, ◌≡◌, refl, Bool, true, false, Option, none, some, List, [], ◌∷◌, if◌then◌else◌, ◌*◌,
  ◌+◌, ◌-◌, leb, Bool-cases, inl, inr,
}
use zyzxlibcalico_go.Ipam.Address.{Ip, IpNet, increment_ip}
use zyzxlibcalico_go.Ipam.Block.{HostReservedAttr}
use zyzxlibcalico_go.Ipam.Block.Fresh.{Fits}
use zyzxlibcalico_go.Ipam.Pools.{IpPool, Generator, random_block_generator, next, bits, version}
use zyzxlibcalico_go.Ipam.Datastore.{
  allocation_block, KvPair, Etcd, Fate, answered, refused, unanswered, list,
}
use zyzxlibcalico_go.Ipam.Datastore.Programs.Logic.{Ensures}
use zyzxlibcalico_go.Ipam.ReaderWriter.{Attempt, done, failed}
use zyzxlibcalico_go.Ipam.ReaderWriter.Claiming.{OnDone}
use zyzxlibcalico_go.Ipam.ReaderWriter.Searching.{
  exists_in, unclaimed, first_free, free_in_pools, find_unclaimed_block,
}

-- The reserved addresses fit into every block of the pool.
abbrev pub PoolFits : Option HostReservedAttr → IpPool → Type 0
PoolFits rsvd pool = elim pool.cidr [
  | none ↦ Unit
  | some cidr ↦
      (ip : Ip)
      → Fits (record { ip = ip; ones = pool.block_size; size = bits (version cidr.ip) }) rsvd
]

abbrev pub PoolsFit : Option HostReservedAttr → List IpPool → Type 0
PoolsFit rsvd [] = Unit
PoolsFit rsvd (pool ∷ pools) = PoolFits rsvd pool × PoolsFit rsvd pools

module _ (same : IpNet → IpNet → Bool) (rsvd : Option HostReservedAttr)
    (os : List (KvPair allocation_block)) where
  -- A block for the host: new, and large enough.
  abbrev pub IsUnclaimed : IpNet → Type 0
  IsUnclaimed cidr = Fits cidr rsvd × (exists_in same os cidr ≡ false)

  abbrev Unclaimed : Option IpNet → Type 0
  Unclaimed none = Unit
  Unclaimed (some cidr) = IsUnclaimed cidr

  first_free_lem :
      (n : ℕ) (g : Generator)
      → ((ip : Ip) → Fits (record { ip = ip; ones = g.mask_ones; size = g.mask_size }) rsvd)
      → Unclaimed (first_free same os n g)
  unfolding first_free next
  first_free_lem zero g fits = tt
  first_free_lem (suc n) g fits =
      let ip = increment_ip g.base_ip (g.i * g.block_size) in
      let cidr : IpNet = record { ip = ip; ones = g.mask_ones; size = g.mask_size } in
      let moved : Generator = record g {
        i = if leb (g.num_blocks - g.i) 1 then 0 else g.i + 1;
        num_returned = g.num_returned + 1;
      } in
      elim (Bool-cases (leb g.num_blocks g.num_returned)) [
        | inl over ↦ rw (over, Unclaimed) tt
        | inr more ↦
            rw (more, Unclaimed)
              (elim (Bool-cases (exists_in same os cidr)) [
                | inl e ↦ rw (e, more, Unclaimed, next) (first_free_lem n moved fits)
                | inr e ↦ rw (e, Unclaimed) (fits ip, e)
              ])
      ]

  abbrev UnclaimedIn : Attempt IpNet → Type 0
  UnclaimedIn (done cidr) = IsUnclaimed cidr
  UnclaimedIn (failed e) = Unit

  found_or_rest :
      (o : Option IpNet) (rest : Attempt IpNet)
      → Unclaimed o
      → UnclaimedIn rest
      → UnclaimedIn (elim o [ none ↦ rest | some subnet ↦ done subnet ])
  found_or_rest none rest u r = r
  found_or_rest (some cidr) rest u r = u

  free_in_pools_lem :
      (initial_index : IpPool → ℕ) (pools : List IpPool)
      → PoolsFit rsvd pools
      → UnclaimedIn (free_in_pools same initial_index os pools)
  unfolding free_in_pools random_block_generator
  free_in_pools_lem initial_index [] fit = tt
  free_in_pools_lem initial_index (pool ∷ pools) (fits, fit) =
      go pool.cidr refl (free_in_pools_lem initial_index pools fit)
    where
      go :
          (c : Option IpNet)
          → pool.cidr ≡ c
          → UnclaimedIn (free_in_pools same initial_index os pools)
          → UnclaimedIn (free_in_pools same initial_index os (pool ∷ pools))
      go none e rest = rw (e, UnclaimedIn) rest
      go (some cidr) e rest =
          rw (e, UnclaimedIn)
            (found_or_rest _ _ (first_free_lem _ _ (rw (e, PoolFits) at fits)) rest)

-- findUnclaimedBlock returns an error, or a block into which the reserved addresses fit.
pub find_unclaimed_block_lem :
    (E : Etcd) (K : Kept) (same : IpNet → IpNet → Bool) (rsvd : Option HostReservedAttr)
    (initial_index : IpPool → ℕ) (pools : List IpPool) (s : E.State)
    → PoolsFit rsvd pools
    → Ensures E K
        (OnDone E K (λ s cidr. Fits cidr rsvd))
        s
        (find_unclaimed_block same initial_index pools)
unfolding find_unclaimed_block Ensures list
find_unclaimed_block_lem E K same rsvd initial_index [] s fit = tt
find_unclaimed_block_lem E K same rsvd initial_index (pool ∷ pools) s fit = λ s1 fate m. go s1 fate
  where
    weaken :
        (os : List (KvPair allocation_block)) (r : Attempt IpNet) (s1 : E.State)
        → UnclaimedIn same rsvd os r
        → OnDone E K (λ s cidr. Fits cidr rsvd) s1 r
    weaken os (done cidr) s1 u = u.0
    weaken os (failed e) s1 u = tt

    go :
        (s1 : E.State) (fate : Fate)
        → Ensures E K (OnDone E K (λ s cidr. Fits cidr rsvd)) s1 (
            unclaimed same initial_index
              (pool ∷ pools)
              (list E allocation_block fate (λ cidr. true) s1))
    go s1 answered = weaken _ _ s1 (free_in_pools_lem same rsvd _ initial_index (pool ∷ pools) fit)
    go s1 refused = tt
    go s1 unanswered = tt
