-- ===== src/Ipam/Pools/Tests.antt =====
-- A pool of two blocks of four addresses, 10.0.0.0/29.
use zyzxlibcalico_go.Prelude.{
  ℕ, suc, ◌≡◌, none, some, List, [], ◌∷◌, ◌++◌, map, count, ltb, if◌then◌else◌, arith,
}
use zyzxlibcalico_go.Ipam.Address.{v4, IpNet}
use zyzxlibcalico_go.Ipam.Pools.{IpPool, random_block_generator}
use zyzxlibcalico_go.Ipam.Pools.Walk.{calls, block_at, random_block_generator_lem}

abbrev net : IpNet
net = record { ip = v4 167772160; ones = 29; size = 32 }

abbrev pool : IpPool
pool = record { cidr = some net; block_size = 30; node_selector = [] }

random_block_generator_lem_example :
    (is : List ℕ) × (calls
        (suc (random_block_generator pool net 1).num_blocks)
        (random_block_generator pool net 1)
      ≡ map (λ i. some (block_at (random_block_generator pool net 1) i)) is ++ none ∷ [])
    × ((j : ℕ)
        → count j is ≡ (if ltb j (random_block_generator pool net 1).num_blocks then 1 else 0))
unfolding random_block_generator
random_block_generator_lem_example = random_block_generator_lem pool net 1 (omega arith)
