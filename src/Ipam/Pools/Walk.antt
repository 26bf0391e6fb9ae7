-- ===== src/Ipam/Pools/Walk.antt =====
-- randomBlockGenerator of lib/ipam/ipam_block_reader_writer.go walks every block of a pool once.
use zyzxlibcalico_go.Prelude.{
  ℕ, zero, suc, ◌+◌, ◌-◌, ◌*◌, ◌≤◌, ◌<◌, ◌≡◌, refl, ap, true, false, Option, none, some, List, [],
  ◌∷◌, map, ◌++◌, count, Bool-cases, inl, inr, ltb, leb, if◌then◌else◌, arith,
}
use zyzxlibcalico_go.Ipam.Address.{IpNet, increment_ip}
use zyzxlibcalico_go.Ipam.Pools.{IpPool, Generator, random_block_generator, next}

-- The results of that many calls.
unfoldable pub calls : ℕ → Generator → List (Option IpNet)
calls zero g = []
calls (suc n) g = let (block, g) = next g in block ∷ calls n g

-- The block of an index.
abbrev pub block_at : Generator → ℕ → IpNet
block_at g i = record {
  ip = increment_ip g.base_ip (i * g.block_size);
  ones = g.mask_ones;
  size = g.mask_size;
}

-- The indexes from `i` on, around the end of the pool.
abbrev after : ℕ → ℕ → ℕ
after blocks i = if leb (blocks - i) 1 then 0 else i + 1

unfoldable pub indexes_from : ℕ → ℕ → ℕ → List ℕ
indexes_from blocks i zero = []
indexes_from blocks i (suc n) = i ∷ indexes_from blocks (after blocks i) n

calls_lem :
    (n : ℕ) (g : Generator)
    → g.num_returned + n ≡ g.num_blocks
    → calls (suc n) g
      ≡ map (λ i. some (block_at g i)) (indexes_from g.num_blocks g.i n) ++ none ∷ []
unfolding calls next indexes_from
calls_lem zero g h =
    let over : leb g.num_blocks g.num_returned ≡ true = ground (arith, h) in rw over refl
calls_lem (suc n) g h =
    let more : leb g.num_blocks g.num_returned ≡ false = ground (arith, h) in
    rw more (
      ap (λ t. some (block_at g g.i) ∷ t)
        (calls_lem n (record g { i = after g.num_blocks g.i; num_returned = g.num_returned + 1 })
          (omega (arith, h))))

-- How often an index below the number of blocks comes up in `n` steps from `i`.
count-indexes_from :
    (blocks i n j : ℕ)
    → i < blocks
    → n ≤ blocks
    → count j (indexes_from blocks i n) ≡ (
        if leb i j
        then (if ltb j (i + n) then (if ltb j blocks then 1 else 0) else 0)
        else (if ltb (j + blocks) (i + n) then 1 else 0))
unfolding indexes_from
count-indexes_from blocks i zero j lt le = ground arith
count-indexes_from blocks i (suc n) j lt le = elim (Bool-cases (leb (blocks - i) 1)) [
  | inl last ↦
      rw last
        (ground (arith, count-indexes_from blocks 0 n j (omega (arith, lt)) (omega (arith, le))))
  | inr more ↦ rw more (
      ground
        (arith, count-indexes_from blocks (i + 1) n j (ground (arith, lt)) (omega (arith, le))))
]

-- Called once more than there are blocks in the pool, the generator returns each block once, and then
-- nil, if the index that is drawn is below the number of blocks.
pub random_block_generator_lem :
    (pool : IpPool) (cidr : IpNet) (initial_index : ℕ)
    → initial_index < (random_block_generator pool cidr initial_index).num_blocks
    → (is : List ℕ) × (calls
          (suc (random_block_generator pool cidr initial_index).num_blocks)
          (random_block_generator pool cidr initial_index)
        ≡ map (λ i. some (block_at (random_block_generator pool cidr initial_index) i)) is
          ++ none ∷ [])
      × ((j : ℕ)
          → count j is
            ≡ (if ltb j (random_block_generator pool cidr initial_index).num_blocks then 1 else 0))
unfolding random_block_generator
random_block_generator_lem pool cidr initial_index lt =
    let g = random_block_generator pool cidr initial_index in
    (
      indexes_from g.num_blocks g.i g.num_blocks,
      calls_lem g.num_blocks g (omega arith),
      λ j. ground (arith, count-indexes_from g.num_blocks g.i g.num_blocks j lt (omega arith), lt),
    )

-- A call that returns a block counts it.
abbrev pub Steps : Generator → Option IpNet × Generator → Type 0
Steps g (none, g') = Unit
Steps g (some cidr, g') =
    (g.num_returned < g.num_blocks)
    × (g'.num_blocks ≡ g.num_blocks)
    × (g'.num_returned ≡ g.num_returned + 1)

pub next-Steps : (g : Generator) → Steps g (next g)
unfolding next
next-Steps g = elim (Bool-cases (leb g.num_blocks g.num_returned)) [
  | inl over ↦ rw (over, Steps) tt
  | inr more ↦ rw (more, Steps) (ground arith, refl, refl)
]
