-- ===== src/Ipam/Client/AutoAssign/Loops.antt =====
-- The loops of autoAssign of lib/ipam/ipam.go end, among other clients.
use zyzxlibcalico_go.Prelude.{
  ℕ, zero, suc, ◌+◌, ◌-◌, ◌≤◌, ◌<◌, ◌≡◌, false, not, ◌&&◌, Option, none, some, List, [], ◌∷◌, ◌++◌,
  length, leb, ◌==◌, arith, inl, inr,
}
use zyzxlibcalico_go.Ipam.Address.{IpNet}
use zyzxlibcalico_go.Ipam.Pools.{IpPool, random_block_generator}
use zyzxlibcalico_go.Ipam.Datastore.{Etcd, IsLawful}
use zyzxlibcalico_go.Ipam.Datastore.Moves.{Kept, IsStore, Moves, Moves-refl, Moves-trans}
use zyzxlibcalico_go.Ipam.Datastore.Programs.{Program}
use zyzxlibcalico_go.Ipam.Datastore.Programs.Logic.{Ensures, Ensures->>=, Ensures-if}
use zyzxlibcalico_go.Ipam.ReaderWriter.{Attempt, done, failed}
use zyzxlibcalico_go.Ipam.ReaderWriter.Claiming.{OnDone}
use zyzxlibcalico_go.Ipam.ReaderWriter.Searching.Unclaimed.{PoolsFit}
use zyzxlibcalico_go.Ipam.Client.Assigning.Given.{AllGiven}
use zyzxlibcalico_go.Ipam.Client.Blocks.{FoundBlock, Request, find_or_claim_block}
use zyzxlibcalico_go.Ipam.Client.Blocks.Claimed.{AllFit, Advance, IsFound, find_or_claim_block_lem}
use zyzxlibcalico_go.Ipam.Client.AutoAssign.{
  assign_from_pool, Assigned, Wanted, is_no_free_blocks, is_block_limit, new_allowed, owned_with,
  use_found, assign_affine, assign_from_pools, assign_non_affine, auto_assign_from,
}
use zyzxlibcalico_go.Ipam.Client.AutoAssign.Given.{
  Fine-Moves, Fine, Goes, more, assign_tries_lem, assign_from_pool_lem,
}

-- One of the host's blocks fewer, or one new block fewer that it may have.
measure_falls :
    (q : Request) (w : Wanted) (n owned : ℕ) (remaining : List IpNet) (f : FoundBlock)
    → 0 < w.limit
    → length remaining + (w.limit - owned) < suc n
    → Advance (length remaining) (new_allowed q w owned) f
    → length f.remaining + (w.limit - owned_with q w f.newly_claimed owned) < n
measure_falls q w n owned remaining f pos small (inl (old, lt)) = rw old (omega (arith, lt, small))
measure_falls q w n owned remaining f pos small (inr (new, empty, allowed)) =
    let below : owned < w.limit = ground (arith, allowed, pos) in
    rw (new, empty) (omega (arith, below, small))

module _ (E : Etcd) (K : Kept) (lawful : IsLawful E) (q : Request) (w : Wanted)
    (plain : (c : IpNet) (o : ℕ) → K.Keeps c o w.handle) (s0 : E.State) (st : IsStore E s0) where
  abbrev Post : E.State → Assigned → Type 0
  Post s r = Fine E K lawful q w plain s0 s r.ips

  assign_from_pools_lem :
      (pools : List IpPool) → Goes E K lawful q w plain s0 (assign_from_pools q w pools)
  unfolding assign_from_pools Ensures
  assign_from_pools_lem [] s ips m fine = fine
  assign_from_pools_lem (pool ∷ pools) s ips m fine = go pool.cidr (assign_from_pools_lem pools)
    where
      go :
          (c : Option IpNet)
          → Goes E K lawful q w plain s0 (assign_from_pools q w pools)
          → Ensures E K Post s (elim c [
            | none ↦ assign_from_pools q w pools ips
            | some cidr ↦
                (let g = random_block_generator pool cidr (q.initial_index pool) in
                  assign_from_pool q w (suc g.num_blocks) g ips (assign_from_pools q w pools))
          ])
      go none goes = goes s ips m fine
      go (some cidr) goes =
          assign_from_pool_lem E K lawful q w plain s0 _ _ ips (assign_from_pools q w pools) st
            (omega arith) goes s m fine

  assign_non_affine_lem : Goes E K lawful q w plain s0 (assign_non_affine q w)
  unfolding Ensures
  assign_non_affine_lem s ips m fine =
      Ensures-if E K Post s (not w.strict_affinity && not (w.num - length ips == 0)) _ _
        (λ c. assign_from_pools_lem q.pools s ips m fine) (λ c. fine)

  module _ (pos : 0 < w.limit) (fit : PoolsFit q.rsvd q.pools) where
    -- The rest of the loop, with `n` rounds left.
    abbrev Loops : ℕ → (List IpNet → ℕ → List IpNet → Program Assigned) → Type 0
    Loops n again =
        (remaining : List IpNet) (owned : ℕ)
        → length remaining + (w.limit - owned) < n
        → AllFit q.rsvd remaining
        → Goes E K lawful q w plain s0 (again remaining owned)

    use_found_lem :
        (n owned : ℕ) (remaining ips : List IpNet)
        (again : List IpNet → ℕ → List IpNet → Program Assigned)
        → length remaining + (w.limit - owned) < suc n
        → leb w.num (length ips) ≡ false
        → Loops n again
        → (s : E.State) (r : Attempt FoundBlock) → Moves E K s0 s
        → Fine E K lawful q w plain s0 s ips
        → OnDone E K (IsFound E K q 1 (length remaining) (new_allowed q w owned)) s r
        → Ensures E K Post s (use_found q w again (assign_non_affine q w) owned ips r)
    unfolding Ensures
    use_found_lem n owned remaining ips again small short loops s (done f) m fine found =
        assign_tries_lem E K lawful q w plain s0 s m 100 (w.num - length ips)
          (λ new. again f.remaining (owned_with q w f.newly_claimed owned) (ips ++ new))
          (ground (arith, short))
          (λ s1 new m1 given few.
            loops f.remaining (owned_with q w f.newly_claimed owned)
              (measure_falls q w n owned remaining f pos small found.progress) found.fit s1
              (ips ++ new) (Moves-trans E K m m1)
              (more E K lawful q w plain s0 st s s1 ips new m1 fine given few))
          s f.block (Moves-refl E K s m.store) found.known
    use_found_lem n owned remaining ips again small short loops s (failed e) m fine found =
        Ensures-if E K Post s (is_no_free_blocks e) _ _ (λ c. assign_non_affine_lem s ips m fine)
          (λ c. Ensures-if E K Post s (is_block_limit e) _ _ (λ c. fine) (λ c. (tt, omega arith)))

    assign_affine_lem : (n : ℕ) → Loops n (assign_affine q w n (assign_non_affine q w))
    unfolding assign_affine
    assign_affine_lem zero remaining owned small fits s ips m fine = absurd (omega (arith, small))
    assign_affine_lem (suc n) remaining owned small fits s ips m fine =
        Ensures-if E K Post s (leb w.num (length ips)) _ _
          (λ all. assign_non_affine_lem s ips m fine)
          (λ short.
            Ensures->>= E K
              (OnDone E K (IsFound E K q 1 (length remaining) (new_allowed q w owned))) Post s
              (find_or_claim_block q 1 (new_allowed q w owned) remaining)
              (use_found q w (assign_affine q w n (assign_non_affine q w)) (assign_non_affine q w)
                owned ips)
              m.store
              (find_or_claim_block_lem E K lawful q 1 (new_allowed q w owned) remaining s fits fit
                m.store)
              (λ s1 r m1.
                use_found_lem n owned remaining ips _ small short (assign_affine_lem n) s1 r
                  (Moves-trans E K m m1) (Fine-Moves E K lawful q w plain s0 ips st m1 fine)))

-- autoAssign ends, whatever other clients do, if the reserved addresses fit into the blocks of the
-- host and of the pools. The addresses that it returns, with an error or without, are no more than
-- asked for, have the handle in the store, and were no kept ones when it started.
pub auto_assign_from_lem :
    (E : Etcd) (K : Kept) (lawful : IsLawful E) (q : Request) (w : Wanted) (blocks : List IpNet)
    (s : E.State)
    → ((c : IpNet) (o : ℕ) → K.Keeps c o w.handle)
    → 0 < w.limit
    → AllFit q.rsvd blocks
    → PoolsFit q.rsvd q.pools
    → IsStore E s
    → Ensures E K
        (λ s' r. AllGiven E K s s' w.handle r.ips × (length r.ips ≤ w.num))
        s
        (auto_assign_from q w blocks)
unfolding auto_assign_from
auto_assign_from_lem E K lawful q w blocks s plain pos fits fit st =
    assign_affine_lem E K lawful q w plain s st pos fit (suc (length blocks + w.limit)) blocks
      (length blocks) (omega arith) fits s [] (Moves-refl E K s st) (tt, omega arith)
