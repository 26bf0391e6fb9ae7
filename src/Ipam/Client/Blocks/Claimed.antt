-- ===== src/Ipam/Client/Blocks/Claimed.antt =====
-- findOrClaimBlock of lib/ipam/ipam.go among other clients.
use mathlib.Core.Path.{subst}
use text.Mathlib.Text.{◌==◌ as str_eq}
use zyzxlibcalico_go.Prelude.{
  ℕ, zero, suc, ◌≤◌, ◌<◌, ◌≡◌, refl, sym, ◌⊎◌, inl, inr, Bool, true, false, Option, List, [], ◌∷◌,
  length, leb, arith,
}
use zyzxlibcalico_go.Ipam.Address.{IpNet}
use zyzxlibcalico_go.Ipam.Block.{HostReservedAttr}
use zyzxlibcalico_go.Ipam.Block.Fresh.{Fits}
use zyzxlibcalico_go.Ipam.Block.Queries.{num_free_addresses}
use zyzxlibcalico_go.Ipam.Datastore.{
  block_affinity, allocation_block, IpamConfig, KvPair, Etcd, IsLawful,
}
use zyzxlibcalico_go.Ipam.Datastore.Moves.{
  Kept, IsStore, Moves, Moves-refl, Moves-trans, Known, Known-read,
}
use zyzxlibcalico_go.Ipam.Datastore.Programs.{Program}
use zyzxlibcalico_go.Ipam.Datastore.Programs.Logic.{Ensures, Ensures->>=, Ensures-if}
use zyzxlibcalico_go.Ipam.Datastore.Programs.Rules.{Ensures-get}
use zyzxlibcalico_go.Ipam.ReaderWriter.{Attempt, done, failed, has_affinity, get_pending_affinity}
use zyzxlibcalico_go.Ipam.ReaderWriter.Claiming.{
  OnDone, IsAffinity, IsClaimed, get_pending_affinity_lem,
}
use zyzxlibcalico_go.Ipam.ReaderWriter.Searching.{find_unclaimed_block}
use zyzxlibcalico_go.Ipam.ReaderWriter.Searching.Unclaimed.{PoolsFit, find_unclaimed_block_lem}
use zyzxlibcalico_go.Ipam.Client.Config.{get_ipam_config}
use zyzxlibcalico_go.Ipam.Client.Config.Valid.{Gets, get_ipam_config_lem}
use zyzxlibcalico_go.Ipam.Client.Blocks.{
  is_conflict, is_lost, get_block_from_affinity, FoundBlock, Request, use_affine, affinity_found,
  try_affine, try_all_affine, use_claimed, use_pending, try_claim, use_unclaimed, claim_new,
  claim_if_allowed, ran_out, find_or_claim_block,
}
use zyzxlibcalico_go.Ipam.Client.Blocks.Gotten.{get_block_from_affinity_lem}

abbrev pub AllFit : Option HostReservedAttr → List IpNet → Type 0
AllFit rsvd [] = Unit
AllFit rsvd (cidr ∷ rest) = Fits cidr rsvd × AllFit rsvd rest

-- One of the host's blocks was used up, or a new one was claimed, which was allowed.
abbrev pub Advance : ℕ → Bool → FoundBlock → Type 0
Advance bound allowed f =
    ((f.newly_claimed ≡ false) × (length f.remaining < bound))
    ⊎ ((f.newly_claimed ≡ true) × (f.remaining ≡ []) × (allowed ≡ true))

module _ (E : Etcd) (K : Kept) (q : Request) where
  -- A block of the host with enough free addresses, as it stands in the store or stood there.
  pub record IsFound (min_free bound : ℕ) (allowed : Bool) (s : E.State) (f : FoundBlock)
      : Type 0 where
    pub known : Known E K s f.block
    pub affine : has_affinity q.host f.block.value.affinity ≡ true
    pub roomy : leb min_free (num_free_addresses f.block.value) ≡ true
    pub fit : AllFit q.rsvd f.remaining
    pub progress : Advance bound allowed f

module _ (E : Etcd) (K : Kept) (lawful : IsLawful E) (q : Request) (min_free bound : ℕ)
    (allowed : Bool) (s0 : E.State) where
  abbrev Post : E.State → Attempt FoundBlock → Type 0
  Post = OnDone E K (IsFound E K q min_free bound allowed)

  -- The program ensures the postcondition from any later state on.
  abbrev Ready : Program (Attempt FoundBlock) → Type 0
  Ready p = (s : E.State) → Moves E K s0 s → Ensures E K Post s p

  use_affine_lem :
      (cidr : IpNet) (rest : List IpNet) (again skip : Program (Attempt FoundBlock))
      → length rest < bound
      → AllFit q.rsvd rest
      → Ready again
      → Ready skip
      → (s : E.State) (r : Attempt (KvPair allocation_block)) → Moves E K s0 s
      → OnDone E K (IsClaimed E K q.host cidr) s r
      → Ensures E K Post s (use_affine q min_free rest again skip r)
  unfolding Ensures
  use_affine_lem cidr rest again skip lt fit retries skips s (done b) m c =
      Ensures-if E K Post s (leb min_free (num_free_addresses b.value)) _ _
        (λ roomy. record {
          known = c.known;
          affine = c.affine;
          roomy = roomy;
          fit = fit;
          progress = inl (refl, lt);
        })
        (λ full. skips s m)
  use_affine_lem cidr rest again skip lt fit retries skips s (failed e) m c =
      Ensures-if E K Post s (is_conflict e) _ _ (λ c. retries s m) (λ c. skips s m)

  try_affine_lem :
      (n : ℕ) (cidr : IpNet) (rest : List IpNet) (skip : Program (Attempt FoundBlock))
      → length rest < bound
      → Fits cidr q.rsvd
      → AllFit q.rsvd rest
      → Ready skip
      → Ready (try_affine q min_free n cidr rest skip)
  unfolding try_affine
  try_affine_lem zero cidr rest skip lt fits fit skips s m0 = skips s m0
  try_affine_lem (suc n) cidr rest skip lt fits fit skips s m0 =
      let again = try_affine q min_free n cidr rest skip in
      Ensures-get E K lawful Post block_affinity (q.host, cidr)
        (affinity_found q min_free rest again skip) s
        (λ s1 e current m. skips s1 (Moves-trans E K m0 m))
        (λ s1 v rev m at.
          Ensures->>= E K (OnDone E K (IsClaimed E K q.host cidr)) Post s1
            (get_block_from_affinity q.windows q.rsvd _) (use_affine q min_free rest again skip)
            m.store
            (get_block_from_affinity_lem E K lawful q.windows q.rsvd _ s1 fits m.store
              (Known-read E K s1 block_affinity (q.host, cidr) v rev m.store at))
            (λ s2 r m2.
              use_affine_lem cidr rest again skip lt fit
                (try_affine_lem n cidr rest skip lt fits fit skips) skips s2 r
                (Moves-trans E K m0 (Moves-trans E K m m2))))

  try_all_affine_lem :
      (remaining : List IpNet) (ran_out : Program (Attempt FoundBlock))
      → length remaining ≤ bound
      → AllFit q.rsvd remaining
      → Ready ran_out
      → Ready (try_all_affine q min_free remaining ran_out)
  unfolding try_all_affine
  try_all_affine_lem [] ran_out le fit out s m0 = out s m0
  try_all_affine_lem (cidr ∷ rest) ran_out le (fits, fit) out s m0 =
      try_affine_lem 100 cidr rest (try_all_affine q min_free rest ran_out) (omega (arith, le)) fits
        fit (try_all_affine_lem rest ran_out (omega (arith, le)) fit out) s m0

  module _ (permitted : allowed ≡ true) where
    use_claimed_lem :
        (cidr : IpNet) (again other : Program (Attempt FoundBlock))
        → Ready again
        → Ready other
        → (s : E.State) (r : Attempt (KvPair allocation_block)) → Moves E K s0 s
        → OnDone E K (IsClaimed E K q.host cidr) s r
        → Ensures E K Post s (use_claimed q min_free again other r)
    unfolding Ensures
    use_claimed_lem cidr again other retries others s (done b) m c =
        Ensures-if E K Post s (leb min_free (num_free_addresses b.value)) _ _
          (λ roomy. record {
            known = c.known;
            affine = c.affine;
            roomy = roomy;
            fit = tt;
            progress = inr (refl, refl, permitted);
          })
          (λ full. tt)
    use_claimed_lem cidr again other retries others s (failed e) m c =
        Ensures-if E K Post s (is_conflict e) _ _ (λ c. retries s m)
          (λ c. Ensures-if E K Post s (is_lost e) _ _ (λ c. others s m) (λ c. tt))

    use_pending_lem :
        (cidr : IpNet) (again other : Program (Attempt FoundBlock))
        → Fits cidr q.rsvd
        → Ready again
        → Ready other
        → (s : E.State) (r : Attempt (KvPair block_affinity)) → Moves E K s0 s
        → OnDone E K (IsAffinity E K q.host cidr) s r
        → Ensures E K Post s (use_pending q min_free again other r)
    unfolding Ensures
    use_pending_lem cidr again other fits retries others s (done pa) m a =
        Ensures->>= E K (OnDone E K (IsClaimed E K q.host cidr)) Post s
          (get_block_from_affinity q.windows q.rsvd pa) (use_claimed q min_free again other) m.store
          (subst
            (λ k.
              Ensures E K (OnDone E K (IsClaimed E K k.0 k.1)) s
                (get_block_from_affinity q.windows q.rsvd pa))
            a.key
            (get_block_from_affinity_lem E K lawful q.windows q.rsvd pa s
              (subst (λ k. Fits k.1 q.rsvd) (sym a.key) fits) m.store a.known))
          (λ s2 r m2. use_claimed_lem cidr again other retries others s2 r (Moves-trans E K m m2))
    use_pending_lem cidr again other fits retries others s (failed e) m a =
        Ensures-if E K Post s (is_conflict e) _ _ (λ c. retries s m) (λ c. tt)

    try_claim_lem :
        (n : ℕ) (cidr : IpNet) (other : Program (Attempt FoundBlock))
        → Fits cidr q.rsvd
        → Ready other
        → Ready (try_claim q min_free n cidr other)
    unfolding try_claim
    try_claim_lem zero cidr other fits others s m0 = others s m0
    try_claim_lem (suc n) cidr other fits others s m0 =
        Ensures->>= E K (OnDone E K (IsAffinity E K q.host cidr)) Post s
          (get_pending_affinity q.host cidr)
          (use_pending q min_free (try_claim q min_free n cidr other) other) m0.store
          (get_pending_affinity_lem E K lawful q.host cidr s m0.store)
          (λ s1 r m.
            use_pending_lem cidr _ other fits (try_claim_lem n cidr other fits others) others s1 r
              (Moves-trans E K m0 m))

    use_unclaimed_lem :
        (other : Program (Attempt FoundBlock))
        → Ready other
        → (s : E.State) (r : Attempt IpNet) → Moves E K s0 s
        → OnDone E K (λ s cidr. Fits cidr q.rsvd) s r
        → Ensures E K Post s (use_unclaimed q min_free other r)
    unfolding Ensures
    use_unclaimed_lem other others s (done cidr) m fits =
        try_claim_lem 100 cidr other fits others s m
    use_unclaimed_lem other others s (failed e) m fits = tt

    claim_new_lem : (n : ℕ) → PoolsFit q.rsvd q.pools → Ready (claim_new q min_free n)
    unfolding claim_new Ensures
    claim_new_lem zero fit s m0 = tt
    claim_new_lem (suc n) fit s m0 =
        let same : IpNet → IpNet → Bool = λ a b. str_eq (q.name a) (q.name b) in
        Ensures->>= E K (OnDone E K (λ s cidr. Fits cidr q.rsvd)) Post s
          (find_unclaimed_block same q.initial_index q.pools)
          (use_unclaimed q min_free (claim_new q min_free n)) m0.store
          (find_unclaimed_block_lem E K same q.rsvd q.initial_index q.pools s fit)
          (λ s1 r m. use_unclaimed_lem _ (claim_new_lem n fit) s1 r (Moves-trans E K m0 m))

    claim_if_allowed_lem :
        (r : Attempt IpamConfig) → PoolsFit q.rsvd q.pools → Ready (claim_if_allowed q min_free r)
    unfolding Ensures
    claim_if_allowed_lem (failed e) fit s m0 = tt
    claim_if_allowed_lem (done c) fit s m0 =
        Ensures-if E K Post s c.auto_allocate_blocks _ _ (λ auto. claim_new_lem 100 fit s m0)
          (λ off. tt)

  ran_out_lem : PoolsFit q.rsvd q.pools → Ready (ran_out q min_free allowed)
  unfolding Ensures
  ran_out_lem fit s m0 =
      Ensures-if E K Post s allowed _ _
        (λ permitted.
          Ensures->>= E K (Gets E q.windows) Post s (get_ipam_config q.windows)
            (claim_if_allowed q min_free) m0.store (get_ipam_config_lem E K lawful q.windows s)
            (λ s1 r m u. claim_if_allowed_lem permitted r fit s1 (Moves-trans E K m0 m)))
        (λ no. tt)

-- findOrClaimBlock ends, after a hundred tries for each block of the host and ten thousand for a new
-- one, with an error, or with a block of the host that has the free addresses asked for, if the
-- reserved addresses fit into the blocks; and then it has used up one of the host's blocks, or
-- claimed a new one, which was allowed.
pub find_or_claim_block_lem :
    (E : Etcd) (K : Kept) (lawful : IsLawful E) (q : Request) (min_free : ℕ) (allowed : Bool)
    (remaining : List IpNet) (s : E.State)
    → AllFit q.rsvd remaining
    → PoolsFit q.rsvd q.pools
    → IsStore E s
    → Ensures E K
        (OnDone E K (IsFound E K q min_free (length remaining) allowed))
        s
        (find_or_claim_block q min_free allowed remaining)
unfolding find_or_claim_block
find_or_claim_block_lem E K lawful q min_free allowed remaining s fit pools_fit g =
    try_all_affine_lem E K lawful q min_free (length remaining) allowed s remaining
      (ran_out q min_free allowed) (omega arith) fit
      (ran_out_lem E K lawful q min_free (length remaining) allowed s pools_fit) s
      (Moves-refl E K s g)
