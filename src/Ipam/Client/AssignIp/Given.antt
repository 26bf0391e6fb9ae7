-- ===== src/Ipam/Client/AssignIp/Given.antt =====
-- The address that AssignIP of lib/ipam/ipam.go assigns, among other clients.
use mathlib.Core.Path.{subst}
use zyzxlibcalico_go.Prelude.{
  ℕ, zero, suc, ◌≡◌, refl, sym, ◌∙◌, ap, String, Option, none, some, arith,
}
use zyzxlibcalico_go.Prelude.Options.{absent}
use zyzxlibcalico_go.Ipam.Address.{IpNet, ip_to_ordinal}
use zyzxlibcalico_go.Ipam.Block.{AllocationBlock, Outcome, assign}
use zyzxlibcalico_go.Ipam.Block.Invariant.{handle_at}
use zyzxlibcalico_go.Ipam.Block.Fresh.{Fits}
use zyzxlibcalico_go.Ipam.Pools.{IpPool, get_block_cidr_for_address}
use zyzxlibcalico_go.Ipam.Datastore.{
  block_affinity, allocation_block, IpamConfig, KvPair, Etcd, IsLawful,
}
use zyzxlibcalico_go.Ipam.Datastore.Moves.{
  Kept, IsStore, Moves, Moves-trans, Known, Known-read, KeepsUsed, Used, Used-handle,
}
use zyzxlibcalico_go.Ipam.Datastore.Programs.{Program}
use zyzxlibcalico_go.Ipam.Datastore.Programs.Logic.{
  Ensures, Ensures->>=, Ensures-weaken, Ensures-if,
}
use zyzxlibcalico_go.Ipam.Datastore.Programs.Rules.{Ensures-get, Ensures-update}
use zyzxlibcalico_go.Ipam.ReaderWriter.{
  Attempt, done, failed, is_does_not_exist, is_update_conflict, get_pending_affinity,
  claim_affine_block,
}
use zyzxlibcalico_go.Ipam.ReaderWriter.Claiming.{
  OnDone, IsAffinity, IsClaimed, get_pending_affinity_lem, claim_affine_block_lem,
}
use zyzxlibcalico_go.Ipam.ReaderWriter.Searching.{get_pool_for_ip}
use zyzxlibcalico_go.Ipam.Client.{datastore_retries}
use zyzxlibcalico_go.Ipam.Client.Assigning.{increment_if, decrement_if}
use zyzxlibcalico_go.Ipam.Client.Assigning.Given.{increment_if_lem, decrement_if_lem}
use zyzxlibcalico_go.Ipam.Client.Config.{get_ipam_config}
use zyzxlibcalico_go.Ipam.Client.Config.Valid.{Gets, get_ipam_config_lem}
use zyzxlibcalico_go.Ipam.Client.Blocks.{is_conflict}
use zyzxlibcalico_go.Ipam.Client.AssignIp.Taking.{Takes, TakesOrFails, assign-Takes}
use zyzxlibcalico_go.Ipam.Client.AssignIp.{
  AssignIpArgs, Surroundings, decide_hostname, saved, assigned, assign_in, block_claimed,
  affinity_pending, config_read, block_read, assign_ip_tries, with_config, in_pool, on_host,
  assign_ip,
}

module _ (E : Etcd) (K : Kept) where
  -- The address of the block is used in the store with the handle, and was no kept one before.
  pub record IsAssigned (args : AssignIpArgs) (cidr : IpNet) (s0 s : E.State) : Type 0 where
    pub ordinal : ℕ
    pub inside : ip_to_ordinal cidr args.ip ≡ some ordinal
    pub used : Used E s cidr ordinal args.handle
    pub free : (h : Option String) → K.Keeps cidr ordinal h → Used E s0 cidr ordinal h → ⊥

  -- AssignIP is done only if the address is in a pool, and is then assigned.
  abbrev pub AssignsIp :
      Surroundings → AssignIpArgs → E.State → E.State → Attempt (Unit {0}) → Type 0
  AssignsIp e args s0 s (failed error) = Unit
  AssignsIp e args s0 s (done u) =
      (pool : IpPool) × (get_pool_for_ip e.get_enabled_pools args.ip none ≡ done (some pool))
      × IsAssigned args (get_block_cidr_for_address args.ip pool) s0 s

module _ (E : Etcd) (K : Kept) (lawful : IsLawful E) (e : Surroundings) (args : AssignIpArgs)
    (host : String) (cidr : IpNet) (fits : Fits cidr args.rsvd) (s0 : E.State) where
  abbrev Post : E.State → Attempt (Unit {0}) → Type 0
  Post = OnDone E K (λ s u. IsAssigned E K args cidr s0 s)

  module _ (again : IpamConfig → Program (Attempt (Unit {0})))
      (retried : (s : E.State) (cfg : IpamConfig) → Moves E K s0 s → Ensures E K Post s (again cfg))
      (cfg : IpamConfig) where
    -- The block that assign makes of the one that was read is written.
    write_lem :
        (obj : KvPair allocation_block) (b : AllocationBlock) (s : E.State)
        → Moves E K s0 s
        → Known E K s obj
        → obj.key ≡ cidr
        → Takes args.ip args.handle obj.value b
        → Ensures E K Post s (assigned e args host cidr again cfg obj (Outcome.ok b))
    unfolding Ensures
    write_lem obj b s m0 k key t =
        let o = t.ordinal in
        Ensures->>= E K (λ s' r. Unit {0}) Post s (increment_if e.name args.handle cidr 1) _
          m0.store (increment_if_lem E K lawful e.name args.handle cidr 1 s m0.store (omega arith))
          (λ s1 r m1 u.
            Ensures-update E K lawful Post allocation_block obj.key
              (saved e args host cidr again cfg) b s1 obj.revision k.rev k.revised k.positive
              (t.valid, t.same ∙ k.good.1)
              (λ s2 old m2 at.
                subst (λ old. KeepsUsed K obj.key old (handle_at b))
                  (k.current s2 old (Moves-trans E K m1 m2) at)
                  (λ j h plain was. ground (arith, t.handles j, t.free, was)))
              (λ s2 error current m2.
                Ensures-if E K Post s2 (is_update_conflict error) _ _
                  (λ c. retried s2 cfg (Moves-trans E K m0 (Moves-trans E K m1 m2)))
                  (λ c.
                    Ensures->>= E K (λ s' r. Unit {0}) Post s2
                      (decrement_if e.name args.handle cidr 1) _ m2.store
                      (decrement_if_lem E K lawful e.name args.handle cidr 1 s2 m2.store)
                      (λ s3 r m3 u. tt)))
              (λ s2 old at m2 s3 m3 at3. record {
                ordinal = o;
                inside = subst (λ c. ip_to_ordinal c args.ip ≡ some o) (k.good.1 ∙ key) t.inside;
                used =
                    subst (λ c. Used E s3 c o args.handle) key
                      (b, E.revision s3, at3, ground (arith, t.handles o));
                free = λ h plain u.
                    let u' : Used E s0 obj.key o h = subst (λ c. Used E s0 c o h) (sym key) u in
                    let was_used =
                      (Moves-trans E K m0 (Moves-trans E K m1 m2)).used obj.key o h
                        (subst (λ c. K.Keeps c o h) (sym key) plain) u' in
                    absent (
                      sym t.free
                      ∙ (ap (λ b. handle_at b o) (k.current s2 old (Moves-trans E K m1 m2) at)
                          ∙ Used-handle E s2 obj.key o h old k.rev at was_used));
              }))

    assign_in_lem :
        (obj : KvPair allocation_block) (s : E.State)
        → Moves E K s0 s
        → Known E K s obj
        → obj.key ≡ cidr
        → Ensures E K Post s (assign_in e args host cidr again cfg obj)
    unfolding Ensures
    assign_in_lem obj s m0 k key =
        go (assign cfg.strict_affinity args.ip args.handle args.attrs host obj.value)
          (assign-Takes cfg.strict_affinity args.ip args.handle args.attrs host obj.value k.good.0)
      where
        go :
            (out : Outcome AllocationBlock)
            → TakesOrFails args.ip args.handle obj.value out
            → Ensures E K Post s (assigned e args host cidr again cfg obj out)
        go (Outcome.ok b) t = write_lem obj b s m0 k key t
        go (Outcome.err error) t = tt
        go Outcome.panic t = absurd t

    block_claimed_lem :
        (s : E.State) (r : Attempt (KvPair allocation_block))
        → Moves E K s0 s
        → OnDone E K (IsClaimed E K host cidr) s r
        → Ensures E K Post s (block_claimed e args host cidr again cfg r)
    unfolding Ensures
    block_claimed_lem s (done obj) m0 c = assign_in_lem obj s m0 c.known c.key
    block_claimed_lem s (failed error) m0 c =
        Ensures-if E K Post s (is_conflict error) _ _ (λ c. retried s cfg m0) (λ c. tt)

    affinity_pending_lem :
        (s : E.State) (r : Attempt (KvPair block_affinity))
        → Moves E K s0 s
        → OnDone E K (IsAffinity E K host cidr) s r
        → Ensures E K Post s (affinity_pending e args host cidr again cfg r)
    unfolding Ensures
    affinity_pending_lem s (done pa) m0 a =
        Ensures->>= E K (OnDone E K (IsClaimed E K host cidr)) Post s
          (claim_affine_block pa args.rsvd) _ m0.store
          (subst
            (λ (k : String × IpNet).
              Ensures E K (OnDone E K (IsClaimed E K k.0 k.1)) s (claim_affine_block pa args.rsvd))
            a.key
            (claim_affine_block_lem E K lawful pa args.rsvd s
              (subst (λ (k : String × IpNet). Fits k.1 args.rsvd) (sym a.key) fits) m0.store
              a.known))
          (λ s1 r m c. block_claimed_lem s1 r (Moves-trans E K m0 m) c)
    affinity_pending_lem s (failed error) m0 a =
        Ensures-if E K Post s (is_conflict error) _ _ (λ c. retried s cfg m0) (λ c. tt)

  config_read_lem :
      (again : IpamConfig → Program (Attempt (Unit {0})))
      → ((s : E.State) (cfg : IpamConfig) → Moves E K s0 s → Ensures E K Post s (again cfg))
      → (s : E.State) (r : Attempt IpamConfig) → Moves E K s0 s
      → Ensures E K Post s (config_read e args host cidr again r)
  unfolding Ensures
  config_read_lem again retried s (failed error) m0 = tt
  config_read_lem again retried s (done cfg) m0 =
      Ensures->>= E K (OnDone E K (IsAffinity E K host cidr)) Post s
        (get_pending_affinity host cidr) _ m0.store
        (get_pending_affinity_lem E K lawful host cidr s m0.store)
        (λ s1 r m a. affinity_pending_lem again retried cfg s1 r (Moves-trans E K m0 m) a)

  assign_ip_tries_lem :
      (n : ℕ) (s : E.State) (cfg : IpamConfig)
      → Moves E K s0 s
      → Ensures E K Post s (assign_ip_tries e args host cidr n cfg)
  unfolding assign_ip_tries Ensures
  assign_ip_tries_lem zero s cfg m0 = tt
  assign_ip_tries_lem (suc n) s cfg m0 =
      let again = assign_ip_tries e args host cidr n in
      let retried = assign_ip_tries_lem n in
      Ensures-get E K lawful Post allocation_block cidr (block_read e args host cidr again cfg) s
        (λ s1 error current m.
          Ensures-if E K Post s1 (is_does_not_exist error) _ _
            (λ c.
              Ensures->>= E K (Gets E e.windows) Post s1 (get_ipam_config e.windows) _ m.store
                (get_ipam_config_lem E K lawful e.windows s1)
                (λ s2 r m2 x.
                  config_read_lem again retried s2 r (Moves-trans E K m0 (Moves-trans E K m m2))))
            (λ c. tt))
        (λ s1 b rev m at.
          assign_in_lem again retried cfg _ s1 (Moves-trans E K m0 m)
            (Known-read E K s1 allocation_block cidr b rev m.store at) refl)

  with_config_lem :
      (s : E.State) (r : Attempt IpamConfig)
      → Moves E K s0 s
      → Ensures E K Post s (with_config e args host cidr r)
  unfolding Ensures
  with_config_lem s (failed error) m0 = tt
  with_config_lem s (done cfg) m0 = assign_ip_tries_lem datastore_retries s cfg m0

-- AssignIP ends with an error, or with the address in a pool and in the store with the handle, where it
-- was not used as a kept address when AssignIP started, whatever other clients do.
pub assign_ip_lem :
    (E : Etcd) (K : Kept) (lawful : IsLawful E) (e : Surroundings) (args : AssignIpArgs)
    (s : E.State)
    → ((pool : IpPool)
        → get_pool_for_ip e.get_enabled_pools args.ip none ≡ done (some pool)
        → Fits (get_block_cidr_for_address args.ip pool) args.rsvd)
    → IsStore E s
    → Ensures E K (AssignsIp E K e args s) s (assign_ip e args)
unfolding assign_ip Ensures
assign_ip_lem E K lawful e args s fits g = named (decide_hostname e.os_hostname args.hostname)
  where
    only_done :
        (pool : IpPool)
        → get_pool_for_ip e.get_enabled_pools args.ip none ≡ done (some pool)
        → (s' : E.State) (a : Attempt (Unit {0}))
        → OnDone E K
            (λ s' u. IsAssigned E K args (get_block_cidr_for_address args.ip pool) s s')
            s'
            a
        → AssignsIp E K e args s s' a
    only_done pool found s' (done u) x = (pool, found, x)
    only_done pool found s' (failed error) x = tt

    pooled :
        (host : String) (p : Attempt (Option IpPool))
        → get_pool_for_ip e.get_enabled_pools args.ip none ≡ p
        → Ensures E K (AssignsIp E K e args s) s (in_pool e args host p)
    pooled host (failed error) found = tt
    pooled host (done none) found = tt
    pooled host (done (some pool)) found =
        let cidr = get_block_cidr_for_address args.ip pool in
        Ensures->>= E K (Gets E e.windows) (AssignsIp E K e args s) s (get_ipam_config e.windows) _
          g (get_ipam_config_lem E K lawful e.windows s)
          (λ s1 r m x.
            Ensures-weaken E K (Post E K lawful e args host cidr (fits pool found) s)
              (AssignsIp E K e args s) s1 (with_config e args host cidr r) (only_done pool found)
              (with_config_lem E K lawful e args host cidr (fits pool found) s s1 r m))

    named : (h : Attempt String) → Ensures E K (AssignsIp E K e args s) s (on_host e args h)
    named (failed error) = tt
    named (done host) = pooled host (get_pool_for_ip e.get_enabled_pools args.ip none) refl
