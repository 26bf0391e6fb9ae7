-- ===== src/Ipam/Client/Blocks/Gotten.antt =====
-- getBlockFromAffinity of lib/ipam/ipam.go among other clients.
use mathlib.Core.Path.{subst}
use zyzxlibcalico_go.Prelude.{ℕ, refl, String, Bool, Option, some}
use zyzxlibcalico_go.Ipam.Address.{IpNet}
use zyzxlibcalico_go.Ipam.Block.{HostReservedAttr}
use zyzxlibcalico_go.Ipam.Block.Fresh.{Fits}
use zyzxlibcalico_go.Ipam.Block.Invariant.{handle_at}
use zyzxlibcalico_go.Ipam.Datastore.{
  block_affinity, allocation_block, BlockAffinityState, pending, confirmed, IpamConfig, KvPair,
  Reply, Etcd, IsLawful,
}
use zyzxlibcalico_go.Ipam.Datastore.Moves.{
  Kept, IsStore, Moves, Moves-trans, Known, Known-read, Known-Moves, KeepsUsed,
}
use zyzxlibcalico_go.Ipam.Datastore.Programs.{asking, update_request}
use zyzxlibcalico_go.Ipam.Datastore.Programs.Logic.{Ensures, Ensures->>=, Ensures-if}
use zyzxlibcalico_go.Ipam.Datastore.Programs.Rules.{Ensures-get, Ensures-update, Ensures-delete}
use zyzxlibcalico_go.Ipam.ReaderWriter.{Attempt, done, failed, is_does_not_exist, has_affinity}
use zyzxlibcalico_go.Ipam.ReaderWriter.Claiming.{OnDone, IsClaimed, claim_affine_block_lem}
use zyzxlibcalico_go.Ipam.Client.Config.{get_ipam_config}
use zyzxlibcalico_go.Ipam.Client.Config.Valid.{Gets, get_ipam_config_lem}
use zyzxlibcalico_go.Ipam.Client.Blocks.{
  is_settled, claim_with, claim_pending, confirmed_again, rewritten, rewrite, stale_deleted,
  block_of_affinity, get_block_from_affinity,
}

module _ (E : Etcd) (K : Kept) (lawful : IsLawful E) (windows : Bool) where
  module _ (rsvd : Option HostReservedAttr) (host : String) (cidr : IpNet) where
    abbrev Claims : E.State → Attempt (KvPair allocation_block) → Type 0
    Claims = OnDone E K (IsClaimed E K host cidr)

    claim_pending_lem :
        (v : BlockAffinityState) (n : Option ℕ) (s : E.State)
        → Fits cidr rsvd
        → IsStore E s
        → Known E K s {r = block_affinity} (record { key = (host, cidr); value = v; revision = n })
        → Ensures E K Claims s (
            claim_pending windows rsvd
              (Reply.ok (record { key = (host, cidr); value = v; revision = n })))
    unfolding Ensures
    claim_pending_lem v n s fits g k =
        Ensures->>= E K (Gets E windows) Claims s (get_ipam_config windows)
          (claim_with windows rsvd _) g (get_ipam_config_lem E K lawful windows s)
          (λ s1 r m u. go s1 m r)
      where
        go :
            (s1 : E.State)
            → Moves E K s s1
            → (r : Attempt IpamConfig)
            → Ensures E K Claims s1
                (claim_with windows rsvd (record { key = (host, cidr); value = v; revision = n }) r)
        go s1 m (done c) =
            claim_affine_block_lem E K lawful _ rsvd s1 fits m.store (Known-Moves E K m k)
        go s1 m (failed e) = tt

    confirmed_again_lem :
        (b : KvPair allocation_block) (aff : KvPair block_affinity) (s : E.State)
        → Known E K s aff
        → IsClaimed E K host cidr s b
        → Ensures E K Claims s (
            asking block_affinity
              (update_request (record aff { value = confirmed }))
              (confirmed_again windows rsvd b))
    unfolding Ensures
    confirmed_again_lem b aff s ka c =
        Ensures-update E K lawful Claims block_affinity aff.key (confirmed_again windows rsvd b)
          confirmed s aff.revision ka.rev ka.revised ka.positive tt (λ s1 old m at. tt)
          (λ s1 e current m. tt)
          (λ s1 old at m s2 m2 at2. record {
            known = Known-Moves E K (Moves-trans E K m m2) c.known;
            key = c.key;
            affine = c.affine;
          })

    rewrite_lem :
        (b : KvPair allocation_block) (aff : KvPair block_affinity) (s : E.State)
        → Known E K s aff
        → IsClaimed E K host cidr s b
        → Ensures E K Claims s (rewrite windows rsvd b (Reply.ok aff))
    unfolding Ensures
    rewrite_lem b aff s ka c =
        Ensures-update E K lawful Claims allocation_block b.key (rewritten windows rsvd aff) b.value
          s b.revision c.known.rev c.known.revised c.known.positive c.known.good
          (λ s1 old m at.
            subst (λ old. KeepsUsed K b.key old (handle_at b.value)) (c.known.current s1 old m at)
              (λ o h r u. u))
          (λ s1 e current m. tt)
          (λ s1 old at m s2 m2 at2.
            confirmed_again_lem _ aff s2 (Known-Moves E K (Moves-trans E K m m2) ka) (record {
              known = Known-read E K s2 allocation_block b.key b.value (E.revision s2) m2.store at2;
              key = c.key;
              affine = c.affine;
            }))

  -- getBlockFromAffinity returns an error, or the block of the affinity's CIDR with the affinity of its
  -- host, as it stands in the store or stood there.
  pub get_block_from_affinity_lem :
      (rsvd : Option HostReservedAttr) (aff : KvPair block_affinity) (s : E.State)
      → Fits aff.key.1 rsvd
      → IsStore E s
      → Known E K s aff
      → Ensures E K
          (OnDone E K (IsClaimed E K aff.key.0 aff.key.1))
          s
          (get_block_from_affinity windows rsvd aff)
  unfolding get_block_from_affinity Ensures
  get_block_from_affinity_lem rsvd aff s fits g k =
      Ensures-get E K lawful Post allocation_block aff.key.1 (block_of_affinity windows rsvd aff) s
        (λ s1 e current m.
          Ensures-if E K Post s1 (is_does_not_exist e) _ _
            (λ c.
              Ensures-update E K lawful Post block_affinity aff.key (claim_pending windows rsvd)
                pending s1 aff.revision k.rev k.revised k.positive tt (λ s2 old m2 at. tt)
                (λ s2 e2 current2 m2. tt)
                (λ s2 old at m2 s3 m3 at3.
                  claim_pending_lem rsvd aff.key.0 aff.key.1 pending (some (E.revision s3)) s3 fits
                    m3.store
                    (Known-read E K s3 block_affinity aff.key pending (E.revision s3) m3.store
                      at3)))
            (λ c. tt))
        (λ s1 b n m at.
          Ensures-if E K Post s1 (has_affinity aff.key.0 b.affinity) _ _
            (λ affine.
              let claimed : IsClaimed E K aff.key.0 aff.key.1 s1
                  (record { key = aff.key.1; value = b; revision = some n }) =
                record {
                  known = Known-read E K s1 allocation_block aff.key.1 b n m.store at;
                  key = refl;
                  affine = affine;
                } in
              Ensures-if E K Post s1 (is_settled aff.value) _ _ (λ c. claimed)
                (λ c.
                  Ensures-update E K lawful Post block_affinity aff.key
                    (rewrite windows rsvd
                      (record { key = aff.key.1; value = b; revision = some n }))
                    pending s1 aff.revision k.rev k.revised k.positive tt (λ s2 old m2 at2. tt)
                    (λ s2 e current m2. tt)
                    (λ s2 old at2 m2 s3 m3 at3.
                      rewrite_lem rsvd aff.key.0 aff.key.1 _ _ s3
                        (Known-read E K s3 block_affinity aff.key pending (E.revision s3) m3.store
                          at3)
                        (record {
                          known = Known-Moves E K (Moves-trans E K m2 m3) claimed.known;
                          key = refl;
                          affine = affine;
                        }))))
            (λ c.
              Ensures-delete E K lawful Post block_affinity aff.key
                (stale_deleted windows rsvd
                  (record { key = aff.key.1; value = b; revision = some n }))
                aff.value s1 aff.revision k.rev k.revised k.positive (λ s2 old m2 at2. tt)
                (λ s2 e current m2. tt) (λ s2 old m2 at2 s3 m3 at3. tt)))
    where
      Post : E.State → Attempt (KvPair allocation_block) → Type 0
      Post = OnDone E K (IsClaimed E K aff.key.0 aff.key.1)
