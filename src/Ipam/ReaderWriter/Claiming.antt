-- ===== src/Ipam/ReaderWriter/Claiming.antt =====
-- getPendingAffinity, confirmAffinity and claimAffineBlock of
-- lib/ipam/ipam_block_reader_writer.go among other clients.
use Prim.Native.String.{◌++◌ as str_append}
use text.Mathlib.TextEquality.{eq_iff}
use zyzxlibcalico_go.Prelude.{ℕ, ◌≡◌, refl, String, true, Option, some, inl, inr, ◌⊎◌}
use zyzxlibcalico_go.Ipam.Address.{IpNet}
use zyzxlibcalico_go.Ipam.Block.{AllocationBlock, HostReservedAttr, Outcome}
use zyzxlibcalico_go.Ipam.Block.Invariant.{IsBlock}
use zyzxlibcalico_go.Ipam.Block.Fresh.{Fits, new_block-IsBlock}
use zyzxlibcalico_go.Ipam.Datastore.{
  block_affinity, allocation_block, BlockAffinityState, pending, confirmed, pending_deletion, unset,
  KvPair, Reply, Etcd, IsLawful,
}
use zyzxlibcalico_go.Ipam.Datastore.Moves.{
  Kept, IsStore, Moves, Moves-trans, Known, Known-read, Known-Moves,
}
use zyzxlibcalico_go.Ipam.Datastore.Programs.{returning, ◌>>=◌}
use zyzxlibcalico_go.Ipam.Datastore.Programs.Logic.{Ensures-if, Ensures, Ensures->>=}
use zyzxlibcalico_go.Ipam.Datastore.Programs.Rules.{
  Ensures-get, Ensures-create, Ensures-update, Ensures-delete,
}
use zyzxlibcalico_go.Ipam.ReaderWriter.{
  IpamError, Attempt, done, failed, is_already_exists, is_confirmed, reply_result,
  existing_affinity, created_affinity, get_pending_affinity, confirmed_by_another,
  confirmed_affinity, confirm_affinity, if_confirmed, has_affinity, existing_block, created_block,
  create_block, claim_affine_block,
}

pub affine_IsBlock :
    (b : AllocationBlock) (a : Option String) → IsBlock b → IsBlock (record b { affinity = a })
affine_IsBlock b a v = record { sized = v.sized; counted = v.counted; indexed = v.indexed }

module _ (E : Etcd) (K : Kept) where
  -- What holds of the result, if there is no error.
  abbrev pub OnDone : {A : Type 0} → (E.State → A → Type 0) → E.State → Attempt A → Type 0
  OnDone P s (done a) = P s a
  OnDone P s (failed e) = Unit

  -- The affinity of the host to the block, as it stands in the store or stood there.
  pub record IsAffinity (host : String) (subnet : IpNet) (s : E.State) (aff : KvPair block_affinity)
      : Type 0 where
    pub known : Known E K s aff
    pub key : aff.key ≡ (host, subnet)
    pub claimed : (aff.value ≡ pending) ⊎ (aff.value ≡ confirmed)

  -- The block of the CIDR, with the affinity of the host.
  pub record IsClaimed (host : String) (subnet : IpNet) (s : E.State)
      (kvp : KvPair allocation_block) : Type 0 where
    pub known : Known E K s kvp
    pub key : kvp.key ≡ subnet
    pub affine : has_affinity host kvp.value.affinity ≡ true

module _ (E : Etcd) (K : Kept) (lawful : IsLawful E) where
  is_confirmed→≡ : (a : BlockAffinityState) → is_confirmed a ≡ true → a ≡ confirmed
  is_confirmed→≡ pending h = cc
  is_confirmed→≡ confirmed h = refl
  is_confirmed→≡ pending_deletion h = cc
  is_confirmed→≡ unset h = cc

  module _ (host : String) (subnet : IpNet) where
    existing_affinity_lem :
        (s : E.State) (v : BlockAffinityState) (n : ℕ)
        → IsStore E s
        → E.get (block_affinity, (host, subnet)) s ≡ some (v, n)
        → Ensures E K (OnDone E K (IsAffinity E K host subnet)) s (
            existing_affinity
              (Reply.ok (record { key = (host, subnet); value = v; revision = some n })))
    unfolding Ensures
    existing_affinity_lem s v n g at =
        let known = Known-read E K s block_affinity (host, subnet) v n g at in
        Ensures-if E K Post s (is_confirmed v) _ _
          (λ c. record { known = known; key = refl; claimed = inr (is_confirmed→≡ v c) })
          (λ c.
            Ensures-update E K lawful Post block_affinity (host, subnet) reply_result pending s
              (some n) known.rev known.revised known.positive tt (λ s1 old m at1. tt)
              (λ s1 e current m. tt)
              (λ s1 old at1 m s2 m2 at2. record {
                known =
                    Known-read E K s2 block_affinity (host, subnet) pending (E.revision s2) m2.store
                      at2;
                key = refl;
                claimed = inl refl;
              }))
      where
        Post : E.State → Attempt (KvPair block_affinity) → Type 0
        Post = OnDone E K (IsAffinity E K host subnet)

    -- getPendingAffinity returns an error, or the host's affinity to the block, pending or confirmed.
    pub get_pending_affinity_lem :
        (s : E.State)
        → IsStore E s
        → Ensures E K (OnDone E K (IsAffinity E K host subnet)) s (get_pending_affinity host subnet)
    unfolding get_pending_affinity Ensures
    get_pending_affinity_lem s g =
        Ensures-create E K lawful Post block_affinity (host, subnet) (created_affinity host subnet)
          pending s tt
          (λ s1 e current m.
            Ensures-if E K Post s1 (is_already_exists e) _ _
              (λ c.
                Ensures-get E K lawful Post block_affinity (host, subnet) existing_affinity s1
                  (λ s2 e2 current2 m2. tt) (λ s2 v n m2. existing_affinity_lem s2 v n m2.store))
              (λ c. tt))
          (λ s1 missing m s2 m2 at. record {
            known =
                Known-read E K s2 block_affinity (host, subnet) pending (E.revision s2) m2.store at;
            key = refl;
            claimed = inl refl;
          })
      where
        Post : E.State → Attempt (KvPair block_affinity) → Type 0
        Post = OnDone E K (IsAffinity E K host subnet)

  -- Confirming an affinity only moves the store on.
  confirm_affinity_lem :
      (aff : KvPair block_affinity) (s : E.State)
      → Known E K s aff
      → Ensures E K (λ s' r. Unit {0}) s (confirm_affinity aff)
  unfolding confirm_affinity Ensures
  confirm_affinity_lem aff s k =
      Ensures-update E K lawful (λ s' r. Unit {0}) block_affinity aff.key (confirmed_affinity aff)
        confirmed s aff.revision k.rev k.revised k.positive tt (λ s1 old m at. tt)
        (λ s1 e current m.
          Ensures-get E K lawful (λ s' r. Unit {0}) block_affinity aff.key (confirmed_by_another e)
            s1 (λ s2 e2 current2 m2. tt)
            (λ s2 v n m2 at.
              Ensures-if E K (λ s' r. Unit {0}) s2 (is_confirmed v) _ _ (λ c. tt) (λ c. tt)))
        (λ s1 old at m s2 m2 at2. tt)

  module _ (aff : KvPair block_affinity) where
    abbrev Claims : E.State → Attempt (KvPair allocation_block) → Type 0
    Claims = OnDone E K (IsClaimed E K aff.key.0 aff.key.1)

    confirm-Claims :
        (s : E.State) (kvp : KvPair allocation_block)
        → IsStore E s
        → Known E K s aff
        → IsClaimed E K aff.key.0 aff.key.1 s kvp
        → Ensures E K Claims s (confirm_affinity aff >>= if_confirmed kvp)
    unfolding Ensures
    confirm-Claims s kvp g k c =
        Ensures->>= E K (λ s' r. Unit {0}) Claims s (confirm_affinity aff) (if_confirmed kvp) g
          (confirm_affinity_lem aff s k) (λ s' r m u. go s' r m)
      where
        go :
            (s' : E.State) (r : Attempt (KvPair block_affinity))
            → Moves E K s s'
            → Ensures E K Claims s' (if_confirmed kvp r)
        go s' (done a) m = record {
          known = Known-Moves E K m c.known;
          key = c.key;
          affine = c.affine;
        }
        go s' (failed e) m = tt

    existing_block_lem :
        (s : E.State) (b : AllocationBlock) (n : ℕ)
        → IsStore E s
        → Known E K s aff
        → E.get (allocation_block, aff.key.1) s ≡ some (b, n)
        → Ensures E K Claims s (
            existing_block aff
              (Reply.ok (record { key = aff.key.1; value = b; revision = some n })))
    unfolding Ensures
    existing_block_lem s b n g k at =
        Ensures-if E K Claims s (has_affinity aff.key.0 b.affinity) _ _
          (λ c. confirm-Claims s _ g k (record {
            known = Known-read E K s allocation_block aff.key.1 b n g at;
            key = refl;
            affine = c;
          }))
          (λ c.
            Ensures-delete E K lawful Claims block_affinity aff.key
              (λ reply. returning (failed (IpamError.block_claim_conflict b))) aff.value s
              aff.revision k.rev k.revised k.positive (λ s1 old m at1. tt) (λ s1 e current m. tt)
              (λ s1 old m at1 s2 m2 at2. tt))

    claim-Claims :
        (s : E.State) (b : AllocationBlock)
        → IsStore E s
        → Known E K s aff
        → IsBlock b
        → b.cidr ≡ aff.key.1
        → Ensures E K Claims s (create_block aff (Outcome.ok b))
    unfolding Ensures has_affinity
    claim-Claims s b g k v same =
        Ensures-create E K lawful Claims allocation_block b.cidr (created_block aff) claimed s
          (affine_IsBlock b _ v, refl)
          (λ s1 e current m.
            Ensures-if E K Claims s1 (is_already_exists e) _ _
              (λ c.
                Ensures-get E K lawful Claims allocation_block aff.key.1 (existing_block aff) s1
                  (λ s2 e2 current2 m2. tt)
                  (λ s2 b2 n m2.
                    existing_block_lem s2 b2 n m2.store (Known-Moves E K (Moves-trans E K m m2) k)))
              (λ c. tt))
          (λ s1 missing m s2 m2 at.
            confirm-Claims s2 _ m2.store (Known-Moves E K (Moves-trans E K m m2) k) (record {
              known = Known-read E K s2 allocation_block b.cidr claimed (E.revision s2) m2.store at;
              key = same;
              affine = (eq_iff _ _).1 refl;
            }))
      where
        claimed : AllocationBlock
        claimed = record b { affinity = some (str_append "host:" aff.key.0) }

    -- claimAffineBlock returns an error, or the block of the affinity's CIDR with the affinity of its
    -- host, where the reserved addresses fit into the block.
    pub claim_affine_block_lem :
        (rsvd : Option HostReservedAttr) (s : E.State)
        → Fits aff.key.1 rsvd
        → IsStore E s
        → Known E K s aff
        → Ensures E K Claims s (claim_affine_block aff rsvd)
    unfolding claim_affine_block
    claim_affine_block_lem rsvd s fits g k =
        let (b, made, v, same) = new_block-IsBlock aff.key.1 rsvd fits in
        rw made (claim-Claims s b g k v same)
