-- ===== src/Ipam/Client/Release/Consistent.antt =====
-- ensureConsistentAffinity of lib/ipam/ipam.go among other clients.

use text.Mathlib.Text.{◌==◌ as str_eq}
use zyzxlibcalico_go.Prelude.{String, Bool, true, false, Option, none, some}
use zyzxlibcalico_go.Ipam.Address.{IpNet}
use zyzxlibcalico_go.Ipam.Block.{AllocationBlock}
use zyzxlibcalico_go.Ipam.Block.Queries
use zyzxlibcalico_go.Ipam.Pools.{IpPool, selects_node}
use zyzxlibcalico_go.Ipam.Datastore.{node, KvPair, Etcd, IsLawful}
use zyzxlibcalico_go.Ipam.Datastore.Moves.{Kept, IsStore, Moves}
use zyzxlibcalico_go.Ipam.Datastore.Programs.Logic.{Ensures, Ensures->>=, Ensures-if}
use zyzxlibcalico_go.Ipam.Datastore.Programs.Rules.{Ensures-get}
use zyzxlibcalico_go.Ipam.ReaderWriter.{
  Attempt, done, failed, is_does_not_exist, release_block_affinity,
}
use zyzxlibcalico_go.Ipam.ReaderWriter.Releasing.{AffinityReleased, release_block_affinity_lem}
use zyzxlibcalico_go.Ipam.ReaderWriter.Searching.{get_pool_for_ip}
use zyzxlibcalico_go.Ipam.Client.AssignIp.{Surroundings}
use zyzxlibcalico_go.Ipam.Client.Release.{
  is_ignored, unless_ignored, if_selected, pool_found, node_found, ensure_consistent_affinity,
}

module _ (E : Etcd) (K : Kept) (lawful : IsLawful E) (e : Surroundings) where
  abbrev Any : {A : Type 0} → E.State → A → Type 0
  Any s r = Unit

  if_selected_lem :
      (host : String) (cidr : IpNet) (s : E.State) (selected : Option Bool)
      → IsStore E s
      → Ensures E K Any s (if_selected host cidr selected)
  unfolding Ensures
  if_selected_lem host cidr s none g = tt
  if_selected_lem host cidr s (some true) g = tt
  if_selected_lem host cidr s (some false) g =
      Ensures->>= E K (AffinityReleased E K host cidr true s) Any s
        (release_block_affinity host cidr true) unless_ignored g
        (release_block_affinity_lem E K lawful host cidr true s g) (λ s1 r m x. ignored s1 r)
    where
      ignored : (s1 : E.State) (r : Attempt (Unit {0})) → Ensures E K Any s1 (unless_ignored r)
      ignored s1 (done u) = tt
      ignored s1 (failed error) = Ensures-if E K Any s1 (is_ignored error) _ _ (λ c. tt) (λ c. tt)

  -- ensureConsistentAffinity keeps what clients keep.
  pub ensure_consistent_affinity_lem :
      (b : AllocationBlock) (s : E.State)
      → IsStore E s
      → Ensures E K Any s (ensure_consistent_affinity e b)
  unfolding ensure_consistent_affinity Ensures
  ensure_consistent_affinity_lem b s g =
      Ensures-if E K Any s (str_eq (Queries.get_host_affinity b) "") _ _ (λ c. tt)
        (λ c.
          Ensures-get E K lawful Any node (Queries.get_host_affinity b) (node_found e _ b.cidr) s
            (λ s1 error current m.
              Ensures-if E K Any s1 (is_does_not_exist error) _ _ (λ c. tt) (λ c. tt))
            (λ s1 labels n m at.
              pool (Queries.get_host_affinity b) s1
                (record { key = Queries.get_host_affinity b; value = labels; revision = some n }) m
                (get_pool_for_ip e.get_enabled_pools b.cidr.ip none)))
    where
      pool :
          (host : String) (s1 : E.State) (v3n : KvPair node)
          → Moves E K s s1
          → (p : Attempt (Option IpPool)) → Ensures E K Any s1 (pool_found e host b.cidr v3n p)
      pool host s1 v3n m (failed error) = tt
      pool host s1 v3n m (done none) = tt
      pool host s1 v3n m (done (some p)) =
          if_selected_lem host b.cidr s1 (selects_node p v3n.value) m.store
