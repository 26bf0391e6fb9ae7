-- ===== src/Ipam/Client/Release/Whole.antt =====
-- ReleaseByHandle of lib/ipam/ipam.go among other clients.

use zyzxlibcalico_go.Prelude.{ℕ, ◌≡◌, String, false, Option, some, [], ◌∷◌}
use zyzxlibcalico_go.Prelude.Dict.{Dict}
use zyzxlibcalico_go.Ipam.Address.{IpNet}
use zyzxlibcalico_go.Ipam.Block.Release.{sanitize_handle, has_handle}
use zyzxlibcalico_go.Ipam.Handle.{IpamHandle}
use zyzxlibcalico_go.Ipam.Datastore.{ipam_handle, Etcd, IsLawful}
use zyzxlibcalico_go.Ipam.Datastore.Moves.{Kept, IsStore, Moves, Moves-refl, Moves-trans}
use zyzxlibcalico_go.Ipam.Datastore.Programs.Logic.{
  Ensures, Ensures->>=, Ensures-weaken, Ensures-moved,
}
use zyzxlibcalico_go.Ipam.Datastore.Programs.Rules.{Ensures-get}
use zyzxlibcalico_go.Ipam.ReaderWriter.{Attempt, done, failed}
use zyzxlibcalico_go.Ipam.Client.AssignIp.{Surroundings}
use zyzxlibcalico_go.Ipam.Client.Release.Freed.{FreedIn, OnFreed, release_handle_in_block_lem}
use zyzxlibcalico_go.Ipam.Client.Release.{
  release_handle_in_block, unless_failed, release_handle_in_blocks, handle_to_release,
  release_handle,
}

module _ (E : Etcd) (K : Kept) (e : Surroundings) (cidr_of : String → IpNet) (id : String) where
  abbrev pub AllFreed : E.State → E.State → Dict ℕ → Type 0
  AllFreed s0 s [] = Unit
  AllFreed s0 s ((block, n) ∷ blocks) = FreedIn E K id (cidr_of block) s0 s × AllFreed s0 s blocks

  -- The handle was in the store, and each of the blocks that it names had, at one moment, no address
  -- with it.
  pub record HandleFreed (s0 s : E.State) : Type 0 where
    pub handle : IpamHandle
    pub revision : ℕ
    pub before : E.State
    pub until : Moves E K s0 before
    pub stored : E.get (ipam_handle, id) before ≡ some (handle, revision)
    pub blocks : AllFreed s0 s handle.block

  abbrev pub OnHandleFreed : E.State → E.State → Attempt (Unit {0}) → Type 0
  OnHandleFreed s0 s (done u) = HandleFreed s0 s
  OnHandleFreed s0 s (failed error) = Unit

module _ (E : Etcd) (K : Kept) (lawful : IsLawful E) (e : Surroundings) (cidr_of : String → IpNet)
    (id : String)
    (frees : (c : IpNet) (o : ℕ) (h : Option String) → K.Keeps c o h → has_handle id h ≡ false)
    (s0 : E.State) where
  abbrev Blocks : Dict ℕ → E.State → Attempt (Unit {0}) → Type 0
  Blocks blocks s (done u) = AllFreed E K e cidr_of id s0 s blocks
  Blocks blocks s (failed error) = Unit

  release_handle_in_blocks_lem :
      (blocks : Dict ℕ) (s : E.State)
      → Moves E K s0 s
      → Ensures E K (Blocks blocks) s (release_handle_in_blocks e cidr_of id blocks)
  unfolding release_handle_in_blocks Ensures
  release_handle_in_blocks_lem [] s m0 = tt
  release_handle_in_blocks_lem ((block, n) ∷ blocks) s m0 =
      Ensures->>= E K (OnFreed E K id (cidr_of block) s) (Blocks ((block, n) ∷ blocks)) s
        (release_handle_in_block e id (cidr_of block)) _ m0.store
        (release_handle_in_block_lem E K lawful e id (cidr_of block) s (frees (cidr_of block))
          m0.store)
        (λ s1 r m f. go s1 r m f (release_handle_in_blocks_lem blocks s1 (Moves-trans E K m0 m)))
    where
      go :
          (s1 : E.State) (r : Attempt (Unit {0}))
          → Moves E K s s1
          → OnFreed E K id (cidr_of block) s s1 r
          → Ensures E K (Blocks blocks) s1 (release_handle_in_blocks e cidr_of id blocks)
          → Ensures E K
              (Blocks ((block, n) ∷ blocks))
              s1
              (unless_failed e cidr_of (release_handle_in_blocks e cidr_of id blocks) r)
      go s1 (failed error) m f rest = tt
      go s1 (done u) m f rest =
          Ensures-moved E K (Blocks blocks) (Blocks ((block, n) ∷ blocks)) s1 s1
            (release_handle_in_blocks e cidr_of id blocks) (λ s2 r2 m2 fs. both s2 r2 m2 fs)
            (Moves-refl E K s1 m.store) rest
        where
          both :
              (s2 : E.State) (r2 : Attempt (Unit {0}))
              → Moves E K s1 s2
              → Blocks blocks s2 r2
              → Blocks ((block, n) ∷ blocks) s2 r2
          both s2 (failed error) m2 fs = tt
          both s2 (done u) m2 fs = (
            record {
              moment = f.moment;
              until = Moves-trans E K m0 f.until;
              since = Moves-trans E K f.since m2;
              none_left = f.none_left;
            },
            fs,
          )

-- ReleaseByHandle ends with an error, or each of the blocks that the handle named, as it stood in the
-- store, had at one moment no address with the handle; if no address with the handle is kept.
pub release_handle_lem :
    (E : Etcd) (K : Kept) (lawful : IsLawful E) (e : Surroundings) (cidr_of : String → IpNet)
    (handle_id : String) (s : E.State)
    → ((c : IpNet) (o : ℕ) (h : Option String)
        → K.Keeps c o h
        → has_handle (sanitize_handle handle_id) h ≡ false)
    → IsStore E s
    → Ensures E K
        (OnHandleFreed E K e cidr_of (sanitize_handle handle_id) s)
        s
        (release_handle e cidr_of handle_id)
unfolding release_handle Ensures
release_handle_lem E K lawful e cidr_of handle_id s frees g =
    let id = sanitize_handle handle_id in
    let Post = OnHandleFreed E K e cidr_of id s in
    Ensures-get E K lawful Post ipam_handle id (handle_to_release e cidr_of id) s
      (λ s1 error current m. tt)
      (λ s1 h n m at.
        Ensures-weaken E K (Blocks E K lawful e cidr_of id frees s h.block) Post s1
          (release_handle_in_blocks e cidr_of id h.block) (λ s2 r fs. named h n s1 m at s2 r fs)
          (release_handle_in_blocks_lem E K lawful e cidr_of id frees s h.block s1 m))
  where
    named :
        (h : IpamHandle) (n : ℕ) (s1 : E.State)
        → Moves E K s s1
        → E.get (ipam_handle, sanitize_handle handle_id) s1 ≡ some (h, n)
        → (s2 : E.State) (r : Attempt (Unit {0}))
        → Blocks E K lawful e cidr_of (sanitize_handle handle_id) frees s h.block s2 r
        → OnHandleFreed E K e cidr_of (sanitize_handle handle_id) s s2 r
    named h n s1 m at s2 (failed error) fs = tt
    named h n s1 m at s2 (done u) fs = record {
      handle = h;
      revision = n;
      before = s1;
      until = m;
      stored = at;
      blocks = fs;
    }
