-- ===== src/Ipam/ReaderWriter/Releasing.antt =====
-- releaseBlockAffinity of lib/ipam/ipam_block_reader_writer.go among other clients.
use mathlib.Core.Path.{subst}
use text.Mathlib.Text.{◌==◌ as str_eq}
use zyzxlibcalico_go.Prelude.{
  ℕ, ◌≡◌, refl, sym, ◌∙◌, ap, ◌⊎◌, inl, inr, String, Bool, true, false, Option, none, some,
}
use zyzxlibcalico_go.Ipam.Address.{IpNet}
use zyzxlibcalico_go.Ipam.Block.{AllocationBlock}
use zyzxlibcalico_go.Ipam.Block.Invariant.{handle_at}
use zyzxlibcalico_go.Ipam.Block.Queries
use zyzxlibcalico_go.Ipam.Block.Emptiness.{OnlyReserved, not_reserved, empty_lem}
use zyzxlibcalico_go.Ipam.Datastore.{
  block_affinity, allocation_block, BlockAffinityState, pending_deletion, KvPair, Reply, Etcd,
  IsLawful,
}
use zyzxlibcalico_go.Ipam.Datastore.Moves.{
  Kept, IsStore, Moves, Moves-refl, Moves-trans, Known, Known-read, Known-Moves, KeepsUsed,
}
use zyzxlibcalico_go.Ipam.Datastore.Programs.{returning}
use zyzxlibcalico_go.Ipam.Datastore.Programs.Logic.{Ensures, Ensures-if}
use zyzxlibcalico_go.Ipam.Datastore.Programs.Rules.{
  Ensures-get, Ensures-update, Ensures-update_here, Ensures-delete,
}
use zyzxlibcalico_go.Ipam.Datastore.Programs.Missing.{Ensures-delete_missing}
use zyzxlibcalico_go.Ipam.ReaderWriter.{
  IpamError, Attempt, done, failed, deleted_affinity, delete_affinity, deleted_block, updated_block,
  release_block, marked_affinity, mark_affinity, is_mismatch, affine_block, queried_affinity,
  release_block_affinity,
}
use zyzxlibcalico_go.Ipam.ReaderWriter.Claiming.{OnDone, affine_IsBlock}

-- Why releaseBlockAffinity ended as it did.
abbrev pub Explained : String → Bool → Attempt (Unit {0}) → Type 0
Explained host require_empty (done u) = str_eq host "" ≡ false
Explained host require_empty (failed e) = elim e [
  | IpamError.store_error e ↦ str_eq host "" ≡ false
  | IpamError.block_claim_conflict b ↦ is_mismatch host b.affinity ≡ true
  | IpamError.block_not_empty b ↦ (require_empty ≡ true) × (OnlyReserved (handle_at b) → ⊥)
  | IpamError.no_hostname ↦ str_eq host "" ≡ true
  | _ ↦ ⊥
]

module _ (E : Etcd) (K : Kept) (host : String) (cidr : IpNet) (require_empty : Bool) where
  -- What became of the block, which had the value `b`: it was empty and was deleted, or it was not, and
  -- need not be, and lost its affinity.
  abbrev pub LetGo : AllocationBlock → E.State → E.State → Type 0
  LetGo b before after =
      (OnlyReserved (handle_at b) × (after ≡ E.delete (allocation_block, cidr) before))
      ⊎ ((require_empty ≡ false)
          × (OnlyReserved (handle_at b) → ⊥)
          × (after ≡ E.put (allocation_block, cidr) (record b { affinity = none }) before))

  -- The block was missing, or no other host had it and it was let go.
  abbrev pub BlockReleased : E.State → E.State → Type 0
  BlockReleased before after =
      ((E.get (allocation_block, cidr) before ≡ none) × (after ≡ before))
      ⊎ ((b : AllocationBlock) × (n : ℕ) × (E.get (allocation_block, cidr) before ≡ some (b, n))
          × (is_mismatch host b.affinity ≡ false)
          × LetGo b before after)

  -- At one moment the block was released.
  pub record IsReleased (s0 s : E.State) : Type 0 where
    pub before : E.State
    pub after : E.State
    pub until : Moves E K s0 before
    pub since : Moves E K after s
    pub released : BlockReleased before after

  -- And in the end the affinity is gone.
  abbrev pub AffinityReleased : E.State → E.State → Attempt (Unit {0}) → Type 0
  AffinityReleased s0 s r =
      Explained host require_empty r
      × OnDone E K (λ s u. IsReleased s0 s × (E.get (block_affinity, (host, cidr)) s ≡ none)) s r

  IsReleased-Moves : (s0 s s' : E.State) → Moves E K s s' → IsReleased s0 s → IsReleased s0 s'
  IsReleased-Moves s0 s s' m r = record {
    before = r.before;
    after = r.after;
    until = r.until;
    since = Moves-trans E K r.since m;
    released = r.released;
  }

module _ (E : Etcd) (K : Kept) (lawful : IsLawful E) (host : String) (cidr : IpNet)
    (require_empty : Bool) (named : str_eq host "" ≡ false) (s0 : E.State) where
  abbrev Post : E.State → Attempt (Unit {0}) → Type 0
  Post s r = AffinityReleased E K host cidr require_empty s0 s r

  abbrev Gone : E.State → Type 0
  Gone s = IsReleased E K host cidr require_empty s0 s

  abbrev aff : BlockAffinityState → Option ℕ → KvPair block_affinity
  aff v n = record { key = (host, cidr); value = v; revision = n }

  delete_affinity_lem :
      (v : BlockAffinityState) (n : Option ℕ) (s : E.State)
      → Known E K s (aff v n)
      → Gone s
      → Ensures E K Post s (delete_affinity (aff v n))
  unfolding Ensures
  delete_affinity_lem v n s k gone =
      Ensures-delete_missing E K lawful Post block_affinity (host, cidr) deleted_affinity v s k.rev
        k.positive (λ s1 old m at. tt) (λ s1 m. (named, tt))
        (λ s1 m missing.
          (named, (IsReleased-Moves E K host cidr require_empty s0 s s1 m gone, missing)))
        (λ s1 current m. (named, tt))
        (λ s1 old deleted m at moved missing. (
          named,
          (
            IsReleased-Moves E K host cidr require_empty s0 s _ (Moves-trans E K m moved) gone,
            missing,
          ),
        ))
        n k.revised

  module _ (b : AllocationBlock) (rev : Option ℕ) (mine : is_mismatch host b.affinity ≡ false) where
    abbrev obj : KvPair allocation_block
    obj = record { key = cidr; value = b; revision = rev }

    let_go :
        (s s1 : E.State) (old : AllocationBlock) (n : ℕ) (after : E.State)
        → Moves E K s0 s
        → Moves E K s s1
        → (E.get (allocation_block, cidr) s1 ≡ some (old, n))
        → b ≡ old
        → Moves E K s1 after
        → LetGo E K host cidr require_empty b s1 after
        → Gone after
    let_go s s1 old n after m0 m at same moved change = record {
      before = s1;
      after = after;
      until = Moves-trans E K m0 m;
      since = Moves-refl E K after moved.store;
      released = inr (b, n, at ∙ ap (λ v. some (v, n)) (sym same), mine, change);
    }

    release_block_lem :
        (v : BlockAffinityState) (n : Option ℕ) (s : E.State)
        → Moves E K s0 s
        → Known E K s (aff v n)
        → Known E K s obj
        → (require_empty ≡ false) ⊎ OnlyReserved (handle_at b)
        → Ensures E K Post s (release_block (aff v n) obj (Queries.empty b))
    unfolding Ensures
    release_block_lem v n s m0 ka ko ready =
        let decided = empty_lem b ko.good.0 in
        rw decided.returns (
          Ensures-if E K Post s decided.answer _ _
            (λ c.
              Ensures-delete_missing E K lawful Post allocation_block cidr (deleted_block (aff v n))
                b s ko.rev ko.positive
                (λ s1 old m at.
                  subst (λ old. KeepsUsed K cidr old (λ o. none)) (ko.current s1 old m at)
                    (λ o h r u.
                      absurd (not_reserved h (K.plain cidr o h r) (decided.right.0 c o h u))))
                (λ s1 m. (named, tt))
                (λ s1 m missing. delete_affinity_lem v n s1 (Known-Moves E K m ka) (record {
                  before = s1;
                  after = s1;
                  until = Moves-trans E K m0 m;
                  since = Moves-refl E K s1 m.store;
                  released = inl (missing, refl);
                }))
                (λ s1 current m. (named, tt))
                (λ s1 old deleted m at moved missing.
                  delete_affinity_lem v n (E.delete (allocation_block, cidr) s1)
                    (Known-Moves E K (Moves-trans E K m moved) ka)
                    (let_go s s1 old ko.rev _ m0 m at (ko.current s1 old m at) moved
                      (inl (decided.right.0 c, refl))))
                rev ko.revised)
            (λ c.
              Ensures-update_here E K lawful Post allocation_block cidr (updated_block (aff v n))
                (record b { affinity = none }) s rev ko.rev ko.revised ko.positive
                (affine_IsBlock b none ko.good.0, ko.good.1)
                (λ s1 old m at.
                  subst (λ old. KeepsUsed K cidr old (handle_at b)) (ko.current s1 old m at)
                    (λ o h r u. u))
                (λ s1 e current m. (named, tt))
                (λ s1 old at m moved at2.
                  delete_affinity_lem v n _ (Known-Moves E K (Moves-trans E K m moved) ka) (
                    let_go s s1 old ko.rev _ m0 m at (ko.current s1 old m at) moved (
                      inr (
                        elim ready [ inl need ↦ need | inr all ↦ cc (decided.right.1 all, c) ],
                        λ all. cc (decided.right.1 all, c),
                        refl,
                      ))))))

    mark_affinity_lem :
        (v : BlockAffinityState) (n : Option ℕ) (s : E.State)
        → Moves E K s0 s
        → Known E K s (aff v n)
        → Known E K s obj
        → (require_empty ≡ false) ⊎ OnlyReserved (handle_at b)
        → Ensures E K Post s (mark_affinity (aff v n) obj)
    unfolding Ensures
    mark_affinity_lem v n s m0 ka ko ready =
        Ensures-update E K lawful Post block_affinity (host, cidr) (marked_affinity obj)
          pending_deletion s n ka.rev ka.revised ka.positive tt (λ s1 old m at. tt)
          (λ s1 e current m. (named, tt))
          (λ s1 old at m s2 m2 at2.
            release_block_lem pending_deletion (some (E.revision s2)) s2
              (Moves-trans E K m0 (Moves-trans E K m m2))
              (Known-read E K s2 block_affinity (host, cidr) pending_deletion (E.revision s2)
                m2.store at2)
              (Known-Moves E K (Moves-trans E K m m2) ko) ready)

  affine_block_lem :
      (b : AllocationBlock) (rev : Option ℕ) (v : BlockAffinityState) (n : Option ℕ) (s : E.State)
      → Moves E K s0 s
      → Known E K s (aff v n)
      → Known E K s {r = allocation_block} (record { key = cidr; value = b; revision = rev })
      → Ensures E K Post s (
          affine_block host require_empty
            (aff v n)
            (Reply.ok (record { key = cidr; value = b; revision = rev })))
  unfolding Ensures
  affine_block_lem b rev v n s m0 ka ko =
      Ensures-if E K Post s (is_mismatch host b.affinity) _ _
        (λ c.
          Ensures-delete E K lawful Post block_affinity (host, cidr)
            (λ reply. returning (failed (IpamError.block_claim_conflict b))) v s n ka.rev ka.revised
            ka.positive (λ s1 old m at. tt) (λ s1 e current m. (c, tt))
            (λ s1 old m at s2 m2 at2. (c, tt)))
        (λ mine.
          Ensures-if E K Post s require_empty _ _
            (λ must.
              let decided = empty_lem b ko.good.0 in
              rw decided.returns (
                Ensures-if E K Post s decided.answer _ _
                  (λ is. mark_affinity_lem b rev mine v n s m0 ka ko (inr (decided.right.0 is)))
                  (λ is. ((must, λ all. cc (decided.right.1 all, is)), tt))))
            (λ need. mark_affinity_lem b rev mine v n s m0 ka ko (inl need)))

-- releaseBlockAffinity ends with an error that its cause explains, or is done: then the affinity is
-- gone, and at one moment the block was missing, or no other host had it, and it was deleted if it was
-- empty, and else lost its affinity, which happens only if it need not be empty.
pub release_block_affinity_lem :
    (E : Etcd) (K : Kept) (lawful : IsLawful E) (host : String) (cidr : IpNet)
    (require_empty : Bool) (s : E.State)
    → IsStore E s
    → Ensures E K
        (AffinityReleased E K host cidr require_empty s)
        s
        (release_block_affinity host cidr require_empty)
unfolding release_block_affinity Ensures
release_block_affinity_lem E K lawful host cidr require_empty s g =
    Ensures-if E K P s (str_eq host "") _ _ (λ c. (c, tt))
      (λ named.
        Ensures-get E K lawful P block_affinity (host, cidr)
          (queried_affinity host cidr require_empty) s (λ s1 e current m. (named, tt))
          (λ s1 v n m at.
            Ensures-get E K lawful P allocation_block cidr (affine_block host require_empty _) s1
              (λ s2 e current m2. (named, tt))
              (λ s2 b n2 m2 at2.
                affine_block_lem E K lawful host cidr require_empty named s b (some n2) v (some n)
                  s2 (Moves-trans E K m m2)
                  (Known-Moves E K m2
                    (Known-read E K s1 block_affinity (host, cidr) v n m.store at))
                  (Known-read E K s2 allocation_block cidr b n2 m2.store at2))))
  where
    P : E.State → Attempt (Unit {0}) → Type 0
    P s' r = AffinityReleased E K host cidr require_empty s s' r
