-- ===== src/Ipam/Client/Release/Freed.antt =====
-- What releaseByHandle of lib/ipam/ipam.go frees, among other clients.
use mathlib.Core.Option
use mathlib.Core.Path.{subst}
use zyzxlibcalico_go.Prelude.{
  ℕ, zero, suc, ◌≡◌, refl, sym, ◌∙◌, ap, String, Bool, true, false, Option, none, some, ◌==◌, ◌&&◌,
  arith, ==_iff, if◌then◌else◌,
}
use zyzxlibcalico_go.Prelude.Options.{absent}
use zyzxlibcalico_go.Ipam.Address.{IpNet}
use zyzxlibcalico_go.Ipam.Block.{AllocationBlock, AllocationAttribute, Outcome}
use zyzxlibcalico_go.Ipam.Block.Invariant.{IsBlock, handle_at, attr_at}
use zyzxlibcalico_go.Ipam.Block.Queries
use zyzxlibcalico_go.Ipam.Block.Emptiness.{OnlyReserved, not_reserved, empty_lem}
use zyzxlibcalico_go.Ipam.Block.Release.{has_handle, release_by_handle}
use zyzxlibcalico_go.Ipam.Block.Release.ByHandle.{ReleasedHandle, without, release_by_handle_lem}
use zyzxlibcalico_go.Ipam.Datastore.{allocation_block, KvPair, Etcd, IsLawful}
use zyzxlibcalico_go.Ipam.Datastore.Moves.{
  Kept, KeepsUsed, value_or, IsStore, Moves, Moves-refl, Moves-trans, Known, Known-read,
}
use zyzxlibcalico_go.Ipam.Datastore.Programs.{Program, asking, update_request, delete_request}
use zyzxlibcalico_go.Ipam.Datastore.Programs.Logic.{Ensures, Ensures->>=, Ensures-if}
use zyzxlibcalico_go.Ipam.Datastore.Programs.Rules.{Ensures-update}
use zyzxlibcalico_go.Ipam.Datastore.Programs.Missing.{Ensures-get_missing, Ensures-delete_missing}
use zyzxlibcalico_go.Ipam.ReaderWriter.{Attempt, done, failed, is_update_conflict}
use zyzxlibcalico_go.Ipam.Client.{datastore_retries}
use zyzxlibcalico_go.Ipam.Client.Handles.{decrement_handle}
use zyzxlibcalico_go.Ipam.Client.Handles.Counting.{decrement_handle_lem}
use zyzxlibcalico_go.Ipam.Client.AssignIp.{Surroundings}
use zyzxlibcalico_go.Ipam.Client.Release.Consistent.{ensure_consistent_affinity_lem}
use zyzxlibcalico_go.Ipam.Client.Release.{
  ensure_consistent_affinity, block_released, block_deleted, block_updated, is_unset,
  write_released, released_in, block_to_release, release_tries, release_handle_in_block,
}

and_left : (a b : Bool) → (a && b) ≡ true → a ≡ true
and_left a b h = ground (arith, h)

abbrev primary : Option AllocationAttribute → Option (Option String)
primary x = Option.map (λ (a : AllocationAttribute). a.attr_primary) x

without-freed :
    (id : String) (x : Option AllocationAttribute) (h : Option String)
    → primary (without id x) ≡ some h
    → has_handle id h ≡ false
without-freed id none h e = absent e
without-freed id (some attr) h e = go (has_handle id attr.attr_primary) refl e
  where
    go :
        (b : Bool)
        → has_handle id attr.attr_primary ≡ b
        → primary (if b then none else some attr) ≡ some h
        → has_handle id h ≡ false
    go true held e = absent e
    go false other e = cc

without-kept :
    (id : String) (x : Option AllocationAttribute) (h : Option String)
    → primary x ≡ some h
    → has_handle id h ≡ false
    → primary (without id x) ≡ some h
without-kept id none h e other = absent e
without-kept id (some attr) h e other =
    let same : has_handle id attr.attr_primary ≡ false = cc in rw same e

module _ (E : Etcd) (K : Kept) (id : String) (cidr : IpNet) where
  -- No address of the block has the handle.
  abbrev pub Without : AllocationBlock → Type 0
  Without b = (o : ℕ) (h : Option String) → handle_at b o ≡ some h → has_handle id h ≡ false

  -- At one moment the block, if there was one, had no address with the handle.
  pub record FreedIn (s0 s : E.State) : Type 0 where
    pub moment : E.State
    pub until : Moves E K s0 moment
    pub since : Moves E K moment s
    pub none_left :
        (b : AllocationBlock) (n : ℕ)
        → E.get (allocation_block, cidr) moment ≡ some (b, n)
        → Without b

  abbrev pub OnFreed : E.State → E.State → Attempt (Unit {0}) → Type 0
  OnFreed s0 s (done u) = FreedIn s0 s
  OnFreed s0 s (failed error) = Unit

module _ (E : Etcd) (K : Kept) (lawful : IsLawful E) (e : Surroundings) (id : String) (cidr : IpNet)
    (frees : (o : ℕ) (h : Option String) → K.Keeps cidr o h → has_handle id h ≡ false)
    (s0 : E.State) where
  abbrev Post : E.State → Attempt (Unit {0}) → Type 0
  Post s r = OnFreed E K id cidr s0 s r

  block_released_lem :
      (num : ℕ) (b : AllocationBlock) (s : E.State)
      → FreedIn E K id cidr s0 s
      → Ensures E K Post s (block_released e id cidr num b)
  unfolding Ensures
  block_released_lem num b s f =
      Ensures->>= E K (λ s r. Unit {0}) Post s (decrement_handle e.name id cidr num none) _
        f.since.store (decrement_handle_lem E K lawful e.name id cidr num s f.since.store)
        (λ s1 r m u.
          Ensures->>= E K (λ s r. Unit {0}) Post s1 (ensure_consistent_affinity e b) _ m.store
            (ensure_consistent_affinity_lem E K lawful e b s1 m.store)
            (λ s2 r m2 u. record {
              moment = f.moment;
              until = f.until;
              since = Moves-trans E K f.since (Moves-trans E K m m2);
              none_left = f.none_left;
            }))

  entry-Without :
      (s : E.State) (b : AllocationBlock) (n : ℕ)
      → E.get (allocation_block, cidr) s ≡ some (b, n)
      → Without E K id cidr b
      → (b' : AllocationBlock) (n' : ℕ) → E.get (allocation_block, cidr) s ≡ some (b', n')
      → Without E K id cidr b'
  entry-Without s b n at w b' n' at' =
      subst (Without E K id cidr) (ap (value_or b) (sym at ∙ at')) w

  -- The block that releaseByHandle of a block makes.
  record Releases (b b' : AllocationBlock) : Type 0 where
    valid : IsBlock b'
    same : b'.cidr ≡ b.cidr
    freed : Without E K id cidr b'
    kept : KeepsUsed K cidr b (handle_at b')

  ReleasedHandle-Releases :
      (b : AllocationBlock) (out : Outcome (ℕ × AllocationBlock)) (t : ReleasedHandle id b out)
      → Releases b t.block
  ReleasedHandle-Releases b out t = record {
    valid = t.valid;
    same = t.range;
    freed = λ o h at. without-freed id (attr_at b o) h (ap primary (sym (t.attrs o)) ∙ at);
    kept = λ o h keeps at.
        ap primary (t.attrs o) ∙ without-kept id (attr_at b o) h at (frees o h keeps);
  }

  module _ (again : Program (Attempt (Unit {0})))
      (retried : (s : E.State) → Moves E K s0 s → Ensures E K Post s again) (b0 : AllocationBlock)
      (rev : ℕ) (s : E.State) (m0 : Moves E K s0 s)
      (at0 : E.get (allocation_block, cidr) s ≡ some (b0, rev)) where
    abbrev obj : KvPair allocation_block
    obj = record { key = cidr; value = b0; revision = some rev }

    known : Known E K s obj
    known = Known-read E K s allocation_block cidr b0 rev m0.store at0

    missing-FreedIn :
        (s1 : E.State)
        → Moves E K s s1
        → E.get (allocation_block, cidr) s1 ≡ none
        → FreedIn E K id cidr s0 s1
    missing-FreedIn s1 m gone = record {
      moment = s1;
      until = Moves-trans E K m0 m;
      since = Moves-refl E K s1 m.store;
      none_left = λ b n at. absent (sym gone ∙ at);
    }

    delete_lem :
        (num : ℕ) (b : AllocationBlock)
        → Releases b0 b
        → OnlyReserved (handle_at b)
        → Ensures E K Post s (
            asking allocation_block
              (delete_request (record obj { value = b }))
              (block_deleted e id cidr again num b))
    unfolding Ensures
    delete_lem num b t is_empty =
        Ensures-delete_missing E K lawful Post allocation_block cidr
          (block_deleted e id cidr again num b) b s known.rev known.positive
          (λ s1 old m at.
            subst (λ old. KeepsUsed K cidr old (λ o. none)) (known.current s1 old m at)
              (λ o h keeps used.
                absurd
                  (not_reserved h (K.plain cidr o h keeps) (is_empty o h (t.kept o h keeps used)))))
          (λ s1 m. tt) (λ s1 m gone. block_released_lem num b s1 (missing-FreedIn s1 m gone))
          (λ s1 current m. retried s1 (Moves-trans E K m0 m))
          (λ s1 old kvp m at moved gone.
            block_released_lem num b (E.delete (allocation_block, cidr) s1) (
              missing-FreedIn (E.delete (allocation_block, cidr) s1) (Moves-trans E K m moved)
                gone))
          (some rev) known.revised

    update_lem :
        (num : ℕ) (b : AllocationBlock)
        → Releases b0 b
        → Ensures E K Post s (
            asking allocation_block
              (update_request (record obj { value = b }))
              (block_updated e id cidr again num b))
    unfolding Ensures
    update_lem num b t =
        Ensures-update E K lawful Post allocation_block cidr (block_updated e id cidr again num b) b
          s (some rev) known.rev known.revised known.positive (t.valid, t.same ∙ known.good.1)
          (λ s1 old m at.
            subst (λ old. KeepsUsed K cidr old (handle_at b)) (known.current s1 old m at) t.kept)
          (λ s1 error current m.
            Ensures-if E K Post s1 (is_update_conflict error) _ _
              (λ c. retried s1 (Moves-trans E K m0 m)) (λ c. tt))
          (λ s1 old at m s2 m2 at2. block_released_lem num b s2 (record {
            moment = s2;
            until = Moves-trans E K m0 (Moves-trans E K m m2);
            since = Moves-refl E K s2 m2.store;
            none_left = entry-Without s2 b (E.revision s2) at2 t.freed;
          }))

    write_released_lem :
        (num : ℕ) (b : AllocationBlock)
        → Releases b0 b
        → Ensures E K Post s (write_released e id cidr again obj num b (Queries.empty b))
    write_released_lem num b t =
        let decided = empty_lem b t.valid in
        rw decided.returns (
          Ensures-if E K Post s (decided.answer && is_unset b.affinity) _ _
            (λ c. delete_lem num b t (decided.right.0 (and_left decided.answer _ c)))
            (λ c. update_lem num b t))

    released_in_lem : Ensures E K Post s (released_in e id cidr again obj (release_by_handle id b0))
    unfolding Ensures
    released_in_lem =
        let t = release_by_handle_lem id b0 known.good.0 in
        let released = ReleasedHandle-Releases b0 _ t in
        rw t.returns (
          Ensures-if E K Post s (t.number == 0) _ _
            (λ c. record {
              moment = s;
              until = m0;
              since = Moves-refl E K s m0.store;
              none_left = entry-Without s b0 rev at0 (λ o h at.
                  released.freed o h (ap primary (t.unchanged ((==_iff t.number 0).0 c) o) ∙ at));
            })
            (λ c. write_released_lem t.number t.block released))

  release_tries_lem :
      (n : ℕ) (s : E.State) → Moves E K s0 s → Ensures E K Post s (release_tries e id cidr n)
  unfolding release_tries Ensures
  release_tries_lem zero s m0 = tt
  release_tries_lem (suc n) s m0 =
      Ensures-get_missing E K lawful Post allocation_block cidr
        (block_to_release e id cidr (release_tries e id cidr n)) s (λ s1 m. tt)
        (λ s1 m gone. record {
          moment = s1;
          until = Moves-trans E K m0 m;
          since = Moves-refl E K s1 m.store;
          none_left = λ b n at. absent (sym gone ∙ at);
        })
        (λ s1 b rev m at.
          released_in_lem (release_tries e id cidr n) (release_tries_lem n) b rev s1
            (Moves-trans E K m0 m) at)

-- releaseByHandle of a block ends with an error, or the block had, at one moment, no address with the
-- handle, or was not there; if no address of the block with the handle is kept.
pub release_handle_in_block_lem :
    (E : Etcd) (K : Kept) (lawful : IsLawful E) (e : Surroundings) (id : String) (cidr : IpNet)
    (s : E.State)
    → ((o : ℕ) (h : Option String) → K.Keeps cidr o h → has_handle id h ≡ false)
    → IsStore E s
    → Ensures E K (OnFreed E K id cidr s) s (release_handle_in_block e id cidr)
unfolding release_handle_in_block
release_handle_in_block_lem E K lawful e id cidr s frees g =
    release_tries_lem E K lawful e id cidr frees s datastore_retries s (Moves-refl E K s g)
