-- ===== src/Ipam/ReaderWriter/Untouched.antt =====
-- claimAffineBlock of lib/ipam/ipam_block_reader_writer.go: what its requests do to blocks that are there.
use mathlib.Core.Path.{subst}
use zyzxlibcalico_go.Prelude.{
  ℕ, ◌≡◌, refl, sym, ◌∙◌, ap, inl, inr, Bool, true, false, if◌then◌else◌, Option, none, some, ◌==◌,
}
use zyzxlibcalico_go.Prelude.Options.{absent}
use zyzxlibcalico_go.Ipam.Address.{IpNet}
use zyzxlibcalico_go.Ipam.Block.{AllocationBlock, HostReservedAttr, Outcome}
use zyzxlibcalico_go.Ipam.Block.Creation.{new_block}
use zyzxlibcalico_go.Ipam.Datastore.{
  Kind, KeyOf, ValueOf, block_affinity, allocation_block, Etcd, IsLawful, KvPair, Reply, ListReply,
  Fate, answered, refused, unanswered, deliver, create, create_txn, update, update_txn, apply,
  delete, delete_txn, delete_kvp, delete_allowed, mod_revision, get,
}
use zyzxlibcalico_go.Ipam.Datastore.Programs.{
  Request, create_request, update_request, apply_request, delete_request, get_request, Program,
  returning, panicking, asking, listing, serve, ◌>>=◌,
}
use zyzxlibcalico_go.Ipam.ReaderWriter.{
  store_error, done, failed, is_already_exists, is_confirmed, has_affinity, confirm_affinity,
  if_confirmed, existing_block, created_block, create_block, claim_affine_block,
}

module _ (E : Etcd) where
  -- The blocks of the store are in the other one, as they were.
  abbrev pub SameBlocks : E.State → E.State → Type 0
  SameBlocks s s' =
      (c : IpNet) (b : AllocationBlock) (n : ℕ)
      → E.get (allocation_block, c) s ≡ some (b, n)
      → E.get (allocation_block, c) s' ≡ some (b, n)

  abbrev pub LeavesBlocks : {r : Kind} → Request r → Type 0
  LeavesBlocks {r} q = (s : E.State) (fate : Fate) → SameBlocks s (serve E r fate q s).1

  -- No request of the program, whatever the replies to it were, writes over or deletes a block that it
  -- meets in the store.
  unfoldable pub OverwritesNone : {A : Type 0} → Program A → Type 0
  OverwritesNone (returning a) = Unit
  OverwritesNone panicking = Unit
  OverwritesNone (asking r q k) = LeavesBlocks q × ((reply : Reply r) → OverwritesNone (k reply))
  OverwritesNone (listing r keep k) = (reply : ListReply r) → OverwritesNone (k reply)

  OverwritesNone->>= :
      {A B : Type 0} (p : Program A) (f : A → Program B)
      → OverwritesNone p
      → ((a : A) → OverwritesNone (f a))
      → OverwritesNone (p >>= f)
  unfolding OverwritesNone ◌>>=◌
  OverwritesNone->>= (returning a) f h next = next a
  OverwritesNone->>= panicking f h next = tt
  OverwritesNone->>= (asking r q k) f h next =
      (h.0, λ reply. OverwritesNone->>= (k reply) f (h.1 reply) next)
  OverwritesNone->>= (listing r keep k) f h next =
      λ reply. OverwritesNone->>= (k reply) f (h reply) next

  deliver-SameBlocks :
      {r : Kind} (s : E.State) (out : Reply r × E.State)
      → SameBlocks s out.1
      → (fate : Fate) → SameBlocks s (deliver E fate out s).1
  deliver-SameBlocks s out same answered = same
  deliver-SameBlocks s out same refused = λ c b n at. at
  deliver-SameBlocks s out same unanswered = same

  OverwritesNone-if :
      {A : Type 0} (c : Bool) (p q : Program A)
      → OverwritesNone p
      → OverwritesNone q
      → OverwritesNone (if c then p else q)
  OverwritesNone-if true p q hp hq = hp
  OverwritesNone-if false p q hp hq = hq

  if-SameBlocks :
      {r : Kind} (s : E.State) (c : Bool) (p q : Reply r × E.State)
      → SameBlocks s p.1
      → SameBlocks s q.1
      → SameBlocks s (if c then p else q).1
  if-SameBlocks s true p q hp hq = hp
  if-SameBlocks s false p q hp hq = hq

  module _ (lawful : IsLawful E) where
    put-SameBlocks :
        (k : KeyOf block_affinity) (v : ValueOf block_affinity) (s : E.State)
        → SameBlocks s (E.put (block_affinity, k) v s)
    put-SameBlocks k v s c b n at =
        elim (lawful.get-put_other (block_affinity, k) (allocation_block, c) v s) [
          | inl same ↦
              (let kinds : block_affinity ≡ allocation_block = ap (λ x. x.0) same in cc kinds)
          | inr other ↦ other ∙ at
        ]

    delete-SameBlocks :
        (k : KeyOf block_affinity) (s : E.State) → SameBlocks s (E.delete (block_affinity, k) s)
    delete-SameBlocks k s c b n at =
        elim (lawful.get-delete_other (block_affinity, k) (allocation_block, c) s) [
          | inl same ↦
              (let kinds : block_affinity ≡ allocation_block = ap (λ x. x.0) same in cc kinds)
          | inr other ↦ other ∙ at
        ]

    update-SameBlocks :
        (d : KvPair block_affinity) (rev : ℕ) (current : Option (ValueOf block_affinity × ℕ))
        (s : E.State)
        → SameBlocks s (update_txn E block_affinity d rev current s).1
    update-SameBlocks d rev current s =
        if-SameBlocks s (mod_revision current == rev) _ _ (put-SameBlocks d.key d.value s)
          (λ c b n at. at)

    deleted-SameBlocks :
        (k : KeyOf block_affinity) (rev : Option ℕ) (current : Option (ValueOf block_affinity × ℕ))
        (s : E.State)
        → SameBlocks s (delete_txn E block_affinity k rev current s).1
    deleted-SameBlocks k rev none s =
        if-SameBlocks s (delete_allowed E rev 0) _ _ (delete-SameBlocks k s) (λ c b n at. at)
    deleted-SameBlocks k rev (some (v, n)) s =
        if-SameBlocks s (delete_allowed E rev n) _ _ (delete-SameBlocks k s) (λ c b n at. at)

    -- A request for an affinity.
    affinity-LeavesBlocks : (q : Request block_affinity) → LeavesBlocks q
    unfolding create update apply delete delete_kvp get
    affinity-LeavesBlocks (create_request d) s fate =
        deliver-SameBlocks s _ (go (E.get (block_affinity, d.key) s)) fate
      where
        go :
            (current : Option (ValueOf block_affinity × ℕ))
            → SameBlocks s (create_txn E block_affinity d current s).1
        go none = put-SameBlocks d.key d.value s
        go (some (v, n)) = λ c b m at. at
    affinity-LeavesBlocks (update_request d) s fate = go d.revision
      where
        go :
            (rev : Option ℕ)
            → SameBlocks s (update E block_affinity fate (record d { revision = rev }) s).1
        go none = λ c b n at. at
        go (some rev) =
            deliver-SameBlocks s _
              (update-SameBlocks (record d { revision = some rev }) rev
                (E.get (block_affinity, d.key) s) s)
              fate
    affinity-LeavesBlocks (apply_request d) s fate =
        deliver-SameBlocks s _ (put-SameBlocks d.key d.value s) fate
    affinity-LeavesBlocks (delete_request d) s fate =
        deliver-SameBlocks s _
          (deleted-SameBlocks d.key d.revision (E.get (block_affinity, d.key) s) s) fate
    affinity-LeavesBlocks (get_request k) s fate = deliver-SameBlocks s _ (λ c b n at. at) fate

    -- A block is created only where none is.
    create-LeavesBlocks : (d : KvPair allocation_block) → LeavesBlocks (create_request d)
    unfolding create
    create-LeavesBlocks d s fate =
        deliver-SameBlocks s _ (go (E.get (allocation_block, d.key) s) refl) fate
      where
        go :
            (current : Option (AllocationBlock × ℕ))
            → E.get (allocation_block, d.key) s ≡ current
            → SameBlocks s (create_txn E allocation_block d current s).1
        go none missing c b n at =
            elim (lawful.get-put_other (allocation_block, d.key) (allocation_block, c) d.value s) [
              | inl same ↦ absent (sym (subst (λ y. E.get y s ≡ none) same missing) ∙ at)
              | inr other ↦ other ∙ at
            ]
        go (some (v, m)) there c b n at = at

    get-LeavesBlocks : (k : IpNet) → LeavesBlocks {r = allocation_block} (get_request k)
    unfolding get
    get-LeavesBlocks k s fate = deliver-SameBlocks s _ (λ c b n at. at) fate

    confirm_affinity-OverwritesNone :
        (aff : KvPair block_affinity) → OverwritesNone (confirm_affinity aff)
    unfolding OverwritesNone confirm_affinity
    confirm_affinity-OverwritesNone aff = (
      affinity-LeavesBlocks (update_request _),
      elim [
        | Reply.ok got ↦ tt
        | Reply.fail e current ↦ (
          affinity-LeavesBlocks (get_request _),
          elim [
            | Reply.fail e2 current2 ↦ tt
            | Reply.ok got ↦
                OverwritesNone-if (is_confirmed got.value) (returning (done got))
                  (returning (failed (store_error e))) tt tt
          ],
        )
      ],
    )

    confirm-OverwritesNone :
        (aff : KvPair block_affinity) (kvp : KvPair allocation_block)
        → OverwritesNone (confirm_affinity aff >>= if_confirmed kvp)
    unfolding OverwritesNone
    confirm-OverwritesNone aff kvp =
        OverwritesNone->>= (confirm_affinity aff) (if_confirmed kvp)
          (confirm_affinity-OverwritesNone aff) (elim [ done got ↦ tt | failed e ↦ tt ])

    existing-OverwritesNone :
        (aff : KvPair block_affinity) (reply : Reply allocation_block)
        → OverwritesNone (existing_block aff reply)
    unfolding OverwritesNone
    existing-OverwritesNone aff (Reply.fail e current) = tt
    existing-OverwritesNone aff (Reply.ok obj) =
        OverwritesNone-if (has_affinity aff.key.0 obj.value.affinity) _ _
          (confirm-OverwritesNone aff obj) (affinity-LeavesBlocks (delete_request aff), λ reply. tt)

    created-OverwritesNone :
        (aff : KvPair block_affinity) (reply : Reply allocation_block)
        → OverwritesNone (created_block aff reply)
    unfolding OverwritesNone
    created-OverwritesNone aff (Reply.ok kvp) = confirm-OverwritesNone aff kvp
    created-OverwritesNone aff (Reply.fail e current) =
        OverwritesNone-if (is_already_exists e) _ _
          (get-LeavesBlocks aff.key.1, existing-OverwritesNone aff) tt

    pub claim_affine_block-OverwritesNone :
        (aff : KvPair block_affinity) (rsvd : Option HostReservedAttr)
        → OverwritesNone (claim_affine_block aff rsvd)
    unfolding claim_affine_block OverwritesNone
    claim_affine_block-OverwritesNone aff rsvd = go (new_block aff.key.1 rsvd)
      where
        go : (made : Outcome AllocationBlock) → OverwritesNone (create_block aff made)
        go (Outcome.ok b) = (create-LeavesBlocks _, created-OverwritesNone aff)
        go (Outcome.err e) = tt
        go Outcome.panic = tt
