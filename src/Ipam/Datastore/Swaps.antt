-- ===== src/Ipam/Datastore/Swaps.antt =====
-- Compare-and-swap of lib/backend/etcdv3/etcdv3.go: of the writers that read the same revision, one
-- succeeds.
use mathlib.Core.Path.{subst}
use zyzxlibcalico_go.Prelude.{
  ℕ, ◌≤◌, ◌<◌, ◌≡◌, refl, sym, ◌∙◌, ap, Bool, true, false, Option, none, some, ◌==◌, arith,
  if◌then◌else◌, inl, inr, ==_iff,
}
use zyzxlibcalico_go.Ipam.Datastore.{
  Kind, KeyOf, ValueOf, KvPair, Etcd, IsLawful, Reply, StoreError, Fate, answered, refused,
  unanswered, mod_revision, deliver, update, delete, delete_kvp, written, conflict,
}
use zyzxlibcalico_go.Ipam.Datastore.Moves.{Kept, IsStore, Moves}

-- The request failed and changed nothing.
abbrev pub Lost : (E : Etcd) (r : Kind) → Reply r × E.State → E.State → Type 0
Lost E r out s =
    (e : StoreError) × (current : Option (KvPair r)) × (out ≡ (Reply.fail e current, s))

module _ (E : Etcd) (K : Kept) (r : Kind) where
  conflict-Lost :
      (key : KeyOf r) (c : Option (ValueOf r × ℕ)) (s : E.State) → Lost E r (conflict E key c, s) s
  conflict-Lost key none s = (StoreError.does_not_exist, none, refl)
  conflict-Lost key (some (v, n)) s = (StoreError.update_conflict, _, refl)

  deliver-Lost :
      (out : Reply r × E.State) (s : E.State)
      → Lost E r out s
      → (fate : Fate) → Lost E r (deliver E fate out s) s
  deliver-Lost out s (e, current, same) answered = (e, current, same)
  deliver-Lost out s (e, current, same) refused = (StoreError.datastore_error, none, refl)
  deliver-Lost out s (e, current, same) unanswered = (
    StoreError.datastore_error,
    none,
    ap (λ out. (Reply.fail StoreError.datastore_error none, out.1)) same,
  )

  module _ (lawful : IsLawful E) (s : E.State) (g : IsStore E s) where
    -- What an update that succeeds writes.
    record Swapped (key : KeyOf r) (value : ValueOf r) (rev : ℕ) (s1 : E.State) : Type 0 where
      at : E.get (r, key) s1 ≡ some (value, E.revision s1)
      older : rev < E.revision s1

    revision_bound :
        (key : KeyOf r) (c : Option (ValueOf r × ℕ))
        → E.get (r, key) s ≡ c
        → mod_revision c ≤ E.revision s
    revision_bound key none e = omega arith
    revision_bound key (some (v, n)) e = (g.good (r, key) v n e).2

    module _ (key : KeyOf r) (value : ValueOf r) (rev : ℕ) (kvp : KvPair r) (s1 : E.State) where
      written-Swapped :
          (c : Option (ValueOf r × ℕ))
          → E.get (r, key) s ≡ c
          → (b : Bool) → (mod_revision c == rev) ≡ b
          → (if b
              then written E r (record { key = key; value = value; revision = some rev }) s
              else (conflict E key c, s))
            ≡ (Reply.ok kvp, s1)
          → Swapped key value rev s1
      written-Swapped c e true same h =
          let there : E.put (r, key) value s ≡ s1 = ap (λ out. out.1) h in
          let grown = lawful.revision-put (r, key) value s in
          subst (Swapped key value rev) there (record {
            at = lawful.get-put (r, key) value s ∙ ap (λ n. some (value, n)) (sym grown);
            older =
                omega (arith, grown, revision_bound key c e, (==_iff (mod_revision c) rev).0 same);
          })
      written-Swapped none e false other h = cc
      written-Swapped (some (v, n)) e false other h = cc

      update-Swapped :
          update E r answered (record { key = key; value = value; revision = some rev }) s
            ≡ (Reply.ok kvp, s1)
          → Swapped key value rev s1
      unfolding update
      update-Swapped h =
          let c = E.get (r, key) s in written-Swapped c refl (mod_revision c == rev) refl h

    -- A later revision than the one that was read is never that revision.
    later_differs :
        (key : KeyOf r) (value : ValueOf r) (rev : ℕ) (s1 s2 : E.State)
        → 0 < rev
        → Swapped key value rev s1
        → Moves E K s1 s2
        → (c : Option (ValueOf r × ℕ)) → E.get (r, key) s2 ≡ c
        → (mod_revision c == rev) ≡ false
    later_differs key value rev s1 s2 pos w m none e = grind (arith, pos)
    later_differs key value rev s1 s2 pos w m (some (v, n)) e =
        let newer : rev < n = elim (m.fresh (r, key) v n e) [
          | inl before ↦ omega (arith, w.older, ap mod_revision (sym before ∙ w.at))
          | inr after ↦ omega (arith, w.older, after)
        ] in
        grind (arith, newer)

    -- After an update that succeeded, and whatever clients wrote then, no update and no deletion that
    -- names the revision that it replaced succeeds, and it changes nothing.
    pub update_once :
        (key : KeyOf r) (value : ValueOf r) (rev : ℕ) (kvp : KvPair r) (s1 s2 : E.State)
        → 0 < rev
        → update E r answered (record { key = key; value = value; revision = some rev }) s
          ≡ (Reply.ok kvp, s1)
        → Moves E K s1 s2
        → (other : ValueOf r) (fate : Fate)
        → let late : KvPair r = record { key = key; value = other; revision = some rev } in
          Lost E r (update E r fate late s2) s2 × Lost E r (delete_kvp E r fate late s2) s2
    unfolding update delete delete_kvp
    update_once key value rev kvp s1 s2 pos swapped m other fate =
        let c = E.get (r, key) s2 in
        let differs =
          later_differs key value rev s1 s2 pos (update-Swapped key value rev kvp s1 swapped) m c
            refl in
        let lost = conflict-Lost key c s2 in
        (rw differs (deliver-Lost _ s2 lost fate), rw differs (deliver-Lost _ s2 lost fate))
