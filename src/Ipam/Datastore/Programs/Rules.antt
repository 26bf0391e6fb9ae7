-- ===== src/Ipam/Datastore/Programs/Rules.antt =====
-- What a program that starts with a request ensures, for each of the requests that
-- lib/backend/etcdv3/etcdv3.go serves.
use mathlib.Core.Path.{subst}
use zyzxlibcalico_go.Prelude.{
  ℕ, ◌<◌, ◌≡◌, refl, sym, ◌∙◌, ap, Option, none, some, ◌==◌, arith, Bool-cases, ==_iff, inl, inr,
}
use zyzxlibcalico_go.Prelude.Options.{absent}
use zyzxlibcalico_go.Ipam.Datastore.{
  apply, Kind, KeyOf, ValueOf, Etcd, IsLawful, KvPair, Reply, StoreError, datastore_error, Fate,
  answered, refused, unanswered, deliver, create, create_txn, written, update, update_txn, delete,
  delete_txn, delete_kvp, get, found, mod_revision,
}
use zyzxlibcalico_go.Ipam.Datastore.Moves.{
  Kept, IsGood, MayReplace, MayDelete, Moves, Moves-refl, Moves-trans, put-Moves, delete-Moves,
}
use zyzxlibcalico_go.Ipam.Datastore.Programs.{
  apply_request, create_request, update_request, delete_request, get_request, Program, asking,
}
use zyzxlibcalico_go.Ipam.Datastore.Programs.Logic.{Ensures}

module _ (E : Etcd) (K : Kept) (lawful : IsLawful E) where
  module _ {A : Type 0} (Post : E.State → A → Type 0) (r : Kind) (key : KeyOf r)
      (k : Reply r → Program A) where
    -- A failed request may have been carried out.
    abbrev pub Fails : E.State → Type 0
    Fails s =
        (s' : E.State) (e : StoreError) (current : Option (KvPair r))
        → Moves E K s s'
        → Ensures E K Post s' (k (Reply.fail e current))

    -- A request without an answer.
    abbrev pub Unanswered : E.State → Type 0
    Unanswered s =
        (s' : E.State) → Moves E K s s' → Ensures E K Post s' (k (Reply.fail datastore_error none))

    -- The store moves on from `s1`, and then the rest of the program ensures the postcondition.
    abbrev pub Serves : E.State → Reply r × E.State → Type 0
    Serves s1 out = Moves E K s1 out.1 × Ensures E K Post out.1 (k out.0)

    -- Whatever becomes of the request, if it is so when it is carried out and answered.
    pub deliver-Serves :
        (s s1 : E.State)
        → Moves E K s s1
        → Unanswered s
        → (out : Reply r × E.State) → Serves s1 out
        → (fate : Fate) → Serves s1 (deliver E fate out s1)
    deliver-Serves s s1 m lost out served answered = served
    deliver-Serves s s1 m lost out served refused = (Moves-refl E K s1 m.store, lost s1 m)
    deliver-Serves s s1 m lost out served unanswered =
        (served.0, lost out.1 (Moves-trans E K m served.0))

    pub Ensures-get :
        (s : E.State)
        → Fails s
        → ((s' : E.State) (v : ValueOf r) (n : ℕ)
            → Moves E K s s'
            → E.get (r, key) s' ≡ some (v, n)
            → Ensures E K Post s'
                (k (Reply.ok (record { key = key; value = v; revision = some n }))))
        → Ensures E K Post s (asking r (get_request key) k)
    unfolding Ensures get
    Ensures-get s fails succeeds = λ s1 fate m.
        deliver-Serves s s1 m (λ s2 m2. fails s2 _ _ m2) _ (go s1 m (E.get (r, key) s1) refl) fate
      where
        go :
            (s1 : E.State)
            → Moves E K s s1
            → (c : Option (ValueOf r × ℕ)) → E.get (r, key) s1 ≡ c
            → Serves s1 (found E key c, s1)
        go s1 m none e = (Moves-refl E K s1 m.store, fails s1 _ _ m)
        go s1 m (some (v, n)) e = (Moves-refl E K s1 m.store, succeeds s1 v n m e)

    module _ (v : ValueOf r) where
      abbrev pub pair : Option ℕ → KvPair r
      pair rev = record { key = key; value = v; revision = rev }

      -- A pair was written, at the last revision of the store.
      abbrev pub Written : E.State → E.State → Option ℕ → Type 0
      Written s s1 rev =
          Moves E K s s1
          → (s' : E.State) → Moves E K s1 s'
          → E.get (r, key) s' ≡ some (v, E.revision s')
          → Ensures E K Post s' (k (Reply.ok (pair (some (E.revision s')))))

      -- As Written, of the very store that the write makes of the one that it meets.
      abbrev pub WrittenAt : E.State → E.State → Option ℕ → Type 0
      WrittenAt s s1 rev =
          let s' = E.put (r, key) v s1 in
          Moves E K s s1
          → Moves E K s1 s'
          → E.get (r, key) s' ≡ some (v, E.revision s')
          → Ensures E K Post s' (k (Reply.ok (pair (some (E.revision s')))))

      written-Serves :
          (s s1 : E.State) (rev : Option ℕ)
          → Moves E K s s1
          → IsGood (r, key) v
          → ((old : ValueOf r) (n : ℕ)
              → E.get (r, key) s1 ≡ some (old, n)
              → MayReplace K (r, key) old v)
          → WrittenAt s s1 rev
          → Serves s1 (written E r (pair rev) s1)
      written-Serves s s1 rev m good may writes =
          let moved = put-Moves E K lawful (r, key) v s1 m.store good may in
          (
            moved,
            writes m moved (
                lawful.get-put (r, key) v s1
                ∙ ap (λ n. some (v, n)) (sym (lawful.revision-put (r, key) v s1))),
          )

      pub Ensures-create_here :
          (s : E.State)
          → IsGood (r, key) v
          → Fails s
          → ((s1 : E.State) → E.get (r, key) s1 ≡ none → WrittenAt s s1 none)
          → Ensures E K Post s (asking r (create_request (pair none)) k)
      unfolding Ensures create
      Ensures-create_here s good fails succeeds = λ s1 fate m.
          deliver-Serves s s1 m (λ s2 m2. fails s2 _ _ m2) _ (go s1 m (E.get (r, key) s1) refl) fate
        where
          go :
              (s1 : E.State)
              → Moves E K s s1
              → (c : Option (ValueOf r × ℕ)) → E.get (r, key) s1 ≡ c
              → Serves s1 (create_txn E r (pair none) c s1)
          go s1 m none e =
              written-Serves s s1 none m good (λ old n at. absent (sym e ∙ at)) (succeeds s1 e)
          go s1 m (some (w, n)) e = (Moves-refl E K s1 m.store, fails s1 _ _ m)

      pub Ensures-create :
          (s : E.State)
          → IsGood (r, key) v
          → Fails s
          → ((s1 : E.State) → E.get (r, key) s1 ≡ none → Written s s1 none)
          → Ensures E K Post s (asking r (create_request (pair none)) k)
      Ensures-create s good fails succeeds =
          Ensures-create_here s good fails (λ s1 gone m moved at. succeeds s1 gone m _ moved at)

      Ensures-update_at :
          (s : E.State) (rev : ℕ)
          → 0 < rev
          → IsGood (r, key) v
          → ((s1 : E.State) (old : ValueOf r)
              → Moves E K s s1
              → E.get (r, key) s1 ≡ some (old, rev)
              → MayReplace K (r, key) old v)
          → Fails s
          → ((s1 : E.State) (old : ValueOf r)
              → E.get (r, key) s1 ≡ some (old, rev)
              → WrittenAt s s1 (some rev))
          → Ensures E K Post s (asking r (update_request (pair (some rev))) k)
      unfolding Ensures update
      Ensures-update_at s rev pos good may fails succeeds = λ s1 fate m.
          deliver-Serves s s1 m (λ s2 m2. fails s2 _ _ m2) _ (go s1 m (E.get (r, key) s1) refl) fate
        where
          go :
              (s1 : E.State)
              → Moves E K s s1
              → (c : Option (ValueOf r × ℕ)) → E.get (r, key) s1 ≡ c
              → Serves s1 (update_txn E r (pair (some rev)) rev c s1)
          go s1 m none e = elim (Bool-cases (0 == rev)) [
            | inl same ↦ absurd (ground (arith, pos))
            | inr other ↦ rw other (Moves-refl E K s1 m.store, fails s1 _ _ m)
          ]
          go s1 m (some (w, n)) e = elim (Bool-cases (n == rev)) [
            | inl same ↦
                (let at : E.get (r, key) s1 ≡ some (w, rev) =
                    e ∙ ap (λ n. some (w, n)) ((==_iff n rev).0 same) in
                  rw same (
                    written-Serves s s1 (some rev) m good
                      (λ old n' at'.
                        may s1 old m
                          (at' ∙ ap (λ n. some (old, n)) (ap mod_revision (sym at' ∙ at))))
                      (succeeds s1 w at)))
            | inr other ↦ rw other (Moves-refl E K s1 m.store, fails s1 _ _ m)
          ]

      Ensures-delete_at :
          (s : E.State) (rev : ℕ)
          → 0 < rev
          → ((s1 : E.State) (old : ValueOf r)
              → Moves E K s s1
              → E.get (r, key) s1 ≡ some (old, rev)
              → MayDelete K (r, key) old)
          → Fails s
          → ((s1 : E.State) (old : ValueOf r)
              → Moves E K s s1
              → E.get (r, key) s1 ≡ some (old, rev)
              → (s' : E.State) → Moves E K s1 s'
              → E.get (r, key) s' ≡ none
              → Ensures E K Post s'
                  (k (Reply.ok (record { key = key; value = old; revision = some rev }))))
          → Ensures E K Post s (asking r (delete_request (pair (some rev))) k)
      unfolding Ensures delete delete_kvp
      Ensures-delete_at s rev pos may fails succeeds = λ s1 fate m.
          deliver-Serves s s1 m (λ s2 m2. fails s2 _ _ m2) _ (go s1 m (E.get (r, key) s1) refl) fate
        where
          go :
              (s1 : E.State)
              → Moves E K s s1
              → (c : Option (ValueOf r × ℕ)) → E.get (r, key) s1 ≡ c
              → Serves s1 (delete_txn E r key (some rev) c s1)
          go s1 m none e = elim (Bool-cases (0 == rev)) [
            | inl same ↦ absurd (ground (arith, pos))
            | inr other ↦ rw other (Moves-refl E K s1 m.store, fails s1 _ _ m)
          ]
          go s1 m (some (w, n)) e = elim (Bool-cases (n == rev)) [
            | inl same ↦
                (let at : E.get (r, key) s1 ≡ some (w, rev) =
                    e ∙ ap (λ n. some (w, n)) ((==_iff n rev).0 same) in
                  let moved =
                    delete-Moves E K lawful (r, key) s1 m.store
                      (λ old n' at'.
                        may s1 old m
                          (at' ∙ ap (λ n. some (old, n)) (ap mod_revision (sym at' ∙ at)))) in
                  rw same (
                    moved,
                    subst
                        (λ n.
                          Ensures E K Post (E.delete (r, key) s1)
                            (k (Reply.ok (record { key = key; value = w; revision = some n }))))
                        (sym ((==_iff n rev).0 same))
                        (succeeds s1 w m at (E.delete (r, key) s1) moved
                          (lawful.get-delete (r, key) s1)),
                  ))
            | inr other ↦ rw other (Moves-refl E K s1 m.store, fails s1 _ _ m)
          ]

      pub Ensures-apply :
          (s : E.State) (given : Option ℕ)
          → IsGood (r, key) v
          → ((s1 : E.State) (old : ValueOf r) (n : ℕ)
              → Moves E K s s1
              → E.get (r, key) s1 ≡ some (old, n)
              → MayReplace K (r, key) old v)
          → Fails s
          → ((s1 : E.State) → Written s s1 given)
          → Ensures E K Post s (asking r (apply_request (pair given)) k)
      unfolding Ensures apply
      Ensures-apply s given good may fails succeeds = λ s1 fate m.
          deliver-Serves s s1 m (λ s2 m2. fails s2 _ _ m2) _
            (written-Serves s s1 given m good (λ old n at. may s1 old n m at)
              (λ m2 moved at. succeeds s1 m2 _ moved at))
            fate

      -- The update is made only if the pair that is there has the revision.
      pub Ensures-update_here :
          (s : E.State) (given : Option ℕ) (rev : ℕ)
          → given ≡ some rev
          → 0 < rev
          → IsGood (r, key) v
          → ((s1 : E.State) (old : ValueOf r)
              → Moves E K s s1
              → E.get (r, key) s1 ≡ some (old, rev)
              → MayReplace K (r, key) old v)
          → Fails s
          → ((s1 : E.State) (old : ValueOf r)
              → E.get (r, key) s1 ≡ some (old, rev)
              → WrittenAt s s1 (some rev))
          → Ensures E K Post s (asking r (update_request (pair given)) k)
      Ensures-update_here s given rev e pos good may fails succeeds =
          subst (λ g. Ensures E K Post s (asking r (update_request (pair g)) k)) (sym e)
            (Ensures-update_at s rev pos good may fails succeeds)

      pub Ensures-update :
          (s : E.State) (given : Option ℕ) (rev : ℕ)
          → given ≡ some rev
          → 0 < rev
          → IsGood (r, key) v
          → ((s1 : E.State) (old : ValueOf r)
              → Moves E K s s1
              → E.get (r, key) s1 ≡ some (old, rev)
              → MayReplace K (r, key) old v)
          → Fails s
          → ((s1 : E.State) (old : ValueOf r)
              → E.get (r, key) s1 ≡ some (old, rev)
              → Written s s1 (some rev))
          → Ensures E K Post s (asking r (update_request (pair given)) k)
      Ensures-update s given rev e pos good may fails succeeds =
          Ensures-update_here s given rev e pos good may fails
            (λ s1 old at m moved at2. succeeds s1 old at m _ moved at2)

      -- The pair is deleted only if it has the revision.
      pub Ensures-delete :
          (s : E.State) (given : Option ℕ) (rev : ℕ)
          → given ≡ some rev
          → 0 < rev
          → ((s1 : E.State) (old : ValueOf r)
              → Moves E K s s1
              → E.get (r, key) s1 ≡ some (old, rev)
              → MayDelete K (r, key) old)
          → Fails s
          → ((s1 : E.State) (old : ValueOf r)
              → Moves E K s s1
              → E.get (r, key) s1 ≡ some (old, rev)
              → (s' : E.State) → Moves E K s1 s'
              → E.get (r, key) s' ≡ none
              → Ensures E K Post s'
                  (k (Reply.ok (record { key = key; value = old; revision = some rev }))))
          → Ensures E K Post s (asking r (delete_request (pair given)) k)
      Ensures-delete s given rev e pos may fails succeeds =
          subst (λ g. Ensures E K Post s (asking r (delete_request (pair g)) k)) (sym e)
            (Ensures-delete_at s rev pos may fails succeeds)
