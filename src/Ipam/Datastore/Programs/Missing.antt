-- ===== src/Ipam/Datastore/Programs/Missing.antt =====
-- What Get and Delete of lib/backend/etcdv3/etcdv3.go ensure where it matters that the key is missing.
use zyzxlibcalico_go.Prelude.{
  ℕ, ◌<◌, ◌≡◌, refl, sym, ◌∙◌, ap, Option, none, some, ◌==◌, arith, Bool-cases, ==_iff, inl, inr,
}
use zyzxlibcalico_go.Ipam.Datastore.{
  Kind, KeyOf, ValueOf, Etcd, IsLawful, KvPair, Reply, does_not_exist, update_conflict, delete,
  delete_txn, delete_kvp, get, found, mod_revision,
}
use zyzxlibcalico_go.Ipam.Datastore.Moves.{Kept, MayDelete, Moves, Moves-refl, delete-Moves}
use zyzxlibcalico_go.Ipam.Datastore.Programs.{Program, asking, delete_request, get_request}
use zyzxlibcalico_go.Ipam.Datastore.Programs.Logic.{Ensures}
use zyzxlibcalico_go.Ipam.Datastore.Programs.Rules.{Unanswered, Serves, deliver-Serves}

module _ (E : Etcd) (K : Kept) (lawful : IsLawful E) {A : Type 0} (Post : E.State → A → Type 0)
    (r : Kind) (key : KeyOf r) (k : Reply r → Program A) where
  abbrev Lost : E.State → Type 0
  Lost s = Unanswered E K lawful Post r key k s

  abbrev Answers : E.State → Reply r × E.State → Type 0
  Answers s1 out = Serves E K lawful Post r key k s1 out

  pub Ensures-get_missing :
      (s : E.State)
      → Lost s
      → ((s' : E.State)
          → Moves E K s s'
          → E.get (r, key) s' ≡ none
          → Ensures E K Post s' (k (Reply.fail does_not_exist none)))
      → ((s' : E.State) (v : ValueOf r) (n : ℕ)
          → Moves E K s s'
          → E.get (r, key) s' ≡ some (v, n)
          → Ensures E K Post s' (k (Reply.ok (record { key = key; value = v; revision = some n }))))
      → Ensures E K Post s (asking r (get_request key) k)
  unfolding Ensures get
  Ensures-get_missing s lost missing succeeds = λ s1 fate m.
      deliver-Serves E K lawful Post r key k s s1 m lost _ (go s1 m (E.get (r, key) s1) refl) fate
    where
      go :
          (s1 : E.State)
          → Moves E K s s1
          → (c : Option (ValueOf r × ℕ)) → E.get (r, key) s1 ≡ c
          → Answers s1 (found E key c, s1)
      go s1 m none e = (Moves-refl E K s1 m.store, missing s1 m e)
      go s1 m (some (v, n)) e = (Moves-refl E K s1 m.store, succeeds s1 v n m e)

  module _ (v : ValueOf r) (s : E.State) (rev : ℕ) (pos : 0 < rev)
      (may : (s1 : E.State) (old : ValueOf r)
        → Moves E K s s1
        → E.get (r, key) s1 ≡ some (old, rev)
        → MayDelete K (r, key) old)
      (lost : Lost s)
      (missing : (s' : E.State)
        → Moves E K s s'
        → E.get (r, key) s' ≡ none
        → Ensures E K Post s' (k (Reply.fail does_not_exist none)))
      (conflicts : (s' : E.State) (current : Option (KvPair r))
        → Moves E K s s'
        → Ensures E K Post s' (k (Reply.fail update_conflict current)))
      (succeeds : (s1 : E.State) (old : ValueOf r) (deleted : KvPair r)
        → Moves E K s s1
        → E.get (r, key) s1 ≡ some (old, rev)
        → Moves E K s1 (E.delete (r, key) s1)
        → E.get (r, key) (E.delete (r, key) s1) ≡ none
        → Ensures E K Post (E.delete (r, key) s1) (k (Reply.ok deleted))) where
    delete_txn-Answers :
        (s1 : E.State)
        → Moves E K s s1
        → (c : Option (ValueOf r × ℕ)) → E.get (r, key) s1 ≡ c
        → Answers s1 (delete_txn E r key (some rev) c s1)
    delete_txn-Answers s1 m none e = elim (Bool-cases (0 == rev)) [
      | inl same ↦ absurd (ground (arith, pos))
      | inr other ↦ rw other (Moves-refl E K s1 m.store, missing s1 m e)
    ]
    delete_txn-Answers s1 m (some (w, n)) e = elim (Bool-cases (n == rev)) [
      | inl same ↦
          (let at : E.get (r, key) s1 ≡ some (w, rev) =
              e ∙ ap (λ n. some (w, n)) ((==_iff n rev).0 same) in
            let moved =
              delete-Moves E K lawful (r, key) s1 m.store
                (λ old n' at'.
                  may s1 old m (at' ∙ ap (λ n. some (old, n)) (ap mod_revision (sym at' ∙ at)))) in
            rw same (moved, succeeds s1 w _ m at moved (lawful.get-delete (r, key) s1)))
      | inr other ↦ rw other (Moves-refl E K s1 m.store, conflicts s1 _ m)
    ]

    -- The pair has the revision; or the key is missing, or has another one.
    pub Ensures-delete_missing :
        (given : Option ℕ)
        → given ≡ some rev
        → Ensures E K Post s
            (asking r (delete_request (record { key = key; value = v; revision = given })) k)
    unfolding Ensures delete delete_kvp
    Ensures-delete_missing given revised = rw revised (λ s1 fate m.
        deliver-Serves E K lawful Post r key k s s1 m lost _
          (delete_txn-Answers s1 m (E.get (r, key) s1) refl) fate)
