-- ===== src/Ipam/Datastore/Moves.antt =====
-- What the clients of the datastore keep: every stored value is well formed, revisions only grow, and
-- a used address of those that are kept stays used with its handle.
use mathlib.Core.Path.{subst}
use zyzxlibcalico_go.Prelude.{
  refl, ℕ, suc, ◌≤◌, ◌<◌, ◌≡◌, sym, ◌∙◌, ap, ◌⊎◌, inl, inr, String, true, false, Option, none, some,
  arith,
}
use zyzxlibcalico_go.Prelude.Options.{absent}
use zyzxlibcalico_go.Ipam.Address.{IpNet}
use zyzxlibcalico_go.Ipam.Block.{AllocationBlock}
use zyzxlibcalico_go.Ipam.Block.Invariant.{IsBlock, handle_at}
use zyzxlibcalico_go.Ipam.Block.Queries.{is_reserved}
use zyzxlibcalico_go.Ipam.Handle.Counts.{IsHandle}
use zyzxlibcalico_go.Ipam.Datastore.{
  Kind, KeyOf, KvPair, block_affinity, allocation_block, ipam_handle, ipam_config, node, ValueOf,
  Key, Etcd, IsLawful, valid_config,
}

-- A block is well formed and stands under its own CIDR; the configuration is one that SetIPAMConfig
-- accepts.
abbrev pub IsGood : (x : Key) → ValueOf x.0 → Type 0
IsGood (block_affinity, k) v = Unit
IsGood (allocation_block, k) b = IsBlock b × (b.cidr ≡ k)
IsGood (ipam_handle, k) h = IsHandle h
IsGood (ipam_config, k) c = valid_config c ≡ true
IsGood (node, k) l = Unit

-- The addresses, by block and ordinal, and their handles, that no client releases for now. They are not
-- reserved ones, with which a block counts as empty.
pub record Kept : Type 1 where
  pub Keeps : IpNet → ℕ → Option String → Type 0
  pub plain : (c : IpNet) (o : ℕ) (h : Option String) → Keeps c o h → is_reserved h ≡ false

-- The kept addresses of the block that are used are used in the other one with the same handles.
abbrev pub KeepsUsed : Kept → IpNet → AllocationBlock → (ℕ → Option (Option String)) → Type 0
KeepsUsed K c b handles =
    (o : ℕ) (h : Option String) → K.Keeps c o h → handle_at b o ≡ some h → handles o ≡ some h

-- A value may be replaced, or deleted.
abbrev pub MayReplace : Kept → (x : Key) → ValueOf x.0 → ValueOf x.0 → Type 0
MayReplace K (block_affinity, k) old v = Unit
MayReplace K (allocation_block, k) old v = KeepsUsed K k old (handle_at v)
MayReplace K (ipam_handle, k) old v = Unit
MayReplace K (ipam_config, k) old v = Unit
MayReplace K (node, k) old v = Unit

abbrev pub MayDelete : Kept → (x : Key) → ValueOf x.0 → Type 0
MayDelete K (block_affinity, k) old = Unit
MayDelete K (allocation_block, k) old = KeepsUsed K k old (λ o. none)
MayDelete K (ipam_handle, k) old = Unit
MayDelete K (ipam_config, k) old = Unit
MayDelete K (node, k) old = Unit

abbrev pub value_or {ℓ} : {A : Type ℓ} → A → Option (A × ℕ) → A
value_or a none = a
value_or a (some (b, n)) = b

abbrev AtEntry : {A : Type 0} → (A → ℕ → Type 0) → Option (A × ℕ) → Type 0
AtEntry P none = Unit
AtEntry P (some (v, n)) = P v n

module _ (E : Etcd) where
  pub record IsStore (s : E.State) : Type 0 where
    pub good :
        (x : Key) (v : ValueOf x.0) (n : ℕ)
        → E.get x s ≡ some (v, n)
        → IsGood x v × (0 < n) × (n ≤ E.revision s)

  -- The ordinal of the block is allocated, with the handle.
  abbrev pub Used : E.State → IpNet → ℕ → Option String → Type 0
  Used s c o h =
      (b : AllocationBlock) × (n : ℕ) × (E.get (allocation_block, c) s ≡ some (b, n))
      × (handle_at b o ≡ some h)

  pub Used-handle :
      (s : E.State) (c : IpNet) (o : ℕ) (h : Option String) (b : AllocationBlock) (n : ℕ)
      → E.get (allocation_block, c) s ≡ some (b, n)
      → Used s c o h
      → handle_at b o ≡ some h
  Used-handle s c o h b n at (b2, n2, at2, handled) =
      subst (AtEntry (λ b n. handle_at b o ≡ some h)) (sym at2 ∙ at) handled

module _ (E : Etcd) (K : Kept) where
  -- What any number of steps of the clients keep.
  pub record Moves (s s' : E.State) : Type 0 where
    pub store : IsStore E s'
    pub grows : E.revision s ≤ E.revision s'
    pub fresh :
        (x : Key) (v : ValueOf x.0) (n : ℕ)
        → E.get x s' ≡ some (v, n)
        → (E.get x s ≡ some (v, n)) ⊎ (E.revision s < n)
    pub used :
        (c : IpNet) (o : ℕ) (h : Option String) → K.Keeps c o h → Used E s c o h → Used E s' c o h

  pub Moves-refl : (s : E.State) → IsStore E s → Moves s s
  Moves-refl s g = record {
    store = g;
    grows = omega arith;
    fresh = λ x v n e. inl e;
    used = λ c o h r u. u;
  }

  pub Moves-trans : {s t u : E.State} → Moves s t → Moves t u → Moves s u
  Moves-trans m m' = record {
    store = m'.store;
    grows = omega (arith, m.grows, m'.grows);
    fresh = λ x v n e. elim (m'.fresh x v n e) [
      | inl e' ↦ m.fresh x v n e'
      | inr lt ↦ inr (omega (arith, m.grows, lt))
    ];
    used = λ c o h r u. m'.used c o h r (m.used c o h r u);
  }

  -- A value that was read at a revision is still there if that revision is.
  pub same-of_revision :
      {s s' : E.State} (x : Key) {v w : ValueOf x.0} {n : ℕ}
      → IsStore E s
      → Moves s s'
      → E.get x s ≡ some (v, n)
      → E.get x s' ≡ some (w, n)
      → v ≡ w
  same-of_revision x {v} {w} {n} g m before after =
      let (good, pos, bound) = g.good x v n before in
      elim (m.fresh x w n after) [
        | inl e ↦ ap (value_or v) (sym before ∙ e)
        | inr lt ↦ absurd (omega (arith, lt, bound))
      ]

  -- A pair as a client has read or written it: as long as the store has its revision under the key, it
  -- has its value.
  pub record Known (s : E.State) {r : Kind} (kvp : KvPair r) : Type 0 where
    pub rev : ℕ
    pub revised : kvp.revision ≡ some rev
    pub positive : 0 < rev
    pub good : IsGood (r, kvp.key) kvp.value
    pub current :
        (s' : E.State) (v : ValueOf r)
        → Moves s s'
        → E.get (r, kvp.key) s' ≡ some (v, rev)
        → kvp.value ≡ v

  pub Known-read :
      (s : E.State) (r : Kind) (key : KeyOf r) (v : ValueOf r) (n : ℕ)
      → IsStore E s
      → E.get (r, key) s ≡ some (v, n)
      → Known s {r = r} (record { key = key; value = v; revision = some n })
  Known-read s r key v n g at =
      let (good, positive, bound) = g.good (r, key) v n at in
      record {
        rev = n;
        revised = refl;
        positive = positive;
        good = good;
        current = λ s' w m at'. same-of_revision (r, key) g m at at';
      }

  pub Known-Moves :
      {s s' : E.State} {r : Kind} {kvp : KvPair r} → Moves s s' → Known s kvp → Known s' kvp
  Known-Moves m k = record {
    rev = k.rev;
    revised = k.revised;
    positive = k.positive;
    good = k.good;
    current = λ s'' v m'. k.current s'' v (Moves-trans m m');
  }

module _ (E : Etcd) (K : Kept) (lawful : IsLawful E) where
  open lawful use {
    revision-put, revision-delete, get-put, get-put_other, get-delete, get-delete_other,
  }

  -- What holds of the written entry and of all that were there before holds of every entry.
  after-put :
      (x : Key) (v : ValueOf x.0) (s : E.State) (P : (y : Key) → ValueOf y.0 → ℕ → Type 0)
      → P x v (suc (E.revision s))
      → ((y : Key) (w : ValueOf y.0) (n : ℕ) → E.get y s ≡ some (w, n) → P y w n)
      → (y : Key) (w : ValueOf y.0) (n : ℕ) → E.get y (E.put x v s) ≡ some (w, n)
      → P y w n
  after-put x v s P new old y w n at = elim (get-put_other x y v s) [
    | inl e ↦
        subst (λ y. (w : ValueOf y.0) (n : ℕ) → E.get y (E.put x v s) ≡ some (w, n) → P y w n) e
          (λ w n at. subst (AtEntry (P x)) (sym (get-put x v s) ∙ at) new) w n at
    | inr e ↦ old y w n (sym e ∙ at)
  ]

  after-delete :
      (x : Key) (s : E.State) (y : Key) (w : ValueOf y.0) (n : ℕ)
      → E.get y (E.delete x s) ≡ some (w, n)
      → E.get y s ≡ some (w, n)
  after-delete x s y w n at = elim (get-delete_other x y s) [
    | inl e ↦ absent (sym (subst (λ y. E.get y (E.delete x s) ≡ none) e (get-delete x s)) ∙ at)
    | inr e ↦ sym e ∙ at
  ]

  used-put :
      (x : Key) (v : ValueOf x.0) (s : E.State)
      → ((old : ValueOf x.0) (n : ℕ) → E.get x s ≡ some (old, n) → MayReplace K x old v)
      → (c : IpNet) (o : ℕ) (h : Option String) → K.Keeps c o h
      → Used E s c o h
      → Used E (E.put x v s) c o h
  used-put x v s may c o h r u = elim (get-put_other x (allocation_block, c) v s) [
    | inl e ↦
        subst
          (λ (x : Key).
            (v : ValueOf x.0)
            → ((old : ValueOf x.0) (n : ℕ) → E.get x s ≡ some (old, n) → MayReplace K x old v)
            → Used E (E.put x v s) c o h)
          (sym e)
          (λ v may.
            (let (b, n, at, handled) = u in
              (v, suc (E.revision s), get-put (allocation_block, c) v s, may b n at o h r handled)))
          v may
    | inr e ↦ (let (b, n, at, handled) = u in (b, n, e ∙ at, handled))
  ]

  used-delete :
      (x : Key) (s : E.State)
      → ((old : ValueOf x.0) (n : ℕ) → E.get x s ≡ some (old, n) → MayDelete K x old)
      → (c : IpNet) (o : ℕ) (h : Option String) → K.Keeps c o h
      → Used E s c o h
      → Used E (E.delete x s) c o h
  used-delete x s may c o h r u = elim (get-delete_other x (allocation_block, c) s) [
    | inl e ↦
        (let (b, n, at, handled) = u in
          let contra : none ≡ some h =
            subst
              (λ (x : Key).
                ((old : ValueOf x.0) (n : ℕ) → E.get x s ≡ some (old, n) → MayDelete K x old)
                → none ≡ some h)
              (sym e) (λ may. may b n at o h r handled) may in
          absurd cc)
    | inr e ↦ (let (b, n, at, handled) = u in (b, n, e ∙ at, handled))
  ]

  -- A write moves the store on if the value is well formed and may replace the one that is there.
  pub put-Moves :
      (x : Key) (v : ValueOf x.0) (s : E.State)
      → IsStore E s
      → IsGood x v
      → ((old : ValueOf x.0) (n : ℕ) → E.get x s ≡ some (old, n) → MayReplace K x old v)
      → Moves E K s (E.put x v s)
  put-Moves x v s g good may =
      let counted = revision-put x v s in
      record {
        store = record {
          good =
              after-put x v s (λ y w n. IsGood y w × (0 < n) × (n ≤ E.revision (E.put x v s)))
                (good, omega arith, omega (arith, counted))
                (λ y w n at.
                  (let (w', pos, le) = g.good y w n at in (w', pos, omega (arith, le, counted))));
        };
        grows = omega (arith, counted);
        fresh =
            after-put x v s (λ y w n. (E.get y s ≡ some (w, n)) ⊎ (E.revision s < n))
              (inr (omega arith)) (λ y w n at. inl at);
        used = used-put x v s may;
      }

  pub delete-Moves :
      (x : Key) (s : E.State)
      → IsStore E s
      → ((old : ValueOf x.0) (n : ℕ) → E.get x s ≡ some (old, n) → MayDelete K x old)
      → Moves E K s (E.delete x s)
  delete-Moves x s g may = record {
    store = record {
      good = λ y w n at.
          (let (w', pos, le) = g.good y w n (after-delete x s y w n at) in
            (w', pos, omega (arith, le, revision-delete x s)));
    };
    grows = revision-delete x s;
    fresh = λ y w n at. inl (after-delete x s y w n at);
    used = used-delete x s may;
  }
