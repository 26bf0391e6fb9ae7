-- ===== src/Ipam/Datastore/Programs/Logic.antt =====
-- How to prove what a program ensures, whatever the other clients do between its requests, as long as
-- they keep what all clients keep.
use zyzxlibcalico_go.Prelude.{Bool, true, false, if◌then◌else◌, ℕ, suc, ◌≡◌, refl}
use zyzxlibcalico_go.Ipam.Datastore.{list, Etcd, Fate}
use zyzxlibcalico_go.Ipam.Datastore.Moves.{Kept, IsStore, Moves, Moves-refl, Moves-trans}
use zyzxlibcalico_go.Ipam.Datastore.Programs.{
  listing, Program, returning, panicking, asking, ◌>>=◌, serve, Turn, returned, run,
}

module _ (E : Etcd) (K : Kept) where
  -- The program does not panic, each of its requests moves the store on, and where it returns `Post`
  -- holds.
  unfoldable pub Ensures : {A : Type 0} → (E.State → A → Type 0) → E.State → Program A → Type 0
  Ensures Post s (returning a) = Post s a
  Ensures Post s panicking = ⊥
  Ensures Post s (asking r q k) =
      (s1 : E.State) (fate : Fate)
      → Moves E K s s1
      → Moves E K s1 (serve E r fate q s1).1
        × Ensures Post (serve E r fate q s1).1 (k (serve E r fate q s1).0)
  Ensures Post s (listing r keep k) =
      (s1 : E.State) (fate : Fate) → Moves E K s s1 → Ensures Post s1 (k (list E r fate keep s1))

  pub Ensures->>= :
      {A B : Type 0} (P : E.State → A → Type 0) (Q : E.State → B → Type 0) (s : E.State)
      (p : Program A) (f : A → Program B)
      → IsStore E s
      → Ensures P s p
      → ((s' : E.State) (a : A) → Moves E K s s' → P s' a → Ensures Q s' (f a))
      → Ensures Q s (p >>= f)
  unfolding Ensures ◌>>=◌
  Ensures->>= P Q s (returning a) f g h next = next s a (Moves-refl E K s g) h
  Ensures->>= P Q s panicking f g h next = absurd h
  Ensures->>= P Q s (asking r q k) f g h next = λ s1 fate m.
      let (m', rest) = h s1 fate m in
      (
        m',
        Ensures->>= P Q (serve E r fate q s1).1 (k (serve E r fate q s1).0) f m'.store rest
            (λ s' a m''. next s' a (Moves-trans E K m (Moves-trans E K m' m''))),
      )
  Ensures->>= P Q s (listing r keep k) f g h next = λ s1 fate m.
      Ensures->>= P Q s1 (k (list E r fate keep s1)) f m.store (h s1 fate m)
        (λ s' a m'. next s' a (Moves-trans E K m m'))

  pub Ensures-weaken :
      {A : Type 0} (P Q : E.State → A → Type 0) (s : E.State) (p : Program A)
      → ((s' : E.State) (a : A) → P s' a → Q s' a)
      → Ensures P s p
      → Ensures Q s p
  unfolding Ensures
  Ensures-weaken P Q s (returning a) w h = w s a h
  Ensures-weaken P Q s panicking w h = absurd h
  Ensures-weaken P Q s (asking r q k) w h = λ s1 fate m.
      let (m', rest) = h s1 fate m in
      (m', Ensures-weaken P Q (serve E r fate q s1).1 (k (serve E r fate q s1).0) w rest)
  Ensures-weaken P Q s (listing r keep k) w h =
      λ s1 fate m. Ensures-weaken P Q s1 (k (list E r fate keep s1)) w (h s1 fate m)

  -- As Ensures-weaken, with what clients keep from an earlier store on.
  pub Ensures-moved :
      {A : Type 0} (P Q : E.State → A → Type 0) (s0 s : E.State) (p : Program A)
      → ((s' : E.State) (a : A) → Moves E K s0 s' → P s' a → Q s' a)
      → Moves E K s0 s
      → Ensures P s p
      → Ensures Q s p
  unfolding Ensures
  Ensures-moved P Q s0 s (returning a) w m0 h = w s a m0 h
  Ensures-moved P Q s0 s panicking w m0 h = absurd h
  Ensures-moved P Q s0 s (asking r q k) w m0 h = λ s1 fate m.
      let (m', rest) = h s1 fate m in
      (
        m',
        Ensures-moved P Q s0 (serve E r fate q s1).1 (k (serve E r fate q s1).0) w
            (Moves-trans E K m0 (Moves-trans E K m m')) rest,
      )
  Ensures-moved P Q s0 s (listing r keep k) w m0 h = λ s1 fate m.
      Ensures-moved P Q s0 s1 (k (list E r fate keep s1)) w (Moves-trans E K m0 m) (h s1 fate m)

  -- Each request of a run moves on the store that it meets when it is served, which other clients may
  -- have written since the program read it.
  unfoldable pub EachRequest : {A : Type 0} → (ℕ → Turn E) → ℕ → Program A → E.State → Type 0
  EachRequest turns t (returning a) s = Unit
  EachRequest turns t panicking s = Unit
  EachRequest turns t (asking r q k) s =
      let s1 = (turns t).others s in
      let out = serve E r (turns t).fate q s1 in
      Moves E K s1 out.1 × EachRequest turns (suc t) (k out.0) out.1
  EachRequest turns t (listing r keep k) s =
      let s1 = (turns t).others s in
      EachRequest turns (suc t) (k (list E r (turns t).fate keep s1)) s1

  -- What a run comes to.
  pub record Runs {A : Type 0} (Post : E.State → A → Type 0) (turns : ℕ → Turn E) (t : ℕ)
      (p : Program A) (s : E.State) : Type 0 where
    pub result : A
    pub after : E.State
    pub returns : run E turns t p s ≡ (returned result, after)
    pub moved : Moves E K s after
    pub each : EachRequest turns t p s
    pub ensured : Post after result

  pub run-Ensures :
      {A : Type 0} (Post : E.State → A → Type 0) (turns : ℕ → Turn E)
      → ((t : ℕ) (s : E.State) → IsStore E s → Moves E K s ((turns t).others s))
      → (t : ℕ) (p : Program A) (s : E.State) → IsStore E s
      → Ensures Post s p
      → Runs Post turns t p s
  unfolding Ensures EachRequest run
  run-Ensures Post turns others t (returning a) s g h = record {
    result = a;
    after = s;
    returns = refl;
    moved = Moves-refl E K s g;
    each = tt;
    ensured = h;
  }
  run-Ensures Post turns others t panicking s g h = absurd h
  run-Ensures Post turns others t (asking r q k) s g h =
      let s1 = (turns t).others s in
      let m = others t s g in
      let (m', rest) = h s1 (turns t).fate m in
      let out = serve E r (turns t).fate q s1 in
      let ran = run-Ensures Post turns others (suc t) (k out.0) out.1 m'.store rest in
      record {
        result = ran.result;
        after = ran.after;
        returns = ran.returns;
        moved = Moves-trans E K m (Moves-trans E K m' ran.moved);
        each = (m', ran.each);
        ensured = ran.ensured;
      }
  run-Ensures Post turns others t (listing r keep k) s g h =
      let s1 = (turns t).others s in
      let m = others t s g in
      let reply = list E r (turns t).fate keep s1 in
      let ran =
        run-Ensures Post turns others (suc t) (k reply) s1 m.store (h s1 (turns t).fate m) in
      record {
        result = ran.result;
        after = ran.after;
        returns = ran.returns;
        moved = Moves-trans E K m ran.moved;
        each = ran.each;
        ensured = ran.ensured;
      }

  pub Ensures-if :
      {A : Type 0} (Post : E.State → A → Type 0) (s : E.State) (b : Bool) (p q : Program A)
      → ((b ≡ true) → Ensures Post s p)
      → ((b ≡ false) → Ensures Post s q)
      → Ensures Post s (if b then p else q)
  Ensures-if Post s true p q hp hq = hp refl
  Ensures-if Post s false p q hp hq = hq refl
