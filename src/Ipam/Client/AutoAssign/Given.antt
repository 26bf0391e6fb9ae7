-- ===== src/Ipam/Client/AutoAssign/Given.antt =====
-- What autoAssign of lib/ipam/ipam.go returns, among other clients.
use zyzxlibcalico_go.Prelude.{
  ℕ, zero, suc, ◌-◌, ◌≤◌, ◌<◌, ◌≡◌, false, Option, none, some, List, [], ◌∷◌, ◌++◌, length,
  length-append, leb, arith,
}
use zyzxlibcalico_go.Ipam.Address.{IpNet}
use zyzxlibcalico_go.Ipam.Pools.{Generator, next}
use zyzxlibcalico_go.Ipam.Pools.Walk.{Steps, next-Steps}
use zyzxlibcalico_go.Ipam.Datastore.{allocation_block, KvPair, Etcd, IsLawful}
use zyzxlibcalico_go.Ipam.Datastore.Moves.{
  Kept, IsStore, Moves, Moves-refl, Moves-trans, Known, Known-read,
}
use zyzxlibcalico_go.Ipam.Datastore.Programs.{Program}
use zyzxlibcalico_go.Ipam.Datastore.Programs.Logic.{Ensures, Ensures->>=, Ensures-if}
use zyzxlibcalico_go.Ipam.Datastore.Programs.Rules.{Ensures-get}
use zyzxlibcalico_go.Ipam.ReaderWriter.{Attempt, done, failed}
use zyzxlibcalico_go.Ipam.ReaderWriter.Claiming.{OnDone}
use zyzxlibcalico_go.Ipam.Client.Assigning.{assign_from_existing_block}
use zyzxlibcalico_go.Ipam.Client.Assigning.Given.{
  AllGiven, AllGiven-Moves, assign_from_existing_block_lem,
}
use zyzxlibcalico_go.Ipam.Client.Blocks.{is_conflict, Request}
use zyzxlibcalico_go.Ipam.Client.AutoAssign.{
  Assigned, Wanted, Rest, read_again, tried, assign_tries, tried_other, read_other, other_tries,
  assign_from_pool,
}

module _ (E : Etcd) (K : Kept) (lawful : IsLawful E) (q : Request) (w : Wanted)
    (plain : (c : IpNet) (o : ℕ) → K.Keeps c o w.handle) (s0 : E.State) where
  -- The addresses are the handle's, were free at the start, and are no more than asked for.
  abbrev pub Fine : E.State → List IpNet → Type 0
  Fine s ips = AllGiven E K s0 s w.handle ips × (length ips ≤ w.num)

  abbrev pub Post : E.State → Assigned → Type 0
  Post s r = Fine s r.ips

  AllGiven-append :
      (s : E.State) (ips new : List IpNet)
      → AllGiven E K s0 s w.handle ips
      → AllGiven E K s0 s w.handle new
      → AllGiven E K s0 s w.handle (ips ++ new)
  AllGiven-append s [] new g h = h
  AllGiven-append s (ip ∷ ips) new (g, gs) h = (g, AllGiven-append s ips new gs h)

  pub Fine-Moves :
      {s s' : E.State} (ips : List IpNet) → IsStore E s0 → Moves E K s s' → Fine s ips → Fine s' ips
  Fine-Moves ips g m (given, few) =
      (AllGiven-Moves E K w.handle plain (Moves-refl E K s0 g) m ips given, few)

  module _ (t : E.State) (m0 : Moves E K s0 t) where
    -- The rest of the program is fine with what the block gave.
    abbrev Ready : ℕ → Rest → Type 0
    Ready rem k =
        (s : E.State) (new : List IpNet)
        → Moves E K t s
        → AllGiven E K s0 s w.handle new
        → length new ≤ rem
        → Ensures E K Post s (k new)

    tried_lem :
        (rem : ℕ) (cidr : IpNet) (again : KvPair allocation_block → Program Assigned) (k : Rest)
        → ((s : E.State) (b : KvPair allocation_block)
            → Moves E K t s
            → Known E K s b
            → Ensures E K Post s (again b))
        → Ready rem k
        → (s : E.State) (r : Attempt (List IpNet)) → Moves E K t s
        → OnDone E K (λ s ips. AllGiven E K s0 s w.handle ips × (length ips ≤ rem)) s r
        → Ensures E K Post s (tried q w cidr again k r)
    tried_lem rem cidr again k retries ready s (done new) m (given, few) = ready s new m given few
    tried_lem rem cidr again k retries ready s (failed e) m u =
        Ensures-if E K Post s (is_conflict e) _ _
          (λ c.
            Ensures-get E K lawful Post allocation_block cidr (read_again q w again k) s
              (λ s1 e1 current m1. ready s1 [] (Moves-trans E K m m1) tt (omega arith))
              (λ s1 b n m1 at.
                retries s1 _ (Moves-trans E K m m1)
                  (Known-read E K s1 allocation_block cidr b n m1.store at)))
          (λ c. ready s [] m tt (omega arith))

    pub assign_tries_lem :
        (n rem : ℕ) (k : Rest)
        → 0 < rem
        → Ready rem k
        → (s : E.State) (b : KvPair allocation_block) → Moves E K t s
        → Known E K s b
        → Ensures E K Post s (assign_tries q w n rem b k)
    unfolding assign_tries
    assign_tries_lem zero rem k pos ready s b m kn = ready s [] m tt (omega arith)
    assign_tries_lem (suc n) rem k pos ready s b m kn =
        Ensures->>= E K (OnDone E K (λ s ips. AllGiven E K s0 s w.handle ips × (length ips ≤ rem)))
          Post s (assign_from_existing_block q.name b rem w.handle w.attrs q.host w.strict_affinity)
          (tried q w b.key (λ b. assign_tries q w n rem b k) k) m.store
          (assign_from_existing_block_lem E K lawful q.name s0 b rem w.handle w.attrs q.host
            w.strict_affinity s (Moves-trans E K m0 m) kn pos)
          (λ s1 r m1.
            tried_lem rem b.key _ k (assign_tries_lem n rem k pos ready) ready s1 r
              (Moves-trans E K m m1))

    tried_other_lem :
        (rem : ℕ) (again : Program Assigned) (k : Rest)
        → ((s : E.State) → Moves E K t s → Ensures E K Post s again)
        → Ready rem k
        → (s : E.State) (r : Attempt (List IpNet)) → Moves E K t s
        → OnDone E K (λ s ips. AllGiven E K s0 s w.handle ips × (length ips ≤ rem)) s r
        → Ensures E K Post s (tried_other q w again k r)
    tried_other_lem rem again k retries ready s (done new) m (given, few) = ready s new m given few
    tried_other_lem rem again k retries ready s (failed e) m u =
        Ensures-if E K Post s (is_conflict e) _ _ (λ c. retries s m)
          (λ c. ready s [] m tt (omega arith))

    other_tries_lem :
        (n rem : ℕ) (cidr : IpNet) (k : Rest)
        → 0 < rem
        → Ready rem k
        → (s : E.State) → Moves E K t s
        → Ensures E K Post s (other_tries q w n rem cidr k)
    unfolding other_tries
    other_tries_lem zero rem cidr k pos ready s m = ready s [] m tt (omega arith)
    other_tries_lem (suc n) rem cidr k pos ready s m =
        let again = other_tries q w n rem cidr k in
        Ensures-get E K lawful Post allocation_block cidr (read_other q w rem again k) s
          (λ s1 e current m1. ready s1 [] (Moves-trans E K m m1) tt (omega arith))
          (λ s1 b rev m1 at.
            Ensures->>= E K
              (OnDone E K (λ s ips. AllGiven E K s0 s w.handle ips × (length ips ≤ rem))) Post s1
              (assign_from_existing_block q.name _ rem w.handle w.attrs q.host false)
              (tried_other q w again k) m1.store
              (assign_from_existing_block_lem E K lawful q.name s0 _ rem w.handle w.attrs q.host
                false s1 (Moves-trans E K m0 (Moves-trans E K m m1))
                (Known-read E K s1 allocation_block cidr b rev m1.store at) pos)
              (λ s2 r m2.
                tried_other_lem rem again k (other_tries_lem n rem cidr k pos ready) ready s2 r
                  (Moves-trans E K m (Moves-trans E K m1 m2))))

  -- More addresses, which fit into what is left.
  pub more :
      (g : IsStore E s0) (s s' : E.State) (ips new : List IpNet)
      → Moves E K s s'
      → Fine s ips
      → AllGiven E K s0 s' w.handle new
      → length new ≤ w.num - length ips
      → Fine s' (ips ++ new)
  more g s s' ips new m fine given few = (
    AllGiven-append s' ips new (Fine-Moves ips g m fine).0 given,
    omega (arith, length-append ips new, few, fine.1),
  )

  -- What goes on with the addresses is fine if they are.
  abbrev pub Goes : Rest → Type 0
  Goes k =
      (s : E.State) (ips : List IpNet) → Moves E K s0 s → Fine s ips → Ensures E K Post s (k ips)

  use_next_lem :
      (n : ℕ) (g : Generator) (ips : List IpNet) (k : Rest)
      → IsStore E s0
      → g.num_blocks - g.num_returned < suc n
      → leb w.num (length ips) ≡ false
      → Goes k
      → ((g' : Generator) (ips' : List IpNet)
          → g'.num_blocks - g'.num_returned < n
          → (s : E.State) → Moves E K s0 s
          → Fine s ips'
          → Ensures E K Post s (assign_from_pool q w n g' ips' k))
      → (r : Option IpNet × Generator) → Steps g r
      → (s : E.State) → Moves E K s0 s
      → Fine s ips
      → Ensures E K Post s (elim r.0 [
        | none ↦ k ips
        | some cidr ↦
            other_tries q w 100
              (w.num - length ips)
              cidr
              (λ new. assign_from_pool q w n r.1 (ips ++ new) k)
      ])
  use_next_lem n g ips k st enough short goes again (none, g') steps s m fine = goes s ips m fine
  use_next_lem n g ips k st enough short goes again (some cidr, g') (lt, same, counted) s m fine =
      other_tries_lem s m 100 (w.num - length ips) cidr
        (λ new. assign_from_pool q w n g' (ips ++ new) k) (ground (arith, short))
        (λ s1 new m1 given few.
          again g' (ips ++ new) (omega (arith, enough, lt, same, counted)) s1 (Moves-trans E K m m1)
            (more st s s1 ips new m1 fine given few))
        s (Moves-refl E K s m.store)

  pub assign_from_pool_lem :
      (n : ℕ) (g : Generator) (ips : List IpNet) (k : Rest)
      → IsStore E s0
      → g.num_blocks - g.num_returned < n
      → Goes k
      → (s : E.State) → Moves E K s0 s
      → Fine s ips
      → Ensures E K Post s (assign_from_pool q w n g ips k)
  unfolding assign_from_pool
  assign_from_pool_lem zero g ips k st enough goes s m fine = absurd (omega (arith, enough))
  assign_from_pool_lem (suc n) g ips k st enough goes s m fine =
      Ensures-if E K Post s (leb w.num (length ips)) _ _ (λ all. goes s ips m fine)
        (λ short.
          use_next_lem n g ips k st enough short goes
            (λ g' ips' lt. assign_from_pool_lem n g' ips' k st lt goes) (next g) (next-Steps g) s m
            fine)
