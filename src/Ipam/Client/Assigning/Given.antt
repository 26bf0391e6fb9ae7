-- ===== src/Ipam/Client/Assigning/Given.antt =====
-- The addresses that assignFromExistingBlock of lib/ipam/ipam.go returns, among other clients.
use mathlib.Core.Option
use mathlib.Core.Path.{subst}
use zyzxlibcalico_go.Prelude.{
  ℕ, zero, suc, ◌≤◌, ◌<◌, ◌≡◌, refl, sym, ◌∙◌, ap, String, Bool, true, false, Option, none, some,
  List, [], ◌∷◌, map, length, length-map, length-take, count, take, get_elem?, arith,
}
use zyzxlibcalico_go.Prelude.Dict.{Dict}
use zyzxlibcalico_go.Prelude.Options.{absent}
use zyzxlibcalico_go.Ipam.Address.{IpNet}
use zyzxlibcalico_go.Ipam.Block.{
  AllocationBlock, AllocationAttribute, Outcome, ok, auto_assign, check_affinity,
}
use zyzxlibcalico_go.Ipam.Block.Invariant.{IsBlock, handle_at, attributes_of, one_if_free}
use zyzxlibcalico_go.Ipam.Block.Assigning.{auto_assign_lem, ip_net_at}
use zyzxlibcalico_go.Ipam.Datastore.{allocation_block, KvPair, Etcd, IsLawful}
use zyzxlibcalico_go.Ipam.Datastore.Moves.{
  Kept, IsStore, Moves, Moves-trans, Known, KeepsUsed, Used, Used-handle,
}
use zyzxlibcalico_go.Ipam.Datastore.Programs.{asking, update_request, ◌>>=◌}
use zyzxlibcalico_go.Ipam.Datastore.Programs.Logic.{Ensures, Ensures-weaken, Ensures->>=}
use zyzxlibcalico_go.Ipam.Datastore.Programs.Rules.{Ensures-update}
use zyzxlibcalico_go.Ipam.ReaderWriter.{Attempt}
use zyzxlibcalico_go.Ipam.ReaderWriter.Claiming.{OnDone}
use zyzxlibcalico_go.Ipam.Client.Handles.Counting.{
  Incremented, increment_handle_lem, decrement_handle_lem,
}
use zyzxlibcalico_go.Ipam.Client.Handles.{increment_handle}
use zyzxlibcalico_go.Ipam.Client.Assigning.{
  increment_if, decrement_if, written_block, write_assigned, assign_from_existing_block,
}

count-take : (num : ℕ) (us : List ℕ) (j : ℕ) → count j (take num us) ≤ count j us
count-take zero us j = omega arith
count-take (suc num) [] j = omega arith
count-take (suc num) (u ∷ us) j = ground (arith, count-take num us j)

-- An ordinal that is unallocated has no handle.
unallocated_free :
    (b : AllocationBlock) (o : ℕ) → IsBlock b → 1 ≤ count o b.unallocated → handle_at b o ≡ none
unallocated_free b o v h = go (get_elem? b.allocations o) (v.counted o)
  where
    go :
        (a : Option (Option ℕ))
        → count o b.unallocated ≡ one_if_free a
        → Option.map (λ (a : AllocationAttribute). a.attr_primary) (attributes_of b.attributes a)
          ≡ none
    go none c = refl
    go (some none) c = refl
    go (some (some i)) c = absurd (omega (arith, c, h))

pub check_affinity-panic :
    (check : Bool) (host : String) (a : Option String)
    → check_affinity check host a ≡ Outcome.panic
    → ⊥
check_affinity-panic true host none c = cc
check_affinity-panic false host none c = cc
check_affinity-panic check host (some a) c = ground arith

module _ (E : Etcd) (K : Kept) where
  -- The address is used in the store with the handle, and was no kept one in the store of before.
  abbrev pub Given : E.State → E.State → Option String → IpNet → Type 0
  Given s0 s handle ip =
      (c : IpNet) × (o : ℕ) × (ip ≡ ip_net_at c o)
      × Used E s c o handle
      × ((h : Option String) → K.Keeps c o h → Used E s0 c o h → ⊥)

  abbrev pub AllGiven : E.State → E.State → Option String → List IpNet → Type 0
  AllGiven s0 s handle [] = Unit
  AllGiven s0 s handle (ip ∷ ips) = Given s0 s handle ip × AllGiven s0 s handle ips

  -- The addresses were no kept ones even earlier, and stay given if those of the handle are kept.
  pub AllGiven-Moves :
      {s0 s1 s s' : E.State} (handle : Option String)
      → ((c : IpNet) (o : ℕ) → K.Keeps c o handle)
      → Moves E K s0 s1
      → Moves E K s s'
      → (ips : List IpNet) → AllGiven s1 s handle ips
      → AllGiven s0 s' handle ips
  AllGiven-Moves handle plain m m' [] g = tt
  AllGiven-Moves handle plain m m' (ip ∷ ips) ((c, o, e, used, free), rest) = (
    (c, o, e, m'.used c o handle (plain c o) used, λ h r u. free h r (m.used c o h r u)),
    AllGiven-Moves handle plain m m' ips rest,
  )

  given_all :
      (s0 s : E.State) (handle : Option String) (c : IpNet) (os : List ℕ)
      → ((o : ℕ) → 1 ≤ count o os → Used E s c o handle)
      → ((o : ℕ) → 1 ≤ count o os → (h : Option String) → K.Keeps c o h → Used E s0 c o h → ⊥)
      → AllGiven s0 s handle (map (ip_net_at c) os)
  given_all s0 s handle c [] used free = tt
  given_all s0 s handle c (o ∷ os) used free = (
    (c, o, refl, used o (ground arith), free o (ground arith)),
    given_all s0 s handle c os (λ p h. used p (ground (arith, h)))
        (λ p h. free p (ground (arith, h))),
  )

module _ (E : Etcd) (K : Kept) (lawful : IsLawful E) (name : IpNet → String) where
  pub increment_if_lem :
      (handle : Option String) (cidr : IpNet) (num : ℕ) (s : E.State)
      → IsStore E s
      → 0 < num
      → Ensures E K (λ s' r. Unit {0}) s (increment_if name handle cidr num)
  unfolding Ensures
  increment_if_lem none cidr num s g pos = tt
  increment_if_lem (some id) cidr num s g pos =
      Ensures-weaken E K (Incremented E K id (name cidr) num s) (λ s' r. Unit {0}) s
        (increment_handle name id cidr num) (λ s' r i. tt)
        (increment_handle_lem E K lawful name id cidr num s g pos)

  pub decrement_if_lem :
      (handle : Option String) (cidr : IpNet) (num : ℕ) (s : E.State)
      → IsStore E s
      → Ensures E K (λ s' r. Unit {0}) s (decrement_if name handle cidr num)
  unfolding Ensures
  decrement_if_lem none cidr num s g = tt
  decrement_if_lem (some id) cidr num s g = decrement_handle_lem E K lawful name id cidr num s g

  module _ (s0 : E.State) (obj : KvPair allocation_block) (num : ℕ) (handle : Option String) where
    abbrev Assigns : E.State → Attempt (List IpNet) → Type 0
    Assigns = OnDone E K (λ s ips. AllGiven E K s0 s handle ips × (length ips ≤ num))

    -- What autoAssign makes of the block that was read.
    record Taken (ips : List IpNet) (b : AllocationBlock) : Type 0 where
      os : List ℕ
      few : length os ≤ num
      returned : ips ≡ map (ip_net_at obj.key) os
      free : (o : ℕ) → 1 ≤ count o os → handle_at obj.value o ≡ none
      taken : (o : ℕ) → 1 ≤ count o os → handle_at b o ≡ some handle
      kept : KeepsUsed K obj.key obj.value (handle_at b)
      valid : IsBlock b
      same : b.cidr ≡ obj.key

    write_assigned_lem :
        (ips : List IpNet) (b : AllocationBlock) (s : E.State)
        → Moves E K s0 s
        → Known E K s obj
        → 0 < num
        → Taken ips b
        → Ensures E K Assigns s (
            increment_if name handle obj.key num >>= λ r.
            asking allocation_block
              (update_request (record obj { value = b }))
              (written_block name handle obj.key num ips))
    unfolding Ensures
    write_assigned_lem ips b s m0 k pos t =
        Ensures->>= E K (λ s' r. Unit {0}) Assigns s (increment_if name handle obj.key num) _
          m0.store (increment_if_lem handle obj.key num s m0.store pos)
          (λ s1 r m1 u.
            Ensures-update E K lawful Assigns allocation_block obj.key
              (written_block name handle obj.key num ips) b s1 obj.revision k.rev k.revised
              k.positive (t.valid, t.same)
              (λ s2 old m2 at.
                subst (λ old. KeepsUsed K obj.key old (handle_at b))
                  (k.current s2 old (Moves-trans E K m1 m2) at) t.kept)
              (λ s2 e current m2.
                Ensures->>= E K (λ s' r. Unit {0}) Assigns s2 (decrement_if name handle obj.key num)
                  _ m2.store (decrement_if_lem handle obj.key num s2 m2.store) (λ s3 r m3 u. tt))
              (λ s2 old at m2 s3 m3 at3. rw t.returned (
                given_all E K s0 s3 handle obj.key t.os
                    (λ o h. (b, E.revision s3, at3, t.taken o h))
                    (λ o h hd plain u.
                      let was_used =
                        (Moves-trans E K m0 (Moves-trans E K m1 m2)).used obj.key o hd plain u in
                      absent (
                        sym (t.free o h)
                        ∙ (ap (λ b. handle_at b o) (k.current s2 old (Moves-trans E K m1 m2) at)
                            ∙ Used-handle E s2 obj.key o hd old k.rev at was_used))),
                omega (arith, t.few, length-map t.os (ip_net_at obj.key)),
              )))

    auto_assign-Taken :
        (host : String) (attrs : Option (Dict String)) (check : Bool)
        → IsBlock obj.value
        → obj.value.cidr ≡ obj.key
        → check_affinity check host obj.value.affinity ≡ ok tt
        → (b : AllocationBlock) × (ips : List IpNet) × (auto_assign num handle host attrs check
              obj.value
            ≡ ok (ips, b))
          × Taken ips b
    auto_assign-Taken host attrs check v same passes =
        let os = take num obj.value.unallocated in
        let (b, returns, valid, left, handles, cidr) =
          auto_assign_lem num handle host attrs check obj.value v passes in
        let is_free : (o : ℕ) → 1 ≤ count o os → handle_at obj.value o ≡ none = λ o h.
          unallocated_free obj.value o v
            (omega (arith, count-take num obj.value.unallocated o, h)) in
        (
          b,
          map (ip_net_at obj.value.cidr) os,
          returns,
          record {
            os = os;
            few = omega (arith, length-take num obj.value.unallocated);
            returned = ap (λ c. map (ip_net_at c) os) same;
            free = is_free;
            taken = λ o h. ground (arith, handles o);
            kept = λ o h plain used. ground (arith, handles o, is_free o);
            valid = valid;
            same = cidr ∙ same;
          },
        )

    -- assignFromExistingBlock, on a block as it was read, returns an error, or addresses that its
    -- handle has in the store, and that were no kept ones when it started, and no more of them than
    -- asked for, whatever other clients do.
    pub assign_from_existing_block_lem :
        (attrs : Option (Dict String)) (host : String) (check : Bool) (s : E.State)
        → Moves E K s0 s
        → Known E K s obj
        → 0 < num
        → Ensures E K Assigns s (assign_from_existing_block name obj num handle attrs host check)
    unfolding assign_from_existing_block Ensures auto_assign
    assign_from_existing_block_lem attrs host check s m0 k pos =
        go (check_affinity check host obj.value.affinity) refl
      where
        go :
            (c : Outcome (Unit {0}))
            → check_affinity check host obj.value.affinity ≡ c
            → Ensures E K Assigns s
                (assign_from_existing_block name obj num handle attrs host check)
        go (Outcome.err e) c = rw c tt
        go Outcome.panic c = absurd (check_affinity-panic check host obj.value.affinity c)
        go (Outcome.ok u) c =
            let (b, ips, returns, t) = auto_assign-Taken host attrs check k.good.0 k.good.1 c in
            rw returns (write ips b t)
          where
            write :
                (ips : List IpNet) (b : AllocationBlock)
                → Taken ips b
                → Ensures E K Assigns s (write_assigned name handle num obj (Outcome.ok (ips, b)))
            write [] b t = (tt, omega arith)
            write (ip ∷ ips) b t = write_assigned_lem (ip ∷ ips) b s m0 k pos t
