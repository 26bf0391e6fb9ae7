-- ===== src/Ipam/Client/Handles/Counting.antt =====
-- incrementHandle and decrementHandle of lib/ipam/ipam.go among other clients.
use text.Mathlib.Text.{◌==◌ as str_eq}
use zyzxlibcalico_go.Prelude.{
  ℕ, zero, suc, ◌+◌, ◌<◌, ◌≡◌, refl, sym, String, false, Option, none, some, [], if◌then◌else◌,
}
use zyzxlibcalico_go.Prelude.Dict.{lookup}
use zyzxlibcalico_go.Prelude.Options.{absent}
use zyzxlibcalico_go.Ipam.Address.{IpNet}
use zyzxlibcalico_go.Ipam.Handle.{IpamHandle, Result, increment_block, decrement_block, empty}
use zyzxlibcalico_go.Ipam.Handle.Counts.{
  IsHandle, held, increment_block_lem, Decremented, decrement_block_lem,
}
use zyzxlibcalico_go.Ipam.Datastore.{ipam_handle, KvPair, Etcd, IsLawful}
use zyzxlibcalico_go.Ipam.Datastore.Moves.{
  Kept, IsStore, Moves, Moves-refl, Moves-trans, Known, Known-read,
}
use zyzxlibcalico_go.Ipam.Datastore.Programs.{Program}
use zyzxlibcalico_go.Ipam.Datastore.Programs.Logic.{Ensures, Ensures-if}
use zyzxlibcalico_go.Ipam.Datastore.Programs.Rules.{
  Ensures-get, Ensures-create_here, Ensures-update_here, Ensures-update, Ensures-delete,
}
use zyzxlibcalico_go.Ipam.ReaderWriter.{
  Attempt, done, failed, is_does_not_exist, is_update_conflict,
}
use zyzxlibcalico_go.Ipam.Client.Handles.{
  new_handle, unless_written, write_handle, incremented_pair, handle_to_increment, increment_tries,
  increment_handle, unless_deleted, unless_updated, write_decremented, handle_to_decrement,
  decrement_tries, decrement_handle,
}

abbrev held_of : Option (IpamHandle × ℕ) → String → ℕ
held_of none block = 0
held_of (some (h, n)) block = held h block

module _ (E : Etcd) (K : Kept) where
  -- How many addresses of the block the stored handle has.
  abbrev pub held_at : E.State → String → String → ℕ
  held_at s id block = held_of (E.get (ipam_handle, id) s) block

  -- One write changed the handle's number for the block, and no other number of it, from what it was in
  -- the very store that was written to.
  pub record Counted (id block : String) (num : ℕ → ℕ) (s s' : E.State) : Type 0 where
    pub before : E.State
    pub until : Moves E K s before
    pub written : Moves E K before s'
    pub handle : IpamHandle
    pub one_write : s' ≡ E.put (ipam_handle, id) handle before
    pub numbers :
        (j : String)
        → held_at s' id j
          ≡ (if str_eq block j then num (held_at before id block) else held_at before id j)

  abbrev pub Incremented : String → String → ℕ → E.State → E.State → Attempt (Unit {0}) → Type 0
  Incremented id block num s s' (done u) = Counted id block (λ n. n + num) s s'
  Incremented id block num s s' (failed e) = Unit

no_addresses-IsHandle :
    {id : String} → IsHandle (record { handle_id = id; block = []; deleted = false })
unfolding lookup
no_addresses-IsHandle = record { positive = λ i n e. absent e }

module _ (E : Etcd) (K : Kept) (lawful : IsLawful E) (id block : String) (num : ℕ)
    (pos : 0 < num) where
  module _ (again : Program (Attempt (Unit {0}))) (s0 : E.State)
      (retried : (s : E.State)
        → Moves E K s0 s
        → Ensures E K (Incremented E K id block num s0) s again) where
    write_handle_lem :
        (h : IpamHandle) (rev : Option ℕ) (s : E.State)
        → Moves E K s0 s
        → Known E K s {r = ipam_handle} (record { key = id; value = h; revision = rev })
        → Ensures E K (Incremented E K id block num s0) s (
            write_handle again rev
              (incremented_pair block num (record { key = id; value = h; revision = rev })))
    unfolding Ensures
    write_handle_lem h none s m0 k = absent k.revised
    write_handle_lem h (some rev) s m0 k =
        let (good, returned, numbers) = increment_block_lem block num h k.good pos in
        Ensures-update_here E K lawful (Incremented E K id block num s0) ipam_handle id
          (unless_written again) (increment_block block num h).1 s (some rev) k.rev k.revised
          k.positive good (λ s1 old m at. tt) (λ s1 e2 current m. retried s1 (Moves-trans E K m0 m))
          (λ s1 old at m m2 at2. record {
            before = s1;
            until = Moves-trans E K m0 m;
            written = m2;
            handle = (increment_block block num h).1;
            one_write = refl;
            numbers = λ j. rw (at2, at, sym (k.current s1 old m at)) (numbers j);
          })

    create_handle_lem :
        (s : E.State)
        → Moves E K s0 s
        → Ensures E K
            (Incremented E K id block num s0)
            s
            (write_handle again none (incremented_pair block num (new_handle id)))
    unfolding Ensures lookup
    create_handle_lem s m0 =
        let (good, returned, numbers) =
          increment_block_lem block num (new_handle id).value no_addresses-IsHandle pos in
        Ensures-create_here E K lawful (Incremented E K id block num s0) ipam_handle id
          (unless_written again) (increment_block block num (new_handle id).value).1 s good
          (λ s1 e2 current m. retried s1 (Moves-trans E K m0 m))
          (λ s1 missing m m2 at2. record {
            before = s1;
            until = Moves-trans E K m0 m;
            written = m2;
            handle = (increment_block block num (new_handle id).value).1;
            one_write = refl;
            numbers = λ j. rw (at2, missing) (numbers j);
          })

  increment_tries_lem :
      (n : ℕ) (s0 s : E.State)
      → Moves E K s0 s
      → Ensures E K (Incremented E K id block num s0) s (increment_tries n id block num)
  unfolding increment_tries Ensures
  increment_tries_lem zero s0 s m0 = tt
  increment_tries_lem (suc n) s0 s m0 =
      let again = increment_tries n id block num in
      Ensures-get E K lawful (Incremented E K id block num s0) ipam_handle id
        (handle_to_increment id block num again) s
        (λ s1 e current m.
          Ensures-if E K (Incremented E K id block num s0) s1 (is_does_not_exist e) _ _
            (λ c. create_handle_lem again s0 (increment_tries_lem n s0) s1 (Moves-trans E K m0 m))
            (λ c. tt))
        (λ s1 h rev m at.
          write_handle_lem again s0 (increment_tries_lem n s0) h (some rev) s1
            (Moves-trans E K m0 m) (Known-read E K s1 ipam_handle id h rev m.store at))

module _ (E : Etcd) (K : Kept) (lawful : IsLawful E) (id block : String) (num : ℕ) where
  write_decremented_lem :
      (again : Program (Attempt (Unit {0}))) (obj : KvPair ipam_handle) (out : Result) (s : E.State)
      → ((s' : E.State) → Moves E K s s' → Ensures E K (λ s r. Unit {0}) s' again)
      → Known E K s obj
      → Decremented block num obj.value out
      → Ensures E K (λ s r. Unit {0}) s (write_decremented again obj out)
  unfolding Ensures
  write_decremented_lem again obj (Result.failed e) s retried k d = tt
  write_decremented_lem again obj (Result.done n h) s retried k d =
      Ensures-if E K P s (empty h) _ _
        (λ c.
          Ensures-delete E K lawful P ipam_handle obj.key (unless_deleted again) h s obj.revision
            k.rev k.revised k.positive (λ s1 old m at. tt)
            (λ s1 e current m.
              Ensures-if E K P s1 (is_update_conflict e) _ _ (λ c. retried s1 m)
                (λ c. Ensures-if E K P s1 (is_does_not_exist e) _ _ (λ c. tt) (λ c. tt)))
            (λ s1 old m at s2 m2 at2. tt))
        (λ c.
          Ensures-update E K lawful P ipam_handle obj.key (unless_updated again) h s obj.revision
            k.rev k.revised k.positive d.0 (λ s1 old m at. tt)
            (λ s1 e current m.
              Ensures-if E K P s1 (is_update_conflict e) _ _ (λ c. retried s1 m) (λ c. tt))
            (λ s1 old at m s2 m2 at2. tt))
    where
      P : E.State → Attempt (Unit {0}) → Type 0
      P s r = Unit

  decrement_tries_lem :
      (n : ℕ) (s : E.State)
      → IsStore E s
      → Ensures E K (λ s r. Unit {0}) s (decrement_tries n id block num)
  unfolding decrement_tries Ensures
  decrement_tries_lem zero s g = tt
  decrement_tries_lem (suc n) s g =
      let again = decrement_tries n id block num in
      Ensures-get E K lawful (λ s r. Unit {0}) ipam_handle id (handle_to_decrement block num again)
        s (λ s1 e current m. tt)
        (λ s1 h rev m at.
          let k = Known-read E K s1 ipam_handle id h rev m.store at in
          write_decremented_lem again _ (decrement_block block num h) s1
            (λ s' m'. decrement_tries_lem n s' m'.store) k (decrement_block_lem block num h k.good))

-- incrementHandle either returns an error, or one write of it added the number to the handle's number
-- for the block, and changed no other; it ends after a hundred tries.
pub increment_handle_lem :
    (E : Etcd) (K : Kept) (lawful : IsLawful E) (name : IpNet → String) (id : String) (cidr : IpNet)
    (num : ℕ) (s : E.State)
    → IsStore E s
    → 0 < num
    → Ensures E K (Incremented E K id (name cidr) num s) s (increment_handle name id cidr num)
unfolding increment_handle
increment_handle_lem E K lawful name id cidr num s g pos =
    increment_tries_lem E K lawful id (name cidr) num pos 100 s s (Moves-refl E K s g)

pub decrement_handle_lem :
    (E : Etcd) (K : Kept) (lawful : IsLawful E) (name : IpNet → String) (id : String) (cidr : IpNet)
    (num : ℕ) (s : E.State)
    → IsStore E s
    → Ensures E K (λ s' r. Unit {0}) s (decrement_handle name id cidr num none)
unfolding decrement_handle
decrement_handle_lem E K lawful name id cidr num s g =
    decrement_tries_lem E K lawful id (name cidr) num 100 s g
