-- ===== src/Ipam/Client/AutoAssign.antt =====
-- autoAssign of lib/ipam/ipam.go, once the pools and the host's blocks are known.
-- The loops of the code have no bound; here they take one, of which the theorems show that it is
-- enough: a run that came to it would panic.
pub mod Given
pub mod Loops
use zyzxlibcalico_go.Prelude.{
  ℕ, zero, suc, ◌+◌, ◌-◌, String, Bool, true, false, not, ◌&&◌, ◌||◌, Option, none, some, List, [],
  ◌∷◌, ◌++◌, length, ltb, leb, ◌==◌, if◌then◌else◌,
}
use zyzxlibcalico_go.Prelude.Dict.{Dict}
use zyzxlibcalico_go.Ipam.Address.{IpNet}
use zyzxlibcalico_go.Ipam.Pools.{IpPool, Generator, random_block_generator, next}
use zyzxlibcalico_go.Ipam.Datastore.{allocation_block, KvPair, Reply}
use zyzxlibcalico_go.Ipam.Datastore.Programs.{
  Program, returning, panicking, asking, ◌>>=◌, get_request,
}
use zyzxlibcalico_go.Ipam.ReaderWriter.{
  IpamError, no_free_blocks, block_limit, Attempt, done, failed,
}
use zyzxlibcalico_go.Ipam.Client.{datastore_retries}
use zyzxlibcalico_go.Ipam.Client.Assigning.{assign_from_existing_block}
use zyzxlibcalico_go.Ipam.Client.Blocks.{is_conflict, FoundBlock, Request, find_or_claim_block}

-- The addresses and the error; both where the limit of blocks is reached.
pub record Assigned : Type 0 where
  pub ips : List IpNet
  pub error : Option IpamError

-- What is asked for; `limit` is the maxNumBlocks that the configuration makes of the request's. A
-- negative one, with which the code has no limit, is left out; 0, which max_num_blocks never returns,
-- would be none here too.
pub record Wanted : Type 0 where
  pub num : ℕ
  pub handle : Option String
  pub attrs : Option (Dict String)
  pub strict_affinity : Bool
  pub limit : ℕ

abbrev pub is_no_free_blocks : IpamError → Bool
is_no_free_blocks no_free_blocks = true
is_no_free_blocks _ = false

abbrev pub is_block_limit : IpamError → Bool
is_block_limit block_limit = true
is_block_limit _ = false

-- What is left to do with the addresses that a block gave.
abbrev pub Rest : Type 0
Rest = List IpNet → Program Assigned

module _ (q : Request) (w : Wanted) where
  abbrev pub read_again :
      (KvPair allocation_block → Program Assigned)
      → Rest
      → Reply allocation_block
      → Program Assigned
  read_again again k (Reply.ok b) = again b
  read_again again k (Reply.fail e current) = k []

  abbrev pub tried :
      IpNet
      → (KvPair allocation_block → Program Assigned)
      → Rest
      → Attempt (List IpNet)
      → Program Assigned
  tried cidr again k (done new) = k new
  tried cidr again k (failed e) =
      if is_conflict e
      then asking allocation_block (get_request cidr) (read_again again k)
      else k []

  -- The tries on a block of the host, which is read again after a conflict.
  unfoldable pub assign_tries : ℕ → ℕ → KvPair allocation_block → Rest → Program Assigned
  assign_tries zero rem b k = k []
  assign_tries (suc n) rem b k =
      assign_from_existing_block q.name b rem w.handle w.attrs q.host w.strict_affinity
      >>= tried b.key (λ b. assign_tries n rem b k) k

  abbrev pub new_allowed : ℕ → Bool
  new_allowed owned = not (ltb 0 w.limit && leb w.limit owned)

  abbrev pub owned_with : Bool → ℕ → ℕ
  owned_with newly owned = if newly then owned + 1 else owned

  abbrev pub use_found :
      (List IpNet → ℕ → List IpNet → Program Assigned)
      → Rest
      → ℕ
      → List IpNet
      → Attempt FoundBlock
      → Program Assigned
  use_found again finish owned ips (done f) =
      assign_tries datastore_retries (w.num - length ips) f.block
        (λ new. again f.remaining (owned_with f.newly_claimed owned) (ips ++ new))
  use_found again finish owned ips (failed e) =
      if is_no_free_blocks e
      then finish ips
      else if is_block_limit e
      then returning (record { ips = ips; error = some e })
      else returning (record { ips = []; error = some e })

  -- The loop over the host's blocks and the new ones, of which `owned` are counted.
  unfoldable pub assign_affine : ℕ → Rest → List IpNet → ℕ → List IpNet → Program Assigned
  assign_affine zero finish remaining owned ips = panicking
  assign_affine (suc n) finish remaining owned ips =
      if leb w.num (length ips)
      then finish ips
      else find_or_claim_block q 1 (new_allowed owned) remaining
        >>= use_found (assign_affine n finish) finish owned ips

  abbrev pub tried_other : Program Assigned → Rest → Attempt (List IpNet) → Program Assigned
  tried_other again k (done new) = k new
  tried_other again k (failed e) = if is_conflict e then again else k []

  abbrev pub read_other : ℕ → Program Assigned → Rest → Reply allocation_block → Program Assigned
  read_other rem again k (Reply.fail e current) = k []
  read_other rem again k (Reply.ok b) =
      assign_from_existing_block q.name b rem w.handle w.attrs q.host false >>= tried_other again k

  -- The tries on any block of the pools, which need not be the host's.
  unfoldable pub other_tries : ℕ → ℕ → IpNet → Rest → Program Assigned
  other_tries zero rem cidr k = k []
  other_tries (suc n) rem cidr k =
      asking allocation_block (get_request cidr) (read_other rem (other_tries n rem cidr k) k)

  unfoldable pub assign_from_pool : ℕ → Generator → List IpNet → Rest → Program Assigned
  assign_from_pool zero g ips k = panicking
  assign_from_pool (suc n) g ips k =
      if leb w.num (length ips)
      then k ips
      else (let (block, g) = next g in
          elim block [
            | none ↦ k ips
            | some cidr ↦
                other_tries datastore_retries (w.num - length ips) cidr
                  (λ new. assign_from_pool n g (ips ++ new) k)
          ])

  abbrev pub assign_from_pool_of : IpPool → List IpNet → Rest → Program Assigned
  assign_from_pool_of pool ips k = elim pool.cidr [
    | none ↦ k ips
    | some cidr ↦
        (let g = random_block_generator pool cidr (q.initial_index pool) in
          assign_from_pool (suc g.num_blocks) g ips k)
  ]

  unfoldable pub assign_from_pools : List IpPool → Rest
  assign_from_pools [] ips = returning (record { ips = ips; error = none })
  assign_from_pools (pool ∷ pools) ips = assign_from_pool_of pool ips (assign_from_pools pools)

  -- Blocks of other hosts, unless the affinity is strict.
  abbrev pub assign_non_affine : Rest
  assign_non_affine ips =
      if not w.strict_affinity && not (w.num - length ips == 0)
      then assign_from_pools q.pools ips
      else returning (record { ips = ips; error = none })

  unfoldable pub auto_assign_from : List IpNet → Program Assigned
  auto_assign_from blocks =
      assign_affine (suc (length blocks + w.limit)) assign_non_affine blocks (length blocks) []
