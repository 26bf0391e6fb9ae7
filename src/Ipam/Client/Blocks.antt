-- ===== src/Ipam/Client/Blocks.antt =====
-- getBlockFromAffinity and findOrClaimBlock of lib/ipam/ipam.go.
pub mod Gotten
pub mod Claimed
use text.Mathlib.Text.{◌==◌ as str_eq}
use zyzxlibcalico_go.Prelude.{
  ℕ, zero, suc, String, Bool, true, false, Option, none, some, List, [], ◌∷◌, leb, if◌then◌else◌,
}
use zyzxlibcalico_go.Ipam.Address.{IpNet}
use zyzxlibcalico_go.Ipam.Block.{HostReservedAttr}
use zyzxlibcalico_go.Ipam.Block.Queries.{num_free_addresses}
use zyzxlibcalico_go.Ipam.Pools.{IpPool}
use zyzxlibcalico_go.Ipam.Datastore.{
  block_affinity, allocation_block, BlockAffinityState, pending, confirmed, pending_deletion, unset,
  IpamConfig, KvPair, Reply, StoreError,
}
use zyzxlibcalico_go.Ipam.Datastore.Programs.{
  Program, returning, asking, ◌>>=◌, get_request, update_request, delete_request,
}
use zyzxlibcalico_go.Ipam.ReaderWriter.{
  IpamError, store_error, block_claim_conflict, stale_affinity, max_retries, block_limit,
  no_free_blocks, too_few_free, Attempt, done, failed, is_does_not_exist, is_update_conflict,
  has_affinity, reply_result, get_pending_affinity, claim_affine_block,
}
use zyzxlibcalico_go.Ipam.ReaderWriter.Searching.{find_unclaimed_block}
use zyzxlibcalico_go.Ipam.Client.{datastore_retries}
use zyzxlibcalico_go.Ipam.Client.Config.{get_ipam_config}

-- A state that needs no confirming; the empty one is older data.
abbrev pub is_settled : BlockAffinityState → Bool
is_settled confirmed = true
is_settled unset = true
is_settled _ = false

-- An ErrorResourceUpdateConflict.
abbrev pub is_conflict : IpamError → Bool
is_conflict (store_error e) = is_update_conflict e
is_conflict _ = false

-- The block is another host's, or the affinity is stale.
abbrev pub is_lost : IpamError → Bool
is_lost (block_claim_conflict b) = true
is_lost (stale_affinity b) = true
is_lost _ = false

module _ (windows : Bool) (rsvd : Option HostReservedAttr) where
  -- The configuration is read, and an error of it returned, but claimAffineBlock does not use it.
  abbrev pub claim_with :
      KvPair block_affinity → Attempt IpamConfig → Program (Attempt (KvPair allocation_block))
  claim_with aff (failed e) = returning (failed e)
  claim_with aff (done cfg) = claim_affine_block aff rsvd

  abbrev pub claim_pending : Reply block_affinity → Program (Attempt (KvPair allocation_block))
  claim_pending (Reply.fail e current) = returning (failed (store_error e))
  claim_pending (Reply.ok aff) = get_ipam_config windows >>= claim_with aff

  abbrev pub confirmed_again :
      KvPair allocation_block → Reply block_affinity → Program (Attempt (KvPair allocation_block))
  confirmed_again b (Reply.ok aff) = returning (done b)
  confirmed_again b (Reply.fail e current) = returning (failed (store_error e))

  abbrev pub rewritten :
      KvPair block_affinity → Reply allocation_block → Program (Attempt (KvPair allocation_block))
  rewritten aff (Reply.fail e current) = returning (failed (store_error e))
  rewritten aff (Reply.ok b) =
      asking block_affinity (update_request (record aff { value = confirmed })) (confirmed_again b)

  -- The block is written again for a new revision.
  abbrev pub rewrite :
      KvPair allocation_block → Reply block_affinity → Program (Attempt (KvPair allocation_block))
  rewrite b (Reply.fail e current) = returning (failed (store_error e))
  rewrite b (Reply.ok aff) = asking allocation_block (update_request b) (rewritten aff)

  abbrev pub stale_deleted :
      KvPair allocation_block → Reply block_affinity → Program (Attempt (KvPair allocation_block))
  stale_deleted b (Reply.ok kvp) = returning (failed (stale_affinity b.value))
  stale_deleted b (Reply.fail e current) = returning (failed (store_error e))

  abbrev pub block_of_affinity :
      KvPair block_affinity → Reply allocation_block → Program (Attempt (KvPair allocation_block))
  block_of_affinity aff (Reply.fail e current) =
      if is_does_not_exist e
      then asking block_affinity (update_request (record aff { value = pending })) claim_pending
      else returning (failed (store_error e))
  block_of_affinity aff (Reply.ok b) =
      if has_affinity aff.key.0 b.value.affinity
      then if is_settled aff.value
        then returning (done b)
        else asking block_affinity (update_request (record aff { value = pending })) (rewrite b)
      else asking block_affinity (delete_request aff) (stale_deleted b)

  unfoldable pub get_block_from_affinity :
      KvPair block_affinity → Program (Attempt (KvPair allocation_block))
  get_block_from_affinity aff =
      asking allocation_block (get_request aff.key.1) (block_of_affinity aff)

-- What findOrClaimBlock returns, with the affine blocks that remain.
pub record FoundBlock : Type 0 where
  pub block : KvPair allocation_block
  pub newly_claimed : Bool
  pub remaining : List IpNet

-- The state of a request: blockAssignState without the affine blocks that remain.
pub record Request : Type 0 where
  pub name : IpNet → String
  pub windows : Bool
  pub host : String
  pub pools : List IpPool
  pub rsvd : Option HostReservedAttr
  pub initial_index : IpPool → ℕ

module _ (q : Request) (min_free : ℕ) where
  abbrev pub use_affine :
      List IpNet
      → Program (Attempt FoundBlock)
      → Program (Attempt FoundBlock)
      → Attempt (KvPair allocation_block)
      → Program (Attempt FoundBlock)
  use_affine rest again skip (done b) =
      if leb min_free (num_free_addresses b.value)
      then returning (done (record { block = b; newly_claimed = false; remaining = rest }))
      else skip
  use_affine rest again skip (failed e) = if is_conflict e then again else skip

  abbrev pub affinity_found :
      List IpNet
      → Program (Attempt FoundBlock)
      → Program (Attempt FoundBlock)
      → Reply block_affinity
      → Program (Attempt FoundBlock)
  affinity_found rest again skip (Reply.fail e current) = skip
  affinity_found rest again skip (Reply.ok aff) =
      get_block_from_affinity q.windows q.rsvd aff >>= use_affine rest again skip

  -- A block of the host, in so many tries; after the last one the next block comes up.
  unfoldable pub try_affine :
      ℕ → IpNet → List IpNet → Program (Attempt FoundBlock) → Program (Attempt FoundBlock)
  try_affine zero cidr rest skip = skip
  try_affine (suc n) cidr rest skip =
      asking block_affinity (get_request (q.host, cidr))
        (affinity_found rest (try_affine n cidr rest skip) skip)

  unfoldable pub try_all_affine :
      List IpNet → Program (Attempt FoundBlock) → Program (Attempt FoundBlock)
  try_all_affine [] ran_out = ran_out
  try_all_affine (cidr ∷ rest) ran_out =
      try_affine datastore_retries cidr rest (try_all_affine rest ran_out)

  abbrev pub use_claimed :
      Program (Attempt FoundBlock)
      → Program (Attempt FoundBlock)
      → Attempt (KvPair allocation_block)
      → Program (Attempt FoundBlock)
  use_claimed again other (done b) =
      if leb min_free (num_free_addresses b.value)
      then returning (done (record { block = b; newly_claimed = true; remaining = [] }))
      else returning (failed too_few_free)
  use_claimed again other (failed e) =
      if is_conflict e then again else if is_lost e then other else returning (failed e)

  abbrev pub use_pending :
      Program (Attempt FoundBlock)
      → Program (Attempt FoundBlock)
      → Attempt (KvPair block_affinity)
      → Program (Attempt FoundBlock)
  use_pending again other (done pa) =
      get_block_from_affinity q.windows q.rsvd pa >>= use_claimed again other
  use_pending again other (failed e) = if is_conflict e then again else returning (failed e)

  -- The unclaimed block, in so many tries; after the last one another is looked for.
  unfoldable pub try_claim : ℕ → IpNet → Program (Attempt FoundBlock) → Program (Attempt FoundBlock)
  try_claim zero subnet other = other
  try_claim (suc n) subnet other =
      get_pending_affinity q.host subnet >>= use_pending (try_claim n subnet other) other

  abbrev pub use_unclaimed :
      Program (Attempt FoundBlock) → Attempt IpNet → Program (Attempt FoundBlock)
  use_unclaimed other (failed e) = returning (failed e)
  use_unclaimed other (done subnet) = try_claim datastore_retries subnet other

  unfoldable pub claim_new : ℕ → Program (Attempt FoundBlock)
  claim_new zero = returning (failed max_retries)
  claim_new (suc n) =
      find_unclaimed_block (λ a b. str_eq (q.name a) (q.name b)) q.initial_index q.pools
      >>= use_unclaimed (claim_new n)

  abbrev pub claim_if_allowed : Attempt IpamConfig → Program (Attempt FoundBlock)
  claim_if_allowed (failed e) = returning (failed e)
  claim_if_allowed (done config) =
      if config.auto_allocate_blocks
      then claim_new datastore_retries
      else returning (failed IpamError.no_block)

  abbrev pub ran_out : Bool → Program (Attempt FoundBlock)
  ran_out allow_new_claim =
      if allow_new_claim
      then get_ipam_config q.windows >>= claim_if_allowed
      else returning (failed block_limit)

  unfoldable pub find_or_claim_block : Bool → List IpNet → Program (Attempt FoundBlock)
  find_or_claim_block allow_new_claim remaining = try_all_affine remaining (ran_out allow_new_claim)
