-- ===== src/Ipam/ReaderWriter.antt =====
-- lib/ipam/ipam_block_reader_writer.go, as programs over the datastore.
-- A KVPair that a function changes in place is changed here before it is passed on: no caller reads it
-- again but through what the function returns.
pub mod Claiming
pub mod Releasing
pub mod Searching
pub mod Untouched
use Prim.Native.String.{◌++◌ as str_append}
use text.Mathlib.Text.{◌==◌ as str_eq}
use zyzxlibcalico_go.Prelude.{
  ℕ, String, Bool, true, false, not, ◌&&◌, Option, none, some, if◌then◌else◌,
}
use zyzxlibcalico_go.Ipam.Address.{IpNet}
use zyzxlibcalico_go.Ipam.Block.{
  AllocationBlock, HostReservedAttr, BlockError, Outcome, host_affinity_matches,
}
use zyzxlibcalico_go.Ipam.Block.Creation.{new_block}
use zyzxlibcalico_go.Ipam.Block.Queries
use zyzxlibcalico_go.Ipam.Handle.{HandleError}
use zyzxlibcalico_go.Ipam.Datastore.{
  Kind, block_affinity, allocation_block, ipam_handle, BlockAffinityState, pending, confirmed,
  pending_deletion, KvPair, Reply, StoreError, already_exists, does_not_exist, update_conflict,
}
use zyzxlibcalico_go.Ipam.Datastore.Programs.{
  Program, returning, panicking, asking, ◌>>=◌, create_request, update_request, delete_request,
  get_request,
}

-- The errors of lib/ipam/ipam_errors.go, of the datastore and of blocks and handles, and those that
-- ipam.go makes of a text.
pub data IpamError : Type 0 where
  store_error : StoreError → IpamError
  block_error : BlockError → IpamError
  handle_error : HandleError → IpamError
  block_claim_conflict block_not_empty stale_affinity : AllocationBlock → IpamError
  no_hostname max_retries strict_affinity_required invalid_config block_limit no_free_blocks :
      IpamError
  no_pools invalid_pool no_qualified_pool invalid_selector malformed_reservation too_few_free :
      IpamError
  no_block not_in_pool : IpamError

pub data Attempt (A : Type 0) : Type 0 where
  done : A → Attempt A
  failed : IpamError → Attempt A

abbrev pub is_already_exists : StoreError → Bool
is_already_exists already_exists = true
is_already_exists _ = false

abbrev pub is_does_not_exist : StoreError → Bool
is_does_not_exist does_not_exist = true
is_does_not_exist _ = false

abbrev pub is_update_conflict : StoreError → Bool
is_update_conflict update_conflict = true
is_update_conflict _ = false

abbrev pub is_confirmed : BlockAffinityState → Bool
is_confirmed confirmed = true
is_confirmed _ = false

-- What an update or a query returns.
abbrev pub reply_result : {r : Kind} → Reply r → Program (Attempt (KvPair r))
reply_result (Reply.ok kvp) = returning (done kvp)
reply_result (Reply.fail e current) = returning (failed (store_error e))

abbrev pub existing_affinity : Reply block_affinity → Program (Attempt (KvPair block_affinity))
existing_affinity (Reply.fail e current) = returning (failed (store_error e))
existing_affinity (Reply.ok aff) =
    if is_confirmed aff.value
    then returning (done aff)
    else asking block_affinity (update_request (record aff { value = pending })) reply_result

abbrev pub created_affinity :
    String → IpNet → Reply block_affinity → Program (Attempt (KvPair block_affinity))
created_affinity host subnet (Reply.ok aff) = returning (done aff)
created_affinity host subnet (Reply.fail e current) =
    if is_already_exists e
    then asking block_affinity (get_request (host, subnet)) existing_affinity
    else returning (failed (store_error e))

unfoldable pub get_pending_affinity : String → IpNet → Program (Attempt (KvPair block_affinity))
get_pending_affinity host subnet =
    asking block_affinity
      (create_request (record { key = (host, subnet); value = pending; revision = none }))
      (created_affinity host subnet)

abbrev pub confirmed_by_another :
    StoreError → Reply block_affinity → Program (Attempt (KvPair block_affinity))
confirmed_by_another e (Reply.fail e2 current) = returning (failed (store_error e))
confirmed_by_another e (Reply.ok kvp) =
    if is_confirmed kvp.value then returning (done kvp) else returning (failed (store_error e))

abbrev pub confirmed_affinity :
    KvPair block_affinity → Reply block_affinity → Program (Attempt (KvPair block_affinity))
confirmed_affinity aff (Reply.ok kvp) = returning (done kvp)
confirmed_affinity aff (Reply.fail e current) =
    asking block_affinity (get_request aff.key) (confirmed_by_another e)

unfoldable pub confirm_affinity : KvPair block_affinity → Program (Attempt (KvPair block_affinity))
confirm_affinity aff =
    asking block_affinity (update_request (record aff { value = confirmed }))
      (confirmed_affinity aff)

-- The block is returned once the affinity is confirmed.
abbrev pub if_confirmed :
    KvPair allocation_block
    → Attempt (KvPair block_affinity)
    → Program (Attempt (KvPair allocation_block))
if_confirmed kvp (done aff) = returning (done kvp)
if_confirmed kvp (failed e) = returning (failed e)

-- *b.Affinity == "host:"+host, of an affinity that is not nil.
unfoldable pub has_affinity : String → Option String → Bool
has_affinity host none = false
has_affinity host (some a) = str_eq a (str_append "host:" host)

-- Another host has the block: the pending affinity is deleted, and whether that fails is only logged.
abbrev pub claimed_by_other :
    KvPair block_affinity → AllocationBlock → Program (Attempt (KvPair allocation_block))
claimed_by_other aff b =
    asking block_affinity (delete_request aff)
      (λ reply. returning (failed (block_claim_conflict b)))

abbrev pub existing_block :
    KvPair block_affinity → Reply allocation_block → Program (Attempt (KvPair allocation_block))
existing_block aff (Reply.fail e current) = returning (failed (store_error e))
existing_block aff (Reply.ok obj) =
    if has_affinity aff.key.0 obj.value.affinity
    then confirm_affinity aff >>= if_confirmed obj
    else claimed_by_other aff obj.value

abbrev pub created_block :
    KvPair block_affinity → Reply allocation_block → Program (Attempt (KvPair allocation_block))
created_block aff (Reply.ok kvp) = confirm_affinity aff >>= if_confirmed kvp
created_block aff (Reply.fail e current) =
    if is_already_exists e
    then asking allocation_block (get_request aff.key.1) (existing_block aff)
    else returning (failed (store_error e))

abbrev pub create_block :
    KvPair block_affinity → Outcome AllocationBlock → Program (Attempt (KvPair allocation_block))
create_block aff (Outcome.ok b) =
    let block = record b { affinity = some (str_append "host:" aff.key.0) } in
    asking allocation_block
      (create_request (record { key = block.cidr; value = block; revision = none }))
      (created_block aff)
create_block aff (Outcome.err e) = returning (failed (block_error e))
create_block aff Outcome.panic = panicking

unfoldable pub claim_affine_block :
    KvPair block_affinity → Option HostReservedAttr → Program (Attempt (KvPair allocation_block))
claim_affine_block aff rsvd = create_block aff (new_block aff.key.1 rsvd)

-- deleteAffinity at the end of releaseBlockAffinity.
abbrev pub deleted_affinity : Reply block_affinity → Program (Attempt (Unit {0}))
deleted_affinity (Reply.ok kvp) = returning (done tt)
deleted_affinity (Reply.fail e current) =
    if is_does_not_exist e then returning (done tt) else returning (failed (store_error e))

abbrev pub delete_affinity : KvPair block_affinity → Program (Attempt (Unit {0}))
delete_affinity aff = asking block_affinity (delete_request aff) deleted_affinity

abbrev pub deleted_block :
    KvPair block_affinity → Reply allocation_block → Program (Attempt (Unit {0}))
deleted_block aff (Reply.ok kvp) = delete_affinity aff
deleted_block aff (Reply.fail e current) =
    if is_does_not_exist e then delete_affinity aff else returning (failed (store_error e))

abbrev pub updated_block :
    KvPair block_affinity → Reply allocation_block → Program (Attempt (Unit {0}))
updated_block aff (Reply.ok kvp) = delete_affinity aff
updated_block aff (Reply.fail e current) = returning (failed (store_error e))

-- An empty block is deleted, and another one loses its affinity.
abbrev pub release_block :
    KvPair block_affinity → KvPair allocation_block → Outcome Bool → Program (Attempt (Unit {0}))
release_block aff obj (Outcome.ok is_empty) =
    if is_empty
    then asking allocation_block (delete_request obj) (deleted_block aff)
    else asking allocation_block
        (update_request (record obj { value = record obj.value { affinity = none } }))
        (updated_block aff)
release_block aff obj (Outcome.err e) = returning (failed (block_error e))
release_block aff obj Outcome.panic = panicking

abbrev pub marked_affinity :
    KvPair allocation_block → Reply block_affinity → Program (Attempt (Unit {0}))
marked_affinity obj (Reply.fail e current) = returning (failed (store_error e))
marked_affinity obj (Reply.ok aff) = release_block aff obj (Queries.empty obj.value)

abbrev pub mark_affinity :
    KvPair block_affinity → KvPair allocation_block → Program (Attempt (Unit {0}))
mark_affinity aff obj =
    asking block_affinity (update_request (record aff { value = pending_deletion }))
      (marked_affinity obj)

-- A block that must be empty.
abbrev pub mark_if_empty :
    KvPair block_affinity → KvPair allocation_block → Outcome Bool → Program (Attempt (Unit {0}))
mark_if_empty aff obj (Outcome.ok is_empty) =
    if is_empty then mark_affinity aff obj else returning (failed (block_not_empty obj.value))
mark_if_empty aff obj (Outcome.err e) = returning (failed (block_error e))
mark_if_empty aff obj Outcome.panic = panicking

abbrev pub is_mismatch : String → Option String → Bool
is_mismatch host none = false
is_mismatch host (some a) = not (host_affinity_matches host a)

abbrev pub affine_block :
    String → Bool → KvPair block_affinity → Reply allocation_block → Program (Attempt (Unit {0}))
affine_block host require_empty aff (Reply.fail e current) = returning (failed (store_error e))
affine_block host require_empty aff (Reply.ok obj) =
    if is_mismatch host obj.value.affinity
    then asking block_affinity (delete_request aff)
        (λ reply. returning (failed (block_claim_conflict obj.value)))
    else if require_empty
    then mark_if_empty aff obj (Queries.empty obj.value)
    else mark_affinity aff obj

abbrev pub queried_affinity :
    String → IpNet → Bool → Reply block_affinity → Program (Attempt (Unit {0}))
queried_affinity host cidr require_empty (Reply.fail e current) = returning (failed (store_error e))
queried_affinity host cidr require_empty (Reply.ok aff) =
    asking allocation_block (get_request cidr) (affine_block host require_empty aff)

unfoldable pub release_block_affinity : String → IpNet → Bool → Program (Attempt (Unit {0}))
release_block_affinity host cidr require_empty =
    if str_eq host ""
    then returning (failed no_hostname)
    else asking block_affinity (get_request (host, cidr)) (queried_affinity host cidr require_empty)
