-- ===== src/Ipam/Client/Release.antt =====
-- ensureConsistentAffinity, releaseByHandle and ReleaseByHandle of lib/ipam/ipam.go.
pub mod Consistent
pub mod Freed
pub mod Whole
use text.Mathlib.Text.{◌==◌ as str_eq}
use zyzxlibcalico_go.Prelude.{
  ℕ, zero, suc, String, Bool, true, false, Option, none, some, List, [], ◌∷◌, ◌==◌, ◌&&◌,
  if◌then◌else◌,
}
use zyzxlibcalico_go.Prelude.Dict.{Dict}
use zyzxlibcalico_go.Ipam.Address.{IpNet}
use zyzxlibcalico_go.Ipam.Block.{AllocationBlock, Outcome}
use zyzxlibcalico_go.Ipam.Block.Queries
use zyzxlibcalico_go.Ipam.Block.Release.{sanitize_handle, release_by_handle}
use zyzxlibcalico_go.Ipam.Pools.{IpPool, selects_node}
use zyzxlibcalico_go.Ipam.Datastore.{node, allocation_block, ipam_handle, KvPair, Reply, StoreError}
use zyzxlibcalico_go.Ipam.Datastore.Programs.{
  Program, returning, panicking, asking, ◌>>=◌, get_request, update_request, delete_request,
}
use zyzxlibcalico_go.Ipam.ReaderWriter.{
  IpamError, store_error, block_error, block_claim_conflict, block_not_empty, invalid_selector,
  max_retries, Attempt, done, failed, is_does_not_exist, is_update_conflict, release_block_affinity,
}
use zyzxlibcalico_go.Ipam.ReaderWriter.Searching.{get_pool_for_ip}
use zyzxlibcalico_go.Ipam.Client.{datastore_retries}
use zyzxlibcalico_go.Ipam.Client.Handles.{decrement_handle}
use zyzxlibcalico_go.Ipam.Client.AssignIp.{Surroundings}

-- Errors of releaseBlockAffinity that ensureConsistentAffinity ignores.
abbrev pub is_ignored : IpamError → Bool
is_ignored (store_error e) = is_does_not_exist e
is_ignored (block_claim_conflict b) = true
is_ignored (block_not_empty b) = true
is_ignored _ = false

abbrev pub unless_ignored : Attempt (Unit {0}) → Program (Attempt (Unit {0}))
unless_ignored (done u) = returning (done tt)
unless_ignored (failed e) = if is_ignored e then returning (done tt) else returning (failed e)

-- Whether the pool selects the node; `none` for a selector with an error.
abbrev pub if_selected : String → IpNet → Option Bool → Program (Attempt (Unit {0}))
if_selected host cidr none = returning (failed invalid_selector)
if_selected host cidr (some selected) =
    if selected
    then returning (done tt)
    else release_block_affinity host cidr true >>= unless_ignored

abbrev pub is_unset : Option String → Bool
is_unset none = true
is_unset (some a) = false

module _ (e : Surroundings) where
  abbrev pub pool_found :
      String → IpNet → KvPair node → Attempt (Option IpPool) → Program (Attempt (Unit {0}))
  pool_found host cidr v3n (failed error) = returning (failed error)
  pool_found host cidr v3n (done none) = returning (done tt)
  pool_found host cidr v3n (done (some pool)) = if_selected host cidr (selects_node pool v3n.value)

  abbrev pub node_found : String → IpNet → Reply node → Program (Attempt (Unit {0}))
  node_found host cidr (Reply.ok v3n) =
      pool_found host cidr v3n (get_pool_for_ip e.get_enabled_pools cidr.ip none)
  node_found host cidr (Reply.fail error current) =
      if is_does_not_exist error
      then returning (done tt)
      else returning (failed (store_error error))

  unfoldable pub ensure_consistent_affinity : AllocationBlock → Program (Attempt (Unit {0}))
  ensure_consistent_affinity b =
      let host = Queries.get_host_affinity b in
      if str_eq host ""
      then returning (done tt)
      else asking node (get_request host) (node_found host b.cidr)

  module _ (id : String) (cidr : IpNet) where
    -- Errors after the release are only logged.
    abbrev pub block_released : ℕ → AllocationBlock → Program (Attempt (Unit {0}))
    block_released num b = decrement_handle e.name id cidr num none >>= λ r.
        ensure_consistent_affinity b >>= λ r. returning (done tt)

    abbrev pub block_deleted :
        Program (Attempt (Unit {0}))
        → ℕ
        → AllocationBlock
        → Reply allocation_block
        → Program (Attempt (Unit {0}))
    block_deleted again num b (Reply.ok kvp) = block_released num b
    block_deleted again num b (Reply.fail error current) =
        if is_update_conflict error
        then again
        else if is_does_not_exist error
        then block_released num b
        else returning (failed (store_error error))

    abbrev pub block_updated :
        Program (Attempt (Unit {0}))
        → ℕ
        → AllocationBlock
        → Reply allocation_block
        → Program (Attempt (Unit {0}))
    block_updated again num b (Reply.ok kvp) = block_released num b
    block_updated again num b (Reply.fail error current) =
        if is_update_conflict error then again else returning (failed (store_error error))

    -- An empty block without an affinity is deleted.
    abbrev pub write_released :
        Program (Attempt (Unit {0}))
        → KvPair allocation_block
        → ℕ
        → AllocationBlock
        → Outcome Bool
        → Program (Attempt (Unit {0}))
    write_released again obj num b (Outcome.ok is_empty) =
        if is_empty && is_unset b.affinity
        then asking allocation_block (delete_request (record obj { value = b }))
            (block_deleted again num b)
        else asking allocation_block (update_request (record obj { value = b }))
            (block_updated again num b)
    write_released again obj num b (Outcome.err error) = returning (failed (block_error error))
    write_released again obj num b Outcome.panic = panicking

    abbrev pub released_in :
        Program (Attempt (Unit {0}))
        → KvPair allocation_block
        → Outcome (ℕ × AllocationBlock)
        → Program (Attempt (Unit {0}))
    released_in again obj (Outcome.ok (num, b)) =
        if num == 0 then returning (done tt) else write_released again obj num b (Queries.empty b)
    released_in again obj (Outcome.err error) = returning (failed (block_error error))
    released_in again obj Outcome.panic = panicking

    abbrev pub block_to_release :
        Program (Attempt (Unit {0})) → Reply allocation_block → Program (Attempt (Unit {0}))
    block_to_release again (Reply.ok obj) = released_in again obj (release_by_handle id obj.value)
    block_to_release again (Reply.fail error current) =
        if is_does_not_exist error
        then returning (done tt)
        else returning (failed (store_error error))

    unfoldable pub release_tries : ℕ → Program (Attempt (Unit {0}))
    release_tries zero = returning (failed max_retries)
    release_tries (suc n) =
        asking allocation_block (get_request cidr) (block_to_release (release_tries n))

    unfoldable pub release_handle_in_block : Program (Attempt (Unit {0}))
    release_handle_in_block = release_tries datastore_retries

  -- The blocks of the handle; `cidr_of` is net.ParseCIDR, and the order is that of the list.
  module _ (cidr_of : String → IpNet) where
    abbrev pub unless_failed :
        Program (Attempt (Unit {0})) → Attempt (Unit {0}) → Program (Attempt (Unit {0}))
    unless_failed rest (done u) = rest
    unless_failed rest (failed error) = returning (failed error)

    unfoldable pub release_handle_in_blocks : String → Dict ℕ → Program (Attempt (Unit {0}))
    release_handle_in_blocks id [] = returning (done tt)
    release_handle_in_blocks id ((block, n) ∷ blocks) =
        release_handle_in_block id (cidr_of block)
        >>= unless_failed (release_handle_in_blocks id blocks)

    abbrev pub handle_to_release : String → Reply ipam_handle → Program (Attempt (Unit {0}))
    handle_to_release id (Reply.ok obj) = release_handle_in_blocks id obj.value.block
    handle_to_release id (Reply.fail error current) = returning (failed (store_error error))

    unfoldable pub release_handle : String → Program (Attempt (Unit {0}))
    release_handle handle_id =
        let id = sanitize_handle handle_id in
        asking ipam_handle (get_request id) (handle_to_release id)
