-- ===== src/WatcherSyncer/Cache.antt =====
-- watchercache.go: the cache of one resource type.
-- The channel `results` is the list of what has been sent on it, oldest first.
pub mod Loop
pub mod View
pub mod Listing
pub mod Settled
pub mod Deletions
pub mod Coherence
mod Tests
use text.Mathlib.Text.{◌==◌ as str_eq}
use zyzxlibcalico_go.Prelude.{
  ℕ, String, Bool, true, false, Option, none, some, List, [], ◌∷◌, ◌++◌, map, if◌then◌else◌,
}
use zyzxlibcalico_go.Prelude.Dict.{Dict, lookup, insert, delete}
use zyzxlibcalico_go.WatcherSyncer.Api.{
  KvPair, UpdateType, Update, SyncStatus, SyncError, Message, updates, failed, synced, KvPairList,
}

-- SyncerUpdateProcessor, over the state that the processor keeps.
pub record UpdateProcessor (P V : Type 0) : Type 0 where
  pub process : P → KvPair V → P × List (KvPair V) × Option SyncError
  pub on_syncer_starting : P → P

pub record CacheEntry : Type 0 where
  pub revision : String
  pub key : String

-- `stopped` lists the watchers on which Stop() was called.
pub record WatcherCache (P V : Type 0) : Type 0 where
  pub watch : Option ℕ
  pub stopped : List ℕ
  pub resources : Dict CacheEntry
  pub old_resources : Option (Dict CacheEntry)
  pub results : List (Message V)
  pub has_synced : Bool
  pub update_processor : Option (UpdateProcessor P V)
  pub processor_state : P
  pub current_watch_revision : String

module _ {V : Type 0} where
  abbrev pub deletion : String → Update V
  deletion k = record {
    update_type = UpdateType.kv_deleted;
    kv_pair = record { key = k; value = none; revision = "" };
  }

  -- One deletion for each entry of a map.
  abbrev pub deletions : Dict CacheEntry → List (Update V)
  deletions [] = []
  deletions ((_, r) ∷ m) = deletion r.key ∷ deletions m

module _ {P V : Type 0} where
  unfoldable pub new_watcher_cache : Option (UpdateProcessor P V) → P → WatcherCache P V
  new_watcher_cache up p = record {
    watch = none;
    stopped = [];
    resources = [];
    old_resources = none;
    results = [];
    has_synced = false;
    update_processor = up;
    processor_state = p;
    current_watch_revision = "";
  }

  -- wc.results <- m
  abbrev pub send : Message V → WatcherCache P V → WatcherCache P V
  send m wc = record wc { results = wc.results ++ m ∷ [] }

  abbrev mark_in : String → Option (Dict CacheEntry) → WatcherCache P V → WatcherCache P V
  mark_in k none wc = wc
  mark_in k (some old) wc = elim (lookup k old) [
    | none ↦ wc
    | some r ↦ record wc {
      resources = insert k r wc.resources;
      old_resources = some (delete k old);
    }
  ]

  unfoldable pub mark_as_valid : String → WatcherCache P V → WatcherCache P V
  mark_as_valid k wc = mark_in k wc.old_resources wc

  -- What handleAddedOrModifiedUpdate does once the entry is marked.
  abbrev store : KvPair V → Option CacheEntry → WatcherCache P V → WatcherCache P V
  store kvp (some r) wc =
      if str_eq r.revision kvp.revision
      then wc
      else (let wc =
            send (updates (record { update_type = UpdateType.kv_updated; kv_pair = kvp } ∷ []))
              wc in
          record wc {
            resources = insert kvp.key (record r { revision = kvp.revision }) wc.resources;
          })
  store kvp none wc =
      let wc = send (updates (record { update_type = UpdateType.kv_new; kv_pair = kvp } ∷ [])) wc in
      record wc {
        resources = insert kvp.key (record { revision = kvp.revision; key = kvp.key }) wc.resources;
      }

  unfoldable pub handle_added_or_modified_update : KvPair V → WatcherCache P V → WatcherCache P V
  handle_added_or_modified_update kvp wc =
      let wc = mark_as_valid kvp.key wc in store kvp (lookup kvp.key wc.resources) wc

  abbrev drop_entry : String → Option CacheEntry → WatcherCache P V → WatcherCache P V
  drop_entry k none wc = wc
  drop_entry k (some _) wc =
      let wc = send (updates (deletion k ∷ [])) wc in
      record wc { resources = delete k wc.resources }

  unfoldable pub handle_deleted_update : String → WatcherCache P V → WatcherCache P V
  handle_deleted_update k wc =
      let wc = mark_as_valid k wc in drop_entry k (lookup k wc.resources) wc

  unfoldable pub handle_converted_watch_event : KvPair V → WatcherCache P V → WatcherCache P V
  handle_converted_watch_event kvp wc = elim kvp.value [
    | none ↦ handle_deleted_update kvp.key wc
    | some _ ↦ handle_added_or_modified_update kvp wc
  ]

  unfoldable pub handle_all : List (KvPair V) → WatcherCache P V → WatcherCache P V
  handle_all [] wc = wc
  handle_all (kvp ∷ kvps) wc = handle_all kvps (handle_converted_watch_event kvp wc)

  abbrev send_error : Option SyncError → WatcherCache P V → WatcherCache P V
  send_error none wc = wc
  send_error (some e) wc = send (failed e) wc

  abbrev convert : Option (UpdateProcessor P V) → KvPair V → WatcherCache P V → WatcherCache P V
  convert none kvp wc = handle_converted_watch_event kvp wc
  convert (some up) kvp wc =
      let (p, kvps, err) = up.process wc.processor_state kvp in
      send_error err (handle_all kvps (record wc { processor_state = p }))

  unfoldable pub handle_watch_list_event : KvPair V → WatcherCache P V → WatcherCache P V
  handle_watch_list_event kvp wc =
      convert wc.update_processor kvp (record wc { current_watch_revision = kvp.revision })

  unfoldable pub handle_list : List (KvPair V) → WatcherCache P V → WatcherCache P V
  handle_list [] wc = wc
  handle_list (kvp ∷ kvps) wc = handle_list kvps (handle_watch_list_event kvp wc)

  unfoldable pub clean_existing_watcher : WatcherCache P V → WatcherCache P V
  clean_existing_watcher wc = elim wc.watch [
    | none ↦ wc
    | some w ↦ record wc { watch = none; stopped = wc.stopped ++ w ∷ [] }
  ]

  abbrev send_synced : WatcherCache P V → WatcherCache P V
  send_synced wc =
      if wc.has_synced
      then wc
      else record (send (synced SyncStatus.in_sync) wc) { has_synced = true }

  abbrev send_old : Option (Dict CacheEntry) → WatcherCache P V → WatcherCache P V
  send_old none wc = wc
  send_old (some []) wc = wc
  send_old (some (e ∷ m)) wc = send (updates (deletions (e ∷ m))) wc

  unfoldable pub finish_resync : WatcherCache P V → WatcherCache P V
  finish_resync wc =
      let wc = send_synced wc in
      let wc = send_old wc.old_resources wc in record wc { old_resources = none }

  -- The part of a full resync that follows a successful List.
  unfoldable pub process_list : KvPairList V → WatcherCache P V → WatcherCache P V
  process_list l wc =
      let wc = record wc { old_resources = some wc.resources; resources = [] } in
      let wc = handle_list l.kv_pairs wc in
      record (finish_resync wc) { current_watch_revision = l.revision }

  unfoldable pub notify_processor : WatcherCache P V → WatcherCache P V
  notify_processor wc = elim wc.update_processor [
    | none ↦ wc
    | some up ↦ record wc { processor_state = up.on_syncer_starting wc.processor_state }
  ]
