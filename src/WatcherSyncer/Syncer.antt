-- ===== src/WatcherSyncer/Syncer.antt =====
-- watchersyncer.go: the main loop of the syncer, which groups the caches' updates and tells the
-- callbacks. What it tells them is a list, oldest first.
pub mod Delivery
pub mod Status
mod Tests
use zyzxlibcalico_go.Prelude.{
  ℕ, zero, suc, ◌+◌, String, Bool, true, false, ◌&&◌, Option, none, some, List, [], ◌∷◌, ◌++◌,
  length, ◌==◌, if◌then◌else◌,
}
use zyzxlibcalico_go.WatcherSyncer.Api.{
  Update, SyncStatus, wait_for_datastore, resync_in_progress, in_sync, SyncError, parsing, other,
  Message, updates, failed, synced,
}

-- api.SyncerCallbacks and api.SyncerParseFailCallbacks.
pub data Callback (V : Type 0) : Type 0 where
  on_updates : List (Update V) → Callback V
  on_status_updated : SyncStatus → Callback V
  parse_failed : String → String → Callback V

-- `parse_fail_callbacks` says whether the callbacks implement SyncerParseFailCallbacks.
pub record WatcherSyncer (V : Type 0) : Type 0 where
  pub status : SyncStatus
  pub num_caches : ℕ
  pub num_synced : ℕ
  pub parse_fail_callbacks : Bool
  pub called : List (Callback V)

abbrev is_waiting : SyncStatus → Bool
is_waiting wait_for_datastore = true
is_waiting _ = false

abbrev is_empty : {V : Type 0} → List (Update V) → Bool
is_empty [] = true
is_empty (u ∷ us) = false

module _ {V : Type 0} where
  -- New
  unfoldable pub new_syncer : ℕ → Bool → WatcherSyncer V
  new_syncer n p = record {
    status = wait_for_datastore;
    num_caches = n;
    num_synced = 0;
    parse_fail_callbacks = p;
    called = [];
  }

  abbrev pub call : Callback V → WatcherSyncer V → WatcherSyncer V
  call c ws = record ws { called = ws.called ++ c ∷ [] }

  unfoldable pub send_status_update : SyncStatus → WatcherSyncer V → WatcherSyncer V
  send_status_update s ws = record (call (on_status_updated s) ws) { status = s }

  -- The updates that are still grouped are nil afterwards.
  unfoldable pub send_updates : List (Update V) → WatcherSyncer V → WatcherSyncer V
  send_updates us ws = if is_empty us then ws else call (on_updates us) ws

  abbrev start_resync : WatcherSyncer V → WatcherSyncer V
  start_resync ws = if is_waiting ws.status then send_status_update resync_in_progress ws else ws

  abbrev report : SyncError → WatcherSyncer V → WatcherSyncer V
  report (parsing key value) ws =
      if ws.parse_fail_callbacks then call (parse_failed key value) ws else ws
  report other ws = ws

  -- The last part of an InSync from a cache.
  abbrev finish_sync : List (Update V) → WatcherSyncer V → List (Update V) × WatcherSyncer V
  finish_sync us ws =
      if ws.num_synced == ws.num_caches
      then ([], send_status_update in_sync (send_updates us ws))
      else (us, ws)

  -- `none` is the nil that a closed channel yields. The result is the updates that stay grouped.
  unfoldable pub process_result :
      List (Update V) → Option (Message V) → WatcherSyncer V → List (Update V) × WatcherSyncer V
  process_result us none ws = (us, ws)
  process_result us (some (updates r)) ws = (us ++ r, if is_empty us then start_resync ws else ws)
  process_result us (some (failed e)) ws = ([], report e (send_updates us ws))
  process_result us (some (synced in_sync)) ws =
      let ws = start_resync ws in finish_sync us (record ws { num_synced = ws.num_synced + 1 })
  process_result us (some (synced s)) ws = (us, ws)

  -- The consolidation loop, on the results that are ready in the channel.
  unfoldable pub consolidate :
      List (Option (Message V))
      → List (Update V)
      → WatcherSyncer V
      → List (Update V) × WatcherSyncer V
  consolidate [] us ws = (us, ws)
  consolidate (r ∷ rs) us ws = let (us, ws) = process_result us r ws in consolidate rs us ws

  -- One round: the result that ends the wait, and those that the consolidation loop takes.
  unfoldable pub main_round :
      Message V × List (Option (Message V)) → WatcherSyncer V → WatcherSyncer V
  main_round (result, ready) ws =
      let (us, ws) = process_result [] (some result) ws in
      let (us, ws) = consolidate ready us ws in send_updates us ws

  unfoldable pub main_loop :
      List (Message V × List (Option (Message V))) → WatcherSyncer V → WatcherSyncer V
  main_loop [] ws = ws
  main_loop (r ∷ rs) ws = main_loop rs (main_round r ws)

  unfoldable pub run :
      List (Message V × List (Option (Message V))) → WatcherSyncer V → WatcherSyncer V
  run rounds ws = main_loop rounds (send_status_update wait_for_datastore ws)
