-- ===== src/WatcherSyncer/Cache/Tests.antt =====
-- A run of a cache: a List that fails, a full resync, a modification, a deletion and the exit.
use zyzxlibcalico_go.Prelude.{ℕ, String, ◌≡◌, refl, false, none, some, List, [], ◌∷◌}
use zyzxlibcalico_go.Prelude.Dict.{lookup, insert, delete}
use zyzxlibcalico_go.WatcherSyncer.Api.{
  KvPair, KvPairList, UpdateType, SyncStatus, Message, updates, synced, WatchEvent, WatchReply,
}
use zyzxlibcalico_go.WatcherSyncer.Cache.{
  WatcherCache, UpdateProcessor, new_watcher_cache, process_list, deletion, mark_as_valid,
  handle_added_or_modified_update, handle_deleted_update, handle_converted_watch_event, handle_all,
  handle_watch_list_event, handle_list, clean_existing_watcher, finish_resync, notify_processor,
}
use zyzxlibcalico_go.WatcherSyncer.Cache.View.{Known, read}
use zyzxlibcalico_go.WatcherSyncer.Cache.Listing.{listed, conversions}
use zyzxlibcalico_go.WatcherSyncer.Cache.Listing.Told.{process_list_told}
use zyzxlibcalico_go.WatcherSyncer.Cache.Loop.{
  Attempt, Input, run, resync_round, resync_loop, resync_and_create_watcher, exit_messages,
  emit_deletes, main_round, main_loop,
}
use zyzxlibcalico_go.WatcherSyncer.Cache.Loop.Legal.{Told, run-Told, IsSettled-new}

abbrev pair : String → String → KvPair ℕ
pair k r = record { key = k; value = some 1; revision = r }

abbrev listing : KvPairList ℕ
listing = record { kv_pairs = pair "a" "1" ∷ pair "b" "2" ∷ []; revision = "9" }

-- Drops every pair that it is given.
abbrev dropper : UpdateProcessor ℕ ℕ
dropper = record {
  process = λ n kvp. (n, record kvp { value = none } ∷ [], none);
  on_syncer_starting = λ n. 0;
}

abbrev good : Attempt ℕ
good = record {
  done_first = false;
  list_reply = some listing;
  done_after_list = false;
  watch_reply = WatchReply.watching 7;
  done_after_watch = false;
}

abbrev script : List (Attempt ℕ)
script = record good { list_reply = none } ∷ good ∷ []

abbrev inputs : List (Input ℕ)
inputs =
    Input.event (WatchEvent.modified (pair "a" "10")) []
    ∷ Input.event (WatchEvent.deleted (some (pair "b" "11"))) []
    ∷ Input.context_done
    ∷ []

abbrev start : WatcherCache ℕ ℕ
start = new_watcher_cache none 0

abbrev update : UpdateType → KvPair ℕ → Message ℕ
update t kvp = updates (record { update_type = t; kv_pair = kvp } ∷ [])

run_sends :
    (run script inputs start).0.results
    ≡ update UpdateType.kv_new (pair "a" "1")
      ∷ update UpdateType.kv_new (pair "b" "2")
      ∷ synced SyncStatus.in_sync
      ∷ update UpdateType.kv_updated (pair "a" "10")
      ∷ updates (deletion "b" ∷ [])
      ∷ updates (deletion "a" ∷ [])
      ∷ []
unfolding run resync_round resync_loop resync_and_create_watcher exit_messages emit_deletes
    main_round main_loop mark_as_valid handle_added_or_modified_update handle_deleted_update
    handle_converted_watch_event handle_all handle_watch_list_event handle_list
    clean_existing_watcher finish_resync notify_processor process_list new_watcher_cache lookup
    insert delete
run_sends = refl

run-Told_example : Told (run script inputs start)
run-Told_example = run-Told none 0 script inputs

process_list_told_example :
    (v : Known) × (read
        (process_list listing (new_watcher_cache (some dropper) 0)).results
        (λ k. none)
      ≡ some v)
    × ((k : String)
        → v k
          ≡ listed
              (conversions
                (new_watcher_cache (some dropper) 0).update_processor
                (new_watcher_cache (some dropper) 0).processor_state
                listing.kv_pairs)
              (λ _. none)
              k)
process_list_told_example =
    process_list_told listing (new_watcher_cache (some dropper) 0) (IsSettled-new (some dropper) 0)
