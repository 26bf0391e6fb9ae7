-- ===== src/WatcherSyncer/Syncer/Tests.antt =====
-- Two caches report, one with an update that a round groups with an error.
use zyzxlibcalico_go.Prelude.{ℕ, String, ◌≡◌, refl, true, Option, none, some, List, [], ◌∷◌}
use zyzxlibcalico_go.WatcherSyncer.Api.{
  UpdateType, Update, SyncStatus, SyncError, Message, updates, synced, failed,
}
use zyzxlibcalico_go.WatcherSyncer.Syncer.{
  on_updates, on_status_updated, parse_failed, new_syncer, run, send_status_update, send_updates,
  process_result, consolidate, main_round, main_loop,
}
use zyzxlibcalico_go.WatcherSyncer.Syncer.Delivery.{delivered, received, delivered-run}
use zyzxlibcalico_go.WatcherSyncer.Syncer.Status.{at_sync, observe_rounds, at_sync-run}

abbrev news : String → Update ℕ
news k = record {
  update_type = UpdateType.kv_new;
  kv_pair = record { key = k; value = some 1; revision = "1" };
}

abbrev rounds : List (Message ℕ × List (Option (Message ℕ)))
rounds =
    (
      updates (news "a" ∷ []),
      some (failed (SyncError.parsing "x" "y")) ∷ some (synced SyncStatus.in_sync) ∷ [],
    )
    ∷ (
      updates (news "b" ∷ []),
      some (synced SyncStatus.in_sync) ∷ some (updates (news "c" ∷ [])) ∷ none ∷ [],
    )
    ∷ []

calls :
    (run rounds (new_syncer 2 true)).called
    ≡ on_status_updated SyncStatus.wait_for_datastore
      ∷ on_status_updated SyncStatus.resync_in_progress
      ∷ on_updates (news "a" ∷ [])
      ∷ parse_failed "x" "y"
      ∷ on_updates (news "b" ∷ [])
      ∷ on_status_updated SyncStatus.in_sync
      ∷ on_updates (news "c" ∷ [])
      ∷ []
unfolding run new_syncer send_status_update send_updates process_result consolidate main_round
    main_loop
calls = refl

delivered-run_example : delivered (run rounds (new_syncer 2 true)).called ≡ received rounds
delivered-run_example = delivered-run rounds 2 true

at_sync-run_example :
    at_sync [] (run rounds (new_syncer 2 true)).called
    ≡ (observe_rounds (record { left = 2; got = []; full = none }) rounds).full
at_sync-run_example = at_sync-run rounds 2 true
