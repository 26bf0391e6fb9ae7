-- ===== src/WatcherSyncer/Cache/Loop/Legal.antt =====
-- The whole life of a cache, as its client sees it.
use zyzxlibcalico_go.Prelude.{
  ◌∙◌, ℕ, String, ◌≡◌, refl, Option, none, some, List, [], ◌∷◌, ◌++◌, arith,
}
use zyzxlibcalico_go.Prelude.Dict.{Dict, lookup}
use zyzxlibcalico_go.WatcherSyncer.Cache.{
  CacheEntry, WatcherCache, UpdateProcessor, clean_existing_watcher, notify_processor,
  new_watcher_cache,
}
use zyzxlibcalico_go.WatcherSyncer.Cache.Loop.{
  Attempt, Input, Progress, emit_deletes, exit_messages, run,
}
use zyzxlibcalico_go.WatcherSyncer.Cache.Loop.Run.{Keeps, Ends, run-Ends}
use zyzxlibcalico_go.WatcherSyncer.Cache.View.{Known, cached, read}
use zyzxlibcalico_go.WatcherSyncer.Cache.Deletions.{
  read-deletions, read-exit_messages, read-append_all, without,
}
use zyzxlibcalico_go.WatcherSyncer.Cache.Settled.{
  settled_knows, IsSettled, handle_watch_list_event-IsSettled, process_list-IsSettled,
}

nothing_left :
    (res : Dict CacheEntry) (v w : Known) (k : String)
    → w k ≡ without res v k
    → v k ≡ cached res [] k
    → w k ≡ none
unfolding lookup
nothing_left res v w k same agrees = ground arith

module _ {P V : Type 0} where
  clean_existing_watcher-IsSettled :
      (wc : WatcherCache P V) → IsSettled wc → IsSettled (clean_existing_watcher wc)
  unfolding clean_existing_watcher
  clean_existing_watcher-IsSettled wc s = go wc.watch
    where
      go :
          (o : Option ℕ)
          → IsSettled (elim o as (λ _. WatcherCache P V) [
            | none ↦ wc
            | some w ↦ record wc { watch = none; stopped = wc.stopped ++ w ∷ [] }
          ])
      go none = s
      go (some w) = record { coherent = s.coherent; nothing_old = s.nothing_old }

  notify_processor-IsSettled :
      (wc : WatcherCache P V) → IsSettled wc → IsSettled (notify_processor wc)
  unfolding notify_processor
  notify_processor-IsSettled wc s = go wc.update_processor
    where
      go :
          (o : Option (UpdateProcessor P V))
          → IsSettled (elim o as (λ _. WatcherCache P V) [
            | none ↦ wc
            | some up ↦ record wc { processor_state = up.on_syncer_starting wc.processor_state }
          ])
      go none = s
      go (some up) = record { coherent = s.coherent; nothing_old = s.nothing_old }

  settled : Keeps {P = P} {V = V} IsSettled
  settled = record {
    cleaned = clean_existing_watcher-IsSettled;
    watched = λ w wc s. record { coherent = s.coherent; nothing_old = s.nothing_old };
    notified = notify_processor-IsSettled;
    revised = λ r wc s. record { coherent = s.coherent; nothing_old = s.nothing_old };
    evented = handle_watch_list_event-IsSettled;
    listed = process_list-IsSettled;
  }

  pub IsSettled-new :
      (up : Option (UpdateProcessor P V)) (p : P) → IsSettled (new_watcher_cache up p)
  unfolding new_watcher_cache
  IsSettled-new up p = record {
    coherent = record {
      known = λ k. none;
      replayed = unfold read in refl;
      agrees = λ k. unfold lookup in refl;
      disjoint = λ k e h. unfold lookup in refl;
      keyed = tt;
      keyed_old = tt;
    };
    nothing_old = refl;
  }

  -- What the client knows at the end: something, and nothing once the cache has exited.
  abbrev pub Told : WatcherCache P V × Progress → Type 0
  Told (wc, Progress.exited) =
      (v : Known) × (read wc.results (λ k. none) ≡ some v) × ((k : String) → v k ≡ none)
  Told (wc, _) =
      (v : Known) × (read wc.results (λ k. none) ≡ some v)
      × ((k : String) → v k ≡ cached wc.resources [] k)

  -- The deletions of an exiting cache leave the client with nothing.
  emit_deletes_told :
      (wc : WatcherCache P V)
      → IsSettled wc
      → (v : Known) × (read (emit_deletes wc).results (λ k. none) ≡ some v)
        × ((k : String) → v k ≡ none)
  unfolding emit_deletes
  emit_deletes_told wc s =
      let (v, replayed, agrees) = settled_knows wc s in
      let (w, done, same) =
        read-deletions V wc.resources v s.coherent.keyed (λ k e h. ground (arith, agrees k)) in
      (
        w,
        read-append_all wc.results (exit_messages wc.resources) _ replayed
            ∙ (read-exit_messages V wc.resources v ∙ done),
        λ k. nothing_left wc.resources v w k (same k) (agrees k),
      )

  Ends-Told : (r : WatcherCache P V × Progress) → Ends IsSettled r → Told r
  Ends-Told (wc', Progress.exited) (wc, s, e) = rw e (emit_deletes_told wc s)
  Ends-Told (wc, Progress.looping) s = settled_knows wc s
  Ends-Told (wc, Progress.resyncing) s = settled_knows wc s
  Ends-Told (wc, Progress.panicked) s = settled_knows wc s

  -- Whatever the datastore answers and whichever events arrive, the messages that a new cache sends
  -- are ones that its client accepts (New only for an unknown key, Updated only for a known key at
  -- another revision, Deleted only for a known key). What the client then knows is what the cache
  -- holds, and nothing at all once the cache has exited.
  pub run-Told :
      (up : Option (UpdateProcessor P V)) (p : P) (script : List (Attempt V)) (is : List (Input V))
      → Told (run script is (new_watcher_cache up p))
  run-Told up p script is =
      Ends-Told _
        (run-Ends IsSettled settled script is (new_watcher_cache up p) (IsSettled-new up p))
