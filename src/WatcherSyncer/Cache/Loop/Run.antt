-- ===== src/WatcherSyncer/Cache/Loop/Run.antt =====
-- What holds of a cache over its whole life: predicates that each operation keeps hold after any
-- script of replies and events.
use zyzxlibcalico_go.Prelude.{
  ℕ, String, ◌≡◌, refl, Bool, true, false, Option, none, some, List, [], ◌∷◌, if◌then◌else◌,
}
use zyzxlibcalico_go.WatcherSyncer.Api.{
  KvPair, KvPairList, WatchEvent, WatchReply, watching, not_supported, watch_failed,
}
use zyzxlibcalico_go.WatcherSyncer.Cache.{
  WatcherCache, handle_watch_list_event, process_list, clean_existing_watcher, notify_processor,
}
use zyzxlibcalico_go.WatcherSyncer.Cache.Loop.{
  Attempt, Input, Progress, start_watch, resync_round, resync_loop, resync_and_create_watcher,
  emit_deletes, resynced, handle_event, handle_input, main_round, main_loop, start_loop, run,
}

-- `Q` is kept by every operation that the loops are made of.
pub record Keeps {P V : Type 0} (Q : WatcherCache P V → Type 0) : Type 0 where
  pub cleaned : (wc : WatcherCache P V) → Q wc → Q (clean_existing_watcher wc)
  pub watched : (w : ℕ) (wc : WatcherCache P V) → Q wc → Q (record wc { watch = some w })
  pub notified : (wc : WatcherCache P V) → Q wc → Q (notify_processor wc)
  pub revised :
      (r : String) (wc : WatcherCache P V) → Q wc → Q (record wc { current_watch_revision = r })
  pub evented : (kvp : KvPair V) (wc : WatcherCache P V) → Q wc → Q (handle_watch_list_event kvp wc)
  pub listed : (l : KvPairList V) (wc : WatcherCache P V) → Q wc → Q (process_list l wc)

-- `Q` holds at the end of a run, before the deletions that an exit sends.
abbrev pub Ends :
    {P V : Type 0} → (WatcherCache P V → Type 0) → WatcherCache P V × Progress → Type 0
Ends {P} {V} Q (wc', Progress.exited) = (wc : WatcherCache P V) × Q wc × (wc' ≡ emit_deletes wc)
Ends Q (wc', _) = Q wc'

module _ {P V : Type 0} (Q : WatcherCache P V → Type 0) (k : Keeps Q) where
  start_watch-keeps : (a : Attempt V) (wc : WatcherCache P V) → Q wc → Q (start_watch a wc).0
  start_watch-keeps a wc q = go a.watch_reply a.done_after_watch
    where
      go :
          (r : WatchReply) (done : Bool)
          → Q
              (elim r as (λ _. WatcherCache P V × Bool) [
                | watching w ↦ (record wc { watch = some w }, false)
                | not_supported ↦ if done then (clean_existing_watcher wc, false) else (wc, true)
                | watch_failed ↦ (wc, true)
              ]).0
      go (watching w) done = k.watched w wc q
      go not_supported true = k.cleaned wc q
      go not_supported false = q
      go watch_failed done = q

  resync_round-keeps :
      (full : Bool) (a : Attempt V) (wc : WatcherCache P V) → Q wc → Q (resync_round full a wc).0
  unfolding resync_round
  resync_round-keeps full a wc q = go a.done_first full a.list_reply a.done_after_list
    where
      go :
          (done full : Bool) (l : Option (KvPairList V)) (waited : Bool)
          → Q
              (resync_round full
                (record a { done_first = done; list_reply = l; done_after_list = waited })
                wc).0
      go true full l waited = k.cleaned wc q
      go false true none true = k.cleaned (notify_processor wc) (k.notified wc q)
      go false true none false = k.notified wc q
      go false true (some l) waited =
          start_watch-keeps a (process_list l (notify_processor wc))
            (k.listed l (notify_processor wc) (k.notified wc q))
      go false false l waited = start_watch-keeps a wc q

  resync_loop-keeps :
      (full : Bool) (script : List (Attempt V)) (wc : WatcherCache P V)
      → Q wc
      → Q (resync_loop full script wc).0
  unfolding resync_loop
  resync_loop-keeps full [] wc q = q
  resync_loop-keeps full (a ∷ script) wc q = go (resync_round full a wc).1 (
      resync_loop-keeps (resync_round full a wc).2 script (resync_round full a wc).0
        (resync_round-keeps full a wc q))
    where
      go :
          (again : Bool)
          → Q (resync_loop (resync_round full a wc).2 script (resync_round full a wc).0).0
          → Q
              (if again
                then resync_loop (resync_round full a wc).2 script (resync_round full a wc).0
                else ((resync_round full a wc).0, true)).0
      go true rest = rest
      go false rest = resync_round-keeps full a wc q

  pub resync-keeps :
      (script : List (Attempt V)) (wc : WatcherCache P V)
      → Q wc
      → Q (resync_and_create_watcher script wc).0
  unfolding resync_and_create_watcher
  resync-keeps script wc q = resync_loop-keeps _ script (clean_existing_watcher wc) (k.cleaned wc q)

  resynced-keeps : (r : WatcherCache P V × Bool) → Q r.0 → Q (resynced r).0
  resynced-keeps (wc, true) q = q
  resynced-keeps (wc, false) q = q

  handle_event-keeps :
      (e : WatchEvent V) (script : List (Attempt V)) (wc : WatcherCache P V)
      → Q wc
      → Q (handle_event e script wc).0
  handle_event-keeps (WatchEvent.added kvp) script wc q = k.evented kvp wc q
  handle_event-keeps (WatchEvent.modified kvp) script wc q = k.evented kvp wc q
  handle_event-keeps (WatchEvent.deleted (some kvp)) script wc q =
      k.evented (record kvp { value = none }) wc q
  handle_event-keeps (WatchEvent.deleted none) script wc q = q
  handle_event-keeps WatchEvent.watch_error script wc q =
      let wc' = record wc { current_watch_revision = "" } in
      resynced-keeps (resync_and_create_watcher script wc')
        (resync-keeps script wc' (k.revised "" wc q))
  handle_event-keeps WatchEvent.unknown script wc q = q

  handle_input-keeps : (i : Input V) (wc : WatcherCache P V) → Q wc → Q (handle_input i wc).0
  handle_input-keeps Input.context_done wc q = k.cleaned wc q
  handle_input-keeps (Input.channel_closed script) wc q =
      resynced-keeps (resync_and_create_watcher script wc) (resync-keeps script wc q)
  handle_input-keeps (Input.event e script) wc q = handle_event-keeps e script wc q

  main_round-keeps : (i : Input V) (wc : WatcherCache P V) → Q wc → Q (main_round i wc).0
  unfolding main_round
  main_round-keeps i wc q = go wc.watch
    where
      go :
          (o : Option ℕ)
          → Q
              (elim o as (λ _. WatcherCache P V × Progress) [
                | none ↦ (wc, Progress.exited)
                | some _ ↦ handle_input i wc
              ]).0
      go none = q
      go (some w) = handle_input-keeps i wc q

  pub main_loop-Ends :
      (is : List (Input V)) (wc : WatcherCache P V) → Q wc → Ends Q (main_loop is wc)
  unfolding main_loop
  main_loop-Ends [] wc q = go wc.watch
    where
      go :
          (o : Option ℕ)
          → Ends Q (elim o as (λ _. WatcherCache P V × Progress) [
            | none ↦ (emit_deletes wc, Progress.exited)
            | some _ ↦ (wc, Progress.looping)
          ])
      go none = (wc, q, refl)
      go (some w) = q
  main_loop-Ends (i ∷ is) wc q =
      go (main_round i wc).1 (main_loop-Ends is (main_round i wc).0 (main_round-keeps i wc q))
    where
      wc' : WatcherCache P V
      wc' = (main_round i wc).0

      go :
          (p : Progress)
          → Ends Q (main_loop is wc')
          → Ends Q (elim p as (λ _. WatcherCache P V × Progress) [
            | Progress.looping ↦ main_loop is wc'
            | Progress.exited ↦ (emit_deletes wc', Progress.exited)
            | Progress.resyncing ↦ (wc', Progress.resyncing)
            | Progress.panicked ↦ (wc', Progress.panicked)
          ])
      go Progress.looping rest = rest
      go Progress.exited rest = (wc', main_round-keeps i wc q, refl)
      go Progress.resyncing rest = main_round-keeps i wc q
      go Progress.panicked rest = main_round-keeps i wc q

  pub run-Ends :
      (script : List (Attempt V)) (is : List (Input V)) (wc : WatcherCache P V)
      → Q wc
      → Ends Q (run script is wc)
  unfolding run
  run-Ends script is wc q = go (resync_and_create_watcher script wc) (resync-keeps script wc q)
    where
      go : (r : WatcherCache P V × Bool) → Q r.0 → Ends Q (start_loop is (resynced r))
      go (wc', true) q' = main_loop-Ends is wc' q'
      go (wc', false) q' = q'
