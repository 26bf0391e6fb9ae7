-- ===== src/WatcherSyncer/Cache/Loop.antt =====
-- watchercache.go: the resync loop and the main loop. The datastore's answers and the ticks of the
-- context are scripts: one `Attempt` for each round of the resync loop and one `Input` for each round
-- of the main loop.
pub mod Run
pub mod Legal
use text.Mathlib.Text.{◌==◌ as str_eq}
use zyzxlibcalico_go.Prelude.{
  Bool, true, false, Option, none, some, List, [], ◌∷◌, ◌++◌, if◌then◌else◌,
}
use zyzxlibcalico_go.Prelude.Dict.{Dict}
use zyzxlibcalico_go.WatcherSyncer.Api.{
  Message, updates, WatchEvent, KvPairList, WatchReply, watching, not_supported, watch_failed,
}
use zyzxlibcalico_go.WatcherSyncer.Cache.{
  CacheEntry, WatcherCache, deletion, handle_watch_list_event, clean_existing_watcher, process_list,
  notify_processor,
}

-- One round of the resync loop: whether the context is done at its three selects, and what List and
-- Watch answer.
pub record Attempt (V : Type 0) : Type 0 where
  pub done_first : Bool
  pub list_reply : Option (KvPairList V)
  pub done_after_list : Bool
  pub watch_reply : WatchReply
  pub done_after_watch : Bool

-- One round of the main loop; a resync that it starts runs on the script given with it.
pub data Input (V : Type 0) : Type 0 where
  context_done : Input V
  channel_closed : List (Attempt V) → Input V
  event : WatchEvent V → List (Attempt V) → Input V

-- Whether the goroutine is in its main loop, in a resync whose script has ended, has returned, or has
-- panicked.
pub data Progress : Type 0 where
  looping resyncing exited panicked : Progress

module _ {V : Type 0} where
  -- One message for each entry of a map.
  unfoldable pub exit_messages : Dict CacheEntry → List (Message V)
  exit_messages [] = []
  exit_messages ((_, r) ∷ m) = updates (deletion r.key ∷ []) ∷ exit_messages m

module _ {P V : Type 0} where
  -- The end of a round: start watching, and whether to go round again with a full resync.
  abbrev start_watch : Attempt V → WatcherCache P V → WatcherCache P V × Bool
  start_watch a wc = elim a.watch_reply [
    | watching w ↦ (record wc { watch = some w }, false)
    | not_supported ↦ if a.done_after_watch then (clean_existing_watcher wc, false) else (wc, true)
    | watch_failed ↦ (wc, true)
  ]

  -- One round of the resync loop: the new state, whether the loop goes on, and whether the next
  -- round is a full resync.
  unfoldable pub resync_round : Bool → Attempt V → WatcherCache P V → WatcherCache P V × Bool × Bool
  resync_round full a wc =
      if a.done_first
      then (clean_existing_watcher wc, false, full)
      else if full
      then (let wc = notify_processor wc in
          elim a.list_reply [
            | none ↦
                if a.done_after_list
                then (clean_existing_watcher wc, false, full)
                else (wc, true, full)
            | some l ↦ let (wc, again) = start_watch a (process_list l wc) in (wc, again, true)
          ])
      else (let (wc, again) = start_watch a wc in (wc, again, true))

  -- The loop, on a script. The last component says whether the loop has returned: it has not when
  -- the script ends first.
  unfoldable pub resync_loop : Bool → List (Attempt V) → WatcherCache P V → WatcherCache P V × Bool
  resync_loop full [] wc = (wc, false)
  resync_loop full (a ∷ script) wc =
      let (wc', again, full') = resync_round full a wc in
      let rest = resync_loop full' script wc' in if again then rest else (wc', true)

  unfoldable pub resync_and_create_watcher :
      List (Attempt V) → WatcherCache P V → WatcherCache P V × Bool
  resync_and_create_watcher script wc =
      let wc = clean_existing_watcher wc in
      resync_loop (str_eq wc.current_watch_revision "") script wc

  unfoldable pub emit_deletes : WatcherCache P V → WatcherCache P V
  emit_deletes wc = record wc { results = wc.results ++ exit_messages wc.resources }

  abbrev resynced : WatcherCache P V × Bool → WatcherCache P V × Progress
  resynced (wc, true) = (wc, Progress.looping)
  resynced (wc, false) = (wc, Progress.resyncing)

  abbrev handle_event :
      WatchEvent V → List (Attempt V) → WatcherCache P V → WatcherCache P V × Progress
  handle_event (WatchEvent.added kvp) script wc = (handle_watch_list_event kvp wc, Progress.looping)
  handle_event (WatchEvent.modified kvp) script wc =
      (handle_watch_list_event kvp wc, Progress.looping)
  handle_event (WatchEvent.deleted (some kvp)) script wc =
      (handle_watch_list_event (record kvp { value = none }) wc, Progress.looping)
  handle_event (WatchEvent.deleted none) script wc = (wc, Progress.panicked)
  handle_event WatchEvent.watch_error script wc =
      resynced (resync_and_create_watcher script (record wc { current_watch_revision = "" }))
  handle_event WatchEvent.unknown script wc = (wc, Progress.looping)

  abbrev handle_input : Input V → WatcherCache P V → WatcherCache P V × Progress
  handle_input Input.context_done wc = (clean_existing_watcher wc, Progress.exited)
  handle_input (Input.channel_closed script) wc = resynced (resync_and_create_watcher script wc)
  handle_input (Input.event e script) wc = handle_event e script wc

  -- One round of the main loop.
  unfoldable pub main_round : Input V → WatcherCache P V → WatcherCache P V × Progress
  main_round i wc = elim wc.watch [ none ↦ (wc, Progress.exited) | some _ ↦ handle_input i wc ]

  unfoldable pub main_loop : List (Input V) → WatcherCache P V → WatcherCache P V × Progress
  main_loop [] wc = elim wc.watch [
    | none ↦ (emit_deletes wc, Progress.exited)
    | some _ ↦ (wc, Progress.looping)
  ]
  main_loop (i ∷ is) wc =
      let (wc', p) = main_round i wc in
      let rest = main_loop is wc' in
      elim p [
        | Progress.looping ↦ rest
        | Progress.exited ↦ (emit_deletes wc', Progress.exited)
        | Progress.resyncing ↦ (wc', Progress.resyncing)
        | Progress.panicked ↦ (wc', Progress.panicked)
      ]

  abbrev start_loop : List (Input V) → WatcherCache P V × Progress → WatcherCache P V × Progress
  start_loop inputs (wc, Progress.looping) = main_loop inputs wc
  start_loop inputs (wc, p) = (wc, p)

  unfoldable pub run :
      List (Attempt V) → List (Input V) → WatcherCache P V → WatcherCache P V × Progress
  run script inputs wc = start_loop inputs (resynced (resync_and_create_watcher script wc))
