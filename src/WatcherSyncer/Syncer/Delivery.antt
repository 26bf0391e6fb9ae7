-- ===== src/WatcherSyncer/Syncer/Delivery.antt =====
-- The syncer loses, repeats and reorders no update.
use zyzxlibcalico_go.Prelude.{
  ℕ, ◌+◌, ◌≡◌, refl, ◌∙◌, sym, ap, Bool, true, false, Option, none, some, List, [], ◌∷◌, ◌++◌, ◌==◌,
  if◌then◌else◌, arith, Bool-cases, inl, inr,
}
use mathlib.Core.List.{append_assoc, append-nil}
use zyzxlibcalico_go.WatcherSyncer.Api.{
  Update, SyncStatus, wait_for_datastore, resync_in_progress, in_sync, SyncError, parsing, other,
  Message, updates, failed, synced,
}
use zyzxlibcalico_go.WatcherSyncer.Syncer.{
  new_syncer, Callback, on_updates, on_status_updated, parse_failed, WatcherSyncer, is_empty, call,
  send_status_update, send_updates, start_resync, report, finish_sync, process_result, consolidate,
  main_round, main_loop, run,
}

module _ {V : Type 0} where
  -- The updates that the callbacks have received.
  abbrev pub delivered : List (Callback V) → List (Update V)
  delivered [] = []
  delivered (on_updates us ∷ cs) = us ++ delivered cs
  delivered (on_status_updated s ∷ cs) = delivered cs
  delivered (parse_failed k v ∷ cs) = delivered cs

  abbrev pub carried : Option (Message V) → List (Update V)
  carried (some (updates us)) = us
  carried _ = []

  abbrev pub carried_all : List (Option (Message V)) → List (Update V)
  carried_all [] = []
  carried_all (r ∷ rs) = carried r ++ carried_all rs

  abbrev pub received : List (Message V × List (Option (Message V))) → List (Update V)
  received [] = []
  received ((m, ready) ∷ rs) = carried (some m) ++ (carried_all ready ++ received rs)

  pub delivered-append :
      (cs : List (Callback V)) (c : Callback V)
      → delivered (cs ++ c ∷ []) ≡ delivered cs ++ delivered (c ∷ [])
  delivered-append [] c = refl
  delivered-append (on_updates us ∷ cs) c =
      rw (delivered-append cs c) (sym (append_assoc us (delivered cs) _))
  delivered-append (on_status_updated s ∷ cs) c = delivered-append cs c
  delivered-append (parse_failed k v ∷ cs) c = delivered-append cs c

  pub delivered-status :
      (s : SyncStatus) (ws : WatcherSyncer V)
      → delivered (send_status_update s ws).called ≡ delivered ws.called
  unfolding send_status_update
  delivered-status s ws = delivered-append ws.called (on_status_updated s) ∙ append-nil _

  pub delivered-send_updates :
      (us : List (Update V)) (ws : WatcherSyncer V)
      → delivered (send_updates us ws).called ≡ delivered ws.called ++ us
  unfolding send_updates
  delivered-send_updates [] ws = sym (append-nil _)
  delivered-send_updates (u ∷ us) ws =
      delivered-append ws.called (on_updates (u ∷ us))
      ∙ ap (λ l. delivered ws.called ++ l) (append-nil _)

  pub delivered-start_resync :
      (ws : WatcherSyncer V) → delivered (start_resync ws).called ≡ delivered ws.called
  delivered-start_resync ws = ground (arith, delivered-status resync_in_progress ws)

  delivered-report :
      (e : SyncError) (ws : WatcherSyncer V) → delivered (report e ws).called ≡ delivered ws.called
  delivered-report (parsing k v) ws = go ws.parse_fail_callbacks
    where
      go :
          (b : Bool)
          → delivered (if b then call (parse_failed k v) ws else ws).called ≡ delivered ws.called
      go true = delivered-append ws.called (parse_failed k v) ∙ append-nil _
      go false = refl
  delivered-report other ws = refl

  -- What has been delivered, and then what is grouped.
  abbrev pub taken : List (Update V) × WatcherSyncer V → List (Update V)
  taken (us, ws) = delivered ws.called ++ us

  taken-finish_sync :
      (us : List (Update V)) (ws : WatcherSyncer V)
      → taken (finish_sync us ws) ≡ delivered ws.called ++ us
  taken-finish_sync us ws = elim (Bool-cases (ws.num_synced == ws.num_caches)) [
    | inl done ↦ rw done (
        append-nil _
        ∙ (delivered-status in_sync (send_updates us ws) ∙ delivered-send_updates us ws))
    | inr more ↦ rw more
  ]

  taken-start :
      (us r : List (Update V)) (ws : WatcherSyncer V)
      → delivered (if is_empty us then start_resync ws else ws).called ≡ delivered ws.called
  taken-start [] r ws = delivered-start_resync ws
  taken-start (u ∷ us) r ws = refl

  pub taken-process_result :
      (us : List (Update V)) (r : Option (Message V)) (ws : WatcherSyncer V)
      → taken (process_result us r ws) ≡ (delivered ws.called ++ us) ++ carried r
  unfolding process_result
  taken-process_result us none ws = sym (append-nil _)
  taken-process_result us (some (updates r)) ws =
      ap (λ l. l ++ (us ++ r)) (taken-start us r ws) ∙ sym (append_assoc (delivered ws.called) us r)
  taken-process_result us (some (failed e)) ws =
      append-nil _
      ∙ (delivered-report e (send_updates us ws)
          ∙ (delivered-send_updates us ws ∙ sym (append-nil _)))
  taken-process_result us (some (synced in_sync)) ws =
      let ws' = start_resync ws in
      taken-finish_sync us (record ws' { num_synced = ws'.num_synced + 1 })
      ∙ (ap (λ l. l ++ us) (delivered-start_resync ws) ∙ sym (append-nil _))
  taken-process_result us (some (synced s)) ws = sym (append-nil _)

  taken-consolidate :
      (rs : List (Option (Message V))) (us : List (Update V)) (ws : WatcherSyncer V)
      → taken (consolidate rs us ws) ≡ (delivered ws.called ++ us) ++ carried_all rs
  unfolding consolidate
  taken-consolidate [] us ws = sym (append-nil _)
  taken-consolidate (r ∷ rs) us ws =
      let (us', ws') = process_result us r ws in
      taken-consolidate rs us' ws'
      ∙ (ap (λ l. l ++ carried_all rs) (taken-process_result us r ws)
          ∙ append_assoc (delivered ws.called ++ us) (carried r) (carried_all rs))

  delivered-main_round :
      (r : Message V × List (Option (Message V))) (ws : WatcherSyncer V)
      → delivered (main_round r ws).called
        ≡ delivered ws.called ++ (carried (some r.0) ++ carried_all r.1)
  unfolding main_round
  delivered-main_round (m, ready) ws =
      let (us, ws') = process_result [] (some m) ws in
      let (us', ws'') = consolidate ready us ws' in
      delivered-send_updates us' ws''
      ∙ (taken-consolidate ready us ws'
          ∙ (ap (λ l. l ++ carried_all ready) (taken-process_result [] (some m) ws)
              ∙ simp (append-nil, append_assoc)))

  delivered-main_loop :
      (rounds : List (Message V × List (Option (Message V)))) (ws : WatcherSyncer V)
      → delivered (main_loop rounds ws).called ≡ delivered ws.called ++ received rounds
  unfolding main_loop
  delivered-main_loop [] ws = sym (append-nil _)
  delivered-main_loop ((m, ready) ∷ rounds) ws =
      delivered-main_loop rounds (main_round (m, ready) ws)
      ∙ (ap (λ l. l ++ received rounds) (delivered-main_round (m, ready) ws) ∙ simp (append_assoc))

  -- However the results are grouped into rounds, the updates that the callbacks receive, one after
  -- another, are those that the caches sent, in the same order: none is lost or repeated, whatever
  -- errors and status changes come between.
  pub delivered-run :
      (rounds : List (Message V × List (Option (Message V)))) (n : ℕ) (p : Bool)
      → delivered (run rounds (new_syncer n p)).called ≡ received rounds
  unfolding run new_syncer
  delivered-run rounds n p =
      delivered-main_loop rounds (send_status_update wait_for_datastore (new_syncer n p))
      ∙ ap (λ l. l ++ received rounds) (delivered-status wait_for_datastore (new_syncer n p))
