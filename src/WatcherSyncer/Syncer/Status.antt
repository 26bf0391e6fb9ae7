-- ===== src/WatcherSyncer/Syncer/Status.antt =====
-- When the syncer reports InSync, and what its client has by then.
use zyzxlibcalico_go.Prelude.{
  ==_iff, ℕ, ◌+◌, ◌-◌, ◌<◌, ◌≡◌, refl, ◌∙◌, sym, ap, Bool, true, Option, none, some, List, [], ◌∷◌,
  ◌++◌, ◌==◌, if◌then◌else◌, arith, Bool-cases, inl, inr,
}
use mathlib.Core.List.{append_assoc, append-nil}
use zyzxlibcalico_go.WatcherSyncer.Api.{
  Update, wait_for_datastore, resync_in_progress, in_sync, SyncError, parsing, other, Message,
  updates, failed, synced,
}
use zyzxlibcalico_go.WatcherSyncer.Syncer.{
  Callback, on_updates, on_status_updated, parse_failed, WatcherSyncer, send_status_update,
  send_updates, start_resync, report, finish_sync, process_result, consolidate, main_round,
  main_loop, run, new_syncer,
}
use zyzxlibcalico_go.WatcherSyncer.Syncer.Delivery.{
  delivered-send_updates, delivered-start_resync, delivered, taken-process_result, carried,
}

-- The client's picture: how many caches have still to report, the updates so far, and those that
-- stood in it when the last cache reported.
pub record Picture (V : Type 0) : Type 0 where
  pub left : ℕ
  pub got : List (Update V)
  pub full : Option (List (Update V))

module _ {V : Type 0} where
  abbrev pub observe : Picture V → Option (Message V) → Picture V
  observe p (some (updates us)) = record p { got = p.got ++ us }
  observe p (some (synced in_sync)) = record p {
    left = p.left - 1;
    full = if p.left == 1 then some p.got else p.full;
  }
  observe p _ = p

  abbrev pub observe_all : Picture V → List (Option (Message V)) → Picture V
  observe_all p [] = p
  observe_all p (r ∷ rs) = observe_all (observe p r) rs

  abbrev pub observe_rounds : Picture V → List (Message V × List (Option (Message V))) → Picture V
  observe_rounds p [] = p
  observe_rounds p ((m, ready) ∷ rounds) =
      observe_rounds (observe_all (observe p (some m)) ready) rounds

  -- What the callbacks had received when they were first told InSync.
  abbrev pub at_sync : List (Update V) → List (Callback V) → Option (List (Update V))
  at_sync acc [] = none
  at_sync acc (on_updates us ∷ cs) = at_sync (acc ++ us) cs
  at_sync acc (on_status_updated in_sync ∷ cs) = some acc
  at_sync acc (on_status_updated s ∷ cs) = at_sync acc cs
  at_sync acc (parse_failed k v ∷ cs) = at_sync acc cs

  abbrev or_else : Option (List (Update V)) → Option (List (Update V)) → Option (List (Update V))
  or_else none o = o
  or_else (some a) o = some a

  at_sync-append :
      (acc : List (Update V)) (cs : List (Callback V)) (c : Callback V)
      → at_sync acc (cs ++ c ∷ [])
        ≡ or_else (at_sync acc cs) (at_sync (acc ++ delivered cs) (c ∷ []))
  at_sync-append acc [] c = rw append-nil
  at_sync-append acc (on_updates us ∷ cs) c =
      rw (← append_assoc acc us (delivered cs)) (at_sync-append (acc ++ us) cs c)
  at_sync-append acc (on_status_updated in_sync ∷ cs) c = refl
  at_sync-append acc (on_status_updated s ∷ cs) c = at_sync-append acc cs c
  at_sync-append acc (parse_failed k v ∷ cs) c = at_sync-append acc cs c

  -- Only an InSync changes it.
  at_sync-quiet :
      (cs : List (Callback V)) (c : Callback V)
      → ((acc : List (Update V)) → at_sync acc (c ∷ []) ≡ none)
      → at_sync [] (cs ++ c ∷ []) ≡ at_sync [] cs
  at_sync-quiet cs c quiet = rw (at_sync-append [] cs c, quiet) (go (at_sync [] cs))
    where
      go : (o : Option (List (Update V))) → or_else o none ≡ o
      go none = refl
      go (some a) = refl

  record Shows (us : List (Update V)) (ws : WatcherSyncer V) (p : Picture V) : Type 0 where
    left : p.left ≡ ws.num_caches - ws.num_synced
    got : p.got ≡ delivered ws.called ++ us
    full : at_sync [] ws.called ≡ p.full
    waits : 0 < p.left → p.full ≡ none

  at_sync-send_updates :
      (us : List (Update V)) (ws : WatcherSyncer V)
      → at_sync [] (send_updates us ws).called ≡ at_sync [] ws.called
  unfolding send_updates
  at_sync-send_updates [] ws = refl
  at_sync-send_updates (u ∷ us) ws = at_sync-quiet ws.called (on_updates (u ∷ us)) (λ acc. refl)

  at_sync-start_resync :
      (ws : WatcherSyncer V) → at_sync [] (start_resync ws).called ≡ at_sync [] ws.called
  unfolding send_status_update
  at_sync-start_resync ws =
      ground (arith, at_sync-quiet ws.called (on_status_updated resync_in_progress) (λ acc. refl))

  at_sync-report :
      (e : SyncError) (ws : WatcherSyncer V)
      → at_sync [] (report e ws).called ≡ at_sync [] ws.called
  at_sync-report (parsing k v) ws =
      ground (arith, at_sync-quiet ws.called (parse_failed k v) (λ acc. refl))
  at_sync-report other ws = refl

  abbrev reported : Option (Message V) → ℕ
  reported (some (synced in_sync)) = 1
  reported _ = 0

  counts-process_result :
      (us : List (Update V)) (r : Option (Message V)) (ws : WatcherSyncer V)
      → ((process_result us r ws).1.num_caches ≡ ws.num_caches)
        × ((process_result us r ws).1.num_synced ≡ ws.num_synced + reported r)
  unfolding process_result send_updates send_status_update
  counts-process_result us none ws = (refl, omega arith)
  counts-process_result us (some (updates r)) ws = (ground arith, ground arith)
  counts-process_result us (some (failed e)) ws = (ground arith, ground arith)
  counts-process_result us (some (synced in_sync)) ws = (ground arith, ground arith)
  counts-process_result us (some (synced s)) ws = (refl, omega arith)

  got-observe : (p : Picture V) (r : Option (Message V)) → (observe p r).got ≡ p.got ++ carried r
  got-observe p none = sym (append-nil _)
  got-observe p (some (updates us)) = refl
  got-observe p (some (failed e)) = sym (append-nil _)
  got-observe p (some (synced in_sync)) = sym (append-nil _)
  got-observe p (some (synced s)) = sym (append-nil _)

  left-observe : (p : Picture V) (r : Option (Message V)) → (observe p r).left ≡ p.left - reported r
  left-observe p none = omega arith
  left-observe p (some (updates us)) = omega arith
  left-observe p (some (failed e)) = omega arith
  left-observe p (some (synced in_sync)) = refl
  left-observe p (some (synced s)) = omega arith

  waits-observe :
      (p : Picture V) (r : Option (Message V))
      → (0 < p.left → p.full ≡ none)
      → 0 < (observe p r).left
      → (observe p r).full ≡ none
  waits-observe p (some (synced in_sync)) w h = ground arith
  waits-observe p _ w h = w h

  -- The last report: all that is grouped is sent before the status.
  at_sync-finish_sync :
      (us : List (Update V)) (ws : WatcherSyncer V) (p : Picture V)
      → p.left ≡ ws.num_caches - (ws.num_synced - 1)
      → 0 < ws.num_synced
      → p.got ≡ delivered ws.called ++ us
      → at_sync [] ws.called ≡ p.full
      → (0 < p.left → p.full ≡ none)
      → at_sync [] (finish_sync us ws).1.called ≡ (if p.left == 1 then some p.got else p.full)
  unfolding send_status_update
  at_sync-finish_sync us ws p left pos got full waits =
      elim (Bool-cases (ws.num_synced == ws.num_caches)) [
        | inl done ↦
            let one : (p.left == 1) ≡ true = ground arith in
            let silent : at_sync [] (send_updates us ws).called ≡ none =
              at_sync-send_updates us ws
              ∙ (full ∙ waits (omega (arith, (==_iff p.left 1).0 one))) in
            rw (done, one)
              (at_sync-append [] (send_updates us ws).called (on_status_updated in_sync)
                ∙ (ap (λ o. or_else o (some (delivered (send_updates us ws).called))) silent
                    ∙ ap some (delivered-send_updates us ws ∙ sym got)))
        | inr more ↦ ground arith
      ]

  counts-start_resync :
      (ws : WatcherSyncer V)
      → ((start_resync ws).num_caches ≡ ws.num_caches)
        × ((start_resync ws).num_synced ≡ ws.num_synced)
  unfolding send_status_update
  counts-start_resync ws = (ground arith, ground arith)

  full-observe :
      (us : List (Update V)) (r : Option (Message V)) (ws : WatcherSyncer V) (p : Picture V)
      → Shows us ws p
      → at_sync [] (process_result us r ws).1.called ≡ (observe p r).full
  unfolding process_result
  full-observe us none ws p s = s.full
  full-observe us (some (updates r)) ws p s = ground (arith, at_sync-start_resync ws)
  full-observe us (some (failed e)) ws p s =
      at_sync-report e (send_updates us ws) ∙ (at_sync-send_updates us ws ∙ s.full)
  full-observe us (some (synced in_sync)) ws p s =
      let ws' = start_resync ws in
      let (caches, reports) = counts-start_resync ws in
      at_sync-finish_sync us (record ws' { num_synced = ws'.num_synced + 1 }) p
        (omega (arith, s.left, caches, reports)) (omega arith)
        (s.got ∙ ap (λ l. l ++ us) (sym (delivered-start_resync ws)))
        (at_sync-start_resync ws ∙ s.full) s.waits
  full-observe us (some (synced _)) ws p s = s.full

  Shows-process_result :
      (us : List (Update V)) (r : Option (Message V)) (ws : WatcherSyncer V) (p : Picture V)
      → Shows us ws p
      → Shows (process_result us r ws).0 (process_result us r ws).1 (observe p r)
  Shows-process_result us r ws p s = record {
    left = omega (arith, left-observe p r, counts-process_result us r ws, s.left);
    got = got-observe p r ∙ (ap (λ l. l ++ carried r) s.got ∙ sym (taken-process_result us r ws));
    full = full-observe us r ws p s;
    waits = waits-observe p r s.waits;
  }

  Shows-consolidate :
      (rs : List (Option (Message V))) (us : List (Update V)) (ws : WatcherSyncer V) (p : Picture V)
      → Shows us ws p
      → Shows (consolidate rs us ws).0 (consolidate rs us ws).1 (observe_all p rs)
  unfolding consolidate
  Shows-consolidate [] us ws p s = s
  Shows-consolidate (r ∷ rs) us ws p s =
      Shows-consolidate rs (process_result us r ws).0 (process_result us r ws).1 (observe p r)
        (Shows-process_result us r ws p s)

  counts-send_updates :
      (us : List (Update V)) (ws : WatcherSyncer V)
      → ((send_updates us ws).num_caches ≡ ws.num_caches)
        × ((send_updates us ws).num_synced ≡ ws.num_synced)
  unfolding send_updates
  counts-send_updates us ws = (ground arith, ground arith)

  Shows-send_updates :
      (us : List (Update V)) (ws : WatcherSyncer V) (p : Picture V)
      → Shows us ws p
      → Shows [] (send_updates us ws) p
  Shows-send_updates us ws p s = record {
    left = omega (arith, s.left, counts-send_updates us ws);
    got = s.got ∙ (sym (delivered-send_updates us ws) ∙ sym (append-nil _));
    full = at_sync-send_updates us ws ∙ s.full;
    waits = s.waits;
  }

  Shows-main_loop :
      (rounds : List (Message V × List (Option (Message V)))) (ws : WatcherSyncer V) (p : Picture V)
      → Shows [] ws p
      → Shows [] (main_loop rounds ws) (observe_rounds p rounds)
  unfolding main_loop main_round
  Shows-main_loop [] ws p s = s
  Shows-main_loop ((m, ready) ∷ rounds) ws p s =
      let one = Shows-process_result [] (some m) ws p s in
      let all = Shows-consolidate ready _ _ (observe p (some m)) one in
      Shows-main_loop rounds (main_round (m, ready) ws) (observe_all (observe p (some m)) ready)
        (Shows-send_updates _ _ _ all)

  -- The callbacks are told InSync exactly if as many InSync messages arrive as there are caches, at
  -- least one. By then they have received all updates that arrived before the last of these messages,
  -- and none that arrived after it, however the results are grouped into rounds.
  pub at_sync-run :
      (rounds : List (Message V × List (Option (Message V)))) (n : ℕ) (b : Bool)
      → at_sync [] (run rounds (new_syncer n b)).called
        ≡ (observe_rounds (record { left = n; got = []; full = none }) rounds).full
  unfolding run new_syncer send_status_update
  at_sync-run rounds n b =
      (Shows-main_loop rounds (send_status_update wait_for_datastore (new_syncer n b))
        (record { left = n; got = []; full = none })
        (record { left = omega arith; got = refl; full = refl; waits = λ h. refl })).full
