-- ===== src/WatcherSyncer/Cache/Settled.antt =====
-- Between two resyncs nothing waits for revalidation, and a resync ends in such a state.
use zyzxlibcalico_go.Prelude.{
  String, if◌then◌else◌, Option-cases, ◌≡◌, refl, Bool, true, false, Option, none, some, List, [],
  ◌∷◌, arith, inl, inr,
}
use zyzxlibcalico_go.Prelude.Dict.{Dict, lookup}
use zyzxlibcalico_go.WatcherSyncer.Api.{KvPair, KvPairList, SyncStatus, SyncError, updates, synced}
use zyzxlibcalico_go.WatcherSyncer.Cache.{
  send, deletions, CacheEntry, WatcherCache, UpdateProcessor, mark_as_valid,
  handle_added_or_modified_update, handle_deleted_update, handle_converted_watch_event, handle_all,
  convert, send_error, handle_watch_list_event, handle_list, finish_resync, send_synced, send_old,
  process_list,
}
use zyzxlibcalico_go.WatcherSyncer.Cache.View.{Known, Coherent, cached, read, read-append}
use zyzxlibcalico_go.WatcherSyncer.Cache.Deletions.{read-deletions, without, Covers}
use zyzxlibcalico_go.WatcherSyncer.Cache.Coherence.{
  IsCoherent, handle_list-IsCoherent, handle_watch_list_event-IsCoherent, send-IsCoherent,
}

pub record IsSettled {P V : Type 0} (wc : WatcherCache P V) : Type 0 where
  pub coherent : IsCoherent wc
  pub nothing_old : wc.old_resources ≡ none

agrees_after :
    (res old : Dict CacheEntry) (v w : Known) (k : String)
    → w k ≡ without old v k
    → v k ≡ cached res old k
    → ((e : CacheEntry) → lookup k old ≡ some e → lookup k res ≡ none)
    → w k ≡ cached res [] k
unfolding lookup
agrees_after res old v w k same agrees disjoint = elim (Option-cases (lookup k old)) [
  | inl missing ↦ ground arith
  | inr (e, found) ↦ ground (arith, disjoint e found)
]

module _ {P V : Type 0} where
  old-converted :
      (kvp : KvPair V) (wc : WatcherCache P V)
      → wc.old_resources ≡ none
      → (handle_converted_watch_event kvp wc).old_resources ≡ none
  unfolding handle_converted_watch_event handle_added_or_modified_update handle_deleted_update
      mark_as_valid
  old-converted kvp wc h = ground arith

  old-handle_all :
      (kvps : List (KvPair V)) (wc : WatcherCache P V)
      → wc.old_resources ≡ none
      → (handle_all kvps wc).old_resources ≡ none
  unfolding handle_all
  old-handle_all [] wc h = h
  old-handle_all (kvp ∷ kvps) wc h =
      old-handle_all kvps (handle_converted_watch_event kvp wc) (old-converted kvp wc h)

  old-convert :
      (o : Option (UpdateProcessor P V)) (kvp : KvPair V) (wc : WatcherCache P V)
      → wc.old_resources ≡ none
      → (convert o kvp wc).old_resources ≡ none
  old-convert none kvp wc h = old-converted kvp wc h
  old-convert (some up) kvp wc h = go (up.process wc.processor_state kvp)
    where
      go :
          (r : P × List (KvPair V) × Option SyncError)
          → (send_error r.2 (handle_all r.1 (record wc { processor_state = r.0 }))).old_resources
            ≡ none
      go (p, kvps, none) = old-handle_all kvps (record wc { processor_state = p }) h
      go (p, kvps, some e) = old-handle_all kvps (record wc { processor_state = p }) h

  pub handle_watch_list_event-IsSettled :
      (kvp : KvPair V) (wc : WatcherCache P V)
      → IsSettled wc
      → IsSettled (handle_watch_list_event kvp wc)
  unfolding handle_watch_list_event
  handle_watch_list_event-IsSettled kvp wc s = record {
    coherent =
        unfold handle_watch_list_event in handle_watch_list_event-IsCoherent kvp wc s.coherent;
    nothing_old =
        old-convert wc.update_processor kvp (record wc { current_watch_revision = kvp.revision })
          s.nothing_old;
  }

  send_synced-IsCoherent : (wc : WatcherCache P V) → IsCoherent wc → IsCoherent (send_synced wc)
  send_synced-IsCoherent wc c = go wc.has_synced
    where
      go :
          (b : Bool)
          → IsCoherent
              (if b then wc else record (send (synced SyncStatus.in_sync) wc) { has_synced = true })
      go true = c
      go false = send-IsCoherent (synced SyncStatus.in_sync) wc (λ v. refl) c

  -- Each entry that waits is known to the client.
  Covers-old :
      (old : Dict CacheEntry) (wc : WatcherCache P V) (c : Coherent wc.resources old wc.results)
      → Covers c.known old
  Covers-old old wc c k e h = ground (arith, c.agrees k, c.disjoint k e h)

  -- The old entries are announced as deleted and forgotten.
  Coherent-send_old :
      (o : Option (Dict CacheEntry)) (wc : WatcherCache P V)
      → wc.old_resources ≡ o
      → IsCoherent wc
      → IsSettled (record (send_old o wc) { old_resources = none })
  Coherent-send_old none wc h c = record { coherent = rw h at c; nothing_old = refl }
  Coherent-send_old (some []) wc h c = record { coherent = rw h at c; nothing_old = refl }
  Coherent-send_old (some (e ∷ m)) wc h c =
      let c' : Coherent wc.resources (e ∷ m) wc.results = rw h at c in
      let (w, done, same) =
        read-deletions V (e ∷ m) c'.known c'.keyed_old (Covers-old (e ∷ m) wc c') in
      record {
        coherent = record {
          known = w;
          replayed = rw (read-append wc.results (updates (deletions (e ∷ m))) _ c'.replayed) done;
          agrees = λ k.
              agrees_after wc.resources (e ∷ m) c'.known w k (same k) (c'.agrees k) (c'.disjoint k);
          disjoint = λ k r h. unfold lookup in cc h;
          keyed = c'.keyed;
          keyed_old = tt;
        };
        nothing_old = refl;
      }

  pub finish_resync-IsSettled :
      (wc : WatcherCache P V) → IsCoherent wc → IsSettled (finish_resync wc)
  unfolding finish_resync
  finish_resync-IsSettled wc c =
      Coherent-send_old _ (send_synced wc) refl (send_synced-IsCoherent wc c)

  pub process_list-IsSettled :
      (l : KvPairList V) (wc : WatcherCache P V) → IsSettled wc → IsSettled (process_list l wc)
  unfolding process_list
  process_list-IsSettled l wc s =
      let wc' = record wc { old_resources = some wc.resources; resources = [] } in
      let start : IsCoherent wc' = record {
        known = s.coherent.known;
        replayed = s.coherent.replayed;
        agrees = λ k. unfold lookup in ground (arith, s.coherent.agrees k, s.nothing_old);
        disjoint = λ k e h. unfold lookup in refl;
        keyed = tt;
        keyed_old = s.coherent.keyed;
      } in
      let t =
        finish_resync-IsSettled (handle_list l.kv_pairs wc')
          (handle_list-IsCoherent l.kv_pairs wc' start) in
      record { coherent = t.coherent; nothing_old = t.nothing_old }

  -- What the client knows between two resyncs.
  pub settled_knows :
      (wc : WatcherCache P V)
      → IsSettled wc
      → (v : Known) × (read wc.results (λ k. none) ≡ some v)
        × ((k : String) → v k ≡ cached wc.resources [] k)
  settled_knows wc s =
      let c : Coherent wc.resources [] wc.results = rw s.nothing_old at s.coherent in
      (c.known, c.replayed, c.agrees)
