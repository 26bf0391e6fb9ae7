-- ===== src/WatcherSyncer/Cache/Coherence.antt =====
-- Every handler of the cache keeps the client's knowledge equal to what the cache holds.
use text.Mathlib.Text.{◌==◌ as str_eq}
use text.Mathlib.TextEquality.{eq_iff}
use text.Mathlib.TextPositions.{eq_refl}
use zyzxlibcalico_go.Prelude.{
  String, ◌≡◌, refl, Option, none, some, List, [], ◌∷◌, ◌++◌, arith, Bool-cases, Option-cases, inl,
  inr,
}
use zyzxlibcalico_go.Prelude.Dict.{Dict, lookup, insert, delete, lookup-insert, lookup-delete}
use zyzxlibcalico_go.WatcherSyncer.Api.{KvPair, Update, SyncError, Message, updates, failed}
use zyzxlibcalico_go.WatcherSyncer.Cache.{
  CacheEntry, WatcherCache, mark_as_valid, handle_added_or_modified_update, handle_deleted_update,
  mark_in, store, drop_entry, send, handle_converted_watch_event, handle_all, handle_list,
  handle_watch_list_event, send_error, convert, UpdateProcessor,
}
use zyzxlibcalico_go.WatcherSyncer.Cache.View.{
  read_message, Known, learn, accept, read_update, read_updates, Coherent, cached, Keyed-insert,
  Keyed-delete, Keyed-lookup, read-append,
}

abbrev pub old_entries : Option (Dict CacheEntry) → Dict CacheEntry
old_entries none = []
old_entries (some m) = m

abbrev pub IsCoherent : {P V : Type 0} → WatcherCache P V → Type 0
IsCoherent wc = Coherent wc.resources (old_entries wc.old_resources) wc.results

module _ {V : Type 0} (res old : Dict CacheEntry) (sent : List (Message V)) (k : String) where
  Coherent-mark :
      (r : CacheEntry)
      → lookup k old ≡ some r
      → Coherent res old sent
      → Coherent (insert k r res) (delete k old) sent
  Coherent-mark r found c = record {
    known = c.known;
    replayed = c.replayed;
    agrees = λ j. ground (
      arith,
      c.agrees j,
      c.disjoint k r found,
      lookup-insert k j r res,
      lookup-delete k j old,
      eq_iff k j,
    );
    disjoint =
        λ j e h. ground (arith, c.disjoint j e, lookup-insert k j r res, lookup-delete k j old);
    keyed = Keyed-insert k r res (Keyed-lookup k old c.keyed_old found) c.keyed;
    keyed_old = Keyed-delete k old c.keyed_old;
  }

  -- `k` no longer waits for revalidation, and an update that the client accepts is sent.
  Coherent-store :
      (u : Update V) (e : CacheEntry)
      → u.kv_pair.key ≡ k
      → lookup k old ≡ none
      → e.key ≡ k
      → accept u.update_type (cached res old k) u.kv_pair.revision ≡ some (some e.revision)
      → Coherent res old sent
      → Coherent (insert k e res) old (sent ++ updates (u ∷ []) ∷ [])
  unfolding read_updates read_update
  Coherent-store u e same marked own accepted c = record {
    known = learn k (some e.revision) c.known;
    replayed =
        rw (read-append sent (updates (u ∷ [])) _ c.replayed)
          (rw (same, c.agrees k, accepted) refl);
    agrees = λ j. ground (arith, c.agrees j, lookup-insert k j e res, eq_iff k j);
    disjoint = λ j e' h. ground (arith, c.disjoint j e', lookup-insert k j e res, eq_iff k j);
    keyed = Keyed-insert k e res own c.keyed;
    keyed_old = c.keyed_old;
  }

  Coherent-drop :
      (u : Update V)
      → u.kv_pair.key ≡ k
      → lookup k old ≡ none
      → accept u.update_type (cached res old k) u.kv_pair.revision ≡ some none
      → Coherent res old sent
      → Coherent (delete k res) old (sent ++ updates (u ∷ []) ∷ [])
  unfolding read_updates read_update
  Coherent-drop u same marked accepted c = record {
    known = learn k none c.known;
    replayed =
        rw (read-append sent (updates (u ∷ [])) _ c.replayed)
          (rw (same, c.agrees k, accepted) refl);
    agrees = λ j. ground (arith, c.agrees j, lookup-delete k j res, eq_iff k j);
    disjoint = λ j e' h. ground (arith, c.disjoint j e', lookup-delete k j res);
    keyed = Keyed-delete k res c.keyed;
    keyed_old = c.keyed_old;
  }

module _ {P V : Type 0} where
  mark_in-IsCoherent :
      (k : String) (o : Option (Dict CacheEntry)) (wc : WatcherCache P V)
      → wc.old_resources ≡ o
      → IsCoherent wc
      → IsCoherent (mark_in k o wc)
  mark_in-IsCoherent k none wc h c = c
  mark_in-IsCoherent k (some old) wc h c = elim (Option-cases (lookup k old)) [
    | inl missing ↦ rw (missing, mark_in) c
    | inr (r, found) ↦
        let c' : Coherent wc.resources old wc.results = rw h at c in
        rw (found, mark_in) (Coherent-mark wc.resources old wc.results k r found c')
  ]

  pub mark_as_valid-IsCoherent :
      (k : String) (wc : WatcherCache P V) → IsCoherent wc → IsCoherent (mark_as_valid k wc)
  unfolding mark_as_valid
  mark_as_valid-IsCoherent k wc c = mark_in-IsCoherent k wc.old_resources wc refl c

  lookup-mark_in :
      (k : String) (o : Option (Dict CacheEntry)) (wc : WatcherCache P V)
      → wc.old_resources ≡ o
      → lookup k (old_entries (mark_in k o wc).old_resources) ≡ none
  unfolding lookup
  lookup-mark_in k none wc h = rw h
  lookup-mark_in k (some old) wc h = elim (Option-cases (lookup k old)) [
    | inl missing ↦ rw (missing, mark_in) (rw h missing)
    | inr (r, found) ↦ rw (found, mark_in) (rw lookup-delete (rw eq_refl))
  ]

  -- After the mark no entry for the key waits for revalidation.
  lookup-mark_as_valid :
      (k : String) (wc : WatcherCache P V)
      → lookup k (old_entries (mark_as_valid k wc).old_resources) ≡ none
  unfolding mark_as_valid
  lookup-mark_as_valid k wc = lookup-mark_in k wc.old_resources wc refl

  store-IsCoherent :
      (kvp : KvPair V) (o : Option CacheEntry) (wc : WatcherCache P V)
      → lookup kvp.key wc.resources ≡ o
      → lookup kvp.key (old_entries wc.old_resources) ≡ none
      → IsCoherent wc
      → IsCoherent (store kvp o wc)
  store-IsCoherent kvp none wc h marked c =
      Coherent-store wc.resources (old_entries wc.old_resources) wc.results kvp.key _ _ refl marked
        refl (ground arith) c
  store-IsCoherent kvp (some r) wc h marked c = elim (Bool-cases (str_eq r.revision kvp.revision)) [
    | inl same ↦ rw same c
    | inr newer ↦ rw newer (
        Coherent-store wc.resources (old_entries wc.old_resources) wc.results kvp.key _ _ refl
          marked (Keyed-lookup kvp.key wc.resources c.keyed h) (ground arith) c)
  ]

  pub handle_added_or_modified_update-IsCoherent :
      (kvp : KvPair V) (wc : WatcherCache P V)
      → IsCoherent wc
      → IsCoherent (handle_added_or_modified_update kvp wc)
  unfolding handle_added_or_modified_update
  handle_added_or_modified_update-IsCoherent kvp wc c =
      store-IsCoherent kvp _ (mark_as_valid kvp.key wc) refl (lookup-mark_as_valid kvp.key wc)
        (mark_as_valid-IsCoherent kvp.key wc c)

  drop_entry-IsCoherent :
      (k : String) (o : Option CacheEntry) (wc : WatcherCache P V)
      → lookup k wc.resources ≡ o
      → lookup k (old_entries wc.old_resources) ≡ none
      → IsCoherent wc
      → IsCoherent (drop_entry k o wc)
  drop_entry-IsCoherent k none wc h marked c = c
  drop_entry-IsCoherent k (some r) wc h marked c =
      Coherent-drop wc.resources (old_entries wc.old_resources) wc.results k _ refl marked
        (ground arith) c

  pub handle_deleted_update-IsCoherent :
      (k : String) (wc : WatcherCache P V) → IsCoherent wc → IsCoherent (handle_deleted_update k wc)
  unfolding handle_deleted_update
  handle_deleted_update-IsCoherent k wc c =
      drop_entry-IsCoherent k _ (mark_as_valid k wc) refl (lookup-mark_as_valid k wc)
        (mark_as_valid-IsCoherent k wc c)

  pub handle_converted_watch_event-IsCoherent :
      (kvp : KvPair V) (wc : WatcherCache P V)
      → IsCoherent wc
      → IsCoherent (handle_converted_watch_event kvp wc)
  unfolding handle_converted_watch_event
  handle_converted_watch_event-IsCoherent kvp wc c = go kvp.value
    where
      go :
          (o : Option V)
          → IsCoherent (elim o as (λ _. WatcherCache P V) [
            | none ↦ handle_deleted_update kvp.key wc
            | some _ ↦ handle_added_or_modified_update kvp wc
          ])
      go none = handle_deleted_update-IsCoherent kvp.key wc c
      go (some v) = handle_added_or_modified_update-IsCoherent kvp wc c

  pub handle_all-IsCoherent :
      (kvps : List (KvPair V)) (wc : WatcherCache P V)
      → IsCoherent wc
      → IsCoherent (handle_all kvps wc)
  unfolding handle_all
  handle_all-IsCoherent [] wc c = c
  handle_all-IsCoherent (kvp ∷ kvps) wc c =
      handle_all-IsCoherent kvps (handle_converted_watch_event kvp wc)
        (handle_converted_watch_event-IsCoherent kvp wc c)

  -- A message that carries no update changes nothing that the client knows.
  pub send-IsCoherent :
      (m : Message V) (wc : WatcherCache P V)
      → ((v : Known) → read_message m v ≡ some v)
      → IsCoherent wc
      → IsCoherent (send m wc)
  send-IsCoherent m wc quiet c = record {
    known = c.known;
    replayed = rw (read-append wc.results m _ c.replayed) (quiet c.known);
    agrees = c.agrees;
    disjoint = c.disjoint;
    keyed = c.keyed;
    keyed_old = c.keyed_old;
  }

  convert-IsCoherent :
      (o : Option (UpdateProcessor P V)) (kvp : KvPair V) (wc : WatcherCache P V)
      → IsCoherent wc
      → IsCoherent (convert o kvp wc)
  convert-IsCoherent none kvp wc c = handle_converted_watch_event-IsCoherent kvp wc c
  convert-IsCoherent (some up) kvp wc c = go (up.process wc.processor_state kvp)
    where
      go :
          (r : P × List (KvPair V) × Option SyncError)
          → IsCoherent (send_error r.2 (handle_all r.1 (record wc { processor_state = r.0 })))
      go (p, kvps, none) = handle_all-IsCoherent kvps (record wc { processor_state = p }) c
      go (p, kvps, some e) =
          send-IsCoherent (failed e) (handle_all kvps (record wc { processor_state = p }))
            (λ v. refl) (handle_all-IsCoherent kvps (record wc { processor_state = p }) c)

  pub handle_watch_list_event-IsCoherent :
      (kvp : KvPair V) (wc : WatcherCache P V)
      → IsCoherent wc
      → IsCoherent (handle_watch_list_event kvp wc)
  unfolding handle_watch_list_event
  handle_watch_list_event-IsCoherent kvp wc c =
      convert-IsCoherent wc.update_processor kvp
        (record wc { current_watch_revision = kvp.revision }) c

  pub handle_list-IsCoherent :
      (kvps : List (KvPair V)) (wc : WatcherCache P V)
      → IsCoherent wc
      → IsCoherent (handle_list kvps wc)
  unfolding handle_list
  handle_list-IsCoherent [] wc c = c
  handle_list-IsCoherent (kvp ∷ kvps) wc c =
      handle_list-IsCoherent kvps (handle_watch_list_event kvp wc)
        (handle_watch_list_event-IsCoherent kvp wc c)
