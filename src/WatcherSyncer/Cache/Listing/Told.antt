-- ===== src/WatcherSyncer/Cache/Listing/Told.antt =====
-- process_list of a cache, by the listing and what its processor makes of it.
use zyzxlibcalico_go.WatcherSyncer.Cache.Listing.{
  listed, conversions, revisions, listed-append, revisions-converted, revisions-handle_all,
}
use mathlib.Core.Path.{subst, sym, fun_ext}
use zyzxlibcalico_go.Prelude.{ap, String, ◌≡◌, refl, ◌∙◌, Option, none, some, List, [], ◌∷◌, arith}
use zyzxlibcalico_go.Prelude.Dict.{lookup}
use zyzxlibcalico_go.WatcherSyncer.Api.{KvPair, KvPairList, SyncError}
use zyzxlibcalico_go.WatcherSyncer.Cache.{
  WatcherCache, UpdateProcessor, mark_as_valid, handle_added_or_modified_update,
  handle_deleted_update, handle_converted_watch_event, handle_all, convert, send_error,
  handle_watch_list_event, handle_list, finish_resync, process_list,
}
use zyzxlibcalico_go.WatcherSyncer.Cache.View.{Known, cached, read}
use zyzxlibcalico_go.WatcherSyncer.Cache.Settled.{settled_knows, IsSettled, process_list-IsSettled}

module _ {P V : Type 0} where
  processor-converted :
      (kvp : KvPair V) (wc : WatcherCache P V)
      → ((handle_converted_watch_event kvp wc).update_processor ≡ wc.update_processor)
        × ((handle_converted_watch_event kvp wc).processor_state ≡ wc.processor_state)
  unfolding handle_converted_watch_event handle_added_or_modified_update handle_deleted_update
      mark_as_valid
  processor-converted kvp wc = (ground arith, ground arith)

  processor-handle_all :
      (kvps : List (KvPair V)) (wc : WatcherCache P V)
      → ((handle_all kvps wc).update_processor ≡ wc.update_processor)
        × ((handle_all kvps wc).processor_state ≡ wc.processor_state)
  unfolding handle_all
  processor-handle_all [] wc = (refl, refl)
  processor-handle_all (kvp ∷ kvps) wc =
      let (a, b) = processor-converted kvp wc in
      let (c, d) = processor-handle_all kvps (handle_converted_watch_event kvp wc) in (c ∙ a, d ∙ b)

  convert_processed :
      (up : UpdateProcessor P V) (kvp : KvPair V) (wc : WatcherCache P V)
      → ((convert (some up) kvp wc).update_processor ≡ wc.update_processor)
        × ((convert (some up) kvp wc).processor_state ≡ (up.process wc.processor_state kvp).0)
        × ((j : String)
            → revisions (convert (some up) kvp wc).resources j
              ≡ listed (up.process wc.processor_state kvp).1 (revisions wc.resources) j)
  convert_processed up kvp wc = go (up.process wc.processor_state kvp)
    where
      after : (r : P × List (KvPair V) × Option SyncError) → WatcherCache P V
      after r = send_error r.2 (handle_all r.1 (record wc { processor_state = r.0 }))

      go :
          (r : P × List (KvPair V) × Option SyncError)
          → ((after r).update_processor ≡ wc.update_processor)
            × ((after r).processor_state ≡ r.0)
            × ((j : String)
                → revisions (after r).resources j ≡ listed r.1 (revisions wc.resources) j)
      go (p, kvps, none) =
          let wc' = record wc { processor_state = p } in
          (
            (processor-handle_all kvps wc').0,
            (processor-handle_all kvps wc').1,
            revisions-handle_all kvps wc',
          )
      go (p, kvps, some e) =
          let wc' = record wc { processor_state = p } in
          (
            (processor-handle_all kvps wc').0,
            (processor-handle_all kvps wc').1,
            revisions-handle_all kvps wc',
          )

  -- One listed pair, with no processor and with one.
  event_plain :
      (kvp : KvPair V) (wc : WatcherCache P V)
      → wc.update_processor ≡ none
      → ((handle_watch_list_event kvp wc).update_processor ≡ none)
        × ((j : String)
            → revisions (handle_watch_list_event kvp wc).resources j
              ≡ listed (kvp ∷ []) (revisions wc.resources) j)
  unfolding handle_watch_list_event
  event_plain kvp wc h =
      let wc' = record wc { current_watch_revision = kvp.revision } in
      subst
        (λ o.
          ((convert o kvp wc').update_processor ≡ none)
          × ((j : String)
              → revisions (convert o kvp wc').resources j
                ≡ listed (kvp ∷ []) (revisions wc.resources) j))
        (sym h) ((processor-converted kvp wc').0 ∙ h, revisions-converted kvp wc')

  event_processed :
      (up : UpdateProcessor P V) (kvp : KvPair V) (wc : WatcherCache P V)
      → wc.update_processor ≡ some up
      → ((handle_watch_list_event kvp wc).update_processor ≡ some up)
        × ((handle_watch_list_event kvp wc).processor_state ≡ (up.process wc.processor_state kvp).0)
        × ((j : String)
            → revisions (handle_watch_list_event kvp wc).resources j
              ≡ listed (up.process wc.processor_state kvp).1 (revisions wc.resources) j)
  unfolding handle_watch_list_event
  event_processed up kvp wc h =
      let wc' = record wc { current_watch_revision = kvp.revision } in
      let (a, b, c) = convert_processed up kvp wc' in
      subst
        (λ o.
          ((convert o kvp wc').update_processor ≡ some up)
          × ((convert o kvp wc').processor_state ≡ (up.process wc.processor_state kvp).0)
          × ((j : String)
              → revisions (convert o kvp wc').resources j
                ≡ listed (up.process wc.processor_state kvp).1 (revisions wc.resources) j))
        (sym h) (a ∙ h, b, c)

  revisions-handle_list :
      (o : Option (UpdateProcessor P V)) (kvps : List (KvPair V)) (wc : WatcherCache P V)
      → wc.update_processor ≡ o
      → (j : String)
      → revisions (handle_list kvps wc).resources j
        ≡ listed (conversions o wc.processor_state kvps) (revisions wc.resources) j
  unfolding handle_list
  revisions-handle_list none [] wc h j = refl
  revisions-handle_list none (kvp ∷ kvps) wc h j =
      let (a, b) = event_plain kvp wc h in
      revisions-handle_list none kvps (handle_watch_list_event kvp wc) a j
      ∙ ap (λ v. listed kvps v j) (fun_ext b)
  revisions-handle_list (some up) [] wc h j = refl
  revisions-handle_list (some up) (kvp ∷ kvps) wc h j =
      let (a, b, c) = event_processed up kvp wc h in
      let p = (up.process wc.processor_state kvp).0 in
      revisions-handle_list (some up) kvps (handle_watch_list_event kvp wc) a j
      ∙ (ap
            (λ q.
              listed (conversions (some up) q kvps)
                (revisions (handle_watch_list_event kvp wc).resources) j)
            b
          ∙ (ap (λ v. listed (conversions (some up) p kvps) v j) (fun_ext c)
              ∙ ap (λ (v : Known). v j)
                  (sym (
                    listed-append (up.process wc.processor_state kvp).1
                      (conversions (some up) p kvps) (revisions wc.resources)))))

  resources-finish_resync : (wc : WatcherCache P V) → (finish_resync wc).resources ≡ wc.resources
  unfolding finish_resync
  resources-finish_resync wc = ground arith

  cached_listed :
      (l : KvPairList V) (wc : WatcherCache P V) (k : String)
      → cached (process_list l wc).resources [] k
        ≡ listed (conversions wc.update_processor wc.processor_state l.kv_pairs) (λ _. none) k
  unfolding process_list lookup
  cached_listed l wc k =
      let wc' = record wc { old_resources = some wc.resources; resources = [] } in
      ground (
        arith,
        resources-finish_resync (handle_list l.kv_pairs wc'),
        revisions-handle_list wc.update_processor l.kv_pairs wc' refl k,
      )

  -- After a full resync from a state between resyncs, the messages sent are ones that the client
  -- accepts, and the client knows of each key what the converted listing says last, whatever it knew
  -- before: a key that the listing does not name is unknown.
  pub process_list_told :
      (l : KvPairList V) (wc : WatcherCache P V)
      → IsSettled wc
      → (v : Known) × (read (process_list l wc).results (λ k. none) ≡ some v)
        × ((k : String)
            → v k
              ≡ listed
                  (conversions wc.update_processor wc.processor_state l.kv_pairs)
                  (λ _. none)
                  k)
  process_list_told l wc s =
      let (v, replayed, agrees) =
        settled_knows (process_list l wc) (process_list-IsSettled l wc s) in
      (v, replayed, λ k. agrees k ∙ cached_listed l wc k)
