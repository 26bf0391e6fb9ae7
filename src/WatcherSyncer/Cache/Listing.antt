-- ===== src/WatcherSyncer/Cache/Listing.antt =====
-- A full resync makes the client know exactly what the datastore listed.
pub mod Told
use mathlib.Core.Path.{subst, sym, fun_ext}
use mathlib.Core.Option
use text.Mathlib.Text.{◌==◌ as str_eq}
use text.Mathlib.TextEquality.{eq_iff}
use zyzxlibcalico_go.Prelude.{
  Bool-cases, ap, String, ◌≡◌, refl, ◌∙◌, Bool, true, false, Option, none, some, List, [], ◌∷◌,
  ◌++◌, arith, if◌then◌else◌, Option-cases, inl, inr,
}
use zyzxlibcalico_go.Prelude.Dict.{Dict, lookup, lookup-insert, lookup-delete}
use zyzxlibcalico_go.WatcherSyncer.Api.{KvPair, KvPairList, SyncError}
use zyzxlibcalico_go.WatcherSyncer.Cache.{
  CacheEntry, WatcherCache, UpdateProcessor, mark_as_valid, mark_in, store, drop_entry,
  handle_added_or_modified_update, handle_deleted_update, handle_converted_watch_event, handle_all,
  convert, send_error, handle_watch_list_event, handle_list, finish_resync, send_synced, send_old,
  process_list,
}
use zyzxlibcalico_go.WatcherSyncer.Cache.View.{Known, learn, cached, read}
use zyzxlibcalico_go.WatcherSyncer.Cache.Settled.{IsSettled, process_list-IsSettled}

-- What a list of converted pairs says of each key, the last word counting.
abbrev pub listed : {V : Type 0} → List (KvPair V) → Known → Known
listed [] v = v
listed (kvp ∷ kvps) v = listed kvps (learn kvp.key (Option.map (λ _. kvp.revision) kvp.value) v)

-- The pairs that a listing is converted to, and the processor's state after it.
abbrev pub conversions :
    {P V : Type 0} → Option (UpdateProcessor P V) → P → List (KvPair V) → List (KvPair V)
conversions none p kvps = kvps
conversions (some up) p [] = []
conversions (some up) p (kvp ∷ kvps) =
    (up.process p kvp).1 ++ conversions (some up) (up.process p kvp).0 kvps

abbrev revisions : Dict CacheEntry → Known
revisions res k = Option.map (λ (e : CacheEntry). e.revision) (lookup k res)

listed-append :
    {V : Type 0} (xs ys : List (KvPair V)) (v : Known)
    → listed (xs ++ ys) v ≡ listed ys (listed xs v)
listed-append [] ys v = refl
listed-append (x ∷ xs) ys v = listed-append xs ys _

module _ {P V : Type 0} where
  -- A mark moves an entry of its own key only.
  revisions-mark_in :
      (k : String) (o : Option (Dict CacheEntry)) (wc : WatcherCache P V) (j : String)
      → str_eq k j ≡ false
      → revisions (mark_in k o wc).resources j ≡ revisions wc.resources j
  revisions-mark_in k none wc j h = refl
  revisions-mark_in k (some old) wc j h = elim (Option-cases (lookup k old)) [
    | inl missing ↦ rw (missing, mark_in)
    | inr (r, found) ↦ rw (found, mark_in) (rw (lookup-insert k j r wc.resources, h))
  ]

  revisions-store :
      (kvp : KvPair V) (o : Option CacheEntry) (wc : WatcherCache P V) (j : String)
      → lookup kvp.key wc.resources ≡ o
      → revisions (store kvp o wc).resources j
        ≡ learn kvp.key (some kvp.revision) (revisions wc.resources) j
  revisions-store kvp none wc j h =
      rw (lookup-insert kvp.key j (record { revision = kvp.revision; key = kvp.key }) wc.resources)
        (ground arith)
  revisions-store kvp (some r) wc j h = ground (
    arith,
    lookup-insert kvp.key j (record r { revision = kvp.revision }) wc.resources,
    eq_iff kvp.key j,
    eq_iff r.revision kvp.revision,
  )

  revisions-drop_entry :
      (k : String) (o : Option CacheEntry) (wc : WatcherCache P V) (j : String)
      → lookup k wc.resources ≡ o
      → revisions (drop_entry k o wc).resources j ≡ learn k none (revisions wc.resources) j
  revisions-drop_entry k none wc j h = ground (arith, eq_iff k j)
  revisions-drop_entry k (some r) wc j h = ground (arith, lookup-delete k j wc.resources)

  revisions-mark_as_valid :
      (k : String) (o : Option String) (wc : WatcherCache P V) (j : String)
      → learn k o (revisions (mark_as_valid k wc).resources) j
        ≡ learn k o (revisions wc.resources) j
  unfolding mark_as_valid
  revisions-mark_as_valid k o wc j = elim (Bool-cases (str_eq k j)) [
    | inl same ↦ rw same
    | inr other ↦ rw other (revisions-mark_in k wc.old_resources wc j other)
  ]

  revisions-converted :
      (kvp : KvPair V) (wc : WatcherCache P V) (j : String)
      → revisions (handle_converted_watch_event kvp wc).resources j
        ≡ learn kvp.key (Option.map (λ _. kvp.revision) kvp.value) (revisions wc.resources) j
  unfolding handle_converted_watch_event handle_added_or_modified_update handle_deleted_update
  revisions-converted kvp wc j = go kvp.value
    where
      wc' : WatcherCache P V
      wc' = mark_as_valid kvp.key wc

      go :
          (o : Option V)
          → revisions
              (elim o as (λ _. WatcherCache P V) [
                | none ↦ handle_deleted_update kvp.key wc
                | some _ ↦ handle_added_or_modified_update kvp wc
              ]).resources
              j
            ≡ learn kvp.key (Option.map (λ _. kvp.revision) o) (revisions wc.resources) j
      go none =
          revisions-drop_entry kvp.key _ wc' j refl ∙ revisions-mark_as_valid kvp.key none wc j
      go (some v) =
          revisions-store kvp _ wc' j refl
          ∙ revisions-mark_as_valid kvp.key (some kvp.revision) wc j

  revisions-handle_all :
      (kvps : List (KvPair V)) (wc : WatcherCache P V) (j : String)
      → revisions (handle_all kvps wc).resources j ≡ listed kvps (revisions wc.resources) j
  unfolding handle_all
  revisions-handle_all [] wc j = refl
  revisions-handle_all (kvp ∷ kvps) wc j =
      revisions-handle_all kvps (handle_converted_watch_event kvp wc) j
      ∙ ap (λ v. listed kvps v j) (fun_ext (revisions-converted kvp wc))
