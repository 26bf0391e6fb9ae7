-- ===== src/WatcherSyncer/Cache/View.antt =====
-- What a client of the syncer knows after the messages of a cache, independently of the cache: the
-- revision of each key. A message may announce only what changes this knowledge.
use mathlib.Core.Option
use text.Mathlib.Text.{◌==◌ as str_eq}
use text.Mathlib.TextEquality.{eq_iff}
use zyzxlibcalico_go.Prelude.{
  String, ◌≡◌, refl, Option, none, some, List, [], ◌∷◌, ◌++◌, if◌then◌else◌, Bool-cases, inl, inr,
  ◌∙◌,
}
use zyzxlibcalico_go.Prelude.Options.{◌>>=◌, >>=-eq-some, >>=-some}
use zyzxlibcalico_go.Prelude.Dict.{
  Dict, lookup, insert, delete, lookup-insert, lookup-delete, str_eq_comm,
}
use zyzxlibcalico_go.WatcherSyncer.Api.{UpdateType, Update, Message, updates, failed, synced}
use zyzxlibcalico_go.WatcherSyncer.Cache.{CacheEntry}

abbrev pub Known : Type 0
Known = String → Option String

abbrev pub learn : String → Option String → Known → Known
learn k o v j = if str_eq k j then o else v j

-- New wants an unknown key, Updated a known key at another revision, Deleted a known key.
abbrev pub accept : UpdateType → Option String → String → Option (Option String)
accept UpdateType.kv_new none r = some (some r)
accept UpdateType.kv_new (some q) r = none
accept UpdateType.kv_updated none r = none
accept UpdateType.kv_updated (some q) r = if str_eq q r then none else some (some r)
accept UpdateType.kv_deleted none r = none
accept UpdateType.kv_deleted (some q) r = some none

module _ {V : Type 0} where
  unfoldable pub read_update : Update V → Known → Option Known
  read_update u v =
      Option.map (λ o. learn u.kv_pair.key o v)
        (accept u.update_type (v u.kv_pair.key) u.kv_pair.revision)

  -- `none` means that some update was not allowed.
  unfoldable pub read_updates : List (Update V) → Known → Option Known
  read_updates [] v = some v
  read_updates (u ∷ us) v = read_update u v >>= read_updates us

  abbrev pub read_message : Message V → Known → Option Known
  read_message (updates us) v = read_updates us v
  read_message (failed e) v = some v
  read_message (synced s) v = some v

  unfoldable pub read : List (Message V) → Known → Option Known
  read [] v = some v
  read (m ∷ ms) v = read_message m v >>= read ms

  pub read-append :
      (ms : List (Message V)) (m : Message V) (v : Known) {w : Known}
      → read ms v ≡ some w
      → read (ms ++ m ∷ []) v ≡ (some w >>= read_message m)
  unfolding read
  read-append [] m v {w} h = let e : v ≡ w = cc in rw e (>>=-some (read_message m w))
  read-append (n ∷ ms) m v h =
      let (v', e, h') = >>=-eq-some (read_message n v) (read ms) h in rw e (read-append ms m v' h')

-- What the cache itself would answer: its entry, or the one that waits for revalidation.
abbrev pub cached : Dict CacheEntry → Dict CacheEntry → Known
cached res old k = elim (lookup k res) [
  | some e ↦ some e.revision
  | none ↦ Option.map (λ (e : CacheEntry). e.revision) (lookup k old)
]

-- Every entry stands under its own key, once.
abbrev pub Keyed : Dict CacheEntry → Type 0
Keyed [] = Unit
Keyed ((k, e) ∷ m) = (e.key ≡ k) × (lookup k m ≡ none) × Keyed m

pub Keyed-insert :
    (k : String) (e : CacheEntry) (m : Dict CacheEntry) → e.key ≡ k → Keyed m → Keyed (insert k e m)
unfolding insert lookup
Keyed-insert k e [] h t = (h, refl, tt)
Keyed-insert k e ((j, w) ∷ m) h (a, b, c) = elim (Bool-cases (str_eq j k)) [
  | inl same ↦ rw same (h, rw ((eq_iff j k).0 same) at b, c)
  | inr other ↦
      rw other (a, rw (lookup-insert k j e m, str_eq_comm k j, other) b, Keyed-insert k e m h c)
]

pub Keyed-delete : (k : String) (m : Dict CacheEntry) → Keyed m → Keyed (delete k m)
unfolding delete lookup
Keyed-delete k [] t = tt
Keyed-delete k ((j, w) ∷ m) (a, b, c) = elim (Bool-cases (str_eq j k)) [
  | inl same ↦ rw same (Keyed-delete k m c)
  | inr other ↦ rw other (a, rw (lookup-delete k j m, str_eq_comm k j, other) b, Keyed-delete k m c)
]

pub Keyed-lookup :
    (k : String) (m : Dict CacheEntry) {e : CacheEntry} → Keyed m → lookup k m ≡ some e → e.key ≡ k
unfolding lookup
Keyed-lookup k [] t h = cc
Keyed-lookup k ((j, w) ∷ m) {e} (a, b, c) h = elim (Bool-cases (str_eq j k)) [
  | inl same ↦
      let h' : some w ≡ some e = rw same at h in
      let same_entry : w ≡ e = cc h' in rw (← same_entry) (a ∙ (eq_iff j k).0 same)
  | inr other ↦ let h' : lookup k m ≡ some e = rw other at h in Keyed-lookup k m c h'
]

-- What the client knows is what the cache holds, and the cache is well formed.
pub record Coherent {V : Type 0} (res old : Dict CacheEntry) (sent : List (Message V))
    : Type 0 where
  pub known : Known
  pub replayed : read sent (λ k. none) ≡ some known
  pub agrees : (k : String) → known k ≡ cached res old k
  pub disjoint : (k : String) (e : CacheEntry) → lookup k old ≡ some e → lookup k res ≡ none
  pub keyed : Keyed res
  pub keyed_old : Keyed old
