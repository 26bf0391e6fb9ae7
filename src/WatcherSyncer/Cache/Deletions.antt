-- ===== src/WatcherSyncer/Cache/Deletions.antt =====
-- What a client knows after a deletion for each entry of a map.

use text.Mathlib.TextEquality.{eq_iff}
use text.Mathlib.TextPositions.{eq_refl}
use zyzxlibcalico_go.Prelude.{String, ◌≡◌, refl, Option, none, some, List, [], ◌∷◌, ◌++◌, arith}
use zyzxlibcalico_go.Prelude.Options.{◌>>=◌, >>=-eq-some}
use zyzxlibcalico_go.Prelude.Dict.{Dict, lookup}
use zyzxlibcalico_go.WatcherSyncer.Api.{Message}
use zyzxlibcalico_go.WatcherSyncer.Cache.{CacheEntry, deletion, deletions}
use zyzxlibcalico_go.WatcherSyncer.Cache.Loop.{exit_messages}
use zyzxlibcalico_go.WatcherSyncer.Cache.View.{
  Known, learn, accept, read_update, read_updates, read_message, read, Keyed,
}

-- The entries of `m` are known to the client, at their revisions.
abbrev pub Covers : Known → Dict CacheEntry → Type 0
Covers v m = (k : String) (e : CacheEntry) → lookup k m ≡ some e → v k ≡ some e.revision

abbrev pub without : Dict CacheEntry → Known → Known
without m v k = elim (lookup k m) [ none ↦ v k | some _ ↦ none ]

Covers-tail :
    (k : String) (e : CacheEntry) (m : Dict CacheEntry) (v : Known)
    → lookup k m ≡ none
    → Covers v ((k, e) ∷ m)
    → Covers (learn k none v) m
unfolding lookup
Covers-tail k e m v fresh c j e' h = ground (arith, c j e', eq_iff k j)

module _ (V : Type 0) where
  read-deletion :
      (k : String) (v : Known) {r : String}
      → v k ≡ some r
      → read_update {V = V} (deletion k) v ≡ some (learn k none v)
  unfolding read_update
  read-deletion k v h = rw (h, accept) refl

  pub read-deletions :
      (m : Dict CacheEntry) (v : Known)
      → Keyed m
      → Covers v m
      → (w : Known) × (read_updates {V = V} (deletions m) v ≡ some w)
        × ((k : String) → w k ≡ without m v k)
  unfolding read_updates lookup
  read-deletions [] v t c = (v, refl, λ k. refl)
  read-deletions ((k, e) ∷ m) v (own, fresh, t) c =
      let (w, done, same) = read-deletions m (learn k none v) t (Covers-tail k e m v fresh c) in
      (
        w,
        rw (own, read-deletion k v (c k e (rw eq_refl refl))) done,
        λ j. ground (arith, same j, eq_iff k j),
      )

  -- The messages of an exiting cache say the same.
  pub read-exit_messages :
      (m : Dict CacheEntry) (v : Known)
      → read {V = V} (exit_messages m) v ≡ read_updates {V = V} (deletions m) v
  unfolding read read_updates exit_messages
  read-exit_messages [] v = refl
  read-exit_messages ((k, e) ∷ m) v =
      go (read_update {V = V} (deletion e.key) v) (read-exit_messages m)
    where
      go :
          (o : Option Known)
          → ((w : Known) → read {V = V} (exit_messages m) w ≡ read_updates {V = V} (deletions m) w)
          → (o >>= (λ w. some w) >>= read {V = V} (exit_messages m))
            ≡ (o >>= read_updates {V = V} (deletions m))
      go none ih = refl
      go (some w) ih = ih w

module _ {V : Type 0} where
  pub read-append_all :
      (ms ns : List (Message V)) (v : Known) {w : Known}
      → read ms v ≡ some w
      → read (ms ++ ns) v ≡ read ns w
  unfolding read
  read-append_all [] ns v {w} h = let e : v ≡ w = cc in rw e
  read-append_all (m ∷ ms) ns v h =
      let (v', e, h') = >>=-eq-some (read_message m v) (read ms) h in
      rw e (read-append_all ms ns v' h')
