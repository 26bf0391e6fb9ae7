-- ===== src/Selector/StringSet.antt =====
-- lib/selector/parser/stringset.go: a set of strings as an ascending list.
pub mod Members
pub mod Search
use zyzxlibcalico_go.Prelude.{
  ℕ, zero, suc, ◌+◌, ◌-◌, ◌/◌, Bool, true, false, Option, none, some, List, [], ◌∷◌, length,
  get_elem?, ltb, if◌then◌else◌,
}
use zyzxlibcalico_go.Selector.Text.{Text, text_eq, text_lt}

abbrev pub StringSet : Type 0
StringSet = List Text

-- sort.Strings: equal strings are the same, so that every sorting algorithm gives this list.
unfoldable pub insert_text : Text → List Text → List Text
insert_text s [] = s ∷ []
insert_text s (t ∷ ts) = let rest = insert_text s ts in if text_lt t s then t ∷ rest else s ∷ t ∷ ts

unfoldable pub sort : List Text → List Text
sort [] = []
sort (s ∷ ts) = insert_text s (sort ts)

abbrev pub same_as_last : Option Text → Text → Bool
same_as_last none v = false
same_as_last (some last) v = text_eq last v

-- The loop that keeps what differs from the value before; `none` as long as j is 0.
unfoldable pub dedup : Option Text → List Text → List Text
dedup last [] = []
dedup last (v ∷ vs) =
    let skipped = dedup last vs in
    let kept = v ∷ dedup (some v) vs in if same_as_last last v then skipped else kept

unfoldable pub convert_to_string_set_in_place : List Text → StringSet
convert_to_string_set_in_place s = dedup none (sort s)

abbrev pub chop : Bool → (ℕ → ℕ → Option ℕ) → ℕ → ℕ → ℕ → Option ℕ
chop true again lo mid hi = again lo mid
chop false again lo mid hi = again mid hi

-- The binary chop between minIdx and maxIdx: the index where it ends. `none` is an index out of range,
-- or no fuel; contains begins with the length of the set.
unfoldable pub search : ℕ → StringSet → Text → ℕ → ℕ → Option ℕ
search zero ss s lo hi = none
search (suc fuel) ss s lo hi =
    if ltb lo (hi - 1)
    then (elim (get_elem? ss ((lo + hi) / 2)) [
      | none ↦ none
      | some partition ↦ chop (text_lt s partition) (search fuel ss s) lo ((lo + hi) / 2) hi
    ])
    else some lo

abbrev pub equal_at : Option Text → Text → Bool
equal_at none s = false
equal_at (some t) s = text_eq t s

abbrev pub found_at : Option ℕ → StringSet → Text → Bool
found_at none ss s = false
found_at (some i) ss s = equal_at (get_elem? ss i) s

-- Contains
unfoldable pub contains : StringSet → Text → Bool
contains [] s = false
contains (t ∷ ts) s = found_at (search (length (t ∷ ts)) (t ∷ ts) s 0 (length (t ∷ ts))) (t ∷ ts) s
