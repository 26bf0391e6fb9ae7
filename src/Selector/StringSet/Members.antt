-- ===== src/Selector/StringSet/Members.antt =====
-- A converted set ascends, and has the strings that were converted.
use zyzxlibcalico_go.Prelude.{
  ◌≡◌, refl, ◌∙◌, Bool, true, false, not, ◌&&◌, ◌||◌, none, some, List, [], ◌∷◌, arith, Bool-cases,
  inl, inr,
}
use zyzxlibcalico_go.Selector.Text.{
  Text, text_eq, text_lt, text_eq_iff, text_lt_trans, text_lt_total, text_lt_asym,
  text_lt_not_trans,
}
use zyzxlibcalico_go.Selector.StringSet.{insert_text, sort, dedup, convert_to_string_set_in_place}

-- Whether a list has the string.
abbrev pub member : Text → List Text → Bool
member s [] = false
member s (t ∷ ts) = text_eq t s || member s ts

member-insert_text :
    (s t : Text) (ts : List Text) → member s (insert_text t ts) ≡ (text_eq t s || member s ts)
unfolding insert_text
member-insert_text s t [] = refl
member-insert_text s t (u ∷ ts) = ground (arith, member-insert_text s t ts)

member-sort : (s : Text) (ts : List Text) → member s (sort ts) ≡ member s ts
unfolding sort
member-sort s [] = refl
member-sort s (t ∷ ts) = ground (arith, member-insert_text s t (sort ts), member-sort s ts)

-- No string of the list is before `t`; every string of it is after `t`.
abbrev NoneBefore : Text → List Text → Type 0
NoneBefore t ts = (s : Text) → member s ts ≡ true → text_lt s t ≡ false

abbrev AllAfter : Text → List Text → Type 0
AllAfter t ts = (s : Text) → member s ts ≡ true → text_lt t s ≡ true

abbrev IsSorted : List Text → Type 0
IsSorted [] = Unit
IsSorted (t ∷ ts) = NoneBefore t ts × IsSorted ts

abbrev pub IsAscending : List Text → Type 0
IsAscending [] = Unit
IsAscending (t ∷ ts) = AllAfter t ts × IsAscending ts

insert_text-IsSorted : (t : Text) (ts : List Text) → IsSorted ts → IsSorted (insert_text t ts)
unfolding insert_text
insert_text-IsSorted t [] h = (λ s e. cc, tt)
insert_text-IsSorted t (u ∷ ts) (none_before, rest) = elim (Bool-cases (text_lt u t)) [
  | inl before ↦ rw before (
    λ s e.
        ground (
          arith,
          member-insert_text s t ts,
          none_before s,
          text_eq_iff t s,
          text_lt_asym u t before,
        ),
    insert_text-IsSorted t ts rest,
  )
  | inr after ↦ rw after (
    λ s e. ground (arith, text_eq_iff u s, none_before s, text_lt_not_trans s u t),
    (none_before, rest),
  )
]

sort-IsSorted : (ts : List Text) → IsSorted (sort ts)
unfolding sort
sort-IsSorted [] = tt
sort-IsSorted (t ∷ ts) = insert_text-IsSorted t (sort ts) (sort-IsSorted ts)

-- The rest of the values, once `last` was kept.
dedup-some :
    (last : Text) (vs : List Text)
    → IsSorted vs
    → NoneBefore last vs
    → IsAscending (dedup (some last) vs)
      × AllAfter last (dedup (some last) vs)
      × ((s : Text) → member s (dedup (some last) vs) ≡ (member s vs && not (text_eq last s)))
unfolding dedup
dedup-some last [] h none_before = (tt, (λ s e. cc), λ s. refl)
dedup-some last (v ∷ vs) (least, rest) none_before = elim (Bool-cases (text_eq last v)) [
  | inl same ↦
      let (ascending, after, has) = dedup-some last vs rest (λ s e. none_before s (ground arith)) in
      rw same (ascending, after, λ s. ground (arith, has s, text_eq_iff last v))
  | inr other ↦
      let (ascending, after, has) = dedup-some v vs rest least in
      let step : text_lt last v ≡ true =
        text_lt_total v last (none_before v (ground (arith, text_eq_iff v v))) other in
      rw other (
        (after, ascending),
        (λ s e. ground (arith, text_eq_iff v s, after s, text_lt_trans last v s)),
        λ s. ground (arith, has s, text_eq_iff v s, text_eq_iff last s, least s),
      )
]

dedup-none :
    (vs : List Text)
    → IsSorted vs
    → IsAscending (dedup none vs) × ((s : Text) → member s (dedup none vs) ≡ member s vs)
unfolding dedup
dedup-none [] h = (tt, λ s. refl)
dedup-none (v ∷ vs) (least, rest) =
    let (ascending, after, has) = dedup-some v vs rest least in
    ((after, ascending), λ s. ground (arith, has s))

pub convert-IsAscending : (ts : List Text) → IsAscending (convert_to_string_set_in_place ts)
unfolding convert_to_string_set_in_place
convert-IsAscending ts = (dedup-none (sort ts) (sort-IsSorted ts)).0

pub member-convert :
    (s : Text) (ts : List Text) → member s (convert_to_string_set_in_place ts) ≡ member s ts
unfolding convert_to_string_set_in_place
member-convert s ts = (dedup-none (sort ts) (sort-IsSorted ts)).1 s ∙ member-sort s ts
