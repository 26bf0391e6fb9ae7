-- ===== src/Selector/StringSet/Search.antt =====
-- The binary chop finds the strings of an ascending set, and no other.
use zyzxlibcalico_go.Selector.StringSet.Members.{
  member, IsAscending, convert-IsAscending, member-convert,
}
use zyzxlibcalico_go.Prelude.{
  ℕ, zero, suc, ◌+◌, ◌-◌, ◌/◌, ◌≤◌, ◌<◌, ◌≡◌, refl, ◌∙◌, true, false, Option, some, List, [], ◌∷◌,
  length, get_elem?, get_elem?-of_lt, lt-of_get_elem?, ltb, ◌==◌, arith, Bool-cases, inl, inr,
  ltb→lt,
}
use zyzxlibcalico_go.Selector.Text.{
  Text, text_eq, text_lt, text_eq_iff, text_lt_irrefl, text_lt_asym,
}
use zyzxlibcalico_go.Selector.StringSet.{
  StringSet, convert_to_string_set_in_place, search, equal_at, contains,
}

member-get : (ss : StringSet) (i : ℕ) (s : Text) → get_elem? ss i ≡ some s → member s ss ≡ true
member-get [] i s h = cc
member-get (t ∷ ss) zero s h = ground (arith, text_eq_iff t s)
member-get (t ∷ ss) (suc i) s h = ground (arith, member-get ss i s h)

get-member : (ss : StringSet) (s : Text) → member s ss ≡ true → (i : ℕ) × (get_elem? ss i ≡ some s)
get-member [] s h = cc
get-member (t ∷ ss) s h = elim (Bool-cases (text_eq t s)) [
  | inl same ↦ (0, ground (arith, text_eq_iff t s))
  | inr other ↦ let (i, there) = get-member ss s (ground arith) in (suc i, there)
]

-- The strings of a set ascend.
ascends :
    (ss : StringSet) (i j : ℕ) (s t : Text)
    → IsAscending ss
    → i < j
    → get_elem? ss i ≡ some s
    → get_elem? ss j ≡ some t
    → text_lt s t ≡ true
ascends [] i j s t h less at_i at_j = cc
ascends (u ∷ ss) i zero s t h less at_i at_j = absurd (omega arith)
ascends (u ∷ ss) zero (suc j) s t (after, rest) less at_i at_j =
    ground (arith, after t (member-get ss j t at_j))
ascends (u ∷ ss) (suc i) (suc j) s t (after, rest) less at_i at_j =
    ascends ss i j s t rest (omega arith) at_i at_j

-- The chop ends at an index of the set, the only one at which the string can be.
record Chopped (ss : StringSet) (s : Text) (out : Option ℕ) : Type 0 where
  index : ℕ
  returns : out ≡ some index
  inside : index < length ss
  only : (k : ℕ) → get_elem? ss k ≡ some s → k ≡ index

chop_down :
    (ss : StringSet) (s p : Text) (mid : ℕ)
    → IsAscending ss
    → get_elem? ss mid ≡ some p
    → text_lt s p ≡ true
    → (k : ℕ) → get_elem? ss k ≡ some s
    → k < mid
chop_down ss s p mid a at_mid before k at_k = elim (Bool-cases (ltb mid k)) [
  | inl above ↦
      let back = ascends ss mid k p s a (ltb→lt mid k above) at_mid at_k in
      absurd (cc (text_lt_asym s p before))
  | inr below ↦ elim (Bool-cases (k == mid)) [
    | inl same ↦ let e : k ≡ mid = ground arith in absurd (ground (arith, text_lt_irrefl s))
    | inr other ↦ ground arith
  ]
]

chop_up :
    (ss : StringSet) (s p : Text) (mid : ℕ)
    → IsAscending ss
    → get_elem? ss mid ≡ some p
    → text_lt s p ≡ false
    → (k : ℕ) → get_elem? ss k ≡ some s
    → mid ≤ k
chop_up ss s p mid a at_mid after k at_k = elim (Bool-cases (ltb k mid)) [
  | inl below ↦ absurd (cc (ascends ss k mid s p a (ltb→lt k mid below) at_k at_mid))
  | inr done ↦ ground arith
]

search-Chopped :
    (fuel : ℕ) (ss : StringSet) (s : Text) (lo hi : ℕ)
    → IsAscending ss
    → lo < hi
    → hi ≤ length ss
    → hi - lo ≤ fuel
    → ((k : ℕ) → get_elem? ss k ≡ some s → lo ≤ k)
    → ((k : ℕ) → get_elem? ss k ≡ some s → k < hi)
    → Chopped ss s (search fuel ss s lo hi)
unfolding search
search-Chopped zero ss s lo hi a less fits enough low high = absurd (omega arith)
search-Chopped (suc fuel) ss s lo hi a less fits enough low high =
    elim (Bool-cases (ltb lo (hi - 1))) [
      | inr done ↦ rw done (record {
        index = lo;
        returns = refl;
        inside = omega arith;
        only = λ k there. ground (arith, low k there, high k there);
      })
      | inl more ↦
          let wide : lo < hi - 1 = ltb→lt lo (hi - 1) more in
          let mid = (lo + hi) / 2 in
          let over : lo < mid = omega arith in
          let under : mid < hi = omega arith in
          let (p, there) = get_elem?-of_lt ss mid (omega arith) in
          rw more (
            rw there (elim (Bool-cases (text_lt s p)) [
              | inl before ↦ rw before (
                  search-Chopped fuel ss s lo mid a over (omega arith) (omega arith) low
                    (chop_down ss s p mid a there before))
              | inr after ↦ rw after (
                  search-Chopped fuel ss s mid hi a under fits (omega arith)
                    (chop_up ss s p mid a there after) high)
            ]))
    ]

equal_at-member :
    (ss : StringSet) (s : Text) (i : ℕ)
    → i < length ss
    → ((k : ℕ) → get_elem? ss k ≡ some s → k ≡ i)
    → equal_at (get_elem? ss i) s ≡ member s ss
equal_at-member ss s i inside only =
    let (t, there) = get_elem?-of_lt ss i inside in
    rw there (elim (Bool-cases (member s ss)) [
      | inl has ↦
          let (k, at_k) = get-member ss s has in
          let e = only k at_k in ground (arith, text_eq_iff t s)
      | inr lacks ↦ ground (arith, text_eq_iff t s, member-get ss i s)
    ])

contains-member : (ss : StringSet) (s : Text) → IsAscending ss → contains ss s ≡ member s ss
unfolding contains
contains-member [] s a = refl
contains-member (t ∷ ts) s a =
    let ss = t ∷ ts in
    let c =
      search-Chopped (length ss) ss s 0 (length ss) a (omega arith) (omega arith) (omega arith)
        (λ k e. omega arith) (λ k e. lt-of_get_elem? ss k e) in
    rw c.returns (equal_at-member ss s c.index c.inside c.only)

-- The binary chop finds in a converted set exactly the strings that were converted, in whatever order
-- and however often they were given.
pub contains-convert :
    (ts : List Text) (s : Text) → contains (convert_to_string_set_in_place ts) s ≡ member s ts
contains-convert ts s =
    contains-member (convert_to_string_set_in_place ts) s (convert-IsAscending ts)
    ∙ member-convert s ts
