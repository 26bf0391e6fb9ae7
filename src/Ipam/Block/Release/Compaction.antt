-- ===== src/Ipam/Block/Release/Compaction.antt =====
-- deleteAttributes renumbers the allocations and keeps the attributes of each.
use native.Mathlib.Nat.{zero-add, add-zero}
use mathlib.Core.Option
use zyzxlibcalico_go.Prelude.{
  ℕ, zero, suc, ◌+◌, ◌<◌, ◌≡◌, refl, ◌∙◌, ap, true, false, Option, none, some, List, [], ◌∷◌, map,
  length, get_elem?, arith, Bool-cases, inl, inr, get_elem?-of_lt, length-map,
}
use zyzxlibcalico_go.Ipam.Address.{num_addresses}
use zyzxlibcalico_go.Ipam.Block.{AllocationBlock, AllocationAttribute, Outcome, ok, index}
use zyzxlibcalico_go.Ipam.Block.Release.{
  int_in_slice, new_indexes, new_attributes, remap, delete_attributes,
}

shift : (x i : ℕ) → x + suc i ≡ x + 1 + i
shift x i = omega arith

some-some : {a b : ℕ} → a ≡ b → some (some a) ≡ some (some b)
some-some e = ap (λ t. some (some t)) e

length-new_indexes :
    (x y : ℕ) (del : List ℕ) (attrs : List AllocationAttribute)
    → length (new_indexes x y del attrs) ≡ length attrs
unfolding new_indexes
length-new_indexes x y del [] = refl
length-new_indexes x y del (a ∷ attrs) =
    ground
      (arith, length-new_indexes (x + 1) (y + 1) del attrs, length-new_indexes (x + 1) y del attrs)

-- An attribute that goes has no new index.
new_indexes_gone :
    (x y : ℕ) (del : List ℕ) (attrs : List AllocationAttribute) (i : ℕ)
    → i < length attrs
    → int_in_slice (x + i) del ≡ true
    → get_elem? (new_indexes x y del attrs) i ≡ some none
unfolding new_indexes
new_indexes_gone x y del [] i h gone = absurd (omega arith)
new_indexes_gone x y del (a ∷ attrs) zero h gone = rw (rw add-zero at gone) refl
new_indexes_gone x y del (a ∷ attrs) (suc i) h gone =
    let gone' : int_in_slice (x + 1 + i) del ≡ true = rw (← shift x i) gone in
    ground (
      arith,
      new_indexes_gone (x + 1) (y + 1) del attrs i (omega arith) gone',
      new_indexes_gone (x + 1) y del attrs i (omega arith) gone',
    )

-- One that stays is found at its new index.
new_indexes_kept :
    (x y : ℕ) (del : List ℕ) (attrs : List AllocationAttribute) (i : ℕ)
    → i < length attrs
    → int_in_slice (x + i) del ≡ false
    → (k : ℕ) × (get_elem? (new_indexes x y del attrs) i ≡ some (some (y + k)))
      × (get_elem? (new_attributes x del attrs) k ≡ get_elem? attrs i)
unfolding new_indexes new_attributes
new_indexes_kept x y del [] i h stays = absurd (omega arith)
new_indexes_kept x y del (a ∷ attrs) zero h stays =
    rw (rw add-zero at stays) (zero, some-some (omega arith), refl)
new_indexes_kept x y del (a ∷ attrs) (suc i) h stays =
    let stays' : int_in_slice (x + 1 + i) del ≡ false = rw (← shift x i) stays in
    elim (Bool-cases (int_in_slice x del)) [
      | inl gone ↦ rw gone (new_indexes_kept (x + 1) y del attrs i (omega arith) stays')
      | inr here ↦
          let (k, at_index, same) =
            new_indexes_kept (x + 1) (y + 1) del attrs i (omega arith) stays' in
          rw here (suc k, at_index ∙ some-some (omega arith), same)
    ]

abbrev pub remap_one : List (Option ℕ) → Option ℕ → Option ℕ
remap_one indexes none = none
remap_one indexes (some i) = elim (get_elem? indexes i) [ none ↦ none | some k ↦ k ]

remap_lem :
    (n : ℕ) (indexes allocs : List (Option ℕ))
    → length allocs ≡ n
    → ((o i : ℕ) → get_elem? allocs o ≡ some (some i) → i < length indexes)
    → remap n indexes allocs ≡ ok (map (remap_one indexes) allocs)
unfolding remap
remap_lem zero indexes [] h inside = refl
remap_lem zero indexes (a ∷ allocs) h inside = absurd (omega arith)
remap_lem (suc n) indexes [] h inside = absurd (omega arith)
remap_lem (suc n) indexes (none ∷ allocs) h inside =
    rw (remap_lem n indexes allocs (omega arith) (λ o i e. inside (suc o) i e))
remap_lem (suc n) indexes (some i ∷ allocs) h inside =
    let (k, there) = get_elem?-of_lt indexes i (inside zero i refl) in
    rw (there, index)
      (rw (remap_lem n indexes allocs (omega arith) (λ o j e. inside (suc o) j e))
        (rw (there, remap_one)))

get_elem?-map :
    {A B : Type 0} (f : A → B) (xs : List A) (i : ℕ)
    → get_elem? (map f xs) i ≡ Option.map f (get_elem? xs i)
get_elem?-map f [] i = refl
get_elem?-map f (x ∷ xs) zero = refl
get_elem?-map f (x ∷ xs) (suc i) = get_elem?-map f xs i

-- What deleteAttributes returns: an allocation whose attribute goes is nil, and any other keeps its
-- attribute, under an index of its own.
pub record Compacted (del : List ℕ) (b : AllocationBlock) (out : Outcome AllocationBlock)
    : Type 0 where
  pub allocations : List (Option ℕ)
  pub attributes : List AllocationAttribute
  pub returns : out ≡ ok (record b { attributes = attributes; allocations = allocations })
  pub sized : length allocations ≡ length b.allocations
  pub free : (o : ℕ) → get_elem? b.allocations o ≡ some none → get_elem? allocations o ≡ some none
  pub missing : (o : ℕ) → get_elem? b.allocations o ≡ none → get_elem? allocations o ≡ none
  pub gone :
      (o i : ℕ)
      → get_elem? b.allocations o ≡ some (some i)
      → int_in_slice i del ≡ true
      → get_elem? allocations o ≡ some none
  pub kept :
      (o i : ℕ)
      → get_elem? b.allocations o ≡ some (some i)
      → int_in_slice i del ≡ false
      → (k : ℕ) × (get_elem? allocations o ≡ some (some k))
        × (get_elem? attributes k ≡ get_elem? b.attributes i)

pub delete_attributes-Compacted :
    (del : List ℕ) (b : AllocationBlock)
    → length b.allocations ≡ num_addresses b.cidr
    → ((o i : ℕ) → get_elem? b.allocations o ≡ some (some i) → i < length b.attributes)
    → Compacted del b (delete_attributes del b)
unfolding delete_attributes
delete_attributes-Compacted del b sized indexed =
    let indexes = new_indexes 0 0 del b.attributes in
    let same = length-new_indexes 0 0 del b.attributes in
    let at = get_elem?-map (remap_one indexes) b.allocations in
    record {
      allocations = map (remap_one indexes) b.allocations;
      attributes = new_attributes 0 del b.attributes;
      returns =
          rw
            (remap_lem (num_addresses b.cidr) indexes b.allocations sized
              (λ o i e. rw same (indexed o i e)))
            refl;
      sized = length-map b.allocations (remap_one indexes);
      free = λ o h. rw (at o) (rw h refl);
      missing = λ o h. rw (at o) (rw h refl);
      gone = λ o i h g. rw (at o) (
          rw h (
            rw (new_indexes_gone 0 0 del b.attributes i (indexed o i h) (rw zero-add g), remap_one)
              refl));
      kept = λ o i h s.
          let (k, at_index, attr) =
            new_indexes_kept 0 0 del b.attributes i (indexed o i h) (rw zero-add s) in
          (k, rw (at o) (rw h (rw (at_index, remap_one) (some-some (omega arith)))), attr);
    }
