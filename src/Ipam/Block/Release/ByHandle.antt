-- ===== src/Ipam/Block/Release/ByHandle.antt =====
-- releaseByHandle: the ordinals that it frees, and the block that it leaves.
use native.Mathlib.Nat.{zero-add, add-zero}
use zyzxlibcalico_go.Prelude.{
  ℕ, zero, suc, ◌+◌, ◌≤◌, ◌<◌, ◌≡◌, refl, ◌∙◌, ap, Bool, true, false, Option, none, some, List, [],
  ◌∷◌, length, length-append, get_elem?, count, leb, if◌then◌else◌, arith, String, Bool-cases, inl,
  inr,
}
use zyzxlibcalico_go.Ipam.Address.{num_addresses}
use zyzxlibcalico_go.Ipam.Block.{AllocationBlock, AllocationAttribute, Outcome, ok}
use zyzxlibcalico_go.Ipam.Block.Invariant.{IsBlock, attributes_of, attr_at}
use zyzxlibcalico_go.Ipam.Block.Release.{
  int_in_slice, has_handle, indexes_by_handle, allocated_in, ordinals_with, release_indexes,
  release_by_handle,
}
use zyzxlibcalico_go.Ipam.Block.Release.Counting.{AllocatedAs}
use zyzxlibcalico_go.Ipam.Block.Release.Effect.{freed}
use zyzxlibcalico_go.Ipam.Block.Release.Whole.{delete_attributes-Deleted}

abbrev held_by : String → Option AllocationAttribute → Bool
held_by handle none = false
held_by handle (some attr) = has_handle handle attr.attr_primary

indexes_by_handle-below :
    (x : ℕ) (handle : String) (attrs : List AllocationAttribute) (i : ℕ)
    → i < x
    → int_in_slice i (indexes_by_handle x handle attrs) ≡ false
unfolding indexes_by_handle int_in_slice
indexes_by_handle-below x handle [] i h = refl
indexes_by_handle-below x handle (attr ∷ attrs) i h =
    ground (arith, indexes_by_handle-below (x + 1) handle attrs i (omega arith))

shift : (x i : ℕ) → x + suc i ≡ x + 1 + i
shift x i = omega arith

-- The indexes are those of the attributes with the handle.
indexes_by_handle_lem :
    (x : ℕ) (handle : String) (attrs : List AllocationAttribute) (i : ℕ)
    → int_in_slice (x + i) (indexes_by_handle x handle attrs) ≡ held_by handle (get_elem? attrs i)
unfolding indexes_by_handle int_in_slice
indexes_by_handle_lem x handle [] i = refl
indexes_by_handle_lem x handle (attr ∷ attrs) zero =
    rw (add-zero x) (elim (Bool-cases (has_handle handle attr.attr_primary)) [
      | inl held ↦ rw held (ground arith)
      | inr other ↦ rw other (indexes_by_handle-below (x + 1) handle attrs x (omega arith))
    ])
indexes_by_handle_lem x handle (attr ∷ attrs) (suc i) =
    let rest = indexes_by_handle_lem (x + 1) handle attrs i in rw (shift x i) (ground (arith, rest))

-- The ordinals from `o` on that are allocated with one of the indexes.
abbrev ords : ℕ → List ℕ → List (Option ℕ) → List ℕ
ords o indexes [] = []
ords o indexes (a ∷ allocs) =
    let rest = ords (o + 1) indexes allocs in if allocated_in indexes a then o ∷ rest else rest

ordinals_with-ords :
    (o : ℕ) (indexes : List ℕ) (allocs : List (Option ℕ)) (n : ℕ)
    → length allocs ≡ n
    → ordinals_with o n indexes allocs ≡ ok (ords o indexes allocs)
unfolding ordinals_with
ordinals_with-ords o indexes [] zero h = refl
ordinals_with-ords o indexes [] (suc n) h = absurd (omega arith)
ordinals_with-ords o indexes (a ∷ allocs) zero h = absurd (omega arith)
ordinals_with-ords o indexes (a ∷ allocs) (suc n) h =
    rw (ordinals_with-ords (o + 1) indexes allocs n (omega arith))

abbrev one_if : Bool → ℕ
one_if true = 1
one_if false = 0

abbrev in_indexes : List ℕ → Option (Option ℕ) → Bool
in_indexes indexes none = false
in_indexes indexes (some a) = allocated_in indexes a

count-ords-below :
    (o : ℕ) (indexes : List ℕ) (allocs : List (Option ℕ)) (j : ℕ)
    → j < o
    → count j (ords o indexes allocs) ≡ 0
count-ords-below o indexes [] j h = refl
count-ords-below o indexes (a ∷ allocs) j h =
    ground (arith, count-ords-below (o + 1) indexes allocs j (omega arith))

count-ords :
    (o : ℕ) (indexes : List ℕ) (allocs : List (Option ℕ)) (k : ℕ)
    → count (o + k) (ords o indexes allocs) ≡ one_if (in_indexes indexes (get_elem? allocs k))
count-ords o indexes [] k = refl
count-ords o indexes (a ∷ allocs) zero =
    rw (add-zero o) (elim (Bool-cases (allocated_in indexes a)) [
      | inl here ↦ rw here (ground (arith, count-ords-below (o + 1) indexes allocs o (omega arith)))
      | inr other ↦ rw other (count-ords-below (o + 1) indexes allocs o (omega arith))
    ])
count-ords o indexes (a ∷ allocs) (suc k) =
    let rest = count-ords (o + 1) indexes allocs k in rw (shift o k) (ground (arith, rest))

-- Different ordinals that are allocated have indexes.
with_indexes :
    (allocs : List (Option ℕ)) (os : List ℕ)
    → ((j : ℕ) → count j os ≤ 1)
    → ((j : ℕ) → 0 < count j os → (i : ℕ) × (get_elem? allocs j ≡ some (some i)))
    → (is : List ℕ) × AllocatedAs allocs os is
with_indexes allocs [] once there = ([], tt)
with_indexes allocs (o ∷ os) once there =
    let (i, here) = there o (ground arith) in
    let (is, rest) =
      with_indexes allocs os (λ j. ground (arith, once j)) (λ j h. there j (ground arith)) in
    (i ∷ is, (here, ground (arith, once o), rest))

in_indexes-allocated :
    (indexes : List ℕ) (x : Option (Option ℕ))
    → 0 < one_if (in_indexes indexes x)
    → (i : ℕ) × (x ≡ some (some i))
in_indexes-allocated indexes none h = absurd (omega arith)
in_indexes-allocated indexes (some none) h = absurd (omega arith)
in_indexes-allocated indexes (some (some i)) h = (i, refl)

abbrev pub without : String → Option AllocationAttribute → Option AllocationAttribute
without handle none = none
without handle (some attr) = if has_handle handle attr.attr_primary then none else some attr

-- What releaseByHandle returns.
pub record ReleasedHandle (handle : String) (b : AllocationBlock)
    (out : Outcome (ℕ × AllocationBlock)) : Type 0 where
  pub number : ℕ
  pub block : AllocationBlock
  pub returns : out ≡ ok (number, block)
  pub range : block.cidr ≡ b.cidr
  pub valid : IsBlock block
  pub attrs : (j : ℕ) → attr_at block j ≡ without handle (attr_at b j)
  pub freed_number : length block.unallocated ≡ length b.unallocated + number
  pub unchanged : number ≡ 0 → (j : ℕ) → attr_at block j ≡ attr_at b j

nothing_counted :
    {A : Type 0} (os : List ℕ) (j : ℕ)
    → length os ≡ 0
    → (x : Option A) → (if leb 1 (count j os) then none else x) ≡ x
nothing_counted [] j z x = refl
nothing_counted (o ∷ os) j z x = absurd (omega arith)

in_none : (x : Option (Option ℕ)) → 0 ≡ one_if (in_indexes [] x)
unfolding int_in_slice
in_none none = refl
in_none (some none) = refl
in_none (some (some i)) = refl

module _ (handle : String) (b : AllocationBlock) (v : IsBlock b) (indexes : List ℕ)
    (exact : (i : ℕ) → int_in_slice i indexes ≡ held_by handle (get_elem? b.attributes i)) where
  without_index :
      (n : ℕ) (x : Option (Option ℕ))
      → n ≡ one_if (in_indexes indexes x)
      → (if leb 1 n then none else attributes_of b.attributes x)
        ≡ without handle (attributes_of b.attributes x)
  without_index n none h = rw h refl
  without_index n (some none) h = rw h refl
  without_index n (some (some i)) h = ground (arith, exact i)

  found : List ℕ
  found = ords 0 indexes b.allocations

  found-count : (j : ℕ) → count j found ≡ one_if (in_indexes indexes (get_elem? b.allocations j))
  unfolding found
  found-count j = let c = count-ords 0 indexes b.allocations j in rw zero-add at c

  found-is : (is : List ℕ) × AllocatedAs b.allocations found is
  found-is =
      with_indexes b.allocations found (λ j. ground (arith, found-count j))
        (λ j h. in_indexes-allocated indexes (get_elem? b.allocations j) (rw (found-count j) at h))

  release_indexes-Released :
      (del : List ℕ) → del ≡ indexes → ReleasedHandle handle b (release_indexes del b)
  unfolding found
  release_indexes-Released [] e = record {
    number = 0;
    block = b;
    returns = refl;
    range = refl;
    valid = v;
    attrs = λ j.
        without_index 0 (get_elem? b.allocations j)
          (rw (← e) (in_none (get_elem? b.allocations j)));
    freed_number = omega arith;
    unchanged = λ z j. refl;
  }
  release_indexes-Released (i ∷ del) e =
      let (is, pairs) = found-is in
      let only : (j k : ℕ)
          → get_elem? b.allocations j ≡ some (some k)
          → int_in_slice k (i ∷ del) ≡ true
          → 1 ≤ count j found =
        λ j k there goes. ground (arith, found-count j, rw e at goes) in
      let d = delete_attributes-Deleted found (i ∷ del) b v only in
      let collected : ordinals_with 0 (num_addresses b.cidr) (i ∷ del) b.allocations ≡ ok found =
        ordinals_with-ords 0 (i ∷ del) b.allocations (num_addresses b.cidr) v.sized
        ∙ ap (λ t. ok (ords 0 t b.allocations)) e in
      let f = freed found is b d.allocs d.attrs v pairs d.renumbered in
      record {
        number = length found;
        block = f.block;
        returns = rw collected (rw d.returns (rw f.returns refl));
        range = f.range;
        valid = f.valid;
        attrs = λ j.
            f.attrs j ∙ without_index (count j found) (get_elem? b.allocations j) (found-count j);
        freed_number = rw f.lists (length-append b.unallocated found);
        unchanged = λ z j. f.attrs j ∙ nothing_counted found j z (attr_at b j);
      }

-- releaseByHandle on a well-formed block never fails: afterwards no address is allocated with the
-- handle, compared before the first carriage return, every other address has the attributes it
-- had, the block is well formed, and the number returned is that of the ordinals made free.
pub release_by_handle_lem :
    (handle : String) (b : AllocationBlock)
    → IsBlock b
    → ReleasedHandle handle b (release_by_handle handle b)
unfolding release_by_handle
release_by_handle_lem handle b v =
    let indexes = indexes_by_handle 0 handle b.attributes in
    release_indexes-Released handle b v indexes
      (λ i. let exact = indexes_by_handle_lem 0 handle b.attributes i in rw zero-add at exact)
      indexes refl
