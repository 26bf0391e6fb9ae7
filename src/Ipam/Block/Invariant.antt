-- ===== src/Ipam/Block/Invariant.antt =====
-- What every operation of a block keeps, and what a block says of an ordinal.
use mathlib.Core.Option
use text.Mathlib.TextEquality.{eq_iff}
use zyzxlibcalico_go.Prelude.{
  ℕ, zero, suc, ◌+◌, ◌≤◌, ◌<◌, ◌≡◌, refl, ap, String, Bool, true, false, Option, none, some, List,
  [], ◌∷◌, length, get_elem?, count, if◌then◌else◌, arith,
}
use zyzxlibcalico_go.Ipam.Address.{num_addresses}
use zyzxlibcalico_go.Ipam.Block.{
  AllocationBlock, AllocationAttribute, deep_equal, equal_primary, find_or_add,
}

abbrev pub one_if_free : Option (Option ℕ) → ℕ
one_if_free (some none) = 1
one_if_free _ = 0

-- The ordinals of `pending` are taken out of the free ones and not allocated yet.
pub record IsPending (pending : List ℕ) (b : AllocationBlock) : Type 0 where
  pub sized : length b.allocations ≡ num_addresses b.cidr
  pub counted :
      (o : ℕ) → count o pending + count o b.unallocated ≡ one_if_free (get_elem? b.allocations o)
  pub indexed : (o i : ℕ) → get_elem? b.allocations o ≡ some (some i) → i < length b.attributes

-- There is an allocation for each address, an ordinal is listed as unallocated exactly if it is, and
-- then once, and every allocation has attributes.
pub record IsBlock (b : AllocationBlock) : Type 0 where
  pub sized : length b.allocations ≡ num_addresses b.cidr
  pub counted : (o : ℕ) → count o b.unallocated ≡ one_if_free (get_elem? b.allocations o)
  pub indexed : (o i : ℕ) → get_elem? b.allocations o ≡ some (some i) → i < length b.attributes

abbrev pub attributes_of : List AllocationAttribute → Option (Option ℕ) → Option AllocationAttribute
attributes_of attrs (some (some i)) = get_elem? attrs i
attributes_of attrs _ = none

-- The attributes with which an ordinal is allocated, if it is.
abbrev pub attr_at : AllocationBlock → ℕ → Option AllocationAttribute
attr_at b o = attributes_of b.attributes (get_elem? b.allocations o)

abbrev pub handle_at : AllocationBlock → ℕ → Option (Option String)
handle_at b o = Option.map (λ (a : AllocationAttribute). a.attr_primary) (attr_at b o)

equal_primary→≡ : (a b : Option String) → equal_primary a b ≡ true → b ≡ a
equal_primary→≡ none none h = refl
equal_primary→≡ none (some b) h = cc
equal_primary→≡ (some a) none h = cc
equal_primary→≡ (some a) (some b) h = ground (arith, eq_iff a b)

deep_equal→primary :
    (a b : AllocationAttribute) → deep_equal a b ≡ true → b.attr_primary ≡ a.attr_primary
unfolding deep_equal
deep_equal→primary a b h = equal_primary→≡ a.attr_primary b.attr_primary (ground arith)

-- What findOrAddAttribute finds or adds: an index, and the attributes.
pub record Found (attr : AllocationAttribute) (attrs : List AllocationAttribute)
    (r : ℕ × List AllocationAttribute) : Type 0 where
  pub grows : length attrs ≤ length r.1
  pub inside : r.0 < length r.1
  pub kept : (j : ℕ) → j < length attrs → get_elem? r.1 j ≡ get_elem? attrs j
  pub handled :
      Option.map (λ (a : AllocationAttribute). a.attr_primary) (get_elem? r.1 r.0)
      ≡ some attr.attr_primary

pub find_or_add-Found :
    (attr : AllocationAttribute) (attrs : List AllocationAttribute)
    → Found attr attrs (find_or_add attr attrs)
unfolding find_or_add
find_or_add-Found attr [] = record {
  grows = omega arith;
  inside = omega arith;
  kept = λ j h. absurd (omega arith);
  handled = refl;
}
find_or_add-Found attr (existing ∷ rest) =
    go (deep_equal attr existing) refl (find_or_add attr rest) (find_or_add-Found attr rest)
  where
    go :
        (b : Bool)
        → deep_equal attr existing ≡ b
        → (r : ℕ × List AllocationAttribute) → Found attr rest r
        → Found attr
            (existing ∷ rest)
            (if b then (0, existing ∷ rest) else (suc r.0, existing ∷ r.1))
    go true same r f = record {
      grows = omega arith;
      inside = omega arith;
      kept = λ j h. refl;
      handled = ap some (deep_equal→primary attr existing same);
    }
    go false other r f = record {
      grows = omega (arith, f.grows);
      inside = omega (arith, f.inside);
      kept = elim [ zero ↦ λ h. refl | suc j ↦ λ h. f.kept j (omega arith) ];
      handled = f.handled;
    }
