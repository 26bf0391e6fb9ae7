-- ===== src/Ipam/Block/Emptiness.antt =====
-- When a block counts as empty.
use mathlib.Core.Option
use Prim.Native.Char.{code}
use zyzxlibcalico_go.Prelude.{
  ℕ, zero, suc, ◌+◌, ◌≤◌, ◌<◌, ◌⊎◌, ◌==◌, arith, ◌≡◌, ◌≢◌, ◌↔◌, refl, String, Bool, true, false,
  Option, none, some, List, [], ◌∷◌, length, get_elem?, get_elem?-of_lt, Bool-cases, inl, inr,
}
use zyzxlibcalico_go.Ipam.Block.{AllocationBlock, AllocationAttribute, Outcome, ok, index}
use zyzxlibcalico_go.Ipam.Block.Queries.{
  only_reserved, empty, is_reserved, to_lower, lower, codes_eq,
}
use zyzxlibcalico_go.Ipam.Block.Invariant.{IsBlock, attributes_of, handle_at}

-- The letter is the other one, which is not a capital, or a capital of it.
abbrev SameLetter : ℕ → ℕ → Type 0
SameLetter c d =
    ((c ≡ d) × ((c < 65) ⊎ (90 < c)) × (c ≢ 0x130) × (c ≢ 0x212a))
    ⊎ ((65 ≤ c) × (c ≤ 90) × (c + 32 ≡ d))
    ⊎ ((c ≡ 0x130) × (d ≡ 105))
    ⊎ ((c ≡ 0x212a) × (d ≡ 107))

abbrev SameLetters : String → List ℕ → Type 0
SameLetters String.[] [] = Unit
SameLetters (String.◌∷◌ c s) (d ∷ ds) = SameLetter (code c) d × SameLetters s ds
SameLetters _ _ = ⊥

-- "windows-reserved-ipam-handle"
abbrev reserved_letters : List ℕ
reserved_letters =
    119 ∷ 105 ∷ 110 ∷ 100 ∷ 111 ∷ 119 ∷ 115 ∷ 45 ∷ 114 ∷ 101 ∷ 115 ∷ 101 ∷ 114 ∷ 118 ∷ 101 ∷ 100
    ∷ 45 ∷ 105 ∷ 112 ∷ 97 ∷ 109 ∷ 45 ∷ 104 ∷ 97 ∷ 110 ∷ 100 ∷ 108 ∷ 101 ∷ []

-- The handle of the reserved addresses, in capital letters or not; no handle is not one.
abbrev pub IsReserved : Option String → Type 0
IsReserved none = ⊥
IsReserved (some h) = SameLetters h reserved_letters

abbrev pub OnlyReserved : (ℕ → Option (Option String)) → Type 0
OnlyReserved handles = (o : ℕ) (h : Option String) → handles o ≡ some h → IsReserved h

letter_lem : (c d : ℕ) → ((lower c == d) ≡ true) ↔ SameLetter c d
unfolding lower
letter_lem c d = (λ h. grind (arith, h), λ h. grind (arith, h))

codes_eq-SameLetters :
    (s : String) (ds : List ℕ) → (codes_eq (to_lower s) ds ≡ true) ↔ SameLetters s ds
unfolding codes_eq to_lower
codes_eq-SameLetters String.[] [] = (λ h. tt, λ h. refl)
codes_eq-SameLetters String.[] (d ∷ ds) = (λ h. cc, λ h. absurd h)
codes_eq-SameLetters (String.◌∷◌ c s) [] = (λ h. cc, λ h. absurd h)
codes_eq-SameLetters (String.◌∷◌ c s) (d ∷ ds) =
    let first = letter_lem (code c) d in
    let rest = codes_eq-SameLetters s ds in
    (
      λ h. (first.0 (ground (arith, h)), rest.0 (ground (arith, h))),
      λ (same, all). rw (first.1 same) (rest.1 all),
    )

is_reserved_iff : (h : Option String) → (is_reserved h ≡ true) ↔ IsReserved h
is_reserved_iff none = (λ h. cc, λ h. absurd h)
is_reserved_iff (some h) = codes_eq-SameLetters h reserved_letters

pub not_reserved : (h : Option String) → is_reserved h ≡ false → IsReserved h → ⊥
not_reserved h plain reserved = cc ((is_reserved_iff h).1 reserved, plain)

abbrev AllFlagged : (ℕ → Option (Option String)) → Type 0
AllFlagged handles = (o : ℕ) (h : Option String) → handles o ≡ some h → is_reserved h ≡ true

abbrev handles_of : List (Option ℕ) → List AllocationAttribute → ℕ → Option (Option String)
handles_of allocs attrs o =
    Option.map (λ (a : AllocationAttribute). a.attr_primary)
      (attributes_of attrs (get_elem? allocs o))

-- A test that does not panic, and is true exactly if `P` holds.
pub record Decides (P : Type 0) (out : Outcome Bool) : Type 0 where
  pub answer : Bool
  pub returns : out ≡ ok answer
  pub right : (answer ≡ true) ↔ P

only_reserved-Decides :
    (allocs : List (Option ℕ)) (attrs : List AllocationAttribute)
    → ((o i : ℕ) → get_elem? allocs o ≡ some (some i) → i < length attrs)
    → Decides (AllFlagged (handles_of allocs attrs)) (only_reserved allocs attrs)
unfolding only_reserved
only_reserved-Decides [] attrs indexed = record {
  answer = true;
  returns = refl;
  right = (λ e o h at. cc, λ all. refl);
}
only_reserved-Decides (none ∷ allocs) attrs indexed =
    let r = only_reserved-Decides allocs attrs (λ o i. indexed (suc o) i) in
    record {
      answer = r.answer;
      returns = r.returns;
      right = (
        λ e. elim [ zero ↦ λ h at. cc | suc o ↦ λ h at. r.right.0 e o h at ],
        λ all. r.right.1 (λ o h at. all (suc o) h at),
      );
    }
only_reserved-Decides (some i ∷ allocs) attrs indexed =
    let r = only_reserved-Decides allocs attrs (λ o i. indexed (suc o) i) in
    let (attr, there) = get_elem?-of_lt attrs i (indexed zero i refl) in
    elim (Bool-cases (is_reserved attr.attr_primary)) [
      | inl reserved ↦ record {
        answer = r.answer;
        returns = rw (there, index) (rw reserved r.returns);
        right = (
          λ e. elim [
            | zero ↦ λ h at.
                (let same : some attr.attr_primary ≡ some h = rw there at at in cc (same, reserved))
            | suc o ↦ λ h at. r.right.0 e o h at
          ],
          λ all. r.right.1 (λ o h at. all (suc o) h at),
        );
      }
      | inr used ↦ record {
        answer = false;
        returns = rw (there, index) (rw used refl);
        right = (λ e. cc, λ all. cc (all zero attr.attr_primary (rw there refl), used));
      }
    ]

-- empty never panics on a well-formed block, and says that it is empty exactly if every ordinal that is
-- allocated has a handle, and that is the one of the reserved addresses, in capital letters or not.
pub empty_lem : (b : AllocationBlock) → IsBlock b → Decides (OnlyReserved (handle_at b)) (empty b)
unfolding empty
empty_lem b v =
    let d = only_reserved-Decides b.allocations b.attributes v.indexed in
    record {
      answer = d.answer;
      returns = d.returns;
      right = (
        λ e o h at. (is_reserved_iff h).0 (d.right.0 e o h at),
        λ all. d.right.1 (λ o h at. (is_reserved_iff h).1 (all o h at)),
      );
    }
