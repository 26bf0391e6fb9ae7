-- ===== src/Ipam/Handle/Counts.antt =====
-- The handle as a number of addresses for each block.
use text.Mathlib.Text.{◌==◌ as str_eq}
use text.Mathlib.TextEquality.{eq_iff}
use zyzxlibcalico_go.Prelude.{
  ℕ, ◌+◌, ◌-◌, ◌≤◌, ◌<◌, ◌≡◌, ◌↔◌, refl, String, true, Option, none, some, [], ◌∷◌, ltb, ◌==◌,
  if◌then◌else◌, arith, Bool-cases, ◌⊎◌, inl, inr,
}
use zyzxlibcalico_go.Prelude.Dict.{Dict, lookup, lookup-insert, lookup-delete}
use zyzxlibcalico_go.Ipam.Handle.{
  IpamHandle, incremented, increment_block, Result, decremented, decrement_block, empty, is_nil,
}

abbrev or_zero : Option ℕ → ℕ
or_zero none = 0
or_zero (some n) = n

-- How many addresses of the block the handle has.
abbrev pub held : IpamHandle → String → ℕ
held h id = or_zero (lookup id h.block)

-- A block without addresses has no entry.
pub record IsHandle (h : IpamHandle) : Type 0 where
  pub positive : (id : String) (n : ℕ) → lookup id h.block ≡ some n → 0 < n

-- incrementBlock by a positive number keeps the handle well formed, returns the block's new number,
-- and adds to that block's number and to no other.
pub increment_block_lem :
    (id : String) (num : ℕ) (h : IpamHandle)
    → IsHandle h
    → 0 < num
    → IsHandle (increment_block id num h).1
      × ((increment_block id num h).0 ≡ held h id + num)
      × ((j : String)
          → held (increment_block id num h).1 j
            ≡ (if str_eq id j then held h id + num else held h j))
unfolding increment_block
increment_block_lem id num h v pos = (
  record {
    positive = λ j n e.
        ground
          (arith, lookup-insert id j (incremented (lookup id h.block) num) h.block, v.positive j n);
  },
  ground arith,
  λ j. ground (arith, lookup-insert id j (incremented (lookup id h.block) num) h.block),
)

-- What decrementBlock leaves: an error, if the handle has fewer addresses of the block than are
-- taken away or none at all, and else the handle with that many fewer.
abbrev pub Decremented : String → ℕ → IpamHandle → Result → Type 0
Decremented id num h (Result.failed e) = (held h id < num) ⊎ (held h id ≡ 0)
Decremented id num h (Result.done n h') =
    IsHandle h'
    × (num ≤ held h id)
    × (n ≡ held h id - num)
    × ((j : String) → held h' j ≡ (if str_eq id j then n else held h j))

decremented_lem :
    (id : String) (num : ℕ) (h : IpamHandle)
    → IsHandle h
    → (x : Option ℕ) → lookup id h.block ≡ x
    → Decremented id num h (decremented id x num h)
decremented_lem id num h v none e = inr (rw e refl)
decremented_lem id num h v (some current) e = elim (Bool-cases (ltb current num)) [
  | inl few ↦ rw few (inl (rw e (ground arith)))
  | inr enough ↦ rw enough (elim (Bool-cases (current - num == 0)) [
    | inl gone ↦ rw gone (
      record { positive = λ j n there. ground (arith, lookup-delete id j h.block, v.positive j n) },
      rw e (ground arith),
      rw e (ground arith),
      λ j. ground (arith, lookup-delete id j h.block),
    )
    | inr left ↦ rw left (
      record {
        positive =
            λ j n there. ground (arith, lookup-insert id j (current - num) h.block, v.positive j n);
      },
      rw e (ground arith),
      rw e refl,
      λ j. ground (arith, lookup-insert id j (current - num) h.block),
    )
  ])
]

-- decrementBlock fails only if the handle has fewer addresses of the block than are taken away, or
-- none; otherwise it returns what is left, and the handle is well formed and has that number for the
-- block, and for every other block the number it had.
pub decrement_block_lem :
    (id : String) (num : ℕ) (h : IpamHandle)
    → IsHandle h
    → Decremented id num h (decrement_block id num h)
unfolding decrement_block
decrement_block_lem id num h v = decremented_lem id num h v (lookup id h.block) refl

-- A well-formed handle is empty exactly if it has no addresses of any block.
pub empty_iff : (h : IpamHandle) → IsHandle h → (empty h ≡ true) ↔ ((id : String) → held h id ≡ 0)
unfolding empty lookup
empty_iff h v = go h.block v.positive
  where
    go :
        (m : Dict ℕ)
        → ((id : String) (n : ℕ) → lookup id m ≡ some n → 0 < n)
        → (is_nil m ≡ true) ↔ ((id : String) → or_zero (lookup id m) ≡ 0)
    go [] pos = (λ e id. refl, λ e. refl)
    go ((k, n) ∷ m) pos = (λ e. cc, λ zeros. absurd (ground (arith, zeros k, pos k n, eq_iff k k)))
