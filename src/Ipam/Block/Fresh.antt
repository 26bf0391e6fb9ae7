-- ===== src/Ipam/Block/Fresh.antt =====
-- What a new block is: the first and the last ordinals reserved, the others free.
use zyzxlibcalico_go.Prelude.{
  ℕ, zero, suc, ◌+◌, ◌-◌, ◌≤◌, ◌<◌, ◌≡◌, refl, sym, ◌∙◌, ap, Bool, true, false, ◌||◌, ◌&&◌, Option,
  none, some, List, [], ◌∷◌, length, get_elem?, set, get_elem?-set, length-set, take, drop,
  replicate, count, ltb, leb, if◌then◌else◌, arith, lt→ltb,
}
use zyzxlibcalico_go.Ipam.Address.{IpNet, num_addresses}
use zyzxlibcalico_go.Ipam.Block.{
  AllocationBlock, AllocationAttribute, HostReservedAttr, Outcome, ok,
}
use zyzxlibcalico_go.Ipam.Block.Creation.{
  ordinals_from, reserve_start, reserve_end, reserve, new_block,
}
use zyzxlibcalico_go.Ipam.Block.Invariant.{IsBlock, attr_at}

-- The allocations with some of the ordinals reserved.
record Reserved (allocs : List (Option ℕ)) (here : ℕ → Bool) (out : Outcome (List (Option ℕ)))
    : Type 0 where
  result : List (Option ℕ)
  returns : out ≡ ok result
  sized : length result ≡ length allocs
  entries : (j : ℕ) → get_elem? result j ≡ (if here j then some (some 0) else get_elem? allocs j)

reserve_start-Reserved :
    (i : ℕ) (allocs : List (Option ℕ))
    → i ≤ length allocs
    → Reserved allocs (λ j. ltb j i) (reserve_start i allocs)
unfolding reserve_start
reserve_start-Reserved zero allocs h = record {
  result = allocs;
  returns = refl;
  sized = refl;
  entries = λ j. ground arith;
}
reserve_start-Reserved (suc i) allocs h =
    let r = reserve_start-Reserved i allocs (omega arith) in
    let below : i < length r.result = rw r.sized h in
    record {
      result = set r.result i (some 0);
      returns = rw r.returns (rw (lt→ltb _ _ below) refl);
      sized = length-set r.result i (some 0) ∙ r.sized;
      entries = λ j. ground (arith, get_elem?-set r.result i j (some 0) below, r.entries j);
    }

reserve_end-Reserved :
    (n i : ℕ) (allocs : List (Option ℕ))
    → n ≡ length allocs
    → i ≤ n
    → Reserved allocs (λ j. leb (n - i) j && ltb j n) (reserve_end n i allocs)
unfolding reserve_end
reserve_end-Reserved n zero allocs e h = record {
  result = allocs;
  returns = refl;
  sized = refl;
  entries = λ j. ground arith;
}
reserve_end-Reserved n (suc i) allocs e h =
    let r = reserve_end-Reserved n i allocs e (omega arith) in
    let below : n - (i + 1) < length r.result = rw r.sized (omega arith) in
    let fits : leb (i + 1) n ≡ true = ground arith in
    record {
      result = set r.result (n - (i + 1)) (some 0);
      returns = rw r.returns (rw fits (rw (lt→ltb _ _ below) refl));
      sized = length-set r.result (n - (i + 1)) (some 0) ∙ r.sized;
      entries =
          λ j. ground (arith, get_elem?-set r.result (n - (i + 1)) j (some 0) below, r.entries j);
    }

length-ordinals_from : (i n : ℕ) → length (ordinals_from i n) ≡ n
unfolding ordinals_from
length-ordinals_from i zero = refl
length-ordinals_from i (suc n) = ap suc (length-ordinals_from (i + 1) n)

count-ordinals_from :
    (i n j : ℕ) → count j (ordinals_from i n) ≡ (if leb i j && ltb j (i + n) then 1 else 0)
unfolding ordinals_from
count-ordinals_from i zero j = ground arith
count-ordinals_from i (suc n) j = ground (arith, count-ordinals_from (i + 1) n j)

same_from : {i i' n n' : ℕ} → i ≡ i' → n ≡ n' → ordinals_from i n ≡ ordinals_from i' n'
same_from e f = rw (e, f)

drop-ordinals_from :
    (i n k : ℕ) → k ≤ n → drop k (ordinals_from i n) ≡ ordinals_from (i + k) (n - k)
unfolding ordinals_from
drop-ordinals_from i n zero h = same_from (omega arith) (omega arith)
drop-ordinals_from i zero (suc k) h = absurd (omega arith)
drop-ordinals_from i (suc n) (suc k) h =
    drop-ordinals_from (i + 1) n k (omega arith) ∙ same_from (omega arith) (omega arith)

take-ordinals_from : (i n k : ℕ) → k ≤ n → take k (ordinals_from i n) ≡ ordinals_from i k
unfolding ordinals_from
take-ordinals_from i n zero h = refl
take-ordinals_from i zero (suc k) h = absurd (omega arith)
take-ordinals_from i (suc n) (suc k) h =
    ap (λ t. i ∷ t) (take-ordinals_from (i + 1) n k (omega arith))

length-replicate : (n : ℕ) → length (replicate {A = Option ℕ} n none) ≡ n
length-replicate zero = refl
length-replicate (suc n) = ap suc (length-replicate n)

get_elem?-replicate :
    (n j : ℕ)
    → get_elem? (replicate {A = Option ℕ} n none) j ≡ (if ltb j n then some none else none)
get_elem?-replicate zero j = ground arith
get_elem?-replicate (suc n) zero = ground arith
get_elem?-replicate (suc n) (suc j) = get_elem?-replicate n j ∙ ground arith

-- Whether the last or the first ordinals that are reserved have `j`.
abbrev pub is_kept : HostReservedAttr → ℕ → ℕ → Bool
is_kept r n j = leb (n - r.end_of_block) j && ltb j n || ltb j r.start_of_block

abbrev pub reserved_attr : HostReservedAttr → AllocationAttribute
reserved_attr r = record {
  attr_primary = some r.handle;
  attr_secondary = some (("note", r.note) ∷ []);
}

-- What a new block with reserved addresses is.
pub record NewBlock (cidr : IpNet) (r : HostReservedAttr) (out : Outcome AllocationBlock)
    : Type 0 where
  pub block : AllocationBlock
  pub returns : out ≡ ok block
  pub valid : IsBlock block
  pub same : block.cidr ≡ cidr
  pub attrs :
      (j : ℕ)
      → attr_at block j
        ≡ (if is_kept r (num_addresses cidr) j then some (reserved_attr r) else none)

-- newBlock with reserved addresses that fit into the block succeeds and makes a well-formed block, in
-- which exactly the first and the last ordinals of the reservation are allocated, with its handle and
-- note.
pub new_block_lem :
    (cidr : IpNet) (r : HostReservedAttr)
    → r.start_of_block + r.end_of_block ≤ num_addresses cidr
    → NewBlock cidr r (new_block cidr (some r))
unfolding new_block reserve
new_block_lem cidr r fits =
    let n = num_addresses cidr in
    let start = r.start_of_block in
    let end = r.end_of_block in
    let lead =
      reserve_start-Reserved start (replicate n none)
        (rw (length-replicate n) (omega (arith, fits))) in
    let tail =
      reserve_end-Reserved n end lead.result (sym (lead.sized ∙ length-replicate n))
        (omega (arith, fits)) in
    let left : take (n - end - start) (drop start (ordinals_from 0 n))
        ≡ ordinals_from start (n - end - start) =
      rw (drop-ordinals_from 0 n start (omega (arith, fits))) (
        take-ordinals_from (0 + start) (n - start) (n - end - start) (omega (arith, fits))
        ∙ same_from (omega arith) refl) in
    let ordered : leb end n ≡ true = ground (arith, fits) in
    let inside : leb start (n - end) ≡ true = ground (arith, fits) in
    let long : leb (n - end) (length (ordinals_from 0 n)) ≡ true =
      ground (arith, length-ordinals_from 0 n) in
    record {
      block = record {
        cidr = cidr;
        affinity = none;
        allocations = tail.result;
        unallocated = ordinals_from start (n - end - start);
        attributes = reserved_attr r ∷ [];
        deleted = false;
      };
      returns = rw ordered (rw inside (rw long (rw lead.returns (rw tail.returns (rw left refl)))));
      valid = record {
        sized = tail.sized ∙ (lead.sized ∙ length-replicate n);
        counted = λ j. ground (
          arith,
          tail.entries j,
          lead.entries j,
          get_elem?-replicate n j,
          count-ordinals_from start (n - end - start) j,
        );
        indexed = λ j i h. ground (arith, tail.entries j, lead.entries j, get_elem?-replicate n j);
      };
      same = refl;
      attrs = λ j. ground (arith, tail.entries j, lead.entries j, get_elem?-replicate n j);
    }

-- The addresses that the host reserves, if it does, fit into the block.
abbrev pub Fits : IpNet → Option HostReservedAttr → Type 0
Fits cidr none = Unit
Fits cidr (some r) = r.start_of_block + r.end_of_block ≤ num_addresses cidr

-- Either way the new block is well formed.
pub new_block-IsBlock :
    (cidr : IpNet) (rsvd : Option HostReservedAttr)
    → Fits cidr rsvd
    → (b : AllocationBlock) × (new_block cidr rsvd ≡ ok b) × IsBlock b × (b.cidr ≡ cidr)
unfolding new_block
new_block-IsBlock cidr none fits =
    let n = num_addresses cidr in
    (
      _,
      refl,
      record {
        sized = length-replicate n;
        counted = λ j. ground (arith, get_elem?-replicate n j, count-ordinals_from 0 n j);
        indexed = λ j i h. ground (arith, get_elem?-replicate n j);
      },
      refl,
    )
new_block-IsBlock cidr (some r) fits =
    let fresh = new_block_lem cidr r fits in (fresh.block, fresh.returns, fresh.valid, fresh.same)
