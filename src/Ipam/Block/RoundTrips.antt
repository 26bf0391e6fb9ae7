-- ===== src/Ipam/Block/RoundTrips.antt =====
-- What the queries say after the operations, and that release undoes assign.
use mathlib.Core.Option
use zyzxlibcalico_go.Prelude.{
  ℕ, ◌≡◌, refl, sym, ◌∙◌, String, Bool, Option, none, some, List, [], ◌∷◌, get_elem?, count, leb,
  ◌==◌, ==_iff, if◌then◌else◌, arith, Bool-cases, inl, inr, get_elem?-of_lt,
}
use zyzxlibcalico_go.Prelude.Dict.{Dict}
use zyzxlibcalico_go.Ipam.Address.{Ip, ip_to_ordinal}
use zyzxlibcalico_go.Ipam.Block.{
  AllocationBlock, AllocationAttribute, Outcome, ok, err, does_not_exist, index, check_affinity,
  assign,
}
use zyzxlibcalico_go.Ipam.Block.Queries.{handle_for_ip}
use zyzxlibcalico_go.Ipam.Block.Invariant.{IsBlock, attr_at, handle_at}
use zyzxlibcalico_go.Ipam.Block.Assigning.Single.{ip_to_ordinal-lt, assign_lem}
use zyzxlibcalico_go.Ipam.Block.Release.{release_unique}
use zyzxlibcalico_go.Ipam.Block.Release.Scanning.{idle}
use zyzxlibcalico_go.Ipam.Block.Release.Whole.{release_unique_lem}

abbrev pub or_unassigned_handle : Option (Option String) → Outcome (Option String)
or_unassigned_handle none = err does_not_exist
or_unassigned_handle (some handle) = ok handle

-- handleForIP of the address at the ordinal `o` of a well-formed block returns the handle with which
-- the ordinal is allocated, and the error that the address is not assigned if it is free.
pub handle_for_ip_lem :
    (b : AllocationBlock) (ip : Ip) (o : ℕ)
    → IsBlock b
    → ip_to_ordinal b.cidr ip ≡ some o
    → handle_for_ip ip b ≡ or_unassigned_handle (handle_at b o)
unfolding handle_for_ip
handle_for_ip_lem b ip o v inside =
    let (x, there) =
      get_elem?-of_lt b.allocations o (omega (arith, v.sized, ip_to_ordinal-lt b.cidr ip inside)) in
    go x there
  where
    go :
        (x : Option ℕ)
        → get_elem? b.allocations o ≡ some x
        → handle_for_ip ip b ≡ or_unassigned_handle (handle_at b o)
    go none there = rw inside (rw (there, index) refl)
    go (some i) there =
        let (attr, has) = get_elem?-of_lt b.attributes i (v.indexed o i there) in
        rw inside (rw (there, index) (rw (has, index) refl))

-- What release does to a block, with the handles only.
pub record Undone (b : AllocationBlock) (out : Outcome (List Ip × Dict ℕ × AllocationBlock))
    : Type 0 where
  pub counts : Dict ℕ
  pub block : AllocationBlock
  pub returns : out ≡ ok ([], counts, block)
  pub valid : IsBlock block
  pub handles : (j : ℕ) → handle_at block j ≡ handle_at b j

idle-one :
    (b : AllocationBlock) (ip : Ip) (o : ℕ) (handle : Option String)
    → handle_at b o ≡ some handle
    → idle b (ip ∷ []) (o ∷ []) ≡ []
idle-one b ip o handle h = go (get_elem? b.allocations o) refl
  where
    go : (x : Option (Option ℕ)) → get_elem? b.allocations o ≡ x → idle b (ip ∷ []) (o ∷ []) ≡ []
    go none e = absurd (cc (rw (e, attr_at) at h))
    go (some none) e = absurd (cc (rw (e, attr_at) at h))
    go (some (some i)) e = rw e refl

abbrev primary : Option AllocationAttribute → Option (Option String)
primary x = Option.map (λ (a : AllocationAttribute). a.attr_primary) x

handle_back :
    (o j : ℕ) (x y : Option AllocationAttribute) (handle : Option String)
    (h : Option (Option String))
    → x ≡ (if leb 1 (count j (o ∷ [])) then none else y)
    → primary y ≡ (if o == j then some handle else h)
    → (o ≡ j → h ≡ none)
    → primary x ≡ h
handle_back o j x y handle h after before free = elim (Bool-cases (o == j)) [
  | inl same ↦ let gone : x ≡ none = ground arith in rw gone (sym (free ((==_iff o j).0 same)))
  | inr other ↦ let kept : x ≡ y = ground arith in rw kept (before ∙ rw other refl)
]

-- An address whose ordinal is free can be assigned, if the affinity check passes: handleForIP then
-- returns the handle, and to release the address gives a well-formed block in which every ordinal has
-- the handle that it had at first, and reports no address as unallocated.
pub release-assign :
    (check : Bool) (address : Ip) (handle : Option String) (attrs : Option (Dict String))
    (host : String) (b : AllocationBlock) (o : ℕ)
    → IsBlock b
    → check_affinity check host b.affinity ≡ ok tt
    → ip_to_ordinal b.cidr address ≡ some o
    → handle_at b o ≡ none
    → (b' : AllocationBlock) × (assign check address handle attrs host b ≡ ok b')
      × (handle_for_ip address b' ≡ ok handle)
      × Undone b (release_unique (address ∷ []) b')
release-assign check address handle attrs host b o v passes inside free =
    let (b', returns, v', same, handles) =
      rw free at (assign_lem check address handle attrs host b o v passes inside) in
    let inside' : ip_to_ordinal b'.cidr address ≡ some o = rw same inside in
    let assigned : handle_at b' o ≡ some handle = handles o ∙ ground arith in
    let r =
      release_unique_lem b' (address ∷ []) (o ∷ []) v'
        (inside', ip_to_ordinal-lt b'.cidr address inside', tt) (λ j. ground arith) in
    (
      b',
      returns,
      handle_for_ip_lem b' address o v' inside' ∙ rw assigned refl,
      record {
        counts = r.counts;
        block = r.block;
        returns = r.returns ∙ rw (idle-one b' address o handle assigned) refl;
        valid = r.valid;
        handles = λ j.
            handle_back o j (attr_at r.block j) (attr_at b' j) handle (handle_at b j) (r.attrs j)
              (handles j) (λ e. rw e at free);
      },
    )
