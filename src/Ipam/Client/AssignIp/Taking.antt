-- ===== src/Ipam/Client/AssignIp/Taking.antt =====
-- What assign of lib/ipam/ipam_block.go makes of any block, as AssignIP calls it.
use zyzxlibcalico_go.Prelude.{ℕ, ◌≡◌, refl, String, Bool, Option, none, some, ◌==◌, if◌then◌else◌}
use zyzxlibcalico_go.Prelude.Dict.{Dict}
use zyzxlibcalico_go.Ipam.Address.{Ip, ip_to_ordinal}
use zyzxlibcalico_go.Ipam.Block.{AllocationBlock, Outcome, ok, assign, check_affinity}
use zyzxlibcalico_go.Ipam.Block.Invariant.{IsBlock, handle_at}
use zyzxlibcalico_go.Ipam.Block.Assigning.Single.{Assigns, assign_lem}
use zyzxlibcalico_go.Ipam.Client.Assigning.Given.{check_affinity-panic}

-- What assign makes of a well-formed block: an error, or a block in which a free ordinal has the
-- handle.
pub record Takes (address : Ip) (handle : Option String) (b b' : AllocationBlock) : Type 0 where
  pub ordinal : ℕ
  pub inside : ip_to_ordinal b.cidr address ≡ some ordinal
  pub free : handle_at b ordinal ≡ none
  pub valid : IsBlock b'
  pub same : b'.cidr ≡ b.cidr
  pub handles : (j : ℕ) → handle_at b' j ≡ (if ordinal == j then some handle else handle_at b j)

abbrev pub TakesOrFails : Ip → Option String → AllocationBlock → Outcome AllocationBlock → Type 0
TakesOrFails address handle b (Outcome.ok b') = Takes address handle b b'
TakesOrFails address handle b (Outcome.err e) = Unit
TakesOrFails address handle b Outcome.panic = ⊥

module _ (check : Bool) (address : Ip) (handle : Option String) (attrs : Option (Dict String))
    (host : String) (b : AllocationBlock) (v : IsBlock b) where
  abbrev AssignOutcome : Type 0
  AssignOutcome = TakesOrFails address handle b (assign check address handle attrs host b)

  takes_at :
      (o : ℕ)
      → ip_to_ordinal b.cidr address ≡ some o
      → (h : Option (Option String)) → handle_at b o ≡ h
      → Assigns b o handle h (assign check address handle attrs host b)
      → AssignOutcome
  takes_at o inside (some h) at refused = rw refused tt
  takes_at o inside none at (b', returns, valid, same, handles) = rw returns (record {
    ordinal = o;
    inside = inside;
    free = at;
    valid = valid;
    same = same;
    handles = handles;
  })

  takes_inside :
      check_affinity check host b.affinity ≡ ok tt
      → (o : Option ℕ) → ip_to_ordinal b.cidr address ≡ o
      → AssignOutcome
  unfolding assign
  takes_inside passes none outside = rw (passes, outside) tt
  takes_inside passes (some o) inside =
      takes_at o inside (handle_at b o) refl
        (assign_lem check address handle attrs host b o v passes inside)

  pub assign-Takes : AssignOutcome
  unfolding assign
  assign-Takes = go (check_affinity check host b.affinity) refl
    where
      go : (c : Outcome (Unit {0})) → check_affinity check host b.affinity ≡ c → AssignOutcome
      go (Outcome.err error) c = rw c tt
      go Outcome.panic c = absurd (check_affinity-panic check host b.affinity c)
      go (Outcome.ok u) c = takes_inside c (ip_to_ordinal b.cidr address) refl
