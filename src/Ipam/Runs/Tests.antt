-- ===== src/Ipam/Runs/Tests.antt =====
-- Hosts that share a pool of two blocks of four addresses, 10.0.0.0/29.
mod Release
use mathlib.Core.Path.{subst}
use zyzxlibcalico_go.Prelude.{
  ℕ, zero, suc, ◌≤◌, ◌<◌, ◌≡◌, ◌+◌, refl, sym, String, true, false, none, some, [], ◌∷◌, length,
  get_elem?, count, ◌==◌, if◌then◌else◌, arith,
}
use zyzxlibcalico_go.Prelude.Integers.{pos}
use zyzxlibcalico_go.Prelude.Options.{absent}
use zyzxlibcalico_go.Ipam.Address.{v4, IpNet, num_addresses}
use zyzxlibcalico_go.Ipam.Block.{AllocationBlock}
use zyzxlibcalico_go.Ipam.Block.Invariant.{IsBlock, one_if_free}
use zyzxlibcalico_go.Ipam.Block.Queries.{is_reserved, codes_eq, to_lower, lower}
use zyzxlibcalico_go.Ipam.Pools.{IpPool}
use zyzxlibcalico_go.Ipam.Datastore.{
  block_affinity, allocation_block, IpamConfig, pending, KvPair, answered, unanswered,
}
use zyzxlibcalico_go.Ipam.Datastore.Moves.{
  Kept, IsStore, Moves, Moves-refl, Known, Known-read, put-Moves,
}
use zyzxlibcalico_go.Ipam.Datastore.Memory.{Contents, memory, memory-IsLawful, put_in}
use zyzxlibcalico_go.Ipam.Datastore.Memory.Nothing.{plain_kept, nothing, nothing-IsStore}
use zyzxlibcalico_go.Ipam.Datastore.Programs.{Turn, run}
use zyzxlibcalico_go.Ipam.Datastore.Programs.Logic.{Runs}
use zyzxlibcalico_go.Ipam.ReaderWriter.{
  done, failed, no_hostname, get_pending_affinity, claim_affine_block, release_block_affinity,
}
use zyzxlibcalico_go.Ipam.ReaderWriter.Claiming.{OnDone, IsAffinity, IsClaimed}
use zyzxlibcalico_go.Ipam.ReaderWriter.Untouched.{OverwritesNone}
use zyzxlibcalico_go.Ipam.ReaderWriter.Releasing.{AffinityReleased}
use zyzxlibcalico_go.Ipam.Client.Assigning.{assign_from_existing_block}
use zyzxlibcalico_go.Ipam.Client.Assigning.Given.{AllGiven}
use zyzxlibcalico_go.Ipam.Client.Config.{set_ipam_config}
use zyzxlibcalico_go.Ipam.Client.Config.Valid.{Accepted, WasStrict, StoresValid}
use zyzxlibcalico_go.Ipam.Client.Blocks.{Request, get_block_from_affinity, find_or_claim_block}
use zyzxlibcalico_go.Ipam.Client.Blocks.Claimed.{IsFound}
use zyzxlibcalico_go.Ipam.Client.AssignIp.{AssignIpArgs, Surroundings, assign_ip}
use zyzxlibcalico_go.Ipam.Client.AssignIp.Given.{AssignsIp}
use zyzxlibcalico_go.Ipam.Client.AutoAssign.{Wanted, auto_assign_from}
use zyzxlibcalico_go.Ipam.Runs.{
  Courteous, run-get_pending_affinity, run-claim_affine_block, run-release_block_affinity,
  run-assign_from_existing_block, run-get_block_from_affinity, run-find_or_claim_block,
  run-assign_ip, run-set_ipam_config, run-auto_assign_from,
}

abbrev base : ℕ
base = 167772160

abbrev pub subnet : IpNet
subnet = record { ip = v4 base; ones = 30; size = 32 }

abbrev pool : IpPool
pool = record {
  cidr = some (record { ip = v4 base; ones = 29; size = 32 });
  block_size = 30;
  node_selector = [];
}

abbrev name : IpNet → String
name cidr = elim cidr.ip [ v4 n ↦ if n == base then "10.0.0.0/30" else "10.0.0.4/30" | _ ↦ "" ]

abbrev pub quiet : ℕ → Turn memory
quiet t = record { others = λ s. s; fate = answered }

-- Another host asks for the same block before each request, and the second request is not answered.
abbrev pub rival : Contents → Contents
rival s = (run memory quiet 0 (get_pending_affinity "n2" subnet) s).1

abbrev busy : ℕ → Turn memory
busy t = record { others = rival; fate = if t == 1 then unanswered else answered }

pub rival-Moves : (K : Kept) (s : Contents) → IsStore memory s → Moves memory K s (rival s)
rival-Moves K s st =
    let r =
      run-get_pending_affinity memory K memory-IsLawful quiet (λ t s st. Moves-refl memory K s st) 0
        s st "n2" subnet in
    subst (λ out. Moves memory K s out.1) (sym r.returns) r.moved

busy-Courteous : Courteous memory plain_kept busy
busy-Courteous t s st = rival-Moves plain_kept s st

run-get_pending_affinity_example :
    Runs memory plain_kept
      (OnDone memory plain_kept (IsAffinity memory plain_kept "n1" subnet))
      busy
      0
      (get_pending_affinity "n1" subnet)
      nothing
run-get_pending_affinity_example =
    run-get_pending_affinity memory plain_kept memory-IsLawful busy busy-Courteous 0 nothing
      nothing-IsStore "n1" subnet

abbrev strict : IpamConfig
strict = record {
  strict_affinity = true;
  auto_allocate_blocks = false;
  max_blocks_per_host = pos 2;
}

run-set_ipam_config_example :
    Runs memory plain_kept
      (λ s' r.
        Accepted memory false strict s' r
        × OnDone memory plain_kept (λ s' u. WasStrict memory plain_kept false nothing s') s' r
        × StoresValid memory s')
      busy
      0
      (set_ipam_config false strict)
      nothing
run-set_ipam_config_example =
    run-set_ipam_config memory plain_kept memory-IsLawful busy busy-Courteous 0 nothing
      nothing-IsStore false strict

-- The affinity of the host, and its block, of which every address is free.
abbrev affine : Contents
affine = put_in (block_affinity, ("n1", subnet)) pending nothing

affine-IsStore : IsStore memory affine
affine-IsStore =
    (put-Moves memory plain_kept memory-IsLawful (block_affinity, ("n1", subnet)) pending nothing
      nothing-IsStore tt (λ old n at. tt)).store

abbrev affinity : KvPair block_affinity
affinity = record { key = ("n1", subnet); value = pending; revision = some 1 }

affinity-Known : Known memory plain_kept affine affinity
affinity-Known =
    Known-read memory plain_kept affine block_affinity ("n1", subnet) pending 1 affine-IsStore refl

run-claim_affine_block_example :
    Runs memory plain_kept
      (OnDone memory plain_kept (IsClaimed memory plain_kept "n1" subnet))
      busy
      0
      (claim_affine_block affinity none)
      affine
    × OverwritesNone memory (claim_affine_block affinity none)
run-claim_affine_block_example =
    run-claim_affine_block memory plain_kept memory-IsLawful busy busy-Courteous 0 affine
      affine-IsStore affinity none tt affinity-Known

run-get_block_from_affinity_example :
    Runs memory plain_kept
      (OnDone memory plain_kept (IsClaimed memory plain_kept "n1" subnet))
      busy
      0
      (get_block_from_affinity false none affinity)
      affine
run-get_block_from_affinity_example =
    run-get_block_from_affinity memory plain_kept memory-IsLawful busy busy-Courteous 0 affine
      affine-IsStore false none affinity tt affinity-Known

abbrev block : AllocationBlock
block = record {
  cidr = subnet;
  affinity = some "host:n1";
  allocations = none ∷ none ∷ none ∷ none ∷ [];
  unallocated = 0 ∷ 1 ∷ 2 ∷ 3 ∷ [];
  attributes = [];
  deleted = false;
}

block-counted : (o : ℕ) → count o block.unallocated ≡ one_if_free (get_elem? block.allocations o)
block-counted zero = refl
block-counted (suc zero) = refl
block-counted (suc (suc zero)) = refl
block-counted (suc (suc (suc zero))) = refl
block-counted (suc (suc (suc (suc o)))) = ground arith

block-indexed :
    (o i : ℕ) → get_elem? block.allocations o ≡ some (some i) → i < length block.attributes
block-indexed zero i h = cc
block-indexed (suc zero) i h = cc
block-indexed (suc (suc zero)) i h = cc
block-indexed (suc (suc (suc zero))) i h = cc
block-indexed (suc (suc (suc (suc o)))) i h = cc

block-IsBlock : IsBlock block
unfolding num_addresses
block-IsBlock = record { sized = refl; counted = block-counted; indexed = block-indexed }

abbrev claimed : Contents
claimed = put_in (allocation_block, subnet) block affine

claimed-IsStore : IsStore memory claimed
claimed-IsStore =
    (put-Moves memory plain_kept memory-IsLawful (allocation_block, subnet) block affine
      affine-IsStore (block-IsBlock, refl) (λ old n at. absent at)).store

abbrev stored : KvPair allocation_block
stored = record { key = subnet; value = block; revision = some 2 }

stored-Known : Known memory plain_kept claimed stored
stored-Known =
    Known-read memory plain_kept claimed allocation_block subnet block 2 claimed-IsStore refl

run-release_block_affinity_example :
    Runs memory plain_kept
      (AffinityReleased memory plain_kept "n1" subnet true claimed)
      busy
      0
      (release_block_affinity "n1" subnet true)
      claimed
run-release_block_affinity_example =
    run-release_block_affinity memory plain_kept memory-IsLawful busy busy-Courteous 0 claimed
      claimed-IsStore "n1" subnet true

run-assign_from_existing_block_example :
    Runs memory plain_kept
      (OnDone memory plain_kept
        (λ s' ips. AllGiven memory plain_kept claimed s' (some "h1") ips × (length ips ≤ 2)))
      busy
      0
      (assign_from_existing_block name stored 2 (some "h1") none "n1" true)
      claimed
run-assign_from_existing_block_example =
    run-assign_from_existing_block memory plain_kept memory-IsLawful busy busy-Courteous 0 claimed
      claimed-IsStore name stored 2 (some "h1") none "n1" true stored-Known (omega arith)

abbrev request : Request
request = record {
  name = name;
  windows = false;
  host = "n1";
  pools = pool ∷ [];
  rsvd = none;
  initial_index = λ p. 1;
}

run-find_or_claim_block_example :
    Runs memory plain_kept
      (OnDone memory plain_kept (IsFound memory plain_kept request 1 1 true))
      busy
      0
      (find_or_claim_block request 1 true (subnet ∷ []))
      claimed
run-find_or_claim_block_example =
    run-find_or_claim_block memory plain_kept memory-IsLawful busy busy-Courteous 0 claimed
      claimed-IsStore request 1 true (subnet ∷ []) (tt, tt) ((λ ip. tt), tt)

abbrev wanted : Wanted
wanted = record { num = 5; handle = some "h1"; attrs = none; strict_affinity = true; limit = 20 }

plain : is_reserved wanted.handle ≡ false
unfolding codes_eq to_lower lower
plain = refl

run-auto_assign_from_example :
    Runs memory plain_kept
      (λ s' r. AllGiven memory plain_kept claimed s' (some "h1") r.ips × (length r.ips ≤ 5))
      busy
      0
      (auto_assign_from request wanted (subnet ∷ []))
      claimed
run-auto_assign_from_example =
    run-auto_assign_from memory plain_kept memory-IsLawful busy busy-Courteous 0 claimed
      claimed-IsStore request wanted (subnet ∷ []) (λ c o. plain) (omega arith) (tt, tt)
      ((λ ip. tt), tt)

abbrev pub surroundings : Surroundings
surroundings = record {
  windows = false;
  name = name;
  os_hostname = failed no_hostname;
  get_enabled_pools = λ v. done (pool ∷ []);
}

abbrev pub third : AssignIpArgs
third = record {
  ip = v4 (base + 2);
  handle = some "h1";
  attrs = none;
  hostname = "n1";
  rsvd = none;
}

-- The other host, and every request is answered.
abbrev pub shared : ℕ → Turn memory
shared t = record { others = rival; fate = answered }

shared-Courteous : Courteous memory plain_kept shared
shared-Courteous t s st = rival-Moves plain_kept s st

run-assign_ip_example :
    Runs memory plain_kept
      (AssignsIp memory plain_kept surroundings third nothing)
      shared
      0
      (assign_ip surroundings third)
      nothing
run-assign_ip_example =
    run-assign_ip memory plain_kept memory-IsLawful shared shared-Courteous 0 nothing
      nothing-IsStore surroundings third (λ pool found. tt)
