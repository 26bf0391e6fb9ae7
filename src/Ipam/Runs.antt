-- ===== src/Ipam/Runs.antt =====
-- The programs of lib/ipam/ipam.go and lib/ipam/ipam_block_reader_writer.go, run against a datastore that
-- other clients use too. A kept address is one of those that no client releases meanwhile; which these are
-- is a parameter of each theorem. `Runs` says of each run that it does not panic, and that each of its
-- requests leaves the kept addresses that are used in the store that it meets, when it is served, used with
-- their handles, also those that other clients took since the program read the store.
mod Tests
use zyzxlibcalico_go.Prelude.{
  ℕ, ◌≤◌, ◌<◌, ◌≡◌, ap, String, Bool, false, true, Option, none, some, List, length,
}
use zyzxlibcalico_go.Prelude.Dict.{Dict}
use zyzxlibcalico_go.Ipam.Address.{IpNet}
use zyzxlibcalico_go.Ipam.Block.{HostReservedAttr}
use zyzxlibcalico_go.Ipam.Block.Fresh.{Fits}
use zyzxlibcalico_go.Ipam.Block.Queries.{is_reserved}
use zyzxlibcalico_go.Ipam.Datastore.{
  block_affinity, allocation_block, IpamConfig, KvPair, Etcd, IsLawful,
}
use zyzxlibcalico_go.Ipam.Datastore.Moves.{Kept, IsStore, Moves, Moves-refl, Known}
use zyzxlibcalico_go.Ipam.Datastore.Programs.{Program, Turn, run}
use zyzxlibcalico_go.Ipam.Datastore.Programs.Logic.{Ensures, Runs, run-Ensures}
use zyzxlibcalico_go.Ipam.ReaderWriter.{
  Attempt, done, get_pending_affinity, claim_affine_block, release_block_affinity,
}
use zyzxlibcalico_go.Ipam.ReaderWriter.Claiming.{
  OnDone, IsAffinity, IsClaimed, get_pending_affinity_lem, claim_affine_block_lem,
}
use zyzxlibcalico_go.Ipam.ReaderWriter.Releasing.{AffinityReleased, release_block_affinity_lem}
use zyzxlibcalico_go.Ipam.ReaderWriter.Untouched.{OverwritesNone, claim_affine_block-OverwritesNone}
use zyzxlibcalico_go.Ipam.ReaderWriter.Searching.Unclaimed.{PoolsFit}
use zyzxlibcalico_go.Ipam.Client.Assigning.{assign_from_existing_block}
use zyzxlibcalico_go.Ipam.Client.Assigning.Given.{AllGiven, assign_from_existing_block_lem}
use zyzxlibcalico_go.Ipam.Client.Config.{set_ipam_config}
use zyzxlibcalico_go.Ipam.Client.Config.Valid.{
  Accepted, WasStrict, StoresValid, set_ipam_config_lem,
}
use zyzxlibcalico_go.Ipam.Client.Blocks.{Request, get_block_from_affinity, find_or_claim_block}
use zyzxlibcalico_go.Ipam.Client.Blocks.Gotten.{get_block_from_affinity_lem}
use zyzxlibcalico_go.Ipam.Client.Blocks.Claimed.{AllFit, IsFound, find_or_claim_block_lem}
use zyzxlibcalico_go.Ipam.Pools.{IpPool, get_block_cidr_for_address}
use zyzxlibcalico_go.Ipam.ReaderWriter.Searching.{get_pool_for_ip}
use zyzxlibcalico_go.Ipam.Client.AssignIp.{AssignIpArgs, Surroundings, assign_ip}
use zyzxlibcalico_go.Ipam.Client.AssignIp.Given.{AssignsIp, assign_ip_lem}
use zyzxlibcalico_go.Ipam.Block.Release.{sanitize_handle, has_handle}
use zyzxlibcalico_go.Ipam.Client.Release.{release_handle}
use zyzxlibcalico_go.Ipam.Client.Release.Whole.{OnHandleFreed, release_handle_lem}
use zyzxlibcalico_go.Ipam.Client.AutoAssign.{Assigned, Wanted, auto_assign_from}
use zyzxlibcalico_go.Ipam.Client.AutoAssign.Loops.{auto_assign_from_lem}

-- What the others do between the requests keeps what every client keeps.
abbrev pub Courteous : (E : Etcd) (K : Kept) → (ℕ → Turn E) → Type 0
Courteous E K turns = (t : ℕ) (s : E.State) → IsStore E s → Moves E K s ((turns t).others s)

module _ (E : Etcd) (K : Kept) (lawful : IsLawful E) (turns : ℕ → Turn E)
    (courteous : Courteous E K turns) (t : ℕ) (s : E.State) (st : IsStore E s) where
  -- getPendingAffinity does not panic, keeps what clients keep, and returns an error or the affinity of
  -- the host to the block, pending or confirmed, as it stood in the store, whatever other clients do
  -- that keep the same.
  pub run-get_pending_affinity :
      (host : String) (subnet : IpNet)
      → Runs E K
          (OnDone E K (IsAffinity E K host subnet))
          turns
          t
          (get_pending_affinity host subnet)
          s
  run-get_pending_affinity host subnet =
      run-Ensures E K _ turns courteous t _ s st
        (get_pending_affinity_lem E K lawful host subnet s st)

  -- claimAffineBlock, for an affinity that it was given as it stood in the store, and reserved
  -- addresses that fit into the block, returns an error or the block of the affinity's CIDR with the
  -- affinity of its host. None of its requests, whatever the replies, writes over or deletes a block
  -- that is in the store.
  pub run-claim_affine_block :
      (aff : KvPair block_affinity) (rsvd : Option HostReservedAttr)
      → Fits aff.key.1 rsvd
      → Known E K s aff
      → Runs E K
          (OnDone E K (IsClaimed E K aff.key.0 aff.key.1))
          turns
          t
          (claim_affine_block aff rsvd)
          s
        × OverwritesNone E (claim_affine_block aff rsvd)
  run-claim_affine_block aff rsvd fits k = (
    run-Ensures E K _ turns courteous t _ s st
        (claim_affine_block_lem E K lawful aff rsvd s fits st k),
    claim_affine_block-OverwritesNone E lawful aff rsvd,
  )

  -- releaseBlockAffinity ends whatever other clients do, with an error that has its cause (no host was
  -- named, another host has the block, it must be empty and is not, or the datastore failed), or it is
  -- done: then the affinity is gone, and at one moment the block was missing, or no other host had it
  -- and it was let go: deleted if it was empty, and else, which happens only if it need not be empty,
  -- written without its affinity. Each of its requests keeps the kept addresses that are used in the
  -- store that it meets.
  pub run-release_block_affinity :
      (host : String) (cidr : IpNet) (require_empty : Bool)
      → Runs E K
          (AffinityReleased E K host cidr require_empty s)
          turns
          t
          (release_block_affinity host cidr require_empty)
          s
  run-release_block_affinity host cidr require_empty =
      run-Ensures E K _ turns courteous t _ s st
        (release_block_affinity_lem E K lawful host cidr require_empty s st)

  -- assignFromExistingBlock, on a block as it stood in the store, returns an error or at most as many
  -- addresses as asked for. Each has the handle in the store, and was not used as a kept
  -- address when the function started. Each of its requests keeps the kept addresses that are used in
  -- the store that it meets.
  pub run-assign_from_existing_block :
      (name : IpNet → String) (obj : KvPair allocation_block) (num : ℕ) (handle : Option String)
      (attrs : Option (Dict String)) (host : String) (check : Bool)
      → Known E K s obj
      → 0 < num
      → Runs E K
          (OnDone E K (λ s' ips. AllGiven E K s s' handle ips × (length ips ≤ num)))
          turns
          t
          (assign_from_existing_block name obj num handle attrs host check)
          s
  run-assign_from_existing_block name obj num handle attrs host check k pos =
      run-Ensures E K _ turns courteous t _ s st (
        assign_from_existing_block_lem E K lawful name s obj num handle attrs host check s
          (Moves-refl E K s st) k pos)

  -- getBlockFromAffinity, for an affinity as it stood in the store and reserved addresses that fit into
  -- the block, returns an error or the block of the affinity's CIDR, with the affinity of its host.
  pub run-get_block_from_affinity :
      (windows : Bool) (rsvd : Option HostReservedAttr) (aff : KvPair block_affinity)
      → Fits aff.key.1 rsvd
      → Known E K s aff
      → Runs E K
          (OnDone E K (IsClaimed E K aff.key.0 aff.key.1))
          turns
          t
          (get_block_from_affinity windows rsvd aff)
          s
  run-get_block_from_affinity windows rsvd aff fits k =
      run-Ensures E K _ turns courteous t _ s st
        (get_block_from_affinity_lem E K lawful windows rsvd aff s fits st k)

  -- SetIPAMConfig ends whatever other clients do. It is done only with a configuration that is valid, and
  -- that is then the one of the store (the default one counts if none is stored), and on Windows only if
  -- affinity was strict in the one of the store at one moment of the run. An error has its cause:
  -- the configuration is not valid; on Windows, affinity is not strict in the one of the store; or the
  -- datastore failed. The configuration that is stored when it ends is valid, if there is one.
  pub run-set_ipam_config :
      (windows : Bool) (cfg : IpamConfig)
      → Runs E K
          (λ s' r.
            Accepted E windows cfg s' r
            × OnDone E K (λ s' u. WasStrict E K windows s s') s' r
            × StoresValid E s')
          turns
          t
          (set_ipam_config windows cfg)
          s
  run-set_ipam_config windows cfg =
      run-Ensures E K _ turns courteous t _ s st (set_ipam_config_lem E K lawful windows cfg s st)

  -- findOrClaimBlock ends, if the reserved addresses fit into the blocks, with an error, or with a
  -- block of the host that has the free addresses asked for; then it has used up one of the host's
  -- blocks, or claimed a new one, which was allowed.
  pub run-find_or_claim_block :
      (q : Request) (min_free : ℕ) (allowed : Bool) (remaining : List IpNet)
      → AllFit q.rsvd remaining
      → PoolsFit q.rsvd q.pools
      → Runs E K
          (OnDone E K (IsFound E K q min_free (length remaining) allowed))
          turns
          t
          (find_or_claim_block q min_free allowed remaining)
          s
  run-find_or_claim_block q min_free allowed remaining fits fit =
      run-Ensures E K _ turns courteous t _ s st
        (find_or_claim_block_lem E K lawful q min_free allowed remaining s fits fit st)

  -- autoAssign, once the pools and the host's blocks are known, ends whatever other clients do, if
  -- the reserved addresses fit into the blocks, addresses with the handle are kept and the limit of
  -- blocks is positive. The addresses that it returns, with an error or without, are no more than
  -- asked for, have the handle in the store, and were not used as kept addresses when it started. Each
  -- of its requests keeps the kept addresses that are used in the store that it meets, so that none that
  -- another client took meanwhile is written over.
  pub run-auto_assign_from :
      (q : Request) (w : Wanted) (blocks : List IpNet)
      → ((c : IpNet) (o : ℕ) → K.Keeps c o w.handle)
      → 0 < w.limit
      → AllFit q.rsvd blocks
      → PoolsFit q.rsvd q.pools
      → Runs E K
          (λ s' r. AllGiven E K s s' w.handle r.ips × (length r.ips ≤ w.num))
          turns
          t
          (auto_assign_from q w blocks)
          s
  run-auto_assign_from q w blocks plain pos fits fit =
      run-Ensures E K _ turns courteous t _ s st
        (auto_assign_from_lem E K lawful q w blocks s plain pos fits fit st)

  -- AssignIP, if the reserved addresses fit into the block of the address, ends whatever other
  -- clients do, with an error, or with the address in the block of a pool, where it has the handle in
  -- the store, and was not used as a kept address when AssignIP started. Each of its requests keeps the
  -- kept addresses that are used in the store that it meets.
  pub run-assign_ip :
      (e : Surroundings) (args : AssignIpArgs)
      → ((pool : IpPool)
          → get_pool_for_ip e.get_enabled_pools args.ip none ≡ done (some pool)
          → Fits (get_block_cidr_for_address args.ip pool) args.rsvd)
      → Runs E K (AssignsIp E K e args s) turns t (assign_ip e args) s
  run-assign_ip e args fits =
      run-Ensures E K _ turns courteous t _ s st (assign_ip_lem E K lawful e args s fits st)

  -- ReleaseByHandle, if no address with the handle is kept, ends whatever other clients do, with an
  -- error, or each of the blocks that the handle named, as it stood in the store, had at one moment no
  -- address with the handle, or was not there. Each of its requests keeps the kept addresses that are
  -- used in the store that it meets, with their handles.
  pub run-release_handle :
      (e : Surroundings) (cidr_of : String → IpNet) (handle_id : String)
      → ((c : IpNet) (o : ℕ) (h : Option String)
          → K.Keeps c o h
          → has_handle (sanitize_handle handle_id) h ≡ false)
      → Runs E K
          (OnHandleFreed E K e cidr_of (sanitize_handle handle_id) s)
          turns
          t
          (release_handle e cidr_of handle_id)
          s
  run-release_handle e cidr_of handle_id frees =
      run-Ensures E K _ turns courteous t _ s st
        (release_handle_lem E K lawful e cidr_of handle_id s frees st)
