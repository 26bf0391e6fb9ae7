-- ===== src/Ipam/Client/AssignIp.antt =====
-- AssignIP of lib/ipam/ipam.go.
pub mod Taking
pub mod Given
use text.Mathlib.Text.{◌==◌ as str_eq}
use zyzxlibcalico_go.Prelude.{
  ℕ, zero, suc, String, Bool, true, false, ◌||◌, Option, none, some, List, if◌then◌else◌,
}
use zyzxlibcalico_go.Prelude.Dict.{Dict}
use zyzxlibcalico_go.Ipam.Address.{Ip, IpNet}
use zyzxlibcalico_go.Ipam.Block.{AllocationBlock, HostReservedAttr, Outcome, assign}
use zyzxlibcalico_go.Ipam.Pools.{IpPool, get_block_cidr_for_address}
use zyzxlibcalico_go.Ipam.Datastore.{block_affinity, allocation_block, IpamConfig, KvPair, Reply}
use zyzxlibcalico_go.Ipam.Datastore.Programs.{
  Program, returning, panicking, asking, ◌>>=◌, get_request, update_request,
}
use zyzxlibcalico_go.Ipam.ReaderWriter.{
  IpamError, store_error, block_error, block_claim_conflict, max_retries, not_in_pool, Attempt,
  done, failed, is_does_not_exist, is_update_conflict, get_pending_affinity, claim_affine_block,
}
use zyzxlibcalico_go.Ipam.ReaderWriter.Searching.{get_pool_for_ip}
use zyzxlibcalico_go.Ipam.Client.{datastore_retries}
use zyzxlibcalico_go.Ipam.Client.Assigning.{increment_if, decrement_if}
use zyzxlibcalico_go.Ipam.Client.Config.{get_ipam_config}
use zyzxlibcalico_go.Ipam.Client.Blocks.{is_conflict}

-- AssignIPArgs
pub record AssignIpArgs : Type 0 where
  pub ip : Ip
  pub handle : Option String
  pub attrs : Option (Dict String)
  pub hostname : String
  pub rsvd : Option HostReservedAttr

-- What the program runs on: whether on Windows, the text of a CIDR, names.Hostname, and the pools.
pub record Surroundings : Type 0 where
  pub windows : Bool
  pub name : IpNet → String
  pub os_hostname : Attempt String
  pub get_enabled_pools : ℕ → Attempt (List IpPool)

unfoldable pub decide_hostname : Attempt String → String → Attempt String
decide_hostname os_hostname host = if str_eq host "" then os_hostname else done host

module _ (e : Surroundings) (args : AssignIpArgs) where
  module _ (host : String) (cidr : IpNet) where
    -- The block could not be written: after a conflict the handle stays as it is.
    abbrev pub saved :
        (IpamConfig → Program (Attempt (Unit {0})))
        → IpamConfig
        → Reply allocation_block
        → Program (Attempt (Unit {0}))
    saved again cfg (Reply.ok kvp) = returning (done tt)
    saved again cfg (Reply.fail error current) =
        if is_update_conflict error
        then again cfg
        else decrement_if e.name args.handle cidr 1 >>= λ r. returning (failed (store_error error))

    abbrev pub assigned :
        (IpamConfig → Program (Attempt (Unit {0})))
        → IpamConfig
        → KvPair allocation_block
        → Outcome AllocationBlock
        → Program (Attempt (Unit {0}))
    assigned again cfg obj (Outcome.err error) = returning (failed (block_error error))
    assigned again cfg obj Outcome.panic = panicking
    assigned again cfg obj (Outcome.ok b) = increment_if e.name args.handle cidr 1 >>= λ r.
        asking allocation_block (update_request (record obj { value = b })) (saved again cfg)

    abbrev pub assign_in :
        (IpamConfig → Program (Attempt (Unit {0})))
        → IpamConfig
        → KvPair allocation_block
        → Program (Attempt (Unit {0}))
    assign_in again cfg obj =
        assigned again cfg obj
          (assign cfg.strict_affinity args.ip args.handle args.attrs host obj.value)

    -- The error for a block that another host claimed is tested for as *errBlockClaimConflict, but is
    -- returned as errBlockClaimConflict, so that it is never found.
    abbrev pub block_claimed :
        (IpamConfig → Program (Attempt (Unit {0})))
        → IpamConfig
        → Attempt (KvPair allocation_block)
        → Program (Attempt (Unit {0}))
    block_claimed again cfg (done obj) = assign_in again cfg obj
    block_claimed again cfg (failed error) =
        if is_conflict error then again cfg else returning (failed error)

    abbrev pub affinity_pending :
        (IpamConfig → Program (Attempt (Unit {0})))
        → IpamConfig
        → Attempt (KvPair block_affinity)
        → Program (Attempt (Unit {0}))
    affinity_pending again cfg (done pa) =
        claim_affine_block pa args.rsvd >>= block_claimed again cfg
    affinity_pending again cfg (failed error) =
        if is_conflict error then again cfg else returning (failed error)

    -- The configuration is read again before the block is created.
    abbrev pub config_read :
        (IpamConfig → Program (Attempt (Unit {0})))
        → Attempt IpamConfig
        → Program (Attempt (Unit {0}))
    config_read again (failed error) = returning (failed error)
    config_read again (done cfg) = get_pending_affinity host cidr >>= affinity_pending again cfg

    abbrev pub block_read :
        (IpamConfig → Program (Attempt (Unit {0})))
        → IpamConfig
        → Reply allocation_block
        → Program (Attempt (Unit {0}))
    block_read again cfg (Reply.ok obj) = assign_in again cfg obj
    block_read again cfg (Reply.fail error current) =
        if is_does_not_exist error
        then get_ipam_config e.windows >>= config_read again
        else returning (failed (store_error error))

    unfoldable pub assign_ip_tries : ℕ → IpamConfig → Program (Attempt (Unit {0}))
    assign_ip_tries zero cfg = returning (failed max_retries)
    assign_ip_tries (suc n) cfg =
        asking allocation_block (get_request cidr) (block_read (assign_ip_tries n) cfg)

    abbrev pub with_config : Attempt IpamConfig → Program (Attempt (Unit {0}))
    with_config (failed error) = returning (failed error)
    with_config (done cfg) = assign_ip_tries datastore_retries cfg

  abbrev pub in_pool : String → Attempt (Option IpPool) → Program (Attempt (Unit {0}))
  in_pool host (failed error) = returning (failed error)
  in_pool host (done none) = returning (failed not_in_pool)
  in_pool host (done (some pool)) =
      get_ipam_config e.windows >>= with_config host (get_block_cidr_for_address args.ip pool)

  abbrev pub on_host : Attempt String → Program (Attempt (Unit {0}))
  on_host (failed error) = returning (failed error)
  on_host (done host) = in_pool host (get_pool_for_ip e.get_enabled_pools args.ip none)

  unfoldable pub assign_ip : Program (Attempt (Unit {0}))
  assign_ip = on_host (decide_hostname e.os_hostname args.hostname)
