-- ===== src/Ipam/Client/Assigning.antt =====
-- assignFromExistingBlock of lib/ipam/ipam.go.
pub mod Given
use zyzxlibcalico_go.Prelude.{
  ℕ, String, Bool, true, false, Option, none, some, List, [], ◌∷◌, if◌then◌else◌,
}
use zyzxlibcalico_go.Prelude.Dict.{Dict}
use zyzxlibcalico_go.Ipam.Address.{IpNet}
use zyzxlibcalico_go.Ipam.Block.{AllocationBlock, Outcome, auto_assign}
use zyzxlibcalico_go.Ipam.Datastore.{allocation_block, KvPair, Reply}
use zyzxlibcalico_go.Ipam.Datastore.Programs.{
  Program, returning, panicking, asking, ◌>>=◌, update_request,
}
use zyzxlibcalico_go.Ipam.ReaderWriter.{store_error, block_error, Attempt, done, failed}
use zyzxlibcalico_go.Ipam.Client.Handles.{increment_handle, decrement_handle}

-- An error of incrementHandle is dropped.
abbrev pub increment_if :
    (IpNet → String) → Option String → IpNet → ℕ → Program (Attempt (Unit {0}))
increment_if name none cidr num = returning (done tt)
increment_if name (some id) cidr num = increment_handle name id cidr num

abbrev pub decrement_if :
    (IpNet → String) → Option String → IpNet → ℕ → Program (Attempt (Unit {0}))
decrement_if name none cidr num = returning (done tt)
decrement_if name (some id) cidr num = decrement_handle name id cidr num none

-- The handle is put back if the block was not written.
abbrev pub written_block :
    (IpNet → String)
    → Option String
    → IpNet
    → ℕ
    → List IpNet
    → Reply allocation_block
    → Program (Attempt (List IpNet))
written_block name handle cidr num ips (Reply.ok kvp) = returning (done ips)
written_block name handle cidr num ips (Reply.fail e current) =
    decrement_if name handle cidr num >>= λ r. returning (failed (store_error e))

abbrev pub write_assigned :
    (IpNet → String)
    → Option String
    → ℕ
    → KvPair allocation_block
    → Outcome (List IpNet × AllocationBlock)
    → Program (Attempt (List IpNet))
write_assigned name handle num obj (Outcome.err e) = returning (failed (block_error e))
write_assigned name handle num obj Outcome.panic = panicking
write_assigned name handle num obj (Outcome.ok ([], b)) = returning (done [])
write_assigned name handle num obj (Outcome.ok (ip ∷ ips, b)) =
    increment_if name handle obj.key num >>= λ r.
    asking allocation_block (update_request (record obj { value = b }))
      (written_block name handle obj.key num (ip ∷ ips))

unfoldable pub assign_from_existing_block :
    (IpNet → String)
    → KvPair allocation_block
    → ℕ
    → Option String
    → Option (Dict String)
    → String
    → Bool
    → Program (Attempt (List IpNet))
assign_from_existing_block name obj num handle attrs host check =
    write_assigned name handle num obj (auto_assign num handle host attrs check obj.value)
