-- ===== src/Ipam/Datastore/Memory/Nothing.antt =====
-- A server of etcd that stores nothing yet, and clients that keep all addresses but the reserved ones.
use zyzxlibcalico_go.Prelude.{ℕ, false, ◌≡◌, [], some}
use zyzxlibcalico_go.Prelude.Options.{absent}
use zyzxlibcalico_go.Ipam.Block.Queries.{is_reserved}
use zyzxlibcalico_go.Ipam.Datastore.{
  block_affinity, allocation_block, ipam_handle, ipam_config, node, ValueOf, Key,
}
use zyzxlibcalico_go.Ipam.Datastore.Moves.{Kept, IsStore}
use zyzxlibcalico_go.Ipam.Datastore.Memory.{Contents, memory, find_in}

abbrev pub nothing : Contents
nothing = record { last = 0; affinities = []; blocks = []; handles = []; configs = []; nodes = [] }

nothing_found :
    {P : Type 0} (x : Key) (v : ValueOf x.0) (n : ℕ) → find_in x nothing ≡ some (v, n) → P
nothing_found (block_affinity, k) v n e = absent e
nothing_found (allocation_block, k) v n e = absent e
nothing_found (ipam_handle, k) v n e = absent e
nothing_found (ipam_config, k) v n e = absent e
nothing_found (node, k) v n e = absent e

pub nothing-IsStore : IsStore memory nothing
nothing-IsStore = record { good = λ x v n e. nothing_found x v n e }

abbrev pub plain_kept : Kept
plain_kept = record { Keeps = λ c o h. is_reserved h ≡ false; plain = λ c o h r. r }
