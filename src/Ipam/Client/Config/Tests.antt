-- ===== src/Ipam/Client/Config/Tests.antt =====
-- Limits of blocks of lib/ipam/ipam.go.
use zyzxlibcalico_go.Prelude.{◌≡◌, refl, true}
use zyzxlibcalico_go.Prelude.Integers.{pos, negsuc}
use zyzxlibcalico_go.Ipam.Datastore.{IpamConfig}
use zyzxlibcalico_go.Ipam.Client.Config.{max_num_blocks}
use zyzxlibcalico_go.Ipam.Client.Config.Valid.{LimitOf, max_num_blocks_lem}

abbrev three_blocks : IpamConfig
three_blocks = record {
  strict_affinity = true;
  auto_allocate_blocks = true;
  max_blocks_per_host = pos 3;
}

-- A negative limit of the request switches the limit of the configuration off.
no_limit : max_num_blocks three_blocks (negsuc 0) ≡ negsuc 0
unfolding max_num_blocks
no_limit = refl

max_num_blocks_lem_example : LimitOf (max_num_blocks three_blocks (pos 5)) (pos 3) (pos 5)
max_num_blocks_lem_example = max_num_blocks_lem three_blocks (pos 5)
