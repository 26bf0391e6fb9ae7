-- ===== src/Ipam/Datastore/Tests.antt =====
-- Two clients that write the affinity of a host, having read the same revision.
use zyzxlibcalico_go.Prelude.{◌≡◌, refl, String, some, arith}
use zyzxlibcalico_go.Ipam.Address.{v4, IpNet}
use zyzxlibcalico_go.Ipam.Datastore.{
  block_affinity, pending, confirmed, pending_deletion, KvPair, answered, unanswered, update,
  delete_kvp, Reply,
}
use zyzxlibcalico_go.Ipam.Datastore.Moves.{Moves, Moves-refl, put-Moves}
use zyzxlibcalico_go.Ipam.Datastore.Memory.{Contents, memory, memory-IsLawful, put_in}
use zyzxlibcalico_go.Ipam.Datastore.Memory.Nothing.{plain_kept, nothing, nothing-IsStore}
use zyzxlibcalico_go.Ipam.Datastore.Swaps.{Lost, update_once}

abbrev key : String × IpNet
key = ("n1", record { ip = v4 167772160; ones = 30; size = 32 })

abbrev claimed : Contents
claimed = put_in (block_affinity, key) pending nothing

claimed-Moves : Moves memory plain_kept nothing claimed
claimed-Moves =
    put-Moves memory plain_kept memory-IsLawful (block_affinity, key) pending nothing
      nothing-IsStore tt (λ old n at. tt)

abbrev settled : Contents
settled = put_in (block_affinity, key) confirmed claimed

settled-Moves : Moves memory plain_kept claimed settled
settled-Moves =
    put-Moves memory plain_kept memory-IsLawful (block_affinity, key) confirmed claimed
      claimed-Moves.store tt (λ old n at. tt)

abbrev late : KvPair block_affinity
late = record { key = key; value = pending_deletion; revision = some 1 }

confirmed_first :
    update memory block_affinity answered (record late { value = confirmed }) claimed
    ≡ (Reply.ok (record late { value = confirmed; revision = some 2 }), settled)
unfolding update
confirmed_first = refl

update_once_example :
    Lost memory block_affinity (update memory block_affinity unanswered late settled) settled
    × Lost memory block_affinity (delete_kvp memory block_affinity unanswered late settled) settled
update_once_example =
    update_once memory plain_kept block_affinity memory-IsLawful claimed claimed-Moves.store key
      confirmed 1 (record late { value = confirmed; revision = some 2 }) settled settled
      (omega arith) confirmed_first (Moves-refl memory plain_kept settled settled-Moves.store)
      pending_deletion unanswered
