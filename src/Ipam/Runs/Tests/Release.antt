-- ===== src/Ipam/Runs/Tests/Release.antt =====
-- The release of the only address of a handle, while the other host asks for its block.
use mathlib.Core.Path.{subst}
use zyzxlibcalico_go.Prelude.{◌≡◌, sym, false}
use zyzxlibcalico_go.Ipam.Block.Queries.{is_reserved}
use zyzxlibcalico_go.Ipam.Block.Release.{sanitize_handle, has_handle}
use zyzxlibcalico_go.Ipam.Datastore.Moves.{Kept, IsStore, Moves-refl}
use zyzxlibcalico_go.Ipam.Datastore.Memory.{Contents, memory, memory-IsLawful}
use zyzxlibcalico_go.Ipam.Datastore.Memory.Nothing.{nothing, nothing-IsStore}
use zyzxlibcalico_go.Ipam.Datastore.Programs.{run}
use zyzxlibcalico_go.Ipam.Datastore.Programs.Logic.{Runs}
use zyzxlibcalico_go.Ipam.Client.AssignIp.{assign_ip}
use zyzxlibcalico_go.Ipam.Client.Release.{release_handle}
use zyzxlibcalico_go.Ipam.Client.Release.Whole.{OnHandleFreed}
use zyzxlibcalico_go.Ipam.Runs.{Courteous, run-assign_ip, run-release_handle}
use zyzxlibcalico_go.Ipam.Runs.Tests.{subnet, quiet, surroundings, third, shared, rival-Moves}

-- All addresses but the reserved ones and those of the handle.
abbrev others_kept : Kept
others_kept = record {
  Keeps = λ c o h. (is_reserved h ≡ false) × (has_handle (sanitize_handle "h1") h ≡ false);
  plain = λ c o h k. k.0;
}

-- The third address of the block is assigned.
abbrev assigned : Contents
assigned = (run memory quiet 0 (assign_ip surroundings third) nothing).1

assigned-IsStore : IsStore memory assigned
assigned-IsStore =
    let r =
      run-assign_ip memory others_kept memory-IsLawful quiet
        (λ t s st. Moves-refl memory others_kept s st) 0 nothing nothing-IsStore surroundings third
        (λ pool found. tt) in
    subst (λ out. IsStore memory out.1) (sym r.returns) r.moved.store

shared-Courteous : Courteous memory others_kept shared
shared-Courteous t s st = rival-Moves others_kept s st

run-release_handle_example :
    Runs memory others_kept
      (OnHandleFreed memory others_kept surroundings
        (λ text. subnet)
        (sanitize_handle "h1")
        assigned)
      shared
      0
      (release_handle surroundings (λ text. subnet) "h1")
      assigned
run-release_handle_example =
    run-release_handle memory others_kept memory-IsLawful shared shared-Courteous 0 assigned
      assigned-IsStore surroundings (λ text. subnet) "h1" (λ c o h k. k.1)
