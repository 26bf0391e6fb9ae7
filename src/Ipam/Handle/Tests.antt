-- ===== src/Ipam/Handle/Tests.antt =====
-- A handle with addresses of two blocks.
use text.Mathlib.Text.{◌==◌ as str_eq}
use zyzxlibcalico_go.Prelude.{◌+◌, ◌≡◌, ◌↔◌, String, true, false, [], ◌∷◌, if◌then◌else◌, arith}
use zyzxlibcalico_go.Prelude.Dict.{lookup}
use zyzxlibcalico_go.Ipam.Handle.{IpamHandle, increment_block, decrement_block, empty}
use zyzxlibcalico_go.Ipam.Handle.Counts.{
  IsHandle, held, Decremented, increment_block_lem, decrement_block_lem, empty_iff,
}

abbrev pod : IpamHandle
pod = record { handle_id = "pod"; block = ("a", 1) ∷ ("b", 3) ∷ []; deleted = false }

pod-IsHandle : IsHandle pod
unfolding lookup
pod-IsHandle = record { positive = λ id n h. ground arith }

increment_block_lem_example :
    IsHandle (increment_block "b" 2 pod).1
    × ((increment_block "b" 2 pod).0 ≡ held pod "b" + 2)
    × ((j : String)
        → held (increment_block "b" 2 pod).1 j
          ≡ (if str_eq "b" j then held pod "b" + 2 else held pod j))
increment_block_lem_example = increment_block_lem "b" 2 pod pod-IsHandle (omega arith)

decrement_block_lem_example : Decremented "a" 1 pod (decrement_block "a" 1 pod)
decrement_block_lem_example = decrement_block_lem "a" 1 pod pod-IsHandle

empty_iff_example : (empty pod ≡ true) ↔ ((id : String) → held pod id ≡ 0)
empty_iff_example = empty_iff pod pod-IsHandle
