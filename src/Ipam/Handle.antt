-- ===== src/Ipam/Handle.antt =====
-- lib/ipam/ipam_handle.go over the IPAMHandle of lib/backend/model/ipam_handle.go: how many addresses
-- of each block a handle has. A block is named by its CIDR's String(), and the numbers of addresses
-- are far below 2 ^ 63.
pub mod Counts
mod Tests
use zyzxlibcalico_go.Prelude.{
  ℕ, zero, suc, ◌+◌, ◌-◌, String, Bool, true, false, Option, none, some, List, [], ◌∷◌, ltb, ◌==◌,
  if◌then◌else◌,
}
use zyzxlibcalico_go.Prelude.Dict.{Dict, lookup, insert, delete}

pub record IpamHandle : Type 0 where
  pub handle_id : String
  pub block : Dict ℕ
  pub deleted : Bool

abbrev pub incremented : Option ℕ → ℕ → ℕ
incremented none num = num
incremented (some val) num = val + num

unfoldable pub increment_block : String → ℕ → IpamHandle → ℕ × IpamHandle
increment_block id num h =
    let new_num = incremented (lookup id h.block) num in
    (new_num, record h { block = insert id new_num h.block })

-- The two errors.
pub data HandleError : Type 0 where
  not_linked too_few : HandleError

pub data Result : Type 0 where
  failed : HandleError → Result
  done : ℕ → IpamHandle → Result

abbrev pub decremented : String → Option ℕ → ℕ → IpamHandle → Result
decremented id none num h = Result.failed HandleError.not_linked
decremented id (some current) num h =
    if ltb current num
    then Result.failed HandleError.too_few
    else if current - num == 0
    then Result.done 0 (record h { block = delete id h.block })
    else Result.done (current - num) (record h { block = insert id (current - num) h.block })

unfoldable pub decrement_block : String → ℕ → IpamHandle → Result
decrement_block id num h = decremented id (lookup id h.block) num h

abbrev pub is_nil : Dict ℕ → Bool
is_nil [] = true
is_nil (x ∷ m) = false

unfoldable pub empty : IpamHandle → Bool
empty h = is_nil h.block
