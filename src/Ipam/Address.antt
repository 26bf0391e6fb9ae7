-- ===== src/Ipam/Address.antt =====
-- lib/net/ip.go, and the addresses of a block: lib/backend/model/block.go.
pub mod Ordinals
use zyzxlibcalico_go.Prelude.{
  ℕ, ◌+◌, ◌-◌, ◌/◌, ◌%◌, ◌^◌, Bool, true, false, ◌&&◌, Option, none, some, ltb, leb, ◌==◌,
  if◌then◌else◌,
}

-- An address for which To4() is not nil is `v4`, with its four bytes as a number; any other is `v6`,
-- with its sixteen bytes. An IPv4-mapped IPv6 address is `v4`.
pub data Ip : Type 0 where
  v4 v6 : ℕ → Ip

unfoldable pub ip_to_big_int : Ip → ℕ
ip_to_big_int (v4 n) = n
ip_to_big_int (v6 n) = n

-- For a number below 2 ^ 128; FillBytes panics above. Four significant bytes are read as IPv4, and so
-- are the sixteen bytes of an IPv4-mapped address.
unfoldable pub big_int_to_ip : ℕ → Ip
big_int_to_ip n =
    if leb (2 ^ 24) n && ltb n (2 ^ 32)
    then v4 n
    else if n / 2 ^ 32 == 0xffff
    then v4 (n % 2 ^ 32)
    else v6 n

unfoldable pub increment_ip : Ip → ℕ → Ip
unfolding ip_to_big_int big_int_to_ip
increment_ip ip increment = big_int_to_ip (ip_to_big_int ip + increment)

-- cnet.IPNet: the address, and what Mask.Size() returns.
pub record IpNet : Type 0 where
  pub ip : Ip
  pub ones : ℕ
  pub size : ℕ

-- 1 << uint(size-ones), as 64 bits. A block of 2 ^ 63 addresses, a negative number in Go, is left out.
unfoldable pub num_addresses : IpNet → ℕ
num_addresses n = 2 ^ (n.size - n.ones) % 2 ^ 64

-- big.Int's Int64 of `a - b`, where it is not negative: the low 64 bits of the magnitude read as an
-- int64, with the sign put back.
unfoldable pub sub_int64 : ℕ → ℕ → Option ℕ
sub_int64 a b =
    if leb b a
    then (let m = (a - b) % 2 ^ 64 in if ltb m (2 ^ 63) then some m else none)
    else (let m = (b - a) % 2 ^ 64 in
        if m == 0 then some 0 else if ltb (2 ^ 63) m then some (2 ^ 64 - m) else none)

-- `none` is the error that the address is not in the block.
unfoldable pub ip_to_ordinal : IpNet → Ip → Option ℕ
ip_to_ordinal block ip = elim (sub_int64 (ip_to_big_int ip) (ip_to_big_int block.ip)) [
  | none ↦ none
  | some ord ↦ if leb (num_addresses block) ord then none else some ord
]

unfoldable pub ordinal_to_ip : IpNet → ℕ → Ip
ordinal_to_ip block ord = big_int_to_ip (ip_to_big_int block.ip + ord)
