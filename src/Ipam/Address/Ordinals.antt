-- ===== src/Ipam/Address/Ordinals.antt =====
-- Which addresses are in a block, and at which ordinal.
use zyzxlibcalico_go.Prelude.{
  ℕ, ◌+◌, ◌-◌, ◌≤◌, ◌<◌, ◌%◌, ◌^◌, ◌≡◌, refl, none, some, ◌&&◌, ltb, leb, if◌then◌else◌, ◌∙◌, arith,
}
use zyzxlibcalico_go.Ipam.Address.{
  Ip, v4, v6, IpNet, ip_to_big_int, big_int_to_ip, num_addresses, sub_int64, ip_to_ordinal,
  ordinal_to_ip,
}

abbrev pub block_at : Ip → ℕ → ℕ → IpNet
block_at ip ones size = record { ip = ip; ones = ones; size = size }

small : (n : ℕ) → n < 2 ^ 63 → n % 2 ^ 64 ≡ n
small n h = omega arith

sub_int64_lem :
    (a b : ℕ) → a < 2 ^ 63 → b < 2 ^ 63 → sub_int64 a b ≡ (if leb b a then some (a - b) else none)
unfolding sub_int64
sub_int64_lem a b ha hb = ground (arith, small (a - b), small (b - a))

-- IPToOrdinal finds an IPv4 address in a block exactly if it is less far behind the block's first
-- address than the block is large, and its ordinal is how far behind it is. It does not look at the
-- version of the address: an IPv6 address of the same number gets the same answer, in a block of
-- either version.
pub ip_to_ordinal_v4 :
    (n m ones size : ℕ)
    → n < 2 ^ 32
    → m < 2 ^ 32
    → (ip_to_ordinal (block_at (v4 n) ones size) (v4 m) ≡ (
        if leb n m && ltb (m - n) (num_addresses (block_at (v4 n) ones size))
        then some (m - n)
        else none))
      × ((block : IpNet) → ip_to_ordinal block (v6 m) ≡ ip_to_ordinal block (v4 m))
unfolding ip_to_ordinal ip_to_big_int
ip_to_ordinal_v4 n m ones size hn hm =
    (ground (arith, sub_int64_lem m n (omega arith) (omega arith)), λ block. refl)

-- The address at an ordinal of an IPv4 block has that ordinal, for a block that begins at
-- 1.0.0.0 or later and ends below 2 ^ 32.
pub ip_to_ordinal-ordinal_to_ip :
    (n ones size o : ℕ)
    → 2 ^ 24 ≤ n
    → o < num_addresses (block_at (v4 n) ones size)
    → n + o < 2 ^ 32
    → ip_to_ordinal (block_at (v4 n) ones size) (ordinal_to_ip (block_at (v4 n) ones size) o)
      ≡ some o
unfolding ordinal_to_ip big_int_to_ip ip_to_big_int
ip_to_ordinal-ordinal_to_ip n ones size o low inside high =
    let at : big_int_to_ip (n + o) ≡ v4 (n + o) = ground arith in
    rw at ((ip_to_ordinal_v4 n (n + o) ones size (omega arith) high).0 ∙ ground arith)

-- An IPv6 address that is 2 ^ 64 addresses behind an address of the block, one with an ordinal below
-- 2 ^ 63, is taken for that address.
pub ip_to_ordinal_wraps :
    (n ones size o : ℕ)
    → o < num_addresses (block_at (v6 n) ones size)
    → o < 2 ^ 63
    → ip_to_ordinal (block_at (v6 n) ones size) (v6 (n + o + 2 ^ 64)) ≡ some o
unfolding ip_to_ordinal ip_to_big_int sub_int64
ip_to_ordinal_wraps n ones size o inside low =
    let cut : (n + o + 2 ^ 64 - n) % 2 ^ 64 ≡ o = omega arith in ground (arith, cut)
