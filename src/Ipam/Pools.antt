-- ===== src/Ipam/Pools.antt =====
-- IP pools: SelectsNode of lib/apis/v3/ippool.go, determinePools and getMaxPrefixLen of
-- lib/ipam/ipam.go, and the blocks of a pool in lib/ipam/ipam_block_reader_writer.go.
-- The CIDR of a pool is the one its text parses to, `none` if it does not.
pub mod Walk
mod Tests
use zyzxlibcalico_go.Prelude.{
  ℕ, zero, suc, ◌+◌, ◌-◌, ◌*◌, ◌/◌, ◌^◌, Bool, true, false, not, ◌&&◌, Option, none, some, List, [],
  ◌∷◌, ltb, leb, ◌==◌, if◌then◌else◌,
}
use zyzxlibcalico_go.Selector.Text.{Text}
use zyzxlibcalico_go.Selector.Ast.{Labels, evaluate_labels}
use zyzxlibcalico_go.Selector.Parser.{Parsed, parse}
use zyzxlibcalico_go.Ipam.Address.{Ip, v4, v6, IpNet, ip_to_big_int, increment_ip}
use zyzxlibcalico_go.Ipam.Block.{HostReservedAttr}

pub record IpPool : Type 0 where
  pub cidr : Option IpNet
  pub block_size : ℕ
  pub node_selector : Text

abbrev is_empty_text {ℓ} : {A : Type ℓ} → List A → Bool
is_empty_text [] = true
is_empty_text (x ∷ xs) = false

-- `none` for the error of a selector that does not parse.
abbrev pub selected : Parsed Bool → Option Bool
selected (Parsed.ok b) = some b
selected _ = none

unfoldable pub selects_node : IpPool → Labels → Option Bool
selects_node pool labels =
    if is_empty_text pool.node_selector then some true else elim (parse pool.node_selector) [
      | Parsed.ok sel ↦ some (evaluate_labels sel labels)
      | _ ↦ none
    ]

-- Version()
abbrev pub version : Ip → ℕ
version (v4 n) = 4
version (v6 n) = 6

-- The number of bits of an address of the version.
abbrev pub bits : ℕ → ℕ
bits v = if v == 4 then 32 else 128

-- Contains of net.IPNet, for masks as CIDRMask makes them.
unfoldable pub net_contains : IpNet → Ip → Bool
net_contains net ip =
    (version net.ip == version ip)
    && (ip_to_big_int net.ip / 2 ^ (net.size - net.ones)
        == ip_to_big_int ip / 2 ^ (net.size - net.ones))

-- getBlockCIDRForAddress and largerThanOrEqualToBlock of lib/ipam/ipam_block.go. Mask keeps the
-- version of the address.
abbrev pub with_number : Ip → ℕ → Ip
with_number (v4 m) n = v4 n
with_number (v6 m) n = v6 n

unfoldable pub get_block_cidr_for_address : Ip → IpPool → IpNet
get_block_cidr_for_address addr pool =
    let size = bits (version addr) in
    let span = 2 ^ (size - pool.block_size) in
    record {
      ip = with_number addr (ip_to_big_int addr / span * span);
      ones = pool.block_size;
      size = size;
    }

unfoldable pub larger_than_or_equal_to_block : IpNet → IpPool → Bool
larger_than_or_equal_to_block cidr pool = leb cidr.ones pool.block_size

-- bits.Len: the number of bits of `n`, for a number of at most `fuel` bits.
unfoldable pub bit_len : ℕ → ℕ → ℕ
bit_len zero n = 0
bit_len (suc fuel) n = if n == 0 then 0 else suc (bit_len fuel (n / 2))

-- getMaxPrefixLen; `none` is its error. A sum is below 2 ^ 64.
unfoldable pub get_max_prefix_len : ℕ → Option HostReservedAttr → Option ℕ
get_max_prefix_len v none = some (bits v)
get_max_prefix_len v (some attrs) =
    let reserved = attrs.start_of_block + attrs.end_of_block in
    if reserved == 0
    then none
    else (let len = bits v - bit_len 64 reserved in if len == 0 then none else some len)

-- The generator of randomBlockGenerator: the blocks of the pool, from an index that is drawn.
pub record Generator : Type 0 where
  pub base_ip : Ip
  pub block_size : ℕ
  pub mask_ones : ℕ
  pub mask_size : ℕ
  pub num_blocks : ℕ
  pub i : ℕ
  pub num_returned : ℕ

unfoldable pub random_block_generator : IpPool → IpNet → ℕ → Generator
random_block_generator pool cidr initial_index =
    let size = bits (version cidr.ip) in
    record {
      base_ip = cidr.ip;
      block_size = 2 ^ (size - pool.block_size);
      mask_ones = pool.block_size;
      mask_size = size;
      num_blocks = 2 ^ (cidr.size - cidr.ones) / 2 ^ (size - pool.block_size);
      i = initial_index;
      num_returned = 0;
    }

-- One call of the generator.
unfoldable pub next : Generator → Option IpNet × Generator
next g =
    let ip = increment_ip g.base_ip (g.i * g.block_size) in
    let i = if leb (g.num_blocks - g.i) 1 then 0 else g.i + 1 in
    if leb g.num_blocks g.num_returned then (none, record g { i = i }) else (
      some (record { ip = ip; ones = g.mask_ones; size = g.mask_size }),
      record g { i = i; num_returned = g.num_returned + 1 },
    )
