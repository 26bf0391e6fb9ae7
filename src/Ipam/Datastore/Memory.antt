-- ===== src/Ipam/Datastore/Memory.antt =====
-- A server that keeps its entries in lists: it meets the laws.
pub mod Nothing
use text.Mathlib.Text.{◌==◌ as str_eq}
use text.Mathlib.TextEquality.{eq_iff}
use zyzxlibcalico_go.Prelude.{
  ℕ, suc, ◌≤◌, ◌≡◌, ◌↔◌, ◌⊎◌, inl, inr, refl, ap, String, Bool, true, false, ◌&&◌, Option, none,
  some, List, [], ◌∷◌, ◌==◌, ==_iff, if◌then◌else◌, arith, Bool-cases,
}
use zyzxlibcalico_go.Ipam.Address.{Ip, v4, v6, IpNet}
use zyzxlibcalico_go.Ipam.Block.{AllocationBlock}
use zyzxlibcalico_go.Ipam.Handle.{IpamHandle}
use zyzxlibcalico_go.Selector.Ast.{Labels}
use zyzxlibcalico_go.Ipam.Datastore.{
  Kind, block_affinity, allocation_block, ipam_handle, ipam_config, IpamConfig, node, KeyOf,
  ValueOf, BlockAffinityState, Key, Etcd, IsLawful,
}
use zyzxlibcalico_go.Ipam.Datastore.Tables.{
  find-save, find-remove, Table, find, save, remove, ip_same, net_same, pair_same, ip_same_iff,
  net_same_iff, pair_same_iff, unit_same, unit_same_iff, found_other, left_other,
}

pub record Contents : Type 0 where
  pub last : ℕ
  pub affinities : Table (String × IpNet) BlockAffinityState
  pub blocks : Table IpNet AllocationBlock
  pub handles : Table String IpamHandle
  pub configs : Table (Unit {0}) IpamConfig
  pub nodes : Table String Labels

abbrev pub find_in : (x : Key) → Contents → Option (ValueOf x.0 × ℕ)
find_in (block_affinity, k) c = find pair_same k c.affinities
find_in (allocation_block, k) c = find net_same k c.blocks
find_in (ipam_handle, k) c = find str_eq k c.handles
find_in (ipam_config, k) c = find unit_same k c.configs
find_in (node, k) c = find str_eq k c.nodes

abbrev pub put_in : (x : Key) → ValueOf x.0 → Contents → Contents
put_in (block_affinity, k) v c = record c {
  last = suc c.last;
  affinities = save pair_same k (v, suc c.last) c.affinities;
}
put_in (allocation_block, k) v c = record c {
  last = suc c.last;
  blocks = save net_same k (v, suc c.last) c.blocks;
}
put_in (ipam_handle, k) v c = record c {
  last = suc c.last;
  handles = save str_eq k (v, suc c.last) c.handles;
}
put_in (ipam_config, k) v c = record c {
  last = suc c.last;
  configs = save unit_same k (v, suc c.last) c.configs;
}
put_in (node, k) v c = record c { last = suc c.last; nodes = save str_eq k (v, suc c.last) c.nodes }

abbrev pub delete_in : Key → Contents → Contents
delete_in (block_affinity, k) c = record c {
  last = suc c.last;
  affinities = remove pair_same k c.affinities;
}
delete_in (allocation_block, k) c = record c {
  last = suc c.last;
  blocks = remove net_same k c.blocks;
}
delete_in (ipam_handle, k) c = record c { last = suc c.last; handles = remove str_eq k c.handles }
delete_in (ipam_config, k) c = record c {
  last = suc c.last;
  configs = remove unit_same k c.configs;
}
delete_in (node, k) c = record c { last = suc c.last; nodes = remove str_eq k c.nodes }

abbrev pub list_in : (r : Kind) → Contents → List (KeyOf r × (ValueOf r × ℕ))
list_in block_affinity c = c.affinities
list_in allocation_block c = c.blocks
list_in ipam_handle c = c.handles
list_in ipam_config c = c.configs
list_in node c = c.nodes

abbrev pub memory : Etcd
memory = record {
  State = Contents;
  revision = λ c. c.last;
  get = find_in;
  put = put_in;
  delete = delete_in;
  list = list_in;
}

-- One table after a write or a deletion, with the keys of one kind.
abbrev key_of : (r : Kind) → KeyOf r → Key
key_of r k = (r, k)

keyed : (r : Kind) {k i : KeyOf r} {P : Type 0} → (k ≡ i) ⊎ P → (key_of r k ≡ key_of r i) ⊎ P
keyed r (inl e) = inl (ap (key_of r) e)
keyed r (inr p) = inr p

put_other_affinities :
    (k : KeyOf block_affinity) (y : Key) (v : ValueOf block_affinity) (c : Contents)
    → (key_of block_affinity k ≡ y) ⊎ (find_in y (put_in (block_affinity, k) v c) ≡ find_in y c)
put_other_affinities k (block_affinity, i) v c =
    keyed block_affinity (found_other pair_same pair_same_iff k i _ c.affinities)
put_other_affinities k (allocation_block, i) v c = inr refl
put_other_affinities k (ipam_handle, i) v c = inr refl
put_other_affinities k (ipam_config, i) v c = inr refl
put_other_affinities k (node, i) v c = inr refl

delete_other_affinities :
    (k : KeyOf block_affinity) (y : Key) (c : Contents)
    → (key_of block_affinity k ≡ y) ⊎ (find_in y (delete_in (block_affinity, k) c) ≡ find_in y c)
delete_other_affinities k (block_affinity, i) c =
    keyed block_affinity (left_other pair_same pair_same_iff k i c.affinities)
delete_other_affinities k (allocation_block, i) c = inr refl
delete_other_affinities k (ipam_handle, i) c = inr refl
delete_other_affinities k (ipam_config, i) c = inr refl
delete_other_affinities k (node, i) c = inr refl

put_other_blocks :
    (k : KeyOf allocation_block) (y : Key) (v : ValueOf allocation_block) (c : Contents)
    → (key_of allocation_block k ≡ y) ⊎ (find_in y (put_in (allocation_block, k) v c) ≡ find_in y c)
put_other_blocks k (block_affinity, i) v c = inr refl
put_other_blocks k (allocation_block, i) v c =
    keyed allocation_block (found_other net_same net_same_iff k i _ c.blocks)
put_other_blocks k (ipam_handle, i) v c = inr refl
put_other_blocks k (ipam_config, i) v c = inr refl
put_other_blocks k (node, i) v c = inr refl

delete_other_blocks :
    (k : KeyOf allocation_block) (y : Key) (c : Contents)
    → (key_of allocation_block k ≡ y)
      ⊎ (find_in y (delete_in (allocation_block, k) c) ≡ find_in y c)
delete_other_blocks k (block_affinity, i) c = inr refl
delete_other_blocks k (allocation_block, i) c =
    keyed allocation_block (left_other net_same net_same_iff k i c.blocks)
delete_other_blocks k (ipam_handle, i) c = inr refl
delete_other_blocks k (ipam_config, i) c = inr refl
delete_other_blocks k (node, i) c = inr refl

put_other_handles :
    (k : KeyOf ipam_handle) (y : Key) (v : ValueOf ipam_handle) (c : Contents)
    → (key_of ipam_handle k ≡ y) ⊎ (find_in y (put_in (ipam_handle, k) v c) ≡ find_in y c)
put_other_handles k (block_affinity, i) v c = inr refl
put_other_handles k (allocation_block, i) v c = inr refl
put_other_handles k (ipam_handle, i) v c =
    keyed ipam_handle (found_other str_eq eq_iff k i _ c.handles)
put_other_handles k (ipam_config, i) v c = inr refl
put_other_handles k (node, i) v c = inr refl

delete_other_handles :
    (k : KeyOf ipam_handle) (y : Key) (c : Contents)
    → (key_of ipam_handle k ≡ y) ⊎ (find_in y (delete_in (ipam_handle, k) c) ≡ find_in y c)
delete_other_handles k (block_affinity, i) c = inr refl
delete_other_handles k (allocation_block, i) c = inr refl
delete_other_handles k (ipam_handle, i) c =
    keyed ipam_handle (left_other str_eq eq_iff k i c.handles)
delete_other_handles k (ipam_config, i) c = inr refl
delete_other_handles k (node, i) c = inr refl

put_other_configs :
    (k : KeyOf ipam_config) (y : Key) (v : ValueOf ipam_config) (c : Contents)
    → (key_of ipam_config k ≡ y) ⊎ (find_in y (put_in (ipam_config, k) v c) ≡ find_in y c)
put_other_configs k (block_affinity, i) v c = inr refl
put_other_configs k (allocation_block, i) v c = inr refl
put_other_configs k (ipam_handle, i) v c = inr refl
put_other_configs k (ipam_config, i) v c =
    keyed ipam_config (found_other unit_same unit_same_iff k i _ c.configs)
put_other_configs k (node, i) v c = inr refl

delete_other_configs :
    (k : KeyOf ipam_config) (y : Key) (c : Contents)
    → (key_of ipam_config k ≡ y) ⊎ (find_in y (delete_in (ipam_config, k) c) ≡ find_in y c)
delete_other_configs k (block_affinity, i) c = inr refl
delete_other_configs k (allocation_block, i) c = inr refl
delete_other_configs k (ipam_handle, i) c = inr refl
delete_other_configs k (ipam_config, i) c =
    keyed ipam_config (left_other unit_same unit_same_iff k i c.configs)
delete_other_configs k (node, i) c = inr refl

put_other_nodes :
    (k : KeyOf node) (y : Key) (v : ValueOf node) (c : Contents)
    → (key_of node k ≡ y) ⊎ (find_in y (put_in (node, k) v c) ≡ find_in y c)
put_other_nodes k (block_affinity, i) v c = inr refl
put_other_nodes k (allocation_block, i) v c = inr refl
put_other_nodes k (ipam_handle, i) v c = inr refl
put_other_nodes k (ipam_config, i) v c = inr refl
put_other_nodes k (node, i) v c = keyed node (found_other str_eq eq_iff k i _ c.nodes)

delete_other_nodes :
    (k : KeyOf node) (y : Key) (c : Contents)
    → (key_of node k ≡ y) ⊎ (find_in y (delete_in (node, k) c) ≡ find_in y c)
delete_other_nodes k (block_affinity, i) c = inr refl
delete_other_nodes k (allocation_block, i) c = inr refl
delete_other_nodes k (ipam_handle, i) c = inr refl
delete_other_nodes k (ipam_config, i) c = inr refl
delete_other_nodes k (node, i) c = keyed node (left_other str_eq eq_iff k i c.nodes)

put_other :
    (x y : Key) (v : ValueOf x.0) (c : Contents)
    → (x ≡ y) ⊎ (find_in y (put_in x v c) ≡ find_in y c)
put_other (block_affinity, k) = put_other_affinities k
put_other (allocation_block, k) = put_other_blocks k
put_other (ipam_handle, k) = put_other_handles k
put_other (ipam_config, k) = put_other_configs k
put_other (node, k) = put_other_nodes k

delete_other : (x y : Key) (c : Contents) → (x ≡ y) ⊎ (find_in y (delete_in x c) ≡ find_in y c)
delete_other (block_affinity, k) = delete_other_affinities k
delete_other (allocation_block, k) = delete_other_blocks k
delete_other (ipam_handle, k) = delete_other_handles k
delete_other (ipam_config, k) = delete_other_configs k
delete_other (node, k) = delete_other_nodes k

put_last : (x : Key) (v : ValueOf x.0) (c : Contents) → (put_in x v c).last ≡ suc c.last
put_last (block_affinity, k) v c = refl
put_last (allocation_block, k) v c = refl
put_last (ipam_handle, k) v c = refl
put_last (ipam_config, k) v c = refl
put_last (node, k) v c = refl

delete_last : (x : Key) (c : Contents) → c.last ≤ (delete_in x c).last
delete_last (block_affinity, k) c = omega arith
delete_last (allocation_block, k) c = omega arith
delete_last (ipam_handle, k) c = omega arith
delete_last (ipam_config, k) c = omega arith
delete_last (node, k) c = omega arith

put_found :
    (x : Key) (v : ValueOf x.0) (c : Contents) → find_in x (put_in x v c) ≡ some (v, suc c.last)
put_found (block_affinity, k) v c = find-save pair_same pair_same_iff k _ c.affinities
put_found (allocation_block, k) v c = find-save net_same net_same_iff k _ c.blocks
put_found (ipam_handle, k) v c = find-save str_eq eq_iff k _ c.handles
put_found (ipam_config, k) v c = find-save unit_same unit_same_iff k _ c.configs
put_found (node, k) v c = find-save str_eq eq_iff k _ c.nodes

delete_found : (x : Key) (c : Contents) → find_in x (delete_in x c) ≡ none
delete_found (block_affinity, k) c = find-remove pair_same pair_same_iff k c.affinities
delete_found (allocation_block, k) c = find-remove net_same net_same_iff k c.blocks
delete_found (ipam_handle, k) c = find-remove str_eq eq_iff k c.handles
delete_found (ipam_config, k) c = find-remove unit_same unit_same_iff k c.configs
delete_found (node, k) c = find-remove str_eq eq_iff k c.nodes

pub memory-IsLawful : IsLawful memory
memory-IsLawful = record {
  revision-put = put_last;
  revision-delete = delete_last;
  get-put = put_found;
  get-put_other = put_other;
  get-delete = delete_found;
  get-delete_other = delete_other;
}
