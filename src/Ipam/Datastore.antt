-- ===== src/Ipam/Datastore.antt =====
-- lib/backend/etcdv3/etcdv3.go, for the kinds of resources that lib/ipam uses: affinities
-- (lib/backend/model/block_affinity.go), blocks (block.go), handles (ipam_handle.go), the
-- configuration (ipam_config.go) and nodes.
-- The server is a parameter: what it stores under a key, and at which revision. The text of keys and
-- values, and the time to live, which lib/ipam does not use, are left out.
pub mod Moves
pub mod Programs
pub mod Tables
pub mod Memory
pub mod Swaps
mod Tests
use zyzxlibcalico_go.Prelude.{
  ℕ, suc, ◌≤◌, ◌≡◌, ◌⊎◌, String, Bool, true, false, not, Option, none, some, List, [], ◌∷◌, ◌==◌,
  ◌&&◌, ◌||◌, if◌then◌else◌,
}
use zyzxlibcalico_go.Prelude.Integers.{ℤ, is_positive}
use zyzxlibcalico_go.Ipam.Address.{IpNet}
use zyzxlibcalico_go.Ipam.Block.{AllocationBlock}
use zyzxlibcalico_go.Ipam.Handle.{IpamHandle}
use zyzxlibcalico_go.Selector.Ast.{Labels}

pub data Kind : Type 0 where
  block_affinity allocation_block ipam_handle ipam_config node : Kind

-- BlockAffinityKey, of a host and a block's CIDR; BlockKey; IPAMHandleKey; IPAMConfigKey; and
-- ResourceKey, of a node's name.
abbrev pub KeyOf : Kind → Type 0
KeyOf block_affinity = String × IpNet
KeyOf allocation_block = IpNet
KeyOf ipam_handle = String
KeyOf ipam_config = Unit
KeyOf node = String

-- `unset` is the empty text of older data.
pub data BlockAffinityState : Type 0 where
  pending confirmed pending_deletion unset : BlockAffinityState

pub record IpamConfig : Type 0 where
  pub strict_affinity : Bool
  pub auto_allocate_blocks : Bool
  pub max_blocks_per_host : ℤ

-- The two rules of SetIPAMConfig for a configuration.
abbrev pub valid_config : IpamConfig → Bool
valid_config cfg =
    (cfg.strict_affinity || cfg.auto_allocate_blocks)
    && (not (is_positive cfg.max_blocks_per_host) || cfg.strict_affinity)

-- Of a node, only the labels are used.
abbrev pub ValueOf : Kind → Type 0
ValueOf block_affinity = BlockAffinityState
ValueOf allocation_block = AllocationBlock
ValueOf ipam_handle = IpamHandle
ValueOf ipam_config = IpamConfig
ValueOf node = Labels

abbrev pub Key : Type 0
Key = (r : Kind) × KeyOf r

-- The server: the value under a key with the revision that wrote it, and its last revision.
pub record Etcd : Type 1 where
  pub State : Type 0
  pub revision : State → ℕ
  pub get : (x : Key) → State → Option (ValueOf x.0 × ℕ)
  pub put : (x : Key) → ValueOf x.0 → State → State
  pub delete : Key → State → State
  pub list : (r : Kind) → State → List (KeyOf r × (ValueOf r × ℕ))

pub record IsLawful (E : Etcd) : Type 0 where
  pub revision-put :
      (x : Key) (v : ValueOf x.0) (s : E.State) → E.revision (E.put x v s) ≡ suc (E.revision s)
  pub revision-delete : (x : Key) (s : E.State) → E.revision s ≤ E.revision (E.delete x s)
  pub get-put :
      (x : Key) (v : ValueOf x.0) (s : E.State)
      → E.get x (E.put x v s) ≡ some (v, suc (E.revision s))
  pub get-put_other :
      (x y : Key) (v : ValueOf x.0) (s : E.State) → (x ≡ y) ⊎ (E.get y (E.put x v s) ≡ E.get y s)
  pub get-delete : (x : Key) (s : E.State) → E.get x (E.delete x s) ≡ none
  pub get-delete_other : (x y : Key) (s : E.State) → (x ≡ y) ⊎ (E.get y (E.delete x s) ≡ E.get y s)

-- `none` for the empty revision. The key is parsed from the key's text, so it always fits the value.
pub record KvPair (r : Kind) : Type 0 where
  pub key : KeyOf r
  pub value : ValueOf r
  pub revision : Option ℕ

pub data StoreError : Type 0 where
  already_exists does_not_exist update_conflict validation datastore_error : StoreError

-- A pair, or an error with the current pair where the code returns it.
pub data Reply (r : Kind) : Type 0 where
  ok : KvPair r → Reply r
  fail : StoreError → Option (KvPair r) → Reply r

pub data ListReply (r : Kind) : Type 0 where
  listed : List (KvPair r) → ListReply r
  list_failed : StoreError → ListReply r

-- What becomes of a request: the client gets the answer, the request is lost, or its answer is.
pub data Fate : Type 0 where
  answered refused unanswered : Fate

-- ModRevision of a key, 0 for a missing one.
abbrev pub mod_revision : {A : Type 0} → Option (A × ℕ) → ℕ
mod_revision none = 0
mod_revision (some (v, n)) = n

module _ (E : Etcd) where
  -- An error of Commit() is an ErrorDatastoreError.
  abbrev pub deliver : {r : Kind} → Fate → Reply r × E.State → E.State → Reply r × E.State
  deliver answered (reply, after) before = (reply, after)
  deliver refused (reply, after) before = (Reply.fail datastore_error none, before)
  deliver unanswered (reply, after) before = (Reply.fail datastore_error none, after)

  -- d, written at the store's next revision.
  abbrev pub written : (r : Kind) → KvPair r → E.State → Reply r × E.State
  written r d s =
      let s' = E.put (r, d.key) d.value s in
      (Reply.ok (record d { revision = some (E.revision s') }), s')

  abbrev pub create_txn :
      (r : Kind) → KvPair r → Option (ValueOf r × ℕ) → E.State → Reply r × E.State
  create_txn r d none s = written r d s
  create_txn r d (some (v, n)) s =
      (Reply.fail already_exists (some (record { key = d.key; value = v; revision = some n })), s)

  unfoldable pub create : (r : Kind) → Fate → KvPair r → E.State → Reply r × E.State
  create r fate d s = deliver fate (create_txn r d (E.get (r, d.key) s) s) s

  -- The Else branch of Update and of Delete.
  abbrev pub conflict : {r : Kind} → KeyOf r → Option (ValueOf r × ℕ) → Reply r
  conflict k none = Reply.fail does_not_exist none
  conflict k (some (v, n)) =
      Reply.fail update_conflict (some (record { key = k; value = v; revision = some n }))

  abbrev pub update_txn :
      (r : Kind) → KvPair r → ℕ → Option (ValueOf r × ℕ) → E.State → Reply r × E.State
  update_txn r d rev current s =
      if mod_revision current == rev then written r d s else (conflict d.key current, s)

  abbrev update_at : (r : Kind) → Option ℕ → Fate → KvPair r → E.State → Reply r × E.State
  update_at r none fate d s = (Reply.fail validation none, s)
  update_at r (some rev) fate d s = deliver fate (update_txn r d rev (E.get (r, d.key) s) s) s

  unfoldable pub update : (r : Kind) → Fate → KvPair r → E.State → Reply r × E.State
  update r fate d s = update_at r d.revision fate d s

  -- The comparison of the revision, which an empty revision leaves out.
  abbrev pub delete_allowed : Option ℕ → ℕ → Bool
  delete_allowed none current = true
  delete_allowed (some rev) current = current == rev

  abbrev pub deleted_reply :
      (r : Kind) → KeyOf r → Option (ValueOf r × ℕ) → E.State → Reply r × E.State
  deleted_reply r k none s = (Reply.fail does_not_exist none, E.delete (r, k) s)
  deleted_reply r k (some (v, n)) s =
      (Reply.ok (record { key = k; value = v; revision = some n }), E.delete (r, k) s)

  abbrev pub delete_txn :
      (r : Kind) → KeyOf r → Option ℕ → Option (ValueOf r × ℕ) → E.State → Reply r × E.State
  delete_txn r k rev current s =
      if delete_allowed rev (mod_revision current)
      then deleted_reply r k current s
      else (conflict k current, s)

  unfoldable pub delete : (r : Kind) → Fate → KeyOf r → Option ℕ → E.State → Reply r × E.State
  delete r fate k rev s = deliver fate (delete_txn r k rev (E.get (r, k) s) s) s

  unfoldable pub delete_kvp : (r : Kind) → Fate → KvPair r → E.State → Reply r × E.State
  delete_kvp r fate kvp s = delete r fate kvp.key kvp.revision s

  abbrev pub found : {r : Kind} → KeyOf r → Option (ValueOf r × ℕ) → Reply r
  found k none = Reply.fail does_not_exist none
  found k (some (v, n)) = Reply.ok (record { key = k; value = v; revision = some n })

  -- Get with an empty revision, as lib/ipam calls it.
  unfoldable pub get : (r : Kind) → Fate → KeyOf r → E.State → Reply r × E.State
  get r fate k s = deliver fate (found k (E.get (r, k) s), s) s

  unfoldable pub apply : (r : Kind) → Fate → KvPair r → E.State → Reply r × E.State
  apply r fate d s = deliver fate (written r d s) s

  abbrev pub listed_pairs :
      (r : Kind) → (KeyOf r → Bool) → List (KeyOf r × (ValueOf r × ℕ)) → List (KvPair r)
  listed_pairs r keep [] = []
  listed_pairs r keep ((k, (v, n)) ∷ entries) =
      let rest = listed_pairs r keep entries in
      if keep k then record { key = k; value = v; revision = some n } ∷ rest else rest

  -- List with an empty revision: the pairs whose keys the options keep.
  unfoldable pub list : (r : Kind) → Fate → (KeyOf r → Bool) → E.State → ListReply r
  list r answered keep s = ListReply.listed (listed_pairs r keep (E.list r s))
  list r refused keep s = ListReply.list_failed datastore_error
  list r unanswered keep s = ListReply.list_failed datastore_error
