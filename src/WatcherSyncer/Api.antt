-- ===== src/WatcherSyncer/Api.antt =====
-- The data that the caches and the syncer exchange: lib/backend/api/api.go, and the `KVPair` of
-- lib/backend/model. A key is read only through its String() form, and stands for it here.
use zyzxlibcalico_go.Prelude.{ℕ, String, Option, List}

-- A `none` value indicates a delete.
pub record KvPair (V : Type 0) : Type 0 where
  pub key : String
  pub value : Option V
  pub revision : String

pub data UpdateType : Type 0 where
  kv_new kv_updated kv_deleted : UpdateType

pub record Update (V : Type 0) : Type 0 where
  pub update_type : UpdateType
  pub kv_pair : KvPair V

pub data SyncStatus : Type 0 where
  wait_for_datastore resync_in_progress in_sync : SyncStatus

-- An error is a parsing error, which carries the raw key and value, or another.
pub data SyncError : Type 0 where
  parsing : String → String → SyncError
  other : SyncError

-- What goes through the `results` channel.
pub data Message (V : Type 0) : Type 0 where
  updates : List (Update V) → Message V
  failed : SyncError → Message V
  synced : SyncStatus → Message V

-- api.WatchInterface's events.
pub data WatchEvent (V : Type 0) : Type 0 where
  added : KvPair V → WatchEvent V
  modified : KvPair V → WatchEvent V
  deleted : Option (KvPair V) → WatchEvent V
  watch_error : WatchEvent V
  unknown : WatchEvent V

pub record KvPairList (V : Type 0) : Type 0 where
  pub kv_pairs : List (KvPair V)
  pub revision : String

-- What client.Watch answers: a watcher, known by a number, or one of two kinds of error.
pub data WatchReply : Type 0 where
  watching : ℕ → WatchReply
  not_supported : WatchReply
  watch_failed : WatchReply
