-- ===== src/WatcherSyncer.antt =====
-- lib/backend/watchersyncer: one cache for each resource type watches the datastore and sends its
-- updates to the syncer, which groups them for the callbacks.
pub mod Api
pub mod Cache
pub mod Syncer
