-- ===== src/Lib.antt =====
-- libcalico-go: the client library of Calico. This is a model of four of its parts, with the theorems
-- that make them correct.
--
-- The watcher syncer (lib/backend/watchersyncer) keeps a client informed of what a datastore holds. A
-- watcherCache per kind of resource lists and watches the datastore and turns what it sees into New,
-- Updated and Deleted updates; one watcherSyncer takes the results of all caches from a channel,
-- groups the updates and calls the client back.
--   WatcherSyncer.Api: the types of lib/backend/api that the two exchange.
--   WatcherSyncer.Cache: the handlers of watchercache.go, one function each (mark_as_valid is
--     markAsValid, and so on) over the record WatcherCache; what goes into the results channel is the
--     field `results`. Cache.Loop has resyncAndCreateWatcher and run. What the datastore answers to
--     List and Watch, the events, and when the context is cancelled are a script, so that no fuel is
--     needed: the loops recur on it. The update processor is a parameter, any state and function. A Go
--     map is an association list, and a key is its String(). Cache.View is the client's side.
--   WatcherSyncer.Syncer: processResult, sendUpdates and run of watchersyncer.go; the field `called`
--     has the calls of the callbacks. Which results are ready when the channel is polled is any list
--     for each round, of any length. Start, Stop and the goroutines are not modelled.
--
-- The records of IP addresses (lib/ipam, lib/backend/model, lib/net): which addresses of a block are
-- assigned, with which attributes, and how many addresses of each block a handle has.
--   Ipam.Address: addresses and ordinals (lib/net/ip.go, lib/backend/model/block.go).
--   Ipam.Block: allocationBlock of lib/ipam/ipam_block.go over AllocationBlock: auto_assign and
--     assign; Block.Creation is newBlock, Block.Release is release and releaseByHandle, Block.Queries
--     the rest. An index out of range is the outcome `panic`. The order in which Go's map yields the
--     addresses of release is a parameter: release_unique takes them in any order. Release counts
--     references in a map[int]int, here the list of what was counted. The index that deleteAttributes
--     takes for an attribute is renumbered through the list new_indexes.
--   Ipam.Handle: allocationHandle of lib/ipam/ipam_handle.go.
--
-- The IPAM client (lib/ipam/ipam.go, ipam_block_reader_writer.go) assigns addresses out of blocks that
-- it keeps in a datastore which other clients use at the same time.
--   Ipam.Datastore: Create, Update, Delete, Get, Apply and List of lib/backend/etcdv3/etcdv3.go. The
--     server is the parameter `Etcd`, what it stores under a key and at which revision, and `IsLawful`
--     says what etcd documents of Put, Delete and the mod revision; Datastore.Memory is a server for
--     which that holds. Datastore.Swaps is about compare-and-swap. Each request has a fate: answered,
--     lost before it is carried out, or carried out with its answer lost. Datastore.Moves says what
--     every client keeps: blocks are well formed and of their key's CIDR, and no address of those that
--     are kept is lost. Which addresses are kept, while the clients may release the others, is the
--     parameter `Kept`.
--   Ipam.Datastore.Programs: code that makes requests, as a tree of requests and what is done with
--     each reply. `run` runs it against a server; before each request other clients may change the
--     store, in any way that Moves allows. Programs.Logic says what a run comes to, `Runs`, where
--     each request by itself must keep what clients keep, in the very store that it meets; with
--     Programs.Rules and Programs.Missing it has the rules of proof.
--   Ipam.Pools: IPPool and the walk over the blocks of a pool, randomBlockGenerator. Where the walk
--     starts, which the code takes from a random source that is seeded with the host's name, is a
--     parameter.
--   Ipam.ReaderWriter: ipam_block_reader_writer.go; ReaderWriter.Searching has getAffineBlocks and
--     findUnclaimedBlock, ReaderWriter.Untouched what claimAffineBlock does to blocks that are there.
--   Ipam.Client: ipam.go: Client.Handles has incrementHandle and decrementHandle, Client.Assigning
--     assignFromExistingBlock, Client.Config the configuration, Client.Blocks the affine blocks of a
--     host, Client.AutoAssign the two loops of autoAssign, for a limit of blocks that is not negative, Client.AssignIp AssignIP, Client.Release
--     ReleaseByHandle and ensureConsistentAffinity. The tries after a conflict are a hundred, as in
--     the code; the other loops of autoAssign have no bound in the code, and here one that is never
--     reached, since a run that reached it would panic, which no run does.
--   Ipam.Runs: the theorems on what runs of these programs return and leave in the store.
--
-- The selectors of labels (lib/selector): a text is cut into tokens, parsed into nodes and evaluated.
--   Selector.Text: Go strings as lists of bytes. Selector.StringSet: parser/stringset.go.
--   Selector.Tokenizer: tokenizer/tokenizer.go; a regular expression is a function that returns what
--     is left behind its match. The fuel of the loop is one more than the length of the text.
--   Selector.Ast: the nodes of parser/ast.go, evaluation, PrefixVisitor, and the text of a selector.
--   Selector.Parser: parser/parser.go. parse_operation is given parseOrExpression on less fuel for
--     what stands in parentheses; the fuel of all loops is one more than the number of tokens. An
--     index out of range is the outcome `panic`.
--
-- Not modelled: the Kubernetes datastore and everything else that is I/O, the text of keys and values,
-- conversion, generated code or declarations; of lib/ipam, the choice of the pools of a request and
-- the release of the blocks of a host that moved (determinePools, prepareAffinityBlocksForHost),
-- ReleaseIPs, the claim and the release of all blocks of a CIDR or a pool (ClaimAffinity,
-- ReleaseAffinity, ReleasePoolAffinities), EnsureBlock, and the functions that only list or log;
-- UniqueID of a selector, which is a hash of its text.
pub mod Prelude
pub mod WatcherSyncer
pub mod Ipam
pub mod Selector
