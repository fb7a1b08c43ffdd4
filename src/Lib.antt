-- ===== src/Lib.antt =====
-- brisedb, a key-value store written in Go: values are blobs in append-only volume files, a
-- persistent hash index maps each key to the address of its blob, a write-ahead log records the
-- changes, sessions buffer them in nested transactions, and a server speaks a text protocol.
--
-- Parts, and the files that model them:
--
--   Prelude, Types, File   tests, lists, maps and sets; addresses, errors and results; files of bytes
--   Volume                 pkg/brisedb/volume.go, the type volume: write, writeStream, read
--   Volumes                pkg/brisedb/volume.go, the type VolumeManager: volumes on several drives
--   Decimal                the numbers that fmt prints and strconv parses
--   VolumeServer           pkg/volumeserver: a volume manager behind HTTP, and its client
--   Pool                   pkg/brisedb/volumepool.go: groups, the registry, and in Transfer the writes and
--                          reads; Members, Replicas, Failover, Groups, Durability, Written and Cached
--                          lead to what is read back, Uneven and Diverged show what a lost write does,
--                          Reopened what Close saves
--   HashIndex              pkg/brisedb/hashindex.go: Format the entries, Chain the lookup, Append and
--                          Writes Set and Delete, Open the opening of the file and ForEach,
--                          Tables the table in the file, Reopened what Close and a new opening keep,
--                          Fresh a new index, Compact the rewriting of the file
--   Locks                  pkg/brisedb/keyedmu.go: which shards are locked, in which order
--   Lru                    pkg/brisedb/lrucache.go: Evict the loop of set, Invariant its operations
--   Glob                   matchGlob of pkg/brisedb/session.go
--   Wal                    writeWAL and walFlusher of pkg/brisedb/brise.go: Order the lines of the file,
--                          Durable the answers of the flusher, Sticky the error that it keeps
--   Tx                     Transaction and TransactionStack of pkg/brisedb/brise.go
--   Pubsub                 pkg/brisedb/pubsub.go
--   Store                  the interface between the session and the storage; Disk fills it with the
--                          hash index and a volume, and proves its laws from theirs
--   Session                pkg/brisedb/session.go: Commit CommitTransaction, Scan the listings,
--                          Buffered what a transaction holds back, Installs, Reads and Blobs the rest
--   Replay                 replayWAL, applyEntry and their like in pkg/brisedb/brise.go; Snapshot
--                          what a starting replica receives, with pkg/client/replica.go, and
--                          Compacted the log that Compact writes
--   Gateway                pkg/blobserver/server.go: blobs over HTTP, Ranges the Range header
--   Server                 handleConn of pkg/server/server.go, one request at a time
--
-- State is passed explicitly. A Go map is an association list, and a loop over it takes its entries
-- in the order of the list. A file is a list of bytes; what the system makes of each write (all of
-- it, or a prefix and an error) is an argument, as are the time and the answers of the log. Panics
-- are values. Numbers are natural numbers, with the wrap-around of 64-bit counters written out where
-- the code can reach it. An operation under a lock is one step.
--
-- Loops over chains of the index, over the channel of the log and over the list of the cache run on
-- fuel: the length of the data region, of the channel and of the list. This is enough since a step
-- goes on by an entry of at least one byte, a message, or an element.
--
-- Not modelled: the errors of files while Compact rewrites the log, io_uring, status pages, the clients
-- of the text protocol but for the start of a replica, configuration and start-up. HTTP and JSON carry
-- what they are given, or fail, but for the values in a snapshot, where what JSON makes of them is an
-- argument; what becomes of each request to a volume server is one too. Names of fields and the JSON
-- of the log are data.
pub mod Prelude
pub mod Types
pub mod Decimal
pub mod File
pub mod Volume
pub mod Volumes
pub mod VolumeServer
pub mod Pool
pub mod HashIndex
pub mod Locks
pub mod Lru
pub mod Glob
pub mod Wal
pub mod Tx
pub mod Pubsub
pub mod Store
pub mod Session
pub mod Replay
pub mod Server
pub mod Gateway
