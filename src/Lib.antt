-- ===== src/Lib.antt =====
-- remnix: encrypted, server-free shell history that devices exchange through untrusted storage.
--
-- Each device numbers its own events and keeps them in a local database. A run of events goes to the
-- storage as a sealed bundle, events/<device>/<hash>. A device pulls the bundles of the others, applies
-- their events to its history, and advances its heads: per device, the largest number up to which it
-- has everything. An ack publishes these heads. Checkpoints are snapshots with a frontier, and garbage
-- collection deletes bundles that a checkpoint covers and every required device has acknowledged.
--
-- Prelude and its children: numbers, texts, dictionaries and results that the other files share. An
-- int64 is an integer of Prelude/Int.antt, and each addition that the code makes wraps around (add64).
-- Go maps and the key-value tables are association lists. A function that returns an error returns a
-- Result, whose Error tells a missing object from the rest.
--
-- Sync/Frontier.antt is internal/sync/merge/frontier.go: Frontier, Clone, Advance, Missing, Covers,
--   Dominates, Score, Union. Its children prove the order of domination, the ranges of Missing and how
--   the score follows the order.
-- Sync/Transport.antt is the interface of internal/transport/transport.go. What the storage answers is
--   a parameter: View for reads of one state, Transport for reads and writes with the state passed on.
--   Transport/Laws.antt names what deletions and writes are relied on for, as the backends under
--   internal/transport document it (a removal takes a directory with all that lies in it), and holds a
--   storage in memory.
-- Sync/Ack.antt, Sync/Checkpoint.antt, Sync/Event.antt and Sync/Bundle.antt are the files of
--   internal/sync/ack, checkpoint (checkpoint.go), event (event.go) and bundle. JSON, CBOR and the
--   cipher are parameters: Codec, Cbor, Sealing.
-- History/Entry.antt and History/Table.antt are internal/history/entry.go, changes.go and the
--   statements of store.go on the history table, its unique indexes included (conflicts). Device.antt
--   is internal/device/device.go. Sync/Db.antt gathers the tables.
-- History/Cache.antt and its children are internal/history/cache.go: Pool holds the texts, Suggest sorts
--   and looks up, Compact renews the pool, Methods is what callers use. An index out of range is a value
--   (panic, of Prelude/Run.antt). Plain is the same cache as functions from texts; Tracks and the files
--   after it relate the two, operation by operation, up to Refines. Order holds sorting, search and scan as
--   functions that cannot fail; Resorted and Scanned show that the code's reads are in range and agree
--   with them. sort.Search and the loop after it run on fuel, the number of places, which is enough.
-- Search/Span.antt and Search/Rank.antt are internal/search/rank.go, Search/Words.antt the functions of
--   strings that it uses. Lower case and the clock are parameters; days are counted from milliseconds.
-- Sync/Events.antt and Sync/Events/Range.antt are internal/sync/event/store.go: appending, compaction,
--   numbering, and the rebuilding of payloads that are not stored. Sync/Heads.antt is
--   internal/sync/merge/heads.go. The loop of AdvanceContiguous runs on fuel, one more than there are
--   rows, which its theorem shows to be enough.
-- Sync/Merge.antt is internal/sync/merge/apply.go: what an event does to the database.
-- Sync/Engine.antt and Sync/Publish.antt are pulling and publishing in internal/sync/syncer/engine.go.
--   A transaction is a Result that carries the new database only on success.
-- Keys.antt is the tables of internal/crypto/keys/store.go. Sync/Metadata.antt and Sync/Generations.antt
--   are pullMetadata of engine.go and what it calls in recover.go. Signatures are not part of it.
-- Sync/Bootstrap.antt is internal/sync/syncer/checkpoint.go, with the trusted checkpoint of
--   internal/crypto/keys/store.go.
-- Sync/Gc.antt and its children are internal/sync/gc/gc.go: Best ranks checkpoints, Layout reads the
--   storage, Plan is Evaluate and Execute, one function for each loop.
-- Sync/Equalize.antt is internal/sync/equalize/equalize.go: mirror is what Equalize does between the
--   calls of Begin and of End, a list of endpoints its state.
-- Sync/Snapshot.antt and its children are internal/sync/checkpoint/snapshot.go: the tables of repeated
--   texts, the sealed payload and the file.
-- Terminal/ParseQueue.antt is internal/terminal/parse_queue.go, and the loop of the parser in
--   session_unix.go (drain). Every method runs under the queue's lock, so an execution is a sequence of
--   method calls (Step, Reachable). The loop runs on fuel, one round for each waiting chunk.
-- Terminal/InputQueue.antt is internal/terminal/pty_input.go. Terminal/Slices.antt holds what both queues
--   rely on: a slice with a head index.
-- Examples holds tests on concrete inputs and instances of the theorems.
--
-- SQL statements are assumed not to fail for reasons of the database itself. Contexts, progress
-- reports, encryption, process handling and the user interface are not modelled. Iterations over Go
-- maps follow the order of the association list.
pub mod Prelude
pub mod Device
pub mod History
pub mod Keys
pub mod Sync
pub mod Search
pub mod Terminal
pub mod Examples
