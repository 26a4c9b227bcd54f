-- ===== src/Lib.antt =====
-- MlsDisk: a log-structured secure virtual disk, written in Rust. The crate under core/ is a
-- stack of layers, core/src/layers/0-bio to 5-disk, over utilities in core/src/util. This library
-- models the parts that keep track of space and of recent records, the block layer and the
-- journal of edits, and proves what makes them correct.
--
-- The parts and their files:
-- - Base: the Boolean tests over the native numbers, lists, association lists and `Outcome`,
--   which is a value, an error of `Errno` (core/src/error.rs) or a panic.
-- - Bittle: the operations of the package `bittle` on words and slices of words, which is not
--   part of the repository. They are a record of operations with their documented laws, an
--   instance argument of all that uses them. Bittle/Sample.antt fills it with concrete functions,
--   with which the tests run.
-- - BitMap: core/src/util/bitmap.rs. A `BitMap` is its words and its length. Every method is a
--   function of the same name (`set` is `set_to`). BitMap/Shape says when a bitmap is valid and
--   what list of bits it stands for; the other modules state each method over that list.
-- - Chunk: core/src/layers/3-log/chunk.rs. Chunk.antt has `ChunkAllocState` (`alloc` is
--   `alloc_chunk`, `dealloc` is `dealloc_chunk`) and `ChunkAllocEdit` (`alloc` is `record_alloc`,
--   `dealloc` is `record_dealloc`); Chunk/Alloc.antt has `ChunkAlloc`, with its commit and abort
--   handlers and the sequences of calls in a transaction.
-- - AllocTable: core/src/layers/5-disk/block_alloc.rs. `AllocTable` (`alloc` is `alloc_slot`) and
--   the diffs that a `BlockAlloc` collects, with their effect when the transaction ends.
-- - MemTable: core/src/layers/4-lsm/mem_table.rs. `ValueEx` and `MemTable`, the records that are
--   not on disk yet, each of which has at most one synced and one unsynced value.
--   MemTable/Manager has the pair of tables, `MemTableManager` (`get` is `get_value`, `put` is
--   `put_record`, `sync` is `sync_mutable`).
-- - Transaction: core/src/tx/mod.rs. `TxProvider` is its lists of handlers, `Tx` its status
--   (`commit` is `commit_tx`, `abort` is `abort_tx`, `drop` is `drop_tx`); the handlers are
--   functions of any state.
-- - Edit, Journal: core/src/layers/2-edit/edit.rs and journal.rs. Edit has the edits, their
--   groups and the compaction policies; Journal.antt has `EditJournal` (`recover` is
--   `recover_journal`, `commit` is `commit_group`, `abort` is `abort_group`, `flush` is
--   `flush_journal`) with its write buffer and its records. The `CryptoChain` and the
--   `SnapshotManager` under it are the interfaces `Chain` and `Snapshots`, the byte format of the
--   package postcard is `Postcard`; no law of the chain, the snapshots or the policy is asked
--   for. Journal/Groups and Recovery are about the edits that a recovery applies, Journal/Kept
--   follows a journal through compaction and a flush, and Journal/Run and Buffered compare its
--   calls with an abstract state.
-- - Crypto, Blob, Manager: core/src/util/crypto.rs, core/src/layers/1-crypto/crypto_blob.rs and
--   the `SnapshotManager` of core/src/layers/2-edit/journal.rs. Crypto has authenticated
--   encryption as an interface; Blob has `CryptoBlob` (`create` is `create_blob`, `write` is
--   `write_blob`, `read` is `read_blob`, `recover_from` is `recover_blob`) over a set of blocks
--   and the byte format of its header; Manager has the pair of blobs (`create` is
--   `create_manager`, `recover` is `recover_manager`, `latest_mac` is `manager_mac`). A random
--   key is an argument, and the two subsets of the disk are two states. Manager/Torn and
--   Manager/Mismatch are about a crash within a write, the latter with the journal that is
--   recovered over a manager.
-- - Log, Chain: core/src/layers/0-bio/block_log.rs and block_ring.rs, and
--   core/src/layers/1-crypto/crypto_chain.rs. Log has the trait `BlockLog`, `MemLog` (`read` is
--   `read_log`, `append` is `append_log`) and `BlockRing` over a set of blocks (`read_ring`,
--   `append_ring`); Chain has `CryptoChain` (`read` is `read_chain`, `append` is `append_chain`,
--   `flush` is `flush_chain`) and its `Recovery` (`next` is `next_block`) over a log, the byte
--   format of a footer and authenticated encryption; Chain/Linked says what the blocks of a chain
--   are, and Chain/OnRing puts a chain on a ring. A random vector is an argument.
-- - RawLog: core/src/layers/3-log/raw_log.rs. The heads and tails of raw logs, the edits of a
--   transaction (`RawLogStoreEdit::create_log`, `open_log` and `delete_log` are `record_create`,
--   `record_open` and `record_delete`, `apply_to` is `apply_edits`) and the state they change
--   (`create_entry`, `append_entry`, `delete_entry`); `prepare_blocks` of a head is
--   `head_blocks`, that of a tail `tail_blocks`.
-- - TxLog: core/src/layers/3-log/tx_log.rs. `TxLogStoreState` with its changes (`create_log` is
--   `create_tx_log`, `append_log` is `append_tx_log`, `delete_log` is `delete_tx_log`, `move_log`
--   is `move_tx_log`) and `apply_to` of the edits of a transaction (`apply_tx_edits`).
-- - DataBuf: core/src/layers/5-disk/data_buf.rs. `DataBuf` with its methods (`get` is
--   `get_block`, `get_range` is `get_block_range`, `put` is `put_block`, `clear` is
--   `clear_blocks`); its map is a list of entries in ascending order of their keys.
-- - RangeQuery: core/src/layers/4-lsm/range_query_ctx.rs. `RangeQueryCtx` with its methods (`new`
--   is `new_ctx`), the slots of a range query over a `BitMap`.
-- - Blocks: core/src/layers/0-bio/block_set.rs. `BlockSet` is a record of operations, over which
--   `read_slice` and `write_slice` are written; `MemDisk` is one such set (`read` is `disk_read`,
--   `write` is `disk_write`, its region is `Region` and its disk a list of bytes). Blocks/Store
--   says what such a set promises, Blocks/Steps has the steps of `write_slice`.
--
-- How they interact: the chunk allocator keeps its free chunks, the block table its free blocks,
-- and a range query its completed slots, in a `BitMap`. They use its operations as they are, and
-- their theorems apply those of BitMap. An index found by a search is the argument of the next
-- `set`, so that the panic of an index out of range is excluded by the theorem on the search.
--
-- State is passed explicitly: a method that changes its object returns the new one. A lock is not
-- part of the state, since each operation holds it from start to end; a wait on a condition
-- variable, in `AllocTable::alloc_batch`, `MemTableManager::put` and `DataBuf::put`, is a result
-- of its own. The transaction of a chunk allocator is one edit beside the shared state:
-- transactions that run at the same time are not modelled. A `HashMap` or a `BTreeMap` is a list
-- of its entries with distinct keys.
--
-- Bounds: `usize` has 64 bits. Additions and subtractions that could leave its range panic, as
-- with overflow checks; the counters that only count what is in a bitmap or a table are left
-- unbounded, since the invariants bound them, and so are the end of the range of a `MemTable` and
-- the rounding up in `calc_needed_chunks`. An index of a bit is cast to a `u32`, as bittle takes
-- it; a valid bitmap has fewer bits. Assertions of debug builds are kept as panics. Loops are
-- recursions over lists, but for the reading of records from bytes, which runs on fuel: as much
-- as there are bytes, which is enough since a record has at least one byte; and for the recovery
-- of a chain, whose fuel is enough if it is more than the number of blocks to be found.
--
-- Not modelled: Debug output, serialization, the callbacks' effects, and the layers that do I/O
-- or encryption, which are the other parts of the crypto layer, the logs, the tree and the disk
-- itself, and the glue for operating systems in core/src/os and linux/.
pub mod Base
pub mod Bittle
pub mod BitMap
pub mod Chunk
pub mod AllocTable
pub mod MemTable
pub mod Blocks
pub mod RangeQuery
pub mod Transaction
pub mod Edit
pub mod Journal
pub mod Crypto
pub mod Blob
pub mod Manager
pub mod Log
pub mod Chain
pub mod RawLog
pub mod DataBuf
pub mod TxLog
