-- ===== src/Lib.antt =====
-- Verification of RMDB, a relational database in C++: its storage, logging and
-- locking layers and its executors.
--
-- How the parts interact. Executors (src/execution) yield records to each other and read and
-- change tables through record files and indexes, which work on pages that the buffer
-- pool holds in frames. The pool asks the replacer which frame to give up, writes
-- dirty frames back through the disk manager, and before it does so makes the log
-- manager write every record up to the page's log sequence number. Record files lay
-- their pages over those of the pool and log every change. Transactions protect rows
-- and tables by locks of the lock manager, which keeps a queue of granted requests for
-- every item.
--
-- Which file models which part:
--   Base          shared lists, Boolean tests and signed integers.
--   Errors        the exceptions of src/errors.h as values; a call returns its state
--                 beside a result, so what it did before it threw is kept.
--   Txn           src/transaction/txn_defs.h and the fields of
--                 src/transaction/transaction.h.
--   Lock          src/transaction/concurrency/lock_manager.cpp: is_compatible,
--                 is_stronger, update_group_lock_mode, acquire_lock, unlock and the
--                 six calls that lock a row or a table. Modes, Queues, Calls and Safety
--                 hold its theorems.
--   Replacer      src/replacer/replacer.h as an interface with laws; Replacer/Lru is
--                 src/replacer/lru_replacer.cpp (victim, pin, unpin, Size) and fills
--                 that interface.
--   Disk          src/storage/disk_manager.cpp: write_page, read_page, allocate_page,
--                 write_log, and the page counters of a file.
--   LogRecord     src/recovery/log_manager.h: the kinds of log records and their
--                 bytes, little-endian and without padding between fields, and back
--                 (Parse: deserialize).
--   LogManager    src/recovery/log_manager.cpp: the log buffer and its flush.
--   BufferPool    src/storage/buffer_pool_manager.cpp: find_victim_page, update_page,
--                 fetch_page, unpin_page, flush_page, new_page, delete_page,
--                 flush_all_pages, delete_all_pages. Its children hold the invariant
--                 and the theorems of each operation.
--   Record        src/record: Record/Bitmap is bitmap.h, Record/Layout the header that
--                 rm_manager.h's create_file computes, Record/Page the operations on a
--                 page's header, bitmap and slots, and Record/FileHandle
--                 rm_file_handle.cpp over the buffer pool: fetch_page_handle,
--                 create_page_handle, release_page_handle, get_record, insert_record
--                 (both), update_record and delete_record with their log records;
--                 Record/FileHandle/Bytes is RmPageHandle's layout of 4096 bytes, and
--                 Record/Scan is rm_scan.cpp. Files are created and opened outside the
--                 model.
--   TransactionManager  src/transaction/transaction_manager.cpp: begin and commit, over
--                 the lock manager and the log manager, and in Abort abort, over tables and
--                 indexes as well.
--   Recovery      src/recovery/log_recovery.cpp: analyze, on the bytes of the log file.
--   Index         src/index: Index/Keys states what is asked of ix_compare, Index/Columns
--                 is ix_compare and fills that interface, Index/Node is
--                 the node of ix_index_handle.cpp (lower_bound, upper_bound, leaf_lookup,
--                 internal_lookup, insert, remove and what they call), and Index/Tree the
--                 tree over the buffer pool: Find has find_leaf_page, get_value, get_rid,
--                 lower_bound, upper_bound, leaf_begin and leaf_end, Insert has split,
--                 insert_into_parent and insert_entry, Delete has delete_entry and what
--                 it calls, Scan is ix_scan.cpp.
--   Common        the parts of src/common/common.h and src/system/sm_meta.h that executors
--                 read: columns, comparisons, operands; Common/Value is Value with
--                 parse_datetime, cast_to and init_raw.
--   Tables        what executors ask of record files and indexes, as an interface (Storage)
--                 of which nothing is supposed: any call may throw and change what it likes.
--                 It has the loops over a table's indexes that insertion, deletion and abort share; get_index_name of
--                 src/index/ix_manager.h. Tables/Small is an implementation in memory.
--   TransactionManager/Rollback  the loop of abort in src/transaction/transaction_manager.cpp
--                 that undoes a write set.
--   Execution     src/execution: the interface of executor_abstract.h (beginTuple, nextTuple,
--                 is_end, Next). Conditions has get_col, compare_value and eval_conds; Scan is
--                 executor_seq_scan.h, Projection executor_projection.h, Limit
--                 executor_limit.h, Sort execution_sort.h, Join executor_nestedloop_join.h,
--                 Aggregate executor_aggregate.h, Modify executor_insert.h and
--                 executor_delete.h, and Update executor_update.h; the scan, insertion, deletion and
--                 update are definitions only. Execution/Yields says what it is for an
--                 executor to yield a list of records; the theorems on limit, projection,
--                 sort, join and aggregate take one on their children, so they compose
--                 along a plan.
-- Not modelled: the implementation of Storage by record files, indexes and locks, redo and undo, the key range of the index scan, the planner, the analysis, the
-- parser and the server.
--
-- What the model abstracts from:
--   Identifiers, pin counts and log sequence numbers are unbounded numbers, where the
--   program has 32 and 64 bits; the log's fields are written modulo their width.
--   A latch is held for the whole of every call modelled, so a call is one step, and
--   what several threads do is a sequence of such steps.
--   The operating system is a parameter (Disk.Os): a file is what lseek, read and write
--   make of it, with the laws that reading back a page gives what was written and that
--   other pages stay as they are. No law says that a transfer succeeds.
--   The bytes of a page are a type with its empty page and its stored sequence number; a
--   record file reads a header, a bitmap and slots in them (Record.FileHandle.View), and
--   storing a page and reading it again gives it back when it fits, which is to say
--   when its fields and its slots have the sizes of the file's header.
--   Floats are compared by a parameter, the order of IEEE numbers that are not NaN.
--   Iteration orders of hash tables are not observable in what is modelled.
--   The loops of the tree that go up or down run on a number of levels, which each call
--   is given; a call whose tree is higher gives no result.
--   The loops of executors run on a number of rounds, a parameter of each executor; the theorems
--   say which numbers are enough. `std::stable_sort` is the insertion sort that
--   gives the same list. A `double` is a parameter with its addition and its conversions.
--   Two more loops run on fuel: the scan of the log has as many rounds as the log has bytes,
--   of which each round takes 24 or more, and a binary search has as many as the node
--   has keys. A damaged record length of 2 ^ 31 or more ends the modelled scan, where
--   the program reads in front of its buffer. A negative size of a value in a record reads as
--   no bytes, where the program's allocation throws.
mod Base
pub mod Txn
pub mod Lock
pub mod Replacer
pub mod Errors
pub mod Disk
pub mod LogRecord
pub mod LogManager
pub mod BufferPool
pub mod Record
pub mod Recovery
pub mod Index
pub mod Calls
pub mod Common
pub mod Tables
pub mod Execution
pub mod TransactionManager
