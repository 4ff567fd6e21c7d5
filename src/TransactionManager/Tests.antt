-- ===== src/TransactionManager/Tests.antt =====
-- A transaction begins, and one that holds a lock on a table commits.
use claude_opus.Base.{
  ℕ, Option, ℤ-discrete, ◌≡◌, refl, pos, true, some, none, List, [], ◌∷◌, ◌++◌, arith, ite,
  ℕ_discrete,
}
use claude_opus.Errors.{Error, Result, ok, throw}
use claude_opus.Disk.{Os, whole, short, write_log}
use claude_opus.Txn.{
  TransactionState, Transaction, new_transaction, table_id, LockDataId, LockDataId-discrete,
  contains, WType, WriteRecord, Rid-discrete,
}
use claude_opus.Lock.{LockMode, GroupLockMode, LockManager, held_mode, conflicts}
use claude_opus.Lock.Queues.{Compatible}
use claude_opus.Lock.Calls.{requests}
use claude_opus.Lock.Safety.{holds}
use claude_opus.LogRecord.{
  begin_log, commit_log, abort_log, serialize, serialize_header, put_le, put_int32, put_int64,
  to_word,
}
use claude_opus.LogManager.{new_log_manager, add_log_to_buffer, append, is_full, flush_log_to_disk}
use claude_opus.Replacer.Lru.{init}
use claude_opus.Replacer.Lru.Policy.{lru}
use claude_opus.BufferPool.{Setup, Pool, new_pool}
use claude_opus.TransactionManager.{
  TransactionManager, begin, start, commit, commit_found, log_control, control_with, remember,
  flush_log, flush_of,
}
use claude_opus.Tables.{IndexMeta, delete_entries}
use claude_opus.Tables.Small.{Small, place, small_storage}
use claude_opus.TransactionManager.Rollback.{undo_write}
use claude_opus.TransactionManager.Abort.{
  log_abort, abort, Aborted, nothing, one, abort-Aborted, Stays, abort-Stays,
}
use claude_opus.TransactionManager.Begin.{Started, IsFresh, begin-Started}
use claude_opus.TransactionManager.Failure.{Failed, commit-Failed}
use claude_opus.TransactionManager.Commit.{Committed, commit-Committed}

abbrev log_file : Os (Unit {0})
log_file = record {
  World = List ℕ;
  read = λ w id. short;
  write = λ w id d. (w, short);
  append_log = λ w bs. (w ++ bs, whole tt);
  log_bytes = λ w. w;
  read-write = λ w id j d h. cc;
  log_bytes-write = λ w id d. refl;
  read-append_log = λ w bs j. refl;
  log_bytes-append_log = λ w bs h. refl;
}

abbrev setup : Setup
setup = record {
  format = record { Data = Unit; zeroed = tt; page_lsn = λ _. pos 0 };
  os = log_file;
  policy = lru;
}

abbrev logging : Pool setup
logging =
    record (new_pool setup 1 (record { world = []; fd2pageno = λ _. pos 0 }) (init 1) (pos 3)) {
      log_manager = some new_log_manager;
    }

abbrev item : LockDataId
item = table_id (pos 3)

abbrev holder : Transaction
holder = record (new_transaction 0 0) { state = TransactionState.growing; lock_set = item ∷ [] }

abbrev locks : LockManager
locks = record {
  lock_table = λ j.
      ite (LockDataId-discrete j item)
        (some (record {
          request_queue =
              record { txn_id = 0; lock_mode = LockMode.exlucsive; granted = true } ∷ [];
          group_lock_mode = GroupLockMode.x;
        }))
        none;
}

abbrev before : TransactionManager setup
before = record {
  next_txn_id = 1;
  next_timestamp = 1;
  lock_manager = locks;
  pool = logging;
  txn_map = λ u. ite (ℕ_discrete u 0) (some holder) none;
}

locks-Compatible : (j : LockDataId) → Compatible (requests locks j)
unfolding conflicts
locks-Compatible j = elim (LockDataId-discrete j item) [
  | yes d ↦ ground arith
  | no d ↦ ground arith
]

lock_set-agrees :
    (j : LockDataId) → contains j holder.lock_set ≡ holds (held_mode 0 (requests locks j))
unfolding contains held_mode
lock_set-agrees j = ground arith

before-IsFresh : IsFresh setup before
before-IsFresh u l = ground arith

commit-Committed_example : Committed setup before holder (commit setup (some 0) before).0
unfolding commit commit_found log_control control_with remember flush_log flush_of commit_log
    add_log_to_buffer append is_full serialize serialize_header put_le put_int32 put_int64 to_word
    flush_log_to_disk write_log new_log_manager new_pool ℕ_discrete
commit-Committed_example =
    commit-Committed setup before holder refl locks-Compatible lock_set-agrees
      (λ lm e. ground arith) refl

begin-Started_example :
    (1 ≡ before.next_txn_id)
    × Started setup
        (record before { next_txn_id = 2; next_timestamp = 2 })
        (new_transaction 1 1)
        (begin setup none before).0
    × IsFresh setup (begin setup none before).0
    × (before.txn_map 1 ≡ none)
unfolding begin start log_control control_with remember begin_log add_log_to_buffer append is_full
    serialize serialize_header put_le put_int32 put_int64 to_word flush_log_to_disk write_log
    new_log_manager new_pool ℕ_discrete
begin-Started_example = begin-Started setup before 1 before-IsFresh refl

-- A log file that takes no bytes.
abbrev full_disk : Os (Unit {0})
full_disk = record log_file {
  append_log = λ w bs. (w, short);
  read-append_log = λ w bs j. refl;
  log_bytes-append_log = λ w bs h. cc;
}

abbrev full_setup : Setup
full_setup = record setup { os = full_disk }

abbrev stuck : TransactionManager full_setup
stuck = record {
  next_txn_id = 1;
  next_timestamp = 1;
  lock_manager = locks;
  pool =
      record (new_pool full_setup 1 (record { world = []; fd2pageno = λ _. pos 0 }) (init 1)
        (pos 3)) { log_manager = some new_log_manager };
  txn_map = λ u. ite (ℕ_discrete u 0) (some holder) none;
}

commit-Failed_example : Failed full_setup stuck holder (commit full_setup (some 0) stuck).0
unfolding commit commit_found log_control control_with remember flush_log flush_of commit_log
    add_log_to_buffer append is_full serialize serialize_header put_le put_int32 put_int64 to_word
    flush_log_to_disk write_log new_log_manager new_pool ℕ_discrete
commit-Failed_example = commit-Failed full_setup stuck holder Error.internal_error refl refl

abbrev no_indexes : List ℕ → List IndexMeta
no_indexes t = []

abbrev table : List ℕ
table = 116 ∷ []

-- With one row, which the transaction has inserted.
abbrev small : Small
small = record {
  rows = λ t rid. ite (Rid-discrete rid (place 0)) (some (7 ∷ [])) none;
  entries = λ ix key. none;
  next = 1;
}

abbrev write_at : ℕ → WriteRecord
write_at n = record { wtype = WType.insert_tuple; tab_name = table; rid = place n; old_value = [] }

abbrev writer : List WriteRecord → Transaction
writer ws = record holder { write_set = ws }

abbrev writing : List WriteRecord → TransactionManager setup
writing ws = record before { txn_map = λ u. ite (ℕ_discrete u 0) (some (writer ws)) none }

abbrev state_of : {A : Type 0} → Option (Small × Result A) → Small
state_of none = small
state_of (some (w, r)) = w

-- The row is gone.
emptied : Small
emptied = state_of (undo_write small_storage no_indexes (write_at 0) small)

undoes : undo_write small_storage no_indexes (write_at 0) small ≡ some (emptied, ok tt)
unfolding emptied undo_write delete_entries small_storage Rid-discrete
undoes = refl

abort-Aborted_example :
    (s' : TransactionManager setup) × (abort setup small_storage no_indexes
        (some 0)
        (writing (write_at 0 ∷ []), small)
      ≡ some ((s', emptied), ok tt))
    × Aborted setup (writing (write_at 0 ∷ [])) (writer (write_at 0 ∷ [])) s'
unfolding log_abort log_control control_with remember flush_log flush_of abort_log add_log_to_buffer
    append is_full serialize serialize_header put_le put_int32 put_int64 to_word flush_log_to_disk
    write_log new_log_manager new_pool ℕ_discrete
abort-Aborted_example =
    abort-Aborted setup small_storage no_indexes (writing (write_at 0 ∷ []))
      (writer (write_at 0 ∷ [])) small emptied refl locks-Compatible lock_set-agrees refl
      (one undoes nothing)

-- The last row was never there.
misses :
    undo_write small_storage no_indexes (write_at 5) small
    ≡ some (small, throw (Error.record_not_found_error (pos 1) (pos 5)))
unfolding undo_write delete_entries small_storage Rid-discrete ℤ-discrete ℕ_discrete
misses = refl

abort-Stays_example :
    (s' : TransactionManager setup) × (abort setup small_storage no_indexes
        (some 0)
        (writing (write_at 5 ∷ write_at 0 ∷ []), small)
      ≡ some ((s', small), throw (Error.record_not_found_error (pos 1) (pos 5))))
    × Stays setup
        (writing (write_at 5 ∷ write_at 0 ∷ []))
        (writer (write_at 5 ∷ write_at 0 ∷ []))
        (write_at 5 ∷ write_at 0 ∷ [])
        s'
unfolding log_abort log_control control_with remember flush_log flush_of abort_log add_log_to_buffer
    append is_full serialize serialize_header put_le put_int32 put_int64 to_word flush_log_to_disk
    write_log new_log_manager new_pool ℕ_discrete
abort-Stays_example =
    abort-Stays setup small_storage no_indexes (writing (write_at 5 ∷ write_at 0 ∷ []))
      (writer (write_at 5 ∷ write_at 0 ∷ [])) [] (write_at 5) (write_at 0 ∷ []) small small small
      (Error.record_not_found_error (pos 1) (pos 5)) refl refl refl nothing misses
