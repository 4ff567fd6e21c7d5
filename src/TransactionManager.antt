-- ===== src/TransactionManager.antt =====
-- The transaction manager: transaction/transaction_manager.h and transaction_manager.cpp. Its table
-- holds the transaction objects, each under its number; the log manager is the one that the buffer
-- pool has. The latch of `begin` makes it one step; `commit` is a sequence of calls.
use claude_opus.Base.{ℕ, suc, ℤ, pos, ℕ_discrete, ite, Option, none, some, List, [], ◌∷◌}
use claude_opus.Errors.{Result, ok, throw}
use claude_opus.Disk.{DiskManager}
use claude_opus.Txn.{Transaction, TransactionState, new_transaction, LockDataId}
use claude_opus.Lock.{LockManager, Call, unlock}
use claude_opus.LogRecord.{LogRecord, header, with_header, begin_log, commit_log}
use claude_opus.LogManager.{LogManager, Logged, add_log_to_buffer, flush_log_to_disk}
use claude_opus.BufferPool.{Setup, Pool}
pub mod Release
pub mod Ending
pub mod Failure
pub mod Commit
pub mod Begin
pub mod Rollback
pub mod Abort
mod Tests

-- The loop that releases the locks, on a copy of the lock set.
unfoldable pub unlock_all : List LockDataId → LockManager → Transaction → LockManager × Transaction
unlock_all [] m x = (m, x)
unlock_all (id ∷ ids) m x = let c = unlock m x id in unlock_all ids c.manager c.txn

module _ (E : Setup) where
  open E use {os}

  pub record TransactionManager : Type 0 where
    pub next_txn_id : ℕ
    pub next_timestamp : ℕ
    pub lock_manager : LockManager
    pub pool : Pool E
    pub txn_map : ℕ → Option Transaction

  abbrev pub M : Type 0 → Type 0
  M A = TransactionManager → TransactionManager × Result A

  abbrev pub bind :
      {A B : Type 0} → TransactionManager × Result A → (A → M B) → TransactionManager × Result B
  bind (s, ok a) f = f a s
  bind (s, throw e) f = (s, throw e)

  infixl 5 ◌>>=◌ ◌>>◌
  abbrev pub ◌>>=◌ : {A B : Type 0} → M A → (A → M B) → M B
  ◌>>=◌ m f s = bind (m s) f

  abbrev pub ◌>>◌ : {B : Type 0} → M (Unit {0}) → M B → M B
  m >> k = m >>= λ _. k

  abbrev pub return : {A : Type 0} → A → M A
  return a s = (s, ok a)

  abbrev pub modify : (TransactionManager → TransactionManager) → M (Unit {0})
  modify f s = (f s, ok tt)

  abbrev pub put_txn : ℕ → Transaction → TransactionManager → TransactionManager
  put_txn t x s = record s { txn_map = λ u. ite (ℕ_discrete u t) (some x) (s.txn_map u) }

  -- What a call of the log manager leaves.
  abbrev pub with_log : LogManager → DiskManager os → TransactionManager → TransactionManager
  with_log lm dm s = record s { pool = record s.pool { log_manager = some lm; disk_manager = dm } }

  -- The transaction remembers the record's number, unless adding it threw.
  pub remember : Transaction → Logged os ℤ → M (Unit {0})
  remember x (lm, dm, ok lsn) s =
      (put_txn x.txn_id (record x { prev_lsn = lsn }) (with_log lm dm s), ok tt)
  remember x (lm, dm, throw e) s = (with_log lm dm s, throw e)

  abbrev pub with_prev : Transaction → LogRecord → LogRecord
  with_prev x r = with_header (record (header r) { prev_lsn = x.prev_lsn }) r

  -- The record of a begin or of an end, with_prev to the transaction's last one, if there is a log.
  unfoldable pub control_with : Transaction → LogRecord → Option LogManager → M (Unit {0})
  unfolding remember
  control_with x r none s = (s, ok tt)
  control_with x r (some lm) s =
      remember x (add_log_to_buffer os lm s.pool.disk_manager (with_prev x r)) s

  unfoldable pub log_control : Transaction → LogRecord → M (Unit {0})
  unfolding control_with
  log_control x r s = control_with x r s.pool.log_manager s

  -- `log_manager->flush_log_to_disk()`.
  unfoldable pub flush_of : Option LogManager → M (Unit {0})
  flush_of none s = (s, ok tt)
  flush_of (some lm) s =
      let (lm', dm, r) = flush_log_to_disk os lm s.pool.disk_manager in (with_log lm' dm s, r)

  unfoldable pub flush_log : M (Unit {0})
  unfolding flush_of
  flush_log s = flush_of s.pool.log_manager s

  -- The transaction starts anew, under its number.
  unfoldable pub start : Transaction → M ℕ
  unfolding log_control
  start x = do
    modify (put_txn x.txn_id (record x { state = TransactionState.default }))
    log_control (record x { state = TransactionState.default }) (begin_log (pos x.txn_id))
    return x.txn_id

  -- `begin`: with no transaction it makes one.
  unfoldable pub begin : Option Transaction → M ℕ
  unfolding start
  begin (some x) s = start x s
  begin none s =
      start (new_transaction s.next_txn_id s.next_timestamp)
        (record s { next_txn_id = suc s.next_txn_id; next_timestamp = suc s.next_timestamp })

  -- The last part of `commit`: the locks go, the write set is emptied, the state is set.
  unfoldable pub end_with :
      TransactionState → ℕ → Option Transaction → TransactionManager → TransactionManager
  unfolding unlock_all
  end_with st t none s = s
  end_with st t (some x) s =
      let (m, y) = unlock_all x.lock_set s.lock_manager x in
      put_txn t (record y { lock_set = []; write_set = []; state = st })
        (record s { lock_manager = m })

  unfoldable pub end : TransactionState → ℕ → TransactionManager → TransactionManager
  unfolding end_with
  end st t s = end_with st t (s.txn_map t) s

  unfoldable pub commit_found : ℕ → Option Transaction → M (Unit {0})
  unfolding log_control flush_log end
  commit_found t none = return tt
  commit_found t (some x) = do
    log_control x (commit_log (pos t))
    flush_log
    modify (end TransactionState.committed t)

  -- `commit`, with a transaction's number for the pointer to it.
  unfoldable pub commit : Option ℕ → M (Unit {0})
  unfolding commit_found
  commit none s = (s, ok tt)
  commit (some t) s = commit_found t (s.txn_map t) s
