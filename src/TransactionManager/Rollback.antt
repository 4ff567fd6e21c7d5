-- ===== src/TransactionManager/Rollback.antt =====
-- The loop of `TransactionManager::abort` in transaction_manager.cpp that undoes a transaction's
-- writes, the last one first. The write set stands with its last record in front; `tabs` gives the
-- indexes of a table (`db_.get_table`).
use claude_opus.Base.{ℕ, List, [], ◌∷◌}
use claude_opus.Calls.{M, ◌>>=◌, ◌>>◌, return, modify}
use claude_opus.Txn.{Rid, WType, WriteRecord}
use claude_opus.Tables.{IndexMeta, Storage, delete_entries, insert_entries, Session, on_db}

module _ {W : Type 0} (D : Storage W) (tabs : List ℕ → List IndexMeta) where
  pub undo_insert : List ℕ → Rid → M W (Unit {0})
  undo_insert t rid = do
    rec ← D.get_record t rid
    delete_entries D t (tabs t) rec
    D.delete_record t rid

  pub undo_delete : List ℕ → Rid → List ℕ → M W (Unit {0})
  undo_delete t rid old = do D.insert_record_at t rid old; insert_entries D t (tabs t) old rid

  pub undo_update : List ℕ → Rid → List ℕ → M W (Unit {0})
  undo_update t rid old = do
    rec ← D.get_record t rid
    delete_entries D t (tabs t) rec
    D.update_record t rid old
    insert_entries D t (tabs t) old rid

  pub undo_as : WType → WriteRecord → M W (Unit {0})
  unfolding undo_insert undo_delete undo_update
  undo_as WType.insert_tuple r = undo_insert r.tab_name r.rid
  undo_as WType.delete_tuple r = undo_delete r.tab_name r.rid r.old_value
  undo_as WType.update_tuple r = undo_update r.tab_name r.rid r.old_value

  -- One record of the write set.
  unfoldable pub undo_write : WriteRecord → M W (Unit {0})
  unfolding undo_as
  undo_write r = undo_as r.wtype r

  -- `while (!write_set->empty())`.
  unfoldable pub undo_writes : List WriteRecord → M (Session W) (Unit {0})
  unfolding undo_write
  undo_writes [] = return tt
  undo_writes (r ∷ rs) = do
    on_db (undo_write r)
    modify (λ s. record s { write_set = rs })
    undo_writes rs

  unfoldable pub roll_back : M (Session W) (Unit {0})
  unfolding undo_writes
  roll_back s = undo_writes s.write_set s
