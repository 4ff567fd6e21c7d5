-- ===== src/Execution/Modify.antt =====
-- `InsertExecutor` and `DeleteExecutor` of execution/executor_insert.h and executor_delete.h: their
-- `Next`, which changes the table, its indexes and the transaction's write set.
use claude_opus.Base.{
  ℕ, ◌==◌, if◌then◌else◌, ℤ, Option, none, some, List, [], ◌∷◌, length, zeros, write,
}
use claude_opus.Errors.{Error, Result, ok, throw}
use claude_opus.Calls.{M, ◌>>=◌, ◌>>◌, return, raise}
use claude_opus.Txn.{Rid, WType}
use claude_opus.Common.{ColMeta}
use claude_opus.Common.Value.{Value, cast_to, init_raw}
use claude_opus.Tables.{
  IndexMeta, get_index_name, key_of, Storage, delete_entries, insert_entries, Session, on_db,
  append_write_record,
}

-- The fields of `TabMeta` that the executors use.
pub record TabMeta : Type 0 where
  pub name : List ℕ
  pub cols : List ColMeta
  pub indexes : List IndexMeta

unfoldable pub raw_of : ColMeta → Option Value → Result (List ℕ)
unfolding init_raw
raw_of col none = throw Error.incompatible_type_error
raw_of col (some v) = init_raw col.len v

module _ (to_float : ℤ → List ℕ) where
  pub put_value : ColMeta → Result (List ℕ) → List ℕ → Result (List ℕ)
  unfolding write
  put_value col (ok raw) rec = ok (write col.offset raw rec)
  put_value col (throw e) rec = throw e

  -- The loop of the insertion that fills the record. A value of the column's own type is cast to itself.
  unfoldable pub fill_record : List ColMeta → List Value → Result (List ℕ) → Result (List ℕ)
  unfolding cast_to raw_of put_value
  fill_record (col ∷ cols) (v ∷ vs) (ok rec) =
      fill_record cols vs (put_value col (raw_of col (cast_to to_float col.type v)) rec)
  fill_record _ _ r = r

  module _ {W : Type 0} (D : Storage W) (tab : TabMeta) where
    pub refuse : Option Rid → M W (Unit {0})
    refuse none = return tt
    refuse (some rid) = raise Error.duplicate_value

    -- The test of every index for the key.
    unfoldable pub check_unique : List IndexMeta → List ℕ → M W (Unit {0})
    unfolding get_index_name key_of refuse
    check_unique [] rec = return tt
    check_unique (ix ∷ ixs) rec = do
      found ← D.get_value (get_index_name tab.name ix) (key_of ix.cols rec)
      refuse found
      check_unique ixs rec

    pub built : Result (List ℕ) → M (Session W) (List ℕ)
    built (ok rec) = return rec
    built (throw e) = raise e

    unfoldable pub insert_next : ℕ → List Value → M (Session W) (Unit {0})
    unfolding fill_record check_unique built
    insert_next record_size values = do
      on_db (D.lock_exclusive_on_table tab.name)
      rec ← built (fill_record tab.cols values (ok (zeros record_size)))
      on_db (check_unique tab.indexes rec)
      rid ← on_db (D.insert_record tab.name rec)
      append_write_record
          (record { wtype = WType.insert_tuple; tab_name = tab.name; rid = rid; old_value = [] })
      on_db (insert_entries D tab.name tab.indexes rec rid)

    -- The constructor, and then `Next`.
    unfoldable pub insert_values : ℕ → List Value → M (Session W) (Unit {0})
    unfolding insert_next
    insert_values record_size values =
        if length values == length tab.cols
        then insert_next record_size values
        else raise Error.invalid_value_count_error

    -- The body of the deletion's loop.
    unfoldable pub delete_one : Rid → M (Session W) (Unit {0})
    delete_one rid = do
      rec ← on_db (D.get_record tab.name rid)
      append_write_record
          (record { wtype = WType.delete_tuple; tab_name = tab.name; rid = rid; old_value = rec })
      on_db (delete_entries D tab.name tab.indexes rec)
      on_db (D.delete_record tab.name rid)

    unfoldable pub delete_all : List Rid → M (Session W) (Unit {0})
    unfolding delete_one
    delete_all [] = return tt
    delete_all (rid ∷ rids) = do delete_one rid; delete_all rids

    unfoldable pub delete_next : List Rid → M (Session W) (Unit {0})
    unfolding delete_all
    delete_next rids = do on_db (D.lock_exclusive_on_table tab.name); delete_all rids
