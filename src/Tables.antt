-- ===== src/Tables.antt =====
-- The tables and indexes of a database as the executors and the transaction manager use them: an
-- interface of the calls of the record files, the indexes and the lock manager, of which nothing is
-- asked, and the loops over a table's indexes that the clients share. A table and an index
-- stand under their names (`fhs_`, `ihs_`); a missing one is part of the calls.
pub mod Small
use claude_opus.Base.{
  ◌≡◌, ◌≢◌, ℕ, Bool, true, false, ◌&&◌, ◌||◌, ite, if◌then◌else◌, Option, none, some, List, [], ◌∷◌,
  ◌++◌, All, read,
}
use claude_opus.Errors.{Error, Result, ok}
use claude_opus.Calls.{M, ◌>>=◌, ◌>>◌, return, raise}
use claude_opus.Txn.{Rid, Rid-discrete, WriteRecord}
use claude_opus.Common.{ColMeta, name_eq}

-- `IndexMeta` of system/sm_meta.h; the numbers and lengths follow from the columns.
pub record IndexMeta : Type 0 where
  pub cols : List ColMeta

abbrev add_names : List ColMeta → List ℕ
add_names [] = 46 ∷ 105 ∷ 100 ∷ 120 ∷ []
add_names (c ∷ cs) = 95 ∷ (c.name ++ add_names cs)

-- `get_index_name` of index/ix_manager.h: the table's name, "_" and the name of every column, ".idx".
unfoldable pub get_index_name : List ℕ → IndexMeta → List ℕ
get_index_name tab_name ix = tab_name ++ add_names ix.cols

-- The columns of a record that make a key, one behind another.
unfoldable pub key_of : List ColMeta → List ℕ → List ℕ
key_of [] rec = []
key_of (c ∷ cs) rec = read c.offset c.len rec ++ key_of cs rec

pub record Storage (W : Type 0) : Type 0 where
  pub lock_exclusive_on_table : List ℕ → M W (Unit {0})
  pub get_record : List ℕ → Rid → M W (List ℕ)
  pub insert_record : List ℕ → List ℕ → M W Rid
  pub insert_record_at : List ℕ → Rid → List ℕ → M W (Unit {0})
  pub delete_record : List ℕ → Rid → M W (Unit {0})
  pub update_record : List ℕ → Rid → List ℕ → M W (Unit {0})
  pub get_value : List ℕ → List ℕ → M W (Option Rid)
  pub insert_entry : List ℕ → List ℕ → Rid → M W (Unit {0})
  pub delete_entry : List ℕ → List ℕ → M W (Unit {0})

module _ {W : Type 0} (D : Storage W) (tab_name : List ℕ) where
  -- The loops over a table's indexes, with the key of one record.
  unfoldable pub delete_entries : List IndexMeta → List ℕ → M W (Unit {0})
  unfolding get_index_name key_of
  delete_entries [] rec = return tt
  delete_entries (ix ∷ ixs) rec = do
    D.delete_entry (get_index_name tab_name ix) (key_of ix.cols rec)
    delete_entries ixs rec

  unfoldable pub insert_entries : List IndexMeta → List ℕ → Rid → M W (Unit {0})
  unfolding get_index_name key_of
  insert_entries [] rec rid = return tt
  insert_entries (ix ∷ ixs) rec rid = do
    D.insert_entry (get_index_name tab_name ix) (key_of ix.cols rec) rid
    insert_entries ixs rec rid

unfoldable pub rid_eq : Rid → Rid → Bool
unfolding Rid-discrete
rid_eq x y = ite (Rid-discrete x y) true false

-- The database and the running transaction's write set, its last record in front.
pub record Session (W : Type 0) : Type 0 where
  pub db : W
  pub write_set : List WriteRecord

unfoldable pub with_db :
    {W A : Type 0} → Session W → Option (W × Result A) → Option (Session W × Result A)
with_db s none = none
with_db s (some (w, r)) = some (record s { db = w }, r)

unfoldable pub on_db : {W A : Type 0} → M W A → M (Session W) A
unfolding with_db
on_db m s = with_db s (m s.db)

-- `append_write_record`.
unfoldable pub append_write_record : {W : Type 0} → WriteRecord → M (Session W) (Unit {0})
append_write_record r s = some (record s { write_set = r ∷ s.write_set }, ok tt)
