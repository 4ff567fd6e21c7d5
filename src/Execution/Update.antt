-- ===== src/Execution/Update.antt =====
-- `UpdateExecutor` of execution/executor_update.h: its `Next`, which changes rows of a table, their
-- entries and the transaction's write set.
use claude_opus.Base.{
  ℕ, ℤ, Bool, true, false, ◌||◌, if◌then◌else◌, Option, none, some, List, [], ◌∷◌, write,
}
use claude_opus.Errors.{Error, Result, ok, throw}
use claude_opus.Calls.{M, ◌>>=◌, ◌>>◌, return, raise}
use claude_opus.Txn.{Rid, WType}
use claude_opus.Common.{ColMeta, name_eq}
use claude_opus.Common.Value.{Value, cast_to}
use claude_opus.Tables.{
  IndexMeta, get_index_name, key_of, Storage, delete_entries, insert_entries, rid_eq, Session,
  on_db, append_write_record,
}
use claude_opus.Execution.Modify.{TabMeta, raw_of}

-- `SetClause`: the column's name and the value.
pub record SetClause : Type 0 where
  pub lhs : List ℕ
  pub rhs : Value

-- A column of the table with the bytes that it is set to.
pub record Assigned : Type 0 where
  pub col : ColMeta
  pub raw : List ℕ

-- `TabMeta::get_col`.
unfoldable pub find_named : List ColMeta → List ℕ → Result ColMeta
find_named [] n = throw (Error.column_not_found_error n)
find_named (c ∷ cs) n = if name_eq c.name n then ok c else find_named cs n

-- The bytes are put over the record's, column by column.
unfoldable pub apply_sets : List Assigned → List ℕ → List ℕ
apply_sets [] rec = rec
apply_sets (a ∷ rest) rec = apply_sets rest (write a.col.offset a.raw rec)

-- A row's key in an index behind the update.
unfoldable pub new_key : List Assigned → IndexMeta → List ℕ → List ℕ
unfolding key_of apply_sets
new_key sets ix rec = key_of ix.cols (apply_sets sets rec)

abbrev pub has_name : List ℕ → List (List ℕ) → Bool
has_name n [] = false
has_name n (m ∷ ms) = name_eq n m || has_name n ms

abbrev pub has_rid : Rid → List Rid → Bool
has_rid r [] = false
has_rid r (x ∷ xs) = rid_eq x r || has_rid r xs

-- Whether an entry that is there is one of the rows that are updated.
abbrev pub is_own : List Rid → Option Rid → Bool
is_own rids none = true
is_own rids (some r) = has_rid r rids

pub lifted : {S A : Type 0} → Result A → M S A
lifted (ok a) = return a
lifted (throw e) = raise e

module _ (to_float : ℤ → List ℕ) where
  pub with_raw : ColMeta → Result (List ℕ) → Result Assigned
  with_raw col (ok raw) = ok (record { col = col; raw = raw })
  with_raw col (throw e) = throw e

  pub assigned : Value → Result ColMeta → Result Assigned
  unfolding with_raw cast_to raw_of
  assigned v (throw e) = throw e
  assigned v (ok col) = with_raw col (raw_of col (cast_to to_float col.type v))

  pub cons_assigned : Result Assigned → Result (List Assigned) → Result (List Assigned)
  cons_assigned (throw e) rest = throw e
  cons_assigned (ok a) (throw e) = throw e
  cons_assigned (ok a) (ok rest) = ok (a ∷ rest)

  -- The loop that makes the bytes of every clause's value.
  unfoldable pub assignments : List ColMeta → List SetClause → Result (List Assigned)
  unfolding find_named assigned cons_assigned
  assignments cols [] = ok []
  assignments cols (c ∷ cs) =
      cons_assigned (assigned c.rhs (find_named cols c.lhs)) (assignments cols cs)

module _ {W : Type 0} (D : Storage W) (tab : TabMeta) (sets : List Assigned) (rids : List Rid) where
  pub refuse_unless : Bool → M W (Unit {0})
  refuse_unless true = return tt
  refuse_unless false = raise Error.duplicate_value

  pub refuse_seen : Bool → M W (Unit {0})
  refuse_seen true = raise Error.duplicate_value
  refuse_seen false = return tt

  -- The test of one index: `seen` are the new keys of the rows before.
  unfoldable pub check_rows : IndexMeta → List (List ℕ) → List Rid → M W (Unit {0})
  unfolding get_index_name new_key refuse_unless refuse_seen rid_eq
  check_rows ix seen [] = return tt
  check_rows ix seen (rid ∷ rest) = do
    rec ← D.get_record tab.name rid
    refuse_seen (has_name (new_key sets ix rec) seen)
    found ← D.get_value (get_index_name tab.name ix) (new_key sets ix rec)
    refuse_unless (is_own rids found)
    check_rows ix (new_key sets ix rec ∷ seen) rest

  unfoldable pub check_indexes : List IndexMeta → M W (Unit {0})
  unfolding check_rows
  check_indexes [] = return tt
  check_indexes (ix ∷ ixs) = do check_rows ix [] rids; check_indexes ixs

module _ {W : Type 0} (D : Storage W) (tab : TabMeta) (sets : List Assigned) where
  -- The body of the loop over the rows.
  unfoldable pub update_one : Rid → M (Session W) (Unit {0})
  unfolding apply_sets
  update_one rid = do
    rec ← on_db (D.get_record tab.name rid)
    append_write_record
        (record { wtype = WType.update_tuple; tab_name = tab.name; rid = rid; old_value = rec })
    on_db (delete_entries D tab.name tab.indexes rec)
    on_db (D.update_record tab.name rid (apply_sets sets rec))
    on_db (insert_entries D tab.name tab.indexes (apply_sets sets rec) rid)

  unfoldable pub update_all : List Rid → M (Session W) (Unit {0})
  unfolding update_one
  update_all [] = return tt
  update_all (rid ∷ rest) = do update_one rid; update_all rest

unfoldable pub update_next :
    {W : Type 0} (to_float : ℤ → List ℕ) (D : Storage W) (tab : TabMeta)
    → List SetClause
    → List Rid
    → M (Session W) (Unit {0})
unfolding assignments check_indexes update_all lifted
update_next to_float D tab set_clauses rids = do
  on_db (D.lock_exclusive_on_table tab.name)
  sets ← lifted (assignments to_float tab.cols set_clauses)
  on_db (check_indexes D tab sets rids tab.indexes)
  update_all D tab sets rids
