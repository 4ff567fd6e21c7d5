-- ===== src/Tables/Small.antt =====
-- A storage in memory, in which no call throws but for a missing row: the rows and entries are
-- functions, and there is a number from which on a table's positions are free.
use claude_opus.Base.{ℕ, suc, ◌+◌, ◌&&◌, if◌then◌else◌, pos, pos_part, Option, none, some, List}
use claude_opus.Errors.{Error, ok, throw}
use claude_opus.Calls.{M, return}
use claude_opus.Txn.{Rid}
use claude_opus.Common.{name_eq}
use claude_opus.Tables.{Storage, rid_eq}

abbrev pub place : ℕ → Rid
place n = record { page_no = pos 1; slot_no = pos n }

pub record Small : Type 0 where
  pub rows : List ℕ → Rid → Option (List ℕ)
  pub entries : List ℕ → List ℕ → Option Rid
  pub next : ℕ

with_row : List ℕ → Rid → Option (List ℕ) → Small → Small
unfolding rid_eq
with_row t rid o s = record s {
  rows = λ t' rid'. if name_eq t' t && rid_eq rid' rid then o else s.rows t' rid';
  next = s.next + suc (pos_part rid.slot_no);
}

with_entry : List ℕ → List ℕ → Option Rid → Small → Small
with_entry ix key o s = record s {
  entries = λ ix' key'. if name_eq ix' ix && name_eq key' key then o else s.entries ix' key';
}

found : {W : Type 0} → Rid → Option (List ℕ) → M W (List ℕ)
found rid none w = some (w, throw (Error.record_not_found_error rid.page_no rid.slot_no))
found rid (some r) w = some (w, ok r)

unfoldable pub small_storage : Storage Small
unfolding with_row with_entry found
small_storage = record {
  lock_exclusive_on_table = λ t. return tt;
  get_record = λ t rid s. found rid (s.rows t rid) s;
  insert_record = λ t r s. some (with_row t (place s.next) (some r) s, ok (place s.next));
  insert_record_at = λ t rid r s. some (with_row t rid (some r) s, ok tt);
  delete_record = λ t rid s. some (with_row t rid none s, ok tt);
  update_record = λ t rid r s. some (with_row t rid (some r) s, ok tt);
  get_value = λ ix key s. some (s, ok (s.entries ix key));
  insert_entry = λ ix key rid s. some (with_entry ix key (some rid) s, ok tt);
  delete_entry = λ ix key s. some (with_entry ix key none s, ok tt);
}
