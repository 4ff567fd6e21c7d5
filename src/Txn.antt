-- ===== src/Txn.antt =====
-- Transactions and what they lock: transaction/txn_defs.h and transaction/transaction.h, and the
-- record identifier of defs.h.
use claude_opus.Base.{ℕ, ℤ, ℤ-discrete, negsuc, Bool, true, false, List, [], ◌∷◌, ite}

-- `Rid` of defs.h.
pub record Rid : Type 0 where
  pub page_no : ℤ
  pub slot_no : ℤ

unfoldable pub Rid-discrete : Discrete Rid
unfolding ℤ-discrete
Rid-discrete = hlevel ℤ-discrete

pub data TransactionState : Type 0 where
  default growing shrinking committed aborted : TransactionState

unfoldable pub TransactionState-discrete : Discrete TransactionState
TransactionState-discrete = hlevel

pub data LockDataType : Type 0 where
  table row : LockDataType

pub record LockDataId : Type 0 where
  pub fd : ℤ
  pub rid : Rid
  pub type : LockDataType

LockDataType-discrete : Discrete LockDataType
LockDataType-discrete = hlevel

-- `operator==`.
unfoldable pub LockDataId-discrete : Discrete LockDataId
unfolding ℤ-discrete Rid-discrete LockDataType-discrete
LockDataId-discrete = hlevel (ℤ-discrete, Rid-discrete, LockDataType-discrete)

-- The two constructors of `LockDataId`.
abbrev pub table_id : ℤ → LockDataId
table_id fd = record {
  fd = fd;
  rid = record { page_no = negsuc 0; slot_no = negsuc 0 };
  type = table;
}

abbrev pub record_id : ℤ → Rid → LockDataId
record_id fd rid = record { fd = fd; rid = rid; type = row }

pub data AbortReason : Type 0 where
  lock_on_shirinking upgrade_conflict deadlock_prevention : AbortReason

pub data WType : Type 0 where
  insert_tuple delete_tuple update_tuple : WType

-- A change to be undone: for a deletion or an update with the record that was there.
pub record WriteRecord : Type 0 where
  pub wtype : WType
  pub tab_name : List ℕ
  pub rid : Rid
  pub old_value : List ℕ

-- The fields of `Transaction` that two-phase locking and the log use.
pub record Transaction : Type 0 where
  pub txn_id : ℕ
  pub state : TransactionState
  pub lock_set : List LockDataId
  pub prev_lsn : ℤ
  pub start_ts : ℕ
  pub write_set : List WriteRecord

-- The constructor, and the time that `begin` gives it.
abbrev pub new_transaction : ℕ → ℕ → Transaction
new_transaction txn_id start_ts = record {
  txn_id = txn_id;
  state = default;
  lock_set = [];
  prev_lsn = negsuc 0;
  start_ts = start_ts;
  write_set = [];
}

-- `std::unordered_set`: `count`, `insert` and `erase`.
unfoldable pub contains : LockDataId → List LockDataId → Bool
contains id [] = false
contains id (x ∷ xs) = ite (LockDataId-discrete x id) true (contains id xs)

unfoldable pub insert : LockDataId → List LockDataId → List LockDataId
insert id xs = elim (contains id xs) [ true ↦ xs | false ↦ id ∷ xs ]

unfoldable pub erase : LockDataId → List LockDataId → List LockDataId
erase id [] = []
erase id (x ∷ xs) = ite (LockDataId-discrete x id) (erase id xs) (x ∷ erase id xs)
