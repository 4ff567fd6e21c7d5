-- ===== src/Recovery.antt =====
-- Crash recovery's first pass: `analyze` of recovery/log_recovery.cpp, which reads the log back and
-- finds the transactions that had not ended. A set of transactions is its membership test.
use claude_opus.Base.{
  ℕ, zero, suc, ◌+◌, ◌^◌, ℤ, negsuc, ℤ-discrete, suc_ℤ, ltb_ℤ, Bool, true, false, ◌||◌, not, ltb,
  if◌then◌else◌, ite, Option, none, some, List, [], ◌∷◌, ◌++◌, length, drop,
}
use claude_opus.LogRecord.{LogType, LogRecord, Header, header, log_type, get_le, log_header_size}
use claude_opus.LogRecord.Parse.{at_tot_len, get_type, deserialize}
use claude_opus.LogManager.{LogManager}
pub mod Scan
pub mod Status
pub mod Durable
mod Tests

-- What `analyze` fills in, its local `max_lsn` included.
pub record Analysis : Type 0 where
  pub log_records : List LogRecord
  pub committed_txns : ℤ → Bool
  pub active_txns : ℤ → Bool
  pub aborted_txns : ℤ → Bool
  pub max_lsn : ℤ

abbrev pub invalid_lsn : ℤ
invalid_lsn = negsuc 0

pub no_analysis : Analysis
no_analysis = record {
  log_records = [];
  committed_txns = λ _. false;
  active_txns = λ _. false;
  aborted_txns = λ _. false;
  max_lsn = invalid_lsn;
}

-- `insert` and `erase`.
abbrev pub put_txn : ℤ → Bool → (ℤ → Bool) → ℤ → Bool
put_txn t b s u = ite (ℤ-discrete u t) b (s u)

-- The sets of transactions after a record.
unfoldable pub note_txn : LogType → ℤ → Analysis → Analysis
unfolding ℤ-discrete
note_txn LogType.begin t a = record a { active_txns = put_txn t true a.active_txns }
note_txn LogType.commit t a = record a {
  active_txns = put_txn t false a.active_txns;
  committed_txns = put_txn t true a.committed_txns;
}
note_txn LogType.abort t a = record a {
  active_txns = put_txn t false a.active_txns;
  aborted_txns = put_txn t true a.aborted_txns;
}
note_txn _ t a =
    if a.committed_txns t || a.aborted_txns t
    then a
    else record a { active_txns = put_txn t true a.active_txns }

unfoldable pub note_lsn : ℤ → Analysis → Analysis
note_lsn lsn a = if ltb_ℤ a.max_lsn lsn then record a { max_lsn = lsn } else a

-- The loop's body for a record that was read.
unfoldable pub note_record : LogRecord → Analysis → Analysis
unfolding note_txn note_lsn
note_record r a =
    note_txn (log_type r) (header r).log_tid
      (note_lsn (header r).lsn (record a { log_records = a.log_records ++ r ∷ [] }))

-- A code that is no type is skipped.
unfoldable pub read_record : Option LogType → List ℕ → Analysis → Analysis
read_record none rest a = a
read_record (some t) rest a = note_record (deserialize t rest) a

-- A length is compared as an `int`; from 2 ^ 31 on it counts as negative.
unfoldable pub is_too_long : ℕ → List ℕ → Bool
is_too_long len rest = if ltb len (2 ^ 31) then ltb (length rest) len else false

-- The loop over the log from an offset on, by the bytes that are left.
unfoldable pub scan : ℕ → List ℕ → Analysis → Analysis
unfolding read_record
scan zero rest a = a
scan (suc n) rest a =
    let len = get_le 4 (at_tot_len rest) in
    let more = scan n (drop len rest) (read_record (get_type rest) rest a) in
    if ltb (length rest) log_header_size
    then a
    else if ltb len log_header_size || is_too_long len rest
    then a
    else more

pub record RecoveryManager : Type 0 where
  pub analysis : Analysis
  pub log_manager : Option LogManager

-- The log manager goes on after the greatest number in the log.
unfoldable pub resume : ℤ → Option LogManager → Option LogManager
unfolding ℤ-discrete
resume max_lsn none = none
resume max_lsn (some lm) =
    ite (ℤ-discrete max_lsn invalid_lsn) (some lm)
      (some (record lm { global_lsn = suc_ℤ max_lsn; persist_lsn = max_lsn }))

-- `analyze`, on the bytes of the log file. Each round takes at least a header's bytes.
unfoldable pub analyze : List ℕ → RecoveryManager → RecoveryManager
unfolding scan resume
analyze [] rm = rm
analyze (b ∷ bs) rm =
    let a = scan (length (b ∷ bs)) (b ∷ bs) (record rm.analysis { max_lsn = invalid_lsn }) in
    record { analysis = a; log_manager = resume a.max_lsn rm.log_manager }

-- The records that `undo` goes back over.
unfoldable pub is_undone : Analysis → ℤ → Bool
is_undone a t = a.active_txns t || a.aborted_txns t
