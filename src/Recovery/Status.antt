-- ===== src/Recovery/Status.antt =====
-- Which transactions recovery takes for ended, against a description that reads the log from its end.
use claude_opus.Base.{
  ◌≡◌, refl, ℤ, ℤ-discrete, ite, Bool, true, false, ◌||◌, ◌&&◌, ◌≤ℤ◌, All, not, Option, none, some,
  arith, List, [], ◌∷◌,
}
use claude_opus.LogRecord.{LogType, LogRecord, header, log_type}
use claude_opus.Recovery.{Analysis, note_record, note_txn, note_lsn, no_analysis, is_undone}
use claude_opus.Recovery.Scan.{note_all}

-- What a record says of its own transaction: that it runs, or that it has ended.
abbrev pub control : LogType → Option Bool
control LogType.begin = some true
control LogType.commit = some false
control LogType.abort = some false
control _ = none

abbrev pub or_else : Option Bool → Option Bool → Option Bool
or_else (some b) o = some b
or_else none o = o

-- The last such record of a transaction.
abbrev pub last_control : ℤ → List LogRecord → Option Bool
last_control t [] = none
last_control t (r ∷ rs) =
    or_else (last_control t rs) (ite (ℤ-discrete t (header r).log_tid) (control (log_type r)) none)

-- Whether the log has a record of a transaction that the test accepts.
abbrev pub has : (LogType → Bool) → ℤ → List LogRecord → Bool
has p t [] = false
has p t (r ∷ rs) = ite (ℤ-discrete t (header r).log_tid) (p (log_type r)) false || has p t rs

abbrev pub is_change : LogType → Bool
is_change LogType.insert = true
is_change LogType.delete = true
is_change LogType.update = true
is_change _ = false

abbrev pub is_commit : LogType → Bool
is_commit LogType.commit = true
is_commit _ = false

abbrev pub is_abort : LogType → Bool
is_abort LogType.abort = true
is_abort _ = false

abbrev pub or_changed : Option Bool → Bool → Bool
or_changed (some b) c = b
or_changed none c = c

-- One record.
note_record-sets :
    (r : LogRecord) (a : Analysis) (t : ℤ)
    → ((note_record r a).committed_txns t ≡ (
        ite (ℤ-discrete t (header r).log_tid) (is_commit (log_type r)) false || a.committed_txns t))
      × ((note_record r a).aborted_txns t ≡ (
          ite (ℤ-discrete t (header r).log_tid) (is_abort (log_type r)) false || a.aborted_txns t))
      × ((note_record r a).active_txns t
          ≡ or_changed (ite (ℤ-discrete t (header r).log_tid) (control (log_type r)) none) (
              a.active_txns t
              || (ite (ℤ-discrete t (header r).log_tid) (is_change (log_type r)) false
                  && not (a.committed_txns t || a.aborted_txns t))))
unfolding note_record note_txn note_lsn
note_record-sets (LogRecord.begin_record h) a t = ground arith
note_record-sets (LogRecord.commit_record h) a t = ground arith
note_record-sets (LogRecord.abort_record h) a t = ground arith
note_record-sets (LogRecord.insert_record h v r n) a t = ground arith
note_record-sets (LogRecord.delete_record h v r n) a t = ground arith
note_record-sets (LogRecord.update_record h v w r n) a t = ground arith

note_all-sets :
    (rs : List LogRecord) (a : Analysis) (t : ℤ)
    → ((note_all rs a).committed_txns t ≡ (has is_commit t rs || a.committed_txns t))
      × ((note_all rs a).aborted_txns t ≡ (has is_abort t rs || a.aborted_txns t))
      × ((note_all rs a).active_txns t
          ≡ or_changed (last_control t rs) (
              a.active_txns t
              || (has is_change t rs && not (a.committed_txns t || a.aborted_txns t))))
note_all-sets [] a t = (refl, refl, ground arith)
note_all-sets (r ∷ rs) a t =
    let (c, b, d) = note_record-sets r a t in
    let (c', b', d') = note_all-sets rs (note_record r a) t in
    (ground arith, ground arith, ground arith)

-- From nothing, `analyze` takes a transaction for running exactly if the last record that says so is
-- its begin record, and not its commit or abort record, or if there is none and the log has a change
-- of it. What `undo` goes back over are the changes of these transactions and of those with an
-- abort record.
pub note_all-status :
    (rs : List LogRecord) (t : ℤ)
    → ((note_all rs no_analysis).active_txns t
        ≡ or_changed (last_control t rs) (has is_change t rs))
      × (is_undone (note_all rs no_analysis) t
          ≡ (or_changed (last_control t rs) (has is_change t rs) || has is_abort t rs))
unfolding no_analysis is_undone
note_all-status rs t =
    let (c, b, d) = note_all-sets rs no_analysis t in (ground arith, ground arith)

note_record-max_lsn :
    (r : LogRecord) (a : Analysis)
    → ((header r).lsn ≤ℤ (note_record r a).max_lsn) × (a.max_lsn ≤ℤ (note_record r a).max_lsn)
unfolding note_record note_txn note_lsn
note_record-max_lsn (LogRecord.begin_record h) a = ground arith
note_record-max_lsn (LogRecord.commit_record h) a = ground arith
note_record-max_lsn (LogRecord.abort_record h) a = ground arith
note_record-max_lsn (LogRecord.insert_record h v r n) a = ground arith
note_record-max_lsn (LogRecord.delete_record h v r n) a = ground arith
note_record-max_lsn (LogRecord.update_record h v w r n) a = ground arith

note_all-max_lsn :
    (rs : List LogRecord) (a : Analysis)
    → (a.max_lsn ≤ℤ (note_all rs a).max_lsn)
      × All (λ r. (header r).lsn ≤ℤ (note_all rs a).max_lsn) rs
note_all-max_lsn [] a = (omega arith, tt)
note_all-max_lsn (r ∷ rs) a =
    let (l, m) = note_record-max_lsn r a in
    let (n, h) = note_all-max_lsn rs (note_record r a) in (omega arith, (omega arith, h))
