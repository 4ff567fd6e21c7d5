-- ===== src/Recovery/Tests.antt =====
-- A log of a transaction that begins, inserts a row and commits, written and read back.
use claude_opus.Base.{
  ℕ, ℤ, pos, negsuc, List, [], ◌∷◌, ◌++◌, refl, arith, ◌≡◌, All, none, some, ◌||◌,
}
use claude_opus.Disk.{Os, DiskManager, whole, short, write_log}
use claude_opus.LogRecord.{
  LogRecord, LogType, begin_log, insert_log, serialize, put_le, put_int32, put_int64, put_rid,
  to_word, serialize_header,
}
use claude_opus.LogRecord.Parse.{get_type, deserialize}
use claude_opus.LogRecord.RoundTrip.{IsHeader, deserialize-serialize}
use claude_opus.LogManager.{
  Logged, new_log_manager, is_full, append, add_log_to_buffer, flush_log_to_disk,
}
use claude_opus.LogManager.Buffer.{numbered}
use claude_opus.Recovery.{RecoveryManager, analyze, no_analysis, is_undone}
use claude_opus.Recovery.Scan.{IsWritten, note_all}
use claude_opus.Recovery.Status.{
  or_changed, last_control, has, is_change, is_abort, note_all-status,
}
use claude_opus.Recovery.Durable.{Adds, analyze-flushed}

abbrev log_file : Os (Unit {0})
log_file = record {
  World = List ℕ;
  read = λ w id. short;
  write = λ w id d. (w, short);
  append_log = λ w bs. (w ++ bs, whole tt);
  log_bytes = λ w. w;
  read-write = λ w id j d h. cc;
  log_bytes-write = λ w id d. refl;
  read-append_log = λ w bs j. refl;
  log_bytes-append_log = λ w bs h. refl;
}

disk : DiskManager log_file
disk = record { world = []; fd2pageno = λ _. pos 0 }

insertion : LogRecord
insertion = insert_log (pos 1) (7 ∷ 8 ∷ []) (record { page_no = pos 1; slot_no = pos 0 }) (116 ∷ [])

first : Logged log_file ℤ
first = add_log_to_buffer log_file new_log_manager disk (begin_log (pos 1))

second : Logged log_file ℤ
second = add_log_to_buffer log_file first.0 first.1 insertion

-- The two records as they enter the log.
written : List LogRecord
written =
    ([] ++ numbered log_file new_log_manager (begin_log (pos 1)) ∷ [])
    ++ numbered log_file first.0 insertion ∷ []

-- Everything that the two calls compute with.
program : Unit {0}
unfolding disk insertion first second written new_log_manager begin_log insert_log add_log_to_buffer
    append is_full serialize serialize_header put_le put_int32 put_int64 put_rid to_word
    flush_log_to_disk write_log
program = tt

begin-IsHeader :
    IsHeader (record { lsn = pos 0; log_tot_len = 24; log_tid = pos 1; prev_lsn = negsuc 0 })
begin-IsHeader = record {
  lsn = omega arith;
  log_tot_len = omega arith;
  log_tid = omega arith;
  prev_lsn = omega arith;
}

insert-IsHeader :
    IsHeader (record { lsn = pos 1; log_tot_len = 47; log_tid = pos 1; prev_lsn = negsuc 0 })
insert-IsHeader = record {
  lsn = omega arith;
  log_tot_len = omega arith;
  log_tid = omega arith;
  prev_lsn = omega arith;
}

written-IsWritten : All IsWritten written
unfolding program
written-IsWritten = (
  (begin-IsHeader, refl, omega arith),
  (
    ((insert-IsHeader, omega arith, (omega arith, omega arith), omega arith), refl, omega arith),
    tt,
  ),
)

two_records : Adds log_file new_log_manager disk written second.0 second.1
unfolding program
two_records =
    Adds.add insertion (pos 1)
      (Adds.add (begin_log (pos 1)) (pos 0) Adds.start refl (omega arith) refl) refl (omega arith)
      refl

nothing : RecoveryManager
nothing = record { analysis = no_analysis; log_manager = none }

analyze-flushed_example :
    (analyze (flush_log_to_disk log_file second.0 second.1).1.world nothing).analysis.log_records
    ≡ no_analysis.log_records ++ written
unfolding program nothing
analyze-flushed_example =
    analyze-flushed log_file disk written second.0 second.1 nothing refl two_records refl
      written-IsWritten

deserialize-serialize_example :
    (get_type (serialize insertion ++ 1 ∷ 2 ∷ []) ≡ some LogType.insert)
    × (deserialize LogType.insert (serialize insertion ++ 1 ∷ 2 ∷ []) ≡ insertion)
unfolding insertion insert_log
deserialize-serialize_example = deserialize-serialize insertion (1 ∷ 2 ∷ []) (
  record {
    lsn = omega arith;
    log_tot_len = omega arith;
    log_tid = omega arith;
    prev_lsn = omega arith;
  },
  omega arith,
  (omega arith, omega arith),
  omega arith,
)

note_all-status_example :
    ((note_all written no_analysis).active_txns (pos 1)
      ≡ or_changed (last_control (pos 1) written) (has is_change (pos 1) written))
    × (is_undone (note_all written no_analysis) (pos 1) ≡ (
        or_changed (last_control (pos 1) written) (has is_change (pos 1) written)
        || has is_abort (pos 1) written))
note_all-status_example = note_all-status written (pos 1)
