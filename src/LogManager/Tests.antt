-- ===== src/LogManager/Tests.antt =====
-- A log of a begin record and an insertion, over a file in memory.
use claude_opus.Base.{ℕ, ℤ, pos, List, [], ◌∷◌, ◌++◌, refl, arith}
use claude_opus.Disk.{Os, DiskManager, whole, short}
use claude_opus.LogRecord.{LogRecord, begin_log, insert_log}
use claude_opus.LogRecord.Size.{serialize-IsSized}
use claude_opus.LogManager.{Logged, new_log_manager, is_full, append, add_log_to_buffer}
use claude_opus.LogManager.Buffer.{Added, Fits, add_log_to_buffer-Added, add_log_to_buffer-Fits}

-- Pages cannot be read back, and the log grows.
abbrev log_file : Os (Unit {0})
log_file = record {
  World = List ℕ;
  read = λ w id. short;
  write = λ w id d. (w, short);
  append_log = λ w bs. (w ++ bs, whole tt);
  log_bytes = λ w. w;
  read-write = λ w id j d h. cc;
  log_bytes-write = λ w id d. refl;
  read-append_log = λ w bs j. refl;
  log_bytes-append_log = λ w bs h. refl;
}

disk : DiskManager log_file
disk = record { world = []; fd2pageno = λ _. pos 0 }

begun : Logged log_file ℤ
begun = add_log_to_buffer log_file new_log_manager disk (begin_log (pos 1))

insertion : LogRecord
insertion = insert_log (pos 1) (7 ∷ 8 ∷ []) (record { page_no = pos 1; slot_no = pos 0 }) (116 ∷ [])

add_log_to_buffer-Added_example :
    Added log_file begun.0 begun.1 insertion (add_log_to_buffer log_file begun.0 begun.1 insertion)
unfolding begun insertion disk new_log_manager add_log_to_buffer begin_log insert_log is_full append
add_log_to_buffer-Added_example =
    add_log_to_buffer-Added log_file begun.0 begun.1 insertion (pos 1) refl

begun-Fits : Fits log_file begun.0
unfolding begun disk new_log_manager begin_log
begun-Fits =
    add_log_to_buffer-Fits log_file new_log_manager disk (begin_log (pos 1)) (refl, omega arith)
      (serialize-IsSized (pos 1) [] [] [] (record { page_no = pos 1; slot_no = pos 0 })).0
      (omega arith)

add_log_to_buffer-Fits_example :
    Fits log_file (add_log_to_buffer log_file begun.0 begun.1 insertion).0
unfolding insertion insert_log
add_log_to_buffer-Fits_example =
    add_log_to_buffer-Fits log_file begun.0 begun.1 insertion begun-Fits
      (serialize-IsSized (pos 1) (7 ∷ 8 ∷ []) [] (116 ∷ [])
        (record { page_no = pos 1; slot_no = pos 0 })).3
      (omega arith)
