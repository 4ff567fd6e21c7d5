-- ===== src/LogRecord/Parse.antt =====
-- `deserialize` of the log records, and of the value in one (`RmRecord::Deserialize` of
-- record/rm_defs.h). A field's offset is the sum of the sizes before it, as in log_defs.h; bytes past
-- the end read as 0.
use claude_opus.Base.{ℕ, zero, suc, List, Option, none, some, drop, take, pos_part}
use claude_opus.LogRecord.{LogType, Header, LogRecord, get_le, get_int32, get_int64, get_rid}

-- The codes of `LogType`.
abbrev pub type_of : ℕ → Option LogType
type_of zero = some LogType.update
type_of (suc zero) = some LogType.insert
type_of (suc (suc zero)) = some LogType.delete
type_of (suc (suc (suc zero))) = some LogType.begin
type_of (suc (suc (suc (suc zero)))) = some LogType.commit
type_of (suc (suc (suc (suc (suc zero))))) = some LogType.abort
type_of _ = none

-- The bytes from each offset on.
abbrev pub at_lsn : List ℕ → List ℕ
at_lsn bs = drop 4 bs

abbrev pub at_tot_len : List ℕ → List ℕ
at_tot_len bs = drop 4 (at_lsn bs)

abbrev pub at_tid : List ℕ → List ℕ
at_tid bs = drop 4 (at_tot_len bs)

abbrev pub at_prev_lsn : List ℕ → List ℕ
at_prev_lsn bs = drop 8 (at_tid bs)

abbrev pub at_data : List ℕ → List ℕ
at_data bs = drop 4 (at_prev_lsn bs)

unfoldable pub get_type : List ℕ → Option LogType
get_type bs = type_of (get_le 4 bs)

unfoldable pub deserialize_header : List ℕ → Header
deserialize_header bs = record {
  lsn = get_int32 (at_lsn bs);
  log_tot_len = get_le 4 (at_tot_len bs);
  log_tid = get_int64 (at_tid bs);
  prev_lsn = get_int32 (at_prev_lsn bs);
}

-- `RmRecord::Deserialize`, whose size is an `int`, and what follows the value. A negative size, for
-- which `new char[size]` throws, reads as no bytes.
abbrev pub size_at : List ℕ → ℕ
size_at bs = pos_part (get_int32 bs)

unfoldable pub deserialize_value : List ℕ → List ℕ
deserialize_value bs = take (size_at bs) (drop 4 bs)

unfoldable pub after_value : List ℕ → List ℕ
after_value bs = drop (size_at bs) (drop 4 bs)

-- The table's name behind its size.
unfoldable pub deserialize_name : List ℕ → List ℕ
deserialize_name bs = take (get_le 8 bs) (drop 8 bs)

-- The overrides.
abbrev pub deserialize_insert : List ℕ → LogRecord
deserialize_insert bs =
    let rest = after_value (at_data bs) in
    LogRecord.insert_record (deserialize_header bs) (deserialize_value (at_data bs)) (get_rid rest)
      (deserialize_name (drop 8 rest))

abbrev pub deserialize_delete : List ℕ → LogRecord
deserialize_delete bs =
    let rest = after_value (at_data bs) in
    LogRecord.delete_record (deserialize_header bs) (deserialize_value (at_data bs)) (get_rid rest)
      (deserialize_name (drop 8 rest))

abbrev pub deserialize_update : List ℕ → LogRecord
deserialize_update bs =
    let second = after_value (at_data bs) in
    let rest = after_value second in
    LogRecord.update_record (deserialize_header bs) (deserialize_value (at_data bs))
      (deserialize_value second) (get_rid rest) (deserialize_name (drop 8 rest))

unfoldable pub deserialize : LogType → List ℕ → LogRecord
deserialize LogType.begin bs = LogRecord.begin_record (deserialize_header bs)
deserialize LogType.commit bs = LogRecord.commit_record (deserialize_header bs)
deserialize LogType.abort bs = LogRecord.abort_record (deserialize_header bs)
deserialize LogType.insert bs = deserialize_insert bs
deserialize LogType.delete bs = deserialize_delete bs
deserialize LogType.update bs = deserialize_update bs
