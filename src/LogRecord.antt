-- ===== src/LogRecord.antt =====
-- Log records and their bytes: recovery/log_defs.h and the record classes of recovery/log_manager.h.
-- Integers are little-endian two's complement of 4 or 8 bytes; a byte is a number below 256.
use claude_opus.Base.{
  ℕ, zero, suc, ◌+◌, ◌-◌, ◌*◌, ◌/◌, ◌%◌, ◌^◌, ℤ, pos, negsuc, List, [], ◌∷◌, ◌++◌, length, drop,
  ltb, if◌then◌else◌,
}
use claude_opus.Txn.{Rid}
pub mod Size
pub mod Parse
pub mod Words
pub mod RoundTrip

pub data LogType : Type 0 where
  update insert delete begin commit abort : LogType

-- The fields of `LogRecord`.
pub record Header : Type 0 where
  pub lsn : ℤ
  pub log_tot_len : ℕ
  pub log_tid : ℤ
  pub prev_lsn : ℤ

-- One constructor for each subclass; a value is an `RmRecord`'s bytes.
pub data LogRecord : Type 0 where
  begin_record commit_record abort_record : Header → LogRecord
  insert_record delete_record : Header → List ℕ → Rid → List ℕ → LogRecord
  update_record : Header → List ℕ → List ℕ → Rid → List ℕ → LogRecord

abbrev pub header : LogRecord → Header
header (LogRecord.begin_record h) = h
header (LogRecord.commit_record h) = h
header (LogRecord.abort_record h) = h
header (LogRecord.insert_record h v r n) = h
header (LogRecord.delete_record h v r n) = h
header (LogRecord.update_record h v w r n) = h

abbrev pub with_header : Header → LogRecord → LogRecord
with_header h (LogRecord.begin_record _) = LogRecord.begin_record h
with_header h (LogRecord.commit_record _) = LogRecord.commit_record h
with_header h (LogRecord.abort_record _) = LogRecord.abort_record h
with_header h (LogRecord.insert_record _ v r n) = LogRecord.insert_record h v r n
with_header h (LogRecord.delete_record _ v r n) = LogRecord.delete_record h v r n
with_header h (LogRecord.update_record _ v w r n) = LogRecord.update_record h v w r n

abbrev pub log_type : LogRecord → LogType
log_type (LogRecord.begin_record h) = LogType.begin
log_type (LogRecord.commit_record h) = LogType.commit
log_type (LogRecord.abort_record h) = LogType.abort
log_type (LogRecord.insert_record h v r n) = LogType.insert
log_type (LogRecord.delete_record h v r n) = LogType.delete
log_type (LogRecord.update_record h v w r n) = LogType.update

abbrev pub type_code : LogType → ℕ
type_code LogType.update = 0
type_code LogType.insert = 1
type_code LogType.delete = 2
type_code LogType.begin = 3
type_code LogType.commit = 4
type_code LogType.abort = 5

abbrev pub log_header_size : ℕ
log_header_size = 24

abbrev fresh : ℤ → ℕ → Header
fresh tid len = record { lsn = negsuc 0; log_tot_len = len; log_tid = tid; prev_lsn = negsuc 0 }

-- The constructors.
unfoldable pub begin_log : ℤ → LogRecord
begin_log tid = LogRecord.begin_record (fresh tid log_header_size)

unfoldable pub commit_log : ℤ → LogRecord
commit_log tid = LogRecord.commit_record (fresh tid log_header_size)

unfoldable pub abort_log : ℤ → LogRecord
abort_log tid = LogRecord.abort_record (fresh tid log_header_size)

unfoldable pub insert_log : ℤ → List ℕ → Rid → List ℕ → LogRecord
insert_log tid v rid name =
    LogRecord.insert_record (fresh tid (log_header_size + 4 + length v + 8 + (8 + length name))) v
      rid name

unfoldable pub delete_log : ℤ → List ℕ → Rid → List ℕ → LogRecord
delete_log tid v rid name =
    LogRecord.delete_record (fresh tid (log_header_size + 4 + length v + 8 + (8 + length name))) v
      rid name

unfoldable pub update_log : ℤ → List ℕ → List ℕ → Rid → List ℕ → LogRecord
update_log tid v w rid name =
    LogRecord.update_record
      (fresh tid (log_header_size + (4 + length v) + (4 + length w) + 8 + (8 + length name))) v w
      rid name

-- `k` bytes of an unsigned number, and the number that bytes stand for.
unfoldable pub put_le : ℕ → ℕ → List ℕ
put_le zero w = []
put_le (suc k) w = w % 256 ∷ put_le k (w / 256)

unfoldable pub get_le : ℕ → List ℕ → ℕ
get_le zero bs = 0
get_le (suc k) [] = 0
get_le (suc k) (b ∷ bs) = b + 256 * get_le k bs

-- A signed number as a word modulo `m`, and back.
unfoldable pub to_word : ℕ → ℤ → ℕ
to_word m (pos n) = n % m
to_word m (negsuc n) = m - 1 - n % m

unfoldable pub of_word : ℕ → ℕ → ℤ
of_word m w = if ltb w (m / 2) then pos w else negsuc (m - 1 - w)

abbrev pub mod32 : ℕ
mod32 = 2 ^ 32

abbrev pub mod64 : ℕ
mod64 = 2 ^ 64

unfoldable pub put_int32 : ℤ → List ℕ
put_int32 z = put_le 4 (to_word mod32 z)

unfoldable pub get_int32 : List ℕ → ℤ
get_int32 bs = of_word mod32 (get_le 4 bs)

unfoldable pub put_int64 : ℤ → List ℕ
put_int64 z = put_le 8 (to_word mod64 z)

unfoldable pub get_int64 : List ℕ → ℤ
get_int64 bs = of_word mod64 (get_le 8 bs)

unfoldable pub put_rid : Rid → List ℕ
put_rid r = put_int32 r.page_no ++ put_int32 r.slot_no

unfoldable pub get_rid : List ℕ → Rid
get_rid bs = record { page_no = get_int32 bs; slot_no = get_int32 (drop 4 bs) }

-- `LogRecord::serialize`: the fields lie side by side, at the offsets of log_defs.h.
unfoldable pub serialize_header : LogType → Header → List ℕ
serialize_header t h =
    put_le 4 (type_code t)
    ++ put_int32 h.lsn
    ++ put_le 4 h.log_tot_len
    ++ put_int64 h.log_tid
    ++ put_int32 h.prev_lsn

-- A size before the bytes.
abbrev pub put_value : List ℕ → List ℕ
put_value v = put_le 4 (length v) ++ v

abbrev pub put_name : List ℕ → List ℕ
put_name n = put_le 8 (length n) ++ n

-- The overrides.
abbrev pub serialize_insert : Header → List ℕ → Rid → List ℕ → List ℕ
serialize_insert h v rid n =
    serialize_header LogType.insert h ++ put_value v ++ put_rid rid ++ put_name n

abbrev pub serialize_delete : Header → List ℕ → Rid → List ℕ → List ℕ
serialize_delete h v rid n =
    serialize_header LogType.delete h ++ put_value v ++ put_rid rid ++ put_name n

abbrev pub serialize_update : Header → List ℕ → List ℕ → Rid → List ℕ → List ℕ
serialize_update h v w rid n =
    serialize_header LogType.update h ++ put_value v ++ put_value w ++ put_rid rid ++ put_name n

unfoldable pub serialize : LogRecord → List ℕ
serialize (LogRecord.begin_record h) = serialize_header LogType.begin h
serialize (LogRecord.commit_record h) = serialize_header LogType.commit h
serialize (LogRecord.abort_record h) = serialize_header LogType.abort h
serialize (LogRecord.insert_record h v rid n) = serialize_insert h v rid n
serialize (LogRecord.delete_record h v rid n) = serialize_delete h v rid n
serialize (LogRecord.update_record h v w rid n) = serialize_update h v w rid n
