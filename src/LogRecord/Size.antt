-- ===== src/LogRecord/Size.antt =====
-- The length that a log record's header gives is the number of its bytes.
use claude_opus.Base.{ℕ, zero, suc, ◌+◌, ◌/◌, ◌≡◌, ◌≤◌, refl, List, [], ◌∷◌, ◌++◌, length, arith, ℤ}
use claude_opus.Txn.{Rid}
use claude_opus.LogRecord.{
  LogRecord, LogType, Header, header, with_header, serialize, serialize_header, put_le, put_int32,
  put_int64, put_rid, begin_log, commit_log, abort_log, insert_log, delete_log, update_log,
}

abbrev pub IsSized : LogRecord → Type 0
IsSized r = length (serialize r) ≡ (header r).log_tot_len

pub length-append : (xs ys : List ℕ) → length (xs ++ ys) ≡ length xs + length ys
length-append [] ys = ground arith
length-append (x ∷ xs) ys = ground (arith, length-append xs ys)

length-put_le : (k w : ℕ) → length (put_le k w) ≡ k
unfolding put_le
length-put_le zero w = refl
length-put_le (suc k) w = ground (arith, length-put_le k (w / 256))

pub length-serialize_header : (t : LogType) (h : Header) → length (serialize_header t h) ≡ 24
unfolding serialize_header put_int32 put_int64
length-serialize_header t h = simp (length-append, length-put_le)

length-put_rid : (r : Rid) → length (put_rid r) ≡ 8
unfolding put_rid put_int32
length-put_rid r = simp (length-append, length-put_le)

pub length-numbered :
    (h : Header) (n : ℤ) (r : LogRecord)
    → length (serialize (with_header (record h { lsn = n }) r)) ≡ length (serialize r)
unfolding serialize
length-numbered h n (LogRecord.begin_record g) = simp (length-serialize_header)
length-numbered h n (LogRecord.commit_record g) = simp (length-serialize_header)
length-numbered h n (LogRecord.abort_record g) = simp (length-serialize_header)
length-numbered h n (LogRecord.insert_record g v r m) =
    simp (length-serialize_header, length-append)
length-numbered h n (LogRecord.delete_record g v r m) =
    simp (length-serialize_header, length-append)
length-numbered h n (LogRecord.update_record g v w r m) =
    simp (length-serialize_header, length-append)

-- Every record that a constructor makes has as many bytes as its header says.
pub serialize-IsSized :
    (tid : ℤ) (v w name : List ℕ) (rid : Rid)
    → IsSized (begin_log tid)
      × IsSized (commit_log tid)
      × IsSized (abort_log tid)
      × IsSized (insert_log tid v rid name)
      × IsSized (delete_log tid v rid name)
      × IsSized (update_log tid v w rid name)
unfolding serialize begin_log commit_log abort_log insert_log delete_log update_log
serialize-IsSized tid v w name rid = (
  length-serialize_header _ _,
  length-serialize_header _ _,
  length-serialize_header _ _,
  simp (length-append, length-serialize_header, length-put_le, length-put_rid) (omega arith),
  simp (length-append, length-serialize_header, length-put_le, length-put_rid) (omega arith),
  simp (length-append, length-serialize_header, length-put_le, length-put_rid) (omega arith),
)

pub serialize-le : (r : LogRecord) → 24 ≤ length (serialize r)
unfolding serialize
serialize-le (LogRecord.begin_record h) = omega (arith, length-serialize_header LogType.begin h)
serialize-le (LogRecord.commit_record h) = omega (arith, length-serialize_header LogType.commit h)
serialize-le (LogRecord.abort_record h) = omega (arith, length-serialize_header LogType.abort h)
serialize-le (LogRecord.insert_record h v r n) =
    simp (length-append, length-serialize_header) (omega arith)
serialize-le (LogRecord.delete_record h v r n) =
    simp (length-append, length-serialize_header) (omega arith)
serialize-le (LogRecord.update_record h v w r n) =
    simp (length-append, length-serialize_header) (omega arith)
