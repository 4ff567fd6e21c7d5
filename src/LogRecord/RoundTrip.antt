-- ===== src/LogRecord/RoundTrip.antt =====
-- A log record reads back from its bytes.
use mathlib.Core.List.{append_assoc}
use claude_opus.Base.{ℕ, ◌^◌, ◌<◌, ◌≡◌, refl, ap, List, ◌++◌, length, drop, some, arith}
use claude_opus.Txn.{Rid}
use claude_opus.LogRecord.{
  LogRecord, LogType, Header, log_type, serialize, serialize_header, put_le, get_le, put_int32,
  put_int64, put_rid, get_rid, get_int32, of_word, put_value, put_name,
}
use claude_opus.LogRecord.Words.{
  IsInt32, IsInt64, IsRid, get_le-put_le, drop-put_le, get_int32-put_int32, drop-put_int32,
  get_int64-put_int64, drop-put_int64, get_rid-put_rid, drop-put_rid, take-length, drop-length,
}
use claude_opus.LogRecord.Parse.{
  at_data, get_type, deserialize_header, deserialize_value, size_at, after_value, deserialize_name,
  deserialize,
}

-- The fields fit their types.
pub record IsHeader (h : Header) : Type 0 where
  pub lsn : IsInt32 h.lsn
  pub log_tot_len : h.log_tot_len < 256 ^ 4
  pub log_tid : IsInt64 h.log_tid
  pub prev_lsn : IsInt32 h.prev_lsn

abbrev pub Fits : LogRecord → Type 0
Fits (LogRecord.begin_record h) = IsHeader h
Fits (LogRecord.commit_record h) = IsHeader h
Fits (LogRecord.abort_record h) = IsHeader h
Fits (LogRecord.insert_record h v r n) =
    IsHeader h × (length v < 2 ^ 31) × IsRid r × (length n < 256 ^ 8)
Fits (LogRecord.delete_record h v r n) =
    IsHeader h × (length v < 2 ^ 31) × IsRid r × (length n < 256 ^ 8)
Fits (LogRecord.update_record h v w r n) =
    IsHeader h × (length v < 2 ^ 31) × (length w < 2 ^ 31) × IsRid r × (length n < 256 ^ 8)

get_type-header :
    (t : LogType) (h : Header) (bs : List ℕ) → get_type (serialize_header t h ++ bs) ≡ some t
unfolding get_type serialize_header get_le put_le
get_type-header LogType.update h bs = refl
get_type-header LogType.insert h bs = refl
get_type-header LogType.delete h bs = refl
get_type-header LogType.begin h bs = refl
get_type-header LogType.commit h bs = refl
get_type-header LogType.abort h bs = refl

at_data-header :
    (t : LogType) (h : Header) (bs : List ℕ) → at_data (serialize_header t h ++ bs) ≡ bs
unfolding serialize_header put_int32 put_int64 put_le
at_data-header t h bs = refl

deserialize_header-serialize :
    (t : LogType) (h : Header) (bs : List ℕ)
    → IsHeader h
    → deserialize_header (serialize_header t h ++ bs) ≡ h
unfolding deserialize_header serialize_header
deserialize_header-serialize t h bs f = simp (
  append_assoc,
  drop-put_le,
  drop-put_int32,
  drop-put_int64,
  get_int32-put_int32 h.lsn,
  get_le-put_le 4 h.log_tot_len,
  get_int64-put_int64 h.log_tid,
  get_int32-put_int32 h.prev_lsn,
  f.lsn,
  f.log_tot_len,
  f.log_tid,
  f.prev_lsn,
)

size-put_le : (n : ℕ) (bs : List ℕ) → n < 2 ^ 31 → size_at (put_le 4 n ++ bs) ≡ n
unfolding get_int32 of_word
size-put_le n bs h = let e = get_le-put_le 4 n bs (omega arith) in rw e (ground arith)

value-reads :
    (v bs : List ℕ)
    → length v < 2 ^ 31
    → (deserialize_value (put_value v ++ bs) ≡ v) × (after_value (put_value v ++ bs) ≡ bs)
unfolding deserialize_value after_value
value-reads v bs h =
    let s = append_assoc (put_le 4 (length v)) v bs in
    let g = size-put_le (length v) (v ++ bs) h in
    let d = drop-put_le 4 (length v) (v ++ bs) in
    (rw (s, g, d) (take-length v bs), rw (s, g, d) (drop-length v bs))

name-reads : (n bs : List ℕ) → length n < 256 ^ 8 → deserialize_name (put_name n ++ bs) ≡ n
unfolding deserialize_name
name-reads n bs h =
    let s = append_assoc (put_le 8 (length n)) n bs in
    let g = get_le-put_le 8 (length n) (n ++ bs) h in
    let d = drop-put_le 8 (length n) (n ++ bs) in rw (s, g, d) (take-length n bs)

-- A value, an identifier and a name behind one another.
tail-reads :
    (v : List ℕ) (r : Rid) (n bs : List ℕ)
    → length v < 2 ^ 31
    → IsRid r
    → length n < 256 ^ 8
    → (deserialize_value (put_value v ++ (put_rid r ++ (put_name n ++ bs))) ≡ v)
      × (get_rid (after_value (put_value v ++ (put_rid r ++ (put_name n ++ bs)))) ≡ r)
      × (deserialize_name (drop 8 (after_value (put_value v ++ (put_rid r ++ (put_name n ++ bs)))))
          ≡ n)
tail-reads v r n bs hv hr hn =
    let (a, b) = value-reads v (put_rid r ++ (put_name n ++ bs)) hv in
    (
      a,
      rw b (get_rid-put_rid r (put_name n ++ bs) hr),
      rw (b, drop-put_rid r (put_name n ++ bs)) (name-reads n bs hn),
    )

append_assoc4 : (a b c d e : List ℕ) → a ++ b ++ c ++ d ++ e ≡ a ++ (b ++ (c ++ (d ++ e)))
append_assoc4 a b c d e = simp (append_assoc)

append_assoc5 :
    (a b c d e f : List ℕ) → a ++ b ++ c ++ d ++ e ++ f ≡ a ++ (b ++ (c ++ (d ++ (e ++ f))))
append_assoc5 a b c d e f = simp (append_assoc)

-- What follows a header reads as it does alone.
behind_header :
    (t : LogType) (h : Header) (rest xs : List ℕ)
    → IsHeader h
    → xs ≡ serialize_header t h ++ rest
    → (get_type xs ≡ some t) × (deserialize_header xs ≡ h) × (at_data xs ≡ rest)
behind_header t h rest xs f e =
    rw e
      (get_type-header t h rest, deserialize_header-serialize t h rest f, at_data-header t h rest)

-- Every log record whose fields fit reads back from its bytes, whatever follows them: its type is
-- found, and `deserialize` of that type returns the record.
pub deserialize-serialize :
    (r : LogRecord) (bs : List ℕ)
    → Fits r
    → (get_type (serialize r ++ bs) ≡ some (log_type r))
      × (deserialize (log_type r) (serialize r ++ bs) ≡ r)
unfolding serialize deserialize
deserialize-serialize (LogRecord.begin_record h) bs f = (
  get_type-header LogType.begin h bs,
  ap LogRecord.begin_record (deserialize_header-serialize LogType.begin h bs f),
)
deserialize-serialize (LogRecord.commit_record h) bs f = (
  get_type-header LogType.commit h bs,
  ap LogRecord.commit_record (deserialize_header-serialize LogType.commit h bs f),
)
deserialize-serialize (LogRecord.abort_record h) bs f = (
  get_type-header LogType.abort h bs,
  ap LogRecord.abort_record (deserialize_header-serialize LogType.abort h bs f),
)
deserialize-serialize (LogRecord.insert_record h v r n) bs (fh, fv, fr, fn) =
    let rest = put_value v ++ (put_rid r ++ (put_name n ++ bs)) in
    let e =
      append_assoc4 (serialize_header LogType.insert h) (put_value v) (put_rid r) (put_name n) bs in
    let (t, d, x) = behind_header LogType.insert h rest _ fh e in
    let (a, b, c) = tail-reads v r n bs fv fr fn in (t, rw (d, x, a, b, c) refl)
deserialize-serialize (LogRecord.delete_record h v r n) bs (fh, fv, fr, fn) =
    let rest = put_value v ++ (put_rid r ++ (put_name n ++ bs)) in
    let e =
      append_assoc4 (serialize_header LogType.delete h) (put_value v) (put_rid r) (put_name n) bs in
    let (t, d, x) = behind_header LogType.delete h rest _ fh e in
    let (a, b, c) = tail-reads v r n bs fv fr fn in (t, rw (d, x, a, b, c) refl)
deserialize-serialize (LogRecord.update_record h v w r n) bs (fh, fv, fw, fr, fn) =
    let rest = put_value w ++ (put_rid r ++ (put_name n ++ bs)) in
    let e =
      append_assoc5 (serialize_header LogType.update h) (put_value v) (put_value w) (put_rid r)
        (put_name n) bs in
    let (t, d, x) = behind_header LogType.update h (put_value v ++ rest) _ fh e in
    let (p, q) = value-reads v rest fv in
    let (a, b, c) = tail-reads w r n bs fw fr fn in (t, rw (d, x, p, q, a, b, c) refl)
