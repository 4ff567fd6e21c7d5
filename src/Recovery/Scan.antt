-- ===== src/Recovery/Scan.antt =====
-- The log is read back record by record.
use mathlib.Core.List.{append_assoc, append-nil}
use claude_opus.Base.{
  ℕ, zero, suc, ◌-◌, ◌^◌, ◌≤◌, ◌<◌, ◌≡◌, refl, sym, ap, ◌∙◌, arith, List, [], ◌∷◌, ◌++◌, length,
  drop, All,
}
use claude_opus.LogRecord.{LogType, LogRecord, header, log_type, serialize, get_le}
use claude_opus.LogRecord.Parse.{at_tot_len, get_type, deserialize, deserialize_header}
use claude_opus.LogRecord.Size.{IsSized, length-append, serialize-le}
use claude_opus.LogRecord.Words.{drop-length}
use claude_opus.LogRecord.RoundTrip.{Fits, deserialize-serialize}
use claude_opus.Recovery.{Analysis, note_record, note_txn, note_lsn, read_record, is_too_long, scan}

-- A record as the log manager writes it.
abbrev pub IsWritten : LogRecord → Type 0
IsWritten r = Fits r × IsSized r × ((header r).log_tot_len < 2 ^ 31)

abbrev pub log_of : List LogRecord → List ℕ
log_of [] = []
log_of (r ∷ rs) = serialize r ++ log_of rs

abbrev pub note_all : List LogRecord → Analysis → Analysis
note_all [] a = a
note_all (r ∷ rs) a = note_all rs (note_record r a)

header-deserialize : (t : LogType) (bs : List ℕ) → header (deserialize t bs) ≡ deserialize_header bs
unfolding deserialize
header-deserialize LogType.update bs = refl
header-deserialize LogType.insert bs = refl
header-deserialize LogType.delete bs = refl
header-deserialize LogType.begin bs = refl
header-deserialize LogType.commit bs = refl
header-deserialize LogType.abort bs = refl

-- One round over a written record.
scan-step :
    (n : ℕ) (r : LogRecord) (bs : List ℕ) (a : Analysis)
    → IsWritten r
    → scan (suc n) (serialize r ++ bs) a ≡ scan n bs (note_record r a)
unfolding scan is_too_long read_record deserialize_header
scan-step n r bs a (fits, sized, small) =
    let (t, d) = deserialize-serialize r bs fits in
    let len : get_le 4 (at_tot_len (serialize r ++ bs)) ≡ length (serialize r) =
      sym (ap (λ h. h.log_tot_len) (header-deserialize (log_type r) (serialize r ++ bs)))
      ∙ ap (λ x. (header x).log_tot_len) d
      ∙ sym sized in
    let long = serialize-le r in
    rw (len, drop-length (serialize r) bs, t, d) (ground (arith, length-append (serialize r) bs))

scan-short : (n : ℕ) (a : Analysis) → scan n [] a ≡ a
unfolding scan
scan-short zero a = refl
scan-short (suc n) a = refl

-- Scanning the bytes of written records notes each of them in turn, given a round for each.
scan-log :
    (n : ℕ) (rs : List LogRecord) (a : Analysis)
    → All IsWritten rs
    → length rs ≤ n
    → scan n (log_of rs) a ≡ note_all rs a
scan-log n [] a w b = scan-short n a
scan-log zero (r ∷ rs) a w b = absurd (omega arith)
scan-log (suc n) (r ∷ rs) a w b =
    scan-step n r (log_of rs) a w.0 ∙ scan-log n rs (note_record r a) w.1 (omega arith)

length-log_of : (rs : List LogRecord) → length rs ≤ length (log_of rs)
length-log_of [] = omega arith
length-log_of (r ∷ rs) =
    omega (arith, length-log_of rs, serialize-le r, length-append (serialize r) (log_of rs))

log_records-note_record :
    (r : LogRecord) (a : Analysis) → (note_record r a).log_records ≡ a.log_records ++ r ∷ []
unfolding note_record note_txn note_lsn
log_records-note_record (LogRecord.begin_record h) a = ground arith
log_records-note_record (LogRecord.commit_record h) a = ground arith
log_records-note_record (LogRecord.abort_record h) a = ground arith
log_records-note_record (LogRecord.insert_record h v r n) a = ground arith
log_records-note_record (LogRecord.delete_record h v r n) a = ground arith
log_records-note_record (LogRecord.update_record h v w r n) a = ground arith

log_records-note_all :
    (rs : List LogRecord) (a : Analysis) → (note_all rs a).log_records ≡ a.log_records ++ rs
log_records-note_all [] a = sym (append-nil a.log_records)
log_records-note_all (r ∷ rs) a =
    log_records-note_all rs (note_record r a)
    ∙ ap (λ (l : List LogRecord). l ++ rs) (log_records-note_record r a)
    ∙ append_assoc a.log_records (r ∷ []) rs

-- A log that holds written records and nothing else: scanning it finds exactly these, in their
-- order, and notes each of them in turn.
pub scan-log_of :
    (rs : List LogRecord) (a : Analysis)
    → All IsWritten rs
    → (scan (length (log_of rs)) (log_of rs) a ≡ note_all rs a)
      × ((scan (length (log_of rs)) (log_of rs) a).log_records ≡ a.log_records ++ rs)
scan-log_of rs a w =
    let e = scan-log (length (log_of rs)) rs a w (length-log_of rs) in
    (e, ap (λ x. x.log_records) e ∙ log_records-note_all rs a)

length-drop : (k : ℕ) (bs : List ℕ) → length (drop k bs) ≡ length bs - k
length-drop zero bs = omega arith
length-drop (suc k) [] = omega arith
length-drop (suc k) (b ∷ bs) = omega (arith, length-drop k bs)

-- The loop ends: with a round for each byte of the log, more rounds change nothing, whatever the
-- bytes are.
pub scan-ends :
    (n k : ℕ) (bs : List ℕ) (a : Analysis) → length bs ≤ n → n ≤ k → scan k bs a ≡ scan n bs a
unfolding scan
scan-ends zero k [] a h l = scan-short k a
scan-ends zero k (b ∷ bs) a h l = absurd (omega arith)
scan-ends (suc n) zero bs a h l = absurd (omega arith)
scan-ends (suc n) (suc k) bs a h l =
    let len = get_le 4 (at_tot_len bs) in
    ground (arith, length-drop len bs, scan-ends n k (drop len bs) (read_record (get_type bs) bs a))
