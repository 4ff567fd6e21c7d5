-- ===== src/Recovery/Durable.antt =====
-- What was logged and flushed is what recovery reads.
use mathlib.Core.List.{append_assoc, append-nil}
use claude_opus.Base.{ℕ, ◌≤◌, ◌≡◌, refl, sym, ap, ◌∙◌, ℤ, List, [], ◌∷◌, ◌++◌, length, All, arith}
use claude_opus.Errors.{ok}
use claude_opus.Disk.{Os, DiskManager}
use claude_opus.LogRecord.{LogRecord, header, serialize}
use claude_opus.LogRecord.Size.{IsSized}
use claude_opus.LogManager.{
  LogManager, log_buffer_size, new_log_manager, add_log_to_buffer, flush_log_to_disk,
}
use claude_opus.LogManager.Buffer.{
  flushed-bytes, stream, numbered, Fits, add_log_to_buffer-Added, add_log_to_buffer-Fits,
}
use claude_opus.Recovery.{RecoveryManager, analyze, scan, invalid_lsn}
use claude_opus.Recovery.Scan.{IsWritten, log_of, scan-log_of}

log_of-append : (rs ss : List LogRecord) → log_of (rs ++ ss) ≡ log_of rs ++ log_of ss
log_of-append [] ss = refl
log_of-append (r ∷ rs) ss =
    ap (λ (l : List ℕ). serialize r ++ l) (log_of-append rs ss)
    ∙ sym (append_assoc (serialize r) (log_of rs) (log_of ss))

analyze-scan :
    (bs : List ℕ) (rm : RecoveryManager)
    → (analyze bs rm).analysis.log_records
      ≡ (scan (length bs) bs (record rm.analysis { max_lsn = invalid_lsn })).log_records
unfolding analyze
analyze-scan [] rm = refl
analyze-scan (b ∷ bs) rm = refl

-- `analyze` on the bytes of written records.
analyze-log_of :
    (rs : List LogRecord) (rm : RecoveryManager)
    → All IsWritten rs
    → (analyze (log_of rs) rm).analysis.log_records ≡ rm.analysis.log_records ++ rs
analyze-log_of rs rm w =
    analyze-scan (log_of rs) rm
    ∙ (scan-log_of rs (record rm.analysis { max_lsn = invalid_lsn }) w).1

log_tail :
    (xs : List ℕ) (qs : List LogRecord) (r : LogRecord)
    → xs ++ (log_of qs ++ serialize r) ≡ xs ++ log_of (qs ++ r ∷ [])
log_tail xs qs r =
    ap (λ (l : List ℕ). xs ++ l)
      (ap (λ (l : List ℕ). log_of qs ++ l) (sym (append-nil (serialize r)))
        ∙ sym (log_of-append qs (r ∷ [])))

module _ {Data : Type 0} (os : Os Data) where
  open os use {log_bytes}

  -- A run of `add_log_to_buffer` on records that say their length and fit the buffer, and the
  -- records as they entered the log.
  pub data Adds (lm : LogManager) (dm : DiskManager os)
      : List LogRecord → LogManager → DiskManager os → Type 0 where
    start : Adds lm dm [] lm dm
    add :
        {rs : List LogRecord} {lm' : LogManager} {dm' : DiskManager os} (r : LogRecord) (n : ℤ)
        → Adds lm dm rs lm' dm'
        → IsSized r
        → (header r).log_tot_len ≤ log_buffer_size
        → (add_log_to_buffer os lm' dm' r).2 ≡ ok n
        → Adds lm dm
            (rs ++ numbered os lm' r ∷ [])
            (add_log_to_buffer os lm' dm' r).0
            (add_log_to_buffer os lm' dm' r).1

  Adds-stream :
      (lm : LogManager) (dm : DiskManager os) (rs : List LogRecord) (lm' : LogManager)
      (dm' : DiskManager os)
      → Fits os lm
      → Adds lm dm rs lm' dm'
      → Fits os lm' × (stream os lm' dm' ≡ stream os lm dm ++ log_of rs)
  Adds-stream lm dm rs lm' dm' f Adds.start = (f, sym (append-nil (stream os lm dm)))
  Adds-stream lm dm rs lm' dm' f (Adds.add {rs = qs} {lm' = lm1} {dm' = dm1} r n a sized small e) =
      let (g, s) = Adds-stream lm dm qs lm1 dm1 f a in
      let x = add_log_to_buffer-Added os lm1 dm1 r n e in
      (
        add_log_to_buffer-Fits os lm1 dm1 r g sized small,
        x.bytes
            ∙ ap (λ (l : List ℕ). l ++ serialize (numbered os lm1 r)) s
            ∙ append_assoc (stream os lm dm) (log_of qs) (serialize (numbered os lm1 r))
            ∙ log_tail (stream os lm dm) qs (numbered os lm1 r),
      )

  -- Records that the log manager took from an empty log on, and that were then flushed without an
  -- exception, are what `analyze` reads after a crash, in their order, if their fields fit.
  pub analyze-flushed :
      (dm : DiskManager os) (rs : List LogRecord) (lm' : LogManager) (dm' : DiskManager os)
      (rm : RecoveryManager)
      → log_bytes dm.world ≡ []
      → Adds new_log_manager dm rs lm' dm'
      → (flush_log_to_disk os lm' dm').2 ≡ ok tt
      → All IsWritten rs
      → (analyze (log_bytes (flush_log_to_disk os lm' dm').1.world) rm).analysis.log_records
        ≡ rm.analysis.log_records ++ rs
  unfolding new_log_manager
  analyze-flushed dm rs lm' dm' rm none a done w =
      let (f, s) = Adds-stream new_log_manager dm rs lm' dm' (refl, omega arith) a in
      let bytes : log_bytes (flush_log_to_disk os lm' dm').1.world ≡ log_of rs =
        flushed-bytes os lm' dm' f done ∙ s ∙ ap (λ (l : List ℕ). l ++ [] ++ log_of rs) none in
      rw bytes (analyze-log_of rs rm w)
