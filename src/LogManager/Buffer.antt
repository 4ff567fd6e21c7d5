-- ===== src/LogManager/Buffer.antt =====
-- The log's bytes: those on disk and those in the buffer, which never overflows.
use claude_opus.Base.{
  ℕ, ◌≤◌, ◌+◌, ◌≡◌, refl, sym, ap, ◌∙◌, List, [], ◌++◌, length, ℤ, Bool, Bool-cases, inl, inr, ◌∷◌,
  arith, if◌then◌else◌, suc_ℤ,
}
use claude_opus.Errors.{ok, throw}
use claude_opus.Disk.{Os, DiskManager, write_log}
use claude_opus.LogRecord.{LogRecord, header, with_header, serialize}
use claude_opus.LogRecord.Size.{IsSized, length-append, length-numbered}
use claude_opus.LogManager.{
  LogManager, Logged, flush_log_to_disk, append, then_append, add_log_to_buffer, is_full,
  log_buffer_size,
}

empty_buffer-nil : (bs : List ℕ) → length bs ≡ 0 → bs ≡ []
empty_buffer-nil [] h = refl
empty_buffer-nil (b ∷ bs) h = absurd (omega arith)

module _ {Data : Type 0} (os : Os Data) where
  open os use {World, log_bytes, log_bytes-append_log}

  -- The bytes of the records, in the order in which they were added.
  abbrev pub stream : LogManager → DiskManager os → List ℕ
  stream lm dm = log_bytes dm.world ++ lm.buffer

  ++_nil : (xs : List ℕ) → xs ++ [] ≡ xs
  ++_nil [] = refl
  ++_nil (x ∷ xs) = ap (λ (l : List ℕ). x ∷ l) (++_nil xs)

  pub flush-stream :
      (lm : LogManager) (dm : DiskManager os)
      → (flush_log_to_disk os lm dm).2 ≡ ok tt
      → stream (flush_log_to_disk os lm dm).0 (flush_log_to_disk os lm dm).1 ≡ stream lm dm
  unfolding flush_log_to_disk write_log
  flush-stream lm dm h =
      ground
        (arith, log_bytes-append_log dm.world lm.buffer, ++_nil (log_bytes dm.world ++ lm.buffer))

  -- The record as it enters the log.
  abbrev pub numbered : LogManager → LogRecord → LogRecord
  numbered lm r = with_header (record (header r) { lsn = lm.global_lsn }) r

  ++-assoc : (xs ys zs : List ℕ) → (xs ++ ys) ++ zs ≡ xs ++ (ys ++ zs)
  ++-assoc [] ys zs = refl
  ++-assoc (x ∷ xs) ys zs = ap (λ (l : List ℕ). x ∷ l) (++-assoc xs ys zs)

  flush-global :
      (lm : LogManager) (dm : DiskManager os)
      → (flush_log_to_disk os lm dm).0.global_lsn ≡ lm.global_lsn
  unfolding flush_log_to_disk write_log
  flush-global lm dm = ground arith

  append-stream :
      (lm : LogManager) (dm : DiskManager os) (r : LogRecord)
      → stream (append os lm dm r).0 (append os lm dm r).1
        ≡ stream lm dm ++ serialize (numbered lm r)
  unfolding append
  append-stream lm dm r = sym (++-assoc (log_bytes dm.world) lm.buffer (serialize (numbered lm r)))

  -- Whether or not the buffer was flushed before, an added record has the next number, its bytes
  -- follow those of all the records before it, and the next number moves on by one.
  pub record Added (lm : LogManager) (dm : DiskManager os) (r : LogRecord) (x : Logged os ℤ)
      : Type 0 where
    pub bytes : stream x.0 x.1 ≡ stream lm dm ++ serialize (numbered lm r)
    pub number : x.2 ≡ ok lm.global_lsn
    pub next : x.0.global_lsn ≡ suc_ℤ lm.global_lsn
    pub last : x.0.last_lsn_in_buffer ≡ lm.global_lsn

  append-Added :
      (lm : LogManager) (dm : DiskManager os) (r : LogRecord) → Added lm dm r (append os lm dm r)
  unfolding append
  append-Added lm dm r = record {
    bytes = append-stream lm dm r;
    number = refl;
    next = refl;
    last = refl;
  }

  then_append-Added :
      (lm : LogManager) (dm : DiskManager os) (r : LogRecord) (x : Logged os (Unit {0})) (n : ℤ)
      → (x.2 ≡ ok tt → stream x.0 x.1 ≡ stream lm dm)
      → x.0.global_lsn ≡ lm.global_lsn
      → (then_append os r x).2 ≡ ok n
      → Added lm dm r (then_append os r x)
  then_append-Added lm dm r (lm', dm', ok tt) n same g h =
      let a = append-Added lm' dm' r in
      record {
        bytes =
            a.bytes
            ∙ ap (λ (l : List ℕ). l ++ serialize (numbered lm' r)) (same refl)
            ∙ ap
                (λ (z : ℤ).
                  stream lm dm ++ serialize (with_header (record (header r) { lsn = z }) r))
                g;
        number = a.number ∙ ap ok g;
        next = a.next ∙ ap suc_ℤ g;
        last = a.last ∙ g;
      }
  then_append-Added lm dm r (lm', dm', throw e) n same g h = cc

  -- A record that `add_log_to_buffer` accepts gets the next number, and its bytes follow those of
  -- all the records before it, on disk or in the buffer; the next number moves on by one.
  pub add_log_to_buffer-Added :
      (lm : LogManager) (dm : DiskManager os) (r : LogRecord) (n : ℤ)
      → (add_log_to_buffer os lm dm r).2 ≡ ok n
      → Added lm dm r (add_log_to_buffer os lm dm r)
  unfolding add_log_to_buffer
  add_log_to_buffer-Added lm dm r n h = elim (Bool-cases (is_full lm (header r).log_tot_len)) [
    | inl full ↦ rw full (
        then_append-Added lm dm r (flush_log_to_disk os lm dm) n (flush-stream lm dm)
          (flush-global lm dm)
          (ap
              (λ (b : Bool).
                (if b then then_append os r (flush_log_to_disk os lm dm) else append os lm dm r).2)
              (sym full)
            ∙ h))
    | inr room ↦ rw room (append-Added lm dm r)
  ]

  -- The buffer holds as many bytes as its offset says, and no more than there is room for.
  abbrev pub Fits : LogManager → Type 0
  Fits lm = (lm.offset ≡ length lm.buffer) × (lm.offset ≤ log_buffer_size)

  append-Fits :
      (lm : LogManager) (dm : DiskManager os) (r : LogRecord)
      → IsSized r
      → lm.offset ≡ length lm.buffer
      → lm.offset + (header r).log_tot_len ≤ log_buffer_size
      → Fits (append os lm dm r).0
  unfolding append
  append-Fits lm dm r sized e b = ground (
    arith,
    length-append lm.buffer (serialize (numbered lm r)),
    length-numbered (header r) lm.global_lsn r,
  )

  pub flush-empties :
      (lm : LogManager) (dm : DiskManager os)
      → (flush_log_to_disk os lm dm).2 ≡ ok tt
      → (flush_log_to_disk os lm dm).0.offset ≡ 0
  unfolding flush_log_to_disk
  flush-empties lm dm h = ground arith

  pub flush-Fits :
      (lm : LogManager) (dm : DiskManager os) → Fits lm → Fits (flush_log_to_disk os lm dm).0
  unfolding flush_log_to_disk
  flush-Fits lm dm h = ground arith

  -- After a flush all bytes are on disk.
  pub flushed-bytes :
      (lm : LogManager) (dm : DiskManager os)
      → Fits lm
      → (flush_log_to_disk os lm dm).2 ≡ ok tt
      → log_bytes (flush_log_to_disk os lm dm).1.world ≡ stream lm dm
  flushed-bytes lm dm f e =
      let empty =
        empty_buffer-nil (flush_log_to_disk os lm dm).0.buffer
          (sym (flush-Fits lm dm f).0 ∙ flush-empties lm dm e) in
      sym (++_nil (log_bytes (flush_log_to_disk os lm dm).1.world))
      ∙ ap (λ (l : List ℕ). log_bytes (flush_log_to_disk os lm dm).1.world ++ l) (sym empty)
      ∙ flush-stream lm dm e

  then_append-Fits :
      (r : LogRecord) (x : Logged os (Unit {0}))
      → IsSized r
      → (header r).log_tot_len ≤ log_buffer_size
      → Fits x.0
      → (x.2 ≡ ok tt → x.0.offset ≡ 0)
      → Fits (then_append os r x).0
  then_append-Fits r (lm, dm, ok tt) sized b h z =
      let empty = z refl in append-Fits lm dm r sized h.0 (omega arith)
  then_append-Fits r (lm, dm, throw e) sized b h z = h

  -- The buffer never overflows: if it holds as many bytes as its offset says, within its size, then
  -- so it does after any call of `add_log_to_buffer`, even one that throws, with a record whose
  -- header gives its length and that fits the buffer by itself.
  pub add_log_to_buffer-Fits :
      (lm : LogManager) (dm : DiskManager os) (r : LogRecord)
      → Fits lm
      → IsSized r
      → (header r).log_tot_len ≤ log_buffer_size
      → Fits (add_log_to_buffer os lm dm r).0
  unfolding add_log_to_buffer is_full
  add_log_to_buffer-Fits lm dm r h sized b = elim (Bool-cases (is_full lm (header r).log_tot_len)) [
    | inl full ↦ rw full (
        then_append-Fits r (flush_log_to_disk os lm dm) sized b (flush-Fits lm dm h)
          (flush-empties lm dm))
    | inr room ↦ rw room (append-Fits lm dm r sized h.0 (ground arith))
  ]
