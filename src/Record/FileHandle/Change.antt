-- ===== src/Record/FileHandle/Change.antt =====
-- What a change of a held page, its log record and its release leave of the buffer pool.
use claude_opus.Base.{
  ◌≡◌, ◌≢◌, refl, ◌∙◌, inl, inr, ℕ, ℤ, ite, Bool-cases, Option, none, some, Option-cases, arith,
}
use claude_opus.Errors.{ok, throw}
use claude_opus.Disk.{PageId, PageId-discrete, whole, DiskManager}
use claude_opus.LogRecord.{LogRecord, header}
use claude_opus.LogManager.{
  LogManager, Logged, add_log_to_buffer, flush_log_to_disk, is_full, append, then_append,
}
use claude_opus.BufferPool.{Setup, Pool, set_page}
use claude_opus.BufferPool.WriteBack.{read_at, flush-reads}
use claude_opus.BufferPool.Invariant.{Inv, content, content-same}
use claude_opus.Record.Page.{RmPage}
use claude_opus.Record.FileHandle.{
  View, Context, RmFileHandle, log_change, log_with, logged, change_data,
}

module _ (E : Setup) where
  open E use {os, policy as R, format.{Data}}

  -- A page that somebody holds may be changed in its frame.
  pub change-Inv :
      (s : Pool E) (id : PageId) (f : ℕ) (g : Data → Data)
      → Inv E s
      → s.page_table id ≡ some f
      → (s.pages f).pin_count ≢ 0
      → Inv E (set_page E f (λ p. record p { content = g p.content }) s)
  change-Inv s id f g v e p = record {
    mapped = λ j h q. ground (arith, v.mapped j h);
    resident = λ h q. ground (arith, v.resident h);
    dirty_valid = λ h q. ground (arith, v.dirty_valid h);
    free_distinct = v.free_distinct;
    free_idle = λ h q. ground (arith, v.free_idle h);
    policy_valid = v.policy_valid;
    policy_idle = λ h q. ground (arith, v.policy_idle h);
    coherent = λ j h q k c. ground (arith, v.coherent j h);
  }

  pub change-content :
      (s : Pool E) (id : PageId) (f : ℕ) (g : Data → Data) (j : PageId)
      → Inv E s
      → s.page_table id ≡ some f
      → content E (set_page E f (λ p. record p { content = g p.content }) s) j
        ≡ ite (PageId-discrete j id) (whole (g (s.pages f).content)) (content E s j)
  change-content s id f g j v e = elim (PageId-discrete j id) [
    | yes q ↦ rw (q, e) (ground arith)
    | no d ↦ elim (Option-cases (s.page_table j)) [
      | inl absent ↦ rw absent (ground arith)
      | inr (h, there) ↦ rw there (ground (arith, v.mapped j h there, v.mapped id f e))
    ]
  ]

  -- The log may grow under a pool.
  pub grow-Inv :
      (s : Pool E) (lm : Option LogManager) (dm : DiskManager os)
      → ((j : PageId) → os.read dm.world j ≡ read_at E s j)
      → Inv E s
      → Inv E (record s { log_manager = lm; disk_manager = dm })
  grow-Inv s lm dm same v = record {
    mapped = v.mapped;
    resident = v.resident;
    dirty_valid = v.dirty_valid;
    free_distinct = v.free_distinct;
    free_idle = v.free_idle;
    policy_valid = v.policy_valid;
    policy_idle = v.policy_idle;
    coherent = λ j h q k c. same j ∙ v.coherent j h q k c;
  }

  pub grow-content :
      (s : Pool E) (lm : Option LogManager) (dm : DiskManager os) (j : PageId)
      → os.read dm.world j ≡ read_at E s j
      → content E (record s { log_manager = lm; disk_manager = dm }) j ≡ content E s j
  grow-content s lm dm j same =
      content-same E s (record s { log_manager = lm; disk_manager = dm }) j refl same (λ g. refl)

  then_append-reads : (r : LogRecord) (x : Logged os (Unit {0})) → (then_append os r x).1 ≡ x.1
  unfolding append
  then_append-reads r (lm, dm, ok tt) = refl
  then_append-reads r (lm, dm, throw e) = refl

  pub add-reads :
      (lm : LogManager) (dm : DiskManager os) (r : LogRecord) (j : PageId)
      → os.read (add_log_to_buffer os lm dm r).1.world j ≡ os.read dm.world j
  unfolding add_log_to_buffer append
  add-reads lm dm r j = elim (Bool-cases (is_full lm (header r).log_tot_len)) [
    | inl full ↦
        rw (full, then_append-reads r (flush_log_to_disk os lm dm)) (flush-reads E lm dm j).0
    | inr room ↦ rw room refl
  ]

module _ (E : Setup) (V : View E) where
  open E use {os, format.{Data}}
  open V use {view, set_page_lsn, view-set_page_lsn}

  -- The frame holds the page, pinned, in a consistent pool.
  pub record Held (f : ℕ) (id : PageId) (s : RmFileHandle E V) : Type 0 where
    pub inv : Inv E s.pool
    pub entered : s.pool.page_table id ≡ some f
    pub pinned : (s.pool.pages f).pin_count ≢ 0

  -- The held page is the only one that may look different, and what a record file reads in it is `p`.
  pub record Kept (f : ℕ) (id : PageId) (p : RmPage) (s t : RmFileHandle E V) : Type 0 where
    pub held : Held f id t
    pub others : (j : PageId) → j ≢ id → content E t.pool j ≡ content E s.pool j
    pub reads : view (t.pool.pages f).content ≡ p

  pub change_data-Kept :
      (f : ℕ) (id : PageId) (g : Data → Data) (s : RmFileHandle E V)
      → Held f id s
      → Kept f id (view (g (s.pool.pages f).content)) s (change_data E V f g s)
  change_data-Kept f id g s h = record {
    held = record {
      inv = change-Inv E s.pool id f g h.inv h.entered h.pinned;
      entered = h.entered;
      pinned = (let q = h.pinned in ground arith);
    };
    others = λ j d. change-content E s.pool id f g j h.inv h.entered ∙ ground arith;
    reads = ground arith;
  }

  logged-Kept :
      (f : ℕ) (id : PageId) (c : Context) (x : Logged os ℤ) (s : RmFileHandle E V)
      → Held f id s
      → ((j : PageId) → os.read x.1.world j ≡ read_at E s.pool j)
      → (logged E V f c x s).1 ≡ ok tt
      → Kept f id (view (s.pool.pages f).content) s (logged E V f c x s).0
  unfolding logged
  logged-Kept f id c (lm, dm, throw e) s h same done = cc
  logged-Kept f id c (lm, dm, ok lsn) s h same done =
      let grown : RmFileHandle E V = record s {
        pool = record s.pool { log_manager = some lm; disk_manager = dm };
        context = some (record c { prev_lsn = lsn });
      } in
      let k = change_data-Kept f id (set_page_lsn lsn) grown (record {
        inv = grow-Inv E s.pool (some lm) dm same h.inv;
        entered = h.entered;
        pinned = h.pinned;
      }) in
      record {
        held = k.held;
        others = λ j d. k.others j d ∙ grow-content E s.pool (some lm) dm j (same j);
        reads = k.reads ∙ view-set_page_lsn lsn (s.pool.pages f).content;
      }

  Kept-refl :
      (f : ℕ) (id : PageId) (s : RmFileHandle E V)
      → Held f id s
      → Kept f id (view (s.pool.pages f).content) s s
  Kept-refl f id s h = record { held = h; others = λ j d. refl; reads = refl }

  log_with-Kept :
      (f : ℕ) (id : PageId) (r : ℤ → LogRecord) (o : Option Context) (m : Option LogManager)
      (s : RmFileHandle E V)
      → Held f id s
      → (log_with E V f r o m s).1 ≡ ok tt
      → Kept f id (view (s.pool.pages f).content) s (log_with E V f r o m s).0
  unfolding log_with
  log_with-Kept f id r none m s h e = Kept-refl f id s h
  log_with-Kept f id r (some c) none s h e = Kept-refl f id s h
  log_with-Kept f id r (some c) (some lm) s h e =
      logged-Kept f id c _ s h (add-reads E lm s.pool.disk_manager _) e

  logged-hdr :
      (f : ℕ) (c : Context) (x : Logged os ℤ) (s : RmFileHandle E V)
      → (logged E V f c x s).0.file_hdr ≡ s.file_hdr
  unfolding logged
  logged-hdr f c (lm, dm, throw e) s = refl
  logged-hdr f c (lm, dm, ok lsn) s = refl

  log_with-hdr :
      (f : ℕ) (r : ℤ → LogRecord) (o : Option Context) (m : Option LogManager)
      (s : RmFileHandle E V)
      → (log_with E V f r o m s).0.file_hdr ≡ s.file_hdr
  unfolding log_with
  log_with-hdr f r none m s = refl
  log_with-hdr f r (some c) none s = refl
  log_with-hdr f r (some c) (some lm) s = logged-hdr f c _ s

  pub log_change-hdr :
      (f : ℕ) (r : ℤ → LogRecord) (s : RmFileHandle E V)
      → (log_change E V f r s).0.file_hdr ≡ s.file_hdr
  unfolding log_change
  log_change-hdr f r s = log_with-hdr f r s.context s.pool.log_manager s

  -- Logging a change of a held page changes no page but its number in the log.
  pub log_change-Kept :
      (f : ℕ) (id : PageId) (r : ℤ → LogRecord) (s : RmFileHandle E V)
      → Held f id s
      → (log_change E V f r s).1 ≡ ok tt
      → Kept f id (view (s.pool.pages f).content) s (log_change E V f r s).0
  unfolding log_change
  log_change-Kept f id r s h e = log_with-Kept f id r s.context s.pool.log_manager s h e
