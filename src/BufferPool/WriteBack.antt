-- ===== src/BufferPool/WriteBack.antt =====
-- The write-back of a frame: what it leaves alone, what it puts on disk, and that the log goes first.
use claude_opus.Base.{
  ℕ, ℤ, ◌≡◌, refl, sym, subst, ap, ◌∙◌, ◌⊎◌, inl, inr, ◌≢◌, ite, ℕ_discrete, Bool, true, false,
  Option, none, some, arith, if◌then◌else◌, ltb_ℤ, ◌≤ℤ◌, Bool-cases,
}
use claude_opus.Errors.{Error, Result, ok, throw}
use claude_opus.Disk.{
  PageId, PageId-discrete, Transfer, whole, seek_error, short, DiskManager, checked, write_page,
  write_log,
}
use claude_opus.LogManager.{LogManager, flush_log_to_disk}
use claude_opus.LogManager.Buffer.{stream, Fits, flushed-bytes}
use claude_opus.BufferPool.{
  Setup, Pool, bind, flush_log_for, flush_with, write_clean, write_back, write_back_dirty,
}

module _ (E : Setup) where
  open E use {os, policy as R, format.{Data, page_lsn}}
  open os use {World, read, read-write, read-append_log, log_bytes, log_bytes-write}

  abbrev pub read_at : Pool E → PageId → Transfer Data
  read_at s j = read s.disk_manager.world j

  -- What flushing the log leaves as it was.
  pub record Flushed (s t : Pool E) : Type 0 where
    pub size : t.pool_size ≡ s.pool_size
    pub pages : t.pages ≡ s.pages
    pub table : t.page_table ≡ s.page_table
    pub free : t.free_list ≡ s.free_list
    pub policy : t.replacer ≡ s.replacer
    pub fd2pageno : t.disk_manager.fd2pageno ≡ s.disk_manager.fd2pageno
    pub reads : (j : PageId) → read_at t j ≡ read_at s j

  pub flush-reads :
      (lm : LogManager) (dm : DiskManager os) (j : PageId)
      → (read (flush_log_to_disk os lm dm).1.world j ≡ read dm.world j)
        × ((flush_log_to_disk os lm dm).1.fd2pageno ≡ dm.fd2pageno)
  unfolding flush_log_to_disk write_log
  flush-reads lm dm j = ground (arith, read-append_log dm.world lm.buffer j)

  Flushed-refl : (s : Pool E) → Flushed s s
  Flushed-refl s = record {
    size = refl;
    pages = refl;
    table = refl;
    free = refl;
    policy = refl;
    fd2pageno = refl;
    reads = λ j. refl;
  }

  flush_with-Flushed :
      (o : Option LogManager) (lsn : ℤ) (s : Pool E) → Flushed s (flush_with E o lsn s).0
  unfolding flush_with
  flush_with-Flushed none lsn s = Flushed-refl s
  flush_with-Flushed (some lm) lsn s = elim (Bool-cases (ltb_ℤ lm.persist_lsn lsn)) [
    | inl low ↦ rw low (record {
      size = refl;
      pages = refl;
      table = refl;
      free = refl;
      policy = refl;
      fd2pageno = (flush-reads lm s.disk_manager (record { fd = lsn; page_no = lsn })).1;
      reads = λ j. (flush-reads lm s.disk_manager j).0;
    })
    | inr high ↦ rw high (Flushed-refl s)
  ]

  -- Either the number was persistent before, or all that was logged is on disk.
  abbrev pub IsLogged : ℤ → LogManager → Pool E → Pool E → Type 0
  IsLogged lsn lm s t =
      (lsn ≤ℤ lm.persist_lsn) ⊎ (log_bytes t.disk_manager.world ≡ stream os lm s.disk_manager)

  flush_with-IsLogged :
      (lm : LogManager) (lsn : ℤ) (s : Pool E)
      → Fits os lm
      → (flush_with E (some lm) lsn s).1 ≡ ok tt
      → IsLogged lsn lm s (flush_with E (some lm) lsn s).0
  unfolding flush_with
  flush_with-IsLogged lm lsn s fits h = elim (Bool-cases (ltb_ℤ lm.persist_lsn lsn)) [
    | inl low ↦ rw low (inr (flushed-bytes os lm s.disk_manager fits (ground arith)))
    | inr high ↦ rw high (inl (ground arith))
  ]

  -- What a completed write-back of frame `f` has done: its page is clean, it is on disk if it was
  -- written, and nothing else changed.
  pub record Written (written : Bool) (f : ℕ) (s t : Pool E) : Type 0 where
    pub size : t.pool_size ≡ s.pool_size
    pub ids : (g : ℕ) → (t.pages g).id ≡ (s.pages g).id
    pub contents : (g : ℕ) → (t.pages g).content ≡ (s.pages g).content
    pub pins : (g : ℕ) → (t.pages g).pin_count ≡ (s.pages g).pin_count
    pub dirty : (g : ℕ) → (t.pages g).is_dirty ≡ ite (ℕ_discrete g f) false (s.pages g).is_dirty
    pub table : t.page_table ≡ s.page_table
    pub free : t.free_list ≡ s.free_list
    pub policy : t.replacer ≡ s.replacer
    pub fd2pageno : t.disk_manager.fd2pageno ≡ s.disk_manager.fd2pageno
    pub reads :
        (j : PageId)
        → read_at t j ≡ (
            if written
            then ite (PageId-discrete j (s.pages f).id) (whole (s.pages f).content) (read_at s j)
            else read_at s j)

  Transfer-cases : (r : Transfer (Unit {0})) → (r ≡ whole tt) ⊎ (checked os r ≢ ok tt)
  Transfer-cases (whole tt) = inl refl
  Transfer-cases seek_error = inr (λ e. cc)
  Transfer-cases short = inr (λ e. cc)

  write_clean-whole :
      (f : ℕ) (s : Pool E)
      → (write_clean E f s).1 ≡ ok tt
      → (os.write s.disk_manager.world (s.pages f).id (s.pages f).content).1 ≡ whole tt
  unfolding write_clean write_page
  write_clean-whole f s h =
      elim (Transfer-cases (os.write s.disk_manager.world (s.pages f).id (s.pages f).content).1) [
        | inl e ↦ e
        | inr n ↦ absurd (ground arith)
      ]

  write_clean-Written :
      (f : ℕ) (s : Pool E) → (write_clean E f s).1 ≡ ok tt → Written true f s (write_clean E f s).0
  unfolding write_clean write_page
  write_clean-Written f s h =
      let e = write_clean-whole f s h in
      rw (e, write_clean, write_page)
        (record {
          size = refl;
          ids = λ g. ground arith;
          contents = λ g. ground arith;
          pins = λ g. ground arith;
          dirty = λ g. ground arith;
          table = refl;
          free = refl;
          policy = refl;
          fd2pageno = refl;
          reads = λ j. read-write _ (s.pages f).id j (s.pages f).content e;
        })

  -- A chain that succeeds is its second part, run on what its first part left.
  pub bind-ok :
      {A B : Type 0} (m : Pool E × Result A) (k : A → Pool E → Pool E × Result B) (b : B)
      → (bind E m k).1 ≡ ok b
      → (a : A) × (m.1 ≡ ok a) × (bind E m k ≡ k a m.0)
  bind-ok (s, ok a) k b h = (a, refl, refl)
  bind-ok (s, throw e) k b h = cc

  Flushed-Written : (f : ℕ) (s t u : Pool E) → Flushed s t → Written true f t u → Written true f s u
  Flushed-Written f s t u a b = record {
    size = b.size ∙ a.size;
    ids = λ g. ground (arith, a.pages, b.ids g);
    contents = λ g. ground (arith, a.pages, b.contents g);
    pins = λ g. ground (arith, a.pages, b.pins g);
    dirty = λ g. ground (arith, a.pages, b.dirty g);
    table = b.table ∙ a.table;
    free = b.free ∙ a.free;
    policy = b.policy ∙ a.policy;
    fd2pageno = b.fd2pageno ∙ a.fd2pageno;
    reads = λ j. ground (arith, a.pages, a.reads j, b.reads j);
  }

  pub write_back-Written :
      (f : ℕ) (s : Pool E) → (write_back E f s).1 ≡ ok tt → Written true f s (write_back E f s).0
  unfolding write_back flush_log_for
  write_back-Written f s h =
      let lsn = page_lsn (s.pages f).content in
      let first = flush_with E s.log_manager lsn s in
      let (_, _, q) = bind-ok first (λ _. write_clean E f) tt h in
      rw q (
        Flushed-Written f s first.0 _ (flush_with-Flushed s.log_manager lsn s)
          (write_clean-Written f first.0 (sym (ap (λ x. x.1) q) ∙ h)))

  log_bytes-write_clean :
      (f : ℕ) (s : Pool E)
      → log_bytes (write_clean E f s).0.disk_manager.world ≡ log_bytes s.disk_manager.world
  unfolding write_clean write_page
  log_bytes-write_clean f s =
      let e = log_bytes-write s.disk_manager.world (s.pages f).id (s.pages f).content in
      ground (arith, e)

  Result-cases :
      {A : Type 0} (r : Result A) → ((a : A) × (r ≡ ok a)) ⊎ ((e : Error) × (r ≡ throw e))
  Result-cases (ok a) = inl (a, refl)
  Result-cases (throw e) = inr (e, refl)

  bind-throw :
      {A B : Type 0} (m : Pool E × Result A) (k : A → Pool E → Pool E × Result B) (e : Error)
      → m.1 ≡ throw e
      → (bind E m k).0 ≡ m.0
  bind-throw (s, ok a) k e h = cc
  bind-throw (s, throw d) k e h = refl

  bind-ran :
      {A B : Type 0} (m : Pool E × Result A) (k : A → Pool E → Pool E × Result B) (a : A)
      → m.1 ≡ ok a
      → bind E m k ≡ k a m.0
  bind-ran (s, ok b) k a h = ground arith
  bind-ran (s, throw d) k a h = cc

  -- The log goes first: if writing back a frame changes what any page reads on disk, whether or not
  -- the write-back then completes, then the number of the frame's page was not above the one that the
  -- log manager takes for persistent, or the log file now has the bytes of every record that was ever
  -- added, those on disk before and then those of the buffer; if there is a log manager, whose buffer
  -- is as full as its offset says.
  pub write_back-log_first :
      (f : ℕ) (s : Pool E) (lm : LogManager) (j : PageId)
      → s.log_manager ≡ some lm
      → Fits os lm
      → ¬ (read_at (write_back E f s).0 j ≡ read_at s j)
      → IsLogged (page_lsn (s.pages f).content) lm s (write_back E f s).0
  unfolding write_back flush_log_for
  write_back-log_first f s lm j there fits h =
      let lsn = page_lsn (s.pages f).content in
      let first = flush_with E s.log_manager lsn s in
      elim (Result-cases first.1) [
        | inl (_, done) ↦
            rw (bind-ran first (λ _. write_clean E f) tt done, log_bytes-write_clean f first.0)
              (subst (λ o. IsLogged lsn lm s (flush_with E o lsn s).0) (sym there)
                (flush_with-IsLogged lm lsn s fits
                  (subst (λ o. (flush_with E o lsn s).1 ≡ ok tt) there done)))
        | inr (e, failed) ↦ absurd (
            h (
              ap (λ (x : Pool E). read_at x j) (bind-throw first (λ _. write_clean E f) e failed)
              ∙ (flush_with-Flushed s.log_manager lsn s).reads j))
      ]

  Written-if :
      (b : Bool) (f : ℕ) (s : Pool E)
      → (s.pages f).is_dirty ≡ b
      → (if b then write_back E f s else (s, ok tt)).1 ≡ ok tt
      → Written b f s (if b then write_back E f s else (s, ok tt)).0
  Written-if true f s d h = write_back-Written f s h
  Written-if false f s d h = record {
    size = refl;
    ids = λ g. refl;
    contents = λ g. refl;
    pins = λ g. refl;
    dirty = λ g. ground arith;
    table = refl;
    free = refl;
    policy = refl;
    fd2pageno = refl;
    reads = λ j. refl;
  }

  pub write_back_dirty-Written :
      (f : ℕ) (s : Pool E)
      → (write_back_dirty E f s).1 ≡ ok tt
      → Written (s.pages f).is_dirty f s (write_back_dirty E f s).0
  unfolding write_back_dirty
  write_back_dirty-Written f s h = Written-if (s.pages f).is_dirty f s refl h
