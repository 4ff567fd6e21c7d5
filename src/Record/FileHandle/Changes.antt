-- ===== src/Record/FileHandle/Changes.antt =====
-- What a successful update or deletion leaves, and what `get_record` returns.
use claude_opus.Base.{
  ◌≡◌, ◌≢◌, refl, sym, ap, ◌∙◌, subst, inl, inr, ℕ, ℤ, pos, Bool, true, false, Bool-cases, Option,
  none, some, arith, ltb_ℤ, ◌||◌, not, List,
}
use claude_opus.Errors.{Error, Result, ok, throw}
use claude_opus.Disk.{PageId, whole}
use claude_opus.LogRecord.{LogRecord, update_log}
use claude_opus.BufferPool.{Setup, Pool, fetch_page}
use claude_opus.BufferPool.Invariant.{Inv, content}
use claude_opus.BufferPool.Unpin.{unpin_page-Unpinned}
use claude_opus.BufferPool.Fetch.{Fetched, fetch_page-Fetched}
use claude_opus.Record.Bitmap.{is_set}
use claude_opus.Record.Page.{RmPage, update_at, lookup}
use claude_opus.Record.FileHandle.{
  View, RmFileHandle, bind, unpin, found, fetch_page_handle, log_change, change_page, page_at,
  get_record, get_in, update_record, update_in, not_found, rid_of,
}
use claude_opus.Record.FileHandle.Change.{Held, Kept, change_data-Kept, log_change-Kept}

module _ (E : Setup) (V : View E) where
  open E use {format.{Data}}
  open V use {view, store, Fits, view-store}

  -- A chain that succeeds is its second part, run on what its first part left.
  pub bind-ok :
      {A B : Type 0} (m : RmFileHandle E V × Result A)
      (k : A → RmFileHandle E V → RmFileHandle E V × Result B) (b : B)
      → (bind E V m k).1 ≡ ok b
      → (a : A) × (m.1 ≡ ok a) × (bind E V m k ≡ k a m.0)
  bind-ok (s, ok a) k b h = (a, refl, refl)
  bind-ok (s, throw e) k b h = cc

  -- A fetched page is in the frame, pinned, as the pool or the disk had it, and no page looks
  -- different.
  pub record Handle (f : ℕ) (id : PageId) (s t : RmFileHandle E V) : Type 0 where
    pub held : Held E V f id t
    pub shows : content E s.pool id ≡ whole (t.pool.pages f).content
    pub same : (j : PageId) → content E t.pool j ≡ content E s.pool j
    pub file_hdr : t.file_hdr ≡ s.file_hdr

  found-Handle :
      (x : Pool E × Result (Option ℕ)) (s : RmFileHandle E V) (p : ℤ) (id : PageId) (f : ℕ)
      → ((g : ℕ) → x.1 ≡ ok (some g) → Fetched E g id s.pool x.0)
      → (bind E V (record s { pool = x.0 }, x.1) (found E V p)).1 ≡ ok f
      → Handle f id s (bind E V (record s { pool = x.0 }, x.1) (found E V p)).0
  unfolding found
  found-Handle (q, throw e) s p id f k h = cc
  found-Handle (q, ok none) s p id f k h = cc
  found-Handle (q, ok (some g)) s p id f k h =
      let e : g ≡ f = ground arith in
      let a = k f (ap (λ (n : ℕ). ok (some n)) e) in
      record {
        held = record {
          inv = a.inv;
          entered = a.entered;
          pinned = (let n = a.pins f in ground (arith, n));
        };
        shows = a.shows;
        same = a.same;
        file_hdr = refl;
      }

  pub fetch_page_handle-Handle :
      (p : ℤ) (s : RmFileHandle E V) (f : ℕ)
      → Inv E s.pool
      → (fetch_page_handle E V p s).1 ≡ ok f
      → Handle f (record { fd = s.fd; page_no = p }) s (fetch_page_handle E V p s).0
  unfolding fetch_page_handle
  fetch_page_handle-Handle p s f v h =
      let bad : Bool = not (ltb_ℤ p (pos s.file_hdr.num_pages)) || ltb_ℤ p (pos 0) in
      elim (Bool-cases bad) [
        | inl b ↦ absurd (ground arith)
        | inr good ↦ rw good (
            found-Handle (fetch_page E (record { fd = s.fd; page_no = p }) s.pool) s p
              (record { fd = s.fd; page_no = p }) f
              (λ g e.
                fetch_page-Fetched E s.pool (record { fd = s.fd; page_no = p }) g v
                  (λ q. ground arith) e)
              (ground arith))
      ]

  -- Releasing a changed page.
  pub record Released (s t : RmFileHandle E V) : Type 0 where
    pub inv : Inv E t.pool
    pub same : (j : PageId) → content E t.pool j ≡ content E s.pool j
    pub file_hdr : t.file_hdr ≡ s.file_hdr

  pub unpin-Released :
      (f : ℕ) (id : PageId) (s : RmFileHandle E V)
      → Held E V f id s
      → ((unpin E V f true s).1 ≡ ok tt) × Released s (unpin E V f true s).0
  unfolding unpin
  unpin-Released f id s h =
      let (done, u) = unpin_page-Unpinned E s.pool id f true h.inv h.entered h.pinned (inl refl) in
      rw ((h.inv.mapped id f h.entered).0, done)
        (refl, record { inv = u.inv; same = u.same; file_hdr = refl })

  -- One page was changed, from what a record file read in it before to what it reads afterwards.
  pub record Changed (id : PageId) (s t : RmFileHandle E V) (p q : RmPage) : Type 0 where
    pub inv : Inv E t.pool
    pub others : (j : PageId) → j ≢ id → content E t.pool j ≡ content E s.pool j
    pub before : (d : Data) × (content E s.pool id ≡ whole d) × (view d ≡ p)
    pub after : (d : Data) × (content E t.pool id ≡ whole d) × (view d ≡ q)

  pub Kept-trans :
      (f : ℕ) (id : PageId) (p q : RmPage) (s t u : RmFileHandle E V)
      → Kept E V f id p s t
      → Kept E V f id q t u
      → Kept E V f id q s u
  Kept-trans f id p q s t u a b = record {
    held = b.held;
    others = λ j d. b.others j d ∙ a.others j d;
    reads = b.reads;
  }

  pub change_page-Kept :
      (f : ℕ) (id : PageId) (g : RmPage → RmPage) (s : RmFileHandle E V)
      → Held E V f id s
      → Fits (g (page_at E V s f))
      → Kept E V f id (g (page_at E V s f)) s (change_page E V f g s)
  change_page-Kept f id g s h fits =
      let c = (s.pool.pages f).content in
      subst (λ (p : RmPage). Kept E V f id p s (change_page E V f g s))
        (view-store (g (view c)) c fits) (change_data-Kept E V f id (λ d. store (g (view d)) d) s h)

  -- A page that was fetched, changed and released.
  pub finish :
      (f : ℕ) (id : PageId) (q : RmPage) (s m t : RmFileHandle E V)
      → Handle f id s m
      → Kept E V f id q m t
      → Changed id s (unpin E V f true t).0 (page_at E V m f) q
  finish f id q s m t a k =
      let (_, r) = unpin-Released f id t k.held in
      record {
        inv = r.inv;
        others = λ j d. r.same j ∙ k.others j d ∙ a.same j;
        before = ((m.pool.pages f).content, a.shows, refl);
        after = (
          (t.pool.pages f).content,
          r.same id ∙ (let e = k.held.entered in ground arith),
          k.reads,
        );
      }

  pub not_found-throws :
      {A : Type 0} (f : ℕ) (p : ℤ) (i : ℕ) (s : RmFileHandle E V) (a : A)
      → (not_found E V {A = A} f p i s).1 ≢ ok a
  unfolding not_found
  not_found-throws {A = A} f p i s a h =
      let e = Error.record_not_found_error p (pos i) in
      let k : Unit {0} → RmFileHandle E V → RmFileHandle E V × Result A = λ _ t. (t, throw e) in
      let (_, _, q) = bind-ok (unpin E V f false s) k a h in
      let thrown : throw e ≡ ok a = sym (ap (λ x. x.1) q) ∙ h in cc

  -- A page that was fetched, logged, changed and released.
  logged_change-Changed :
      (f : ℕ) (id : PageId) (g : RmPage → RmPage) (r : ℤ → LogRecord) (s m : RmFileHandle E V)
      → Handle f id s m
      → Fits (g (page_at E V m f))
      → (bind E V (log_change E V f r m) (λ _ t. unpin E V f true (change_page E V f g t))).1
        ≡ ok tt
      → Changed id s
          (bind E V (log_change E V f r m) (λ _ t. unpin E V f true (change_page E V f g t))).0
          (page_at E V m f)
          (g (page_at E V m f))
  logged_change-Changed f id g r s m a fits h =
      let l = log_change E V f r m in
      let (_, done, q) = bind-ok l (λ _ t. unpin E V f true (change_page E V f g t)) tt h in
      let k = log_change-Kept E V f id r m a.held done in
      let c =
        change_page-Kept f id g l.0 k.held
          (subst (λ (p : RmPage). Fits (g p)) (sym k.reads) fits) in
      let kept =
        subst (λ (p : RmPage). Kept E V f id (g p) m (change_page E V f g l.0)) k.reads
          (Kept-trans f id (page_at E V m f) (g (page_at E V l.0 f)) m l.0 (change_page E V f g l.0)
            k c) in
      rw q (finish f id (g (page_at E V m f)) s m (change_page E V f g l.0) a kept)

  update_in-Changed :
      (p : ℤ) (i : ℕ) (buf : List ℕ) (f : ℕ) (b : Bool) (s m : RmFileHandle E V)
      → Handle f (record { fd = s.fd; page_no = p }) s m
      → Fits (update_at i buf (page_at E V m f))
      → (update_in E V p i buf f b m).1 ≡ ok tt
      → (b ≡ true)
        × Changed
            (record { fd = s.fd; page_no = p })
            s
            (update_in E V p i buf f b m).0
            (page_at E V m f)
            (update_at i buf (page_at E V m f))
  unfolding update_in
  update_in-Changed p i buf f false s m a fits h = absurd (not_found-throws f p i m tt h)
  update_in-Changed p i buf f true s m a fits h =
      let r = λ (t : ℤ). update_log t ((page_at E V m f).slots i) buf (rid_of E V p i) m.tab_name in
      (
        refl,
        logged_change-Changed f (record { fd = s.fd; page_no = p }) (update_at i buf) r s m a fits
            h,
      )

  -- An update that succeeds found the record there. It changes that record alone: the page reads as
  -- before but for the slot, and no other page looks different; the pool stays consistent. The changed
  -- page has to fit the bytes of a page.
  pub update_record-Changed :
      (s : RmFileHandle E V) (p : ℤ) (i : ℕ) (buf : List ℕ)
      → Inv E s.pool
      → ((d : Data)
          → content E s.pool (record { fd = s.fd; page_no = p }) ≡ whole d
          → Fits (update_at i buf (view d)))
      → (update_record E V p i buf s).1 ≡ ok tt
      → (before : RmPage) × (is_set before.bitmap i ≡ true)
        × Changed
            (record { fd = s.fd; page_no = p })
            s
            (update_record E V p i buf s).0
            before
            (update_at i buf before)
  unfolding update_record
  update_record-Changed s p i buf v fits h =
      let m = fetch_page_handle E V p s in
      let k = λ (f : ℕ) (t : RmFileHandle E V).
        update_in E V p i buf f (is_set (page_at E V t f).bitmap i) t in
      let (f, done, q) = bind-ok m k tt h in
      let a = fetch_page_handle-Handle p s f v done in
      let c =
        update_in-Changed p i buf f (is_set (page_at E V m.0 f).bitmap i) s m.0 a
          (fits (m.0.pool.pages f).content a.shows) (sym (ap (λ x. x.1) q) ∙ h) in
      rw q (page_at E V m.0 f, c.0, c.1)

  got_in :
      (p : ℤ) (i f : ℕ) (b : Bool) (t : RmFileHandle E V) (buf : List ℕ)
      → (get_in E V p i f b t).1 ≡ ok buf
      → (b ≡ true) × ((page_at E V t f).slots i ≡ buf)
  unfolding get_in
  got_in p i f false t buf h = absurd (not_found-throws f p i t buf h)
  got_in p i f true t buf h =
      let bytes = (page_at E V t f).slots i in
      let k : Unit {0} → RmFileHandle E V → RmFileHandle E V × Result (List ℕ) =
        λ _ u. (u, ok bytes) in
      let (_, _, q) = bind-ok (unpin E V f false t) k buf h in
      let e : ok bytes ≡ ok buf = sym (ap (λ x. x.1) q) ∙ h in (refl, cc)

  -- `get_record` returns the record that the page has in the slot, wherever the page is.
  pub get_record-lookup :
      (s : RmFileHandle E V) (p : ℤ) (i : ℕ) (buf : List ℕ)
      → Inv E s.pool
      → (get_record E V p i s).1 ≡ ok buf
      → (d : Data) × (content E s.pool (record { fd = s.fd; page_no = p }) ≡ whole d)
        × (lookup (view d) i ≡ some buf)
  unfolding get_record
  get_record-lookup s p i buf v h =
      let m = fetch_page_handle E V p s in
      let k =
        λ (f : ℕ) (t : RmFileHandle E V). get_in E V p i f (is_set (page_at E V t f).bitmap i) t in
      let (f, done, q) = bind-ok m k buf h in
      let a = fetch_page_handle-Handle p s f v done in
      let got : (get_in E V p i f (is_set (page_at E V m.0 f).bitmap i) m.0).1 ≡ ok buf =
        sym (ap (λ x. x.1) q) ∙ h in
      let (there, e) = got_in p i f (is_set (page_at E V m.0 f).bitmap i) m.0 buf got in
      ((m.0.pool.pages f).content, a.shows, rw there (ap some e))
