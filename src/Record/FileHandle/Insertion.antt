-- ===== src/Record/FileHandle/Insertion.antt =====
-- What a successful insertion into the first free page leaves.
use claude_opus.Base.{
  ◌≡◌, ◌≢◌, sym, ap, ◌∙◌, subst, inl, inr, ℕ, ℤ, ℤ-discrete, pos, true, false, Bool-cases, List,
  ◌==◌, if_neg, ◌<◌,
}
use claude_opus.Errors.{Result, ok}
use claude_opus.Disk.{PageId, whole}
use claude_opus.Txn.{Rid}
use claude_opus.LogRecord.{insert_log}
use claude_opus.BufferPool.{Setup}
use claude_opus.BufferPool.Invariant.{Inv, content}
use claude_opus.Record.Bitmap.{first_bit}
use claude_opus.Record.Layout.{FileHdr, rm_no_page}
use claude_opus.Record.Page.{RmPage, insert_at, IsConsistent}
use claude_opus.Record.Page.Laws.{IsFirstFree, first_bit-IsFirstFree}
use claude_opus.Record.FileHandle.{
  View, RmFileHandle, bind, unpin, fetch_page_handle, create_page_handle, log_change, change_page,
  page_at, insert_record, insert_in, rid_of, leave_if_full,
}
use claude_opus.Record.FileHandle.Change.{Kept, log_change-Kept}
use claude_opus.Record.FileHandle.Changes.{
  bind-ok, Handle, fetch_page_handle-Handle, Changed, Kept-trans, change_page-Kept, finish,
}
use claude_opus.Record.FileHandle.Deletion.{Kept-hdr}

module _ (E : Setup) (V : View E) where
  open E use {format.{Data}}
  open V use {view, Fits}

  -- The page counts fewer records than it has slots, and fits with one more.
  abbrev pub HasRoom : ℕ → List ℕ → RmPage → Type 0
  HasRoom n buf p =
      IsConsistent n p × (p.num_records < n) × Fits (insert_at (first_bit false p.bitmap n) buf p)

  leave_if_full-Kept :
      (f : ℕ) (id : PageId) (q : RmPage) (s t : RmFileHandle E V)
      → Kept E V f id q s t
      → Kept E V f id q s (leave_if_full E V f t)
  unfolding leave_if_full
  leave_if_full-Kept f id q s t k =
      elim (Bool-cases ((page_at E V t f).num_records == t.file_hdr.num_records_per_page)) [
        | inl y ↦ rw y (Kept-hdr E V f id q s t _ k)
        | inr n ↦ rw n k
      ]

  insert_in-Changed :
      (buf : List ℕ) (f i : ℕ) (p : ℤ) (id : PageId) (rid : Rid) (s m : RmFileHandle E V)
      → Handle E V f id s m
      → Fits (insert_at i buf (page_at E V m f))
      → (insert_in E V buf f i p m).1 ≡ ok rid
      → (rid ≡ rid_of E V p i)
        × Changed E V id s
            (insert_in E V buf f i p m).0
            (page_at E V m f)
            (insert_at i buf (page_at E V m f))
  unfolding insert_in
  insert_in-Changed buf f i p id rid s m a fits h =
      let u = leave_if_full E V f (change_page E V f (insert_at i buf) m) in
      let c =
        leave_if_full-Kept f id (insert_at i buf (page_at E V m f)) m
          (change_page E V f (insert_at i buf) m)
          (change_page-Kept E V f id (insert_at i buf) m a.held fits) in
      let l = log_change E V f (λ t. insert_log t buf (rid_of E V p i) u.tab_name) u in
      let back : Unit {0} → RmFileHandle E V → RmFileHandle E V × Result Rid =
        λ _ w. (w, ok (rid_of E V p i)) in
      let rest = λ (_ : Unit {0}) (t : RmFileHandle E V). bind E V (unpin E V f true t) back in
      let (_, done, e) = bind-ok E V l rest rid h in
      let k = log_change-Kept E V f id _ u c.held done in
      let kept =
        subst (λ (x : RmPage). Kept E V f id x m l.0) c.reads
          (Kept-trans E V f id _ (page_at E V u f) m u l.0 c k) in
      let (_, _, e') = bind-ok E V (unpin E V f true l.0) back rid (sym (ap (λ x. x.1) e) ∙ h) in
      let returned : ok (rid_of E V p i) ≡ ok rid =
        sym (ap (λ x. x.1) e') ∙ sym (ap (λ x. x.1) e) ∙ h in
      rw (e, e') (cc, finish E V f id (insert_at i buf (page_at E V m f)) s m l.0 a kept)

  create-fetches :
      (s : RmFileHandle E V)
      → s.file_hdr.first_free_page_no ≢ rm_no_page
      → create_page_handle E V s ≡ fetch_page_handle E V s.file_hdr.first_free_page_no s
  unfolding create_page_handle
  create-fetches s free = if_neg (ℤ-discrete s.file_hdr.first_free_page_no rm_no_page) free _ _

  -- An insertion into a file with a free page that succeeds puts the record in the first free slot of
  -- the first of these pages, and returns that place. No other page looks different, and the pool
  -- stays consistent. The page counts its records, has fewer of them than slots, and fits the bytes
  -- of a page with one more.
  pub insert_record-Changed :
      (s : RmFileHandle E V) (buf : List ℕ) (rid : Rid)
      → Inv E s.pool
      → s.file_hdr.first_free_page_no ≢ rm_no_page
      → ((d : Data)
          → content E s.pool (record { fd = s.fd; page_no = s.file_hdr.first_free_page_no })
            ≡ whole d
          → HasRoom s.file_hdr.num_records_per_page buf (view d))
      → (insert_record E V buf s).1 ≡ ok rid
      → (before : RmPage) × (i : ℕ) × IsFirstFree i s.file_hdr.num_records_per_page before
        × (rid ≡ record { page_no = s.file_hdr.first_free_page_no; slot_no = pos i })
        × Changed E V
            (record { fd = s.fd; page_no = s.file_hdr.first_free_page_no })
            s
            (insert_record E V buf s).0
            before
            (insert_at i buf before)
  unfolding insert_record
  insert_record-Changed s buf rid v free room h =
      let p = s.file_hdr.first_free_page_no in
      let id : PageId = record { fd = s.fd; page_no = p } in
      let m = create_page_handle E V s in
      let k = λ (f : ℕ) (t : RmFileHandle E V).
        insert_in E V buf f
          (first_bit false (page_at E V t f).bitmap t.file_hdr.num_records_per_page)
          (t.pool.pages f).id.page_no t in
      let (f, done, e) = bind-ok E V m k rid h in
      let fetched = create-fetches s free in
      let a =
        subst (λ (x : RmFileHandle E V). Handle E V f id s x) (sym (ap (λ x. x.0) fetched))
          (fetch_page_handle-Handle E V p s f v (sym (ap (λ x. x.1) fetched) ∙ done)) in
      let i = first_bit false (page_at E V m.0 f).bitmap m.0.file_hdr.num_records_per_page in
      let before = page_at E V m.0 f in
      let r =
        subst (λ (x : FileHdr). HasRoom x.num_records_per_page buf before) (sym a.file_hdr)
          (room (m.0.pool.pages f).content a.shows) in
      let own = (a.held.inv.mapped id f a.held.entered).0 in
      let (place, c) =
        insert_in-Changed buf f i (m.0.pool.pages f).id.page_no id rid s m.0 a r.2
          (sym (ap (λ x. x.1) e) ∙ h) in
      rw e (
        page_at E V m.0 f,
        i,
        subst (λ (x : FileHdr). IsFirstFree i x.num_records_per_page before) a.file_hdr
            (first_bit-IsFirstFree m.0.file_hdr.num_records_per_page before r.0 r.1),
        place ∙ ap (λ (x : PageId). rid_of E V x.page_no i) own,
        c,
      )
