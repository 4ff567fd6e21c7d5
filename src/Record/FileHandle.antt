-- ===== src/Record/FileHandle.antt =====
-- The file handle: record/rm_file_handle.h and rm_file_handle.cpp, over the buffer pool. A call's
-- context is part of the state: its transaction's number and last log record, if there is one. A
-- slot number is never negative (the code would read in front of the bitmap).
use claude_opus.Base.{
  ◌≡◌, ℕ, zero, suc, ◌-◌, ℤ, pos, negsuc, ℤ-discrete, ltb_ℤ, Bool, true, false, not, ◌||◌, ◌==◌,
  if◌then◌else◌, ite, ℕ_discrete, Option, none, some, List, [], ◌∷◌,
}
use claude_opus.Errors.{Error, Result, ok, throw}
use claude_opus.Disk.{PageId}
use claude_opus.Txn.{Rid}
use claude_opus.LogRecord.{LogRecord, header, with_header, insert_log, delete_log, update_log}
use claude_opus.LogManager.{LogManager, Logged, add_log_to_buffer}
use claude_opus.BufferPool.{Setup, Pool, Page, fetch_page, unpin_page, new_page, set_page}
use claude_opus.Record.Bitmap.{init, is_set, first_bit}
use claude_opus.Record.Layout.{FileHdr, rm_no_page}
use claude_opus.Record.Page.{RmPage, insert_at, delete_at, update_at}
pub mod Change
pub mod Bytes
pub mod Changes
pub mod Deletion
pub mod Insertion

pub record Context : Type 0 where
  pub txn_id : ℤ
  pub prev_lsn : ℤ

-- How a record file reads a page's bytes: `RmPageHandle` lays its header, bitmap and slots over them,
-- behind the number that `set_page_lsn` writes.
pub record View (E : Setup) : Type 1 where
  pub view : E.format.Data → RmPage
  pub store : RmPage → E.format.Data → E.format.Data
  pub set_page_lsn : ℤ → E.format.Data → E.format.Data
  pub Fits : RmPage → Type 0
  pub view-store : (p : RmPage) (d : E.format.Data) → Fits p → view (store p d) ≡ p
  pub view-set_page_lsn : (n : ℤ) (d : E.format.Data) → view (set_page_lsn n d) ≡ view d

module _ (E : Setup) (V : View E) where
  open E use {os, format.{Data}}
  open V use {view, store, set_page_lsn}

  pub record RmFileHandle : Type 0 where
    pub fd : ℤ
    pub tab_name : List ℕ
    pub file_hdr : FileHdr
    pub pool : Pool E
    pub context : Option Context

  abbrev pub M : Type 0 → Type 0
  M A = RmFileHandle → RmFileHandle × Result A

  abbrev pub bind : {A B : Type 0} → RmFileHandle × Result A → (A → M B) → RmFileHandle × Result B
  bind (s, ok a) f = f a s
  bind (s, throw e) f = (s, throw e)

  infixl 5 ◌>>=◌ ◌>>◌
  abbrev pub ◌>>=◌ : {A B : Type 0} → M A → (A → M B) → M B
  ◌>>=◌ m f s = bind (m s) f

  abbrev pub ◌>>◌ : {B : Type 0} → M (Unit {0}) → M B → M B
  m >> k = m >>= λ _. k

  abbrev pub return : {A : Type 0} → A → M A
  return a s = (s, ok a)

  abbrev pub modify : (RmFileHandle → RmFileHandle) → M (Unit {0})
  modify f s = (f s, ok tt)

  abbrev pub raise : {A : Type 0} → Error → M A
  raise e s = (s, throw e)

  -- A call of the buffer pool.
  abbrev pub on_pool : {A : Type 0} → (Pool E → Pool E × Result A) → M A
  on_pool m s = let (p, r) = m s.pool in (record s { pool = p }, r)

  -- The page in a frame, and a change of it.
  abbrev pub page_at : RmFileHandle → ℕ → RmPage
  page_at s f = view (s.pool.pages f).content

  abbrev pub change_data : ℕ → (Data → Data) → RmFileHandle → RmFileHandle
  change_data f g s = record s {
    pool = set_page E f (λ p. record p { content = g p.content }) s.pool;
  }

  abbrev pub change_page : ℕ → (RmPage → RmPage) → RmFileHandle → RmFileHandle
  change_page f g = change_data f (λ d. store (g (view d)) d)

  -- `unpin_page(page->get_page_id(), is_dirty)`, whose result no caller looks at.
  unfoldable pub unpin : ℕ → Bool → M (Unit {0})
  unpin f is_dirty s = (do _ ← on_pool (unpin_page E (s.pool.pages f).id is_dirty); return tt) s

  pub found : ℤ → Option ℕ → M ℕ
  found page_no none = raise (Error.page_not_exist_error page_no)
  found page_no (some f) = return f

  unfoldable pub fetch_page_handle : ℤ → M ℕ
  unfolding found
  fetch_page_handle page_no s =
      if not (ltb_ℤ page_no (pos s.file_hdr.num_pages)) || ltb_ℤ page_no (pos 0)
      then (s, throw (Error.page_not_exist_error page_no))
      else (on_pool (fetch_page E (record { fd = s.fd; page_no = page_no })) >>= found page_no) s

  -- A new page has an empty bitmap and counts one page more; its slots are what the page holds.
  pub fresh_page : ℕ → RmFileHandle → RmFileHandle
  fresh_page f s =
      let cleared =
        change_page f
          (λ p. record p {
            bitmap = init s.file_hdr.bitmap_size;
            num_records = 0;
            next_free_page_no = rm_no_page;
          })
          s in
      record cleared { file_hdr = record s.file_hdr { num_pages = suc s.file_hdr.num_pages } }

  pub made : Option (PageId × ℕ) → M ℕ
  unfolding fresh_page
  made none = raise Error.internal_error
  made (some (id, f)) = do modify (fresh_page f); return f

  pub create_new_page_handle : M ℕ
  unfolding made
  create_new_page_handle s = (on_pool (new_page E s.fd) >>= made) s

  unfoldable pub create_page_handle : M ℕ
  unfolding create_new_page_handle fetch_page_handle ℤ-discrete
  create_page_handle s =
      ite (ℤ-discrete s.file_hdr.first_free_page_no rm_no_page) (create_new_page_handle s)
        (fetch_page_handle s.file_hdr.first_free_page_no s)

  unfoldable pub release_page_handle : ℕ → RmFileHandle → RmFileHandle
  release_page_handle f s =
      let linked =
        change_page f (λ p. record p { next_free_page_no = s.file_hdr.first_free_page_no }) s in
      record linked {
        file_hdr = record s.file_hdr { first_free_page_no = (s.pool.pages f).id.page_no };
      }

  -- What logging leaves: the transaction and the page get the record's number, unless it threw.
  pub logged : ℕ → Context → Logged os ℤ → M (Unit {0})
  logged f c (lm, dm, ok lsn) s =
      let written = record s {
        pool = record s.pool { log_manager = some lm; disk_manager = dm };
        context = some (record c { prev_lsn = lsn });
      } in
      (change_data f (set_page_lsn lsn) written, ok tt)
  logged f c (lm, dm, throw e) s =
      (record s { pool = record s.pool { log_manager = some lm; disk_manager = dm } }, throw e)

  -- `if (context && context->log_mgr_ && context->txn_)`: the record is logged.
  pub log_with : ℕ → (ℤ → LogRecord) → Option Context → Option LogManager → M (Unit {0})
  unfolding logged
  log_with f r none lm s = (s, ok tt)
  log_with f r (some c) none s = (s, ok tt)
  log_with f r (some c) (some lm) s =
      let rec = r c.txn_id in
      logged f c
        (add_log_to_buffer os lm s.pool.disk_manager
          (with_header (record (header rec) { prev_lsn = c.prev_lsn }) rec))
        s

  unfoldable pub log_change : ℕ → (ℤ → LogRecord) → M (Unit {0})
  unfolding log_with
  log_change f r s = log_with f r s.context s.pool.log_manager s

  abbrev pub rid_of : ℤ → ℕ → Rid
  rid_of page_no slot_no = record { page_no = page_no; slot_no = pos slot_no }

  -- The refusal that three operations share.
  pub not_found : {A : Type 0} → ℕ → ℤ → ℕ → M A
  unfolding unpin
  not_found f page_no slot_no = do
    unpin f false
    raise (Error.record_not_found_error page_no (pos slot_no))

  pub get_in : ℤ → ℕ → ℕ → Bool → M (List ℕ)
  unfolding not_found
  get_in page_no slot_no f false s = not_found f page_no slot_no s
  get_in page_no slot_no f true s =
      let bytes = (page_at s f).slots slot_no in (do unpin f false; return bytes) s

  unfoldable pub get_record : ℤ → ℕ → M (List ℕ)
  unfolding get_in
  get_record page_no slot_no = do
    f ← fetch_page_handle page_no
    λ s. get_in page_no slot_no f (is_set (page_at s f).bitmap slot_no) s

  -- `is_record`, which leaves the page pinned.
  pub is_record : ℤ → ℕ → M Bool
  is_record page_no slot_no = do
    f ← fetch_page_handle page_no
    λ s. (s, ok (is_set (page_at s f).bitmap slot_no))

  -- A page that is full leaves the list of free pages.
  unfoldable pub leave_if_full : ℕ → RmFileHandle → RmFileHandle
  leave_if_full f s =
      if (page_at s f).num_records == s.file_hdr.num_records_per_page
      then record s {
        file_hdr = record s.file_hdr { first_free_page_no = (page_at s f).next_free_page_no };
      }
      else s

  pub insert_in : List ℕ → ℕ → ℕ → ℤ → M Rid
  unfolding log_change unpin leave_if_full
  insert_in buf f slot_no page_no = do
    modify (change_page f (insert_at slot_no buf))
    modify (leave_if_full f)
    λ s. log_change f (λ t. insert_log t buf (rid_of page_no slot_no) s.tab_name) s
    unpin f true
    return (rid_of page_no slot_no)

  unfoldable pub insert_record : List ℕ → M Rid
  unfolding insert_in create_page_handle
  insert_record buf = do
    f ← create_page_handle
    λ s.
        insert_in buf f (first_bit false (page_at s f).bitmap s.file_hdr.num_records_per_page)
          (s.pool.pages f).id.page_no s

  pub restore_in : ℕ → List ℕ → ℕ → Bool → M (Unit {0})
  unfolding unpin
  restore_in slot_no buf f true = unpin f false
  restore_in slot_no buf f false = do modify (change_page f (insert_at slot_no buf)); unpin f true

  -- `insert_record(const Rid&, char*)`.
  unfoldable pub insert_record_at : ℤ → ℕ → List ℕ → M (Unit {0})
  unfolding restore_in fetch_page_handle
  insert_record_at page_no slot_no buf = do
    f ← fetch_page_handle page_no
    λ s. restore_in slot_no buf f (is_set (page_at s f).bitmap slot_no) s

  -- A page that was full before the deletion joins the list of free pages.
  unfoldable pub join_if_room : ℕ → RmFileHandle → RmFileHandle
  unfolding release_page_handle
  join_if_room f s =
      if suc (page_at s f).num_records == s.file_hdr.num_records_per_page
      then release_page_handle f s
      else s

  pub delete_in : ℤ → ℕ → ℕ → Bool → M (Unit {0})
  unfolding not_found log_change join_if_room
  delete_in page_no slot_no f false = not_found f page_no slot_no
  delete_in page_no slot_no f true = do
    λ s.
        log_change f
          (λ t. delete_log t ((page_at s f).slots slot_no) (rid_of page_no slot_no) s.tab_name) s
    modify (change_page f (delete_at slot_no))
    modify (join_if_room f)
    unpin f true

  unfoldable pub delete_record : ℤ → ℕ → M (Unit {0})
  unfolding delete_in fetch_page_handle
  delete_record page_no slot_no = do
    f ← fetch_page_handle page_no
    λ s. delete_in page_no slot_no f (is_set (page_at s f).bitmap slot_no) s

  pub update_in : ℤ → ℕ → List ℕ → ℕ → Bool → M (Unit {0})
  unfolding not_found log_change
  update_in page_no slot_no buf f false = not_found f page_no slot_no
  update_in page_no slot_no buf f true = do
    λ s.
        log_change f
          (λ t. update_log t ((page_at s f).slots slot_no) buf (rid_of page_no slot_no) s.tab_name)
          s
    modify (change_page f (update_at slot_no buf))
    unpin f true

  unfoldable pub update_record : ℤ → ℕ → List ℕ → M (Unit {0})
  unfolding update_in fetch_page_handle
  update_record page_no slot_no buf = do
    f ← fetch_page_handle page_no
    λ s. update_in page_no slot_no buf f (is_set (page_at s f).bitmap slot_no) s
