-- ===== src/Record/FileHandle/Deletion.antt =====
-- What a successful deletion leaves.
use claude_opus.Base.{◌≡◌, ℕ, ℤ}
use claude_opus.Disk.{PageId}
use claude_opus.BufferPool.{Setup}
use claude_opus.Record.Layout.{FileHdr}
use claude_opus.Record.Page.{RmPage, delete_at}
use claude_opus.Record.FileHandle.{View, RmFileHandle}
use claude_opus.Record.FileHandle.Change.{Kept}

module _ (E : Setup) (V : View E) where
  open E use {format.{Data}}
  open V use {view, Fits}

  -- The page without the record, linked to the first free page.
  abbrev linked : ℕ → ℤ → RmPage → RmPage
  linked i n p = record (delete_at i p) { next_free_page_no = n }

  -- The page without the record, which is linked into the list of free pages if it was full.
  pub record IsDeleted (i : ℕ) (p q : RmPage) : Type 0 where
    pub slots : q.slots ≡ p.slots
    pub bitmap : q.bitmap ≡ (delete_at i p).bitmap
    pub num_records : q.num_records ≡ (delete_at i p).num_records

  -- The file's header is not part of any page.
  pub Kept-hdr :
      (f : ℕ) (id : PageId) (q : RmPage) (s t : RmFileHandle E V) (h : FileHdr)
      → Kept E V f id q s t
      → Kept E V f id q s (record t { file_hdr = h })
  Kept-hdr f id q s t h k = record {
    held = record { inv = k.held.inv; entered = k.held.entered; pinned = k.held.pinned };
    others = k.others;
    reads = k.reads;
  }
