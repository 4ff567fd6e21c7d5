-- ===== src/Record/Scan.antt =====
-- The scan of a record file: record/rm_scan.h and rm_scan.cpp. Its slot number is -1 in front of a
-- page's first slot.
use claude_opus.Base.{ℕ, zero, suc, ◌-◌, ℤ, pos, negsuc, Bool, true, false, ltb, leb}
use claude_opus.Errors.{Result, ok}
use claude_opus.BufferPool.{Setup}
use claude_opus.Record.Bitmap.{next_bit}
use claude_opus.Record.FileHandle.{View, RmFileHandle, bind, page_at, fetch_page_handle, unpin}

pub record RmScan : Type 0 where
  pub page_no : ℕ
  pub slot_no : ℤ

abbrev pub rm_first_record_page : ℕ
rm_first_record_page = 1

-- The position behind a slot.
abbrev pub behind : ℤ → ℕ
behind (pos i) = suc i
behind (negsuc i) = 0

module _ (E : Setup) (V : View E) where
  -- The page is searched and released.
  unfoldable pub search_page : ℕ → ℤ → RmFileHandle E V → RmFileHandle E V × Result ℕ
  unfolding fetch_page_handle next_bit unpin
  search_page page_no slot_no s = bind E V (fetch_page_handle E V (pos page_no) s) (λ f t.
      let i =
        next_bit true (page_at E V t f).bitmap t.file_hdr.num_records_per_page (behind slot_no) in
      bind E V (unpin E V f false t) (λ _ u. (u, ok i)))

  -- The loop of `next`, with so many pages left from the scan's page on.
  unfoldable pub next_in : ℕ → RmScan → RmFileHandle E V → RmFileHandle E V × Result RmScan
  unfolding search_page
  next_in zero c s = (s, ok c)
  next_in (suc left) c s = bind E V (search_page c.page_no c.slot_no s) (λ i t.
      elim (ltb i t.file_hdr.num_records_per_page) [
        | true ↦ (t, ok (record c { slot_no = pos i }))
        | false ↦ next_in left (record { page_no = suc c.page_no; slot_no = negsuc 0 }) t
      ])

  unfoldable pub next : RmScan → RmFileHandle E V → RmFileHandle E V × Result RmScan
  unfolding next_in
  next c s = next_in (s.file_hdr.num_pages - c.page_no) c s

  unfoldable pub new_scan : RmFileHandle E V → RmFileHandle E V × Result RmScan
  unfolding next
  new_scan s = next (record { page_no = rm_first_record_page; slot_no = negsuc 0 }) s

  unfoldable pub is_end : RmScan → RmFileHandle E V → Bool
  is_end c s = leb s.file_hdr.num_pages c.page_no
