-- ===== src/BufferPool/Invariant.antt =====
-- When a buffer pool is consistent, and what its users see of it.
use claude_opus.Base.{ℕ, ◌<◌, ◌≡◌, ap, ◌≢◌, true, false, Option, none, some, mem, Distinct}
use claude_opus.Disk.{PageId, Transfer, whole}
use claude_opus.BufferPool.{Setup, Pool, invalid_page_id}
use claude_opus.BufferPool.WriteBack.{read_at}

module _ (E : Setup) where
  open E use {policy as R}

  -- A page is entered in the table exactly under the frame that holds it; free frames are blank;
  -- frames that may be reused are not pinned; and a page that nobody has pinned is on disk as it is
  -- in its frame, unless it is dirty.
  pub record Inv (s : Pool E) : Type 0 where
    pub mapped :
        (id : PageId) (f : ℕ)
        → s.page_table id ≡ some f
        → ((s.pages f).id ≡ id) × (f < s.pool_size) × (id.page_no ≢ invalid_page_id)
    pub resident :
        (f : ℕ) → (s.pages f).id.page_no ≢ invalid_page_id → s.page_table (s.pages f).id ≡ some f
    pub dirty_valid :
        (f : ℕ) → (s.pages f).is_dirty ≡ true → (s.pages f).id.page_no ≢ invalid_page_id
    pub free_distinct : Distinct s.free_list
    pub free_idle :
        (f : ℕ)
        → mem f s.free_list ≡ true
        → (f < s.pool_size)
          × ((s.pages f).pin_count ≡ 0)
          × ((s.pages f).id.page_no ≡ invalid_page_id)
    pub policy_valid : R.IsValid s.replacer
    pub policy_idle :
        (f : ℕ)
        → mem f (R.frames s.replacer) ≡ true
        → (f < s.pool_size) × ((s.pages f).pin_count ≡ 0)
    pub coherent :
        (id : PageId) (f : ℕ)
        → s.page_table id ≡ some f
        → (s.pages f).pin_count ≡ 0
        → (s.pages f).is_dirty ≡ false
        → read_at E s id ≡ whole (s.pages f).content

  -- The content of a page for the pool's users: that of its frame, or else what the disk reads.
  abbrev pub seen_in : Pool E → PageId → Option ℕ → Transfer E.format.Data
  seen_in s id none = read_at E s id
  seen_in s id (some f) = whole (s.pages f).content

  abbrev pub content : Pool E → PageId → Transfer E.format.Data
  content s id = seen_in s id (s.page_table id)

  -- Where table, disk and contents agree, the pools show the same.
  pub content-same :
      (s t : Pool E) (j : PageId)
      → t.page_table j ≡ s.page_table j
      → read_at E t j ≡ read_at E s j
      → ((g : ℕ) → (t.pages g).content ≡ (s.pages g).content)
      → content t j ≡ content s j
  content-same s t j table reads contents = rw table (seen (s.page_table j))
    where
      seen : (o : Option ℕ) → seen_in t j o ≡ seen_in s j o
      seen none = reads
      seen (some g) = ap whole (contents g)
