-- ===== src/BufferPool.antt =====
-- The buffer pool: storage/page.h, storage/buffer_pool_manager.h and buffer_pool_manager.cpp.
-- A call takes the pool and returns it with its result or the exception it ends in; what was changed
-- before an exception stays changed. A frame is a number, and `nullptr` is `none`. The latch makes
-- each call one step. What a page's bytes mean is a parameter.
pub mod WriteBack
pub mod Invariant
pub mod Victim
pub mod Loaded
pub mod Load
pub mod Fetch
pub mod Unpin
pub mod Delete
pub mod Create
pub mod Start
mod Tests
use claude_opus.Base.{
  ℕ, zero, suc, ◌-◌, ℤ, ℤ-discrete, negsuc, ltb_ℤ, ℕ_discrete, Bool, true, false, ltb, ◌==◌,
  if◌then◌else◌, ite, Option, none, some, List, [], ◌∷◌, ◌++◌,
}
use claude_opus.Errors.{Result, ok, throw}
use claude_opus.Disk.{
  PageId, PageId-discrete, Os, DiskManager, read_page, write_page, allocate_page,
}
use claude_opus.LogManager.{LogManager, flush_log_to_disk}
use claude_opus.Replacer.{Replacer}

-- The content of a page, as far as the pool reads it: what `reset_memory` leaves, and the number
-- that `get_page_lsn` reads.
pub record PageFormat : Type 1 where
  pub Data : Type 0
  pub zeroed : Data
  pub page_lsn : Data → ℤ

abbrev pub invalid_page_id : ℤ
invalid_page_id = negsuc 0

-- What the pool is built over.
pub record Setup : Type 1 where
  pub format : PageFormat
  pub os : Os format.Data
  pub policy : Replacer

-- The frames from `i` on, `n` of them.
unfoldable pub frames_from : ℕ → ℕ → List ℕ
frames_from i zero = []
frames_from i (suc n) = i ∷ frames_from (suc i) n

module _ (E : Setup) where
  open E use {os, policy as R, format.{Data, zeroed, page_lsn}}

  pub record Page : Type 0 where
    pub id : PageId
    pub content : Data
    pub is_dirty : Bool
    pub pin_count : ℕ

  pub record Pool : Type 0 where
    pub pool_size : ℕ
    pub pages : ℕ → Page
    pub page_table : PageId → Option ℕ
    pub free_list : List ℕ
    pub disk_manager : DiskManager os
    pub replacer : R.State
    pub log_manager : Option LogManager

  abbrev pub M : Type 0 → Type 0
  M A = Pool → Pool × Result A

  abbrev pub bind : {A B : Type 0} → Pool × Result A → (A → M B) → Pool × Result B
  bind (s, ok a) f = f a s
  bind (s, throw e) f = (s, throw e)

  infixl 5 ◌>>=◌ ◌>>◌
  abbrev pub ◌>>=◌ : {A B : Type 0} → M A → (A → M B) → M B
  ◌>>=◌ m f s = bind (m s) f

  abbrev pub ◌>>◌ : {B : Type 0} → M (Unit {0}) → M B → M B
  m >> k = m >>= λ _. k

  abbrev pub return : {A : Type 0} → A → M A
  return a s = (s, ok a)

  abbrev pub modify : (Pool → Pool) → M (Unit {0})
  modify f s = (f s, ok tt)

  abbrev pub set_page : ℕ → (Page → Page) → Pool → Pool
  set_page f g s = record s { pages = λ k. ite (ℕ_discrete k f) (g (s.pages k)) (s.pages k) }

  abbrev pub set_table : PageId → Option ℕ → Pool → Pool
  set_table id v s = record s { page_table = λ j. ite (PageId-discrete j id) v (s.page_table j) }

  pub evict : Option (ℕ × R.State) → M (Option ℕ)
  evict none s = (s, ok none)
  evict (some (f, r)) s = (record s { replacer = r }, ok (some f))

  pub take_frame : List ℕ → M (Option ℕ)
  unfolding evict
  take_frame (f ∷ rest) s = (record s { free_list = rest }, ok (some f))
  take_frame [] s = evict (R.victim s.replacer) s

  -- `find_victim_page`: the first free frame, or else the policy's victim.
  unfoldable pub find_victim_page : M (Option ℕ)
  unfolding take_frame
  find_victim_page s = take_frame s.free_list s

  -- The lines that stand before every `write_page`: the log is flushed if there is a log manager and
  -- the page's number is above what is persistent.
  flush_with : Option LogManager → ℤ → M (Unit {0})
  flush_with none lsn s = (s, ok tt)
  flush_with (some lm) lsn s =
      if ltb_ℤ lm.persist_lsn lsn
      then (let (lm', dm, r) = flush_log_to_disk os lm s.disk_manager in
          (record s { log_manager = some lm'; disk_manager = dm }, r))
      else (s, ok tt)

  flush_log_for : ℕ → M (Unit {0})
  unfolding flush_with
  flush_log_for f s = flush_with s.log_manager (page_lsn (s.pages f).content) s

  -- `disk_manager_->write_page` of the frame's page.
  write_frame : ℕ → M (Unit {0})
  write_frame f s =
      let (dm, r) = write_page os s.disk_manager (s.pages f).id (s.pages f).content in
      (record s { disk_manager = dm }, r)

  write_clean : ℕ → M (Unit {0})
  unfolding write_frame
  write_clean f = do write_frame f; modify (set_page f (λ p. record p { is_dirty = false }))

  -- The write-back that five operations share.
  unfoldable pub write_back : ℕ → M (Unit {0})
  unfolding flush_log_for write_clean
  write_back f = do flush_log_for f; write_clean f

  pub write_back_dirty : ℕ → M (Unit {0})
  write_back_dirty f s = if (s.pages f).is_dirty then write_back f s else (s, ok tt)

  -- The page moves into the frame with zeroed content; an invalid page is not entered in the table.
  pub install : ℕ → PageId → Pool → Pool
  unfolding ℤ-discrete PageId-discrete ℕ_discrete
  install f id s =
      let erased = set_table (s.pages f).id none s in
      let entered =
        ite (ℤ-discrete id.page_no invalid_page_id) erased (set_table id (some f) erased) in
      set_page f (λ p. record p { id = id; content = zeroed }) entered

  -- `update_page`.
  unfoldable pub update_page : ℕ → PageId → M (Unit {0})
  unfolding install write_back_dirty
  update_page f id = do write_back_dirty f; modify (install f id)

  -- `replacer_->pin(frame_id)`.
  abbrev pub pin_frame : ℕ → Pool → Pool
  pin_frame f s = record s { replacer = R.pin s.replacer f }

  -- `read_page` into the frame, which throws before the frame is pinned.
  pub place : ℕ → Result Data → M (Unit {0})
  place f (ok d) s = (set_page f (λ p. record p { content = d }) s, ok tt)
  place f (throw e) s = (s, throw e)

  pub read_frame : ℕ → PageId → M (Unit {0})
  unfolding place
  read_frame f id s = place f (read_page os s.disk_manager id) s

  abbrev pub pin_once : ℕ → Pool → Pool
  pin_once f s = set_page f (λ p. record p { pin_count = 1 }) (pin_frame f s)

  pub load : PageId → Option ℕ → M (Option ℕ)
  unfolding read_frame
  load id none = return none
  load id (some f) = do update_page f id; read_frame f id; modify (pin_once f); return (some f)

  pub fetch_found : PageId → Option ℕ → M (Option ℕ)
  unfolding load
  fetch_found id (some f) s =
      (set_page f (λ p. record p { pin_count = suc p.pin_count }) (pin_frame f s), ok (some f))
  fetch_found id none s = (find_victim_page >>= load id) s

  unfoldable pub fetch_page : PageId → M (Option ℕ)
  unfolding fetch_found
  fetch_page id s = fetch_found id (s.page_table id) s

  -- One pin less; at none the frame goes to the policy.
  pub release : ℕ → Pool → Pool
  release f s =
      let released = set_page f (λ p. record p { pin_count = p.pin_count - 1 }) s in
      if (s.pages f).pin_count - 1 == 0
      then record released { replacer = R.unpin s.replacer f }
      else released

  pub unpin_found : Option ℕ → Bool → M Bool
  unfolding release
  unpin_found none is_dirty s = (s, ok false)
  unpin_found (some f) is_dirty s = if (s.pages f).pin_count == 0 then (s, ok false) else (
    (if is_dirty
        then set_page f (λ p. record p { is_dirty = true }) (release f s)
        else release f s),
    ok true,
  )

  unfoldable pub unpin_page : PageId → Bool → M Bool
  unfolding unpin_found
  unpin_page id is_dirty s = unpin_found (s.page_table id) is_dirty s

  pub flush_found : Option ℕ → M Bool
  flush_found none = return false
  flush_found (some f) = do write_back f; return true

  pub flush_page : PageId → M Bool
  unfolding flush_found
  flush_page id s = flush_found (s.page_table id) s

  pub allocate : ℤ → M ℤ
  allocate fd s =
      let (dm, r) = allocate_page os s.disk_manager fd in (record s { disk_manager = dm }, r)

  pub create : ℤ → Option ℕ → M (Option (PageId × ℕ))
  unfolding allocate
  create fd none = return none
  create fd (some f) = do
    page_no ← allocate fd
    update_page f (record { fd = fd; page_no = page_no })
    modify (pin_once f)
    return (some (record { fd = fd; page_no = page_no }, f))

  -- `new_page`: the new page's identifier and its frame.
  unfoldable pub new_page : ℤ → M (Option (PageId × ℕ))
  unfolding create
  new_page fd = find_victim_page >>= create fd

  -- The page leaves the table, and its frame is free.
  pub free_frame : PageId → ℕ → Pool → Pool
  free_frame id f s =
      let left = set_table id none s in
      let blank =
        set_page f
          (λ p. record p {
            id = record { fd = negsuc 0; page_no = invalid_page_id };
            content = zeroed;
          })
          left in
      record blank { free_list = s.free_list ++ f ∷ [] }

  pub delete_found : PageId → Option ℕ → M Bool
  unfolding free_frame
  delete_found id none s = (s, ok true)
  delete_found id (some f) s =
      if ltb 0 (s.pages f).pin_count
      then (s, ok false)
      else (do write_back_dirty f; modify (free_frame id f); return true) s

  pub delete_page : PageId → M Bool
  unfolding delete_found
  delete_page id s = delete_found id (s.page_table id) s

  -- The test in the loops over all frames: a valid page of the file.
  abbrev of_file : ℤ → Page → Bool
  of_file fd p =
      ite (ℤ-discrete p.id.fd fd) (ite (ℤ-discrete p.id.page_no invalid_page_id) false true) false

  flush_frame : ℤ → ℕ → M (Unit {0})
  flush_frame fd f s = if of_file fd (s.pages f) then write_back_dirty f s else (s, ok tt)

  delete_frame : ℤ → ℕ → M (Unit {0})
  delete_frame fd f s =
      if of_file fd (s.pages f)
      then (do
        write_back_dirty f
        modify (λ t. set_page f (λ p. record p { pin_count = 0 }) (free_frame (t.pages f).id f t)))
          s
      else (s, ok tt)

  -- `for (size_t i = 0; i < n; i++)`.
  each_frame : (ℕ → M (Unit {0})) → ℕ → M (Unit {0})
  each_frame body zero = return tt
  each_frame body (suc n) = do each_frame body n; body n

  pub flush_all_pages : ℤ → M (Unit {0})
  unfolding each_frame flush_frame
  flush_all_pages fd s = each_frame (flush_frame fd) s.pool_size s

  pub delete_all_pages : ℤ → M (Unit {0})
  unfolding each_frame delete_frame
  delete_all_pages fd s = each_frame (delete_frame fd) s.pool_size s

  -- The constructor: every frame is free.
  unfoldable pub new_pool : ℕ → DiskManager os → R.State → ℤ → Pool
  new_pool n dm r any_fd = record {
    pool_size = n;
    pages = λ _. record {
      id = record { fd = any_fd; page_no = invalid_page_id };
      content = zeroed;
      is_dirty = false;
      pin_count = 0;
    };
    page_table = λ _. none;
    free_list = frames_from 0 n;
    disk_manager = dm;
    replacer = r;
    log_manager = none;
  }
