-- ===== src/BufferPool/Tests.antt =====
-- A pool of one frame over a file system in memory: a page is made, changed, released, evicted by
-- another and fetched again.
use claude_opus.Base.{
  some, sym, ◌∙◌, ℕ, ◌≡◌, refl, pos, inl, ite, ℕ_discrete, ℤ-discrete, true, List, [], ◌++◌, arith,
}
use claude_opus.Errors.{ok}
use claude_opus.Disk.{
  PageId, PageId-discrete, Os, Transfer, whole, short, DiskManager, write_page, read_page,
  allocate_page, write_log,
}
use claude_opus.LogManager.{LogManager, flush_log_to_disk}
use claude_opus.LogManager.Buffer.{Fits}
use claude_opus.Replacer.Lru.{init, victim, pin, unpin, size}
use claude_opus.Replacer.Lru.Policy.{lru}
use claude_opus.Replacer.Lru.Laws.{init-IsValid}
use claude_opus.BufferPool.{
  Setup, Pool, find_victim_page, fetch_page, unpin_page, new_page, delete_page, new_pool,
  frames_from, write_back, update_page,
}
use claude_opus.BufferPool.Invariant.{Inv}
use claude_opus.LogManager.{is_full, append, new_log_manager, add_log_to_buffer}
use claude_opus.LogRecord.{
  begin_log, serialize, serialize_header, put_le, put_int32, put_int64, to_word,
}
use claude_opus.BufferPool.Start.{new_pool-Inv}
use claude_opus.BufferPool.WriteBack.{read_at, IsLogged, write_back-log_first}
use claude_opus.BufferPool.Unpin.{Unpinned, unpin_page-Unpinned}
use claude_opus.BufferPool.Fetch.{Fetched, fetch_page-Fetched}
use claude_opus.BufferPool.Delete.{Freed, delete_page-Freed}
use claude_opus.BufferPool.Create.{Created, new_page-Created}

record Memory : Type 0 where
  pages : PageId → Transfer ℕ
  log : List ℕ

abbrev written : Memory → PageId → ℕ → Memory
written w id d = record w { pages = λ j. ite (PageId-discrete j id) (whole d) (w.pages j) }

abbrev memory : Os ℕ
memory = record {
  World = Memory;
  read = λ w id. w.pages id;
  write = λ w id d. (written w id d, whole tt);
  append_log = λ w bs. (record w { log = w.log ++ bs }, whole tt);
  log_bytes = λ w. w.log;
  read-write = λ w id j d h. refl;
  log_bytes-write = λ w id d. refl;
  read-append_log = λ w bs j. refl;
  log_bytes-append_log = λ w bs h. refl;
}

-- A page's content is its number in the log.
abbrev setup : Setup
setup = record {
  format = record { Data = ℕ; zeroed = 0; page_lsn = pos };
  os = memory;
  policy = lru;
}

abbrev disk : DiskManager memory
disk = record { world = record { pages = λ _. short; log = [] }; fd2pageno = λ _. pos 0 }

start : Pool setup
unfolding init
start = new_pool setup 1 disk (init 1) (pos 3)

start-Inv : Inv setup start
unfolding start init
start-Inv = new_pool-Inv setup 1 disk (init 1) (pos 3) (init-IsValid 1).0 (init-IsValid 1).1

abbrev first_page : PageId
first_page = record { fd = pos 3; page_no = pos 0 }

abbrev second_page : PageId
second_page = record { fd = pos 3; page_no = pos 1 }

-- Everything that a run of the pool computes with.
program : Unit {0}
unfolding init start victim pin unpin size find_victim_page fetch_page unpin_page update_page
    new_page delete_page write_back frames_from new_pool write_page read_page allocate_page
    write_log flush_log_to_disk new_log_manager add_log_to_buffer begin_log is_full append
    PageId-discrete ℤ-discrete ℕ_discrete
program = tt

made : Pool setup
made = (new_page setup (pos 3) start).0

new_page-Created_example :
    (first_page ≡ record { fd = pos 3; page_no = pos 0 }) × Created setup first_page 0 start made
unfolding program made
new_page-Created_example =
    new_page-Created setup start (pos 3) first_page 0 start-Inv refl (λ e. cc) refl

released : Pool setup
released = (unpin_page setup first_page true made).0

unpin_page-Unpinned_example :
    ((unpin_page setup first_page true made).1 ≡ ok true) × Unpinned setup 0 true made released
unfolding program made released
unpin_page-Unpinned_example =
    unpin_page-Unpinned setup made first_page 0 true new_page-Created_example.1.inv refl
      (λ e. absurd (omega arith)) (inl refl)

-- The second page takes the frame, and the first is written back.
evicted : Pool setup
evicted = (new_page setup (pos 3) released).0

evicted-Created : Created setup second_page 0 released evicted
unfolding program made released evicted
evicted-Created =
    (new_page-Created setup released (pos 3) second_page 0 unpin_page-Unpinned_example.1.inv refl
      (λ e. cc) refl).1

idle : Pool setup
idle = (unpin_page setup second_page true evicted).0

idle-Unpinned : Unpinned setup 0 true evicted idle
unfolding program made released evicted idle
idle-Unpinned =
    (unpin_page-Unpinned setup evicted second_page 0 true evicted-Created.inv refl
      (λ e. absurd (omega arith)) (inl refl)).1

fetch_page-Fetched_example : Fetched setup 0 first_page idle (fetch_page setup first_page idle).0
unfolding program made released evicted idle
fetch_page-Fetched_example =
    fetch_page-Fetched setup idle first_page 0 idle-Unpinned.inv (λ e. cc) refl

delete_page-Freed_example :
    (true ≡ true) × Freed setup second_page 0 idle (delete_page setup second_page idle).0
unfolding program made released evicted idle
delete_page-Freed_example =
    delete_page-Freed setup idle second_page 0 true idle-Unpinned.inv refl refl refl

-- A log record waits in the buffer.
logging : Pool setup
logging = record idle {
  log_manager = some (add_log_to_buffer memory new_log_manager disk (begin_log (pos 1))).0;
}

not_whole : {n : ℕ} → ¬ (whole n ≡ short)
not_whole e = cc

logging-before : read_at setup logging second_page ≡ short
unfolding program made released evicted idle logging
logging-before = refl

logging-after : read_at setup (write_back setup 0 logging).0 second_page ≡ whole 0
unfolding program made released evicted idle logging
logging-after = refl

one_record : LogManager
one_record = (add_log_to_buffer memory new_log_manager disk (begin_log (pos 1))).0

one_record-Fits : Fits memory one_record
unfolding one_record program begin_log serialize serialize_header put_le put_int32 put_int64 to_word
one_record-Fits = (refl, omega arith)

write_back-log_first_example :
    IsLogged setup (pos 0) one_record logging (write_back setup 0 logging).0
unfolding program made released evicted idle logging one_record
write_back-log_first_example =
    write_back-log_first setup 0 logging one_record second_page refl one_record-Fits
      (λ e. not_whole (sym logging-after ∙ e ∙ logging-before))
