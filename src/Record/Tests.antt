-- ===== src/Record/Tests.antt =====
-- A file of one page in memory, with two records in it.
use claude_opus.Base.{
  ◌≡◌, refl, ℕ, pos, negsuc, ite, ◌++◌, ℕ_discrete, ℤ-discrete, true, false, none, some, List, [],
  ◌∷◌, arith, ap, sym, subst, ◌∙◌, length, length-bytes_of, bytes_of, zeros, if◌then◌else◌, ltb,
  ◌<◌, ◌≤◌,
}
use claude_opus.LogRecord.{get_int32, put_int32, put_le, get_le}
use claude_opus.Disk.{PageId, PageId-discrete, Os, Transfer, whole, DiskManager, read_page}
use claude_opus.Txn.{Rid}
use claude_opus.Replacer.Lru.{init, victim, pin, unpin, size}
use claude_opus.Replacer.Lru.Policy.{lru}
use claude_opus.Replacer.Lru.Laws.{init-IsValid}
use claude_opus.BufferPool.{
  Setup, new_pool, frames_from, find_victim_page, update_page, write_back, fetch_page, unpin_page,
}
use claude_opus.BufferPool.Invariant.{Inv, content}
use claude_opus.BufferPool.Start.{new_pool-Inv}
use claude_opus.Record.Bitmap.{set, is_set, first_bit, init as init_bits}
use claude_opus.Record.Bitmap.Laws.{init-is_set}
use claude_opus.Record.Layout.{FileHdr}
use claude_opus.Record.Page.{RmPage, IsConsistent, lookup, insert_at, delete_at, update_at, count}
use claude_opus.Record.Page.Laws.{insert_at-lookup, IsFirstFree}
use claude_opus.Record.FileHandle.{
  insert_record, create_page_handle, delete_record, View, RmFileHandle, fetch_page_handle,
  log_change, update_record,
}
use claude_opus.Record.FileHandle.Insertion.{HasRoom, insert_record-Changed}
use claude_opus.Record.FileHandle.Bytes.{
  IsPage, get_page, put_page, put_lsn, get_page-put_page, get_page-put_lsn, update_at-IsPage,
}
use claude_opus.Record.FileHandle.Changes.{Changed, update_record-Changed}

abbrev record_of : ℕ → List ℕ
record_of b = bytes_of 100 (b ∷ [])

-- A page for 40 records of 100 bytes.
empty : RmPage
empty = record {
  next_free_page_no = negsuc 0;
  num_records = 0;
  bitmap = init_bits 5;
  slots = λ j. if ltb j 40 then record_of 0 else [];
}

empty-IsConsistent : IsConsistent 40 empty
unfolding empty count is_set init_bits
empty-IsConsistent = record {
  bits = record { whole = (init-is_set 5).0.whole; room = omega arith };
  counted = refl;
}

one : RmPage
one = insert_at 0 (record_of 7) empty

one-lookup :
    IsConsistent 40 one
    × ((j : ℕ) → lookup one j ≡ ite (ℕ_discrete j 0) (some (record_of 7)) (lookup empty j))
unfolding one empty is_set init_bits
one-lookup = insert_at-lookup 40 0 (record_of 7) empty empty-IsConsistent (omega arith) refl

empty-records : (j : ℕ) → j < 40 → length (empty.slots j) ≡ 100
unfolding empty
empty-records j l = ground (arith, length-bytes_of 100 (0 ∷ []))

empty-no_more : (j : ℕ) → 40 ≤ j → empty.slots j ≡ []
unfolding empty
empty-no_more j l = ground arith

empty-IsPage : IsPage 100 40 5 empty
unfolding empty init_bits
empty-IsPage = record {
  next = omega arith;
  counts = omega arith;
  bitmap = refl;
  bytes = (refl, (refl, (refl, (refl, (refl, tt)))));
  records = empty-records;
  no_more = empty-no_more;
}

with_record :
    (i b : ℕ) (p : RmPage)
    → i < 40
    → IsPage 100 40 5 p
    → IsPage 100 40 5 (update_at i (record_of b) p)
with_record i b p l h =
    update_at-IsPage 100 40 5 i (record_of b) p l (length-bytes_of 100 (b ∷ [])) h

one-IsPage : IsPage 100 40 5 one
unfolding one empty init_bits set insert_at update_at
one-IsPage =
    let h = with_record 0 7 empty (omega arith) empty-IsPage in
    record {
      next = omega arith;
      counts = omega arith;
      bitmap = refl;
      bytes = (refl, (refl, (refl, (refl, (refl, tt)))));
      records = h.records;
      no_more = h.no_more;
    }

made_hdr : FileHdr
made_hdr = record {
  record_size = 100;
  num_pages = 1;
  num_records_per_page = 40;
  first_free_page_no = negsuc 0;
  bitmap_size = 5;
}

abbrev Bytes : Type 0
Bytes = List ℕ

record Memory : Type 0 where
  pages : PageId → Transfer Bytes
  log : List ℕ

abbrev memory : Os Bytes
memory = record {
  World = Memory;
  read = λ w id. w.pages id;
  write = λ w id d.
      (record w { pages = λ j. ite (PageId-discrete j id) (whole d) (w.pages j) }, whole tt);
  append_log = λ w bs. (record w { log = w.log ++ bs }, whole tt);
  log_bytes = λ w. w.log;
  read-write = λ w id j d h. refl;
  log_bytes-write = λ w id d. refl;
  read-append_log = λ w bs j. refl;
  log_bytes-append_log = λ w bs h. refl;
}

abbrev setup : Setup
setup = record {
  format = record { Data = Bytes; zeroed = zeros 4096; page_lsn = get_int32 };
  os = memory;
  policy = lru;
}

abbrev laid : View setup
laid = record {
  view = get_page 100 40 5;
  store = put_page 100 40 5;
  set_page_lsn = put_lsn 100 40 5;
  Fits = IsPage 100 40 5;
  view-store = get_page-put_page 100 40 5;
  view-set_page_lsn = get_page-put_lsn 100 40 5;
}

abbrev one_bytes : List ℕ
one_bytes = put_page 100 40 5 one (zeros 4096)

one_bytes-read : get_page 100 40 5 one_bytes ≡ one
one_bytes-read = get_page-put_page 100 40 5 one (zeros 4096) one-IsPage

-- The page with one record is page 1 of the file, on disk.
abbrev disk : DiskManager memory
disk = record { world = record { pages = λ _. whole one_bytes; log = [] }; fd2pageno = λ _. pos 2 }

file : RmFileHandle setup laid
unfolding init
file = record {
  fd = pos 3;
  tab_name = [];
  file_hdr = record made_hdr { num_pages = 2 };
  pool = new_pool setup 1 disk (init 1) (pos 3);
  context = none;
}

file-Inv : Inv setup file.pool
unfolding file init
file-Inv = new_pool-Inv setup 1 disk (init 1) (pos 3) (init-IsValid 1).0 (init-IsValid 1).1

-- Everything that a call computes with.
program : Unit {0}
unfolding file made_hdr one empty init init_bits set is_set first_bit insert_at delete_at
    insert_record create_page_handle get_page put_page update_record delete_record victim pin unpin
    size find_victim_page update_page write_back fetch_page unpin_page read_page fetch_page_handle
    log_change new_pool frames_from PageId-discrete ℤ-discrete ℕ_discrete
program = tt

whole-inj : {a b : List ℕ} → whole a ≡ whole b → a ≡ b
whole-inj h = cc

abbrev page_1 : PageId
page_1 = record { fd = pos 3; page_no = pos 1 }

-- What is so of the page with one record is so of what the file has as page 1.
in_file :
    (P : RmPage → Type 0) (d : List ℕ)
    → P one
    → content setup file.pool page_1 ≡ whole d
    → P (get_page 100 40 5 d)
unfolding program bytes_of put_int32 put_le get_le
in_file P d h e = subst P (sym one_bytes-read ∙ ap (get_page 100 40 5) (whole-inj e)) h

update_record-Changed_example :
    (before : RmPage) × (is_set before.bitmap 0 ≡ true)
    × Changed setup laid page_1 file
        (update_record setup laid (pos 1) 0 (record_of 9) file).0
        before
        (update_at 0 (record_of 9) before)
unfolding program bytes_of put_int32 put_le get_le
update_record-Changed_example =
    update_record-Changed setup laid file (pos 1) 0 (record_of 9) file-Inv
      (λ d.
        in_file (λ p. IsPage 100 40 5 (update_at 0 (record_of 9) p)) d
          (with_record 0 9 one (omega arith) one-IsPage))
      refl

-- The page is in the list of free pages.
open_file : RmFileHandle setup laid
open_file = record file { file_hdr = record made_hdr { num_pages = 2; first_free_page_no = pos 1 } }

open_file-Inv : Inv setup open_file.pool
unfolding open_file
open_file-Inv = file-Inv

abbrev in_page : ℕ → Rid
in_page i = record { page_no = pos 1; slot_no = pos i }

two-IsPage : IsPage 100 40 5 (insert_at 1 (record_of 9) one)
unfolding one empty init_bits set insert_at update_at
two-IsPage =
    let h = with_record 1 9 one (omega arith) one-IsPage in
    record {
      next = omega arith;
      counts = omega arith;
      bitmap = refl;
      bytes = (refl, (refl, (refl, (refl, (refl, tt)))));
      records = h.records;
      no_more = h.no_more;
    }

first_free-of_one : first_bit false one.bitmap 40 ≡ 1
unfolding program bytes_of put_int32 put_le get_le
first_free-of_one = refl

one-HasRoom : HasRoom setup laid 40 (record_of 9) one
unfolding one insert_at empty
one-HasRoom = (
  one-lookup.0,
  omega arith,
  subst (λ n. IsPage 100 40 5 (insert_at n (record_of 9) one)) (sym first_free-of_one) two-IsPage,
)

insert_record-Changed_example :
    (before : RmPage) × (i : ℕ) × IsFirstFree i 40 before
    × (in_page 1 ≡ in_page i)
    × Changed setup laid page_1 open_file
        (insert_record setup laid (record_of 9) open_file).0
        before
        (insert_at i (record_of 9) before)
unfolding program open_file bytes_of put_int32 put_le get_le
insert_record-Changed_example =
    insert_record-Changed setup laid open_file (record_of 9) (in_page 1) open_file-Inv (λ e. cc)
      (λ d. in_file (HasRoom setup laid 40 (record_of 9)) d one-HasRoom) refl
