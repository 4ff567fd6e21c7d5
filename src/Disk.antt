-- ===== src/Disk.antt =====
-- The disk manager: storage/disk_manager.h and disk_manager.cpp, over the operating system's files.
-- A page is addressed by storage/page.h's `PageId`.
use claude_opus.Base.{
  ℕ, ℤ, ℤ-discrete, ◌≡◌, ite, pos, suc_ℤ, List, ◌++◌, not, ltb_ℤ, if◌then◌else◌, ◌||◌,
}
use claude_opus.Errors.{Error, Result, ok, throw}

pub record PageId : Type 0 where
  pub fd : ℤ
  pub page_no : ℤ

-- `operator==`.
unfoldable pub PageId-discrete : Discrete PageId
unfolding ℤ-discrete
PageId-discrete = hlevel ℤ-discrete

-- How `lseek` and then `read` or `write` end: with all bytes, with an error of `lseek`, or short.
pub data Transfer {ℓ} (A : Type ℓ) : Type ℓ where
  whole : A → Transfer A
  seek_error : Transfer A
  short : Transfer A

-- The operating system. Its laws say what it documents of completed calls: a page that was written
-- whole reads back, other pages and the log stay, and the log grows at its end.
pub record Os (Data : Type 0) : Type 1 where
  pub World : Type 0
  pub read : World → PageId → Transfer Data
  pub write : World → PageId → Data → World × Transfer (Unit {0})
  pub append_log : World → List ℕ → World × Transfer (Unit {0})
  pub log_bytes : World → List ℕ
  pub read-write :
      (w : World) (id j : PageId) (d : Data)
      → (write w id d).1 ≡ whole tt
      → read (write w id d).0 j ≡ ite (PageId-discrete j id) (whole d) (read w j)
  pub log_bytes-write :
      (w : World) (id : PageId) (d : Data) → log_bytes (write w id d).0 ≡ log_bytes w
  pub read-append_log :
      (w : World) (bs : List ℕ) (j : PageId) → read (append_log w bs).0 j ≡ read w j
  pub log_bytes-append_log :
      (w : World) (bs : List ℕ)
      → (append_log w bs).1 ≡ whole tt
      → log_bytes (append_log w bs).0 ≡ log_bytes w ++ bs

abbrev pub max_fd : ℕ
max_fd = 8192

module _ {Data : Type 0} (os : Os Data) where
  open os use {World, read, write, append_log}

  pub record DiskManager : Type 0 where
    pub world : World
    pub fd2pageno : ℤ → ℤ

  abbrev pub checked {ℓ} : {A : Type ℓ} → Transfer A → Result A
  checked (whole a) = ok a
  checked seek_error = throw Error.unix_error
  checked short = throw Error.internal_error

  unfoldable pub write_page : DiskManager → PageId → Data → DiskManager × Result (Unit {0})
  write_page dm id d = let (w, r) = write dm.world id d in (record dm { world = w }, checked r)

  unfoldable pub read_page : DiskManager → PageId → Result Data
  read_page dm id = checked (read dm.world id)

  -- `fd2pageno_[fd]++`, behind its assertion.
  unfoldable pub allocate_page : DiskManager → ℤ → DiskManager × Result ℤ
  unfolding ℤ-discrete
  allocate_page dm fd =
      if ltb_ℤ fd (pos 0) || not (ltb_ℤ fd (pos max_fd))
      then (dm, throw Error.assertion_failed)
      else (
        record dm {
          fd2pageno = λ k. ite (ℤ-discrete k fd) (suc_ℤ (dm.fd2pageno fd)) (dm.fd2pageno k);
        },
        ok (dm.fd2pageno fd),
      )

  unfoldable pub set_fd2pageno : DiskManager → ℤ → ℤ → DiskManager
  unfolding ℤ-discrete
  set_fd2pageno dm fd n = record dm { fd2pageno = λ k. ite (ℤ-discrete k fd) n (dm.fd2pageno k) }

  unfoldable pub get_fd2pageno : DiskManager → ℤ → ℤ
  get_fd2pageno dm fd = dm.fd2pageno fd

  unfoldable pub write_log : DiskManager → List ℕ → DiskManager × Result (Unit {0})
  write_log dm bs = let (w, r) = append_log dm.world bs in (record dm { world = w }, checked r)
