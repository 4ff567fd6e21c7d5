-- ===== src/Record/Layout.antt =====
-- The layout of a record file, as `create_file` of record/rm_manager.h computes it.
use claude_opus.Base.{
  ℕ, ◌+◌, ◌-◌, ◌*◌, ◌/◌, ◌≤◌, ◌<◌, ◌≡◌, ℤ, pos, negsuc, arith, ltb, ◌||◌, if◌then◌else◌, subst,
  Bool-cases, inl, inr,
}
use native.Mathlib.Nat.{le-div_iff_mul-le, div-mul-le_self, mul-le-mul_right}
use claude_opus.Errors.{Error, Result, ok, throw}

-- `RmFileHdr`.
pub record FileHdr : Type 0 where
  pub record_size : ℕ
  pub num_pages : ℕ
  pub num_records_per_page : ℕ
  pub first_free_page_no : ℤ
  pub bitmap_size : ℕ

abbrev pub page_size : ℕ
page_size = 4096

abbrev pub max_record_size : ℕ
max_record_size = 512

abbrev pub rm_no_page : ℤ
rm_no_page = negsuc 0

-- `sizeof(RmFileHdr)`, `OFFSET_PAGE_HDR` and `sizeof(RmPageHdr)`.
abbrev pub file_hdr_bytes : ℕ
file_hdr_bytes = 20

abbrev pub offset_page_hdr : ℕ
offset_page_hdr = 4

abbrev pub page_hdr_bytes : ℕ
page_hdr_bytes = 8

unfoldable pub records_per_page : ℕ → ℕ
records_per_page record_size = (8 * (page_size - 1 - file_hdr_bytes) + 1) / (1 + record_size * 8)

unfoldable pub bytes_for : ℕ → ℕ
bytes_for n = (n + 8 - 1) / 8

-- The header that `create_file` writes, or its refusal.
unfoldable pub create_file_hdr : ℤ → Result FileHdr
unfolding records_per_page bytes_for
create_file_hdr (negsuc n) = throw (Error.invalid_record_size_error (negsuc n))
create_file_hdr (pos record_size) =
    if ltb record_size 1 || ltb max_record_size record_size
    then throw (Error.invalid_record_size_error (pos record_size))
    else ok (record {
      record_size = record_size;
      num_pages = 1;
      num_records_per_page = records_per_page record_size;
      first_free_page_no = rm_no_page;
      bitmap_size = bytes_for (records_per_page record_size);
    })

-- Where the slots begin, and where one of them begins: `RmPageHandle` and `get_slot`.
unfoldable pub slots_offset : FileHdr → ℕ
slots_offset h = page_hdr_bytes + offset_page_hdr + h.bitmap_size

unfoldable pub slot_offset : FileHdr → ℕ → ℕ
unfolding slots_offset
slot_offset h slot_no = slots_offset h + slot_no * h.record_size

-- A page has room for its header, the bitmap and every slot; the bitmap has a bit for every slot,
-- and there are at least seven.
pub record IsLaidOut (h : FileHdr) : Type 0 where
  pub slots : (i : ℕ) → i < h.num_records_per_page → slot_offset h i + h.record_size ≤ page_size
  pub bits : h.num_records_per_page ≤ 8 * h.bitmap_size
  pub some_slots : 7 ≤ h.num_records_per_page

seven : (r : ℕ) → r ≤ 512 → 7 ≤ records_per_page r
unfolding records_per_page
seven r h = (le-div_iff_mul-le (omega arith)).1 (omega arith)

IsLaidOut-made :
    (r n : ℕ)
    → n * (1 + r * 8) ≤ 32601
    → 7 ≤ n
    → IsLaidOut (record {
      record_size = r;
      num_pages = 1;
      num_records_per_page = n;
      first_free_page_no = rm_no_page;
      bitmap_size = bytes_for n;
    })
unfolding slot_offset bytes_for
IsLaidOut-made r n h s = record {
  slots = λ i l. grind (arith, mul-le-mul_right r l);
  bits = omega arith;
  some_slots = s;
}

-- When `create_file` accepts a record size, every slot of a page lies behind its header and its
-- bitmap and within the page, the bitmap has a bit for every slot, and there are at least seven.
pub create_file_hdr-IsLaidOut : (r : ℤ) (h : FileHdr) → create_file_hdr r ≡ ok h → IsLaidOut h
unfolding create_file_hdr records_per_page
create_file_hdr-IsLaidOut (negsuc n) h e = cc
create_file_hdr-IsLaidOut (pos r) h e = elim (Bool-cases (ltb r 1 || ltb max_record_size r)) [
  | inl bad ↦ absurd (ground arith)
  | inr good ↦ subst IsLaidOut (ground arith) (
      IsLaidOut-made r (records_per_page r) (div-mul-le_self 32601 (1 + r * 8))
        (seven r (ground arith)))
]
