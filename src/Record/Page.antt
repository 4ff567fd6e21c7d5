-- ===== src/Record/Page.antt =====
-- A page of a record file: `RmPageHdr` and `RmPageHandle` of record/. A slot is the bytes at its
-- offset, and the slots of a page do not overlap.
use claude_opus.Base.{
  ℕ, zero, suc, ◌-◌, ℤ, List, Bool, true, false, Option, none, some, if◌then◌else◌, ite, ℕ_discrete,
  ◌≡◌, ◌<◌,
}
use claude_opus.Record.Bitmap.{Bits, set, reset, is_set}
use claude_opus.Record.Bitmap.Laws.{IsBitmap}
pub mod Laws

-- The page's header, bitmap and slots. A page that holds a record has a positive `num_records`.
pub record RmPage : Type 0 where
  pub next_free_page_no : ℤ
  pub num_records : ℕ
  pub bitmap : Bits
  pub slots : ℕ → List ℕ

-- `memcpy` into a slot.
abbrev pub put_slot : ℕ → List ℕ → (ℕ → List ℕ) → ℕ → List ℕ
put_slot i buf slots j = ite (ℕ_discrete j i) buf (slots j)

-- What the two insertions do with a slot.
unfoldable pub insert_at : ℕ → List ℕ → RmPage → RmPage
insert_at i buf p = record p {
  bitmap = set p.bitmap i;
  slots = put_slot i buf p.slots;
  num_records = suc p.num_records;
}

-- What `delete_record` does with a slot.
unfoldable pub delete_at : ℕ → RmPage → RmPage
delete_at i p = record p { bitmap = reset p.bitmap i; num_records = p.num_records - 1 }

-- What `update_record` does with a slot.
unfoldable pub update_at : ℕ → List ℕ → RmPage → RmPage
update_at i buf p = record p { slots = put_slot i buf p.slots }

-- The set positions below `n`.
unfoldable pub count : Bits → ℕ → ℕ
count bm zero = 0
count bm (suc n) = let rest = count bm n in if is_set bm n then suc rest else rest

-- The header counts the records.
pub record IsConsistent (n : ℕ) (p : RmPage) : Type 0 where
  pub bits : IsBitmap n p.bitmap
  pub counted : p.num_records ≡ count p.bitmap n

-- The page as what it is for: records by slot.
abbrev pub lookup : RmPage → ℕ → Option (List ℕ)
lookup p i = if is_set p.bitmap i then some (p.slots i) else none
