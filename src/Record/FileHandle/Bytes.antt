-- ===== src/Record/FileHandle/Bytes.antt =====
-- The bytes of a page of a record file, as `RmPageHandle`'s constructor in rm_file_handle.h finds them:
-- behind the log sequence number come the two numbers of the header, the bitmap, and the slots.
use claude_opus.Base.{
  ℕ, zero, suc, ◌+◌, ◌*◌, ◌/◌, ◌%◌, ◌^◌, ◌≤◌, ◌<◌, ◌≡◌, refl, ap, sym, ◌∙◌, fun_ext, arith, ℤ, Bool,
  true, false, Bool-cases, inl, inr, ltb, ◌==◌, if◌then◌else◌, List, [], ◌∷◌, ◌++◌, length, map,
  take, drop, bytes_of, All,
}
use mathlib.Core.List.{append_assoc}
use claude_opus.LogRecord.{put_le, get_le, put_int32, get_int32}
use claude_opus.LogRecord.Words.{
  IsInt32, get_int32-put_int32, get_le-put_le, drop-put_int32, take-length, drop-length,
}
use claude_opus.Record.Bitmap.{Byte, Bits}
use claude_opus.Record.Page.{RmPage, update_at}

abbrev bit : Bool → ℕ
bit true = 1
bit false = 0

-- A byte from its bits, the highest first, and back.
abbrev pub pack : Byte → ℕ
pack (b7 ∷ b6 ∷ b5 ∷ b4 ∷ b3 ∷ b2 ∷ b1 ∷ b0 ∷ []) =
    128 * bit b7
    + 64 * bit b6
    + 32 * bit b5
    + 16 * bit b4
    + 8 * bit b3
    + 4 * bit b2
    + 2 * bit b1
    + bit b0
pack _ = 0

abbrev pub unpack : ℕ → Byte
unpack n =
    (n / 128 % 2 == 1)
    ∷ (n / 64 % 2 == 1)
    ∷ (n / 32 % 2 == 1)
    ∷ (n / 16 % 2 == 1)
    ∷ (n / 8 % 2 == 1)
    ∷ (n / 4 % 2 == 1)
    ∷ (n / 2 % 2 == 1)
    ∷ (n % 2 == 1)
    ∷ []

bit-is : (b : Bool) (n : ℕ) → n ≡ bit b → (n == 1) ≡ b
bit-is true n h = rw h refl
bit-is false n h = rw h refl

bit-le : (b : Bool) → bit b ≤ 1
bit-le true = omega arith
bit-le false = omega arith

unpack-pack : (x : Byte) → length x ≡ 8 → unpack (pack x) ≡ x
unpack-pack (b7 ∷ b6 ∷ b5 ∷ b4 ∷ b3 ∷ b2 ∷ b1 ∷ b0 ∷ []) h =
    let l7 = bit-le b7 in
    let l6 = bit-le b6 in
    let l5 = bit-le b5 in
    let l4 = bit-le b4 in
    let l3 = bit-le b3 in
    let l2 = bit-le b2 in
    let l1 = bit-le b1 in
    let l0 = bit-le b0 in
    let n = pack (b7 ∷ b6 ∷ b5 ∷ b4 ∷ b3 ∷ b2 ∷ b1 ∷ b0 ∷ []) in
    rw
      (
        bit-is b7 (n / 128 % 2) (omega arith),
        bit-is b6 (n / 64 % 2) (omega arith),
        bit-is b5 (n / 32 % 2) (omega arith),
        bit-is b4 (n / 16 % 2) (omega arith),
        bit-is b3 (n / 8 % 2) (omega arith),
        bit-is b2 (n / 4 % 2) (omega arith),
        bit-is b1 (n / 2 % 2) (omega arith),
        bit-is b0 (n % 2) (omega arith),
      )
      refl
unpack-pack ([]) h = absurd (omega (arith, h))
unpack-pack (a0 ∷ []) h = absurd (omega (arith, h))
unpack-pack (a0 ∷ a1 ∷ []) h = absurd (omega (arith, h))
unpack-pack (a0 ∷ a1 ∷ a2 ∷ []) h = absurd (omega (arith, h))
unpack-pack (a0 ∷ a1 ∷ a2 ∷ a3 ∷ []) h = absurd (omega (arith, h))
unpack-pack (a0 ∷ a1 ∷ a2 ∷ a3 ∷ a4 ∷ []) h = absurd (omega (arith, h))
unpack-pack (a0 ∷ a1 ∷ a2 ∷ a3 ∷ a4 ∷ a5 ∷ []) h = absurd (omega (arith, h))
unpack-pack (a0 ∷ a1 ∷ a2 ∷ a3 ∷ a4 ∷ a5 ∷ a6 ∷ []) h = absurd (omega (arith, h))
unpack-pack (a0 ∷ a1 ∷ a2 ∷ a3 ∷ a4 ∷ a5 ∷ a6 ∷ a7 ∷ a8 ∷ xs) h = absurd (omega (arith, h))

unpack_all : (bm : Bits) → All (λ x. length x ≡ 8) bm → map unpack (map pack bm) ≡ bm
unpack_all [] h = refl
unpack_all (x ∷ bm) h = rw (unpack-pack x h.0, unpack_all bm h.1) refl

length-map-pack : (bm : Bits) → length (map pack bm) ≡ length bm
length-map-pack [] = refl
length-map-pack (x ∷ bm) = ground (arith, length-map-pack bm)

drop-behind : (xs ys : List ℕ) (k : ℕ) → drop (length xs + k) (xs ++ ys) ≡ drop k ys
drop-behind [] ys k = let e : 0 + k ≡ k = omega arith in ap (λ n. drop n ys) e
drop-behind (x ∷ xs) ys k =
    let e : suc (length xs) + k ≡ suc (length xs + k) = omega arith in
    ap (λ n. drop n (x ∷ (xs ++ ys))) e ∙ drop-behind xs ys k

-- The slots from one on, one behind another.
abbrev pub slots_from : ℕ → ℕ → (ℕ → List ℕ) → List ℕ
slots_from i zero slots = []
slots_from i (suc n) slots = slots i ++ slots_from (suc i) n slots

slot_at :
    (size i n j : ℕ) (slots : ℕ → List ℕ) (pad : List ℕ)
    → j < n
    → ((k : ℕ) → k < i + n → length (slots k) ≡ size)
    → take size (drop (j * size) (slots_from i n slots ++ pad)) ≡ slots (i + j)
slot_at size i zero j slots pad l h = absurd (omega arith)
slot_at size i (suc n) zero slots pad l h =
    let rest = slots_from (suc i) n slots in
    let z : 0 * size ≡ 0 = omega arith in
    let here : i ≡ i + 0 = omega arith in
    ap (λ m. take size (drop m ((slots i ++ rest) ++ pad))) z
    ∙ ap (take size) (append_assoc (slots i) rest pad)
    ∙ ap (λ m. take m (slots i ++ (rest ++ pad))) (sym (h i (omega arith)))
    ∙ take-length (slots i) (rest ++ pad)
    ∙ ap slots here
slot_at size i (suc n) (suc j) slots pad l h =
    let rest = slots_from (suc i) n slots in
    let e = h i (omega arith) in
    let there : suc i + j ≡ i + suc j = omega arith in
    let behind : suc j * size ≡ length (slots i) + j * size = grind (arith, e) in
    ap (take size) (
      ap (drop (suc j * size)) (append_assoc (slots i) rest pad)
      ∙ ap (λ m. drop m (slots i ++ (rest ++ pad))) behind
      ∙ drop-behind (slots i) (rest ++ pad) (j * size))
    ∙ slot_at size (suc i) n j slots pad (omega arith) (λ k m. h k (omega arith))
    ∙ ap slots there

-- With records of a size, so many to a page, and a bitmap of a size.
module _ (size cap bitmap_size : ℕ) where
  -- A page that fits: its numbers have 4 bytes, its bitmap and its slots have their sizes, and it has
  -- no more slots.
  pub record IsPage (p : RmPage) : Type 0 where
    pub next : IsInt32 p.next_free_page_no
    pub counts : p.num_records < 256 ^ 4
    pub bitmap : length p.bitmap ≡ bitmap_size
    pub bytes : All (λ x. length x ≡ 8) p.bitmap
    pub records : (j : ℕ) → j < cap → length (p.slots j) ≡ size
    pub no_more : (j : ℕ) → cap ≤ j → p.slots j ≡ []

  -- The page behind the log sequence number.
  unfoldable pub read_body : List ℕ → RmPage
  read_body b =
      let slots = drop bitmap_size (drop 8 b) in
      record {
        next_free_page_no = get_int32 b;
        num_records = get_le 4 (drop 4 b);
        bitmap = map unpack (take bitmap_size (drop 8 b));
        slots = λ j. if ltb j cap then take size (drop (j * size) slots) else [];
      }

  unfoldable pub put_body : RmPage → List ℕ → List ℕ
  put_body p pad =
      put_int32 p.next_free_page_no
      ++ (put_le 4 p.num_records ++ (map pack p.bitmap ++ (slots_from 0 cap p.slots ++ pad)))

  unfoldable pub get_page : List ℕ → RmPage
  unfolding read_body
  get_page d = read_body (drop 4 d)

  -- The page is put over the bytes; what is behind the last slot stays.
  unfoldable pub put_page : RmPage → List ℕ → List ℕ
  unfolding put_body
  put_page p d = bytes_of 4 d ++ put_body p (drop (12 + bitmap_size + cap * size) d)

  page-ext :
      (p q : RmPage)
      → p.next_free_page_no ≡ q.next_free_page_no
      → p.num_records ≡ q.num_records
      → p.bitmap ≡ q.bitmap
      → p.slots ≡ q.slots
      → p ≡ q
  page-ext p q a b c e =
      ap (λ x. record p { next_free_page_no = x }) a
      ∙ ap (λ x. record p { next_free_page_no = q.next_free_page_no; num_records = x }) b
      ∙ ap (λ x. record q { bitmap = x; slots = p.slots }) c
      ∙ ap (λ x. record q { slots = x }) e

  from_0 : (j : ℕ) → 0 + j ≡ j
  from_0 j = omega arith

  header_gone :
      (p : RmPage) (bs : List ℕ)
      → drop 8 (put_int32 p.next_free_page_no ++ (put_le 4 p.num_records ++ bs)) ≡ bs
  unfolding put_int32 put_le
  header_gone p bs = refl

  read_body-put_body : (p : RmPage) (pad : List ℕ) → IsPage p → read_body (put_body p pad) ≡ p
  unfolding read_body put_body
  read_body-put_body p pad h =
      let slots = slots_from 0 cap p.slots ++ pad in
      let bm = map pack p.bitmap ++ slots in
      let size_of : bitmap_size ≡ length (map pack p.bitmap) =
        sym (length-map-pack p.bitmap ∙ h.bitmap) in
      page-ext (read_body (put_body p pad)) p (get_int32-put_int32 p.next_free_page_no _ h.next)
        (ap (get_le 4) (drop-put_int32 p.next_free_page_no _)
          ∙ get_le-put_le 4 p.num_records bm h.counts)
        (ap (λ x. map unpack (take bitmap_size x)) (header_gone p bm)
          ∙ ap (λ n. map unpack (take n bm)) size_of
          ∙ ap (map unpack) (take-length (map pack p.bitmap) slots)
          ∙ unpack_all p.bitmap h.bytes)
        (fun_ext (λ j. elim (Bool-cases (ltb j cap)) [
          | inl y ↦ rw y (
              ap (λ x. take size (drop (j * size) (drop bitmap_size x))) (header_gone p bm)
              ∙ ap (λ n. take size (drop (j * size) (drop n bm))) size_of
              ∙ ap (λ x. take size (drop (j * size) x)) (drop-length (map pack p.bitmap) slots)
              ∙ slot_at size 0 cap j p.slots pad (ground arith) (λ k l. h.records k (omega arith))
              ∙ ap p.slots (from_0 j))
          | inr n ↦ rw n (sym (h.no_more j (ground arith)))
        ]))

  -- What is written fits is read back.
  pub get_page-put_page : (p : RmPage) (d : List ℕ) → IsPage p → get_page (put_page p d) ≡ p
  unfolding get_page put_page bytes_of
  get_page-put_page p d h = read_body-put_body p _ h

  -- The log sequence number stands in front.
  unfoldable pub put_lsn : ℤ → List ℕ → List ℕ
  put_lsn n d = put_int32 n ++ drop 4 d

  pub get_page-put_lsn : (n : ℤ) (d : List ℕ) → get_page (put_lsn n d) ≡ get_page d
  unfolding get_page put_lsn
  get_page-put_lsn n d = ap read_body (drop-put_int32 n (drop 4 d))

  -- A page with another record in a slot fits.
  pub update_at-IsPage :
      (i : ℕ) (buf : List ℕ) (p : RmPage)
      → i < cap
      → length buf ≡ size
      → IsPage p
      → IsPage (update_at i buf p)
  unfolding update_at
  update_at-IsPage i buf p l e h = record {
    next = h.next;
    counts = h.counts;
    bitmap = h.bitmap;
    bytes = h.bytes;
    records = λ j m. ground (arith, e, h.records j m);
    no_more = λ j m. ground (arith, l, m, h.no_more j m);
  }
