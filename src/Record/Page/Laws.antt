-- ===== src/Record/Page/Laws.antt =====
-- What the operations on a page do to its records.
use claude_opus.Base.{
  ℕ, zero, suc, ◌≤◌, ◌<◌, ◌≡◌, ◌≢◌, refl, ap, ◌∙◌, List, Bool, true, false, none, some,
  if◌then◌else◌, ite, ℕ_discrete, arith, dec_lt,
}
use claude_opus.Record.Bitmap.{Bits, set, reset, is_set, next_bit, first_bit}
use claude_opus.Record.Bitmap.Laws.{set-is_set, reset-is_set}
use claude_opus.Record.Bitmap.Search.{next_bit-IsNext}
use claude_opus.Record.Page.{RmPage, insert_at, delete_at, update_at, count, IsConsistent, lookup}

count-same :
    (a b : Bits) (n : ℕ) → ((q : ℕ) → q < n → is_set b q ≡ is_set a q) → count b n ≡ count a n
unfolding count
count-same a b zero h = refl
count-same a b (suc n) h =
    ground (arith, h n (omega arith), count-same a b n (λ q l. h q (omega arith)))

count-write :
    (a b : Bits) (p n : ℕ) (v : Bool)
    → ((q : ℕ) → is_set b q ≡ ite (ℕ_discrete q p) v (is_set a q))
    → is_set a p ≢ v
    → p < n
    → (if v then suc (count a n) else count a n) ≡ (if v then count b n else suc (count b n))
unfolding count
count-write a b p zero v h d l = absurd (omega arith)
count-write a b p (suc n) v h d l = elim (ℕ_discrete n p) [
  | yes e ↦ let same = count-same a b n (λ q m. ground (arith, h q)) in ground (arith, h n, same)
  | no k ↦ ground (arith, h n, count-write a b p n v h d (omega arith))
]

count-le : (a : Bits) (n : ℕ) → count a n ≤ n
unfolding count
count-le a zero = omega arith
count-le a (suc n) = ground (arith, count-le a n)

count-full : (a : Bits) (n : ℕ) → ((q : ℕ) → q < n → is_set a q ≢ false) → count a n ≡ n
unfolding count
count-full a zero h = refl
count-full a (suc n) h =
    ground (arith, h n (omega arith), count-full a n (λ q l. h q (omega arith)))

-- On a page that has fewer records than slots, `first_bit` finds a free slot.
pub first_bit-free :
    (n : ℕ) (p : RmPage)
    → IsConsistent n p
    → p.num_records < n
    → (first_bit false p.bitmap n < n) × (is_set p.bitmap (first_bit false p.bitmap n) ≡ false)
unfolding first_bit
first_bit-free n p h l =
    let r = next_bit-IsNext false p.bitmap n 0 (omega arith) in
    elim (dec_lt (next_bit false p.bitmap n 0) n) [
      | yes found ↦ (found, r.found found)
      | no all ↦ absurd (
          let below = r.below in
          let full = count-full p.bitmap n (λ q m. r.first q (omega arith) (omega arith)) in
          let counted = h.counted in omega arith)
    ]

-- The first slot without a record.
pub record IsFirstFree (i n : ℕ) (p : RmPage) : Type 0 where
  pub below : i < n
  pub free : is_set p.bitmap i ≡ false
  pub first : (j : ℕ) → j < i → is_set p.bitmap j ≢ false

pub first_bit-IsFirstFree :
    (n : ℕ) (p : RmPage)
    → IsConsistent n p
    → p.num_records < n
    → IsFirstFree (first_bit false p.bitmap n) n p
unfolding first_bit
first_bit-IsFirstFree n p h l =
    let (below, free) = first_bit-free n p h l in
    let r = next_bit-IsNext false p.bitmap n 0 (omega arith) in
    record { below = below; free = free; first = λ j k. r.first j (omega arith) k }

-- Putting a record in a free slot of a consistent page: the page then has that record there, every
-- other slot as before, and its header still counts the records.
pub insert_at-lookup :
    (n i : ℕ) (buf : List ℕ) (p : RmPage)
    → IsConsistent n p
    → i < n
    → is_set p.bitmap i ≡ false
    → IsConsistent n (insert_at i buf p)
      × ((j : ℕ) → lookup (insert_at i buf p) j ≡ ite (ℕ_discrete j i) (some buf) (lookup p j))
unfolding insert_at
insert_at-lookup n i buf p h l free =
    let (bits, sets) = set-is_set n p.bitmap i h.bits l in
    let counts = count-write p.bitmap (set p.bitmap i) i n true sets (λ e. cc) l in
    (record { bits = bits; counted = ap suc h.counted ∙ counts }, λ j. ground (arith, sets j))

-- Deleting a record of a consistent page: its slot is free, every other slot is as before, and the
-- header still counts the records.
pub delete_at-lookup :
    (n i : ℕ) (p : RmPage)
    → IsConsistent n p
    → i < n
    → is_set p.bitmap i ≡ true
    → IsConsistent n (delete_at i p)
      × ((j : ℕ) → lookup (delete_at i p) j ≡ ite (ℕ_discrete j i) none (lookup p j))
unfolding delete_at
delete_at-lookup n i p h l there =
    let (bits, sets) = reset-is_set n p.bitmap i h.bits l in
    let counts = count-write p.bitmap (reset p.bitmap i) i n false sets (λ e. cc) l in
    let counted = h.counted in
    (record { bits = bits; counted = omega arith }, λ j. ground (arith, sets j))

-- Updating a record of a consistent page: its slot has the new record, every other slot is as
-- before, and the header still counts the records.
pub update_at-lookup :
    (n i : ℕ) (buf : List ℕ) (p : RmPage)
    → IsConsistent n p
    → is_set p.bitmap i ≡ true
    → IsConsistent n (update_at i buf p)
      × ((j : ℕ) → lookup (update_at i buf p) j ≡ ite (ℕ_discrete j i) (some buf) (lookup p j))
unfolding update_at
update_at-lookup n i buf p h there =
    (record { bits = h.bits; counted = h.counted }, λ j. ground arith)
