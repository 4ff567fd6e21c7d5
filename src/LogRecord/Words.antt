-- ===== src/LogRecord/Words.antt =====
-- Words in bytes: what is written reads back.
use claude_opus.Base.{
  ℕ, zero, suc, ◌/◌, ◌^◌, ◌<◌, ◌≡◌, refl, ap, ◌∙◌, ℤ, pos, negsuc, List, [], ◌∷◌, ◌++◌, length,
  drop, take, arith,
}
use native.Mathlib.Nat.{mod-lt, div-lt_iff_lt-mul}
use mathlib.Core.List.{append_assoc}
use claude_opus.Txn.{Rid}
use claude_opus.LogRecord.{
  put_le, get_le, to_word, of_word, mod32, mod64, put_int32, get_int32, put_int64, get_int64,
  put_rid, get_rid,
}

-- The numbers that 4 or 8 bytes hold.
abbrev pub IsInt : ℕ → ℤ → Type 0
IsInt half (pos n) = n < half
IsInt half (negsuc n) = n < half

abbrev pub IsInt32 : ℤ → Type 0
IsInt32 = IsInt (2 ^ 31)

abbrev pub IsInt64 : ℤ → Type 0
IsInt64 = IsInt (2 ^ 63)

pub get_le-put_le : (k w : ℕ) (bs : List ℕ) → w < 256 ^ k → get_le k (put_le k w ++ bs) ≡ w
unfolding get_le put_le
get_le-put_le zero w bs h = omega arith
get_le-put_le (suc k) w bs h =
    let rest = get_le-put_le k (w / 256) bs ((div-lt_iff_lt-mul (omega arith)).1 (grind arith)) in
    omega arith

pub drop-put_le : (k w : ℕ) (bs : List ℕ) → drop k (put_le k w ++ bs) ≡ bs
unfolding put_le
drop-put_le zero w bs = refl
drop-put_le (suc k) w bs = drop-put_le k (w / 256) bs

of_word-to_word32 : (z : ℤ) → IsInt32 z → of_word mod32 (to_word mod32 z) ≡ z
unfolding of_word to_word
of_word-to_word32 (pos n) b = ground arith
of_word-to_word32 (negsuc n) b = ground arith

of_word-to_word64 : (z : ℤ) → IsInt64 z → of_word mod64 (to_word mod64 z) ≡ z
unfolding of_word to_word
of_word-to_word64 (pos n) b = ground arith
of_word-to_word64 (negsuc n) b = ground arith

to_word-lt : (m : ℕ) (z : ℤ) → 0 < m → to_word m z < m
unfolding to_word
to_word-lt m (pos n) h = mod-lt n h
to_word-lt m (negsuc n) h = omega arith

pub get_int32-put_int32 : (z : ℤ) (bs : List ℕ) → IsInt32 z → get_int32 (put_int32 z ++ bs) ≡ z
unfolding get_int32 put_int32
get_int32-put_int32 z bs h =
    ap (of_word mod32) (get_le-put_le 4 (to_word mod32 z) bs (to_word-lt mod32 z (omega arith)))
    ∙ of_word-to_word32 z h

pub get_int64-put_int64 : (z : ℤ) (bs : List ℕ) → IsInt64 z → get_int64 (put_int64 z ++ bs) ≡ z
unfolding get_int64 put_int64
get_int64-put_int64 z bs h =
    ap (of_word mod64) (get_le-put_le 8 (to_word mod64 z) bs (to_word-lt mod64 z (omega arith)))
    ∙ of_word-to_word64 z h

pub drop-put_int32 : (z : ℤ) (bs : List ℕ) → drop 4 (put_int32 z ++ bs) ≡ bs
unfolding put_int32
drop-put_int32 z bs = drop-put_le 4 (to_word mod32 z) bs

pub drop-put_int64 : (z : ℤ) (bs : List ℕ) → drop 8 (put_int64 z ++ bs) ≡ bs
unfolding put_int64
drop-put_int64 z bs = drop-put_le 8 (to_word mod64 z) bs

abbrev pub IsRid : Rid → Type 0
IsRid r = IsInt32 r.page_no × IsInt32 r.slot_no

pub get_rid-put_rid : (r : Rid) (bs : List ℕ) → IsRid r → get_rid (put_rid r ++ bs) ≡ r
unfolding get_rid put_rid
get_rid-put_rid r bs h =
    rw
      (
        append_assoc (put_int32 r.page_no) (put_int32 r.slot_no) bs,
        get_int32-put_int32 r.page_no (put_int32 r.slot_no ++ bs) h.0,
        drop-put_int32 r.page_no (put_int32 r.slot_no ++ bs),
        get_int32-put_int32 r.slot_no bs h.1,
      )
      refl

pub drop-put_rid : (r : Rid) (bs : List ℕ) → drop 8 (put_rid r ++ bs) ≡ bs
unfolding put_rid put_int32 put_le
drop-put_rid r bs = refl

pub take-length : (xs ys : List ℕ) → take (length xs) (xs ++ ys) ≡ xs
take-length [] ys = refl
take-length (x ∷ xs) ys = ap (λ (l : List ℕ). x ∷ l) (take-length xs ys)

pub drop-length : (xs ys : List ℕ) → drop (length xs) (xs ++ ys) ≡ ys
drop-length [] ys = refl
drop-length (x ∷ xs) ys = drop-length xs ys
