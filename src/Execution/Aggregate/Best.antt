-- ===== src/Execution/Aggregate/Best.antt =====
-- What a count, a largest and a smallest value are.
use Prim.Native.Nat.{Ordering}
use mathlib.Core.List.{Mem, mem-cons_self, mem-cons_of_mem}
use claude_opus.Base.{
  ◌≡◌, ◌≢◌, refl, ap, sym, subst, ◌∙◌, ◌⊎◌, inl, inr, ℕ, zero, suc, ◌+◌, ◌*◌, ◌≤◌, arith, Bool,
  true, false, Bool-cases, Option, none, some, List, [], ◌∷◌, All, length, drop, take, bytes_of,
}
use claude_opus.LogRecord.{get_le, get_int32, get_int64}
use claude_opus.Errors.{Result, ok, throw}
use claude_opus.Common.{AggType, TabCol, ColMeta}
use claude_opus.Index.Order.{IsOrder, or_next}
use claude_opus.Index.Columns.{ColType, memcmp, compare_column, column-IsOrder}
use claude_opus.Execution.Conditions.{ColPos, get_col, compare_value}
use claude_opus.Execution.Aggregate.{
  Doubles, Acc, empty, is_count, accumulate, add_value, better, replaces,
}
use claude_opus.Execution.Aggregate.Fold.{fold, step, accumulate_found}

-- The bytes that a value of a type takes: any number, for a string.
abbrev pub type_size : ColType → ℕ
type_size ColType.type_int = 4
type_size ColType.type_float = 4
type_size ColType.type_bigint = 8
type_size ColType.type_datetime = 8
type_size ColType.type_string = 0

get_le-nil : (k : ℕ) → get_le k [] ≡ 0
unfolding get_le
get_le-nil zero = refl
get_le-nil (suc k) = refl

get_le-bytes_of : (k n : ℕ) (bs : List ℕ) → k ≤ n → get_le k (bytes_of n bs) ≡ get_le k bs
unfolding get_le bytes_of
get_le-bytes_of zero n bs h = refl
get_le-bytes_of (suc k) zero bs h = ground arith
get_le-bytes_of (suc k) (suc n) [] h =
    omega (arith, get_le-bytes_of k n [] (omega arith), get_le-nil k)
get_le-bytes_of (suc k) (suc n) (b ∷ bs) h =
    ap (λ x. b + 256 * x) (get_le-bytes_of k n bs (omega arith))

take-bytes_of : (k n : ℕ) (bs : List ℕ) → k ≤ n → n ≤ length bs → take k (bytes_of n bs) ≡ take k bs
unfolding bytes_of
take-bytes_of zero n bs h l = refl
take-bytes_of (suc k) zero bs h l = ground arith
take-bytes_of (suc k) (suc n) [] h l = ground arith
take-bytes_of (suc k) (suc n) (b ∷ bs) h l =
    ap (λ x. b ∷ x) (take-bytes_of k n bs (omega arith) (omega arith))

memcmp-bytes_of : (n : ℕ) (a bs : List ℕ) → memcmp n a (bytes_of n bs) ≡ memcmp n a bs
unfolding memcmp bytes_of
memcmp-bytes_of zero a bs = refl
memcmp-bytes_of (suc n) a bs = ap (or_next _) (memcmp-bytes_of n (drop 1 a) (drop 1 bs))

module _ (compare_float : List ℕ → List ℕ → Ordering) where
  -- To compare with the bytes that are kept is to compare with the value.
  compare-kept :
      (t : ColType) (len : ℕ) (a bs : List ℕ)
      → type_size t ≤ len
      → len ≤ length bs
      → compare_column compare_float t len a (bytes_of len bs)
        ≡ compare_column compare_float t len a bs
  unfolding compare_column get_int32 get_int64
  compare-kept ColType.type_int len a bs h l = rw (get_le-bytes_of 4 len bs h) refl
  compare-kept ColType.type_bigint len a bs h l = rw (get_le-bytes_of 8 len bs h) refl
  compare-kept ColType.type_datetime len a bs h l = rw (get_le-bytes_of 8 len bs h) refl
  compare-kept ColType.type_float len a bs h l =
      ap (compare_float (take 4 a)) (take-bytes_of 4 len bs h l)
  compare-kept ColType.type_string len a bs h l = memcmp-bytes_of len a bs

module _ (F : Doubles) (compare_float : List ℕ → List ℕ → Ordering) where
  -- What no value beats is not beaten by what takes its place.
  stays :
      {A : Type 0} (agg : AggType) (c : A → A → Ordering) (x y d : A)
      → IsOrder c
      → replaces F compare_float agg (c x y) ≡ false
      → replaces F compare_float agg (c d y) ≡ true
      → replaces F compare_float agg (c x d) ≡ false
  stays AggType.agg_max c x y d o h k = ground (
    arith,
    o.flips x y,
    o.flips d y,
    o.flips x d,
    o.flips y d,
    o.trans y d x,
    o.trans d x y,
    o.same x y d,
    o.same x d y,
    o.same y x d,
  )
  stays AggType.agg_min c x y d o h k = ground (
    arith,
    o.flips x y,
    o.flips d y,
    o.flips x d,
    o.flips y d,
    o.trans x d y,
    o.same x y d,
    o.same x d y,
    o.same y x d,
  )
  stays AggType.agg_none c x y d o h k = refl
  stays AggType.agg_count c x y d o h k = refl
  stays AggType.agg_sum c x y d o h k = refl

  beats-same :
      (agg : AggType) (o : Ordering) → o ≡ Ordering.eq → replaces F compare_float agg o ≡ false
  beats-same AggType.agg_max o e = rw e refl
  beats-same AggType.agg_min o e = rw e refl
  beats-same AggType.agg_none o e = refl
  beats-same AggType.agg_count o e = refl
  beats-same AggType.agg_sum o e = refl

  -- How a record's value compares with the largest, or with the smallest.
  abbrev pub Unbeaten : AggType → Ordering → Type 0
  Unbeaten AggType.agg_max o = o ≢ Ordering.gt
  Unbeaten AggType.agg_min o = o ≢ Ordering.lt
  Unbeaten _ o = Unit {0}

  Unbeaten-not_replaced :
      (agg : AggType) (o : Ordering) → replaces F compare_float agg o ≡ false → Unbeaten agg o
  Unbeaten-not_replaced AggType.agg_max o h = λ e. ground (arith, h, e)
  Unbeaten-not_replaced AggType.agg_min o h = λ e. ground (arith, h, e)
  Unbeaten-not_replaced AggType.agg_none o h = tt
  Unbeaten-not_replaced AggType.agg_count o h = tt
  Unbeaten-not_replaced AggType.agg_sum o h = tt

  module _ (agg : AggType) (col : ColMeta) (f : IsOrder compare_float)
      (sized : type_size col.type ≤ col.len) where
    abbrev value : List ℕ → List ℕ
    value r = drop col.offset r

    abbrev cmp : List ℕ → List ℕ → Ordering
    cmp a b = compare_value compare_float a b col.type col.len

    abbrev best : List (List ℕ) → Option (List ℕ) → Option (List ℕ)
    best [] o = o
    best (r ∷ rs) o = best rs (some (better F compare_float agg col (value r) o))

    -- The value is the column's of one of the records, and none of theirs is larger, or smaller.
    pub record IsBest (rs : List (List ℕ)) (v : List ℕ) : Type 0 where
      pub of_record : (r : List ℕ) × Mem r rs × (v ≡ bytes_of col.len (value r))
      pub extreme : All (λ r. Unbeaten agg (cmp (value r) v)) rs

    cmp-IsOrder : IsOrder cmp
    unfolding compare_value
    cmp-IsOrder = column-IsOrder compare_float col.type col.len f

    -- A value that is kept.
    abbrev IsKept : List ℕ → Type 0
    IsKept v = (y : List ℕ) × (v ≡ bytes_of col.len y) × (col.len ≤ length y)

    cmp-kept : (x v : List ℕ) (k : IsKept v) → cmp x v ≡ cmp x k.0
    unfolding compare_value
    cmp-kept x v k =
        ap (λ z. compare_column compare_float col.type col.len x z) k.1
        ∙ compare-kept compare_float col.type col.len x k.0 sized k.2

    abbrev beaten : List ℕ → List ℕ → Bool
    beaten x v = replaces F compare_float agg (cmp x v)

    abbrev next_best : List ℕ → List ℕ → List ℕ
    next_best d v = better F compare_float agg col d (some v)

    better-new : (d v : List ℕ) → beaten d v ≡ true → next_best d v ≡ bytes_of col.len d
    unfolding better
    better-new d v e = rw e refl

    better-old : (d v : List ℕ) → beaten d v ≡ false → next_best d v ≡ v
    unfolding better
    better-old d v e = rw e refl

    better-IsKept : (d v : List ℕ) → IsKept v → col.len ≤ length d → IsKept (next_best d v)
    better-IsKept d v k l = elim (Bool-cases (beaten d v)) [
      | inl e ↦ (d, better-new d v e, l)
      | inr e ↦ subst IsKept (sym (better-old d v e)) k
    ]

    better-unbeaten :
        (x d v : List ℕ)
        → IsKept v
        → col.len ≤ length d
        → beaten x v ≡ false
        → beaten x (next_best d v) ≡ false
    better-unbeaten x d v k l h = elim (Bool-cases (beaten d v)) [
      | inl e ↦
          ap (beaten x) (better-new d v e)
          ∙ ap (replaces F compare_float agg) (cmp-kept x (bytes_of col.len d) (d, refl, l))
          ∙ stays agg cmp x k.0 d cmp-IsOrder
              (ap (replaces F compare_float agg) (sym (cmp-kept x v k)) ∙ h)
              (ap (replaces F compare_float agg) (sym (cmp-kept d v k)) ∙ e)
      | inr e ↦ ap (beaten x) (better-old d v e) ∙ h
    ]

    better_self : (d v : List ℕ) → col.len ≤ length d → beaten d (next_best d v) ≡ false
    better_self d v l = elim (Bool-cases (beaten d v)) [
      | inl e ↦
          ap (beaten d) (better-new d v e)
          ∙ ap (replaces F compare_float agg) (cmp-kept d (bytes_of col.len d) (d, refl, l))
          ∙ beats-same agg (cmp d d) (ground (arith, cmp-IsOrder.flips d d))
      | inr e ↦ ap (beaten d) (better-old d v e) ∙ e
    ]

    -- What the rest of the records makes of a kept value.
    record Ends (rs : List (List ℕ)) (v : List ℕ) : Type 0 where
      last : List ℕ
      is_best : best rs (some v) ≡ some last
      keeps : (x : List ℕ) → beaten x v ≡ false → beaten x last ≡ false
      unbeaten : All (λ r. beaten (value r) last ≡ false) rs
      origin : (last ≡ v) ⊎ ((r : List ℕ) × Mem r rs × (last ≡ bytes_of col.len (value r)))

    best-Ends :
        (rs : List (List ℕ)) (v : List ℕ)
        → IsKept v
        → All (λ r. col.len ≤ length (value r)) rs
        → Ends rs v
    best-Ends [] v k h = record {
      last = v;
      is_best = refl;
      keeps = λ x e. e;
      unbeaten = tt;
      origin = inl refl;
    }
    best-Ends (r ∷ rs) v k h =
        let d = value r in
        let n = best-Ends rs (next_best d v) (better-IsKept d v k h.0) h.1 in
        record {
          last = n.last;
          is_best = n.is_best;
          keeps = λ x e. n.keeps x (better-unbeaten x d v k h.0 e);
          unbeaten = (n.keeps d (better_self d v h.0), n.unbeaten);
          origin = elim n.origin [
            | inl e ↦ elim (Bool-cases (beaten d v)) [
              | inl b ↦ inr (r, mem-cons_self, e ∙ better-new d v b)
              | inr b ↦ inl (e ∙ better-old d v b)
            ]
            | inr (x, m, e) ↦ inr (x, mem-cons_of_mem r m, e)
          ];
        }

    all-Unbeaten :
        (v : List ℕ) (rs : List (List ℕ))
        → All (λ r. beaten (value r) v ≡ false) rs
        → All (λ r. Unbeaten agg (cmp (value r) v)) rs
    all-Unbeaten v [] h = tt
    all-Unbeaten v (r ∷ rs) h =
        (Unbeaten-not_replaced agg (cmp (value r) v) h.0, all-Unbeaten v rs h.1)

    best-IsBest :
        (r : List ℕ) (rs : List (List ℕ))
        → All (λ x. col.len ≤ length (value x)) (r ∷ rs)
        → (v : List ℕ) × (best (r ∷ rs) none ≡ some v) × IsBest (r ∷ rs) v
    unfolding better
    best-IsBest r rs h =
        let d = value r in
        let n = best-Ends rs (bytes_of col.len d) (d, refl, h.0) h.1 in
        (
          n.last,
          n.is_best,
          record {
            of_record = elim n.origin [
              | inl e ↦ (r, mem-cons_self, e)
              | inr (x, m, e) ↦ (x, mem-cons_of_mem r m, e)
            ];
            extreme = all-Unbeaten n.last (r ∷ rs) (
              n.keeps d (
                  ap (replaces F compare_float agg) (cmp-kept d (bytes_of col.len d) (d, refl, h.0))
                  ∙ beats-same agg (cmp d d) (ground (arith, cmp-IsOrder.flips d d))),
              n.unbeaten,
            );
          },
        )

  -- The largest and the smallest value.
  abbrev pub IsExtreme : AggType → Type 0
  IsExtreme AggType.agg_max = Unit {0}
  IsExtreme AggType.agg_min = Unit {0}
  IsExtreme _ = ⊥

  extreme-not_count : (agg : AggType) → IsExtreme agg → is_count agg ≡ false
  extreme-not_count AggType.agg_max x = refl
  extreme-not_count AggType.agg_min x = refl
  extreme-not_count AggType.agg_none x = elim x [ ]
  extreme-not_count AggType.agg_count x = elim x [ ]
  extreme-not_count AggType.agg_sum x = elim x [ ]

  add_value-minmax :
      (agg : AggType) (col : ColMeta) (bs : List ℕ) (a : Acc F compare_float)
      → IsExtreme agg
      → (add_value F compare_float agg col bs a).minmax
        ≡ some (better F compare_float agg col bs a.minmax)
  unfolding add_value
  add_value-minmax AggType.agg_max col bs a x = refl
  add_value-minmax AggType.agg_min col bs a x = refl
  add_value-minmax AggType.agg_none col bs a x = elim x [ ]
  add_value-minmax AggType.agg_count col bs a x = elim x [ ]
  add_value-minmax AggType.agg_sum col bs a x = elim x [ ]

  pub result-ok :
      (r : Result (Acc F compare_float)) (a b : Acc F compare_float)
      → r ≡ ok b
      → (elim r [ ok c ↦ c | throw g ↦ a ]) ≡ b
  result-ok (ok c) a b h = ground arith
  result-ok (throw g) a b h = ground arith

  module _ (cols : List ColMeta) (sc : TabCol) (p : ColPos) (e : get_col cols sc ≡ ok p) where
    step-minmax :
        (r : List ℕ) (a : Acc F compare_float)
        → IsExtreme sc.agg_type
        → (step F compare_float cols r sc a).minmax
          ≡ some (better F compare_float sc.agg_type p.col (drop p.col.offset r) a.minmax)
    step-minmax r a x =
        ap (λ b. b.minmax)
          (result-ok (accumulate F compare_float cols r sc a) a
            (add_value F compare_float sc.agg_type p.col (drop p.col.offset r) a)
            (accumulate_found F compare_float cols r sc a p (extreme-not_count sc.agg_type x) e))
        ∙ add_value-minmax sc.agg_type p.col (drop p.col.offset r) a x

    fold-best :
        (f : IsOrder compare_float) (sized : type_size p.col.type ≤ p.col.len) (rs : List (List ℕ))
        (a : Acc F compare_float)
        → IsExtreme sc.agg_type
        → (fold F compare_float cols rs sc a).minmax ≡ best sc.agg_type p.col f sized rs a.minmax
    fold-best f sized [] a x = refl
    fold-best f sized (r ∷ rs) a x =
        fold-best f sized rs (step F compare_float cols r sc a) x
        ∙ ap (best sc.agg_type p.col f sized rs) (step-minmax r a x)

  -- What `MAX` and `MIN` keep over at least one record: the column's bytes in one of the records, and
  -- no record's value is larger, or smaller; if the column is there, a number has the size of its type,
  -- all records are long enough, and the comparison of floats is an order.
  pub fold-IsBest :
      (cols : List ColMeta) (sc : TabCol) (p : ColPos) (r : List ℕ) (rs : List (List ℕ))
      → IsExtreme sc.agg_type
      → get_col cols sc ≡ ok p
      → (f : IsOrder compare_float) → (sized : type_size p.col.type ≤ p.col.len)
      → All (λ x. p.col.len ≤ length (drop p.col.offset x)) (r ∷ rs)
      → (v : List ℕ) × ((fold F compare_float cols (r ∷ rs) sc (empty F compare_float)).minmax
          ≡ some v)
        × IsBest sc.agg_type p.col f sized (r ∷ rs) v
  fold-IsBest cols sc p r rs x e f sized h =
      let (v, is, b) = best-IsBest sc.agg_type p.col f sized r rs h in
      (v, fold-best cols sc p e f sized (r ∷ rs) (empty F compare_float) x ∙ is, b)
