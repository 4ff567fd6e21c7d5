-- ===== src/Index/Columns.antt =====
-- `ix_compare` of index/ix_index_handle.h: keys are bytes, compared column by column. A column of
-- floats is compared by a parameter, the order of IEEE numbers that are not NaN; bytes past the end
-- of a key read as 0.
use Prim.Native.Nat.{Ordering, compare}
use claude_opus.Base.{ℕ, zero, suc, arith, List, [], ◌∷◌, drop, take, head_byte}
use claude_opus.LogRecord.{get_int32, get_int64}
use claude_opus.Index.Keys.{KeyOrder}
use claude_opus.Index.Order.{
  IsOrder, or_next, eq-IsOrder, pull-IsOrder, or_next-IsOrder, compare_ℤ, compare_ℤ-IsOrder,
}

pub data ColType : Type 0 where
  type_int type_float type_string type_bigint type_datetime : ColType

-- A column's `col_types_` and `col_lens_`.
pub record Column : Type 0 where
  pub type : ColType
  pub len : ℕ

unfoldable pub memcmp : ℕ → List ℕ → List ℕ → Ordering
memcmp zero a b = Ordering.eq
memcmp (suc n) a b = or_next (compare (head_byte a) (head_byte b)) (memcmp n (drop 1 a) (drop 1 b))

module _ (compare_float : List ℕ → List ℕ → Ordering) where
  unfoldable pub compare_column : ColType → ℕ → List ℕ → List ℕ → Ordering
  unfolding memcmp
  compare_column ColType.type_int len a b = compare_ℤ (get_int32 a) (get_int32 b)
  compare_column ColType.type_bigint len a b = compare_ℤ (get_int64 a) (get_int64 b)
  compare_column ColType.type_datetime len a b = compare_ℤ (get_int64 a) (get_int64 b)
  compare_column ColType.type_float len a b = compare_float (take 4 a) (take 4 b)
  compare_column ColType.type_string len a b = memcmp len a b

  unfoldable pub compare_columns : List Column → List ℕ → List ℕ → Ordering
  unfolding compare_column
  compare_columns [] a b = Ordering.eq
  compare_columns (c ∷ cs) a b =
      or_next (compare_column c.type c.len a b) (compare_columns cs (drop c.len a) (drop c.len b))

compare-IsOrder : IsOrder compare
compare-IsOrder = record {
  flips = λ a b. ground arith;
  same = λ a b d e. ground arith;
  trans = λ a b d e f. ground arith;
}

memcmp-IsOrder : (n : ℕ) → IsOrder (memcmp n)
unfolding memcmp
memcmp-IsOrder zero = eq-IsOrder
memcmp-IsOrder (suc n) =
    or_next-IsOrder (λ a b. compare (head_byte a) (head_byte b))
      (λ a b. memcmp n (drop 1 a) (drop 1 b)) (pull-IsOrder head_byte compare compare-IsOrder)
      (pull-IsOrder (drop 1) (memcmp n) (memcmp-IsOrder n))

pub column-IsOrder :
    (compare_float : List ℕ → List ℕ → Ordering) (t : ColType) (len : ℕ)
    → IsOrder compare_float
    → IsOrder (compare_column compare_float t len)
unfolding compare_column
column-IsOrder cf ColType.type_int len f = pull-IsOrder get_int32 compare_ℤ compare_ℤ-IsOrder
column-IsOrder cf ColType.type_bigint len f = pull-IsOrder get_int64 compare_ℤ compare_ℤ-IsOrder
column-IsOrder cf ColType.type_datetime len f = pull-IsOrder get_int64 compare_ℤ compare_ℤ-IsOrder
column-IsOrder cf ColType.type_float len f = pull-IsOrder (take 4) cf f
column-IsOrder cf ColType.type_string len f = memcmp-IsOrder len

-- `ix_compare` on any columns is an order in which keys may compare as the same, as the searches in
-- nodes and in the tree need it, if the comparison of floats is one.
pub compare_columns-IsOrder :
    (compare_float : List ℕ → List ℕ → Ordering) (cols : List Column)
    → IsOrder compare_float
    → IsOrder (compare_columns compare_float cols)
unfolding compare_columns
compare_columns-IsOrder cf [] f = eq-IsOrder
compare_columns-IsOrder cf (c ∷ cs) f =
    or_next-IsOrder (compare_column cf c.type c.len)
      (λ a b. compare_columns cf cs (drop c.len a) (drop c.len b))
      (column-IsOrder cf c.type c.len f)
      (pull-IsOrder (drop c.len) (compare_columns cf cs) (compare_columns-IsOrder cf cs f))

-- The interface that nodes and trees take, filled.
abbrev pub column_order :
    (compare_float : List ℕ → List ℕ → Ordering) → List Column → IsOrder compare_float → KeyOrder
column_order cf cols f =
    let o = compare_columns-IsOrder cf cols f in
    record {
      Key = List ℕ;
      ix_compare = compare_columns cf cols;
      compare_flip = o.flips;
      compare_same = o.same;
      compare_trans = o.trans;
    }
