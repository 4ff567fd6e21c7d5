-- ===== src/Execution/Aggregate.antt =====
-- `AggregateExecutor` of execution/executor_aggregate.h: one record with a count, a sum, or the largest
-- or smallest value of a column. Sums are kept in a `double`, which is a parameter. A count is an exact
-- number until it is stored in 32 bits.
pub mod Fold
pub mod Row
pub mod Shown
pub mod Best
use Prim.Native.Nat.{Ordering}
use claude_opus.Base.{
  ℕ, zero, suc, ◌+◌, pos, Bool, true, false, if◌then◌else◌, Option, none, some, List, [], ◌∷◌, map,
  drop, bytes_of, write, zeros,
}
use claude_opus.Errors.{Result, ok, throw}
use claude_opus.Calls.{M, ◌>>=◌, ◌>>◌, return, modify, raise}
use claude_opus.LogRecord.{put_int32}
use claude_opus.Common.{AggType, TabCol, ColMeta}
use claude_opus.Index.Columns.{ColType}
use claude_opus.Execution.{Executor, on_child}
use claude_opus.Execution.Conditions.{get_col, compare_value}

-- The arithmetic of `double`: zero, the sum with a column's value, and the value that is stored.
pub record Doubles : Type 1 where
  pub Double : Type 0
  pub nought : Double
  pub add : Double → ColType → List ℕ → Double
  pub to_bytes : ColType → Double → List ℕ

-- The bytes that a sum of a column's type takes: none, for a string.
abbrev pub sum_size : ColType → ℕ
sum_size ColType.type_int = 4
sum_size ColType.type_float = 4
sum_size ColType.type_bigint = 8
sum_size ColType.type_datetime = 8
sum_size ColType.type_string = 0

abbrev pub is_count : AggType → Bool
is_count AggType.agg_count = true
is_count _ = false

-- `sc.alias.empty() ? sc.col_name : sc.alias`.
abbrev pub output_name : List ℕ → List ℕ → List ℕ
output_name col_name [] = col_name
output_name col_name (b ∷ bs) = b ∷ bs

-- An output column: a count is an `int`, all else has the column's type.
unfoldable pub output_col : List ColMeta → ℕ → TabCol → Result ColMeta
unfolding get_col
output_col child_cols offset sc =
    if is_count sc.agg_type
    then ok (record {
      tab_name = [];
      name = output_name sc.col_name sc.alias;
      type = ColType.type_int;
      len = 4;
      offset = offset;
    })
    else elim (get_col child_cols sc) [
      | ok p ↦ ok (record {
        tab_name = [];
        name = output_name sc.col_name sc.alias;
        type = p.col.type;
        len = p.col.len;
        offset = offset;
      })
      | throw e ↦ throw e
    ]

-- `output_cols_` and `len_`.
pub record Output : Type 0 where
  pub cols : List ColMeta
  pub len : ℕ

pub cons_col : ColMeta → Result Output → Result Output
cons_col col (ok o) = ok (record { cols = col ∷ o.cols; len = o.len })
cons_col col (throw e) = throw e

-- The constructor's loop.
unfoldable pub output_from : List ColMeta → ℕ → List TabCol → Result Output
unfolding output_col cons_col
output_from child_cols offset [] = ok (record { cols = []; len = offset })
output_from child_cols offset (sc ∷ scs) = elim (output_col child_cols offset sc) [
  | ok col ↦ cons_col col (output_from child_cols (offset + col.len) scs)
  | throw e ↦ throw e
]

pub record AggState (S : Type 0) : Type 0 where
  pub prev : S
  pub is_end : Bool
  pub result : List ℕ

module _ (F : Doubles) (compare_float : List ℕ → List ℕ → Ordering) where
  open F use {Double, nought, add, to_bytes}

  -- What is kept for a selected column: `cnt`, `sum`, and `minmax` where `has_val`.
  pub record Acc : Type 0 where
    pub cnt : ℕ
    pub sum : Double
    pub minmax : Option (List ℕ)

  abbrev pub empty : Acc
  empty = record { cnt = 0; sum = nought; minmax = none }

  -- Whether a value takes the kept one's place.
  abbrev pub replaces : AggType → Ordering → Bool
  replaces AggType.agg_max Ordering.gt = true
  replaces AggType.agg_min Ordering.lt = true
  replaces _ _ = false

  pub better : AggType → ColMeta → List ℕ → Option (List ℕ) → List ℕ
  unfolding compare_value
  better agg col bytes none = bytes_of col.len bytes
  better agg col bytes (some v) =
      if replaces agg (compare_value compare_float bytes v col.type col.len)
      then bytes_of col.len bytes
      else v

  pub add_value : AggType → ColMeta → List ℕ → Acc → Acc
  unfolding better
  add_value AggType.agg_sum col bytes a = record a { sum = add a.sum col.type bytes }
  add_value agg col bytes a = record a { minmax = some (better agg col bytes a.minmax) }

  -- One record's part in one selected column.
  unfoldable pub accumulate : List ColMeta → List ℕ → TabCol → Acc → Result Acc
  unfolding get_col add_value
  accumulate child_cols rec sc a =
      if is_count sc.agg_type
      then ok (record a { cnt = suc a.cnt })
      else elim (get_col child_cols sc) [
        | ok p ↦ ok (add_value sc.agg_type p.col (drop p.col.offset rec) a)
        | throw e ↦ throw e
      ]

  pub cons_acc : Result Acc → Result (List Acc) → Result (List Acc)
  cons_acc (ok a) (ok accs) = ok (a ∷ accs)
  cons_acc (ok a) (throw e) = throw e
  cons_acc (throw e) r = throw e

  unfoldable pub accumulate_all : List ColMeta → List ℕ → List TabCol → List Acc → Result (List Acc)
  unfolding accumulate cons_acc
  accumulate_all child_cols rec (sc ∷ scs) (a ∷ accs) =
      cons_acc (accumulate child_cols rec sc a) (accumulate_all child_cols rec scs accs)
  accumulate_all child_cols rec _ accs = ok []

  pub kept : ColMeta → Option (List ℕ) → List ℕ
  kept out none = []
  kept out (some v) = bytes_of out.len v

  -- What is written for a column; where there is nothing to write, its bytes stay 0.
  unfoldable pub final : AggType → ColMeta → Acc → List ℕ
  unfolding put_int32 kept
  final AggType.agg_count out a = put_int32 (pos a.cnt)
  final AggType.agg_sum out a = bytes_of (sum_size out.type) (to_bytes out.type a.sum)
  final agg out a = kept out a.minmax

  -- The loop that fills the result.
  unfoldable pub fill : List TabCol → List ColMeta → List Acc → List ℕ → List ℕ
  unfolding final write
  fill (sc ∷ scs) (out ∷ outs) (a ∷ accs) rec =
      fill scs outs accs (write out.offset (final sc.agg_type out a) rec)
  fill _ _ _ rec = rec

  module _ {W S : Type 0} (prev : Executor W S) (sel_cols : List TabCol) (out : Output)
      (fuel : ℕ) where
    pub lift : {A T : Type 0} → Result A → M T A
    lift (ok a) = return a
    lift (throw e) = raise e

    -- `for (; !is_end(); nextTuple())` with the body of `beginTuple`.
    unfoldable pub consume : ℕ → List Acc → M (W × S) (List Acc)
    unfolding accumulate_all lift
    consume zero accs ws = none
    consume (suc n) accs ws = elim (prev.is_end ws) [
      | true ↦ return accs ws
      | false ↦
          (do
            rec ← prev.next
            accs' ← lift (accumulate_all prev.cols rec sel_cols accs)
            prev.next_tuple
            consume n accs')
            ws
    ]

    pub begin_tuple : M (W × AggState S) (Unit {0})
    unfolding consume fill
    begin_tuple = do
      accs ←
          on_child (λ t. t.prev) (λ s t. record t { prev = s })
            (do prev.begin_tuple; consume fuel (map (λ sc. empty) sel_cols))
      modify (λ ws. (
        ws.0,
        record ws.1 { result = fill sel_cols out.cols accs (zeros out.len); is_end = false },
      ))

    unfoldable pub aggregate_executor : Executor W (AggState S)
    unfolding begin_tuple
    aggregate_executor = record {
      cols = out.cols;
      tuple_len = out.len;
      begin_tuple = begin_tuple;
      next_tuple = modify (λ ws. (ws.0, record ws.1 { is_end = true }));
      is_end = λ ws. ws.1.is_end;
      next = λ ws. return ws.1.result ws;
    }
