-- ===== src/Execution/Tests.antt =====
-- The executors on small tables.
use Prim.Native.Nat.{Ordering}
use native.Mathlib.Omega.{arith}
use mathlib.Core.List.{Perm}
use claude_opus.Base.{
  ◌≡◌, refl, ℕ, Bool, true, false, some, List, [], ◌∷◌, drop, inl, inr, map, All, pos, filter,
}
use claude_opus.Errors.{ok}
use claude_opus.Calls.{modify, return}
use claude_opus.Txn.{Rid}
use claude_opus.LogRecord.{get_int32, of_word, get_le}
use claude_opus.Common.{AggType, TabCol, ColMeta, CompOp, Condition, rhs_val, name_eq}
use claude_opus.Index.Columns.{ColType}
use claude_opus.Index.Order.{eq-IsOrder}
use claude_opus.Execution.{Executor}
use claude_opus.Execution.Conditions.{ColPos, IsBound, get_col, satisfies}
use claude_opus.Execution.Yields.{Returns-return, Yields, Produces}
use claude_opus.Execution.Limit.{limit_executor, Produces-take}
use claude_opus.Execution.Projection.{Selection, projection, select_from, row, Produces-row}
use claude_opus.Execution.Sort.{sort_executor, compare_tuple, Sorted, sort_executor-Sorted}
use claude_opus.Execution.Join.{join_executor, join_record, cols_}
use claude_opus.Execution.Join.Spec.{product}
use claude_opus.Execution.Join.Matches.{Produces-product}
use claude_opus.Execution.Aggregate.{Doubles, Output, aggregate_executor, output_from, empty}
use claude_opus.Execution.Aggregate.Fold.{fold}
use claude_opus.Execution.Aggregate.Shown.{IsShowable, Shows, Produces-Shows}
use claude_opus.Execution.Aggregate.Row.{packed}
use claude_opus.Execution.Aggregate.Best.{IsBest, fold-IsBest}

abbrev Always : Unit {0} → Type 0
Always w = Unit {0}

-- A child that yields a list: its state is what is left.
abbrev first : List (List ℕ) → List ℕ
first [] = []
first (r ∷ rs) = r

abbrev is_empty : List (List ℕ) → Bool
is_empty [] = true
is_empty (r ∷ rs) = false

abbrev number_col : ColMeta
number_col = record {
  tab_name = 116 ∷ [];
  name = 97 ∷ [];
  type = ColType.type_int;
  len = 4;
  offset = 0;
}

abbrev of_list : List (List ℕ) → Executor (Unit {0}) (List (List ℕ))
of_list rs = record {
  cols = number_col ∷ [];
  tuple_len = 4;
  begin_tuple = modify (λ ws. (ws.0, rs));
  next_tuple = modify (λ ws. (ws.0, drop 1 ws.1));
  is_end = λ ws. is_empty ws.1;
  next = λ ws. return (first ws.1) ws;
}

Yields-list : (all rs : List (List ℕ)) → Yields Always (of_list all) rs rs
Yields-list all [] = λ w i. refl
Yields-list all (r ∷ rs) = (
  λ w i. refl,
  λ w i. Returns-return Always w (r ∷ rs) i refl,
  λ w i. Returns-return Always w rs i (Yields-list all rs),
)

Produces-list : (rs : List (List ℕ)) → Produces Always (of_list rs) rs
Produces-list rs = λ w s i. Returns-return Always w rs i (Yields-list rs rs)

abbrev number : ℕ → List ℕ
number n = n ∷ 0 ∷ 0 ∷ 0 ∷ []

abbrev numbers : List (List ℕ)
numbers = number 2 ∷ number 7 ∷ number 5 ∷ []

abbrev table : Executor (Unit {0}) (List (List ℕ))
table = of_list numbers

abbrev number_name : AggType → TabCol
number_name agg = record {
  tab_name = 116 ∷ [];
  col_name = 97 ∷ [];
  agg_type = agg;
  alias = [];
  is_star = false;
}

abbrev no_floats : List ℕ → List ℕ → Ordering
no_floats a b = Ordering.eq

Produces-take_example : Produces Always (limit_executor table 2) (number 2 ∷ number 7 ∷ [])
Produces-take_example = Produces-take table 2 Always numbers (Produces-list numbers)

abbrev selection : Selection
selection = record { cols = number_col ∷ []; sel_idxs = 0 ∷ []; len = 4 }

selects : select_from (table.cols) 0 (number_name AggType.agg_none ∷ []) ≡ ok selection
unfolding select_from name_eq
selects = refl

Produces-row_example :
    Produces Always
      (projection table selection)
      (map (row table.cols (number_name AggType.agg_none ∷ [])) numbers)
Produces-row_example =
    Produces-row Always table (number_name AggType.agg_none ∷ []) selection numbers selects
      (Produces-list numbers)

sort_executor-Sorted_example :
    (out : List (List ℕ)) × Produces Always
      (sort_executor table (compare_tuple no_floats (number_col ∷ []) (true ∷ [])) 4)
      out
    × Sorted no_floats (number_col ∷ []) (true ∷ []) numbers out
sort_executor-Sorted_example =
    sort_executor-Sorted Always no_floats table (number_col ∷ []) (true ∷ []) 4 numbers eq-IsOrder
      (omega arith) (Produces-list numbers)

-- Numbers above 3.
abbrev above : Condition
above = record {
  lhs_col = number_name AggType.agg_none;
  op = CompOp.op_gt;
  rhs = rhs_val (number 3);
}

abbrev position : ColPos
position = record { index = 0; col = number_col }

number_found : get_col (number_col ∷ []) (number_name AggType.agg_max) ≡ ok position
unfolding get_col name_eq
number_found = refl

above_found : get_col (number_col ∷ []) (number_name AggType.agg_none) ≡ ok position
unfolding get_col name_eq
above_found = refl

above-IsBound : All (IsBound (number_col ∷ [])) (above ∷ [])
above-IsBound = (((position, above_found), tt), tt)

abbrev place : ℕ → Rid
place n = record { page_no = pos 1; slot_no = pos n }

abbrev stored : List (Rid × List ℕ)
stored = (place 0, number 2) ∷ (place 1, number 7) ∷ (place 2, number 5) ∷ []

abbrev front : List (Rid × List ℕ) → Rid × List ℕ
front [] = (place 0, [])
front (x ∷ xs) = x

filtered :
    filter (satisfies no_floats (number_col ∷ []) (above ∷ [])) numbers ≡ number 7 ∷ number 5 ∷ []
unfolding satisfies get_col name_eq get_int32 of_word get_le
filtered = refl

pair-IsBound : All (IsBound (cols_ table table no_floats (above ∷ []) 9)) (above ∷ [])
unfolding cols_ get_col name_eq
pair-IsBound = (((position, refl), tt), tt)

Produces-product_example :
    (out : List (List ℕ)) × Produces Always (join_executor table table no_floats (above ∷ []) 9) out
    × Perm out (
        product
          (join_record 4 4)
          (satisfies no_floats (cols_ table table no_floats (above ∷ []) 9) (above ∷ []))
          numbers
          numbers)
Produces-product_example =
    Produces-product Always table table no_floats (above ∷ []) 9 pair-IsBound numbers numbers
      (Produces-list numbers) (Produces-list numbers) (omega arith) (omega arith)

-- No column of the tests is summed.
abbrev no_doubles : Doubles
no_doubles = record { Double = Unit; nought = tt; add = λ d t bs. d; to_bytes = λ t d. [] }

abbrev maximum : List TabCol
maximum = number_name AggType.agg_max ∷ number_name AggType.agg_count ∷ []

abbrev output : Output
output = record {
  cols = record number_col { tab_name = [] } ∷ record number_col { tab_name = []; offset = 4 } ∷ [];
  len = 8;
}

outputs : output_from table.cols 0 maximum ≡ ok output
unfolding output_from get_col name_eq
outputs = refl

showable : All (IsShowable no_doubles no_floats eq-IsOrder table.cols numbers) maximum
showable = (
  inr (position, number_found, omega arith, (omega arith, (omega arith, (omega arith, tt)))),
  (inl refl, tt),
)

Produces-Shows_example :
    (value : TabCol → ColMeta → List ℕ) × All
      (λ sc.
        (c : ColMeta)
        → Shows no_doubles no_floats eq-IsOrder table.cols sc.agg_type sc c numbers (value sc c))
      maximum
    × Produces Always
        (aggregate_executor no_doubles no_floats table maximum output 4)
        (packed no_doubles no_floats value maximum output.cols ∷ [])
Produces-Shows_example =
    Produces-Shows Always no_doubles no_floats eq-IsOrder table maximum output 4 numbers showable
      outputs (omega arith, (omega arith, tt)) (omega arith) (Produces-list numbers)

fold-IsBest_example :
    (v : List ℕ) × ((fold no_doubles no_floats table.cols numbers
        (number_name AggType.agg_max)
        (empty no_doubles no_floats)).minmax
      ≡ some v)
    × IsBest no_doubles no_floats AggType.agg_max number_col eq-IsOrder (omega arith) numbers v
fold-IsBest_example =
    fold-IsBest no_doubles no_floats table.cols (number_name AggType.agg_max) position (number 2)
      (number 7 ∷ number 5 ∷ []) tt number_found eq-IsOrder (omega arith)
      (omega arith, (omega arith, (omega arith, tt)))
