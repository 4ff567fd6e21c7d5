-- ===== src/Execution/Conditions.antt =====
-- Columns and conditions: `get_col`, `compare_value` and `eval_*` of execution/executor_abstract.h. The
-- order of floats is a parameter, as in the index; bytes past the end of a record read as 0.
use Prim.Native.Nat.{Ordering}
use claude_opus.Base.{
  ◌≡◌, arith, refl, ap, ◌∙◌, All, ℕ, suc, Bool, true, false, ◌&&◌, if◌then◌else◌, List, [], ◌∷◌,
  ◌++◌, drop,
}
use claude_opus.Errors.{Error, Result, ok, throw}
use claude_opus.Common.{TabCol, ColMeta, CompOp, Operand, rhs_val, rhs_col, Condition, name_eq}
use claude_opus.Index.Columns.{ColType, compare_column}

-- What an iterator of the columns stands for: a column and its place.
pub record ColPos : Type 0 where
  pub index : ℕ
  pub col : ColMeta

pub is_named : TabCol → ColMeta → Bool
is_named target col = name_eq col.tab_name target.tab_name && name_eq col.name target.col_name

-- The first column of the name, counting from `i`.
unfoldable pub find_col : ℕ → List ColMeta → TabCol → Result ColPos
unfolding is_named
find_col i [] target =
    throw (Error.column_not_found_error (target.tab_name ++ 46 ∷ target.col_name))
find_col i (col ∷ cols) target =
    if is_named target col
    then ok (record { index = i; col = col })
    else find_col (suc i) cols target

unfoldable pub get_col : List ColMeta → TabCol → Result ColPos
unfolding find_col
get_col cols target = find_col 0 cols target

unfoldable pub eval_compare : Ordering → CompOp → Bool
eval_compare Ordering.eq CompOp.op_eq = true
eval_compare Ordering.eq CompOp.op_le = true
eval_compare Ordering.eq CompOp.op_ge = true
eval_compare Ordering.lt CompOp.op_ne = true
eval_compare Ordering.lt CompOp.op_lt = true
eval_compare Ordering.lt CompOp.op_le = true
eval_compare Ordering.gt CompOp.op_ne = true
eval_compare Ordering.gt CompOp.op_gt = true
eval_compare Ordering.gt CompOp.op_ge = true
eval_compare _ _ = false

module _ (compare_float : List ℕ → List ℕ → Ordering) where
  unfoldable pub compare_value : List ℕ → List ℕ → ColType → ℕ → Ordering
  unfolding compare_column
  compare_value lhs rhs type len = compare_column compare_float type len lhs rhs

  -- The right-hand side's bytes.
  unfoldable pub rhs_data : List ColMeta → Operand → List ℕ → Result (List ℕ)
  unfolding get_col
  rhs_data cols (rhs_val raw) rec = ok raw
  rhs_data cols (rhs_col target) rec = elim (get_col cols target) [
    | ok p ↦ ok (drop p.col.offset rec)
    | throw e ↦ throw e
  ]

  pub compared : ColMeta → CompOp → List ℕ → Result (List ℕ) → Result Bool
  unfolding eval_compare compare_value
  compared col op lhs (ok rhs) = ok (eval_compare (compare_value lhs rhs col.type col.len) op)
  compared col op lhs (throw e) = throw e

  unfoldable pub eval_cond : List ColMeta → Condition → List ℕ → Result Bool
  unfolding get_col rhs_data compared
  eval_cond cols cond rec = elim (get_col cols cond.lhs_col) [
    | ok p ↦ compared p.col cond.op (drop p.col.offset rec) (rhs_data cols cond.rhs rec)
    | throw e ↦ throw e
  ]

  pub and_also : Result Bool → Result Bool → Result Bool
  and_also (ok true) rest = rest
  and_also (ok false) rest = ok false
  and_also (throw e) rest = throw e

  unfoldable pub eval_conds : List ColMeta → List Condition → List ℕ → Result Bool
  unfolding eval_cond and_also
  eval_conds cols [] rec = ok true
  eval_conds cols (c ∷ cs) rec = and_also (eval_cond cols c rec) (eval_conds cols cs rec)

  -- Whether a record fulfils conditions that can be evaluated.
  unfoldable pub satisfies : List ColMeta → List Condition → List ℕ → Bool
  unfolding eval_conds
  satisfies cols conds rec = elim (eval_conds cols conds rec) [ ok b ↦ b | throw e ↦ false ]

-- A column, an operand and a condition that name columns that are there.
abbrev pub IsFound : List ColMeta → TabCol → Type 0
IsFound cols t = (p : ColPos) × (get_col cols t ≡ ok p)

abbrev pub IsBoundOperand : List ColMeta → Operand → Type 0
IsBoundOperand cols (rhs_val raw) = Unit {0}
IsBoundOperand cols (rhs_col t) = IsFound cols t

abbrev pub IsBound : List ColMeta → Condition → Type 0
IsBound cols c = IsFound cols c.lhs_col × IsBoundOperand cols c.rhs

module _ (compare_float : List ℕ → List ℕ → Ordering) (cols : List ColMeta) where
  rhs_data-ok :
      (o : Operand) (rec : List ℕ)
      → IsBoundOperand cols o
      → (bs : List ℕ) × (rhs_data compare_float cols o rec ≡ ok bs)
  unfolding rhs_data
  rhs_data-ok (rhs_val raw) rec h = (raw, refl)
  rhs_data-ok (rhs_col t) rec h = (drop h.0.col.offset rec, rw (h.1, rhs_data) refl)

  eval_cond-ok :
      (c : Condition) (rec : List ℕ)
      → IsBound cols c
      → (b : Bool) × (eval_cond compare_float cols c rec ≡ ok b)
  unfolding eval_cond compared
  eval_cond-ok c rec h =
      let (bs, e) = rhs_data-ok c.rhs rec h.1 in
      let p = h.0.0.col in
      (
        eval_compare (compare_value compare_float (drop p.offset rec) bs p.type p.len) c.op,
        rw (h.0.1, e, eval_cond) refl,
      )

  and_also-ok :
      (r t : Result Bool)
      → ((b : Bool) × (r ≡ ok b))
      → ((b : Bool) × (t ≡ ok b))
      → (b : Bool) × (and_also compare_float r t ≡ ok b)
  unfolding and_also
  and_also-ok (ok true) t h k = k
  and_also-ok (ok false) t h k = (false, refl)
  and_also-ok (throw e) t h k = ground arith

  -- Conditions whose columns are there throw nothing.
  pub eval_conds-ok :
      (conds : List Condition) (rec : List ℕ)
      → All (IsBound cols) conds
      → (b : Bool) × (eval_conds compare_float cols conds rec ≡ ok b)
  unfolding eval_conds
  eval_conds-ok [] rec h = (true, refl)
  eval_conds-ok (c ∷ cs) rec h =
      and_also-ok (eval_cond compare_float cols c rec) (eval_conds compare_float cols cs rec)
        (eval_cond-ok c rec h.0) (eval_conds-ok cs rec h.1)

  pub eval_conds-satisfies :
      (conds : List Condition) (rec : List ℕ)
      → All (IsBound cols) conds
      → eval_conds compare_float cols conds rec ≡ ok (satisfies compare_float cols conds rec)
  unfolding satisfies
  eval_conds-satisfies conds rec h =
      let (b, e) = eval_conds-ok conds rec h in e ∙ ap ok (rw (e, satisfies) refl)
