-- ===== src/Common.antt =====
-- What the analysis, the planner and the executors share: common/common.h, `ColMeta` of
-- system/sm_meta.h and `AggType` of defs.h. Names are bytes, and an `int` field that is a length or an
-- offset is never negative.
pub mod Value
use claude_opus.Base.{
  ℕ, List, Bool, true, false, ite, if_pos, if_neg, refl, arith, ◌≡◌, ◌≢◌, ℕ_discrete,
}
use claude_opus.Index.Columns.{ColType}

pub data AggType : Type 0 where
  agg_none agg_count agg_max agg_min agg_sum : AggType

pub record TabCol : Type 0 where
  pub tab_name : List ℕ
  pub col_name : List ℕ
  pub agg_type : AggType
  pub alias : List ℕ
  pub is_star : Bool

pub data CompOp : Type 0 where
  op_eq op_ne op_lt op_gt op_le op_ge : CompOp

pub record ColMeta : Type 0 where
  pub tab_name : List ℕ
  pub name : List ℕ
  pub type : ColType
  pub len : ℕ
  pub offset : ℕ

-- The right-hand side of a condition: a value's bytes, if `is_rhs_val`, or a column.
pub data Operand : Type 0 where
  rhs_val : List ℕ → Operand
  rhs_col : TabCol → Operand

pub record Condition : Type 0 where
  pub lhs_col : TabCol
  pub op : CompOp
  pub rhs : Operand

name_discrete : Discrete (List ℕ)
unfolding ℕ_discrete
name_discrete = hlevel ℕ_discrete

-- `operator==` of names.
unfoldable pub name_eq : List ℕ → List ℕ → Bool
unfolding name_discrete
name_eq a b = ite (name_discrete a b) true false

pub name_eq_refl : (a : List ℕ) → name_eq a a ≡ true
unfolding name_eq
name_eq_refl a = if_pos (name_discrete a a) refl true false

pub name_eq-ne : {a b : List ℕ} → a ≢ b → name_eq a b ≡ false
unfolding name_eq
name_eq-ne {a} {b} h = if_neg (name_discrete a b) h true false

pub name_eq-eq : (a b : List ℕ) → name_eq a b ≡ true → a ≡ b
unfolding name_eq
name_eq-eq a b h = elim (name_discrete a b) [
  | yes e ↦ e
  | no n ↦ ground (arith, if_neg (name_discrete a b) n true false)
]
