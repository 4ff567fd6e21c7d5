-- ===== src/Execution.antt =====
-- The interface of the executors: `AbstractExecutor` of execution/executor_abstract.h, and the loop in
-- which its clients run it. `W` is the database that the executors read, `S` an executor's own state;
-- what a constructor fixes (columns, conditions, the limit) is an argument of the executor. A record
-- is its bytes.
pub mod Yields
pub mod Conditions
pub mod Scan
pub mod Limit
mod Tests
pub mod Modify
pub mod Update
pub mod Aggregate
pub mod Join
pub mod Order
pub mod Sort
pub mod Projection
use claude_opus.Base.{ℕ, zero, suc, Bool, true, false, Option, none, some, List, [], ◌∷◌}
use claude_opus.Errors.{Result, ok}
use claude_opus.Calls.{M, ◌>>=◌, ◌>>◌, return}
use claude_opus.Common.{ColMeta}

pub record Executor (W S : Type 0) : Type 0 where
  pub cols : List ColMeta
  pub tuple_len : ℕ
  pub begin_tuple : M (W × S) (Unit {0})
  pub next_tuple : M (W × S) (Unit {0})
  pub is_end : W × S → Bool
  pub next : M (W × S) (List ℕ)

-- A call of a child, whose state is a part of the executor's.
module _ {W S T A : Type 0} (get : T → S) (put : S → T → T) where
  pub returned : T → Option ((W × S) × Result A) → Option ((W × T) × Result A)
  returned t none = none
  returned t (some ((w, s), r)) = some ((w, put s t), r)

  unfoldable pub on_child : M (W × S) A → M (W × T) A
  unfolding returned
  on_child m ws = returned ws.1 (m (ws.0, get ws.1))

-- `for (beginTuple(); !is_end(); nextTuple()) push_back(Next())`, for at most `fuel` tests.
module _ {W S : Type 0} (e : Executor W S) where
  unfoldable pub drain : ℕ → M (W × S) (List (List ℕ))
  drain zero ws = none
  drain (suc fuel) ws = elim (e.is_end ws) [
    | true ↦ some (ws, ok [])
    | false ↦ (do r ← e.next; e.next_tuple; rs ← drain fuel; return (r ∷ rs)) ws
  ]

  unfoldable pub collect : ℕ → M (W × S) (List (List ℕ))
  unfolding drain
  collect fuel = do e.begin_tuple; drain fuel
