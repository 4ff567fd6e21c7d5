-- ===== src/Execution/Join.antt =====
-- `NestedLoopJoinExecutor` of execution/executor_nestedloop_join.h: the left child is read in blocks, and
-- for every block the right child is read once. `Next` where there is no match, which the code leaves
-- undefined, does not return.
pub mod Spec
pub mod Blocks
pub mod Matches
pub mod Search
use Prim.Native.Nat.{Ordering}
use claude_opus.Base.{
  ℕ, zero, suc, ◌+◌, ◌*◌, ℤ, pos, negsuc, Bool, true, false, leb, if◌then◌else◌, Option, none, some,
  List, [], ◌∷◌, ◌++◌, map, length, get_elem?, write, bytes_of, zeros,
}
use claude_opus.Errors.{Error, Result, ok, throw}
use claude_opus.Calls.{M, bind, ◌>>=◌, ◌>>◌, return, modify, asks}
use claude_opus.Common.{ColMeta, Condition}
use claude_opus.Record.Scan.{behind}
use claude_opus.Execution.{Executor, on_child}
use claude_opus.Execution.Conditions.{eval_conds}

pub record JoinState (L R : Type 0) : Type 0 where
  pub left : L
  pub right : R
  pub isend : Bool
  pub left_buffer : List (List ℕ)
  pub left_pos : ℤ
  pub right_rec : Option (List ℕ)

abbrev pub put_left : {L R : Type 0} → L → JoinState L R → JoinState L R
put_left s t = record t { left = s }

abbrev pub put_right : {L R : Type 0} → R → JoinState L R → JoinState L R
put_right s t = record t { right = s }

-- `size - 1`.
abbrev pub last_pos : ℕ → ℤ
last_pos zero = negsuc 0
last_pos (suc n) = pos n

abbrev pub pred_ℤ : ℤ → ℤ
pred_ℤ (pos n) = last_pos n
pred_ℤ (negsuc n) = negsuc (suc n)

abbrev pub max_buffer_size : ℕ
max_buffer_size = 50 * 1024 * 1024

-- The right child's columns stand behind the left child's.
unfoldable pub join_cols : ℕ → List ColMeta → List ColMeta → List ColMeta
join_cols left_len left_cols right_cols =
    left_cols ++ map {A = ColMeta} (λ c. record c { offset = c.offset + left_len }) right_cols

unfoldable pub join_record : ℕ → ℕ → List ℕ → List ℕ → List ℕ
unfolding write bytes_of
join_record left_len right_len l r =
    write left_len (bytes_of right_len r)
      (write 0 (bytes_of left_len l) (zeros (left_len + right_len)))

-- `fuel` bounds the blocks, the left records of one, and the steps of `find_match`.
module _ {W L R : Type 0} (left : Executor W L) (right : Executor W R)
    (compare_float : List ℕ → List ℕ → Ordering) (fed_conds : List Condition) (fuel : ℕ) where
  abbrev pub State : Type 0
  State = W × JoinState L R

  abbrev pub on_left : {A : Type 0} → M (W × L) A → M State A
  on_left = on_child (λ t. t.left) put_left

  abbrev pub on_right : {A : Type 0} → M (W × R) A → M State A
  on_right = on_child (λ t. t.right) put_right

  abbrev pub change : (JoinState L R → JoinState L R) → M State (Unit {0})
  change f = modify (λ ws. (ws.0, f ws.1))

  unfoldable pub cols_ : List ColMeta
  unfolding join_cols
  cols_ = join_cols left.tuple_len left.cols right.cols

  abbrev pub joined : List ℕ → List ℕ → List ℕ
  joined = join_record left.tuple_len right.tuple_len

  -- The loop of `load_next_left_block`, for at most so many tests.
  unfoldable pub load : ℕ → ℕ → M State (Unit {0})
  load zero current_size ws = none
  load (suc n) current_size ws = elim (left.is_end (ws.0, ws.1.left)) [
    | true ↦ return tt ws
    | false ↦
        (do
          l ← on_left left.next
          change (λ t. record t { left_buffer = t.left_buffer ++ l ∷ [] })
          on_left left.next_tuple
          λ ws'. elim (leb max_buffer_size (current_size + left.tuple_len)) [
            | true ↦ return tt ws'
            | false ↦ load n (current_size + left.tuple_len) ws'
          ])
          ws
  ]

  unfoldable pub load_next_left_block : M State (Unit {0})
  unfolding load
  load_next_left_block = do change (λ t. record t { left_buffer = [] }); load fuel 0

  pub look : Result Bool → ℕ → Result (Option ℕ) → Result (Option ℕ)
  look (ok true) j rest = ok (some j)
  look (ok false) j rest = rest
  look (throw e) j rest = throw e

  -- The inner loop of `find_match`: the last position below `k` whose record matches.
  unfoldable pub search : List (List ℕ) → Option (List ℕ) → ℕ → Result (Option ℕ)
  unfolding look eval_conds join_record cols_
  search buffer none k = ok none
  search buffer (some r) zero = ok none
  search buffer (some r) (suc j) =
      let rest = search buffer (some r) j in
      elim (get_elem? buffer j) [
        | some l ↦ look (eval_conds compare_float cols_ fed_conds (joined l r)) j rest
        | none ↦ rest
      ]

  -- `right_rec_ = right_->Next()` and the reset of the position.
  pub take_right : M State Bool
  take_right = do
    r ← on_right right.next
    change (λ t. record t { right_rec = some r; left_pos = last_pos (length t.left_buffer) })
    return false

  pub finish : M State Bool
  finish = do change (λ t. record t { isend = true }); return true

  pub restart_right : M State Bool
  unfolding take_right finish
  restart_right = do
    on_right right.begin_tuple
    λ ws. elim (right.is_end (ws.0, ws.1.right)) [ true ↦ finish ws | false ↦ take_right ws ]

  pub with_block : List (List ℕ) → M State Bool
  unfolding restart_right finish
  with_block [] = finish
  with_block (l ∷ ls) = restart_right

  -- The next block with the first right record, if there are any; else the join has ended.
  unfoldable pub next_block : M State Bool
  unfolding with_block load_next_left_block
  next_block = do load_next_left_block; λ ws. with_block ws.1.left_buffer ws

  pub step_right : Bool → M State (Unit {0})
  step_right true = return tt
  step_right false = on_right right.next_tuple

  -- `find_match` behind its inner loop: the next right record, or the next block.
  unfoldable pub advance : M State Bool
  unfolding step_right take_right next_block
  advance = do
    ended ← asks (λ ws. right.is_end (ws.0, ws.1.right))
    step_right ended
    λ ws. elim (right.is_end (ws.0, ws.1.right)) [ true ↦ next_block ws | false ↦ take_right ws ]

  -- Go on, unless the join has ended.
  pub unless : Bool → M State (Unit {0}) → M State (Unit {0})
  unless true m = return tt
  unless false m = m

  pub settle : Result (Option ℕ) → M State (Unit {0}) → M State (Unit {0})
  unfolding advance unless
  settle (ok (some j)) m = change (λ t. record t { left_pos = pos j })
  settle (ok none) m = do
    change (λ t. record t { left_pos = negsuc 0 })
    ended ← advance
    unless ended m
  settle (throw e) m = λ ws. some (ws, throw e)

  unfoldable pub find_match : ℕ → M State (Unit {0})
  unfolding search settle
  find_match zero ws = none
  find_match (suc n) ws =
      settle (search ws.1.left_buffer ws.1.right_rec (behind ws.1.left_pos))
        (λ ws'. find_match n ws') ws

  pub begin_tuple : M State (Unit {0})
  unfolding next_block unless find_match
  begin_tuple = do
    change (λ t. record t { isend = false })
    on_left left.begin_tuple
    ended ← next_block
    unless ended (find_match (suc fuel))

  pub next_tuple : M State (Unit {0})
  unfolding find_match
  next_tuple = do change (λ t. record t { left_pos = pred_ℤ t.left_pos }); find_match (suc fuel)

  pub join_of : State → Option (List ℕ) → Option (List ℕ) → Option (State × Result (List ℕ))
  join_of ws (some l) (some r) = some (ws, ok (joined l r))
  join_of ws _ _ = none

  pub element : List (List ℕ) → ℤ → Option (List ℕ)
  element buffer (pos j) = get_elem? buffer j
  element buffer (negsuc j) = none

  pub next : M State (List ℕ)
  unfolding join_of element
  next ws = join_of ws (element ws.1.left_buffer ws.1.left_pos) ws.1.right_rec

  unfoldable pub join_executor : Executor W (JoinState L R)
  unfolding begin_tuple next_tuple next
  join_executor = record {
    cols = cols_;
    tuple_len = left.tuple_len + right.tuple_len;
    begin_tuple = begin_tuple;
    next_tuple = next_tuple;
    is_end = λ ws. ws.1.isend;
    next = next;
  }
