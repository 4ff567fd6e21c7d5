-- ===== src/Execution/Limit.antt =====
-- `LimitExecutor` of execution/executor_limit.h: its child's records, at most `limit` of them. The
-- planner makes one only of a limit that is not negative.
use claude_opus.Base.{◌≡◌, refl, ℕ, zero, suc, ◌+◌, arith, Bool, ◌||◌, leb, List, [], ◌∷◌, take}
use claude_opus.Calls.{M, ◌>>◌, modify}
use claude_opus.Execution.{Executor, on_child}
use claude_opus.Execution.Yields.{Returns-on_child, Yields, Produces}

pub record LimitState (S : Type 0) : Type 0 where
  pub prev : S
  pub count : ℕ

module _ {W S : Type 0} (prev : Executor W S) (limit : ℕ) where
  -- A call of `prev_`.
  abbrev on_prev : {A : Type 0} → M (W × S) A → M (W × LimitState S) A
  on_prev = on_child (λ t. t.prev) (λ s t. record t { prev = s })

  abbrev set_count : (ℕ → ℕ) → M (W × LimitState S) (Unit {0})
  set_count f = modify (λ ws. (ws.0, record ws.1 { count = f ws.1.count }))

  begin_tuple : M (W × LimitState S) (Unit {0})
  begin_tuple = do set_count (λ n. 0); on_prev prev.begin_tuple

  next_tuple : M (W × LimitState S) (Unit {0})
  next_tuple = do set_count suc; on_prev prev.next_tuple

  is_end : W × LimitState S → Bool
  is_end ws = leb limit ws.1.count || prev.is_end (ws.0, ws.1.prev)

  unfoldable pub limit_executor : Executor W (LimitState S)
  unfolding begin_tuple next_tuple is_end
  limit_executor = record {
    cols = prev.cols;
    tuple_len = prev.tuple_len;
    begin_tuple = begin_tuple;
    next_tuple = next_tuple;
    is_end = is_end;
    next = on_prev prev.next;
  }

  module _ (I : W → Type 0) where
    Yields-take :
        (left : ℕ) (rs : List (List ℕ)) (s : LimitState S)
        → s.count + left ≡ limit
        → Yields I prev rs s.prev
        → Yields I limit_executor (take left rs) s
    unfolding limit_executor is_end next_tuple
    Yields-take zero rs s h y = λ w i. ground arith
    Yields-take (suc left) [] s h y = λ w i. ground (arith, y w i)
    Yields-take (suc left) (r ∷ rs) s h y = (
      λ w i. ground (arith, y.0 w i),
      λ w i. Returns-on_child I _ _ prev.next w s (y.1 w i) (λ s' q. rw q refl),
      λ w i.
          Returns-on_child I _ _ prev.next_tuple w (record s { count = suc s.count }) (y.2 w i)
            (λ s' q.
              Yields-take left rs (record { prev = s'; count = suc s.count }) (omega arith) q),
    )

    -- Over a child that yields records, the executor yields the first `limit` of them.
    pub Produces-take :
        (rs : List (List ℕ)) → Produces I prev rs → Produces I limit_executor (take limit rs)
    unfolding limit_executor begin_tuple
    Produces-take rs p w s i =
        Returns-on_child I _ _ prev.begin_tuple w (record s { count = 0 }) (p w s.prev i)
          (λ s' q. Yields-take limit rs (record { prev = s'; count = 0 }) (omega arith) q)
