-- ===== src/Execution/Aggregate/Fold.antt =====
-- The aggregation's loop is a fold over the child's records, and the record that it leaves.
use Prim.Native.Nat.{Ordering}
use claude_opus.Base.{
  ◌≡◌, refl, ◌⊎◌, inl, inr, ℕ, zero, suc, ◌<◌, arith, true, false, Bool-cases, List, [], ◌∷◌, All,
  map, length, drop,
}
use claude_opus.Errors.{Result, ok, throw}
use claude_opus.Common.{TabCol, ColMeta}
use claude_opus.Execution.{Executor}
use claude_opus.Execution.Conditions.{IsFound, ColPos, get_col}
use claude_opus.Execution.Aggregate.{
  Doubles, Acc, is_count, accumulate, accumulate_all, cons_acc, consume, lift, add_value, Output,
}
use claude_opus.Execution.Yields.{Returns, Returns-bind, Returns-bind_same, Returns-return, Yields}

-- A selected column that is counted, or is there.
abbrev pub IsSelectable : List ColMeta → TabCol → Type 0
IsSelectable cols sc = (is_count sc.agg_type ≡ true) ⊎ IsFound cols sc

module _ (F : Doubles) (compare_float : List ℕ → List ℕ → Ordering) (cols : List ColMeta) where
  abbrev pub step : List ℕ → TabCol → Acc F compare_float → Acc F compare_float
  step rec sc a = elim (accumulate F compare_float cols rec sc a) [ ok b ↦ b | throw e ↦ a ]

  abbrev pub fold : List (List ℕ) → TabCol → Acc F compare_float → Acc F compare_float
  fold [] sc a = a
  fold (r ∷ rs) sc a = fold rs sc (step r sc a)

  pub accumulate_count :
      (rec : List ℕ) (sc : TabCol) (a : Acc F compare_float)
      → is_count sc.agg_type ≡ true
      → accumulate F compare_float cols rec sc a ≡ ok (record a { cnt = suc a.cnt })
  unfolding accumulate
  accumulate_count rec sc a e = rw (e, accumulate) refl

  pub accumulate_found :
      (rec : List ℕ) (sc : TabCol) (a : Acc F compare_float) (p : ColPos)
      → is_count sc.agg_type ≡ false
      → get_col cols sc ≡ ok p
      → accumulate F compare_float cols rec sc a
        ≡ ok (add_value F compare_float sc.agg_type p.col (drop p.col.offset rec) a)
  unfolding accumulate
  accumulate_found rec sc a p f e = rw (f, accumulate, e) refl

  result-step :
      (r : Result (Acc F compare_float)) (a b : Acc F compare_float)
      → r ≡ ok b
      → r ≡ ok (elim r [ ok c ↦ c | throw e ↦ a ])
  result-step (ok c) a b h = refl
  result-step (throw e) a b h = ground arith

  accumulate-step :
      (rec : List ℕ) (sc : TabCol) (a : Acc F compare_float)
      → IsSelectable cols sc
      → accumulate F compare_float cols rec sc a ≡ ok (step rec sc a)
  unfolding accumulate
  accumulate-step rec sc a (inl e) =
      result-step (accumulate F compare_float cols rec sc a) a _ (accumulate_count rec sc a e)
  accumulate-step rec sc a (inr (p, e)) = elim (Bool-cases (is_count sc.agg_type)) [
    | inl f ↦
        result-step (accumulate F compare_float cols rec sc a) a _ (accumulate_count rec sc a f)
    | inr f ↦
        result-step (accumulate F compare_float cols rec sc a) a _ (accumulate_found rec sc a p f e)
  ]

  accumulate_all-step :
      (rec : List ℕ) (f : TabCol → Acc F compare_float) (scs : List TabCol)
      → All (IsSelectable cols) scs
      → accumulate_all F compare_float cols rec scs (map f scs)
        ≡ ok (map (λ sc. step rec sc (f sc)) scs)
  unfolding accumulate_all cons_acc
  accumulate_all-step rec f [] h = refl
  accumulate_all-step rec f (sc ∷ scs) h =
      rw (accumulate-step rec sc (f sc) h.0, accumulate_all-step rec f scs h.1) refl

module _ {W S : Type 0} (I : W → Type 0) (F : Doubles) (compare_float : List ℕ → List ℕ → Ordering)
    (prev : Executor W S) (scs : List TabCol) (out : Output) (fuel : ℕ)
    (h : All (IsSelectable prev.cols) scs) where
  abbrev folded : List (List ℕ) → (TabCol → Acc F compare_float) → List (Acc F compare_float)
  folded rs f = map (λ sc. fold F compare_float prev.cols rs sc (f sc)) scs

  pub consume-fold :
      (rs : List (List ℕ)) (n : ℕ) (f : TabCol → Acc F compare_float) (w : W) (s : S)
      → length rs < n
      → I w
      → Yields I prev rs s
      → Returns I
          (Yields I prev [])
          (folded rs f)
          (consume F compare_float prev scs out fuel n (map f scs) (w, s))
  unfolding consume lift
  consume-fold rs zero f w s l i y = ground arith
  consume-fold [] (suc n) f w s l i y = rw (y w i, consume) (Returns-return I w s i y)
  consume-fold (r ∷ rs) (suc n) f w s l i y =
      rw (y.0 w i, consume)
        (Returns-bind_same I {s = s} _ (y.1 w i) (λ w' i'.
          rw (accumulate_all-step F compare_float prev.cols r f scs h) (
            Returns-bind I {Q = Yields I prev rs} _ (y.2 w' i') (λ w'' s'' i'' y''.
              consume-fold rs n (λ sc. step F compare_float prev.cols r sc (f sc)) w'' s''
                (omega arith) i'' y''))))
