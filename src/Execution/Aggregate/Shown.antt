-- ===== src/Execution/Aggregate/Shown.antt =====
-- What an aggregation's record shows: counts, sums, and largest or smallest values.
use Prim.Native.Nat.{Ordering}
use claude_opus.Base.{
  ◌≡◌, refl, ap, subst, ◌∙◌, ◌⊎◌, inl, inr, ℕ, suc, ◌+◌, ◌≤◌, ◌<◌, arith, true, false, pos, List,
  [], ◌∷◌, All, length, drop, bytes_of,
}
use claude_opus.LogRecord.{put_int32}
use claude_opus.Errors.{ok}
use claude_opus.Common.{AggType, TabCol, ColMeta}
use claude_opus.Index.Order.{IsOrder}
use claude_opus.Execution.{Executor}
use claude_opus.Execution.Conditions.{ColPos, get_col}
use claude_opus.Execution.Aggregate.{
  Doubles, Acc, empty, is_count, accumulate, add_value, final, kept, sum_size, output_from, Output,
  aggregate_executor,
}
use claude_opus.Execution.Aggregate.Fold.{
  IsSelectable, fold, step, accumulate_count, accumulate_found,
}
use claude_opus.Execution.Aggregate.Best.{type_size, result-ok, IsExtreme, IsBest, fold-IsBest}
use claude_opus.Execution.Aggregate.Row.{packed, IsWide, Produces-laid_row}
use claude_opus.Execution.Yields.{Produces}

module _ (F : Doubles) (compare_float : List ℕ → List ℕ → Ordering) (f : IsOrder compare_float)
    (cols : List ColMeta) where
  -- The sum of a column, from a first value on, in the order of the records.
  abbrev pub sum_of : ColMeta → List (List ℕ) → F.Double → F.Double
  sum_of col [] d = d
  sum_of col (r ∷ rs) d = sum_of col rs (F.add d col.type (drop col.offset r))

  -- The bytes of a column show the largest, or the smallest, value of the records; none, of no records.
  abbrev pub ShowsBest : AggType → TabCol → ColMeta → List (List ℕ) → List ℕ → Type 0
  ShowsBest agg sc c [] v = v ≡ []
  ShowsBest agg sc c (r ∷ rs) v =
      (p : ColPos) × (get_col cols sc ≡ ok p)
      × (sized : type_size p.col.type ≤ p.col.len) × (b : List ℕ) × (v ≡ bytes_of c.len b)
      × IsBest F compare_float agg p.col f sized (r ∷ rs) b

  -- The bytes of a column show what was selected: the number of the records, the sum of a column, or
  -- its largest or smallest value.
  abbrev pub Shows : AggType → TabCol → ColMeta → List (List ℕ) → List ℕ → Type 0
  Shows AggType.agg_count sc c rs v = v ≡ put_int32 (pos (length rs))
  Shows AggType.agg_sum sc c rs v =
      (p : ColPos) × (get_col cols sc ≡ ok p)
      × (v ≡ bytes_of (sum_size c.type) (F.to_bytes c.type (sum_of p.col rs F.nought)))
  Shows AggType.agg_max sc c rs v = ShowsBest AggType.agg_max sc c rs v
  Shows AggType.agg_min sc c rs v = ShowsBest AggType.agg_min sc c rs v
  Shows AggType.agg_none sc c rs v = Unit {0}

  -- A selected column that is counted, or that is there, with room for its type, in records that are
  -- long enough.
  abbrev pub IsShowable : List (List ℕ) → TabCol → Type 0
  IsShowable rs sc =
      (is_count sc.agg_type ≡ true)
      ⊎ ((p : ColPos) × (get_col cols sc ≡ ok p)
          × (type_size p.col.type ≤ p.col.len)
          × All (λ x. p.col.len ≤ length (drop p.col.offset x)) rs)

  pub selectable :
      (rs : List (List ℕ)) (scs : List TabCol)
      → All (IsShowable rs) scs
      → All (IsSelectable cols) scs
  selectable rs [] h = tt
  selectable rs (sc ∷ scs) (inl e, h) = (inl e, selectable rs scs h)
  selectable rs (sc ∷ scs) (inr (p, e, s, l), h) = (inr (p, e), selectable rs scs h)

  module _ (sc : TabCol) where
    step_count :
        (r : List ℕ) (a : Acc F compare_float)
        → is_count sc.agg_type ≡ true
        → step F compare_float cols r sc a ≡ record a { cnt = suc a.cnt }
    step_count r a e =
        result-ok F compare_float (accumulate F compare_float cols r sc a) a _
          (accumulate_count F compare_float cols r sc a e)

    fold_count :
        (rs : List (List ℕ)) (a : Acc F compare_float)
        → is_count sc.agg_type ≡ true
        → (fold F compare_float cols rs sc a).cnt ≡ a.cnt + length rs
    fold_count [] a e = omega arith
    fold_count (r ∷ rs) a e =
        let n = fold_count rs (step F compare_float cols r sc a) e in
        let s = ap (λ b. b.cnt) (step_count r a e) in omega (arith, n, s)

    fold_sum :
        (p : ColPos) (rs : List (List ℕ)) (a : Acc F compare_float)
        → get_col cols sc ≡ ok p
        → sc.agg_type ≡ AggType.agg_sum
        → (fold F compare_float cols rs sc a).sum ≡ sum_of p.col rs a.sum
    unfolding add_value
    fold_sum p [] a e s = refl
    fold_sum p (r ∷ rs) a e s =
        let here =
          result-ok F compare_float (accumulate F compare_float cols r sc a) a _
            (accumulate_found F compare_float cols r sc a p (rw s refl) e) in
        fold_sum p rs (step F compare_float cols r sc a) e s
        ∙ ap (λ b. sum_of p.col rs b.sum) here
        ∙ ap (λ g. sum_of p.col rs (add_value F compare_float g p.col (drop p.col.offset r) a).sum)
            s

    abbrev folded : List (List ℕ) → Acc F compare_float
    folded rs = fold F compare_float cols rs sc (empty F compare_float)

    final_best :
        (agg : AggType) (c : ColMeta) (rs : List (List ℕ))
        → sc.agg_type ≡ agg
        → is_count agg ≡ false
        → IsShowable rs sc
        → (x : IsExtreme F compare_float sc.agg_type)
        → ShowsBest agg sc c rs (kept F compare_float c (folded rs).minmax)
    unfolding kept
    final_best agg c [] s n h x = refl
    final_best agg c (r ∷ rs) s n (inl e) x = absurd (ground (arith, s, n, e))
    final_best agg c (r ∷ rs) s n (inr (p, e, sized, l)) x =
        let (b, is, best) = fold-IsBest F compare_float cols sc p r rs x e f sized l in
        (
          p,
          e,
          sized,
          b,
          rw is refl,
          subst (λ g. IsBest F compare_float g p.col f sized (r ∷ rs) b) s best,
        )

    final-Shows :
        (agg : AggType) (c : ColMeta) (rs : List (List ℕ))
        → sc.agg_type ≡ agg
        → IsShowable rs sc
        → Shows agg sc c rs (final F compare_float agg c (folded rs))
    unfolding final
    final-Shows AggType.agg_count c rs s h =
        ap (λ n. put_int32 (pos n))
          (let n = fold_count rs (empty F compare_float) (rw s refl) in omega (arith, n))
    final-Shows AggType.agg_sum c rs s (inl e) = absurd (ground (arith, s, e))
    final-Shows AggType.agg_sum c rs s (inr (p, e, sized, l)) = (
      p,
      e,
      ap (λ d. bytes_of (sum_size c.type) (F.to_bytes c.type d))
          (fold_sum p rs (empty F compare_float) e s),
    )
    final-Shows AggType.agg_max c rs s h = final_best AggType.agg_max c rs s refl h (rw s tt)
    final-Shows AggType.agg_min c rs s h = final_best AggType.agg_min c rs s refl h (rw s tt)
    final-Shows AggType.agg_none c rs s h = tt

  all-Shows :
      (rs : List (List ℕ)) (scs : List TabCol)
      → All (IsShowable rs) scs
      → All
          (λ sc.
            (c : ColMeta)
            → Shows sc.agg_type sc c rs (final F compare_float sc.agg_type c (folded sc rs)))
          scs
  all-Shows rs [] h = tt
  all-Shows rs (sc ∷ scs) h = (λ c. final-Shows sc sc.agg_type c rs refl h.0, all-Shows rs scs h.1)

-- Over a child that yields fewer than `fuel` records, the executor yields one record: for each selected
-- column the number of the records, their sum in the order of the records, or their largest or
-- smallest value, in columns one behind another that are filled with zeros. The selected columns are
-- there, and have room for their types and sums; the records are long enough; and the comparison of
-- floats is an order.
pub Produces-Shows :
    {W S : Type 0} (I : W → Type 0) (F : Doubles) (compare_float : List ℕ → List ℕ → Ordering)
    (f : IsOrder compare_float) (prev : Executor W S) (scs : List TabCol) (out : Output) (fuel : ℕ)
    (rs : List (List ℕ))
    → All (IsShowable F compare_float f prev.cols rs) scs
    → output_from prev.cols 0 scs ≡ ok out
    → All (IsWide F compare_float) out.cols
    → length rs < fuel
    → Produces I prev rs
    → (value : TabCol → ColMeta → List ℕ) × All
        (λ sc. (c : ColMeta) → Shows F compare_float f prev.cols sc.agg_type sc c rs (value sc c))
        scs
      × Produces I
          (aggregate_executor F compare_float prev scs out fuel)
          (packed F compare_float value scs out.cols ∷ [])
Produces-Shows I F cf f prev scs out fuel rs sel o wide h p = (
  λ sc c. final F cf sc.agg_type c (fold F cf prev.cols rs sc (empty F cf)),
  all-Shows F cf f prev.cols rs scs sel,
  Produces-laid_row I F cf prev scs out fuel rs (selectable F cf f prev.cols rs scs sel) o wide h p,
)
