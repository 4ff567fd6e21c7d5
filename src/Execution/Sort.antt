-- ===== src/Execution/Sort.antt =====
-- `SortExecutor` of execution/execution_sort.h: all of its child's records, sorted by several columns,
-- each ascending or descending. The list that an exception interrupts is not kept, and `Next` behind
-- the last record, which the code leaves undefined, does not return.
use Prim.Native.Nat.{Ordering}
use mathlib.Core.List.{Perm}
use claude_opus.Base.{
  ◌≡◌, ◌≢◌, ◌⊎◌, inl, inr, sym, ◌∙◌, ◌&&◌, All, filter, refl, ap, ℕ, zero, suc, ◌≤◌, ◌<◌, arith,
  Bool, true, false, leb, Option, none, some, List, [], ◌∷◌, length, get_elem?, drop, if◌then◌else◌,
}
use claude_opus.Errors.{Result, ok}
use claude_opus.Calls.{M, ◌>>=◌, ◌>>◌, modify}
use claude_opus.Common.{ColMeta}
use claude_opus.Index.Keys.{flip}
use claude_opus.Index.Order.{IsOrder, or_next, eq-IsOrder, pull-IsOrder, or_next-IsOrder}
use claude_opus.Index.Columns.{column-IsOrder}
use claude_opus.Execution.{Executor, on_child, collect}
use claude_opus.Execution.Conditions.{compare_value}
use claude_opus.Execution.Order.{
  stable_sort, stable_sort-perm, stable_sort-IsSorted, stable_sort-same, IsSorted, same_as, is_eq,
}
use claude_opus.Execution.Yields.{
  Returns-bind, Returns-return, Returns-on_child, Yields, Produces, collect-Produces,
}

module _ (compare_float : List ℕ → List ℕ → Ordering) where
  unfoldable pub compare_tuple : List ColMeta → List Bool → List ℕ → List ℕ → Ordering
  unfolding compare_value
  compare_tuple (col ∷ cols) (is_desc ∷ descs) a b =
      let c =
        compare_value compare_float (drop col.offset a) (drop col.offset b) col.type col.len in
      or_next (if is_desc then flip c else c) (compare_tuple cols descs a b)
  compare_tuple _ _ a b = Ordering.eq

  desc-IsOrder :
      (is_desc : Bool) (c : List ℕ → List ℕ → Ordering)
      → IsOrder c
      → IsOrder (λ a b. if is_desc then flip (c a b) else c a b)
  desc-IsOrder false c o = o
  desc-IsOrder true c o = record {
    flips = λ a b. ap flip (o.flips a b);
    same = λ a b d e. ground (arith, o.same a b d);
    trans = λ a b d e f. ground (arith, o.flips a b, o.flips b d, o.flips a d, o.trans d b a);
  }

  pub compare_tuple-IsOrder :
      (cols : List ColMeta) (descs : List Bool)
      → IsOrder compare_float
      → IsOrder (compare_tuple cols descs)
  unfolding compare_tuple compare_value
  compare_tuple-IsOrder [] descs f = eq-IsOrder
  compare_tuple-IsOrder (col ∷ cols) [] f = eq-IsOrder
  compare_tuple-IsOrder (col ∷ cols) (is_desc ∷ descs) f =
      or_next-IsOrder _ (compare_tuple cols descs)
        (desc-IsOrder is_desc _
          (pull-IsOrder (drop col.offset) _ (column-IsOrder compare_float col.type col.len f)))
        (compare_tuple-IsOrder cols descs f)

pub record SortState (S : Type 0) : Type 0 where
  pub prev : S
  pub tuples : List (List ℕ)
  pub pos : ℕ

pub tuple_at : {W A : Type 0} → W → Option A → Option (W × Result A)
tuple_at w none = none
tuple_at w (some r) = some (w, ok r)

-- `compare_tuple` is the comparison that the sort takes, `fuel` bounds the child's records.
module _ {W S : Type 0} (prev : Executor W S) (compare_tuple : List ℕ → List ℕ → Ordering)
    (fuel : ℕ) where
  abbrev on_prev : {A : Type 0} → M (W × S) A → M (W × SortState S) A
  on_prev = on_child (λ t. t.prev) (λ s t. record t { prev = s })

  abbrev set_tuples : List (List ℕ) → M (W × SortState S) (Unit {0})
  set_tuples rs = modify (λ ws. (ws.0, record ws.1 { tuples = rs; pos = 0 }))

  begin_tuple : M (W × SortState S) (Unit {0})
  unfolding stable_sort
  begin_tuple = do
    modify (λ ws. (ws.0, record ws.1 { tuples = [] }))
    rs ← on_prev (collect prev fuel)
    set_tuples (stable_sort compare_tuple rs)

  next_tuple : M (W × SortState S) (Unit {0})
  next_tuple = modify (λ ws. (ws.0, record ws.1 { pos = suc ws.1.pos }))

  is_end : W × SortState S → Bool
  is_end ws = leb (length ws.1.tuples) ws.1.pos

  next : M (W × SortState S) (List ℕ)
  unfolding tuple_at
  next ws = tuple_at ws (get_elem? ws.1.tuples ws.1.pos)

  unfoldable pub sort_executor : Executor W (SortState S)
  unfolding begin_tuple next_tuple is_end next
  sort_executor = record {
    cols = prev.cols;
    tuple_len = prev.tuple_len;
    begin_tuple = begin_tuple;
    next_tuple = next_tuple;
    is_end = is_end;
    next = next;
  }

  drop-cons :
      (n : ℕ) (rs : List (List ℕ)) (r : List ℕ) (xs : List (List ℕ))
      → r ∷ rs ≡ drop n xs
      → (get_elem? xs n ≡ some r) × (rs ≡ drop (suc n) xs) × (n < length xs)
  drop-cons zero rs r [] h = ground arith
  drop-cons zero rs r (x ∷ xs) h = ground arith
  drop-cons (suc n) rs r [] h = ground arith
  drop-cons (suc n) rs r (x ∷ xs) h =
      let (a, b, c) = drop-cons n rs r xs h in (a, b, omega (arith, c))

  drop-nil : (n : ℕ) (xs : List (List ℕ)) → [] ≡ drop n xs → length xs ≤ n
  drop-nil zero [] h = omega arith
  drop-nil zero (x ∷ xs) h = ground arith
  drop-nil (suc n) [] h = omega arith
  drop-nil (suc n) (x ∷ xs) h = omega (arith, drop-nil n xs h)

  module _ (I : W → Type 0) where
    Yields-drop :
        (rs : List (List ℕ)) (s : SortState S)
        → rs ≡ drop s.pos s.tuples
        → Yields I sort_executor rs s
    unfolding sort_executor is_end next next_tuple tuple_at
    Yields-drop [] s h = λ w i. ground (arith, drop-nil s.pos s.tuples h)
    Yields-drop (r ∷ rs) s h =
        let (a, b, c) = drop-cons s.pos rs r s.tuples h in
        (
          λ w i. ground (arith, c),
          λ w i. rw a (Returns-return I w s i refl),
          λ w i.
              Returns-return I w (record s { pos = suc s.pos }) i
                (Yields-drop rs (record s { pos = suc s.pos }) b),
        )

    -- Over a child that yields fewer than `fuel` records, the executor yields them all, stably sorted.
    pub Produces-stable_sort :
        (rs : List (List ℕ))
        → length rs < fuel
        → Produces I prev rs
        → Produces I sort_executor (stable_sort compare_tuple rs)
    unfolding sort_executor begin_tuple
    Produces-stable_sort rs h p w s i =
        Returns-bind I {Q = λ _. Unit {0}} _
          (Returns-on_child I _ _ (collect prev fuel) w (record s { tuples = [] })
            (collect-Produces I prev rs fuel w s.prev p h i) (λ s' q. tt))
          (λ w' s' i' q.
            Returns-return I w' _ i'
              (Yields-drop _ (record s' { tuples = stable_sort compare_tuple rs; pos = 0 }) refl))

module _ (compare_float : List ℕ → List ℕ → Ordering) where
  abbrev in_column : ColMeta → List ℕ → List ℕ → Ordering
  in_column col a b =
      compare_value compare_float (drop col.offset a) (drop col.offset b) col.type col.len

  -- Of two records the one that stands in front: in the first column in which they differ it has the
  -- smaller value, or the larger one where the column is descending.
  abbrev pub Precedes : List ColMeta → List Bool → List ℕ → List ℕ → Type 0
  Precedes (col ∷ cols) (false ∷ descs) a b =
      (in_column col a b ≡ Ordering.lt)
      ⊎ ((in_column col a b ≡ Ordering.eq) × Precedes cols descs a b)
  Precedes (col ∷ cols) (true ∷ descs) a b =
      (in_column col a b ≡ Ordering.gt)
      ⊎ ((in_column col a b ≡ Ordering.eq) × Precedes cols descs a b)
  Precedes _ _ a b = ⊥

  -- Whether two records have the same values in all columns.
  abbrev pub ties : List ColMeta → List Bool → List ℕ → List ℕ → Bool
  ties (col ∷ cols) (d ∷ descs) a b = is_eq (in_column col a b) && ties cols descs a b
  ties _ _ a b = true

  -- No record stands behind one that it precedes.
  abbrev pub InOrder : List ColMeta → List Bool → List (List ℕ) → Type 0
  InOrder cols descs [] = Unit {0}
  InOrder cols descs (x ∷ xs) = All (λ y. ¬ Precedes cols descs y x) xs × InOrder cols descs xs

  Precedes-lt :
      (cols : List ColMeta) (descs : List Bool) (a b : List ℕ)
      → Precedes cols descs a b
      → compare_tuple compare_float cols descs a b ≡ Ordering.lt
  unfolding compare_tuple
  Precedes-lt [] descs a b h = absurd h
  Precedes-lt (col ∷ cols) [] a b h = absurd h
  Precedes-lt (col ∷ cols) (false ∷ descs) a b (inl e) = rw e refl
  Precedes-lt (col ∷ cols) (false ∷ descs) a b (inr (e, h)) = rw e (Precedes-lt cols descs a b h)
  Precedes-lt (col ∷ cols) (true ∷ descs) a b (inl e) = rw e refl
  Precedes-lt (col ∷ cols) (true ∷ descs) a b (inr (e, h)) = rw e (Precedes-lt cols descs a b h)

  eq-or_next : (c d : Ordering) → is_eq (or_next c d) ≡ (is_eq c && is_eq d)
  eq-or_next Ordering.lt d = refl
  eq-or_next Ordering.eq d = refl
  eq-or_next Ordering.gt d = refl

  eq-flip : (c : Ordering) → is_eq (flip c) ≡ is_eq c
  eq-flip Ordering.lt = refl
  eq-flip Ordering.eq = refl
  eq-flip Ordering.gt = refl

  eq-ties :
      (cols : List ColMeta) (descs : List Bool) (a b : List ℕ)
      → is_eq (compare_tuple compare_float cols descs a b) ≡ ties cols descs a b
  unfolding compare_tuple
  eq-ties [] descs a b = refl
  eq-ties (col ∷ cols) [] a b = refl
  eq-ties (col ∷ cols) (false ∷ descs) a b =
      eq-or_next (in_column col a b) (compare_tuple compare_float cols descs a b)
      ∙ ap (λ t. is_eq (in_column col a b) && t) (eq-ties cols descs a b)
  eq-ties (col ∷ cols) (true ∷ descs) a b =
      eq-or_next (flip (in_column col a b)) (compare_tuple compare_float cols descs a b)
      ∙ ap (λ t. t && is_eq (compare_tuple compare_float cols descs a b))
          (eq-flip (in_column col a b))
      ∙ ap (λ t. is_eq (in_column col a b) && t) (eq-ties cols descs a b)

  same_as-ties :
      (cols : List ColMeta) (descs : List Bool) (x : List ℕ) (xs : List (List ℕ))
      → same_as (compare_tuple compare_float cols descs) x xs ≡ filter (ties cols descs x) xs
  same_as-ties cols descs x [] = refl
  same_as-ties cols descs x (y ∷ ys) =
      rw (eq-ties cols descs x y, same_as-ties cols descs x ys) refl

  behind-Precedes :
      (cols : List ColMeta) (descs : List Bool) (x : List ℕ) (xs : List (List ℕ))
      → All (λ y. compare_tuple compare_float cols descs y x ≢ Ordering.lt) xs
      → All (λ y. ¬ Precedes cols descs y x) xs
  behind-Precedes cols descs x [] h = tt
  behind-Precedes cols descs x (y ∷ ys) h =
      (λ p. h.0 (Precedes-lt cols descs y x p), behind-Precedes cols descs x ys h.1)

  IsSorted-InOrder :
      (cols : List ColMeta) (descs : List Bool) (xs : List (List ℕ))
      → IsSorted (compare_tuple compare_float cols descs) xs
      → InOrder cols descs xs
  IsSorted-InOrder cols descs [] h = tt
  IsSorted-InOrder cols descs (x ∷ xs) h =
      (behind-Precedes cols descs x xs h.0, IsSorted-InOrder cols descs xs h.1)

  -- What a sort by columns yields, over a child that yields the records `rs`.
  pub record Sorted (cols : List ColMeta) (descs : List Bool) (rs out : List (List ℕ))
      : Type 0 where
    pub same_records : Perm out rs
    pub in_order : InOrder cols descs out
    pub stable : (x : List ℕ) → filter (ties cols descs x) out ≡ filter (ties cols descs x) rs

-- If the comparison of floats is an order, a `SortExecutor` over a child that yields fewer than `fuel`
-- records yields exactly these records, none behind one that it precedes: in the first sort column in
-- which the two differ it does not have the smaller value, or the larger one where that column is
-- descending. Those that differ in no sort column stay in the child's order.
pub sort_executor-Sorted :
    {W S : Type 0} (I : W → Type 0) (compare_float : List ℕ → List ℕ → Ordering)
    (prev : Executor W S) (order_cols : List ColMeta) (is_desc : List Bool) (fuel : ℕ)
    (rs : List (List ℕ))
    → IsOrder compare_float
    → length rs < fuel
    → Produces I prev rs
    → (out : List (List ℕ)) × Produces I
        (sort_executor prev (compare_tuple compare_float order_cols is_desc) fuel)
        out
      × Sorted compare_float order_cols is_desc rs out
sort_executor-Sorted I cf prev cols descs fuel rs f h p =
    let compare = compare_tuple cf cols descs in
    let o = compare_tuple-IsOrder cf cols descs f in
    (
      stable_sort compare rs,
      Produces-stable_sort prev compare fuel I rs h p,
      record {
        same_records = stable_sort-perm compare rs;
        in_order =
            IsSorted-InOrder cf cols descs (stable_sort compare rs)
              (stable_sort-IsSorted compare o rs);
        stable = λ x.
            sym (same_as-ties cf cols descs x (stable_sort compare rs))
            ∙ stable_sort-same compare o x rs
            ∙ same_as-ties cf cols descs x rs;
      },
    )
