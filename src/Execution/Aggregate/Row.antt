-- ===== src/Execution/Aggregate/Row.antt =====
-- The record that an aggregation leaves.
use Prim.Native.Nat.{Ordering}
use mathlib.Core.List.{append_assoc}
use claude_opus.Base.{
  ◌≡◌, refl, ap, sym, subst, ◌∙◌, inl, inr, ℕ, zero, suc, ◌+◌, ◌-◌, ◌≤◌, ◌<◌, arith, true,
  Bool-cases, Option, none, some, List, [], ◌∷◌, ◌++◌, All, map, length, bytes_of, write, zeros,
  length-bytes_of,
}
use claude_opus.LogRecord.{put_int32, put_le}
use claude_opus.LogRecord.Size.{length-append}
use claude_opus.Errors.{Result, ok, throw, Result-cases}
use claude_opus.Common.{AggType, TabCol, ColMeta}
use claude_opus.Execution.{Executor}
use claude_opus.Execution.Conditions.{get_col}
use claude_opus.Execution.Aggregate.{
  Doubles, Acc, empty, is_count, final, kept, fill, sum_size, output_col, output_from, cons_col,
  Output, aggregate_executor, begin_tuple,
}
use claude_opus.Execution.Aggregate.Fold.{IsSelectable, fold, consume-fold}
use claude_opus.Execution.Yields.{Returns-bind, Returns-return, Returns-on_child, Yields, Produces}

bytes_of-nil : (n : ℕ) → bytes_of n [] ≡ zeros n
unfolding bytes_of
bytes_of-nil zero = refl
bytes_of-nil (suc n) = ap (λ x. 0 ∷ x) (bytes_of-nil n)

write-pad :
    (n : ℕ) (v rest : List ℕ) → length v ≤ n → write 0 v (zeros n ++ rest) ≡ bytes_of n v ++ rest
unfolding write bytes_of
write-pad n [] rest h = ap (λ x. x ++ rest) (sym (bytes_of-nil n))
write-pad zero (x ∷ v) rest h = ground arith
write-pad (suc n) (x ∷ v) rest h = ap (λ y. x ∷ y) (write-pad n v rest (omega arith))

write-behind : (pre v rest : List ℕ) → write (length pre) v (pre ++ rest) ≡ pre ++ write 0 v rest
unfolding write
write-behind [] v rest = refl
write-behind (x ∷ pre) v rest = ap (λ y. x ∷ y) (write-behind pre v rest)

zeros-split : (n m k : ℕ) → m ≡ n + k → zeros m ≡ zeros n ++ zeros k
zeros-split zero m k h = ap zeros (h ∙ omega arith)
zeros-split (suc n) zero k h = ground arith
zeros-split (suc n) (suc m) k h = ap (λ x. 0 ∷ x) (zeros-split n m k (omega arith))

-- Output columns lie one behind another, from an offset to the end.
abbrev IsLaid : ℕ → List TabCol → List ColMeta → ℕ → Type 0
IsLaid off [] [] len = off ≡ len
IsLaid off (sc ∷ scs) (c ∷ cs) len =
    (c.offset ≡ off) × (is_count sc.agg_type ≡ true → c.len ≡ 4) × IsLaid (off + c.len) scs cs len
IsLaid off _ _ len = ⊥

cons_col-ok :
    (col : ColMeta) (r : Result Output) (o : Output)
    → cons_col col r ≡ ok o
    → (rest : Output) × (r ≡ ok rest) × (o ≡ record { cols = col ∷ rest.cols; len = rest.len })
unfolding cons_col
cons_col-ok col (ok rest) o h = (rest, refl, ground arith)
cons_col-ok col (throw e) o h = ground arith

output_col-laid :
    (cols : List ColMeta) (off : ℕ) (sc : TabCol) (c : ColMeta)
    → output_col cols off sc ≡ ok c
    → (c.offset ≡ off) × (is_count sc.agg_type ≡ true → c.len ≡ 4)
unfolding output_col
output_col-laid cols off sc c h = elim (Bool-cases (is_count sc.agg_type)) [
  | inl f ↦ let g = rw (f, output_col) at h in (ground (arith, g), λ k. ground (arith, g))
  | inr f ↦ elim (Result-cases (get_col cols sc)) [
    | inl (p, e) ↦
        let g = rw (f, output_col, e) at h in (ground (arith, g), λ k. ground (arith, f, k))
    | inr (x, e) ↦ let g = rw (f, output_col, e) at h in ground (arith, g)
  ]
]

output_from-nil :
    (cols : List ColMeta) (off : ℕ) (o : Output)
    → output_from cols off [] ≡ ok o
    → record { cols = []; len = off } ≡ o
unfolding output_from
output_from-nil cols off o h = ground arith

output_from-IsLaid :
    (cols : List ColMeta) (off : ℕ) (scs : List TabCol) (o : Output)
    → output_from cols off scs ≡ ok o
    → IsLaid off scs o.cols o.len
unfolding output_from
output_from-IsLaid cols off [] o h =
    subst (λ x. IsLaid off [] x.cols x.len) (output_from-nil cols off o h) refl
output_from-IsLaid cols off (sc ∷ scs) o h = elim (Result-cases (output_col cols off sc)) [
  | inl (c, e) ↦
      let (rest, a, b) =
        cons_col-ok c (output_from cols (off + c.len) scs) o (rw (e, output_from) at h) in
      let l = output_col-laid cols off sc c e in
      rw b (l.0, l.1, output_from-IsLaid cols (off + c.len) scs rest a)
  | inr (x, e) ↦ let g = rw (e, output_from) at h in ground (arith, g)
]

module _ (F : Doubles) (compare_float : List ℕ → List ℕ → Ordering) where
  -- The columns' bytes, one behind another, filled with zeros.
  abbrev pub packed : (TabCol → ColMeta → List ℕ) → List TabCol → List ColMeta → List ℕ
  packed v (sc ∷ scs) (c ∷ cs) = bytes_of c.len (v sc c) ++ packed v scs cs
  packed v _ _ = []

  abbrev pub laid_row : (TabCol → Acc F compare_float) → List TabCol → List ColMeta → List ℕ
  laid_row g = packed (λ sc c. final F compare_float sc.agg_type c (g sc))

  -- A sum has room in its column.
  abbrev pub IsWide : ColMeta → Type 0
  IsWide c = sum_size c.type ≤ c.len

  length-kept : (c : ColMeta) (o : Option (List ℕ)) → length (kept F compare_float c o) ≤ c.len
  unfolding kept
  length-kept c none = omega arith
  length-kept c (some v) = omega (arith, length-bytes_of c.len v)

  length-final :
      (agg : AggType) (c : ColMeta) (a : Acc F compare_float)
      → (is_count agg ≡ true → c.len ≡ 4)
      → IsWide c
      → length (final F compare_float agg c a) ≤ c.len
  unfolding final put_int32 put_le
  length-final AggType.agg_count c a h k = omega (arith, h refl)
  length-final AggType.agg_sum c a h k =
      omega (arith, length-bytes_of (sum_size c.type) (F.to_bytes c.type a.sum), k)
  length-final AggType.agg_none c a h k = length-kept c a.minmax
  length-final AggType.agg_max c a h k = length-kept c a.minmax
  length-final AggType.agg_min c a h k = length-kept c a.minmax

  IsLaid-le :
      (off : ℕ) (scs : List TabCol) (cs : List ColMeta) (len : ℕ)
      → IsLaid off scs cs len
      → off ≤ len
  IsLaid-le off [] [] len l = omega (arith, l)
  IsLaid-le off [] (c ∷ cs) len l = absurd l
  IsLaid-le off (sc ∷ scs) [] len l = absurd l
  IsLaid-le off (sc ∷ scs) (c ∷ cs) len l = omega (arith, IsLaid-le (off + c.len) scs cs len l.2)

  fill-row :
      (g : TabCol → Acc F compare_float) (scs : List TabCol) (cs : List ColMeta) (len : ℕ)
      (pre : List ℕ) (room : ℕ)
      → IsLaid (length pre) scs cs len
      → All IsWide cs
      → len ≡ length pre + room
      → fill F compare_float scs cs (map g scs) (pre ++ zeros room) ≡ pre ++ laid_row g scs cs
  unfolding fill
  fill-row g [] [] len pre room l k h =
      let e : room ≡ 0 = omega (arith, l, h) in ap (λ n. pre ++ zeros n) e
  fill-row g [] (c ∷ cs) len pre room l k h = absurd l
  fill-row g (sc ∷ scs) [] len pre room l k h = absurd l
  fill-row g (sc ∷ scs) (c ∷ cs) len pre room l k h =
      let v = final F compare_float sc.agg_type c (g sc) in
      let bs = bytes_of c.len v in
      let fits = length-final sc.agg_type c (g sc) l.1 k.0 in
      let behind = IsLaid-le (length pre + c.len) scs cs len l.2 in
      let room' = room - c.len in
      let size = length-append pre bs ∙ omega (arith, length-bytes_of c.len v) in
      ap (fill F compare_float scs cs (map g scs)) (
        ap (λ o. write o v (pre ++ zeros room)) l.0
        ∙ write-behind pre v (zeros room)
        ∙ ap (λ x. pre ++ x)
            (ap (write 0 v) (zeros-split c.len room room' (omega (arith, behind)))
              ∙ write-pad c.len v (zeros room') fits)
        ∙ sym (append_assoc pre bs (zeros room')))
      ∙ fill-row g scs cs len (pre ++ bs) room' (subst (λ n. IsLaid n scs cs len) (sym size) l.2)
          k.1 (omega (arith, behind, size, h))
      ∙ append_assoc pre bs (laid_row g scs cs)

module _ {W S : Type 0} (I : W → Type 0) (F : Doubles) (compare_float : List ℕ → List ℕ → Ordering)
    (prev : Executor W S) (scs : List TabCol) (out : Output) (fuel : ℕ) where
  -- The one record is the fold over the child's records.
  pub Produces-laid_row :
      (rs : List (List ℕ))
      → All (IsSelectable prev.cols) scs
      → output_from prev.cols 0 scs ≡ ok out
      → All (IsWide F compare_float) out.cols
      → length rs < fuel
      → Produces I prev rs
      → Produces I (aggregate_executor F compare_float prev scs out fuel) (
          laid_row F compare_float
            (λ sc. fold F compare_float prev.cols rs sc (empty F compare_float))
            scs
            out.cols
          ∷ [])
  unfolding aggregate_executor begin_tuple
  Produces-laid_row rs sel o wide h p w s i =
      let row =
        fill-row F compare_float
          (λ sc. fold F compare_float prev.cols rs sc (empty F compare_float)) scs out.cols out.len
          [] out.len (output_from-IsLaid prev.cols 0 scs out o) wide (omega arith) in
      Returns-bind I {Q = λ t. Unit {0}} _
        (Returns-on_child I (λ t. t.prev) (λ s' t. record t { prev = s' }) _ w s
          (Returns-bind I {Q = Yields I prev rs} _ (p w s.prev i) (λ w' s' i' y.
            consume-fold I F compare_float prev scs out fuel sel rs fuel
              (λ sc. empty F compare_float) w' s' h i' y))
          (λ s' q. tt))
        (λ w' s' i' q. Returns-return I w' _ i' (
          λ v j. refl,
          λ v j. rw row (Returns-return I v _ j refl),
          λ v j. Returns-return I v _ j (λ u k. refl),
        ))
