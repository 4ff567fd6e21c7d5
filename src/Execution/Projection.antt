-- ===== src/Execution/Projection.antt =====
-- `ProjectionExecutor` of execution/executor_projection.h: the selected columns of its child's records,
-- one behind another.
use mathlib.Core.List.{append_assoc}
use claude_opus.Base.{
  ◌≡◌, refl, sym, ap, ◌∙◌, ℕ, suc, ◌+◌, ◌≤◌, arith, Bool-cases, inl, inr, Option, none, some, List,
  [], ◌∷◌, ◌++◌, map, length, get_elem?, drop, read, write, zeros, length-zeros, length-bytes_of,
}
use claude_opus.LogRecord.Size.{length-append}
use claude_opus.Errors.{Result, ok, throw, Result-cases}
use claude_opus.Calls.{M, ◌>>=◌, return}
use claude_opus.Common.{TabCol, ColMeta}
use claude_opus.Execution.{Executor}
use claude_opus.Execution.Conditions.{ColPos, get_col, find_col, is_named}
use claude_opus.Execution.Yields.{
  Returns-bind_same, Returns-return, Returns-weaken, Yields, Produces,
}

-- What the constructor computes: `cols_`, `sel_idxs_` and `len_`.
pub record Selection : Type 0 where
  pub cols : List ColMeta
  pub sel_idxs : List ℕ
  pub len : ℕ

pub add_col : ColPos → ℕ → Result Selection → Result Selection
add_col p curr_offset (ok s) = ok (record {
  cols = record p.col { offset = curr_offset } ∷ s.cols;
  sel_idxs = p.index ∷ s.sel_idxs;
  len = s.len;
})
add_col p curr_offset (throw e) = throw e

-- The constructor's loop.
unfoldable pub select_from : List ColMeta → ℕ → List TabCol → Result Selection
unfolding get_col add_col
select_from prev_cols curr_offset [] = ok (record { cols = []; sel_idxs = []; len = curr_offset })
select_from prev_cols curr_offset (t ∷ ts) = elim (get_col prev_cols t) [
  | ok p ↦ add_col p curr_offset (select_from prev_cols (curr_offset + p.col.len) ts)
  | throw e ↦ throw e
]

pub copy_col : Option ColMeta → ColMeta → List ℕ → List ℕ → List ℕ
unfolding write
copy_col none col prev_rec rec = rec
copy_col (some prev_col) col prev_rec rec =
    write col.offset (read prev_col.offset col.len prev_rec) rec

-- The loop of `Next`.
unfoldable pub copy_cols : List ColMeta → List ℕ → List ColMeta → List ℕ → List ℕ → List ℕ
unfolding copy_col
copy_cols prev_cols (i ∷ idxs) (col ∷ cols) prev_rec rec =
    copy_cols prev_cols idxs cols prev_rec (copy_col (get_elem? prev_cols i) col prev_rec rec)
copy_cols prev_cols _ _ prev_rec rec = rec

module _ {W S : Type 0} (prev : Executor W S) (sel : Selection) where
  -- The child's state is the executor's.
  next : M (W × S) (List ℕ)
  unfolding copy_cols
  next = do
    prev_rec ← prev.next
    return (copy_cols prev.cols sel.sel_idxs sel.cols prev_rec (zeros sel.len))

  unfoldable pub projection : Executor W S
  unfolding next
  projection = record {
    cols = sel.cols;
    tuple_len = sel.len;
    begin_tuple = prev.begin_tuple;
    next_tuple = prev.next_tuple;
    is_end = prev.is_end;
    next = next;
  }

-- The bytes of the columns that are there, one behind another.
abbrev pub row : List ColMeta → List TabCol → List ℕ → List ℕ
row prev_cols [] rec = []
row prev_cols (t ∷ ts) rec = elim (get_col prev_cols t) [
  | ok p ↦ read p.col.offset p.col.len rec ++ row prev_cols ts rec
  | throw e ↦ row prev_cols ts rec
]

row-cons :
    (prev_cols : List ColMeta) (t : TabCol) (ts : List TabCol) (p : ColPos) (rec : List ℕ)
    → get_col prev_cols t ≡ ok p
    → row prev_cols (t ∷ ts) rec ≡ read p.col.offset p.col.len rec ++ row prev_cols ts rec
row-cons prev_cols t ts p rec e = rw (e, row) refl

find_col-get :
    (i : ℕ) (cols : List ColMeta) (t : TabCol) (p : ColPos)
    → find_col i cols t ≡ ok p
    → (k : ℕ) × (p.index ≡ k + i) × (get_elem? cols k ≡ some p.col)
unfolding find_col
find_col-get i [] t p h = ground arith
find_col-get i (c ∷ cols) t p h = elim (Bool-cases (is_named t c)) [
  | inl e ↦ (0, ground arith, ground arith)
  | inr e ↦
      let (k, a, b) = find_col-get (suc i) cols t p (rw e at h) in (suc k, omega (arith, a), b)
]

-- A column that is found stands at its place.
get_col-get :
    (cols : List ColMeta) (t : TabCol) (p : ColPos)
    → get_col cols t ≡ ok p
    → get_elem? cols p.index ≡ some p.col
unfolding get_col
get_col-get cols t p h =
    let (k, a, b) = find_col-get 0 cols t p h in ap (get_elem? cols) (omega (arith, a)) ∙ b

write-append :
    (pre vs rest : List ℕ)
    → length vs ≤ length rest
    → write (length pre) vs (pre ++ rest) ≡ (pre ++ vs) ++ drop (length vs) rest
unfolding write
write-append (b ∷ pre) vs rest h = ap (λ l. b ∷ l) (write-append pre vs rest h)
write-append [] [] rest h = refl
write-append [] (v ∷ vs) [] h = ground arith
write-append [] (v ∷ vs) (b ∷ rest) h = ap (λ l. v ∷ l) (write-append [] vs rest (omega arith))

add_col-ok :
    (p : ColPos) (curr_offset : ℕ) (r : Result Selection) (s : Selection)
    → add_col p curr_offset r ≡ ok s
    → (rest : Selection) × (r ≡ ok rest)
      × (s ≡ record {
        cols = record p.col { offset = curr_offset } ∷ rest.cols;
        sel_idxs = p.index ∷ rest.sel_idxs;
        len = rest.len;
      })
unfolding add_col
add_col-ok p curr_offset (ok rest) s h = (rest, refl, ground arith)
add_col-ok p curr_offset (throw e) s h = ground arith

select_from-cons :
    (prev_cols : List ColMeta) (curr_offset : ℕ) (t : TabCol) (ts : List TabCol) (s : Selection)
    → select_from prev_cols curr_offset (t ∷ ts) ≡ ok s
    → (p : ColPos) × (rest : Selection) × (get_col prev_cols t ≡ ok p)
      × (select_from prev_cols (curr_offset + p.col.len) ts ≡ ok rest)
      × (s ≡ record {
        cols = record p.col { offset = curr_offset } ∷ rest.cols;
        sel_idxs = p.index ∷ rest.sel_idxs;
        len = rest.len;
      })
unfolding select_from
select_from-cons prev_cols off t ts s h = elim (Result-cases (get_col prev_cols t)) [
  | inl (p, e) ↦
      let (rest, a, b) =
        add_col-ok p off (select_from prev_cols (off + p.col.len) ts) s
          (rw (e, select_from) at h) in
      (p, rest, e, a, b)
  | inr (x, e) ↦ ground (arith, e)
]

le-select_from :
    (prev_cols : List ColMeta) (off : ℕ) (ts : List TabCol) (s : Selection)
    → select_from prev_cols off ts ≡ ok s
    → off ≤ s.len
unfolding select_from
le-select_from prev_cols off [] s h = ground arith
le-select_from prev_cols off (t ∷ ts) s h =
    let (p, rest, e, a, b) = select_from-cons prev_cols off t ts s h in
    rw b (omega (arith, le-select_from prev_cols (off + p.col.len) ts rest a))

length-zero : (zs : List ℕ) → length zs ≡ 0 → zs ≡ []
length-zero [] h = refl
length-zero (z ∷ zs) h = ground arith

drop-length :
    (vs zs : List ℕ) → length vs ≤ length zs → length (drop (length vs) zs) + length vs ≡ length zs
drop-length [] zs h = omega arith
drop-length (v ∷ vs) [] h = omega arith
drop-length (v ∷ vs) (z ∷ zs) h = omega (arith, drop-length vs zs)

select_from-nil :
    (prev_cols : List ColMeta) (off : ℕ) (s : Selection)
    → select_from prev_cols off [] ≡ ok s
    → s ≡ record { cols = []; sel_idxs = []; len = off }
unfolding select_from
select_from-nil prev_cols off s h = ground arith

-- The loop of `Next` behind the bytes `pre` that are there already.
copy_cols-row :
    (prev_cols : List ColMeta) (off : ℕ) (ts : List TabCol) (s : Selection)
    (prev_rec pre zs : List ℕ)
    → select_from prev_cols off ts ≡ ok s
    → length pre ≡ off
    → length zs + off ≡ s.len
    → copy_cols prev_cols s.sel_idxs s.cols prev_rec (pre ++ zs) ≡ pre ++ row prev_cols ts prev_rec
unfolding copy_cols copy_col
copy_cols-row prev_cols off [] s prev_rec pre zs h l m =
    let e = select_from-nil prev_cols off s h in
    let len_eq = ap (λ x. x.len) e in rw (e, length-zero zs (omega (arith, m, len_eq))) refl
copy_cols-row prev_cols off (t ∷ ts) s prev_rec pre zs h l m =
    let (p, rest, e, a, b) = select_from-cons prev_cols off t ts s h in
    let vs = read p.col.offset p.col.len prev_rec in
    let size = length-bytes_of p.col.len (drop p.col.offset prev_rec) in
    let fits = le-select_from prev_cols (off + p.col.len) ts rest a in
    let len_eq = ap (λ x. x.len) b in
    let room = drop-length vs zs (omega (arith, m, fits, len_eq, size)) in
    rw b (
      ap (copy_cols prev_cols rest.sel_idxs rest.cols prev_rec) (
        rw (get_col-get prev_cols t p e)
          (rw (sym l) (write-append pre vs zs (omega (arith, m, fits, len_eq, size)))))
      ∙ copy_cols-row prev_cols (off + p.col.len) ts rest prev_rec (pre ++ vs) (drop (length vs) zs)
          a (length-append pre vs ∙ omega (arith, l, size))
          (omega (arith, room, m, len_eq, size, fits))
      ∙ append_assoc pre vs (row prev_cols ts prev_rec)
      ∙ ap (λ l. pre ++ l) (sym (row-cons prev_cols t ts p prev_rec e)))

module _ {W S : Type 0} (I : W → Type 0) (prev : Executor W S) (ts : List TabCol)
    (sel : Selection) where
  Yields-row :
      (rs : List (List ℕ)) (s : S)
      → select_from prev.cols 0 ts ≡ ok sel
      → Yields I prev rs s
      → Yields I (projection prev sel) (map (row prev.cols ts) rs) s
  unfolding projection next
  Yields-row [] s h y = y
  Yields-row (r ∷ rs) s h y = (
    y.0,
    λ w i. Returns-bind_same I _ (y.1 w i) (λ w' i'.
        rw
          (copy_cols-row prev.cols 0 ts sel r [] (zeros sel.len) h refl
            (omega (arith, length-zeros sel.len)))
          (Returns-return I w' s i' refl)),
    λ w i. Returns-weaken I (y.2 w i) (λ s' q. Yields-row rs s' h q),
  )

  -- Over a child that yields records, the executor yields of each one the selected columns' bytes,
  -- one behind another, if its constructor found them.
  pub Produces-row :
      (rs : List (List ℕ))
      → select_from prev.cols 0 ts ≡ ok sel
      → Produces I prev rs
      → Produces I (projection prev sel) (map (row prev.cols ts) rs)
  unfolding projection
  Produces-row rs h p w s i = Returns-weaken I (p w s i) (λ s' q. Yields-row rs s' h q)
