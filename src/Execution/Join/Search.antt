-- ===== src/Execution/Join/Search.antt =====
-- The inner loop of `find_match`, and `Next` at a pair that it has found.
use Prim.Native.Nat.{Ordering}
use mathlib.Core.List.{append_assoc, append-nil}
use claude_opus.Base.{
  ◌≡◌, refl, ap, sym, subst, ◌∙◌, ℕ, zero, suc, Bool, inl, inr, Option, none, some, List, [], ◌∷◌,
  ◌++◌, length, get_elem?, ℤ, All, Option-cases,
}
use claude_opus.Errors.{Result, ok}
use claude_opus.Calls.{M}
use claude_opus.Common.{Condition}
use claude_opus.Record.Scan.{behind}
use claude_opus.Execution.{Executor}
use claude_opus.Execution.Conditions.{satisfies, IsBound, eval_conds-satisfies}
use claude_opus.Execution.Join.{
  JoinState, last_pos, join_record, cols_, look, search, settle, find_match, next, join_of, element,
}
use claude_opus.Execution.Join.Spec.{Rec, one, matches}
use claude_opus.Execution.Join.Blocks.{Ready}
use claude_opus.Execution.Yields.{Returns, Returns-return}

module _ {W L R : Type 0} (I : W → Type 0) (left : Executor W L) (right : Executor W R)
    (compare_float : List ℕ → List ℕ → Ordering) (conds : List Condition) (fuel : ℕ)
    (bound : All (IsBound (cols_ left right compare_float conds fuel)) conds) where
  abbrev join : Rec → Rec → Rec
  join = join_record left.tuple_len right.tuple_len

  abbrev sat : Rec → Bool
  sat = satisfies compare_float (cols_ left right compare_float conds fuel) conds

  -- The pairs of a right record with the block's records below `k`.
  abbrev pub below : List Rec → Rec → ℕ → List Rec
  below block r zero = []
  below block r (suc j) = elim (get_elem? block j) [
    | some l ↦ one join sat l r ++ below block r j
    | none ↦ below block r j
  ]

  below-cons :
      (b : Rec) (block : List Rec) (r : Rec) (k : ℕ)
      → below (b ∷ block) r (suc k) ≡ below block r k ++ one join sat b r
  below-cons b block r zero = append-nil (one join sat b r)
  below-cons b block r (suc k) = elim (Option-cases (get_elem? block k)) [
    | inl e ↦ rw (e, below) (below-cons b block r k)
    | inr (l, e) ↦
        rw (e, below)
          (ap (λ x. one join sat l r ++ x) (below-cons b block r k)
            ∙ sym (append_assoc (one join sat l r) (below block r k) (one join sat b r)))
  ]

  pub below-matches :
      (block : List Rec) (r : Rec) → below block r (length block) ≡ matches join sat block r
  below-matches [] r = refl
  below-matches (b ∷ block) r =
      below-cons b block r (length block) ∙ ap (λ x. x ++ one join sat b r) (below-matches block r)

  search-cong :
      {b b' : List Rec} {o o' : Option Rec} {k k' : ℕ}
      → b ≡ b'
      → o ≡ o'
      → k ≡ k'
      → search left right compare_float conds fuel b o k
        ≡ search left right compare_float conds fuel b' o' k'
  search-cong e f g = rw (e, f, g) refl

  pub search-none :
      (block : List Rec) (r : Rec) (j : ℕ)
      → get_elem? block j ≡ none
      → search left right compare_float conds fuel block (some r) (suc j)
        ≡ search left right compare_float conds fuel block (some r) j
  unfolding search
  search-none block r j e = rw (e, search) refl

  pub search-some :
      (block : List Rec) (l r : Rec) (j : ℕ)
      → get_elem? block j ≡ some l
      → search left right compare_float conds fuel block (some r) (suc j)
        ≡ look left right compare_float conds fuel
            (ok (sat (join l r)))
            j
            (search left right compare_float conds fuel block (some r) j)
  unfolding search
  search-some block l r j e =
      rw (e, search)
        (ap
          (λ x.
            look left right compare_float conds fuel x j
              (search left right compare_float conds fuel block (some r) j))
          (eval_conds-satisfies compare_float (cols_ left right compare_float conds fuel) conds
            (join l r) bound))

  pub below-none :
      (block : List Rec) (r : Rec) (j : ℕ)
      → get_elem? block j ≡ none
      → below block r (suc j) ≡ below block r j
  below-none block r j e = rw (e, below) refl

  pub below-some :
      (block : List Rec) (l r : Rec) (j : ℕ)
      → get_elem? block j ≡ some l
      → below block r (suc j) ≡ one join sat l r ++ below block r j
  below-some block l r j e = rw (e, below) refl

  pub behind-last_pos : (k : ℕ) → behind (last_pos k) ≡ k
  behind-last_pos zero = refl
  behind-last_pos (suc k) = refl

  abbrev State : Type 0
  State = W × JoinState L R

  abbrev pub settle_on : Result (Option ℕ) → ℕ → M State (Unit {0})
  settle_on found n =
      settle left right compare_float conds fuel found
        (λ ws. find_match left right compare_float conds fuel n ws)

  abbrev pub search_in : List Rec → Rec → ℕ → Result (Option ℕ)
  search_in block r k = search left right compare_float conds fuel block (some r) k

  joins :
      (v : W) (t : JoinState L R) (l r : Rec)
      → I v
      → Returns I
          (λ s. s ≡ t)
          (join l r)
          (join_of left right compare_float conds fuel (v, t) (some l) (some r))
  unfolding join_of
  joins v t l r i = Returns-return I v t i refl

  pub next-joins :
      (v : W) (t : JoinState L R) (l r : Rec)
      → I v
      → element left right compare_float conds fuel t.left_buffer t.left_pos ≡ some l
      → t.right_rec ≡ some r
      → Returns I (λ s. s ≡ t) (join l r) (next left right compare_float conds fuel (v, t))
  unfolding next
  next-joins v t l r i e f =
      subst
        (λ x.
          Returns I (λ s. s ≡ t) (join l r)
            (join_of left right compare_float conds fuel (v, t) x t.right_rec))
        (sym e)
        (subst
          (λ x.
            Returns I (λ s. s ≡ t) (join l r)
              (join_of left right compare_float conds fuel (v, t) (some l) x))
          (sym f) (joins v t l r i))

  pub find_match-settle :
      (n : ℕ) (block : List Rec) (r : Rec) (rs ls : List Rec) (k : ℕ) (w : W) (t : JoinState L R)
      → Ready I left right compare_float conds fuel block r rs ls t
      → behind t.left_pos ≡ k
      → find_match left right compare_float conds fuel (suc n) (w, t)
        ≡ settle_on (search_in block r k) n (w, t)
  unfolding find_match
  find_match-settle n block r rs ls k w t q e =
      ap (λ s. settle_on s n (w, t)) (search-cong q.loaded.block q.right_there e)

  pub Ready-left_pos :
      {block : List Rec} {r : Rec} {rs ls : List Rec} {t : JoinState L R} (x : ℤ)
      → Ready I left right compare_float conds fuel block r rs ls t
      → Ready I left right compare_float conds fuel block r rs ls (record t { left_pos = x })
  Ready-left_pos x q = record {
    loaded = record {
      block = q.loaded.block;
      on_right = q.loaded.on_right;
      goes_on = q.loaded.goes_on;
      left_rest = q.loaded.left_rest;
    };
    right_there = q.right_there;
  }
