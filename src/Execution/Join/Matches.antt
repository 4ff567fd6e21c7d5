-- ===== src/Execution/Join/Matches.antt =====
-- What a join yields.
use Prim.Native.Nat.{Ordering}
use mathlib.Core.List.{append_assoc, Perm}
use native.Mathlib.Nat.{suc-mul}
use claude_opus.Base.{
  ◌≡◌, refl, ap, sym, subst, ◌∙◌, ℕ, zero, suc, ◌+◌, ◌*◌, ◌≤◌, ◌<◌, arith, Bool, true, false,
  Bool-cases, inl, inr, none, List, [], ◌∷◌, ◌++◌, length, get_elem?, pos, negsuc, All,
  Option-cases,
}
use claude_opus.Errors.{ok}
use claude_opus.Calls.{bind}
use claude_opus.Common.{Condition}
use claude_opus.Record.Scan.{behind}
use claude_opus.Execution.{Executor}
use claude_opus.Execution.Conditions.{satisfies, IsBound}
use claude_opus.Execution.Join.{
  JoinState, put_left, last_pos, join_record, cols_, look, settle, unless, find_match,
  join_executor, next, next_tuple, begin_tuple, next_block, join_of, element,
}
use claude_opus.Execution.Join.Spec.{
  Rec, take_block, take_block-shrinks, append-take_block, matches, block_join, blocks_join, product,
  blocks_join-product,
}
use claude_opus.Execution.Join.Blocks.{
  Ready, take_block-cons, Restarted, IsEnded, next_block-no_left, next_block-no_right,
  next_block-Restarted, advance-right, advance-block,
}
use claude_opus.Execution.Yields.{
  Returns, Returns-bind, Returns-return, Returns-on_child, Yields, Produces,
}
use claude_opus.Execution.Join.Search.{
  below-matches, search-none, search-some, below-none, below-some, behind-last_pos, next-joins,
  find_match-settle, Ready-left_pos, below, settle_on, search_in,
}

module _ {W L R : Type 0} (I : W → Type 0) (left : Executor W L) (right : Executor W R)
    (compare_float : List ℕ → List ℕ → Ordering) (conds : List Condition) (fuel : ℕ)
    (bound : All (IsBound (cols_ left right compare_float conds fuel)) conds) where
  abbrev executor : Executor W (JoinState L R)
  executor = join_executor left right compare_float conds fuel

  abbrev join : Rec → Rec → Rec
  join = join_record left.tuple_len right.tuple_len

  abbrev sat : Rec → Bool
  sat = satisfies compare_float (cols_ left right compare_float conds fuel) conds

  -- How often `find_match` can go on: right records that are left, and those of each block.
  abbrev work : List Rec → List Rec → ℕ
  work rs [] = 0
  work rs (l ∷ ls) = length rs + work rs ls

  -- A right record's matches, and then the rest, if the rest comes behind the inner loop.
  module _ (block : List Rec) (r : Rec) (rs ls rest : List Rec) (need : ℕ) (enough : need ≤ fuel)
      (after : (n : ℕ) (w : W) (t : JoinState L R)
        → need ≤ n
        → I w
        → Ready I left right compare_float conds fuel block r rs ls t
        → Returns I
            (Yields I executor rest)
            tt
            (settle_on I left right compare_float conds fuel bound (ok none) n (w, t))) where
    matches-Yields :
        (k n : ℕ) (w : W) (t : JoinState L R)
        → need ≤ n
        → I w
        → Ready I left right compare_float conds fuel block r rs ls t
        → Returns I
            (Yields I executor
              (below I left right compare_float conds fuel bound block r k ++ rest))
            tt
            (settle_on I left right compare_float conds fuel bound
              (search_in I left right compare_float conds fuel bound block r k)
              n
              (w, t))
    unfolding settle look join_executor next_tuple next join_of element
    matches-Yields zero n w t h i q = after n w t h i q
    matches-Yields (suc j) n w t h i q = elim (Option-cases (get_elem? block j)) [
      | inl e ↦
          rw
            (
              search-none I left right compare_float conds fuel bound block r j e,
              below-none I left right compare_float conds fuel bound block r j e,
            )
            (matches-Yields j n w t h i q)
      | inr (l, e) ↦ elim (Bool-cases (sat (join l r))) [
        | inl m ↦
            rw
              (
                search-some I left right compare_float conds fuel bound block l r j e,
                below-some I left right compare_float conds fuel bound block l r j e,
                m,
              )
              (Returns-return I w (record t { left_pos = pos j }) i
                (
                  λ v k. q.loaded.goes_on,
                  λ v k.
                      next-joins I left right compare_float conds fuel bound v
                        (record t { left_pos = pos j }) l r k
                        (ap (λ b. get_elem? b j) q.loaded.block ∙ e) q.right_there,
                  λ v k.
                      rw
                        (find_match-settle I left right compare_float conds fuel bound fuel block r
                          rs ls j v (record t { left_pos = last_pos j })
                          (Ready-left_pos I left right compare_float conds fuel bound (last_pos j)
                            q)
                          (behind-last_pos I left right compare_float conds fuel bound j))
                        (matches-Yields j fuel v (record t { left_pos = last_pos j }) enough k
                          (Ready-left_pos I left right compare_float conds fuel bound (last_pos j)
                            q)),
                ))
        | inr m ↦
            rw
              (
                search-some I left right compare_float conds fuel bound block l r j e,
                below-some I left right compare_float conds fuel bound block l r j e,
                m,
              )
              (matches-Yields j n w t h i q)
      ]
    ]

  abbrev remaining : List Rec → List Rec → ℕ → List Rec → List Rec → List Rec
  remaining block rrest n ls rs =
      block_join join sat block rrest ++ blocks_join join sat n left.tuple_len ls rs

  module _ (r0 : Rec) (rs0 : List Rec) (p : Produces I right (r0 ∷ rs0)) where
    abbrev need : List Rec → List Rec → ℕ
    need rrest ls = length rrest + work (r0 ∷ rs0) ls

    work-append :
        (ls ms : List Rec) → work (r0 ∷ rs0) (ls ++ ms) ≡ work (r0 ∷ rs0) ls + work (r0 ∷ rs0) ms
    work-append [] ms = omega arith
    work-append (l ∷ ls) ms = omega (arith, work-append ls ms)

    work-cons :
        (bs : List Rec) (l : Rec) (b : List Rec)
        → bs ≡ l ∷ b
        → suc (length rs0) ≤ work (r0 ∷ rs0) bs
    work-cons bs l b e = rw e (omega arith)

    work-take_block :
        (l : Rec) (ls : List Rec)
        → suc (length rs0) + work (r0 ∷ rs0) (take_block left.tuple_len 0 (l ∷ ls)).1
          ≤ suc (length rs0) + work (r0 ∷ rs0) ls
    work-take_block l ls =
        let b = take_block left.tuple_len 0 (l ∷ ls) in
        let (c, e) = take_block-cons I left right compare_float conds fuel left.tuple_len 0 l ls in
        omega (
          arith,
          work-cons b.0 l c e,
          work-append b.0 b.1,
          ap (work (r0 ∷ rs0)) (append-take_block left.tuple_len 0 (l ∷ ls)),
        )

    ended-Yields :
        (N : ℕ) (t : JoinState L R)
        → t.isend ≡ true
        → Yields I executor (blocks_join join sat N left.tuple_len [] (r0 ∷ rs0)) t
    unfolding join_executor
    ended-Yields zero t e = λ w i. e
    ended-Yields (suc N) t e = λ w i. e

    -- A right record's matches, and what follows them, from the block's end on.
    started :
        (block : List Rec) (r : Rec) (rrest ls : List Rec) (N : ℕ)
        → need rrest ls ≤ fuel
        → ((n : ℕ) (w : W) (t : JoinState L R)
            → need rrest ls ≤ n
            → I w
            → Ready I left right compare_float conds fuel block r rrest ls t
            → Returns I
                (Yields I executor (remaining block rrest N ls (r0 ∷ rs0)))
                tt
                (settle_on I left right compare_float conds fuel bound (ok none) n (w, t)))
        → (n : ℕ) (w : W) (t : JoinState L R) → need rrest ls ≤ n
        → I w
        → Restarted I left right compare_float conds fuel block r rrest ls t
        → Returns I
            (Yields I executor (remaining block (r ∷ rrest) N ls (r0 ∷ rs0)))
            tt
            (find_match left right compare_float conds fuel (suc n) (w, t))
    started block r rrest ls N hf after n w t hn i q =
        rw
          (find_match-settle I left right compare_float conds fuel bound n block r rrest ls
            (length block) w t q.0
            (ap behind q.1
              ∙ behind-last_pos I left right compare_float conds fuel bound (length block)))
          (subst
            (λ x. Returns I (Yields I executor x) tt (
              settle_on I left right compare_float conds fuel bound
                (search_in I left right compare_float conds fuel bound block r (length block)) n
                (w, t)))
            (ap (λ x. x ++ remaining block rrest N ls (r0 ∷ rs0))
                (below-matches I left right compare_float conds fuel bound block r)
              ∙ sym (
                  append_assoc (matches join sat block r) (block_join join sat block rrest)
                    (blocks_join join sat N left.tuple_len ls (r0 ∷ rs0))))
            (matches-Yields block r rrest ls (remaining block rrest N ls (r0 ∷ rs0)) (need rrest ls)
              hf after (length block) n w t hn i q.0))

    -- Behind the inner loop come the next right records with the block, and the next blocks.
    after-Yields :
        (m : ℕ) (block : List Rec) (r : Rec) (rrest ls : List Rec) (N n : ℕ) (w : W)
        (t : JoinState L R)
        → need rrest ls ≤ m
        → need rrest ls ≤ fuel
        → length ls < fuel
        → length ls ≤ N
        → need rrest ls ≤ n
        → I w
        → Ready I left right compare_float conds fuel block r rrest ls t
        → Returns I
            (Yields I executor (remaining block rrest N ls (r0 ∷ rs0)))
            tt
            (settle_on I left right compare_float conds fuel bound (ok none) n (w, t))
    unfolding settle unless
    after-Yields zero block r (r' ∷ rr) ls N n w t hm hf hl hN hn i q = ground arith
    after-Yields (suc m) block r (r' ∷ rr) ls N zero w t hm hf hl hN hn i q = ground arith
    after-Yields (suc m) block r (r' ∷ rr) ls N (suc n) w t hm hf hl hN hn i q =
        Returns-bind I {Q = Restarted I left right compare_float conds fuel block r' rr ls} _
          (advance-right I left right compare_float conds fuel block r r' rr ls w
            (record t { left_pos = negsuc 0 }) i
            (Ready-left_pos I left right compare_float conds fuel bound (negsuc 0) q))
          (λ w' t' i' q'.
            started block r' rr ls N (omega arith)
              (λ n' w'' t'' h' i'' q''.
                after-Yields m block r' rr ls N n' w'' t'' (omega arith) (omega arith) hl hN h' i''
                  q'')
              n w' t' (omega arith) i' q')
    after-Yields m block r [] [] N n w t hm hf hl hN hn i q =
        Returns-bind I {Q = IsEnded I left right compare_float conds fuel} _
          (advance-block I left right compare_float conds fuel block r [] w
            (record t { left_pos = negsuc 0 }) i
            (Ready-left_pos I left right compare_float conds fuel bound (negsuc 0) q)
            (λ w' t' i' g y.
              next_block-no_left I left right compare_float conds fuel w' t' (omega arith) i' g y))
          (λ w' t' i' q'. Returns-return I w' t' i' (ended-Yields N t' q'))
    after-Yields zero block r [] (l ∷ ls) N n w t hm hf hl hN hn i q = ground arith
    after-Yields (suc m) block r [] (l ∷ ls) N zero w t hm hf hl hN hn i q = ground arith
    after-Yields (suc m) block r [] (l ∷ ls) zero (suc n) w t hm hf hl hN hn i q = ground arith
    after-Yields (suc m) block r [] (l ∷ ls) (suc N) (suc n) w t hm hf hl hN hn i q =
        let b = take_block left.tuple_len 0 (l ∷ ls) in
        let le = work-take_block l ls in
        let shrinks = take_block-shrinks left.tuple_len 0 l ls in
        Returns-bind I {Q = Restarted I left right compare_float conds fuel b.0 r0 rs0 b.1} _
          (advance-block I left right compare_float conds fuel block r (l ∷ ls) w
            (record t { left_pos = negsuc 0 }) i
            (Ready-left_pos I left right compare_float conds fuel bound (negsuc 0) q)
            (λ w' t' i' g y.
              next_block-Restarted I left right compare_float conds fuel r0 rs0 l ls w' t' p hl i' g
                y))
          (λ w' t' i' q'.
            started b.0 r0 rs0 b.1 N (omega (arith, le))
              (λ n' w'' t'' h' i'' q''.
                after-Yields m b.0 r0 rs0 b.1 N n' w'' t'' (omega (arith, le)) (omega (arith, le))
                  (omega (arith, shrinks)) (omega (arith, shrinks)) h' i'' q'')
              n w' t' (omega (arith, le)) i' q')

    begun :
        (l : Rec) (ls : List Rec) (w : W) (t : JoinState L R)
        → suc (length ls) < fuel
        → work (r0 ∷ rs0) (l ∷ ls) ≤ fuel
        → I w
        → t.isend ≡ false
        → Yields I left (l ∷ ls) t.left
        → Returns I
            (Yields I executor
              (blocks_join join sat (suc (length ls)) left.tuple_len (l ∷ ls) (r0 ∷ rs0)))
            tt
            (bind (next_block left right compare_float conds fuel (w, t)) (λ ended.
              unless left right compare_float conds fuel ended
                (λ ws. find_match left right compare_float conds fuel (suc fuel) ws)))
    unfolding unless
    begun l ls w t hl hf i g y =
        let b = take_block left.tuple_len 0 (l ∷ ls) in
        let le = work-take_block l ls in
        let shrinks = take_block-shrinks left.tuple_len 0 l ls in
        Returns-bind I {Q = Restarted I left right compare_float conds fuel b.0 r0 rs0 b.1} _
          (next_block-Restarted I left right compare_float conds fuel r0 rs0 l ls w t p hl i g y)
          (λ w' t' i' q'.
            started b.0 r0 rs0 b.1 (length ls) (omega (arith, le))
              (λ n' w'' t'' h' i'' q''.
                after-Yields (need rs0 b.1) b.0 r0 rs0 b.1 (length ls) n' w'' t'' (omega arith)
                  (omega (arith, le)) (omega (arith, shrinks)) shrinks h' i'' q'')
              fuel w' t' (omega (arith, le)) i' q')

  block_join-no_right : (n : ℕ) (ls : List Rec) → blocks_join join sat n left.tuple_len ls [] ≡ []
  block_join-no_right zero ls = refl
  block_join-no_right (suc n) [] = refl
  block_join-no_right (suc n) (l ∷ ls) =
      block_join-no_right n (take_block left.tuple_len 0 (l ∷ ls)).1

  nothing-Yields :
      {xs : List Rec} → xs ≡ [] → (t : JoinState L R) → t.isend ≡ true → Yields I executor xs t
  unfolding join_executor
  nothing-Yields e t h = rw e (λ w i. h)

  work-mul : (rs ls : List Rec) → work rs ls ≡ length ls * length rs
  work-mul rs [] = omega arith
  work-mul rs (l ∷ ls) = omega (arith, work-mul rs ls, suc-mul (length ls) (length rs))

  begin-Yields :
      (ls rs : List Rec) (w : W) (t : JoinState L R)
      → Produces I right rs
      → length ls < fuel
      → length ls * length rs ≤ fuel
      → I w
      → t.isend ≡ false
      → Yields I left ls t.left
      → Returns I (Yields I executor (blocks_join join sat (length ls) left.tuple_len ls rs)) tt (
          bind (next_block left right compare_float conds fuel (w, t)) (λ ended.
            unless left right compare_float conds fuel ended
              (λ ws. find_match left right compare_float conds fuel (suc fuel) ws)))
  unfolding unless join_executor
  begin-Yields [] rs w t p hl hf i g y =
      Returns-bind I {Q = IsEnded I left right compare_float conds fuel} _
        (next_block-no_left I left right compare_float conds fuel w t hl i g y)
        (λ w' t' i' q'. Returns-return I w' t' i' (λ v k. q'))
  begin-Yields (l ∷ ls) [] w t p hl hf i g y =
      Returns-bind I {Q = IsEnded I left right compare_float conds fuel} _
        (next_block-no_right I left right compare_float conds fuel l ls w t p hl i g y)
        (λ w' t' i' q'.
          Returns-return I w' t' i'
            (nothing-Yields (block_join-no_right (suc (length ls)) (l ∷ ls)) t' q'))
  begin-Yields (l ∷ ls) (r ∷ rs) w t p hl hf i g y =
      begun r rs p l ls w t hl (omega (arith, work-mul (r ∷ rs) (l ∷ ls))) i g y

  -- Over two children that yield records, the join yields what the join in blocks finds.
  Produces-blocks_join :
      (ls rs : List Rec)
      → Produces I left ls
      → Produces I right rs
      → length ls < fuel
      → length ls * length rs ≤ fuel
      → Produces I executor (blocks_join join sat (length ls) left.tuple_len ls rs)
  unfolding join_executor begin_tuple
  Produces-blocks_join ls rs pl pr hl hf w t i =
      Returns-bind I {Q = λ s. (s.isend ≡ false) × Yields I left ls s.left} _
        (Returns-on_child I (λ s. s.left) put_left left.begin_tuple w (record t { isend = false })
          (pl w t.left i) (λ s y. (refl, y)))
        (λ w' t' i' q. begin-Yields ls rs w' t' pr hl hf i' q.0 q.1)

  -- Over children that yield the records `ls` and `rs`, the join yields, in some order, the joined
  -- pairs that fulfil all conditions, each as often as two nested loops find it, if the conditions
  -- name columns that are there; a loop takes at most `fuel` steps, and there is fuel for every pair
  -- and for every left record.
  pub Produces-product :
      (ls rs : List Rec)
      → Produces I left ls
      → Produces I right rs
      → length ls < fuel
      → length ls * length rs ≤ fuel
      → (out : List Rec) × Produces I executor out × Perm out (product join sat ls rs)
  Produces-product ls rs pl pr hl hf = (
    blocks_join join sat (length ls) left.tuple_len ls rs,
    Produces-blocks_join ls rs pl pr hl hf,
    blocks_join-product join sat (length ls) left.tuple_len ls rs (omega arith),
  )
