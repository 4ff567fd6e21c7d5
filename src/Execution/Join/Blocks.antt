-- ===== src/Execution/Join/Blocks.antt =====
-- A join's steps from one block, and from one right record, to the next.
use Prim.Native.Nat.{Ordering}
use mathlib.Core.List.{append_assoc, append-nil}
use claude_opus.Base.{
  ◌≡◌, refl, ap, sym, ◌∙◌, ℕ, zero, suc, ◌+◌, ◌<◌, arith, Bool, true, false, Bool-cases, inl, inr,
  leb, some, List, [], ◌∷◌, ◌++◌, length,
}
use claude_opus.Common.{Condition}
use claude_opus.Execution.{Executor, on_child}
use claude_opus.Execution.Join.{
  JoinState, put_left, put_right, max_buffer_size, last_pos, load, load_next_left_block, take_right,
  finish, restart_right, with_block, next_block, step_right, advance,
}
use claude_opus.Execution.Join.Spec.{Rec, take_block}
use claude_opus.Execution.Yields.{
  Returns, Returns-bind, Returns-bind_same, Returns-return, Returns-on_child, Returns-weaken,
  Yields, Produces,
}

module _ {W L R : Type 0} (I : W → Type 0) (left : Executor W L) (right : Executor W R)
    (compare_float : List ℕ → List ℕ → Ordering) (fed_conds : List Condition) (fuel : ℕ) where
  -- A block is there, `ls` are the left records behind it, and the right child's state is in `P`.
  pub record Loaded (P : R → Type 0) (buffer ls : List Rec) (t : JoinState L R) : Type 0 where
    pub block : t.left_buffer ≡ buffer
    pub on_right : P t.right
    pub goes_on : t.isend ≡ false
    pub left_rest : Yields I left ls t.left

  re_block :
      {P : R → Type 0} {b c ls : List Rec} {t : JoinState L R}
      → t.left_buffer ≡ c
      → Loaded P b ls t
      → Loaded P c ls t
  re_block e q = record {
    block = e;
    on_right = q.on_right;
    goes_on = q.goes_on;
    left_rest = q.left_rest;
  }

  load-Loaded :
      {P : R → Type 0} (ls : List Rec) (n size : ℕ) (w : W) (t : JoinState L R) (buffer : List Rec)
      → length ls < n
      → I w
      → Loaded P buffer ls t
      → Returns I
          (Loaded P
            (buffer ++ (take_block left.tuple_len size ls).0)
            (take_block left.tuple_len size ls).1)
          tt
          (load left right compare_float fed_conds fuel n size (w, t))
  unfolding load
  load-Loaded ls zero size w t buffer h i q = ground arith
  load-Loaded [] (suc n) size w t buffer h i q =
      rw (q.left_rest w i, load)
        (Returns-return I w t i (re_block (q.block ∙ sym (append-nil buffer)) q))
  load-Loaded {P} (l ∷ ls) (suc n) size w t buffer h i q =
      let y = q.left_rest in
      rw (y.0 w i, load)
        (Returns-bind_same I {s = t} _
          (Returns-on_child I (λ s. s.left) put_left left.next w t (y.1 w i) (λ s e. rw e refl))
          (λ w' i'.
            Returns-bind I {Q = Loaded P (buffer ++ l ∷ []) ls} _
              (Returns-on_child I (λ s. s.left) put_left left.next_tuple w'
                (record t { left_buffer = t.left_buffer ++ l ∷ [] }) (y.2 w' i')
                (λ s e. record {
                  block = ap (λ x. x ++ l ∷ []) q.block;
                  on_right = q.on_right;
                  goes_on = q.goes_on;
                  left_rest = e;
                }))
              (λ w'' t'' i'' q''. elim (Bool-cases (leb max_buffer_size (size + left.tuple_len))) [
                | inl e ↦ rw e (Returns-return I w'' t'' i'' q'')
                | inr e ↦ rw e (
                    Returns-weaken I
                      (load-Loaded ls n (size + left.tuple_len) w'' t'' (buffer ++ l ∷ [])
                        (omega arith) i'' q'')
                      (λ t3 q3.
                        re_block
                          (q3.block
                            ∙ append_assoc buffer (l ∷ [])
                                (take_block left.tuple_len (size + left.tuple_len) ls).0)
                          q3))
              ])))

  load_next_left_block-Loaded :
      {P : R → Type 0} (ls : List Rec) (w : W) (t : JoinState L R)
      → length ls < fuel
      → I w
      → P t.right
      → t.isend ≡ false
      → Yields I left ls t.left
      → Returns I
          (Loaded P (take_block left.tuple_len 0 ls).0 (take_block left.tuple_len 0 ls).1)
          tt
          (load_next_left_block left right compare_float fed_conds fuel (w, t))
  unfolding load_next_left_block
  load_next_left_block-Loaded ls w t h i p g y =
      load-Loaded ls fuel 0 w (record t { left_buffer = [] }) [] h i
        (record { block = refl; on_right = p; goes_on = g; left_rest = y })

  -- The position is behind the block's last record, the right child stands at its record `r`, behind
  -- which `rs` come.
  pub record Ready (block : List Rec) (r : Rec) (rs ls : List Rec) (t : JoinState L R)
      : Type 0 where
    pub loaded : Loaded (Yields I right (r ∷ rs)) block ls t
    pub right_there : t.right_rec ≡ some r

  -- What `advance` and `next_block` leave, where they go on.
  abbrev pub Restarted : List Rec → Rec → List Rec → List Rec → JoinState L R → Type 0
  Restarted block r rs ls t = Ready block r rs ls t × (t.left_pos ≡ last_pos (length block))

  take_right-Restarted :
      (block : List Rec) (r : Rec) (rs ls : List Rec) (w : W) (t : JoinState L R)
      → I w
      → Loaded (Yields I right (r ∷ rs)) block ls t
      → Returns I
          (Restarted block r rs ls)
          false
          (take_right left right compare_float fed_conds fuel (w, t))
  unfolding take_right
  take_right-Restarted block r rs ls w t i q =
      Returns-bind_same I {s = t} _
        (Returns-on_child I (λ s. s.right) put_right right.next w t (q.on_right.1 w i)
          (λ s e. rw e refl))
        (λ w' i'. Returns-return I w' _ i' (
          record {
            loaded = record {
              block = q.block;
              on_right = q.on_right;
              goes_on = q.goes_on;
              left_rest = q.left_rest;
            };
            right_there = refl;
          },
          ap (λ x. last_pos (length x)) q.block,
        ))

  abbrev pub IsEnded : JoinState L R → Type 0
  IsEnded t = t.isend ≡ true

  finish-IsEnded :
      (w : W) (t : JoinState L R)
      → I w
      → Returns I IsEnded true (finish left right compare_float fed_conds fuel (w, t))
  unfolding finish
  finish-IsEnded w t i = Returns-return I w (record t { isend = true }) i refl

  pub take_block-cons :
      (len size : ℕ) (l : Rec) (ls : List Rec)
      → (b : List Rec) × ((take_block len size (l ∷ ls)).0 ≡ l ∷ b)
  take_block-cons len size l ls = elim (Bool-cases (leb max_buffer_size (size + len))) [
    | inl e ↦ ([], rw e refl)
    | inr e ↦ ((take_block len (size + len) ls).0, rw e refl)
  ]

  with_block-nil :
      {buffer : List Rec}
      → buffer ≡ []
      → (ws : W × JoinState L R)
      → with_block left right compare_float fed_conds fuel buffer ws
        ≡ finish left right compare_float fed_conds fuel ws
  unfolding with_block
  with_block-nil e ws = rw e refl

  with_block-cons :
      {buffer : List Rec} {l : Rec} {b : List Rec}
      → buffer ≡ l ∷ b
      → (ws : W × JoinState L R)
      → with_block left right compare_float fed_conds fuel buffer ws
        ≡ restart_right left right compare_float fed_conds fuel ws
  unfolding with_block
  with_block-cons e ws = rw e refl

  -- There is no left record left.
  pub next_block-no_left :
      (w : W) (t : JoinState L R)
      → 0 < fuel
      → I w
      → t.isend ≡ false
      → Yields I left [] t.left
      → Returns I IsEnded true (next_block left right compare_float fed_conds fuel (w, t))
  unfolding next_block
  next_block-no_left w t h i g y =
      Returns-bind I _ (load_next_left_block-Loaded {P = λ r. Unit {0}} [] w t h i tt g y)
        (λ w' t' i' q. rw (with_block-nil q.block (w', t')) (finish-IsEnded w' t' i'))

  module _ (rs : List Rec) (p : Produces I right rs) where
    restarted :
        (block ls : List Rec) (w : W) (t : JoinState L R)
        → I w
        → Loaded (λ r. Unit {0}) block ls t
        → Returns I
            (Loaded (Yields I right rs) block ls)
            tt
            (on_child (λ s. s.right) put_right right.begin_tuple (w, t))
    restarted block ls w t i q =
        Returns-on_child I (λ s. s.right) put_right right.begin_tuple w t (p w t.right i)
          (λ s y. record {
            block = q.block;
            on_right = y;
            goes_on = q.goes_on;
            left_rest = q.left_rest;
          })

  -- The right child has no records.
  pub next_block-no_right :
      (l : Rec) (ls : List Rec) (w : W) (t : JoinState L R)
      → Produces I right []
      → suc (length ls) < fuel
      → I w
      → t.isend ≡ false
      → Yields I left (l ∷ ls) t.left
      → Returns I IsEnded true (next_block left right compare_float fed_conds fuel (w, t))
  unfolding next_block restart_right
  next_block-no_right l ls w t p h i g y =
      let (b, e) = take_block-cons left.tuple_len 0 l ls in
      Returns-bind I _ (load_next_left_block-Loaded {P = λ r. Unit {0}} (l ∷ ls) w t h i tt g y)
        (λ w' t' i' q. rw (with_block-cons (q.block ∙ e) (w', t')) (
          Returns-bind I _ (restarted [] p _ _ w' t' i' q)
            (λ w'' t'' i'' q''. rw (q''.on_right w'' i'') (finish-IsEnded w'' t'' i''))))

  -- The next block starts with the first right record.
  pub next_block-Restarted :
      (r : Rec) (rs : List Rec) (l : Rec) (ls : List Rec) (w : W) (t : JoinState L R)
      → Produces I right (r ∷ rs)
      → suc (length ls) < fuel
      → I w
      → t.isend ≡ false
      → Yields I left (l ∷ ls) t.left
      → Returns I
          (Restarted
            (take_block left.tuple_len 0 (l ∷ ls)).0
            r
            rs
            (take_block left.tuple_len 0 (l ∷ ls)).1)
          false
          (next_block left right compare_float fed_conds fuel (w, t))
  unfolding next_block restart_right
  next_block-Restarted r rs l ls w t p h i g y =
      let (b, e) = take_block-cons left.tuple_len 0 l ls in
      Returns-bind I _ (load_next_left_block-Loaded {P = λ s. Unit {0}} (l ∷ ls) w t h i tt g y)
        (λ w' t' i' q. rw (with_block-cons (q.block ∙ e) (w', t')) (
          Returns-bind I _ (restarted (r ∷ rs) p _ _ w' t' i' q) (λ w'' t'' i'' q''.
            rw (q''.on_right.0 w'' i'') (take_right-Restarted _ r rs _ w'' t'' i'' q''))))

  -- Another right record stands behind the present one.
  pub advance-right :
      (block : List Rec) (r r' : Rec) (rs ls : List Rec) (w : W) (t : JoinState L R)
      → I w
      → Ready block r (r' ∷ rs) ls t
      → Returns I
          (Restarted block r' rs ls)
          false
          (advance left right compare_float fed_conds fuel (w, t))
  unfolding advance step_right
  advance-right block r r' rs ls w t i q = rw (q.loaded.on_right.0 w i) (
      Returns-bind I {Q = Loaded (Yields I right (r' ∷ rs)) block ls} _
        (Returns-on_child I (λ s. s.right) put_right right.next_tuple w t (q.loaded.on_right.2 w i)
          (λ s y. record {
            block = q.loaded.block;
            on_right = y;
            goes_on = q.loaded.goes_on;
            left_rest = q.loaded.left_rest;
          }))
        (λ w' t' i' q'. rw (q'.on_right.0 w' i') (take_right-Restarted block r' rs ls w' t' i' q')))

  -- The right child is at its last record: `advance` goes on with the next block.
  pub advance-block :
      {A : Bool} {Q : JoinState L R → Type 0} (block : List Rec) (r : Rec) (ls : List Rec) (w : W)
      (t : JoinState L R)
      → I w
      → Ready block r [] ls t
      → ((w' : W) (t' : JoinState L R)
          → I w'
          → t'.isend ≡ false
          → Yields I left ls t'.left
          → Returns I Q A (next_block left right compare_float fed_conds fuel (w', t')))
      → Returns I Q A (advance left right compare_float fed_conds fuel (w, t))
  unfolding advance step_right
  advance-block block r ls w t i q f = rw (q.loaded.on_right.0 w i) (
      Returns-bind I {Q = Loaded (Yields I right []) block ls} _
        (Returns-on_child I (λ s. s.right) put_right right.next_tuple w t (q.loaded.on_right.2 w i)
          (λ s y. record {
            block = q.loaded.block;
            on_right = y;
            goes_on = q.loaded.goes_on;
            left_rest = q.loaded.left_rest;
          }))
        (λ w' t' i' q'. rw (q'.on_right w' i') (f w' t' i' q'.goes_on q'.left_rest)))
