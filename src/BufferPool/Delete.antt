-- ===== src/BufferPool/Delete.antt =====
-- `delete_page`: a page leaves the pool and stays on disk.
use claude_opus.Base.{
  ℕ, ◌≡◌, refl, sym, ap, ◌∙◌, ◌≢◌, inl, inr, Bool, true, false, Option, none, some, List, [], ◌∷◌,
  ◌++◌, arith, mem, Option-cases, Bool-cases, subst, mem-append, append-Distinct,
}
use claude_opus.Errors.{Result, ok}
use claude_opus.Disk.{PageId}
use claude_opus.BufferPool.{
  Setup, Pool, bind, write_back_dirty, delete_found, free_frame, delete_page,
}
use claude_opus.BufferPool.WriteBack.{Written, write_back_dirty-Written, bind-ok}
use claude_opus.BufferPool.Invariant.{Inv, content}

module _ (E : Setup) where
  open E use {os, policy as R, format.{zeroed}}
  open R use {frames-unpin}

  -- The state after an unpinned page was written back and its frame freed.
  pub record Freed (id : PageId) (f : ℕ) (s t : Pool E) : Type 0 where
    pub inv : Inv E t
    pub left : t.page_table id ≡ none
    pub free : t.free_list ≡ s.free_list ++ f ∷ []
    pub same : (j : PageId) → content E t j ≡ content E s j

  freed-Inv :
      (b : Bool) (s t : Pool E) (id : PageId) (f : ℕ)
      → Inv E s
      → Written E b f s t
      → s.page_table id ≡ some f
      → (s.pages f).pin_count ≡ 0
      → Inv E (free_frame E id f t)
  unfolding free_frame
  freed-Inv b s t id f v w e p = record {
    mapped = λ j g h.
        ground (arith, w.table, w.ids g, w.size, v.mapped j g, v.mapped id f, v.mapped j f);
    resident = λ g h. ground (arith, w.table, w.ids g, v.resident g, v.mapped id f);
    dirty_valid = λ g h. ground (arith, w.dirty g, w.ids g, v.dirty_valid g);
    free_distinct = rw w.free (append-Distinct f s.free_list v.free_distinct taken);
    free_idle = λ g h. ground (
      arith,
      w.free,
      w.size,
      w.pins g,
      w.ids g,
      mem-append g s.free_list (f ∷ []),
      v.free_idle g,
      v.mapped id f,
    );
    policy_valid = ground (arith, w.policy, v.policy_valid);
    policy_idle = λ g h. ground (arith, w.policy, w.size, w.pins g, v.policy_idle g);
    coherent = λ j g h q c. ground (
      arith,
      w.table,
      w.pins g,
      w.dirty g,
      w.contents g,
      w.reads j,
      v.coherent j g,
      v.mapped j g,
      v.mapped id f,
    );
  }
    where
      taken : mem f s.free_list ≡ false
      taken = elim (Bool-cases (mem f s.free_list)) [
        | inl m ↦ absurd (ground (arith, v.free_idle f m, v.mapped id f))
        | inr n ↦ n
      ]

  freed-content :
      (b : Bool) (s t : Pool E) (id : PageId) (f : ℕ)
      → b ≡ (s.pages f).is_dirty
      → Inv E s
      → Written E b f s t
      → s.page_table id ≡ some f
      → (s.pages f).pin_count ≡ 0
      → (j : PageId) → content E (free_frame E id f t) j ≡ content E s j
  unfolding free_frame
  freed-content b s t id f d v w e p j = elim (Option-cases (s.page_table j)) [
    | inl n ↦ ground (arith, w.table, w.reads j, v.mapped id f)
    | inr (g, n) ↦ ground (
      arith,
      w.table,
      w.contents g,
      w.reads j,
      v.mapped j g,
      v.mapped id f,
      v.mapped j f,
      v.coherent id f,
    )
  ]

  free_frame-left : (id : PageId) (f : ℕ) (t : Pool E) → (free_frame E id f t).page_table id ≡ none
  unfolding free_frame
  free_frame-left id f t = ground arith

  free_frame-free :
      (id : PageId) (f : ℕ) (t : Pool E) → (free_frame E id f t).free_list ≡ t.free_list ++ f ∷ []
  unfolding free_frame
  free_frame-free id f t = refl

  abbrev after_write : PageId → ℕ → Unit {0} → Pool E → Pool E × Result Bool
  after_write id f _ t = (free_frame E id f t, ok true)

  delete_found-unpinned :
      (s : Pool E) (id : PageId) (f : ℕ)
      → (s.pages f).pin_count ≡ 0
      → delete_found E id (some f) s ≡ bind E (write_back_dirty E f s) (after_write id f)
  unfolding delete_found
  delete_found-unpinned s id f p = ground arith

  -- Deleting a page that nobody has pinned, if it ends without an exception, takes the page out of the
  -- pool and frees its frame. Nothing is lost: the disk shows the page as the pool did, and every other
  -- page looks as before.
  pub delete_page-Freed :
      (s : Pool E) (id : PageId) (f : ℕ) (b : Bool)
      → Inv E s
      → s.page_table id ≡ some f
      → (s.pages f).pin_count ≡ 0
      → (delete_page E id s).1 ≡ ok b
      → (b ≡ true) × Freed id f s (delete_page E id s).0
  unfolding delete_page
  delete_page-Freed s id f b v e p h =
      rw e (deleted (subst (λ (o : Option ℕ). (delete_found E id o s).1 ≡ ok b) e h))
    where
      freed :
          (delete_found E id (some f) s ≡ (free_frame E id f (write_back_dirty E f s).0, ok true))
          → (write_back_dirty E f s).1 ≡ ok tt
          → Freed id f s (delete_found E id (some f) s).0
      freed q done =
          let w = write_back_dirty-Written E f s done in
          rw q (record {
            inv = freed-Inv (s.pages f).is_dirty s _ id f v w e p;
            left = free_frame-left id f (write_back_dirty E f s).0;
            free =
                free_frame-free id f (write_back_dirty E f s).0
                ∙ ap (λ (l : List ℕ). l ++ f ∷ []) w.free;
            same = freed-content (s.pages f).is_dirty s _ id f refl v w e p;
          })

      deleted :
          (delete_found E id (some f) s).1 ≡ ok b
          → (b ≡ true) × Freed id f s (delete_found E id (some f) s).0
      deleted k =
          let q0 = delete_found-unpinned s id f p in
          let k0 : (bind E (write_back_dirty E f s) (after_write id f)).1 ≡ ok b =
            sym (ap (λ (x : Pool E × Result Bool). x.1) q0) ∙ k in
          let (_, done, q) = bind-ok E (write_back_dirty E f s) (after_write id f) b k0 in
          (ground (arith, k0, q), freed (q0 ∙ q) done)

  -- A pinned page is not deleted.
  pub delete_page_pinned :
      (s : Pool E) (id : PageId) (f : ℕ)
      → s.page_table id ≡ some f
      → (s.pages f).pin_count ≢ 0
      → delete_page E id s ≡ (s, ok false)
  unfolding delete_page delete_found
  delete_page_pinned s id f e p = rw e (ground arith)
