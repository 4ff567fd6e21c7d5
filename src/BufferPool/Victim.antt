-- ===== src/BufferPool/Victim.antt =====
-- `find_victim_page`: the frame that it takes.
use claude_opus.Base.{
  ℕ, ◌<◌, ◌≡◌, refl, sym, true, false, Option, none, some, List, [], ◌∷◌, ◌++◌, arith, mem,
  Distinct, subst, mem-append,
}
use claude_opus.Errors.{ok}
use claude_opus.BufferPool.{Setup, Pool, evict, take_frame, find_victim_page}
use claude_opus.BufferPool.Invariant.{Inv}

module _ (E : Setup) where
  open E use {os, policy as R}
  open R use {victim_none, victim_some, frames-pin, frames-Distinct}

  -- A frame that was taken to hold a page: nobody has pinned it and it is not free any more.
  pub record Taken (f : ℕ) (s t : Pool E) : Type 0 where
    pub inv : Inv E t
    pub in_pool : f < s.pool_size
    pub unpinned : (s.pages f).pin_count ≡ 0
    pub not_free : mem f t.free_list ≡ false
    pub size : t.pool_size ≡ s.pool_size
    pub pages : t.pages ≡ s.pages
    pub table : t.page_table ≡ s.page_table
    pub disk : t.disk_manager ≡ s.disk_manager

  Taken-free :
      (s : Pool E) (f : ℕ) (rest : List ℕ)
      → Inv E s
      → s.free_list ≡ f ∷ rest
      → Taken f s (record s { free_list = rest })
  Taken-free s f rest v e =
      let d : Distinct (f ∷ rest) = subst Distinct e v.free_distinct in
      let idle = v.free_idle f (subst (λ l. mem f l ≡ true) (sym e) (ground arith)) in
      record {
        inv = record {
          mapped = v.mapped;
          resident = v.resident;
          dirty_valid = v.dirty_valid;
          free_distinct = d.1;
          free_idle = λ g h. v.free_idle g (subst (λ l. mem g l ≡ true) (sym e) (ground arith));
          policy_valid = v.policy_valid;
          policy_idle = v.policy_idle;
          coherent = v.coherent;
        };
        in_pool = idle.0;
        unpinned = idle.1;
        not_free = d.0;
        size = refl;
        pages = refl;
        table = refl;
        disk = refl;
      }

  Taken-victim :
      (s : Pool E) (f : ℕ) (r : R.State)
      → Inv E s
      → s.free_list ≡ []
      → R.victim s.replacer ≡ some (f, r)
      → Taken f s (record s { replacer = r })
  Taken-victim s f r v e h =
      let (valid, frames) = victim_some s.replacer f r v.policy_valid h in
      let idle = λ (g : ℕ) (m : mem g (R.frames r ++ f ∷ []) ≡ true).
        v.policy_idle g (subst (λ l. mem g l ≡ true) (sym frames) m) in
      let own = idle f (ground (arith, mem-append f (R.frames r) (f ∷ []))) in
      record {
        inv = record {
          mapped = v.mapped;
          resident = v.resident;
          dirty_valid = v.dirty_valid;
          free_distinct = v.free_distinct;
          free_idle = v.free_idle;
          policy_valid = valid;
          policy_idle = λ g m. idle g (ground (arith, mem-append g (R.frames r) (f ∷ [])));
          coherent = v.coherent;
        };
        in_pool = own.0;
        unpinned = own.1;
        not_free = subst (λ l. mem f l ≡ false) (sym e) refl;
        size = refl;
        pages = refl;
        table = refl;
        disk = refl;
      }

  evict-Taken :
      (s : Pool E) (o : Option (ℕ × R.State)) (f : ℕ)
      → Inv E s
      → s.free_list ≡ []
      → R.victim s.replacer ≡ o
      → (evict E o s).1 ≡ ok (some f)
      → Taken f s (evict E o s).0
  unfolding evict
  evict-Taken s none f v e h k = cc
  evict-Taken s (some (g, r)) f v e h k =
      let same : g ≡ f = ground arith in
      subst (λ n. Taken n s (record s { replacer = r })) same (Taken-victim s g r v e h)

  take_frame-Taken :
      (s : Pool E) (l : List ℕ) (f : ℕ)
      → Inv E s
      → s.free_list ≡ l
      → (take_frame E l s).1 ≡ ok (some f)
      → Taken f s (take_frame E l s).0
  unfolding take_frame
  take_frame-Taken s [] f v e h = evict-Taken s (R.victim s.replacer) f v e refl h
  take_frame-Taken s (g ∷ rest) f v e h =
      let same : g ≡ f = ground arith in
      subst (λ n. Taken n s (record s { free_list = rest })) same (Taken-free s g rest v e)

  pub find_victim_page-Taken :
      (s : Pool E) (f : ℕ)
      → Inv E s
      → (find_victim_page E s).1 ≡ ok (some f)
      → Taken f s (find_victim_page E s).0
  unfolding find_victim_page
  find_victim_page-Taken s f v h = take_frame-Taken s s.free_list f v refl h
