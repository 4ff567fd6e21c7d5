-- ===== src/BufferPool/Fetch.antt =====
-- `fetch_page`: what is loaded, what is evicted, and that nothing is lost.
use claude_opus.Base.{
  ℕ, suc, ◌≡◌, refl, sym, ap, ◌∙◌, ◌≢◌, ite, ℕ_discrete, false, Option, none, some, arith, mem,
  without, subst, mem-without_self, mem-without_ne,
}
use claude_opus.Errors.{Result, ok}
use claude_opus.Disk.{PageId, whole}
use claude_opus.BufferPool.{
  Setup, Pool, invalid_page_id, find_victim_page, load, fetch_found, fetch_page,
}
use claude_opus.BufferPool.WriteBack.{bind-ok}
use claude_opus.BufferPool.Invariant.{Inv, content, content-same}
use claude_opus.BufferPool.Victim.{Taken, find_victim_page-Taken}
use claude_opus.BufferPool.Loaded.{Loaded-Inv, Loaded-content}
use claude_opus.BufferPool.Load.{load-Loaded}

module _ (E : Setup) where
  open E use {os, policy as R}
  open R use {victim_none, victim_some, frames-pin, frames-Distinct}

  -- What a successful `fetch_page` promises: the frame holds the page, pinned once more; no page
  -- looks different, and the pool is consistent.
  pub record Fetched (f : ℕ) (id : PageId) (s t : Pool E) : Type 0 where
    pub inv : Inv E t
    pub entered : t.page_table id ≡ some f
    pub shows : content E s id ≡ whole (t.pages f).content
    pub same : (j : PageId) → content E t j ≡ content E s j
    pub pins :
        (g : ℕ)
        → (t.pages g).pin_count
          ≡ ite (ℕ_discrete g f) (suc (s.pages g).pin_count) (s.pages g).pin_count
    pub pinned_stay : (g : ℕ) → (s.pages g).pin_count ≢ 0 → (t.pages g).id ≡ (s.pages g).id

  -- The page is in the pool already.
  fetch-hit :
      (s : Pool E) (id : PageId) (f : ℕ)
      → Inv E s
      → s.page_table id ≡ some f
      → Fetched f id s (fetch_found E id (some f) s).0
  unfolding fetch_found
  fetch-hit s id f v e = record {
    inv = record {
      mapped = λ j g h. ground (arith, v.mapped j g);
      resident = λ g h. ground (arith, v.resident g);
      dirty_valid = λ g h. ground (arith, v.dirty_valid g);
      free_distinct = v.free_distinct;
      free_idle = λ g h. ground (arith, v.free_idle g, v.mapped id f);
      policy_valid = (frames-pin s.replacer f v.policy_valid).0;
      policy_idle = λ g h. elim (ℕ_discrete g f) [
        | yes p ↦ absurd (ground (arith, pinned, gone))
        | no d ↦ ground (arith, pinned, mem-without_ne f g (R.frames s.replacer) d, v.policy_idle g)
      ];
      coherent = λ j g h p c. ground (arith, v.coherent j g);
    };
    entered = e;
    shows = ground arith;
    same = λ j. content-same E s (fetch_found E id (some f) s).0 j refl refl (λ g. ground arith);
    pins = λ g. ground arith;
    pinned_stay = λ g h. ground arith;
  }
    where
      pinned : R.frames (R.pin s.replacer f) ≡ without f (R.frames s.replacer)
      pinned = (frames-pin s.replacer f v.policy_valid).1

      gone : mem f (without f (R.frames s.replacer)) ≡ false
      gone = mem-without_self f (R.frames s.replacer) (frames-Distinct s.replacer v.policy_valid)

  load-none : (s : Pool E) (id : PageId) (f : ℕ) → (load E id none s).1 ≢ ok (some f)
  unfolding load
  load-none s id f h = cc

  fetch_found-frame :
      (s : Pool E) (id : PageId) (g f : ℕ) → (fetch_found E id (some g) s).1 ≡ ok (some f) → g ≡ f
  unfolding fetch_found
  fetch_found-frame s id g f h = ground arith

  -- The page is loaded into a taken frame.
  fetch-miss :
      (s t : Pool E) (id : PageId) (f g : ℕ)
      → id.page_no ≢ invalid_page_id
      → Inv E s
      → s.page_table id ≡ none
      → Taken E f s t
      → (load E id (some f) t).1 ≡ ok (some g)
      → Fetched g id s (load E id (some f) t).0
  fetch-miss s t id f g valid v e k h =
      let (result, (d, l, got)) = load-Loaded E t id f (some g) valid h in
      let absent : t.page_table id ≡ none = ground (arith, k.table) in
      let unpinned : (t.pages f).pin_count ≡ 0 = ground (arith, k.pages, k.unpinned) in
      let u = (load E id (some f) t).0 in
      let idle : mem f t.free_list ≡ false = k.not_free in
      let taken = λ (j : PageId).
        content-same E s t j (ground (arith, k.table)) (ground (arith, k.disk))
          (λ n. ground (arith, k.pages)) in
      let same = λ (j : PageId).
        Loaded-content E f id d t u k.inv l absent unpinned j (λ _. got) ∙ taken j in
      let here : f ≡ g = ground (arith, result) in
      subst (λ n. Fetched n id s u) here
        (record {
          inv =
              Loaded-Inv E f id d t u k.inv l valid absent (ground (arith, k.size, k.in_pool))
                unpinned idle;
          entered = ground (arith, l.table id);
          shows = sym (same id) ∙ seen u (ground (arith, l.table id));
          same = same;
          pins = λ n. ground (arith, l.own, l.others n, k.pages, k.unpinned);
          pinned_stay = λ n p. ground (arith, l.others n, k.pages, k.unpinned);
        })
    where
      seen : (u : Pool E) → u.page_table id ≡ some f → content E u id ≡ whole (u.pages f).content
      seen u p = rw p refl

  -- A page that `fetch_page` returns is in the frame it names, as the pool or the disk had it, and is
  -- pinned once more. No page looks different afterwards, evicted pages included; every pinned page
  -- stays in its frame; and the pool stays consistent.
  pub fetch_page-Fetched :
      (s : Pool E) (id : PageId) (f : ℕ)
      → Inv E s
      → id.page_no ≢ invalid_page_id
      → (fetch_page E id s).1 ≡ ok (some f)
      → Fetched f id s (fetch_page E id s).0
  unfolding fetch_page fetch_found
  fetch_page-Fetched s id f v valid h = found (s.page_table id) refl h
    where
      loading :
          (o : Option ℕ)
          → s.page_table id ≡ none
          → (find_victim_page E s).1 ≡ ok o
          → (load E id o (find_victim_page E s).0).1 ≡ ok (some f)
          → Fetched f id s (load E id o (find_victim_page E s).0).0
      loading none e p k = absurd (load-none (find_victim_page E s).0 id f k)
      loading (some g) e p k =
          fetch-miss s (find_victim_page E s).0 id g f valid v e (find_victim_page-Taken E s g v p)
            k

      found :
          (o : Option ℕ)
          → s.page_table id ≡ o
          → (fetch_found E id o s).1 ≡ ok (some f)
          → Fetched f id s (fetch_found E id o s).0
      found (some g) e k =
          let here : g ≡ f = fetch_found-frame s id g f k in
          subst (λ n. Fetched n id s (fetch_found E id (some g) s).0) here (fetch-hit s id g v e)
      found none e k =
          let (o, p, q) = bind-ok E (find_victim_page E s) (load E id) (some f) k in
          rw q (loading o e p (sym (ap (λ (x : Pool E × Result (Option ℕ)). x.1) q) ∙ k))
