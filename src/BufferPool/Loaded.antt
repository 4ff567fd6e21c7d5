-- ===== src/BufferPool/Loaded.antt =====
-- A page that is loaded into a taken frame: the pool stays consistent and shows the same pages.
use claude_opus.Base.{
  ℕ, ◌<◌, ◌≡◌, refl, sym, ◌≢◌, inl, inr, ite, ℕ_discrete, false, none, some, arith, if◌then◌else◌,
  mem, Distinct, without, Option-cases, subst, mem-without_self, mem-without_ne,
}
use claude_opus.Errors.{Result, ok, throw}
use claude_opus.Disk.{PageId, PageId-discrete, Transfer, whole, seek_error, short, checked}
use claude_opus.BufferPool.{Setup, Pool, invalid_page_id, place}
use claude_opus.BufferPool.WriteBack.{read_at}
use claude_opus.BufferPool.Invariant.{Inv, content}

module _ (E : Setup) where
  open E use {os, policy as R}
  open R use {victim_none, victim_some, frames-pin, frames-Distinct}

  -- A page that was entered in a taken frame, read whole and pinned once. The page that left the
  -- frame is on disk as it was.
  pub record Loaded (f : ℕ) (id : PageId) (d : E.format.Data) (s t : Pool E) : Type 0 where
    pub size : t.pool_size ≡ s.pool_size
    pub own : t.pages f ≡ record { id = id; content = d; is_dirty = false; pin_count = 1 }
    pub others : (g : ℕ) → g ≢ f → t.pages g ≡ s.pages g
    pub table :
        (j : PageId)
        → t.page_table j
          ≡ ite
              (PageId-discrete j id)
              (some f)
              (ite (PageId-discrete j (s.pages f).id) none (s.page_table j))
    pub free : t.free_list ≡ s.free_list
    pub policy : t.replacer ≡ R.pin s.replacer f
    pub reads :
        (j : PageId)
        → read_at E t j ≡ (
            if (s.pages f).is_dirty
            then ite (PageId-discrete j (s.pages f).id) (whole (s.pages f).content) (read_at E s j)
            else read_at E s j)

  -- Loading keeps the invariant.
  pub Loaded-Inv :
      (f : ℕ) (id : PageId) (d : E.format.Data) (s t : Pool E)
      → Inv E s
      → Loaded f id d s t
      → id.page_no ≢ invalid_page_id
      → s.page_table id ≡ none
      → f < s.pool_size
      → (s.pages f).pin_count ≡ 0
      → mem f s.free_list ≡ false
      → Inv E t
  Loaded-Inv f id d s t v l valid absent small unpinned not_free = record {
    mapped =
        λ j g h. ground (arith, l.own, l.others g, l.size, l.table j, v.mapped j g, v.mapped j f);
    resident = λ g h. elim (ℕ_discrete g f) [
      | yes e ↦ ground (arith, l.own, l.table id)
      | no d ↦ ground (arith, l.others g, l.table (s.pages g).id, v.resident g, v.resident f)
    ];
    dirty_valid = λ g h. elim (ℕ_discrete g f) [
      | yes e ↦ ground (arith, l.own)
      | no d ↦ ground (arith, l.others g, v.dirty_valid g)
    ];
    free_distinct = subst Distinct (sym l.free) v.free_distinct;
    free_idle = λ g h. elim (ℕ_discrete g f) [
      | yes e ↦ absurd (ground (arith, l.free))
      | no d ↦ ground (arith, l.others g, l.free, l.size, v.free_idle g)
    ];
    policy_valid = subst R.IsValid (sym l.policy) (frames-pin s.replacer f v.policy_valid).0;
    policy_idle = λ g h. elim (ℕ_discrete g f) [
      | yes e ↦ absurd (ground (arith, l.policy, pinned, gone))
      | no d ↦ ground (
        arith,
        l.others g,
        l.policy,
        l.size,
        pinned,
        mem-without_ne f g (R.frames s.replacer) d,
        v.policy_idle g,
      )
    ];
    coherent = λ j g h p c. elim (ℕ_discrete g f) [
      | yes e ↦ absurd (ground (arith, l.own))
      | no d ↦
          ground
            (arith, l.others g, l.table j, l.reads j, v.coherent j g, v.mapped j g, v.mapped j f)
    ];
  }
    where
      pinned : R.frames (R.pin s.replacer f) ≡ without f (R.frames s.replacer)
      pinned = (frames-pin s.replacer f v.policy_valid).1

      gone : mem f (without f (R.frames s.replacer)) ≡ false
      gone = mem-without_self f (R.frames s.replacer) (frames-Distinct s.replacer v.policy_valid)

  -- Loading changes what no other page looks like, and not the page itself if it was read.
  pub Loaded-content :
      (f : ℕ) (id : PageId) (d : E.format.Data) (s t : Pool E)
      → Inv E s
      → Loaded f id d s t
      → s.page_table id ≡ none
      → (s.pages f).pin_count ≡ 0
      → (j : PageId) → (j ≡ id → read_at E t id ≡ whole d)
      → content E t j ≡ content E s j
  Loaded-content f id d s t v l absent unpinned j got = elim (Option-cases (s.page_table j)) [
    | inl e ↦ ground (arith, l.own, l.table j, l.reads j, v.resident f, v.dirty_valid f)
    | inr (g, e) ↦ ground (
      arith,
      l.own,
      l.others g,
      l.table j,
      l.reads j,
      v.mapped j g,
      v.mapped j f,
      v.resident f,
      v.coherent j g,
    )
  ]

  pub place-ok :
      (f : ℕ) (r : Result E.format.Data) (s : Pool E)
      → (place E f r s).1 ≡ ok tt
      → (d : E.format.Data) × (r ≡ ok d)
        × ((place E f r s).0 ≡ record s {
          pages = λ k. ite (ℕ_discrete k f) (record (s.pages k) { content = d }) (s.pages k);
        })
  unfolding place
  place-ok f (ok d) s h = (d, refl, refl)
  place-ok f (throw e) s h = cc

  pub checked-ok :
      (r : Transfer E.format.Data) (d : E.format.Data) → checked os r ≡ ok d → r ≡ whole d
  checked-ok (whole x) d h = ground arith
  checked-ok seek_error d h = cc
  checked-ok short d h = cc
