-- ===== src/BufferPool/Unpin.antt =====
-- `unpin_page`: a pin less, and when the frame goes back to the policy.
use claude_opus.Base.{
  ℕ, ◌-◌, ◌<◌, ◌≡◌, ◌≢◌, ◌⊎◌, ite, ℕ_discrete, Bool, true, some, arith, if◌then◌else◌, mem,
}
use claude_opus.Errors.{ok}
use claude_opus.Disk.{PageId, whole}
use claude_opus.BufferPool.{Setup, Pool, unpin_found, release, unpin_page}
use claude_opus.BufferPool.WriteBack.{read_at}
use claude_opus.BufferPool.Invariant.{Inv, content, content-same}

module _ (E : Setup) where
  open E use {os, policy as R, format.{zeroed}}
  open R use {frames-unpin}

  -- What a successful `unpin_page` has done.
  pub record Unpinned (f : ℕ) (b : Bool) (s t : Pool E) : Type 0 where
    pub inv : Inv E t
    pub pins :
        (g : ℕ)
        → (t.pages g).pin_count
          ≡ ite (ℕ_discrete g f) ((s.pages g).pin_count - 1) (s.pages g).pin_count
    pub dirty :
        (g : ℕ)
        → (t.pages g).is_dirty
          ≡ ite (ℕ_discrete g f) (if b then true else (s.pages g).is_dirty) (s.pages g).is_dirty
    pub same : (j : PageId) → content E t j ≡ content E s j

  -- The policy keeps only frames that nobody pins.
  unpin_idle :
      (s : Pool E) (f g : ℕ)
      → Inv E s
      → f < s.pool_size
      → mem g (R.frames (R.unpin s.replacer f)) ≡ true
      → (g ≡ f) ⊎ ((g < s.pool_size) × ((s.pages g).pin_count ≡ 0))
  unpin_idle s f g v small h =
      ground (arith, (frames-unpin s.replacer f v.policy_valid).1, v.policy_idle g)

  unpin-Inv :
      (s : Pool E) (id : PageId) (f : ℕ) (b : Bool)
      → Inv E s
      → s.page_table id ≡ some f
      → (s.pages f).pin_count ≢ 0
      → (b ≡ true) ⊎ ((s.pages f).is_dirty ≡ true) ⊎ (read_at E s id ≡ whole (s.pages f).content)
      → Inv E (unpin_found E (some f) b s).0
  unfolding unpin_found release
  unpin-Inv s id f b v e p kept = record {
    mapped = λ j g h. ground (arith, v.mapped j g);
    resident = λ g h. ground (arith, v.resident g);
    dirty_valid = λ g h. ground (arith, v.dirty_valid g, v.mapped id f);
    free_distinct = ground (arith, v.free_distinct);
    free_idle = λ g h. ground (arith, v.free_idle g);
    policy_valid = ground (arith, v.policy_valid, (frames-unpin s.replacer f v.policy_valid).0);
    policy_idle = λ g h. ground (arith, v.policy_idle g, v.mapped id f, unpin_idle s f g v);
    coherent = λ j g h q c. ground (arith, v.coherent j g, v.mapped j g, v.mapped id f);
  }

  -- A page that the caller holds, and has changed only if it says so, is released: it has a pin
  -- less, it is dirty if it was or the caller says so, and no page looks different.
  pub unpin_page-Unpinned :
      (s : Pool E) (id : PageId) (f : ℕ) (b : Bool)
      → Inv E s
      → s.page_table id ≡ some f
      → (s.pages f).pin_count ≢ 0
      → (b ≡ true) ⊎ ((s.pages f).is_dirty ≡ true) ⊎ (read_at E s id ≡ whole (s.pages f).content)
      → ((unpin_page E id b s).1 ≡ ok true) × Unpinned f b s (unpin_page E id b s).0
  unfolding unpin_page unpin_found release
  unpin_page-Unpinned s id f b v e p kept = rw e (
    ground arith,
    record {
      inv = unpin-Inv s id f b v e p kept;
      pins = λ g. ground arith;
      dirty = λ g. ground arith;
      same = λ j.
          content-same E s (unpin_found E (some f) b s).0 j (ground arith) (ground arith)
            (λ g. ground arith);
    },
  )
