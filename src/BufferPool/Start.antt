-- ===== src/BufferPool/Start.antt =====
-- A new buffer pool.
use claude_opus.Base.{
  ℕ, zero, suc, ◌+◌, ◌≤◌, ◌<◌, ℤ, ◌≡◌, refl, true, false, [], arith, mem, Distinct, Bool-cases, inl,
  inr,
}
use claude_opus.Disk.{DiskManager}
use claude_opus.BufferPool.{Setup, frames_from, new_pool}
use claude_opus.BufferPool.Invariant.{Inv}

frames_from-mem : (i n f : ℕ) → mem f (frames_from i n) ≡ true → (i ≤ f) × (f < i + n)
unfolding frames_from
frames_from-mem i zero f h = cc
frames_from-mem i (suc n) f h = ground (arith, frames_from-mem (suc i) n f)

frames_from-Distinct : (i n : ℕ) → Distinct (frames_from i n)
unfolding frames_from
frames_from-Distinct i zero = tt
frames_from-Distinct i (suc n) = (first, frames_from-Distinct (suc i) n)
  where
    first : mem i (frames_from (suc i) n) ≡ false
    first = elim (Bool-cases (mem i (frames_from (suc i) n))) [
      | inl m ↦ absurd (omega (arith, frames_from-mem (suc i) n i m))
      | inr a ↦ a
    ]

-- A new pool is consistent: all its frames are free and blank.
pub new_pool-Inv :
    (E : Setup) (n : ℕ) (dm : DiskManager E.os) (r : E.policy.State) (any_fd : ℤ)
    → E.policy.IsValid r
    → E.policy.frames r ≡ []
    → Inv E (new_pool E n dm r any_fd)
unfolding new_pool
new_pool-Inv E n dm r any_fd valid empty = record {
  mapped = λ id f h. cc;
  resident = λ f h. absurd (h refl);
  dirty_valid = λ f h. cc;
  free_distinct = frames_from-Distinct 0 n;
  free_idle = λ f h. ground (arith, frames_from-mem 0 n f h);
  policy_valid = valid;
  policy_idle = λ f h. absurd (ground (arith, empty));
  coherent = λ id f h. cc;
}
