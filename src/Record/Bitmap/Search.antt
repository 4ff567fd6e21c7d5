-- ===== src/Record/Bitmap/Search.antt =====
-- The search for the next bit.
use claude_opus.Base.{
  ℕ, zero, suc, ◌+◌, ◌-◌, ◌≤◌, ◌<◌, ◌≡◌, ◌≢◌, refl, Bool, true, false, Bool-cases, inl, inr, arith,
  ℕ_discrete,
}
use claude_opus.Record.Bitmap.{Bits, is_set, same, search, next_bit}

-- `r` is the first position from `from` on, below `max_n`, where the bit is the one looked for, or
-- `max_n` if there is none.
pub record IsNext (bit : Bool) (bm : Bits) (max_n from r : ℕ) : Type 0 where
  pub above : from ≤ r
  pub below : r ≤ max_n
  pub found : r < max_n → is_set bm r ≡ bit
  pub first : (i : ℕ) → from ≤ i → i < r → is_set bm i ≢ bit

same_iff : (a b : Bool) → same a b ≡ true → a ≡ b
same_iff true b h = ground arith
same_iff false true h = ground arith
same_iff false false h = refl

same_not : (a b : Bool) → same a b ≡ false → a ≢ b
same_not true b h = λ e. ground arith
same_not false true h = λ e. cc
same_not false false h = cc

search-IsNext :
    (bit : Bool) (bm : Bits) (max_n i left : ℕ)
    → i + left ≡ max_n
    → IsNext bit bm max_n i (search bit bm max_n i left)
unfolding search
search-IsNext bit bm max_n i zero e = record {
  above = omega arith;
  below = omega arith;
  found = λ l. absurd (omega arith);
  first = λ j a b. absurd (omega arith);
}
search-IsNext bit bm max_n i (suc left) e =
    let rest = search-IsNext bit bm max_n (suc i) left (omega arith) in
    elim (Bool-cases (same (is_set bm i) bit)) [
      | inl y ↦ rw y (record {
        above = omega arith;
        below = omega arith;
        found = λ l. same_iff (is_set bm i) bit y;
        first = λ j a b. absurd (omega arith);
      })
      | inr n ↦ rw n (record {
        above = (let a = rest.above in omega arith);
        below = rest.below;
        found = rest.found;
        first = λ j a b. elim (ℕ_discrete j i) [
          | yes q ↦ rw q (same_not (is_set bm i) bit n)
          | no d ↦ rest.first j (omega arith) b
        ];
      })
    ]

-- `next_bit`, from a position within the bitmap, returns the first position with the bit looked for
-- and nothing before it, or `max_n` if there is none.
pub next_bit-IsNext :
    (bit : Bool) (bm : Bits) (max_n from : ℕ)
    → from ≤ max_n
    → IsNext bit bm max_n from (next_bit bit bm max_n from)
unfolding next_bit
next_bit-IsNext bit bm max_n from h = search-IsNext bit bm max_n from (max_n - from) (omega arith)
