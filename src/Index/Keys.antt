-- ===== src/Index/Keys.antt =====
-- What the index asks of the comparison of keys: an order in which keys may compare as the same.
use Prim.Native.Nat.{Ordering}
use claude_opus.Base.{◌≡◌, ◌≢◌, arith}

abbrev pub flip : Ordering → Ordering
flip Ordering.lt = Ordering.gt
flip Ordering.eq = Ordering.eq
flip Ordering.gt = Ordering.lt

-- `ix_compare` returns a number of which only the sign is looked at.
pub record KeyOrder : Type 1 where
  pub Key : Type 0
  pub ix_compare : Key → Key → Ordering
  pub compare_flip : (a b : Key) → ix_compare b a ≡ flip (ix_compare a b)
  pub compare_same : (a b c : Key) → ix_compare a b ≡ Ordering.eq → ix_compare a c ≡ ix_compare b c
  pub compare_trans :
      (a b c : Key)
      → ix_compare a b ≡ Ordering.lt
      → ix_compare b c ≡ Ordering.lt
      → ix_compare a c ≡ Ordering.lt

module _ (K : KeyOrder) where
  open K use {Key, ix_compare, compare_flip, compare_same, compare_trans}

  pub compare_refl : (a : Key) → ix_compare a a ≡ Ordering.eq
  compare_refl a = ground (arith, compare_flip a a)

  pub lt_le_trans :
      (a b c : Key)
      → ix_compare a b ≡ Ordering.lt
      → ix_compare c b ≢ Ordering.lt
      → ix_compare a c ≡ Ordering.lt
  lt_le_trans a b c h g = ground (
    arith,
    compare_flip b c,
    compare_flip a b,
    compare_flip a c,
    compare_same c b a,
    compare_trans a b c,
    compare_same b c a,
  )
