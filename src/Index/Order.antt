-- ===== src/Index/Order.antt =====
-- Orders that a comparison can be made of.
use Prim.Native.Nat.{Ordering}
use claude_opus.Base.{◌≡◌, refl, arith, ℤ, ltb_ℤ, if◌then◌else◌}
use claude_opus.Index.Keys.{flip}

-- The laws of `KeyOrder`, of any comparison.
pub record IsOrder {A : Type 0} (c : A → A → Ordering) : Type 0 where
  pub flips : (a b : A) → c b a ≡ flip (c a b)
  pub same : (a b d : A) → c a b ≡ Ordering.eq → c a d ≡ c b d
  pub trans : (a b d : A) → c a b ≡ Ordering.lt → c b d ≡ Ordering.lt → c a d ≡ Ordering.lt

-- The first comparison that does not say the same: `if(res != 0) return res`.
abbrev pub or_next : Ordering → Ordering → Ordering
or_next Ordering.eq o = o
or_next Ordering.lt o = Ordering.lt
or_next Ordering.gt o = Ordering.gt

pub eq-IsOrder : {A : Type 0} → IsOrder {A = A} (λ a b. Ordering.eq)
eq-IsOrder = record { flips = λ a b. refl; same = λ a b d e. refl; trans = λ a b d e f. cc }

pub pull-IsOrder :
    {A B : Type 0} (g : A → B) (c : B → B → Ordering) → IsOrder c → IsOrder (λ a b. c (g a) (g b))
pull-IsOrder g c o = record {
  flips = λ a b. o.flips (g a) (g b);
  same = λ a b d. o.same (g a) (g b) (g d);
  trans = λ a b d. o.trans (g a) (g b) (g d);
}

pub or_next-IsOrder :
    {A : Type 0} (c d : A → A → Ordering)
    → IsOrder c
    → IsOrder d
    → IsOrder (λ a b. or_next (c a b) (d a b))
or_next-IsOrder c d o p = record {
  flips = λ a b. ground (arith, o.flips a b, p.flips a b);
  same = λ a b e h. ground (arith, o.same a b e, p.same a b e);
  trans = λ a b e h k. ground (
    arith,
    o.flips a b,
    o.flips b e,
    o.flips a e,
    o.same a b e,
    o.same e b a,
    o.trans a b e,
    p.trans a b e,
  );
}

-- `(ia < ib) ? -1 : ((ia > ib) ? 1 : 0)`.
abbrev pub compare_ℤ : ℤ → ℤ → Ordering
compare_ℤ a b = if ltb_ℤ a b then Ordering.lt else if ltb_ℤ b a then Ordering.gt else Ordering.eq

pub compare_ℤ-IsOrder : IsOrder compare_ℤ
compare_ℤ-IsOrder = record {
  flips = λ a b. ground arith;
  same = λ a b d e. ground arith;
  trans = λ a b d e f. ground arith;
}
