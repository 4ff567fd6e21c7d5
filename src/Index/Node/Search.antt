-- ===== src/Index/Node/Search.antt =====
-- The binary searches find where the keys turn from those before the target to those behind it.
use Prim.Native.Nat.{Ordering}
use claude_opus.Base.{
  ℕ, zero, suc, ◌+◌, ◌/◌, ◌≤◌, ◌<◌, ◌≡◌, Bool, true, false, ltb, not, arith, Bool-cases, inl, inr,
  ℕ_discrete, dec_lt, lt→ltb,
}
use claude_opus.Index.Keys.{KeyOrder}
use claude_opus.Index.Node.{IxNode, is_below, is_above, bisect, lower_bound, upper_bound}

-- From `lo` on the test holds below `r` and fails from `r` on, up to `num`.
pub record IsSplit (p : ℕ → Bool) (lo num r : ℕ) : Type 0 where
  pub above : lo ≤ r
  pub within : r ≤ num
  pub before : (i : ℕ) → lo ≤ i → i < r → p i ≡ true
  pub behind : (i : ℕ) → r ≤ i → i < num → p i ≡ false

pub IsSplit-unique :
    (p : ℕ → Bool) (lo num r s : ℕ) → IsSplit p lo num r → IsSplit p lo num s → r ≡ s
IsSplit-unique p lo num r s a b =
    let aa = a.above in
    let aw = a.within in
    let ba = b.above in
    let bw = b.within in ground (arith, a.before s, b.behind s, b.before r, a.behind r)

-- The test is met by a first stretch of the positions.
abbrev pub IsMonotone : (ℕ → Bool) → ℕ → Type 0
IsMonotone p num = (i j : ℕ) → i < j → j < num → p j ≡ true → p i ≡ true

ltb-false : (a b : ℕ) → b ≤ a → ltb a b ≡ false
ltb-false a b h = ground arith

module _ (K : KeyOrder) where
  open K use {Key, ix_compare, compare_flip, compare_same, compare_trans}

  bisect-IsSplit :
      (on : Ordering → Bool) (keys : ℕ → Key) (target : Key) (lo num n left right : ℕ)
      → IsMonotone (λ i. on (ix_compare (keys i) target)) num
      → lo ≤ left
      → left ≤ right
      → right ≤ num
      → right ≤ left + n
      → ((i : ℕ) → lo ≤ i → i < left → on (ix_compare (keys i) target) ≡ true)
      → ((i : ℕ) → right ≤ i → i < num → on (ix_compare (keys i) target) ≡ false)
      → IsSplit (λ i. on (ix_compare (keys i) target)) lo num (bisect K on keys target n left right)
  unfolding bisect
  bisect-IsSplit on keys target lo num zero left right mono a b c d before behind = record {
    above = a;
    within = omega arith;
    before = before;
    behind = λ i p. behind i (omega arith);
  }
  bisect-IsSplit on keys target lo num (suc n) left right mono a b c d before behind =
      let mid = (left + right) / 2 in
      elim (dec_lt left right) [
        | no done ↦ rw (ltb-false left right (omega arith)) (record {
          above = a;
          within = omega arith;
          before = before;
          behind = λ i p. behind i (omega arith);
        })
        | yes more ↦ elim (Bool-cases (on (ix_compare (keys mid) target))) [
          | inl up ↦
              rw (lt→ltb left right more, up)
                (bisect-IsSplit on keys target lo num n (suc mid) right mono (omega arith)
                  (omega arith) c (omega arith)
                  (λ i p q. elim (ℕ_discrete i mid) [
                    | yes e ↦ rw e up
                    | no d' ↦ mono i mid (omega arith) (omega arith) up
                  ])
                  behind)
          | inr down ↦
              rw (lt→ltb left right more, down)
                (bisect-IsSplit on keys target lo num n left mid mono a (omega arith) (omega arith)
                  (omega arith) before
                  (λ i p q. elim (Bool-cases (on (ix_compare (keys i) target))) [
                    | inr f ↦ f
                    | inl t ↦ elim (ℕ_discrete i mid) [
                      | yes e ↦ rw e down
                      | no d' ↦ absurd (ground (arith, mono mid i (omega arith) q t))
                    ]
                  ]))
        ]
      ]

  -- Keys rise strictly.
  abbrev pub IsSorted : IxNode K → Type 0
  IsSorted n = (i j : ℕ) → i < j → j < n.num_key → ix_compare (n.keys i) (n.keys j) ≡ Ordering.lt

  lower-IsMonotone :
      (n : IxNode K) (key : Key)
      → IsSorted n
      → IsMonotone (λ i. is_below K (ix_compare (n.keys i) key)) n.num_key
  lower-IsMonotone n key h i j l m t =
      ground (arith, h i j l m, compare_trans (n.keys i) (n.keys j) key)

  upper-IsMonotone :
      (n : IxNode K) (key : Key)
      → IsSorted n
      → IsMonotone (λ i. not (is_above K (ix_compare (n.keys i) key))) n.num_key
  upper-IsMonotone n key h i j l m t = ground (
    arith,
    h i j l m,
    compare_trans (n.keys i) (n.keys j) key,
    compare_flip (n.keys i) (n.keys j),
    compare_flip (n.keys i) key,
    compare_same (n.keys j) key (n.keys i),
    compare_flip key (n.keys i),
  )

  -- `lower_bound` on a node with rising keys: it ends within as many rounds as the node has keys, at
  -- the first position whose key is not below the target.
  pub lower_bound-IsSplit :
      (n : IxNode K) (key : Key)
      → IsSorted n
      → IsSplit (λ i. is_below K (ix_compare (n.keys i) key)) 0 n.num_key (lower_bound K n key)
  unfolding lower_bound
  lower_bound-IsSplit n key h =
      bisect-IsSplit (is_below K) n.keys key 0 n.num_key n.num_key 0 n.num_key
        (lower-IsMonotone n key h) (omega arith) (omega arith) (omega arith) (omega arith)
        (λ i p q. absurd (omega arith)) (λ i p q. absurd (omega arith))

  -- `upper_bound` on a node with rising keys that is not empty: the first position, from 1 on, whose
  -- key is above the target.
  pub upper_bound-IsSplit :
      (n : IxNode K) (key : Key)
      → IsSorted n
      → 1 ≤ n.num_key
      → IsSplit
          (λ i. not (is_above K (ix_compare (n.keys i) key)))
          1
          n.num_key
          (upper_bound K n key)
  unfolding upper_bound
  upper_bound-IsSplit n key h full =
      bisect-IsSplit (λ o. not (is_above K o)) n.keys key 1 n.num_key n.num_key 1 n.num_key
        (upper-IsMonotone n key h) (omega arith) full (omega arith) (omega arith)
        (λ i p q. absurd (omega arith)) (λ i p q. absurd (omega arith))
