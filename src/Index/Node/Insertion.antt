-- ===== src/Index/Node/Insertion.antt =====
-- What `insert` does to the map of a leaf.
use Prim.Native.Nat.{Ordering}
use claude_opus.Base.{
  ℕ, suc, ◌-◌, ◌≤◌, ◌<◌, ◌≡◌, refl, true, false, if◌then◌else◌, arith, Bool-cases, inl, inr, ◌⊎◌,
  ℕ_discrete, dec_lt, Option, none, some,
}
use claude_opus.Txn.{Rid}
use claude_opus.Index.Keys.{KeyOrder}
use claude_opus.Index.Node.{
  IxNode, is_same, holds, lower_bound, leaf_lookup, insert, insert_pair, insert_pairs,
}
use claude_opus.Index.Node.Search.{IsSorted, lower_bound-IsSplit}
use claude_opus.Index.Node.Leaf.{
  Option-ext, Holds, lookup→Holds, Holds→lookup, Holds-same, is_same-eq, lookup-found, lookup-free,
}

abbrev pub or_value {ℓ} : {A : Type ℓ} → Option A → A → A
or_value none v = v
or_value (some w) v = w

module _ (K : KeyOrder) where
  open K use {Key, ix_compare, compare_flip, compare_same, compare_trans}

  -- Where a key that the node does not hold belongs.
  record IsGap (n : IxNode K) (key : Key) (i : ℕ) : Type 0 where
    within : i ≤ n.num_key
    before : (j : ℕ) → j < i → ix_compare (n.keys j) key ≡ Ordering.lt
    behind : (j : ℕ) → i ≤ j → j < n.num_key → ix_compare key (n.keys j) ≡ Ordering.lt

  lower_bound-IsGap :
      (n : IxNode K) (key : Key)
      → IsSorted K n
      → holds K n (lower_bound K n key) key ≡ false
      → IsGap n key (lower_bound K n key)
  lower_bound-IsGap n key h free =
      let s = lower_bound-IsSplit K n key h in
      let r = lower_bound K n key in
      record {
        within = s.within;
        before = λ j l. ground (arith, s.before j);
        behind = λ j l m.
            let at_r = s.behind r (omega arith) in
            elim (ℕ_discrete j r) [
              | yes e ↦
                  ground (
                    arith,
                    compare_flip (n.keys r) key,
                    compare_flip (n.keys j) key,
                    s.behind j l m,
                  )
              | no d ↦ ground (
                arith,
                h r j (omega arith) m,
                compare_flip (n.keys r) key,
                compare_flip (n.keys j) key,
                compare_trans key (n.keys r) (n.keys j),
              )
            ];
      }

  insert_pair-IsSorted :
      (n : IxNode K) (i : ℕ) (key : Key) (v : Rid)
      → IsSorted K n
      → IsGap n key i
      → IsSorted K (insert_pair K n i key v)
  unfolding insert_pair insert_pairs
  insert_pair-IsSorted n i key v h g j k l m =
      let w = g.within in
      ground (
        arith,
        h j k,
        h j (k - 1),
        h (j - 1) (k - 1),
        g.before j,
        g.behind (k - 1),
        compare_trans (n.keys j) key (n.keys (k - 1)),
      )

  insert_pair-Holds :
      (n : IxNode K) (i : ℕ) (key key' : Key) (v w : Rid)
      → i ≤ n.num_key
      → Holds K (insert_pair K n i key v) key' w
      → ((ix_compare key key' ≡ Ordering.eq) × (v ≡ w)) ⊎ Holds K n key' w
  unfolding insert_pair insert_pairs
  insert_pair-Holds n i key key' v w g (j, l, e, q) = elim (dec_lt j i) [
    | yes b ↦ inr (j, omega arith, ground arith, ground arith)
    | no b ↦ elim (ℕ_discrete j i) [
      | yes d ↦ inl (ground arith, ground arith)
      | no d ↦ inr (j - 1, ground arith, ground arith, ground arith)
    ]
  ]

  Holds-insert_pair :
      (n : IxNode K) (i : ℕ) (key key' : Key) (v w : Rid)
      → i ≤ n.num_key
      → ((ix_compare key key' ≡ Ordering.eq) × (v ≡ w)) ⊎ Holds K n key' w
      → Holds K (insert_pair K n i key v) key' w
  unfolding insert_pair insert_pairs
  Holds-insert_pair n i key key' v w g (inl (e, q)) = (i, ground arith, ground arith, ground arith)
  Holds-insert_pair n i key key' v w g (inr (j, l, e, q)) = elim (dec_lt j i) [
    | yes b ↦ (j, ground arith, ground arith, ground arith)
    | no b ↦ (suc j, ground arith, ground arith, ground arith)
  ]

  lookup-old :
      (n : IxNode K) (key key' : Key) (v : Rid)
      → IsSorted K n
      → holds K n (lower_bound K n key) key ≡ true
      → leaf_lookup K n key' ≡ (
          if is_same K (ix_compare key key')
          then some (or_value (leaf_lookup K n key) v)
          else leaf_lookup K n key')
  lookup-old n key key' v h old =
      let x = n.rids (lower_bound K n key) in
      let p = lookup-found K n key old in
      elim (Bool-cases (is_same K (ix_compare key key'))) [
        | inl y ↦
            rw (y, p)
              (Holds→lookup K n key' x h (
                Holds-same K n key key' x (is_same-eq K (ix_compare key key') y)
                  (lookup→Holds K n key x p)))
        | inr m ↦ rw m refl
      ]

  lookup-new :
      (n : IxNode K) (key key' : Key) (v : Rid)
      → IsSorted K n
      → holds K n (lower_bound K n key) key ≡ false
      → leaf_lookup K (insert_pair K n (lower_bound K n key) key v) key' ≡ (
          if is_same K (ix_compare key key')
          then some (or_value (leaf_lookup K n key) v)
          else leaf_lookup K n key')
  lookup-new n key key' v h free =
      let i = lower_bound K n key in
      let gap = lower_bound-IsGap n key h free in
      let sorted = insert_pair-IsSorted n i key v h gap in
      let p = lookup-free K n key free in
      elim (Bool-cases (is_same K (ix_compare key key'))) [
        | inl y ↦
            rw (y, p)
              (Holds→lookup K (insert_pair K n i key v) key' v sorted (
                Holds-insert_pair n i key key' v v gap.within
                  (inl (is_same-eq K (ix_compare key key') y, refl))))
        | inr m ↦ rw m (
            Option-ext (leaf_lookup K (insert_pair K n i key v) key') (leaf_lookup K n key')
              (λ w e.
                elim (insert_pair-Holds n i key key' v w gap.within
                  (lookup→Holds K (insert_pair K n i key v) key' w e)) [
                    | inl (s, _) ↦ absurd (ground arith)
                    | inr old ↦ Holds→lookup K n key' w h old
                  ])
              (λ w e.
                Holds→lookup K (insert_pair K n i key v) key' w sorted (
                  Holds-insert_pair n i key key' v w gap.within (inr (lookup→Holds K n key' w e)))))
      ]

  -- `insert` into a leaf with rising keys: they still rise, and afterwards the leaf finds the new
  -- value under the key, or the old one if it had one, and every other key as before.
  pub insert-lookup :
      (n : IxNode K) (key key' : Key) (v : Rid)
      → IsSorted K n
      → IsSorted K (insert K n key v)
        × (leaf_lookup K (insert K n key v) key' ≡ (
            if is_same K (ix_compare key key')
            then some (or_value (leaf_lookup K n key) v)
            else leaf_lookup K n key'))
  unfolding insert
  insert-lookup n key key' v h = elim (Bool-cases (holds K n (lower_bound K n key) key)) [
    | inl old ↦ rw old (h, lookup-old n key key' v h old)
    | inr free ↦ rw free (
      insert_pair-IsSorted n (lower_bound K n key) key v h (lower_bound-IsGap n key h free),
      lookup-new n key key' v h free,
    )
  ]
