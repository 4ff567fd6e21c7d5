-- ===== src/Index/Node/Removal.antt =====
-- What `remove` does to the map of a leaf.
use Prim.Native.Nat.{Ordering}
use claude_opus.Base.{
  ℕ, suc, ◌-◌, ◌<◌, ◌≡◌, ◌≢◌, refl, true, false, if◌then◌else◌, arith, Bool-cases, inl, inr,
  ℕ_discrete, dec_lt, none, some,
}
use claude_opus.Txn.{Rid}
use claude_opus.Index.Keys.{KeyOrder}
use claude_opus.Index.Node.{IxNode, is_same, holds, lower_bound, leaf_lookup, remove, erase_pair}
use claude_opus.Index.Node.Search.{IsSorted}
use claude_opus.Index.Node.Leaf.{
  Option-ext, Holds, lookup→Holds, Holds→lookup, Holds-same, is_same-eq, lookup-free,
}

module _ (K : KeyOrder) where
  open K use {Key, ix_compare, compare_flip, compare_same, compare_trans}

  erase_pair-IsSorted : (n : IxNode K) (i : ℕ) → IsSorted K n → IsSorted K (erase_pair K n i)
  unfolding erase_pair
  erase_pair-IsSorted n i h j k l m = ground (arith, h j k, h (suc j) (suc k), h j (suc k))

  erase_pair-Holds :
      (n : IxNode K) (i : ℕ) (key key' : Key) (w : Rid)
      → IsSorted K n
      → i < n.num_key
      → ix_compare (n.keys i) key ≡ Ordering.eq
      → Holds K (erase_pair K n i) key' w
      → Holds K n key' w × (ix_compare key key' ≢ Ordering.eq)
  unfolding erase_pair
  erase_pair-Holds n i key key' w h b e (j, l, f, q) = elim (dec_lt j i) [
    | yes before ↦ (
      (j, ground arith, ground arith, ground arith),
      λ s. ground (
        arith,
        h j i before b,
        compare_flip (n.keys j) (n.keys i),
        compare_same (n.keys i) key (n.keys j),
        compare_same key key' (n.keys j),
        compare_flip (n.keys j) key',
      ),
    )
    | no behind ↦ (
      (suc j, ground arith, ground arith, ground arith),
      λ s. ground (
        arith,
        h i (suc j),
        compare_same (n.keys i) key (n.keys (suc j)),
        compare_same key key' (n.keys (suc j)),
        compare_flip (n.keys (suc j)) key',
      ),
    )
  ]

  Holds-erase_pair :
      (n : IxNode K) (i : ℕ) (key key' : Key) (w : Rid)
      → i < n.num_key
      → ix_compare (n.keys i) key ≡ Ordering.eq
      → ix_compare key key' ≢ Ordering.eq
      → Holds K n key' w
      → Holds K (erase_pair K n i) key' w
  unfolding erase_pair
  Holds-erase_pair n i key key' w b e d (j, l, f, q) = elim (dec_lt j i) [
    | yes before ↦ (j, ground arith, ground arith, ground arith)
    | no behind ↦ elim (ℕ_discrete j i) [
      | yes here ↦ absurd (ground (arith, compare_same (n.keys i) key key'))
      | no past ↦ (j - 1, ground arith, ground arith, ground arith)
    ]
  ]

  lookup-erased :
      (n : IxNode K) (key key' : Key)
      → IsSorted K n
      → holds K n (lower_bound K n key) key ≡ true
      → leaf_lookup K (erase_pair K n (lower_bound K n key)) key'
        ≡ (if is_same K (ix_compare key key') then none else leaf_lookup K n key')
  lookup-erased n key key' h old =
      let i = lower_bound K n key in
      let within : i < n.num_key = ground arith in
      let at_i : ix_compare (n.keys i) key ≡ Ordering.eq = ground arith in
      let sorted = erase_pair-IsSorted n i h in
      let kept = λ (w : Rid) (e : leaf_lookup K (erase_pair K n i) key' ≡ some w).
        erase_pair-Holds n i key key' w h within at_i
          (lookup→Holds K (erase_pair K n i) key' w e) in
      elim (Bool-cases (is_same K (ix_compare key key'))) [
        | inl y ↦ rw y (
            Option-ext (leaf_lookup K (erase_pair K n i) key') none
              (λ w e. absurd ((kept w e).1 (is_same-eq K (ix_compare key key') y))) (λ w e. cc))
        | inr m ↦ rw m (
            Option-ext (leaf_lookup K (erase_pair K n i) key') (leaf_lookup K n key')
              (λ w e. Holds→lookup K n key' w h (kept w e).0)
              (λ w e. Holds→lookup K (erase_pair K n i) key' w sorted (
                Holds-erase_pair n i key key' w within at_i (λ s. ground arith)
                  (lookup→Holds K n key' w e))))
      ]

  lookup-absent :
      (n : IxNode K) (key key' : Key)
      → IsSorted K n
      → holds K n (lower_bound K n key) key ≡ false
      → leaf_lookup K n key'
        ≡ (if is_same K (ix_compare key key') then none else leaf_lookup K n key')
  lookup-absent n key key' h free = elim (Bool-cases (is_same K (ix_compare key key'))) [
    | inr m ↦ rw m refl
    | inl y ↦ rw y (
        Option-ext (leaf_lookup K n key') none
          (λ w e.
            let s = is_same-eq K (ix_compare key key') y in
            let back : ix_compare key' key ≡ Ordering.eq = ground (arith, compare_flip key key') in
            absurd (
              ground (
                arith,
                lookup-free K n key free,
                Holds→lookup K n key w h
                    (Holds-same K n key' key w back (lookup→Holds K n key' w e)),
              )))
          (λ w e. cc))
  ]

  -- `remove` from a leaf with rising keys: they still rise, and afterwards the leaf finds nothing
  -- under the key, and every other key as before.
  pub remove-lookup :
      (n : IxNode K) (key key' : Key)
      → IsSorted K n
      → IsSorted K (remove K n key)
        × (leaf_lookup K (remove K n key) key'
            ≡ (if is_same K (ix_compare key key') then none else leaf_lookup K n key'))
  unfolding remove
  remove-lookup n key key' h = elim (Bool-cases (holds K n (lower_bound K n key) key)) [
    | inl old ↦
        rw old (erase_pair-IsSorted n (lower_bound K n key) h, lookup-erased n key key' h old)
    | inr free ↦ rw free (h, lookup-absent n key key' h free)
  ]
