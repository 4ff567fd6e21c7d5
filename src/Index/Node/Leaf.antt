-- ===== src/Index/Node/Leaf.antt =====
-- A leaf is a map from keys to identifiers: what `leaf_lookup` finds in it.
use Prim.Native.Nat.{Ordering}
use claude_opus.Base.{
  ℕ, ◌<◌, ◌≡◌, refl, sym, ◌∙◌, ◌↔◌, true, false, arith, ℕ_discrete, Option, none, some,
}
use claude_opus.Txn.{Rid}
use claude_opus.Index.Keys.{KeyOrder}
use claude_opus.Index.Node.{IxNode, is_below, is_same, holds, lower_bound, leaf_lookup}
use claude_opus.Index.Node.Search.{IsSorted, IsSplit-unique, lower_bound-IsSplit}

pub Option-ext :
    {A : Type 0} (a b : Option A)
    → ((v : A) → a ≡ some v → b ≡ some v)
    → ((v : A) → b ≡ some v → a ≡ some v)
    → a ≡ b
Option-ext none none f g = refl
Option-ext (some x) b f g = sym (f x refl)
Option-ext none (some y) f g = g y refl

module _ (K : KeyOrder) where
  open K use {Key, ix_compare, compare_flip, compare_same, compare_trans}

  -- The node has the key at some position, with the value.
  abbrev pub Holds : IxNode K → Key → Rid → Type 0
  Holds n key v =
      (i : ℕ) × (i < n.num_key) × (ix_compare (n.keys i) key ≡ Ordering.eq) × (n.rids i ≡ v)

  -- A position with the key is where `lower_bound` ends.
  pub lower_bound-at :
      (n : IxNode K) (key : Key) (i : ℕ)
      → IsSorted K n
      → i < n.num_key
      → ix_compare (n.keys i) key ≡ Ordering.eq
      → lower_bound K n key ≡ i
  lower_bound-at n key i h l e =
      IsSplit-unique (λ j. is_below K (ix_compare (n.keys j) key)) 0 n.num_key (lower_bound K n key)
        i (lower_bound-IsSplit K n key h)
        (record {
          above = omega arith;
          within = omega arith;
          before = λ j p q. ground (
            arith,
            h j i q l,
            compare_flip key (n.keys j),
            compare_same (n.keys i) key (n.keys j),
            compare_flip (n.keys j) (n.keys i),
            compare_flip (n.keys i) (n.keys j),
          );
          behind = λ j p q. elim (ℕ_discrete j i) [
            | yes d ↦ rw (d, e) refl
            | no d ↦ ground (
              arith,
              h i j (omega arith) q,
              compare_same (n.keys i) key (n.keys j),
              compare_flip key (n.keys j),
            )
          ];
        })

  pub lookup→Holds :
      (n : IxNode K) (key : Key) (v : Rid) → leaf_lookup K n key ≡ some v → Holds n key v
  unfolding leaf_lookup
  lookup→Holds n key v e = (lower_bound K n key, ground arith, ground arith, ground arith)

  pub Holds→lookup :
      (n : IxNode K) (key : Key) (v : Rid)
      → IsSorted K n
      → Holds n key v
      → leaf_lookup K n key ≡ some v
  unfolding leaf_lookup
  Holds→lookup n key v h (i, l, e, q) = rw (lower_bound-at n key i h l e) (ground arith)

  -- On a leaf with rising keys, `leaf_lookup` finds a value exactly if it stands beside the key.
  pub leaf_lookup_iff :
      (n : IxNode K) (key : Key) (v : Rid)
      → IsSorted K n
      → (leaf_lookup K n key ≡ some v) ↔ Holds n key v
  leaf_lookup_iff n key v h = (lookup→Holds n key v, Holds→lookup n key v h)

  pub Holds-same :
      (n : IxNode K) (key key' : Key) (w : Rid)
      → ix_compare key key' ≡ Ordering.eq
      → Holds n key w
      → Holds n key' w
  Holds-same n key key' w s (i, l, e, q) = (i, l, compare_same (n.keys i) key key' e ∙ s, q)

  pub is_same-eq : (o : Ordering) → is_same K o ≡ true → o ≡ Ordering.eq
  is_same-eq o h = ground arith

  -- A leaf that holds the key at `lower_bound` finds it, and one that does not finds nothing.
  pub lookup-found :
      (n : IxNode K) (key : Key)
      → holds K n (lower_bound K n key) key ≡ true
      → leaf_lookup K n key ≡ some (n.rids (lower_bound K n key))
  unfolding leaf_lookup
  lookup-found n key h = rw h refl

  pub lookup-free :
      (n : IxNode K) (key : Key)
      → holds K n (lower_bound K n key) key ≡ false
      → leaf_lookup K n key ≡ none
  unfolding leaf_lookup
  lookup-free n key h = rw h refl
