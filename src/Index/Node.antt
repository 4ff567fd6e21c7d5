-- ===== src/Index/Node.antt =====
-- A node of the B+ tree: `IxPageHdr` of index/ix_defs.h and `IxNodeHandle` of index/ix_index_handle.h
-- and ix_index_handle.cpp. The key and identifier arrays are functions of the index.
use Prim.Native.Nat.{Ordering}
use claude_opus.Base.{
  ℕ, zero, suc, ◌+◌, ◌-◌, ◌/◌, ◌≤◌, ◌<◌, ◌≡◌, ◌≢◌, ℤ, ℤ-discrete, negsuc, Bool, true, false, ltb,
  leb, ◌==◌, ◌||◌, not, if◌then◌else◌, ite, ℕ_discrete, Option, none, some,
}
use claude_opus.Txn.{Rid}
use claude_opus.Index.Keys.{KeyOrder}
pub mod Search
pub mod Leaf
pub mod Insertion
pub mod Removal

abbrev pub ix_no_page : ℤ
ix_no_page = negsuc 0

module _ (K : KeyOrder) where
  open K use {Key, ix_compare}

  pub record IxNode : Type 0 where
    pub next_free_page_no : ℤ
    pub parent : ℤ
    pub num_key : ℕ
    pub is_leaf : Bool
    pub prev_leaf : ℤ
    pub next_leaf : ℤ
    pub keys : ℕ → Key
    pub rids : ℕ → Rid

  abbrev pub is_below : Ordering → Bool
  is_below Ordering.lt = true
  is_below _ = false

  abbrev pub is_above : Ordering → Bool
  is_above Ordering.gt = true
  is_above _ = false

  abbrev pub is_same : Ordering → Bool
  is_same Ordering.eq = true
  is_same _ = false

  -- The two loops over [left, right), by the sign that moves on to the right; the fuel bounds the
  -- rounds.
  pub bisect : (Ordering → Bool) → (ℕ → Key) → Key → ℕ → ℕ → ℕ → ℕ
  bisect on keys target zero left right = left
  bisect on keys target (suc n) left right =
      let mid = (left + right) / 2 in
      let up = bisect on keys target n (suc mid) right in
      let down = bisect on keys target n left mid in
      if ltb left right then (if on (ix_compare (keys mid) target) then up else down) else left

  unfoldable pub lower_bound : IxNode → Key → ℕ
  unfolding bisect
  lower_bound n target = bisect is_below n.keys target n.num_key 0 n.num_key

  unfoldable pub upper_bound : IxNode → Key → ℕ
  unfolding bisect
  upper_bound n target = bisect (λ o. not (is_above o)) n.keys target n.num_key 1 n.num_key

  -- Whether the position holds the key.
  abbrev pub holds : IxNode → ℕ → Key → Bool
  holds n i key = if ltb i n.num_key then is_same (ix_compare (n.keys i) key) else false

  unfoldable pub leaf_lookup : IxNode → Key → Option Rid
  unfolding lower_bound
  leaf_lookup n key = let i = lower_bound n key in if holds n i key then some (n.rids i) else none

  unfoldable pub value_at : IxNode → ℕ → ℤ
  value_at n i = (n.rids i).page_no

  unfoldable pub internal_lookup : IxNode → Key → ℤ
  unfolding upper_bound value_at
  internal_lookup n key = value_at n (upper_bound n key - 1)

  -- `count` elements moved in at `i`, those from `i` up to `num` moved on.
  abbrev pub moved_in {ℓ} : {A : Type ℓ} → ℕ → ℕ → ℕ → (ℕ → A) → (ℕ → A) → ℕ → A
  moved_in i count num xs ys j =
      if ltb j i
      then ys j
      else if ltb j (i + count)
      then xs (j - i)
      else if ltb j (num + count)
      then ys (j - count)
      else ys j

  unfoldable pub insert_pairs : IxNode → ℕ → (ℕ → Key) → (ℕ → Rid) → ℕ → IxNode
  insert_pairs n i keys rids count = if ltb n.num_key i then n else record n {
    keys = moved_in i count n.num_key keys n.keys;
    rids = moved_in i count n.num_key rids n.rids;
    num_key = n.num_key + count;
  }

  unfoldable pub insert_pair : IxNode → ℕ → Key → Rid → IxNode
  unfolding insert_pairs
  insert_pair n i key rid = insert_pairs n i (λ _. key) (λ _. rid) 1

  unfoldable pub insert : IxNode → Key → Rid → IxNode
  unfolding lower_bound insert_pair
  insert n key value =
      let i = lower_bound n key in if holds n i key then n else insert_pair n i key value

  -- The elements behind `i` moved back by one.
  abbrev pub moved_out {ℓ} : {A : Type ℓ} → ℕ → ℕ → (ℕ → A) → ℕ → A
  moved_out i num ys j = if ltb j i then ys j else if ltb (suc j) num then ys (suc j) else ys j

  unfoldable pub erase_pair : IxNode → ℕ → IxNode
  erase_pair n i = if leb n.num_key i then n else record n {
    keys = moved_out i n.num_key n.keys;
    rids = moved_out i n.num_key n.rids;
    num_key = n.num_key - 1;
  }

  unfoldable pub remove : IxNode → Key → IxNode
  unfolding lower_bound erase_pair
  remove n key = let i = lower_bound n key in if holds n i key then erase_pair n i else n

  unfoldable pub set_key : IxNode → ℕ → Key → IxNode
  set_key n i key = record n { keys = λ j. ite (ℕ_discrete j i) key (n.keys j) }

  -- The first position of a child; there is one, or the assertion fails.
  pub find_from : IxNode → ℤ → ℕ → ℕ → Option ℕ
  unfolding ℤ-discrete
  find_from n child i zero = none
  find_from n child i (suc left) =
      let rest = find_from n child (suc i) left in
      ite (ℤ-discrete (n.rids i).page_no child) (some i) rest

  unfoldable pub find_child : IxNode → ℤ → Option ℕ
  unfolding find_from
  find_child n child = find_from n child 0 n.num_key
