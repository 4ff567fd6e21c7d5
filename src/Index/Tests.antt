-- ===== src/Index/Tests.antt =====
-- Nodes whose keys are numbers: the theorems of the index at work.
use Prim.Native.Nat.{Ordering, compare}
use claude_opus.Base.{List, [], ◌∷◌, ◌+◌, ℕ, ◌≡◌, refl, pos, negsuc, true, arith, some}
use claude_opus.LogRecord.{get_int32}
use claude_opus.Index.Order.{IsOrder, pull-IsOrder, compare_ℤ, compare_ℤ-IsOrder}
use claude_opus.Index.Columns.{ColType, Column, memcmp, compare_columns, compare_columns-IsOrder}
use claude_opus.Index.Keys.{KeyOrder, flip}
use claude_opus.Index.Node.{IxNode, insert, remove, leaf_lookup}
use claude_opus.Index.Node.Search.{IsSorted}
use claude_opus.Index.Node.Insertion.{or_value, insert-lookup}
use claude_opus.Index.Node.Removal.{remove-lookup}

pub numbers_flip : (a b : ℕ) → compare b a ≡ flip (compare a b)
numbers_flip a b = ground arith

pub numbers_same : (a b c : ℕ) → compare a b ≡ Ordering.eq → compare a c ≡ compare b c
numbers_same a b c e = ground arith

pub numbers_trans :
    (a b c : ℕ) → compare a b ≡ Ordering.lt → compare b c ≡ Ordering.lt → compare a c ≡ Ordering.lt
numbers_trans a b c e f = ground arith

abbrev pub numbers : KeyOrder
numbers = record {
  Key = ℕ;
  ix_compare = compare;
  compare_flip = numbers_flip;
  compare_same = numbers_same;
  compare_trans = numbers_trans;
}

-- The keys 10, 11, 12.
abbrev pub three_keys : IxNode numbers
three_keys = record {
  next_free_page_no = negsuc 0;
  parent = negsuc 0;
  num_key = 3;
  is_leaf = true;
  prev_leaf = pos 1;
  next_leaf = pos 1;
  keys = λ i. 10 + i;
  rids = λ i. record { page_no = pos i; slot_no = pos 0 };
}

pub three_keys-IsSorted : IsSorted numbers three_keys
three_keys-IsSorted i j l m = ground arith

insert-lookup_example :
    IsSorted numbers (insert numbers three_keys 7 (three_keys.rids 9))
    × (leaf_lookup numbers (insert numbers three_keys 7 (three_keys.rids 9)) 7
        ≡ some (or_value (leaf_lookup numbers three_keys 7) (three_keys.rids 9)))
insert-lookup_example = insert-lookup numbers three_keys 7 7 (three_keys.rids 9) three_keys-IsSorted

remove-lookup_example :
    IsSorted numbers (remove numbers three_keys 11)
    × (leaf_lookup numbers (remove numbers three_keys 11) 12 ≡ leaf_lookup numbers three_keys 12)
remove-lookup_example = remove-lookup numbers three_keys 11 12 three_keys-IsSorted

-- The searches, run.
lookup_test : leaf_lookup numbers three_keys 12 ≡ some (three_keys.rids 2)
unfolding leaf_lookup
lookup_test = refl

-- Floats that are not negative compare as the words that they are.
words : List ℕ → List ℕ → Ordering
words a b = compare_ℤ (get_int32 a) (get_int32 b)

words-IsOrder : IsOrder words
unfolding words
words-IsOrder = pull-IsOrder get_int32 compare_ℤ compare_ℤ-IsOrder

abbrev columns : List Column
columns =
    record { type = ColType.type_string; len = 2 }
    ∷ record { type = ColType.type_float; len = 4 }
    ∷ record { type = ColType.type_int; len = 4 }
    ∷ []

compare_columns-IsOrder_example : IsOrder (compare_columns words columns)
compare_columns-IsOrder_example = compare_columns-IsOrder words columns words-IsOrder

-- The first byte that differs decides.
memcmp_test : memcmp 3 (1 ∷ 2 ∷ 9 ∷ []) (1 ∷ 3 ∷ 0 ∷ []) ≡ Ordering.lt
unfolding memcmp
memcmp_test = refl
