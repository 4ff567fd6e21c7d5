-- ===== src/Replacer/Lru.antt =====
-- `LRUReplacer` of replacer/lru_replacer.h and lru_replacer.cpp. A `std::list` iterator stays with its
-- element, so an element carries a number of its own, and the hash table maps a frame to the number
-- of its element. The mutex makes each call one step.
pub mod Laws
pub mod Policy
pub mod Refine
mod Tests
use claude_opus.Base.{ℕ, suc, Bool, ite, ℕ_discrete, Option, none, some, List, [], ◌∷◌, map, length}

pub record Node : Type 0 where
  pub iterator : ℕ
  pub frame : ℕ

pub record LruReplacer : Type 0 where
  pub lru_list : List Node
  pub lru_hash : ℕ → Option ℕ
  pub max_size : ℕ
  pub next_iterator : ℕ

unfoldable pub init : ℕ → LruReplacer
init num_pages = record {
  lru_list = [];
  lru_hash = λ _. none;
  max_size = num_pages;
  next_iterator = 0;
}

-- `back()` and `pop_back()`.
pub split_back : List Node → Option (Node × List Node)
split_back [] = none
split_back (n ∷ ns) = elim (split_back ns) [
  | none ↦ some (n, [])
  | some (b, rest) ↦ some (b, n ∷ rest)
]

-- `LRUlist_.erase(it)`.
pub erase_node : ℕ → List Node → List Node
erase_node it [] = []
erase_node it (n ∷ ns) = ite (ℕ_discrete n.iterator it) ns (n ∷ erase_node it ns)

-- `LRUhash_.erase(f)` and `LRUhash_[f] = it`.
abbrev pub set_hash : ℕ → Option ℕ → (ℕ → Option ℕ) → ℕ → Option ℕ
set_hash f v h g = ite (ℕ_discrete g f) v (h g)

unfoldable pub victim : LruReplacer → Option (ℕ × LruReplacer)
unfolding split_back
victim s = elim (split_back s.lru_list) [
  | none ↦ none
  | some (b, rest) ↦
      some (b.frame, record s { lru_list = rest; lru_hash = set_hash b.frame none s.lru_hash })
]

unfoldable pub pin : LruReplacer → ℕ → LruReplacer
unfolding erase_node
pin s f = elim (s.lru_hash f) [
  | none ↦ s
  | some it ↦ record s {
    lru_list = erase_node it s.lru_list;
    lru_hash = set_hash f none s.lru_hash;
  }
]

unfoldable pub unpin : LruReplacer → ℕ → LruReplacer
unpin s f = elim (s.lru_hash f) [
  | none ↦ record s {
    lru_list = record { iterator = s.next_iterator; frame = f } ∷ s.lru_list;
    lru_hash = set_hash f (some s.next_iterator) s.lru_hash;
    next_iterator = suc s.next_iterator;
  }
  | some _ ↦ s
]

unfoldable pub size : LruReplacer → ℕ
size s = length s.lru_list
