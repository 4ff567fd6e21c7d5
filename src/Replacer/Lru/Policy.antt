-- ===== src/Replacer/Lru/Policy.antt =====
-- `LRUReplacer` implements the replacement policy.
use claude_opus.Replacer.{Replacer}
use claude_opus.Replacer.Lru.{LruReplacer, victim, pin, unpin, size}
use claude_opus.Replacer.Lru.Laws.{
  IsValid, frames_of, victim_none, victim_some, frames-pin, frames-unpin,
}

abbrev pub lru : Replacer
lru = record {
  State = LruReplacer;
  victim = victim;
  pin = pin;
  unpin = unpin;
  size = size;
  frames = λ s. frames_of s.lru_list;
  IsValid = IsValid;
  victim_none = victim_none;
  victim_some = victim_some;
  frames-pin = frames-pin;
  frames-unpin = frames-unpin;
  frames-Distinct = λ s v. v.distinct;
}
