-- ===== src/Replacer/Lru/Laws.antt =====
-- The list and the hash table of the LRU replacer agree, and together they are a list of frames
-- in the order of their last use.
use claude_opus.Base.{
  ℕ, ◌≤◌, ◌<◌, ◌≡◌, refl, sym, ap, subst, ◌∙◌, ◌≢◌, inl, inr, Option-cases, true, false, ite,
  ℕ_discrete, Option, none, some, List, [], ◌∷◌, ◌++◌, arith, mem, without, Distinct, if◌then◌else◌,
  mem-append, without-Distinct, mem-without_self, without_absent, Distinct-append,
}
use claude_opus.Replacer.Lru.{
  Node, LruReplacer, init, split_back, erase_node, set_hash, victim, pin, unpin,
}

abbrev pub frames_of : List Node → List ℕ
frames_of [] = []
frames_of (n ∷ ns) = n.frame ∷ frames_of ns

-- Where the hash table must point for a frame.
pub find : ℕ → List Node → Option ℕ
find f [] = none
find f (n ∷ ns) = ite (ℕ_discrete n.frame f) (some n.iterator) (find f ns)

-- Element numbers fall along the list and stay below the next one.
abbrev pub Below : ℕ → List Node → Type 0
Below k [] = Unit {0}
Below k (n ∷ ns) = (n.iterator < k) × Below n.iterator ns

pub record IsValid (s : LruReplacer) : Type 0 where
  pub linked : (f : ℕ) → s.lru_hash f ≡ find f s.lru_list
  pub fresh : Below s.next_iterator s.lru_list
  pub distinct : Distinct (frames_of s.lru_list)

find-mem : (f : ℕ) (ns : List Node) → find f ns ≡ none → mem f (frames_of ns) ≡ false
unfolding find
find-mem f [] h = refl
find-mem f (n ∷ ns) h = ground (arith, find-mem f ns)

mem-find : (f : ℕ) (ns : List Node) → mem f (frames_of ns) ≡ false → find f ns ≡ none
unfolding find
mem-find f [] h = refl
mem-find f (n ∷ ns) h = ground (arith, mem-find f ns)

find-lt : (f it k : ℕ) (ns : List Node) → Below k ns → find f ns ≡ some it → it < k
unfolding find
find-lt f it k [] b h = cc
find-lt f it k (n ∷ ns) b h = ground (arith, find-lt f it n.iterator ns b.1)

-- The element that the hash table names is the frame's.
frames-erase :
    (f it k : ℕ) (ns : List Node)
    → Below k ns
    → find f ns ≡ some it
    → frames_of (erase_node it ns) ≡ without f (frames_of ns)
unfolding find erase_node
frames-erase f it k [] b h = cc
frames-erase f it k (n ∷ ns) b h =
    ground (arith, find-lt f it n.iterator ns b.1, frames-erase f it n.iterator ns b.1)

Below-mono : (j k : ℕ) (ns : List Node) → j ≤ k → Below j ns → Below k ns
Below-mono j k [] h b = tt
Below-mono j k (n ∷ ns) h b = (omega arith, b.1)

Below-erase : (it k : ℕ) (ns : List Node) → Below k ns → Below k (erase_node it ns)
unfolding erase_node
Below-erase it k [] b = tt
Below-erase it k (n ∷ ns) b =
    ground (arith, Below-erase it n.iterator ns b.1, Below-mono n.iterator k ns)

find-erase_ne :
    (f g it k : ℕ) (ns : List Node)
    → g ≢ f
    → Below k ns
    → find f ns ≡ some it
    → find g (erase_node it ns) ≡ find g ns
unfolding find erase_node
find-erase_ne f g it k [] d b h = refl
find-erase_ne f g it k (n ∷ ns) d b h =
    ground (arith, find-lt f it n.iterator ns b.1, find-erase_ne f g it n.iterator ns d b.1)

split_back-none : (ns : List Node) → split_back ns ≡ none → ns ≡ []
unfolding split_back
split_back-none [] h = refl
split_back-none (n ∷ ns) h = ground arith

split_back-append :
    (ns : List Node) (b : Node) (rest : List Node)
    → split_back ns ≡ some (b, rest)
    → ns ≡ rest ++ b ∷ []
unfolding split_back
split_back-append [] b rest h = cc
split_back-append (n ∷ ns) b rest h = elim (Option-cases (split_back ns)) [
  | inl e ↦ ground (arith, split_back-none ns)
  | inr ((b', rest'), e) ↦ ground (arith, split_back-append ns b' rest')
]

frames-append :
    (ns : List Node) (b : Node) → frames_of (ns ++ b ∷ []) ≡ frames_of ns ++ b.frame ∷ []
frames-append [] b = refl
frames-append (n ∷ ns) b = ground (arith, frames-append ns b)

Below-init : (k : ℕ) (ns : List Node) (b : Node) → Below k (ns ++ b ∷ []) → Below k ns
Below-init k [] b h = tt
Below-init k (n ∷ ns) b h = (h.0, Below-init n.iterator ns b h.1)

find-init : (g : ℕ) (ns : List Node) (b : Node) → g ≢ b.frame → find g (ns ++ b ∷ []) ≡ find g ns
unfolding find
find-init g [] b d = ground arith
find-init g (n ∷ ns) b d = ground (arith, find-init g ns b d)

-- The last of a list without repetition is not in the rest.
Distinct-last : (n : ℕ) (xs : List ℕ) → Distinct (xs ++ n ∷ []) → mem n xs ≡ false
Distinct-last n [] d = refl
Distinct-last n (x ∷ xs) d = ground (arith, Distinct-last n xs d.1, mem-append x xs (n ∷ []))

-- A new replacer is valid and empty.
pub init-IsValid : (n : ℕ) → IsValid (init n) × (frames_of (init n).lru_list ≡ [])
unfolding init find
init-IsValid n = (record { linked = λ f. refl; fresh = tt; distinct = tt }, refl)

-- `victim` fails exactly on an empty replacer.
pub victim_none : (s : LruReplacer) → IsValid s → victim s ≡ none → frames_of s.lru_list ≡ []
unfolding victim
victim_none s v h = ground (arith, split_back-none s.lru_list)

victim_lem :
    (s t : LruReplacer) (b : Node) (rest : List Node)
    → IsValid s
    → s.lru_list ≡ rest ++ b ∷ []
    → t ≡ record s { lru_list = rest; lru_hash = set_hash b.frame none s.lru_hash }
    → IsValid t × (frames_of s.lru_list ≡ frames_of t.lru_list ++ b.frame ∷ [])
victim_lem s t b rest v e d =
    let fresh : Below s.next_iterator (rest ++ b ∷ []) = subst (Below s.next_iterator) e v.fresh in
    let distinct : Distinct (frames_of rest ++ b.frame ∷ []) =
      subst Distinct (ap frames_of e ∙ frames-append rest b) v.distinct in
    rw d (
      record {
        linked = λ f. ground (
          arith,
          v.linked f,
          find-init f rest b,
          mem-find f rest,
          Distinct-last b.frame (frames_of rest) distinct,
        );
        fresh = Below-init s.next_iterator rest b fresh;
        distinct = Distinct-append (frames_of rest) (b.frame ∷ []) distinct;
      },
      ap frames_of e ∙ frames-append rest b,
    )

-- Otherwise `victim` returns and removes the least recently unpinned frame.
pub victim_some :
    (s : LruReplacer) (f : ℕ) (t : LruReplacer)
    → IsValid s
    → victim s ≡ some (f, t)
    → IsValid t × (frames_of s.lru_list ≡ frames_of t.lru_list ++ f ∷ [])
unfolding victim
victim_some s f t v h = elim (Option-cases (split_back s.lru_list)) [
  | inl e ↦ absurd (ground arith)
  | inr ((b, rest), e) ↦
      ground (arith, victim_lem s t b rest v (split_back-append s.lru_list b rest e))
]

mem_of_find : (f it : ℕ) (ns : List Node) → find f ns ≡ some it → mem f (frames_of ns) ≡ true
unfolding find
mem_of_find f it [] h = cc
mem_of_find f it (n ∷ ns) h = ground (arith, mem_of_find f it ns)

pin_lem :
    (s t : LruReplacer) (f it : ℕ)
    → IsValid s
    → find f s.lru_list ≡ some it
    → t ≡ record s { lru_list = erase_node it s.lru_list; lru_hash = set_hash f none s.lru_hash }
    → IsValid t × (frames_of t.lru_list ≡ without f (frames_of s.lru_list))
pin_lem s t f it v e d =
    let frames = frames-erase f it s.next_iterator s.lru_list v.fresh e in
    rw d (
      record {
        linked = λ g. ground (
          arith,
          v.linked g,
          find-erase_ne f g it s.next_iterator s.lru_list,
          mem-find f (erase_node it s.lru_list),
          frames,
          mem-without_self f (frames_of s.lru_list) v.distinct,
        );
        fresh = Below-erase it s.next_iterator s.lru_list v.fresh;
        distinct =
            subst Distinct (sym frames) (without-Distinct f (frames_of s.lru_list) v.distinct);
      },
      frames,
    )

-- `pin` removes the frame, and keeps the order of the others.
pub frames-pin :
    (s : LruReplacer) (f : ℕ)
    → IsValid s
    → IsValid (pin s f) × (frames_of (pin s f).lru_list ≡ without f (frames_of s.lru_list))
unfolding pin
frames-pin s f v = elim (Option-cases (s.lru_hash f)) [
  | inl e ↦
      rw (e, pin)
        (
          v,
          sym (
              without_absent f (frames_of s.lru_list)
                (find-mem f s.lru_list (sym (v.linked f) ∙ e))),
        )
  | inr (it, e) ↦ rw (e, pin) (pin_lem s _ f it v (sym (v.linked f) ∙ e) refl)
]

-- `unpin` puts the frame in front, unless it is listed already.
pub frames-unpin :
    (s : LruReplacer) (f : ℕ)
    → IsValid s
    → IsValid (unpin s f)
      × (frames_of (unpin s f).lru_list ≡ (
          if mem f (frames_of s.lru_list) then frames_of s.lru_list else f ∷ frames_of s.lru_list))
unfolding unpin find
frames-unpin s f v = elim (Option-cases (s.lru_hash f)) [
  | inl e ↦
      rw (e, unpin, find-mem f s.lru_list (sym (v.linked f) ∙ e))
        (
          record {
            linked = λ g. ground (arith, v.linked g);
            fresh = (omega arith, v.fresh);
            distinct = (find-mem f s.lru_list (sym (v.linked f) ∙ e), v.distinct);
          },
          refl,
        )
  | inr (it, e) ↦ rw (e, unpin) (v, rw (mem_of_find f it s.lru_list (sym (v.linked f) ∙ e)))
]
