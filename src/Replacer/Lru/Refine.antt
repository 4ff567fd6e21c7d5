-- ===== src/Replacer/Lru/Refine.antt =====
-- The LRU replacer against a plain list of frames, over any sequence of calls.
use claude_opus.Base.{
  ℕ, ◌≡◌, refl, sym, ap, subst, ◌∙◌, inl, inr, Option, none, some, List, [], ◌∷◌, ◌++◌, arith, mem,
  without, if◌then◌else◌, Option-cases,
}
use claude_opus.Replacer.Lru.{LruReplacer, init, victim, pin, unpin}
use claude_opus.Replacer.Lru.Laws.{
  IsValid, frames_of, init-IsValid, victim_none, victim_some, frames-pin, frames-unpin,
}

pub data Call : Type 0 where
  pins unpins : ℕ → Call
  victims : Call

abbrev victim_result : LruReplacer → Option (ℕ × LruReplacer) → LruReplacer × Option ℕ
victim_result s none = (s, none)
victim_result s (some (f, t)) = (t, some f)

unfoldable pub step : LruReplacer → Call → LruReplacer × Option ℕ
step s (pins f) = (pin s f, none)
step s (unpins f) = (unpin s f, none)
step s victims = victim_result s (victim s)

-- The list without its last entry, and the last entry.
pub split_last : List ℕ → List ℕ × Option ℕ
split_last [] = ([], none)
split_last (x ∷ []) = ([], some x)
split_last (x ∷ y ∷ l) = let (front, last) = split_last (y ∷ l) in (x ∷ front, last)

-- The frames by last use: a pinned frame leaves, an unpinned one comes in front unless it is there,
-- and the victim is the last.
pub spec_step : List ℕ → Call → List ℕ × Option ℕ
unfolding split_last
spec_step l (pins f) = (without f l, none)
spec_step l (unpins f) = (if mem f l then l else f ∷ l, none)
spec_step l victims = split_last l

abbrev then_result {ℓ} : {S : Type ℓ} → Option ℕ → S × List (Option ℕ) → S × List (Option ℕ)
then_result o (s, os) = (s, o ∷ os)

unfoldable pub run : LruReplacer → List Call → LruReplacer × List (Option ℕ)
run s [] = (s, [])
run s (c ∷ cs) = then_result (step s c).1 (run (step s c).0 cs)

pub spec_run : List ℕ → List Call → List ℕ × List (Option ℕ)
spec_run l [] = (l, [])
spec_run l (c ∷ cs) = then_result (spec_step l c).1 (spec_run (spec_step l c).0 cs)

split_last-append : (l : List ℕ) (f : ℕ) → split_last (l ++ f ∷ []) ≡ (l, some f)
unfolding split_last
split_last-append [] f = refl
split_last-append (x ∷ []) f = refl
split_last-append (x ∷ y ∷ l) f = ground (arith, split_last-append (y ∷ l) f)

abbrev frames : LruReplacer → List ℕ
frames s = frames_of s.lru_list

split_last-nil : split_last [] ≡ ([], none)
unfolding split_last
split_last-nil = refl

victim-refines :
    (s : LruReplacer)
    → IsValid s
    → IsValid (step s victims).0
      × (split_last (frames s) ≡ (frames (step s victims).0, (step s victims).1))
unfolding step
victim-refines s v = elim (Option-cases (victim s)) [
  | inl e ↦ rw e (v, ap split_last (victim_none s v e) ∙ empty (frames s) (victim_none s v e))
  | inr ((f, t), e) ↦
      let (valid, q) = victim_some s f t v e in
      rw e (valid, ap split_last q ∙ split_last-append (frames t) f)
]
  where
    empty : (l : List ℕ) → l ≡ [] → split_last [] ≡ (l, none)
    empty l e = subst (λ (k : List ℕ). split_last [] ≡ (k, none)) (sym e) split_last-nil

step-refines :
    (s : LruReplacer) (c : Call)
    → IsValid s
    → IsValid (step s c).0 × (spec_step (frames s) c ≡ (frames (step s c).0, (step s c).1))
unfolding step spec_step
step-refines s (pins f) v = ground (arith, frames-pin s f v)
step-refines s (unpins f) v = ground (arith, frames-unpin s f v)
step-refines s victims v = victim-refines s v

run-refines :
    (s : LruReplacer) (cs : List Call)
    → IsValid s
    → spec_run (frames s) cs ≡ (frames (run s cs).0, (run s cs).1)
unfolding run spec_run
run-refines s [] v = refl
run-refines s (c ∷ cs) v =
    let (valid, e) = step-refines s c v in ground (arith, e, run-refines (step s c).0 cs valid)

-- From an empty replacer on, any sequence of `victim`, `pin` and `unpin` returns the same victims as a
-- list of the frames by last use, and keeps the same frames in the same order.
pub run-init :
    (n : ℕ) (cs : List Call) → spec_run [] cs ≡ (frames (run (init n) cs).0, (run (init n) cs).1)
unfolding init
run-init n cs = run-refines (init n) cs (init-IsValid n).0
