-- ===== src/Replacer/Lru/Tests.antt =====
-- A replacer of two frames.
use claude_opus.Base.{◌≡◌, refl, ℕ_discrete, some, none, [], ◌∷◌, ◌++◌, if◌then◌else◌, mem, without}
use claude_opus.Replacer.Lru.{LruReplacer, init, victim, pin, unpin}
use claude_opus.Replacer.Lru.Laws.{
  IsValid, frames_of, init-IsValid, victim_some, frames-pin, frames-unpin,
}
use claude_opus.Replacer.Lru.Refine.{pins, unpins, victims, step, run, spec_run, run-init}

program : Unit {0}
unfolding init victim pin unpin ℕ_discrete
program = tt

-- Frame 4 was unpinned, and then frame 7.
two : LruReplacer
two = unpin (unpin (init 2) 4) 7

two-IsValid : IsValid two
unfolding two
two-IsValid = (frames-unpin (unpin (init 2) 4) 7 (frames-unpin (init 2) 4 (init-IsValid 2).0).0).0

-- What `victim` leaves of it.
rest : LruReplacer
unfolding program two
rest = elim (victim two) [ none ↦ two | some (_, t) ↦ t ]

victim_some_example : IsValid rest × (frames_of two.lru_list ≡ frames_of rest.lru_list ++ 4 ∷ [])
unfolding program two rest
victim_some_example = victim_some two 4 rest two-IsValid refl

run-init_example :
    spec_run [] (unpins 4 ∷ unpins 7 ∷ pins 4 ∷ victims ∷ victims ∷ [])
    ≡ ([], none ∷ none ∷ none ∷ some 7 ∷ none ∷ [])
unfolding program step run
run-init_example = run-init 2 (unpins 4 ∷ unpins 7 ∷ pins 4 ∷ victims ∷ victims ∷ [])

frames-pin_example :
    IsValid (pin two 4) × (frames_of (pin two 4).lru_list ≡ without 4 (frames_of two.lru_list))
frames-pin_example = frames-pin two 4 two-IsValid

frames-unpin_example :
    IsValid (unpin two 9)
    × (frames_of (unpin two 9).lru_list ≡ (
        if mem 9 (frames_of two.lru_list)
        then frames_of two.lru_list
        else 9 ∷ frames_of two.lru_list))
frames-unpin_example = frames-unpin two 9 two-IsValid
