-- ===== src/Replacer.antt =====
-- The replacement policy: the abstract class of replacer/replacer.h, with what its users rely on.
-- `frames` lists the frames that may be evicted, the most recently unpinned first.
pub mod Lru
use claude_opus.Base.{
  ℕ, ◌≡◌, Option, none, some, List, [], ◌∷◌, ◌++◌, mem, without, Distinct, ◌↔◌, if◌then◌else◌,
}

-- `victim` returns the frame that `*frame_id` is set to, or none for `false`.
pub record Replacer : Type 1 where
  pub State : Type 0
  pub victim : State → Option (ℕ × State)
  pub pin : State → ℕ → State
  pub unpin : State → ℕ → State
  pub size : State → ℕ
  pub frames : State → List ℕ
  pub IsValid : State → Type 0
  pub victim_none : (s : State) → IsValid s → victim s ≡ none → frames s ≡ []
  pub victim_some :
      (s : State) (f : ℕ) (t : State)
      → IsValid s
      → victim s ≡ some (f, t)
      → IsValid t × (frames s ≡ frames t ++ f ∷ [])
  pub frames-pin :
      (s : State) (f : ℕ)
      → IsValid s
      → IsValid (pin s f) × (frames (pin s f) ≡ without f (frames s))
  pub frames-unpin :
      (s : State) (f : ℕ)
      → IsValid s
      → IsValid (unpin s f)
        × (frames (unpin s f) ≡ (if mem f (frames s) then frames s else f ∷ frames s))
  pub frames-Distinct : (s : State) → IsValid s → Distinct (frames s)
