-- ===== src/Base/Lists.antt =====
-- Lists measured and indexed by native numbers, under the library's names.
use Prim.Native.Nat.{ℕ, zero, suc}
use mathlib.Core.Path.{◌≡◌, refl}
use mathlib.Core.Logic.{◌≢◌, ite}
use mathlib.Core.Bool.{Bool, true, false}
use mathlib.Core.List.{List, [], ◌∷◌, ◌++◌}
use mathlib.Core.Option.{Option, none, some}
use native.Mathlib.Decide.{ℕ_discrete}
use native.Mathlib.Omega.{arith}
use claude_opus.Base.Tests.{if◌then◌else◌}

module _ {ℓ} {A : Type ℓ} where
  abbrev pub length : List A → ℕ
  length [] = 0
  length (x ∷ xs) = suc (length xs)

  abbrev pub get_elem? : List A → ℕ → Option A
  get_elem? [] i = none
  get_elem? (x ∷ xs) zero = some x
  get_elem? (x ∷ xs) (suc i) = get_elem? xs i

  -- A write out of bounds changes nothing.
  abbrev pub set : List A → ℕ → A → List A
  set [] i v = []
  set (x ∷ xs) zero v = v ∷ xs
  set (x ∷ xs) (suc i) v = x ∷ set xs i v

-- A predicate of every element.
abbrev pub All {ℓ κ} : {A : Type ℓ} → (A → Type κ) → List A → Type κ
All P [] = Unit
All P (x ∷ xs) = P x × All P xs

-- Membership of a number in a list, as the code tests it, and a list without repetition.
abbrev pub mem : ℕ → List ℕ → Bool
mem n [] = false
mem n (x ∷ xs) = ite (ℕ_discrete x n) true (mem n xs)

abbrev pub Distinct : List ℕ → Type 0
Distinct [] = Unit {0}
Distinct (x ∷ xs) = (mem x xs ≡ false) × Distinct xs

-- The list without the first occurrence of a number.
abbrev pub without : ℕ → List ℕ → List ℕ
without n [] = []
without n (x ∷ xs) = ite (ℕ_discrete x n) xs (x ∷ without n xs)

pub mem-without_self : (n : ℕ) (xs : List ℕ) → Distinct xs → mem n (without n xs) ≡ false
mem-without_self n [] d = refl
mem-without_self n (x ∷ xs) d = ground (arith, mem-without_self n xs d.1)

pub mem-without_ne : (n m : ℕ) (xs : List ℕ) → m ≢ n → mem m (without n xs) ≡ mem m xs
mem-without_ne n m [] h = refl
mem-without_ne n m (x ∷ xs) h = ground (arith, mem-without_ne n m xs)

mem-without_le : (n m : ℕ) (xs : List ℕ) → mem m xs ≡ false → mem m (without n xs) ≡ false
mem-without_le n m [] h = refl
mem-without_le n m (x ∷ xs) h = ground (arith, mem-without_le n m xs)

pub without-Distinct : (n : ℕ) (xs : List ℕ) → Distinct xs → Distinct (without n xs)
without-Distinct n [] d = tt
without-Distinct n (x ∷ xs) d = ground (arith, without-Distinct n xs d.1, mem-without_le n x xs)

pub without_absent : (n : ℕ) (xs : List ℕ) → mem n xs ≡ false → without n xs ≡ xs
without_absent n [] h = refl
without_absent n (x ∷ xs) h = ground (arith, without_absent n xs)

pub mem-append : (n : ℕ) (xs ys : List ℕ) → mem n (xs ++ ys) ≡ (if mem n xs then true else mem n ys)
mem-append n [] ys = refl
mem-append n (x ∷ xs) ys = ground (arith, mem-append n xs ys)

pub append-Distinct :
    (n : ℕ) (xs : List ℕ) → Distinct xs → mem n xs ≡ false → Distinct (xs ++ n ∷ [])
append-Distinct n [] d h = (refl, tt)
append-Distinct n (x ∷ xs) d h = ground (arith, append-Distinct n xs d.1, mem-append x xs (n ∷ []))

pub Distinct-append : (xs ys : List ℕ) → Distinct (xs ++ ys) → Distinct xs
Distinct-append [] ys d = tt
Distinct-append (x ∷ xs) ys d = ground (arith, Distinct-append xs ys d.1, mem-append x xs ys)

module _ {ℓ} {A : Type ℓ} where
  abbrev pub take : ℕ → List A → List A
  take zero xs = []
  take (suc n) [] = []
  take (suc n) (x ∷ xs) = x ∷ take n xs

  abbrev pub drop : ℕ → List A → List A
  drop zero xs = xs
  drop (suc n) [] = []
  drop (suc n) (x ∷ xs) = drop n xs

abbrev pub filter {ℓ} : {A : Type ℓ} → (A → Bool) → List A → List A
filter p [] = []
filter p (x ∷ xs) = if p x then x ∷ filter p xs else filter p xs
