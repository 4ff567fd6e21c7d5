-- ===== src/Execution/Order.antt =====
-- The standard library's stable sort, as insertions from the back, and what determines it.
use Prim.Native.Nat.{Ordering}
use mathlib.Core.List.{Perm}
use mathlib.Core.List.Perm
use claude_opus.Base.{
  ◌≡◌, ◌≢◌, refl, ◌∙◌, arith, Bool, true, false, Bool-cases, inl, inr, List, [], ◌∷◌, if◌then◌else◌,
  All,
}
use claude_opus.Index.Order.{IsOrder}

abbrev pub is_lt : Ordering → Bool
is_lt Ordering.lt = true
is_lt _ = false

abbrev pub is_eq : Ordering → Bool
is_eq Ordering.eq = true
is_eq _ = false

module _ {A : Type 0} (c : A → A → Ordering) where
  -- In front of the first element that is not less.
  insert : A → List A → List A
  insert x [] = x ∷ []
  insert x (y ∷ ys) = if is_lt (c y x) then y ∷ insert x ys else x ∷ y ∷ ys

  unfoldable pub stable_sort : List A → List A
  unfolding insert
  stable_sort [] = []
  stable_sort (x ∷ xs) = insert x (stable_sort xs)

  -- No element is less than one in front of it.
  abbrev pub IsSorted : List A → Type 0
  IsSorted [] = Unit {0}
  IsSorted (x ∷ xs) = All (λ y. c y x ≢ Ordering.lt) xs × IsSorted xs

  -- The elements that compare as the same as `x`, in their order.
  abbrev pub same_as : A → List A → List A
  same_as x [] = []
  same_as x (y ∷ ys) = if is_eq (c x y) then y ∷ same_as x ys else same_as x ys

  insert-perm : (x : A) (ys : List A) → Perm (insert x ys) (x ∷ ys)
  unfolding insert
  insert-perm x [] = Perm.refl (x ∷ [])
  insert-perm x (y ∷ ys) = elim (Bool-cases (is_lt (c y x))) [
    | inl e ↦ rw e (Perm.trans (Perm.cons y (insert-perm x ys)) (Perm.swap x y ys))
    | inr e ↦ rw e (Perm.refl (x ∷ y ∷ ys))
  ]

  pub stable_sort-perm : (xs : List A) → Perm (stable_sort xs) xs
  unfolding stable_sort
  stable_sort-perm [] = Perm.refl []
  stable_sort-perm (x ∷ xs) =
      Perm.trans (insert-perm x (stable_sort xs)) (Perm.cons x (stable_sort-perm xs))

  module _ (o : IsOrder c) where
    insert-All :
        (z x : A) (ys : List A)
        → c x z ≢ Ordering.lt
        → All (λ y. c y z ≢ Ordering.lt) ys
        → All (λ y. c y z ≢ Ordering.lt) (insert x ys)
    unfolding insert
    insert-All z x [] h a = (h, tt)
    insert-All z x (y ∷ ys) h a = ground (arith, insert-All z x ys h a.1)

    above :
        (x y : A) (ys : List A)
        → c y x ≢ Ordering.lt
        → All (λ z. c z y ≢ Ordering.lt) ys
        → All (λ z. c z x ≢ Ordering.lt) ys
    above x y [] h a = tt
    above x y (z ∷ zs) h a = (
      λ l. ground (
        arith,
        a.0,
        o.flips x y,
        o.flips x z,
        o.flips y z,
        o.trans z x y,
        o.same x y z,
        o.same y x z,
      ),
      above x y zs h a.1,
    )

    insert-IsSorted : (x : A) (ys : List A) → IsSorted ys → IsSorted (insert x ys)
    unfolding insert
    insert-IsSorted x [] s = (tt, tt)
    insert-IsSorted x (y ∷ ys) s = elim (Bool-cases (is_lt (c y x))) [
      | inl e ↦
          rw e (insert-All y x ys (λ l. ground (arith, o.flips x y)) s.0, insert-IsSorted x ys s.1)
      | inr e ↦ rw e ((λ l. ground arith, above x y ys (λ l. ground arith) s.0), s)
    ]

    pub stable_sort-IsSorted : (xs : List A) → IsSorted (stable_sort xs)
    unfolding stable_sort
    stable_sort-IsSorted [] = tt
    stable_sort-IsSorted (x ∷ xs) = insert-IsSorted x (stable_sort xs) (stable_sort-IsSorted xs)

    insert-same : (x y : A) (ys : List A) → same_as x (insert y ys) ≡ same_as x (y ∷ ys)
    unfolding insert
    insert-same x y [] = refl
    insert-same x y (z ∷ zs) = ground (
      arith,
      insert-same x y zs,
      o.flips x y,
      o.flips x z,
      o.flips y z,
      o.same x y z,
      o.same y x z,
    )

    -- Elements that compare as the same keep their order.
    pub stable_sort-same : (x : A) (xs : List A) → same_as x (stable_sort xs) ≡ same_as x xs
    unfolding stable_sort
    stable_sort-same x [] = refl
    stable_sort-same x (y ∷ ys) =
        insert-same x y (stable_sort ys) ∙ ground (arith, stable_sort-same x ys)
