-- ===== src/Execution/Join/Spec.antt =====
-- What a join in blocks yields, as lists.
use mathlib.Core.List.{Perm, append_assoc, append-nil, perm_middle}
use mathlib.Core.List.Perm
use claude_opus.Base.{
  ◌≡◌, refl, ap, sym, subst, ◌∙◌, ℕ, zero, suc, ◌+◌, ◌≤◌, arith, Bool, Bool-cases, inl, inr, leb,
  if◌then◌else◌, List, [], ◌∷◌, ◌++◌, length,
}
use claude_opus.Execution.Join.{max_buffer_size}

abbrev pub Rec : Type 0
Rec = List ℕ

-- The block that is read next, `size` bytes of which are there, and the records behind it.
abbrev pub take_block : ℕ → ℕ → List Rec → List Rec × List Rec
take_block len size [] = ([], [])
take_block len size (l ∷ ls) =
    let rest = take_block len (size + len) ls in
    if leb max_buffer_size (size + len) then (l ∷ [], ls) else (l ∷ rest.0, rest.1)

pub append-take_block :
    (len size : ℕ) (ls : List Rec) → (take_block len size ls).0 ++ (take_block len size ls).1 ≡ ls
append-take_block len size [] = refl
append-take_block len size (l ∷ ls) = elim (Bool-cases (leb max_buffer_size (size + len))) [
  | inl e ↦ rw e refl
  | inr e ↦ rw e (ap (λ x. l ∷ x) (append-take_block len (size + len) ls))
]

pub take_block-le : (len size : ℕ) (ls : List Rec) → length (take_block len size ls).1 ≤ length ls
take_block-le len size [] = omega arith
take_block-le len size (l ∷ ls) = elim (Bool-cases (leb max_buffer_size (size + len))) [
  | inl e ↦ rw e (omega arith)
  | inr e ↦ rw e (omega (arith, take_block-le len (size + len) ls))
]

pub take_block-shrinks :
    (len size : ℕ) (l : Rec) (ls : List Rec) → length (take_block len size (l ∷ ls)).1 ≤ length ls
take_block-shrinks len size l ls = elim (Bool-cases (leb max_buffer_size (size + len))) [
  | inl e ↦ rw e (omega arith)
  | inr e ↦ rw e (take_block-le len (size + len) ls)
]

append-comm : (xs ys : List Rec) → Perm (xs ++ ys) (ys ++ xs)
append-comm [] ys = subst (Perm ys) (sym (append-nil ys)) (Perm.refl ys)
append-comm (x ∷ xs) ys =
    Perm.trans (Perm.cons x (append-comm xs ys)) (Perm.symm (perm_middle ys xs))

append-swap : (a b t : List Rec) → Perm (a ++ (b ++ t)) (b ++ (a ++ t))
append-swap a b t =
    subst (λ x. Perm x (b ++ (a ++ t))) (append_assoc a b t)
      (subst (Perm ((a ++ b) ++ t)) (append_assoc b a t) (Perm.append_right t (append-comm a b)))

shuffle : (a b c d : List Rec) → Perm ((a ++ b) ++ (c ++ d)) ((b ++ c) ++ (a ++ d))
shuffle a b c d =
    subst (λ x. Perm x ((b ++ c) ++ (a ++ d))) (sym (append_assoc a b (c ++ d)))
      (subst (Perm (a ++ (b ++ (c ++ d)))) (sym (append_assoc b c (a ++ d)))
        (Perm.trans (append-swap a b (c ++ d)) (Perm.append_left b (append-swap a c d))))

-- `join` puts two records together, `sat` tests the conditions.
module _ (join : Rec → Rec → Rec) (sat : Rec → Bool) where
  abbrev pub one : Rec → Rec → List Rec
  one l r = if sat (join l r) then join l r ∷ [] else []

  -- A right record with the block's records, from the last one on.
  abbrev pub matches : List Rec → Rec → List Rec
  matches [] r = []
  matches (l ∷ ls) r = matches ls r ++ one l r

  abbrev pub block_join : List Rec → List Rec → List Rec
  block_join block [] = []
  block_join block (r ∷ rs) = matches block r ++ block_join block rs

  -- At most `n` blocks.
  abbrev pub blocks_join : ℕ → ℕ → List Rec → List Rec → List Rec
  blocks_join zero len ls rs = []
  blocks_join (suc n) len [] rs = []
  blocks_join (suc n) len (l ∷ ls) rs =
      let b = take_block len 0 (l ∷ ls) in block_join b.0 rs ++ blocks_join n len b.1 rs

  -- The reference: all pairs, in the order of two nested loops.
  abbrev pub row_product : Rec → List Rec → List Rec
  row_product l [] = []
  row_product l (r ∷ rs) = one l r ++ row_product l rs

  abbrev pub product : List Rec → List Rec → List Rec
  product [] rs = []
  product (l ∷ ls) rs = row_product l rs ++ product ls rs

  block_join-nil : (rs : List Rec) → block_join [] rs ≡ []
  block_join-nil [] = refl
  block_join-nil (r ∷ rs) = block_join-nil rs

  block_join-cons :
      (l : Rec) (ls rs : List Rec)
      → Perm (block_join (l ∷ ls) rs) (row_product l rs ++ block_join ls rs)
  block_join-cons l ls [] = Perm.refl []
  block_join-cons l ls (r ∷ rs) =
      Perm.trans (Perm.append_left (matches ls r ++ one l r) (block_join-cons l ls rs))
        (shuffle (matches ls r) (one l r) (row_product l rs) (block_join ls rs))

  block_join-product : (ls rs : List Rec) → Perm (block_join ls rs) (product ls rs)
  block_join-product [] rs = subst (λ x. Perm x []) (sym (block_join-nil rs)) (Perm.refl [])
  block_join-product (l ∷ ls) rs =
      Perm.trans (block_join-cons l ls rs)
        (Perm.append_left (row_product l rs) (block_join-product ls rs))

  product-append : (ls ms rs : List Rec) → product (ls ++ ms) rs ≡ product ls rs ++ product ms rs
  product-append [] ms rs = refl
  product-append (l ∷ ls) ms rs =
      ap (λ x. row_product l rs ++ x) (product-append ls ms rs)
      ∙ sym (append_assoc (row_product l rs) (product ls rs) (product ms rs))

  -- The join in blocks finds the pairs of the reference, in another order.
  pub blocks_join-product :
      (n len : ℕ) (ls rs : List Rec)
      → length ls ≤ n
      → Perm (blocks_join n len ls rs) (product ls rs)
  blocks_join-product zero len [] rs h = Perm.refl []
  blocks_join-product zero len (l ∷ ls) rs h = ground arith
  blocks_join-product (suc n) len [] rs h = Perm.refl []
  blocks_join-product (suc n) len (l ∷ ls) rs h =
      let b = take_block len 0 (l ∷ ls) in
      subst (λ x. Perm (block_join b.0 rs ++ blocks_join n len b.1 rs) x)
        (sym (product-append b.0 b.1 rs)
          ∙ ap (λ x. product x rs) (append-take_block len 0 (l ∷ ls)))
        (Perm.append (block_join-product b.0 rs)
          (blocks_join-product n len b.1 rs (omega (arith, take_block-shrinks len 0 l ls))))
