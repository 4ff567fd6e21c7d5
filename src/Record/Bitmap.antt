-- ===== src/Record/Bitmap.antt =====
-- record/bitmap.h: a bitmap is a list of bytes, and a byte is its eight bits, the highest first, so
-- that `BITMAP_HIGHEST_BIT >> k` is the bit with index `k`.
use claude_opus.Base.{
  ℕ, zero, suc, ◌+◌, ◌-◌, ◌*◌, ◌/◌, ◌%◌, ◌≤◌, ◌<◌, ◌≡◌, ◌≢◌, refl, Bool, true, false, Option, none,
  some, List, [], ◌∷◌, length, get_elem?, set as set_elem, if◌then◌else◌, arith, Bool-cases, inl,
  inr, All, ℕ_discrete, ite,
}
pub mod Laws
pub mod Search

abbrev pub Byte : Type 0
Byte = List Bool

abbrev pub Bits : Type 0
Bits = List Byte

abbrev pub bitmap_width : ℕ
bitmap_width = 8

abbrev pub get_bucket : ℕ → ℕ
get_bucket pos = pos / bitmap_width

-- The index of the bit within its byte.
abbrev pub get_bit : ℕ → ℕ
get_bit pos = pos % bitmap_width

abbrev replicate {ℓ} : {A : Type ℓ} → ℕ → A → List A
replicate zero x = []
replicate (suc n) x = x ∷ replicate n x

unfoldable pub init : ℕ → Bits
init n = replicate n (replicate bitmap_width false)

-- The bytes with one of them changed.
pub update : List Byte → ℕ → (Byte → Byte) → List Byte
update [] b f = []
update (x ∷ xs) zero f = f x ∷ xs
update (x ∷ xs) (suc b) f = x ∷ update xs b f

unfoldable pub set : Bits → ℕ → Bits
unfolding update
set bm pos = update bm (get_bucket pos) (λ x. set_elem x (get_bit pos) true)

unfoldable pub reset : Bits → ℕ → Bits
unfolding update
reset bm pos = update bm (get_bucket pos) (λ x. set_elem x (get_bit pos) false)

pub test : Option Bool → Bool
test none = false
test (some b) = b

pub test_byte : Option Byte → ℕ → Bool
unfolding test
test_byte none k = false
test_byte (some x) k = test (get_elem? x k)

unfoldable pub is_set : Bits → ℕ → Bool
unfolding test_byte
is_set bm pos = test_byte (get_elem? bm (get_bucket pos)) (get_bit pos)

abbrev pub same : Bool → Bool → Bool
same true b = b
same false true = false
same false false = true

-- The loop of `next_bit` from `i` on, with so many positions left.
pub search : Bool → Bits → ℕ → ℕ → ℕ → ℕ
unfolding is_set
search bit bm max_n i zero = max_n
search bit bm max_n i (suc left) =
    let rest = search bit bm max_n (suc i) left in if same (is_set bm i) bit then i else rest

-- `next_bit` with `curr` one less than `from`, since it may be -1.
unfoldable pub next_bit : Bool → Bits → ℕ → ℕ → ℕ
unfolding search
next_bit bit bm max_n from = search bit bm max_n from (max_n - from)

unfoldable pub first_bit : Bool → Bits → ℕ → ℕ
unfolding next_bit
first_bit bit bm max_n = next_bit bit bm max_n 0
