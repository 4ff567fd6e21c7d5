-- ===== src/Base/Bytes.antt =====
-- `memcpy` out of and into bytes. Bytes past the end read as 0, and are not written.
use Prim.Native.Nat.{ℕ, zero, suc, ◌+◌, ◌≤◌}
use mathlib.Core.Path.{◌≡◌, refl}
use mathlib.Core.List.{List, [], ◌∷◌}
use native.Mathlib.Omega.{arith}
use claude_opus.Base.Lists.{length, drop}

abbrev pub head_byte : List ℕ → ℕ
head_byte [] = 0
head_byte (b ∷ bs) = b

abbrev pub zeros : ℕ → List ℕ
zeros zero = []
zeros (suc n) = 0 ∷ zeros n

-- `n` bytes from the front.
unfoldable pub bytes_of : ℕ → List ℕ → List ℕ
bytes_of zero bs = []
bytes_of (suc n) bs = head_byte bs ∷ bytes_of n (drop 1 bs)

-- `n` bytes from an offset.
abbrev pub read : ℕ → ℕ → List ℕ → List ℕ
read offset n bs = bytes_of n (drop offset bs)

-- The bytes with others written at an offset.
unfoldable pub write : ℕ → List ℕ → List ℕ → List ℕ
write zero [] bs = bs
write zero (v ∷ vs) [] = []
write zero (v ∷ vs) (b ∷ bs) = v ∷ write zero vs bs
write (suc i) vs [] = []
write (suc i) vs (b ∷ bs) = b ∷ write i vs bs

pub length-bytes_of : (n : ℕ) (bs : List ℕ) → length (bytes_of n bs) ≡ n
unfolding bytes_of
length-bytes_of zero bs = refl
length-bytes_of (suc n) bs = ground (arith, length-bytes_of n (drop 1 bs))

pub length-zeros : (n : ℕ) → length (zeros n) ≡ n
length-zeros zero = refl
length-zeros (suc n) = ground (arith, length-zeros n)

pub length-write : (i : ℕ) (vs bs : List ℕ) → length (write i vs bs) ≡ length bs
unfolding write
length-write zero [] bs = refl
length-write zero (v ∷ vs) [] = refl
length-write zero (v ∷ vs) (b ∷ bs) = ground (arith, length-write zero vs bs)
length-write (suc i) vs [] = refl
length-write (suc i) vs (b ∷ bs) = ground (arith, length-write i vs bs)

bytes_of-write_here :
    (vs bs : List ℕ) → length vs ≤ length bs → bytes_of (length vs) (write 0 vs bs) ≡ vs
unfolding bytes_of write
bytes_of-write_here [] bs h = refl
bytes_of-write_here (v ∷ vs) [] h = ground arith
bytes_of-write_here (v ∷ vs) (b ∷ bs) h = ground (arith, bytes_of-write_here vs bs)

-- What was written is read.
pub read-write :
    (i : ℕ) (vs bs : List ℕ) → i + length vs ≤ length bs → read i (length vs) (write i vs bs) ≡ vs
unfolding write
read-write zero vs bs h = bytes_of-write_here vs bs (omega arith)
read-write (suc i) vs [] h = ground arith
read-write (suc i) vs (b ∷ bs) h = read-write i vs bs (omega arith)

read-write_behind :
    (k : ℕ) (n : ℕ) (vs bs : List ℕ) → length vs ≤ k → read k n (write 0 vs bs) ≡ read k n bs
unfolding write
read-write_behind k n [] bs h = refl
read-write_behind k n (v ∷ vs) [] h = refl
read-write_behind zero n (v ∷ vs) (b ∷ bs) h = ground arith
read-write_behind (suc k) n (v ∷ vs) (b ∷ bs) h = read-write_behind k n vs bs (omega arith)

bytes_of-write_before :
    (n : ℕ) (i : ℕ) (vs bs : List ℕ) → n ≤ i → bytes_of n (write i vs bs) ≡ bytes_of n bs
unfolding write bytes_of
bytes_of-write_before zero i vs bs h = refl
bytes_of-write_before (suc n) zero vs bs h = ground arith
bytes_of-write_before (suc n) (suc i) vs [] h = refl
bytes_of-write_before (suc n) (suc i) vs (b ∷ bs) h =
    ground (arith, bytes_of-write_before n i vs bs)

-- Bytes in front of the written ones, or behind them, stay.
pub read-write_before :
    (k : ℕ) (n : ℕ) (i : ℕ) (vs bs : List ℕ) → k + n ≤ i → read k n (write i vs bs) ≡ read k n bs
unfolding write
read-write_before zero n i vs bs h = bytes_of-write_before n i vs bs (omega arith)
read-write_before (suc k) n zero vs bs h = ground arith
read-write_before (suc k) n (suc i) vs [] h = refl
read-write_before (suc k) n (suc i) vs (b ∷ bs) h = read-write_before k n i vs bs (omega arith)

pub read-write_after :
    (k : ℕ) (n : ℕ) (i : ℕ) (vs bs : List ℕ)
    → i + length vs ≤ k
    → read k n (write i vs bs) ≡ read k n bs
unfolding write
read-write_after k n zero vs bs h = read-write_behind k n vs bs (omega arith)
read-write_after zero n (suc i) vs bs h = ground arith
read-write_after (suc k) n (suc i) vs [] h = refl
read-write_after (suc k) n (suc i) vs (b ∷ bs) h = read-write_after k n i vs bs (omega arith)
