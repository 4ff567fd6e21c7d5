-- ===== src/Record/Bitmap/Laws.antt =====
-- What setting and resetting a bit of a bitmap changes.
use claude_opus.Base.{
  ℕ, zero, suc, ◌*◌, ◌≤◌, ◌<◌, ◌≡◌, refl, Bool, true, false, [], ◌∷◌, length, get_elem?,
  set as set_elem, arith, All, ℕ_discrete, ite, ◌∙◌, ap,
}
use claude_opus.Record.Bitmap.{
  Byte, Bits, bitmap_width, get_bucket, get_bit, init, replicate, update, set, reset, test,
  test_byte, is_set,
}

-- Room for `n` positions, in whole bytes.
abbrev pub IsByte : Byte → Type 0
IsByte x = length x ≡ 8

pub record IsBitmap (n : ℕ) (bm : Bits) : Type 0 where
  pub whole : All IsByte bm
  pub room : n ≤ bitmap_width * length bm

bit-set_elem :
    (x : Byte) (k j : ℕ) (b : Bool)
    → k < length x
    → test (get_elem? (set_elem x k b) j) ≡ ite (ℕ_discrete j k) b (test (get_elem? x j))
unfolding test
bit-set_elem [] k j b h = absurd (omega arith)
bit-set_elem (y ∷ ys) zero zero b h = ground arith
bit-set_elem (y ∷ ys) zero (suc j) b h = ground arith
bit-set_elem (y ∷ ys) (suc k) zero b h = ground arith
bit-set_elem (y ∷ ys) (suc k) (suc j) b h = ground (arith, bit-set_elem ys k j b)

bit-update :
    (bm : Bits) (c k d j : ℕ) (b : Bool)
    → All IsByte bm
    → c < length bm
    → k < 8
    → test_byte (get_elem? (update bm c (λ x. set_elem x k b)) d) j
      ≡ ite
          (ℕ_discrete d c)
          (ite (ℕ_discrete j k) b (test_byte (get_elem? bm d) j))
          (test_byte (get_elem? bm d) j)
unfolding update test_byte
bit-update [] c k d j b w h l = absurd (omega arith)
bit-update (x ∷ xs) zero k zero j b w h l = ground (arith, bit-set_elem x k j b)
bit-update (x ∷ xs) zero k (suc d) j b w h l = ground arith
bit-update (x ∷ xs) (suc c) k zero j b w h l = ground arith
bit-update (x ∷ xs) (suc c) k (suc d) j b w h l = ground (arith, bit-update xs c k d j b w.1)

-- `set` and `reset` at once.
write-is_set :
    (n : ℕ) (bm : Bits) (p q : ℕ) (b : Bool)
    → IsBitmap n bm
    → p < n
    → is_set (update bm (get_bucket p) (λ x. set_elem x (get_bit p) b)) q
      ≡ ite (ℕ_discrete q p) b (is_set bm q)
unfolding is_set
write-is_set n bm p q b h l =
    let room = h.room in
    bit-update bm (get_bucket p) (get_bit p) (get_bucket q) (get_bit q) b h.whole (omega arith)
      (omega arith)
    ∙ (elim (ℕ_discrete q p) [ yes e ↦ ground arith | no d ↦ ground arith ])

length-set_elem : (x : Byte) (k : ℕ) (b : Bool) → length (set_elem x k b) ≡ length x
length-set_elem [] k b = refl
length-set_elem (y ∷ ys) zero b = refl
length-set_elem (y ∷ ys) (suc k) b = ap suc (length-set_elem ys k b)

length-update : (bm : Bits) (c : ℕ) (f : Byte → Byte) → length (update bm c f) ≡ length bm
unfolding update
length-update [] c f = refl
length-update (x ∷ xs) zero f = refl
length-update (x ∷ xs) (suc c) f = ap suc (length-update xs c f)

update-whole :
    (bm : Bits) (c k : ℕ) (b : Bool)
    → All IsByte bm
    → All IsByte (update bm c (λ x. set_elem x k b))
unfolding update
update-whole [] c k b h = tt
update-whole (x ∷ xs) zero k b h = (length-set_elem x k b ∙ h.0, h.1)
update-whole (x ∷ xs) (suc c) k b h = (h.0, update-whole xs c k b h.1)

update-IsBitmap :
    (n : ℕ) (bm : Bits) (c k : ℕ) (b : Bool)
    → IsBitmap n bm
    → IsBitmap n (update bm c (λ x. set_elem x k b))
update-IsBitmap n bm c k b h = record {
  whole = update-whole bm c k b h.whole;
  room = rw (length-update bm c (λ x. set_elem x k b)) h.room;
}

-- Setting a position of a bitmap that has room for it makes that position set, leaves every other
-- one as it was, and leaves a bitmap of the same room.
pub set-is_set :
    (n : ℕ) (bm : Bits) (p : ℕ)
    → IsBitmap n bm
    → p < n
    → IsBitmap n (set bm p)
      × ((q : ℕ) → is_set (set bm p) q ≡ ite (ℕ_discrete q p) true (is_set bm q))
unfolding set
set-is_set n bm p h l =
    (update-IsBitmap n bm (get_bucket p) (get_bit p) true h, λ q. write-is_set n bm p q true h l)

-- Resetting a position of a bitmap that has room for it makes that position free, leaves every other
-- one as it was, and leaves a bitmap of the same room.
pub reset-is_set :
    (n : ℕ) (bm : Bits) (p : ℕ)
    → IsBitmap n bm
    → p < n
    → IsBitmap n (reset bm p)
      × ((q : ℕ) → is_set (reset bm p) q ≡ ite (ℕ_discrete q p) false (is_set bm q))
unfolding reset
reset-is_set n bm p h l =
    (update-IsBitmap n bm (get_bucket p) (get_bit p) false h, λ q. write-is_set n bm p q false h l)

replicate-whole : (k : ℕ) → All IsByte (replicate k (replicate 8 false))
replicate-whole zero = tt
replicate-whole (suc k) = (refl, replicate-whole k)

length-replicate : (k : ℕ) (x : Byte) → length (replicate k x) ≡ k
length-replicate zero x = refl
length-replicate (suc k) x = ap suc (length-replicate k x)

test-replicate : (k j : ℕ) → test (get_elem? (replicate k false) j) ≡ false
unfolding test
test-replicate zero j = refl
test-replicate (suc k) zero = refl
test-replicate (suc k) (suc j) = test-replicate k j

test_byte-replicate :
    (k c j : ℕ) → test_byte (get_elem? (replicate k (replicate 8 false)) c) j ≡ false
unfolding test_byte
test_byte-replicate zero c j = refl
test_byte-replicate (suc k) zero j = test-replicate 8 j
test_byte-replicate (suc k) (suc c) j = test_byte-replicate k c j

-- A new bitmap of `k` bytes has room for `8 * k` positions, all of them free.
pub init-is_set : (k : ℕ) → IsBitmap (8 * k) (init k) × ((q : ℕ) → is_set (init k) q ≡ false)
unfolding init is_set
init-is_set k = (
  record {
    whole = replicate-whole k;
    room = rw (length-replicate k (replicate 8 false)) (omega arith);
  },
  λ q. test_byte-replicate k (get_bucket q) (get_bit q),
)
