-- ===== src/Lock/Queues.antt =====
-- One request queue: when it is compatible, and what the operations on it keep.
use claude_opus.Base.{ℕ, ◌≡◌, refl, ◌≢◌, Bool, true, false, none, some, List, [], ◌∷◌, ◌++◌, arith}
use claude_opus.Lock.{
  LockMode, is_compatible, LockRequest, held_mode, set_mode, conflicts, remove_request,
}
use claude_opus.Lock.Modes.{is_compatible_comm}

-- Every request is another transaction's, and the mode is compatible with it.
abbrev pub Fits : ℕ → LockMode → List LockRequest → Type 0
Fits t mode [] = Unit {0}
Fits t mode (r ∷ rs) = (r.txn_id ≢ t) × (is_compatible mode r.lock_mode ≡ true) × Fits t mode rs

-- One request for each transaction, and any two compatible.
abbrev pub Compatible : List LockRequest → Type 0
Compatible [] = Unit {0}
Compatible (r ∷ rs) = Fits r.txn_id r.lock_mode rs × Compatible rs

Fits-remove :
    (t u : ℕ) (mode : LockMode) (rs : List LockRequest)
    → Fits u mode rs
    → Fits u mode (remove_request t rs)
unfolding remove_request
Fits-remove t u mode [] f = tt
Fits-remove t u mode (r ∷ rs) f = ground (arith, Fits-remove t u mode rs f.2)

pub Compatible-remove :
    (t : ℕ) (rs : List LockRequest) → Compatible rs → Compatible (remove_request t rs)
unfolding remove_request
Compatible-remove t [] c = tt
Compatible-remove t (r ∷ rs) c =
    ground (arith, Compatible-remove t rs c.1, Fits-remove t r.txn_id r.lock_mode rs c.0)

Fits-set :
    (t u : ℕ) (mode other : LockMode) (rs : List LockRequest)
    → t ≢ u
    → is_compatible other mode ≡ true
    → Fits u other rs
    → Fits u other (set_mode t mode rs)
unfolding set_mode
Fits-set t u mode other [] h k f = tt
Fits-set t u mode other (r ∷ rs) h k f = ground (arith, Fits-set t u mode other rs h k f.2)

Fits-no_conflict :
    (t : ℕ) (mode other : LockMode) (rs : List LockRequest)
    → Fits t other rs
    → conflicts t mode rs ≡ false
    → Fits t mode rs
unfolding conflicts
Fits-no_conflict t mode other [] f h = tt
Fits-no_conflict t mode other (r ∷ rs) f h = ground (arith, Fits-no_conflict t mode other rs f.2)

pub Compatible-set :
    (t : ℕ) (mode : LockMode) (rs : List LockRequest)
    → conflicts t mode rs ≡ false
    → Compatible rs
    → Compatible (set_mode t mode rs)
unfolding set_mode conflicts
Compatible-set t mode [] h c = tt
Compatible-set t mode (r ∷ rs) h c = ground (
  arith,
  Fits-no_conflict r.txn_id mode r.lock_mode rs c.0,
  Fits-set t r.txn_id mode r.lock_mode rs,
  is_compatible_comm mode r.lock_mode,
  Compatible-set t mode rs,
)

Fits-append :
    (u t : ℕ) (other mode : LockMode) (g : Bool) (rs : List LockRequest)
    → t ≢ u
    → is_compatible other mode ≡ true
    → Fits u other rs
    → Fits u other (rs ++ record { txn_id = t; lock_mode = mode; granted = g } ∷ [])
Fits-append u t other mode g [] h k f = (h, k, tt)
Fits-append u t other mode g (r ∷ rs) h k f = (f.0, f.1, Fits-append u t other mode g rs h k f.2)

pub Compatible-append :
    (t : ℕ) (mode : LockMode) (g : Bool) (rs : List LockRequest)
    → held_mode t rs ≡ none
    → conflicts t mode rs ≡ false
    → Compatible rs
    → Compatible (rs ++ record { txn_id = t; lock_mode = mode; granted = g } ∷ [])
unfolding held_mode conflicts
Compatible-append t mode g [] n h c = (tt, tt)
Compatible-append t mode g (r ∷ rs) n h c = ground (
  arith,
  Fits-append r.txn_id t r.lock_mode mode g rs,
  is_compatible_comm mode r.lock_mode,
  Compatible-append t mode g rs,
)

-- Who holds what after each change of the queue.
pub held-set_self :
    (t : ℕ) (mode : LockMode) (rs : List LockRequest)
    → held_mode t rs ≢ none
    → held_mode t (set_mode t mode rs) ≡ some mode
unfolding held_mode set_mode
held-set_self t mode [] h = absurd (h refl)
held-set_self t mode (r ∷ rs) h = ground (arith, held-set_self t mode rs)

pub held-set_ne :
    (t u : ℕ) (mode : LockMode) (rs : List LockRequest)
    → u ≢ t
    → held_mode u (set_mode t mode rs) ≡ held_mode u rs
unfolding held_mode set_mode
held-set_ne t u mode [] h = refl
held-set_ne t u mode (r ∷ rs) h = ground (arith, held-set_ne t u mode rs)

pub held-append_self :
    (t : ℕ) (mode : LockMode) (g : Bool) (rs : List LockRequest)
    → held_mode t rs ≡ none
    → held_mode t (rs ++ record { txn_id = t; lock_mode = mode; granted = g } ∷ []) ≡ some mode
unfolding held_mode
held-append_self t mode g [] h = ground arith
held-append_self t mode g (r ∷ rs) h = ground (arith, held-append_self t mode g rs)

pub held-append_ne :
    (t u : ℕ) (mode : LockMode) (g : Bool) (rs : List LockRequest)
    → u ≢ t
    → held_mode u (rs ++ record { txn_id = t; lock_mode = mode; granted = g } ∷ []) ≡ held_mode u rs
unfolding held_mode
held-append_ne t u mode g [] h = ground arith
held-append_ne t u mode g (r ∷ rs) h = ground (arith, held-append_ne t u mode g rs)

held_absent : (t : ℕ) (m : LockMode) (rs : List LockRequest) → Fits t m rs → held_mode t rs ≡ none
unfolding held_mode
held_absent t m [] f = refl
held_absent t m (r ∷ rs) f = ground (arith, held_absent t m rs f.2)

pub held-remove_self :
    (t : ℕ) (rs : List LockRequest) → Compatible rs → held_mode t (remove_request t rs) ≡ none
unfolding held_mode remove_request
held-remove_self t [] c = refl
held-remove_self t (r ∷ rs) c =
    ground (arith, held_absent r.txn_id r.lock_mode rs c.0, held-remove_self t rs c.1)

pub held-remove_ne :
    (t u : ℕ) (rs : List LockRequest) → u ≢ t → held_mode u (remove_request t rs) ≡ held_mode u rs
unfolding held_mode remove_request
held-remove_ne t u [] h = refl
held-remove_ne t u (r ∷ rs) h = ground (arith, held-remove_ne t u rs)

Fits-held :
    (t u : ℕ) (mode m : LockMode) (rs : List LockRequest)
    → Fits u mode rs
    → held_mode t rs ≡ some m
    → (u ≢ t) × (is_compatible mode m ≡ true)
unfolding held_mode
Fits-held t u mode m [] f h = cc
Fits-held t u mode m (r ∷ rs) f h = ground (arith, Fits-held t u mode m rs f.2)

-- Two transactions that hold locks on one item hold compatible ones.
pub Compatible-held :
    (t u : ℕ) (a b : LockMode) (rs : List LockRequest)
    → Compatible rs
    → t ≢ u
    → held_mode t rs ≡ some a
    → held_mode u rs ≡ some b
    → is_compatible a b ≡ true
unfolding held_mode
Compatible-held t u a b [] c d h k = cc
Compatible-held t u a b (r ∷ rs) c d h k = ground (
  arith,
  Fits-held t r.txn_id r.lock_mode a rs c.0,
  Fits-held u r.txn_id r.lock_mode b rs c.0,
  is_compatible_comm a b,
  Compatible-held t u a b rs c.1,
)

pub remove_absent :
    (t : ℕ) (rs : List LockRequest) → held_mode t rs ≡ none → remove_request t rs ≡ rs
unfolding held_mode remove_request
remove_absent t [] h = refl
remove_absent t (r ∷ rs) h = ground (arith, remove_absent t rs)
