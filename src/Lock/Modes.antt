-- ===== src/Lock/Modes.antt =====
-- The table of lock modes: `is_compatible`, `is_stronger` and the group mode.
use claude_opus.Base.{ℕ, ◌≤◌, ◌≡◌, refl, ◌↔◌, true, List, [], ◌∷◌, arith}
use claude_opus.Lock.{
  LockMode, is_compatible, is_stronger, GroupLockMode, LockRequest, LockRequestQueue, Flags,
  no_flags, note, flags, choose, update_group_lock_mode,
}

pub is_compatible_comm : (a b : LockMode) → is_compatible a b ≡ is_compatible b a
unfolding is_compatible
is_compatible_comm LockMode.shared b = ground arith
is_compatible_comm LockMode.exlucsive b = ground arith
is_compatible_comm LockMode.intention_shared b = ground arith
is_compatible_comm LockMode.intention_exclusive b = ground arith
is_compatible_comm LockMode.s_ix b = ground arith

pub is_stronger_refl : (a : LockMode) → is_stronger a a ≡ true
unfolding is_stronger
is_stronger_refl a = ground arith

stronger_admits :
    (a b r : LockMode)
    → is_stronger a b ≡ true
    → is_compatible r a ≡ true
    → is_compatible r b ≡ true
unfolding is_stronger is_compatible
stronger_admits LockMode.shared b r = ground arith
stronger_admits LockMode.exlucsive b r = ground arith
stronger_admits LockMode.intention_shared b r = ground arith
stronger_admits LockMode.intention_exclusive b r = ground arith
stronger_admits LockMode.s_ix b r = ground arith

-- What a mode lets another transaction hold beside it, tried mode by mode.
abbrev Admits : LockMode → LockMode → Type 0
Admits a b = (r : LockMode) → is_compatible r a ≡ true → is_compatible r b ≡ true

Admits-stronger : (a b : LockMode) → Admits a b → is_stronger a b ≡ true
unfolding is_stronger is_compatible
Admits-stronger LockMode.shared b h = ground (arith, h LockMode.shared, h LockMode.intention_shared)
Admits-stronger LockMode.exlucsive b h = ground arith
Admits-stronger LockMode.intention_shared b h = ground (
  arith,
  h LockMode.shared,
  h LockMode.intention_exclusive,
  h LockMode.intention_shared,
  h LockMode.s_ix,
)
Admits-stronger LockMode.intention_exclusive b h =
    ground (arith, h LockMode.intention_exclusive, h LockMode.intention_shared)
Admits-stronger LockMode.s_ix b h = ground (arith, h LockMode.intention_shared)

-- One mode is stronger than another exactly when every request that is compatible with the first
-- is compatible with the second.
pub is_stronger_iff :
    (a b : LockMode)
    → (is_stronger a b ≡ true)
      ↔ ((r : LockMode) → is_compatible r a ≡ true → is_compatible r b ≡ true)
is_stronger_iff a b = (λ s r. stronger_admits a b r s, Admits-stronger a b)

-- How exclusive a mode is, and the group mode that stands for it.
abbrev pub rank : LockMode → ℕ
rank LockMode.intention_shared = 1
rank LockMode.intention_exclusive = 2
rank LockMode.shared = 3
rank LockMode.s_ix = 4
rank LockMode.exlucsive = 5

abbrev pub group_rank : GroupLockMode → ℕ
group_rank GroupLockMode.non_lock = 0
group_rank GroupLockMode.is = 1
group_rank GroupLockMode.ix = 2
group_rank GroupLockMode.s = 3
group_rank GroupLockMode.six = 4
group_rank GroupLockMode.x = 5

abbrev max_of : ℕ → ℕ → ℕ
max_of a b = Prim.Native.Nat.max a b

abbrev pub top_rank : List LockRequest → ℕ
top_rank [] = 0
top_rank (r ∷ rs) = max_of (rank r.lock_mode) (top_rank rs)

-- The rank that the flags stand for.
flag_rank : Flags → ℕ
unfolding choose
flag_rank f = group_rank (choose f GroupLockMode.non_lock)

flag_rank-note : (f : Flags) (m : LockMode) → flag_rank (note f m) ≡ max_of (rank m) (flag_rank f)
unfolding flag_rank note
flag_rank-note f LockMode.exlucsive = ground arith
flag_rank-note f LockMode.s_ix = ground arith
flag_rank-note f LockMode.shared = ground arith
flag_rank-note f LockMode.intention_exclusive = ground arith
flag_rank-note f LockMode.intention_shared = ground arith

flag_rank-flags :
    (f : Flags) (rs : List LockRequest)
    → flag_rank (flags f rs) ≡ max_of (top_rank rs) (flag_rank f)
unfolding flags
flag_rank-flags f [] = ground arith
flag_rank-flags f (r ∷ rs) =
    omega (arith, flag_rank-flags (note f r.lock_mode) rs, flag_rank-note f r.lock_mode)

flag_rank-none : flag_rank no_flags ≡ 0
unfolding flag_rank
flag_rank-none = refl

choose_fresh :
    (f : Flags) (old : GroupLockMode) → 1 ≤ flag_rank f → group_rank (choose f old) ≡ flag_rank f
unfolding flag_rank choose
choose_fresh f old = ground arith

rank_pos : (m : LockMode) → 1 ≤ rank m
rank_pos m = ground arith

group_mode_of :
    (rs : List LockRequest) (g : GroupLockMode)
    → group_rank
        (update_group_lock_mode
          (record { request_queue = rs; group_lock_mode = g })).group_lock_mode
      ≡ top_rank rs
unfolding update_group_lock_mode
group_mode_of [] g = refl
group_mode_of (r ∷ rs) g =
    let top = flag_rank-flags no_flags (r ∷ rs) in
    let none_yet : flag_rank no_flags ≡ 0 = flag_rank-none in
    omega (arith, top, none_yet, rank_pos r.lock_mode, choose_fresh (flags no_flags (r ∷ rs)) g)

-- The group mode of an updated queue ranks as its most exclusive request, and is `NON_LOCK` for an
-- empty queue.
pub group_mode-update :
    (q : LockRequestQueue)
    → group_rank (update_group_lock_mode q).group_lock_mode ≡ top_rank q.request_queue
group_mode-update q = group_mode_of q.request_queue q.group_lock_mode
