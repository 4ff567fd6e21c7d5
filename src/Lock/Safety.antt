-- ===== src/Lock/Safety.antt =====
-- Any number of transactions that lock and unlock in any order.
use claude_opus.Base.{
  ℕ, ◌≡◌, refl, sym, subst, ◌≢◌, ℕ_discrete, Bool, true, false, Option, none, some, List, [], ◌∷◌,
  arith, ite,
}
use claude_opus.Txn.{
  new_transaction, Transaction, TransactionState, LockDataId, LockDataId-discrete, contains, insert,
  erase,
}
use claude_opus.Lock.{
  LockMode, is_compatible, LockManager, held_mode, Call, acquire_lock, upgrade, new_request,
  start_growing, start_shrinking, unlock,
}
use claude_opus.Lock.Queues.{Compatible, Compatible-held, Compatible-remove}
use claude_opus.Lock.Calls.{
  requests, after_acquire-Compatible, requests-acquire, requests-unlock, lock_set-acquire,
  lock_set-unlock, acquire-others, unlock-others, keeps_holding, unlock-releases,
}

pub record System : Type 0 where
  pub manager : LockManager
  pub txns : ℕ → Transaction

-- The system after transaction `t` made a call.
abbrev pub after : System → ℕ → Call → System
after s t c = record { manager = c.manager; txns = λ u. ite (ℕ_discrete u t) c.txn (s.txns u) }

abbrev in_state : Transaction → TransactionState → Transaction
in_state txn st = record txn { state = st }

-- The transaction manager changes a transaction's state when it begins and when it ends.
pub data Step : System → System → Type 0 where
  acquires :
      (s : System) (t : ℕ) (id : LockDataId) (mode : LockMode)
      → Step s (after s t (acquire_lock s.manager (s.txns t) id mode))
  unlocks :
      (s : System) (t : ℕ) (id : LockDataId) → Step s (after s t (unlock s.manager (s.txns t) id))
  turns :
      (s : System) (t : ℕ) (st : TransactionState)
      → Step s (record s { txns = λ u. ite (ℕ_discrete u t) (in_state (s.txns u) st) (s.txns u) })

pub data Reach (s : System) : System → Type 0 where
  here : Reach s s
  next : {t u : System} → Reach s t → Step t u → Reach s u

abbrev pub start : System
start = record { manager = record { lock_table = λ _. none }; txns = λ t. new_transaction t 0 }

abbrev pub holds : Option LockMode → Bool
holds none = false
holds (some _) = true

-- Locks on an item are compatible, and a transaction's lock set lists the items it has locked.
pub record IsSafe (s : System) : Type 0 where
  pub ids : (t : ℕ) → (s.txns t).txn_id ≡ t
  pub compatible : (id : LockDataId) → Compatible (requests s.manager id)
  pub lock_sets :
      (t : ℕ) (id : LockDataId)
      → contains id (s.txns t).lock_set ≡ holds (held_mode t (requests s.manager id))

start-IsSafe : IsSafe start
unfolding contains held_mode
start-IsSafe = record { ids = λ t. refl; compatible = λ id. tt; lock_sets = λ t id. refl }

contains-insert :
    (id j : LockDataId) (l : List LockDataId)
    → contains j (insert id l) ≡ ite (LockDataId-discrete id j) true (contains j l)
unfolding contains insert
contains-insert id j l = ground arith

contains-erase :
    (id j : LockDataId) (l : List LockDataId)
    → contains j (erase id l) ≡ ite (LockDataId-discrete id j) false (contains j l)
unfolding contains erase
contains-erase id j [] = ground arith
contains-erase id j (x ∷ l) = ground (arith, contains-erase id j l)

acquire-txn_id :
    (m : LockManager) (txn : Transaction) (id : LockDataId) (mode : LockMode)
    → (acquire_lock m txn id mode).txn.txn_id ≡ txn.txn_id
unfolding acquire_lock upgrade new_request start_growing
acquire-txn_id m txn id mode = ground arith

pub unlock-txn_id :
    (m : LockManager) (txn : Transaction) (id : LockDataId)
    → (unlock m txn id).txn.txn_id ≡ txn.txn_id
unfolding unlock start_shrinking
unlock-txn_id m txn id = ground arith

-- One transaction's lock set and its locks change together.
acquire-lock_set :
    (m : LockManager) (txn : Transaction) (id : LockDataId) (mode : LockMode)
    → ((j : LockDataId) → contains j txn.lock_set ≡ holds (held_mode txn.txn_id (requests m j)))
    → (j : LockDataId)
    → contains j (acquire_lock m txn id mode).txn.lock_set
      ≡ holds (held_mode txn.txn_id (requests (acquire_lock m txn id mode).manager j))
acquire-lock_set m txn id mode h j = ground (
  arith,
  h j,
  h id,
  lock_set-acquire m txn id mode,
  requests-acquire m txn id j mode,
  requests-acquire m txn id id mode,
  contains-insert id j txn.lock_set,
  keeps_holding m txn id mode,
)

unlock-lock_set :
    (m : LockManager) (txn : Transaction) (id : LockDataId)
    → Compatible (requests m id)
    → ((j : LockDataId) → contains j txn.lock_set ≡ holds (held_mode txn.txn_id (requests m j)))
    → (j : LockDataId)
    → contains j (unlock m txn id).txn.lock_set
      ≡ holds (held_mode txn.txn_id (requests (unlock m txn id).manager j))
unlock-lock_set m txn id c h j = ground (
  arith,
  h j,
  h id,
  lock_set-unlock m txn id,
  requests-unlock m txn id j,
  (unlock-releases m txn id c).1,
  contains-erase id j txn.lock_set,
)

acquires-IsSafe :
    (s : System) (t : ℕ) (id : LockDataId) (mode : LockMode)
    → IsSafe s
    → IsSafe (after s t (acquire_lock s.manager (s.txns t) id mode))
acquires-IsSafe s t id mode v = record {
  ids = λ u. ground (arith, v.ids u, v.ids t, acquire-txn_id s.manager (s.txns t) id mode);
  compatible = λ j. ground (
    arith,
    v.compatible j,
    after_acquire-Compatible (s.txns t) mode (requests s.manager id) (v.compatible id),
    requests-acquire s.manager (s.txns t) id j mode,
  );
  lock_sets = λ u j. ground (
    arith,
    v.lock_sets u j,
    v.ids t,
    acquire-lock_set s.manager (s.txns t) id mode
        (λ k.
          subst (λ n. contains k (s.txns t).lock_set ≡ holds (held_mode n (requests s.manager k)))
            (sym (v.ids t)) (v.lock_sets t k))
        j,
    acquire-others s.manager (s.txns t) id j mode u,
  );
}

unlocks-IsSafe :
    (s : System) (t : ℕ) (id : LockDataId)
    → IsSafe s
    → IsSafe (after s t (unlock s.manager (s.txns t) id))
unlocks-IsSafe s t id v = record {
  ids = λ u. ground (arith, v.ids u, v.ids t, unlock-txn_id s.manager (s.txns t) id);
  compatible = λ j. ground (
    arith,
    v.compatible j,
    Compatible-remove (s.txns t).txn_id (requests s.manager id) (v.compatible id),
    requests-unlock s.manager (s.txns t) id j,
  );
  lock_sets = λ u j. ground (
    arith,
    v.lock_sets u j,
    v.ids t,
    unlock-lock_set s.manager (s.txns t) id (v.compatible id)
        (λ k.
          subst (λ n. contains k (s.txns t).lock_set ≡ holds (held_mode n (requests s.manager k)))
            (sym (v.ids t)) (v.lock_sets t k))
        j,
    unlock-others s.manager (s.txns t) id j u,
  );
}

-- No call breaks the agreement of the table with itself and with the lock sets.
pub Step-IsSafe : {s u : System} → Step s u → IsSafe s → IsSafe u
Step-IsSafe (acquires s t id mode) v = acquires-IsSafe s t id mode v
Step-IsSafe (unlocks s t id) v = unlocks-IsSafe s t id v
Step-IsSafe (turns s t st) v = record {
  ids = λ u. ground (arith, v.ids u);
  compatible = v.compatible;
  lock_sets = λ u j. ground (arith, v.lock_sets u j);
}

Reach-IsSafe : {s u : System} → IsSafe s → Reach s u → IsSafe u
Reach-IsSafe v here = v
Reach-IsSafe v (next r st) = Step-IsSafe st (Reach-IsSafe v r)

-- In every state that calls of any transactions lead to from an empty table, two transactions that
-- hold locks on one item hold compatible locks.
pub Reach-compatible :
    (s : System) (t u : ℕ) (id : LockDataId) (a b : LockMode)
    → Reach start s
    → t ≢ u
    → held_mode t (requests s.manager id) ≡ some a
    → held_mode u (requests s.manager id) ≡ some b
    → is_compatible a b ≡ true
Reach-compatible s t u id a b r d h k =
    Compatible-held t u a b _ ((Reach-IsSafe start-IsSafe r).compatible id) d h k

-- In every state that calls lead to from an empty table a transaction's lock set lists exactly the items that it has a lock on.
pub Reach-lock_set :
    (s : System) (t : ℕ) (id : LockDataId)
    → Reach start s
    → contains id (s.txns t).lock_set ≡ holds (held_mode t (requests s.manager id))
Reach-lock_set s t id r = (Reach-IsSafe start-IsSafe r).lock_sets t id
