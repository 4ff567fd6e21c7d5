-- ===== src/TransactionManager/Release.antt =====
-- The locks that a transaction holds when it ends, and those that it does not.
use claude_opus.Base.{ℕ, ◌≡◌, ◌≢◌, refl, ◌∙◌, none, List, [], ◌∷◌, arith, ite, if◌then◌else◌}
use claude_opus.Txn.{TransactionState, Transaction, LockDataId, LockDataId-discrete, contains}
use claude_opus.Lock.{LockManager, held_mode, unlock, start_shrinking, unlock_in}
use claude_opus.Lock.Queues.{Compatible, Compatible-remove, held-remove_self}
use claude_opus.Lock.Calls.{requests, requests-unlock, unlock-others}
use claude_opus.Lock.Safety.{unlock-txn_id}
use claude_opus.TransactionManager.{unlock_all}

Compatible-unlock :
    (m : LockManager) (x : Transaction) (id j : LockDataId)
    → ((k : LockDataId) → Compatible (requests m k))
    → Compatible (requests (unlock m x id).manager j)
Compatible-unlock m x id j c =
    ground (arith, requests-unlock m x id j, c j, Compatible-remove x.txn_id (requests m id) (c id))

-- After unlocking, the transaction holds what it held, but for the item.
held-unlock :
    (m : LockManager) (x : Transaction) (id j : LockDataId)
    → ((k : LockDataId) → Compatible (requests m k))
    → held_mode x.txn_id (requests (unlock m x id).manager j)
      ≡ ite (LockDataId-discrete j id) none (held_mode x.txn_id (requests m j))
held-unlock m x id j c =
    ground (arith, requests-unlock m x id j, c id, held-remove_self x.txn_id (requests m id))

-- A transaction that has ended.
abbrev pub ended : TransactionState → Transaction → Transaction
ended st x = record x { lock_set = []; write_set = []; state = st }

unlock-ended :
    (st : TransactionState) (m : LockManager) (x : Transaction) (id : LockDataId)
    → ended st (unlock m x id).txn ≡ ended st x
unfolding unlock start_shrinking unlock_in
unlock-ended st m x id = ground arith

pub unlock_all-ended :
    (st : TransactionState) (ids : List LockDataId) (m : LockManager) (x : Transaction)
    → ended st (unlock_all ids m x).1 ≡ ended st x
unfolding unlock_all
unlock_all-ended st [] m x = refl
unlock_all-ended st (id ∷ ids) m x =
    unlock_all-ended st ids (unlock m x id).manager (unlock m x id).txn ∙ unlock-ended st m x id

-- What the loop leaves of the locks: the transaction has lost those on the items, and no other has
-- lost any.
pub record Released (ids : List LockDataId) (m : LockManager) (x : Transaction) (m' : LockManager)
    : Type 0 where
  pub own :
      (j : LockDataId)
      → held_mode x.txn_id (requests m' j)
        ≡ (if contains j ids then none else held_mode x.txn_id (requests m j))
  pub others :
      (u : ℕ) (j : LockDataId)
      → u ≢ x.txn_id
      → held_mode u (requests m' j) ≡ held_mode u (requests m j)
  pub compatible : (j : LockDataId) → Compatible (requests m' j)

pub unlock_all-Released :
    (ids : List LockDataId) (m : LockManager) (x : Transaction)
    → ((k : LockDataId) → Compatible (requests m k))
    → Released ids m x (unlock_all ids m x).0
unfolding unlock_all contains
unlock_all-Released [] m x c = record { own = λ j. refl; others = λ u j d. refl; compatible = c }
unlock_all-Released (id ∷ ids) m x c =
    let c1 = λ (j : LockDataId). Compatible-unlock m x id j c in
    let r = unlock_all-Released ids (unlock m x id).manager (unlock m x id).txn c1 in
    let same = unlock-txn_id m x id in
    record {
      own = λ j. ground (arith, r.own j, same, held-unlock m x id j c);
      others = λ u j d. ground (arith, r.others u j, same, unlock-others m x id j u d);
      compatible = r.compatible;
    }
