-- ===== src/Lock/Tests.antt =====
-- Two transactions and one table.
use claude_opus.Base.{◌≡◌, refl, pos, ℕ_discrete, ℤ-discrete, true, some, [], ◌∷◌, arith, ◌⊎◌}
use claude_opus.Txn.{
  new_transaction, Transaction, TransactionState, TransactionState-discrete, LockDataId,
  LockDataId-discrete, Rid-discrete, table_id, AbortReason, contains, insert, erase,
}
use claude_opus.Lock.{
  LockMode, LockMode-discrete, is_compatible, is_stronger, LockRequest, LockRequestQueue,
  LockManager, held_mode, conflicts, Outcome, acquire_lock, unlock, update_group_lock_mode, put,
  upgrade, new_request, note, flags, choose, set_mode, remove_request, shrink,
}
use claude_opus.Lock.Calls.{requests, acquire-grants, acquire-aborts, acquire-others}
use claude_opus.Lock.Safety.{
  System, Reach, here, next, acquires, start, after, holds, Reach-compatible, Reach-lock_set,
}

program : Unit {0}
unfolding acquire_lock unlock upgrade new_request put held_mode conflicts is_compatible is_stronger
    update_group_lock_mode note flags choose set_mode remove_request shrink contains insert erase
    ℕ_discrete ℤ-discrete Rid-discrete LockDataId-discrete LockMode-discrete
    TransactionState-discrete
program = tt

abbrev item : LockDataId
item = table_id (pos 3)

abbrev empty : LockManager
empty = start.manager

one : Transaction
one = new_transaction 1 0

two : Transaction
two = record (new_transaction 2 0) { state = TransactionState.growing }

-- Transaction 1 has an intention-exclusive lock.
locked : LockManager
locked = (acquire_lock empty one item LockMode.intention_exclusive).manager

acquire-grants_example :
    (true ≡ true)
    × ((held : LockMode) × (held_mode 1
            (requests (acquire_lock empty one item LockMode.intention_exclusive).manager item)
          ≡ some held)
        × (is_stronger held LockMode.intention_exclusive ≡ true))
unfolding program one
acquire-grants_example = acquire-grants empty one item LockMode.intention_exclusive true refl

acquire-others_example :
    held_mode 1 (requests (acquire_lock locked two item LockMode.shared).manager item)
    ≡ held_mode 1 (requests locked item)
unfolding program one two locked
acquire-others_example =
    acquire-others locked two item item LockMode.shared 1 (λ e. absurd (omega arith))

acquire-aborts_example :
    ((j : LockDataId)
      → requests (acquire_lock locked two item LockMode.shared).manager j ≡ requests locked j)
    × ((acquire_lock locked two item LockMode.shared).txn.lock_set ≡ two.lock_set)
    × (((two.state ≡ TransactionState.shrinking)
          × (AbortReason.deadlock_prevention ≡ AbortReason.lock_on_shirinking))
        ⊎ ((conflicts two.txn_id LockMode.shared (requests locked item) ≡ true)
            × (AbortReason.deadlock_prevention ≡ AbortReason.deadlock_prevention)))
unfolding program one two locked
acquire-aborts_example =
    acquire-aborts locked two item LockMode.shared AbortReason.deadlock_prevention refl

abbrev call_one : System
call_one = after start 1 (acquire_lock start.manager (start.txns 1) item LockMode.shared)

both : System
both = after call_one 2 (acquire_lock call_one.manager (call_one.txns 2) item LockMode.shared)

both-Reach : Reach start both
unfolding both
both-Reach =
    next (next here (acquires start 1 item LockMode.shared))
      (acquires call_one 2 item LockMode.shared)

Reach-compatible_example : is_compatible LockMode.shared LockMode.shared ≡ true
unfolding program both
Reach-compatible_example =
    Reach-compatible both 1 2 item LockMode.shared LockMode.shared both-Reach
      (λ e. absurd (omega arith)) refl refl

Reach-lock_set_example :
    contains item (both.txns 2).lock_set ≡ holds (held_mode 2 (requests both.manager item))
Reach-lock_set_example = Reach-lock_set both 2 item both-Reach

abbrev mixed : LockRequestQueue
mixed = record {
  request_queue =
      record { txn_id = 1; lock_mode = LockMode.intention_shared; granted = true }
      ∷ record { txn_id = 2; lock_mode = LockMode.s_ix; granted = true }
      ∷ [];
  group_lock_mode = claude_opus.Lock.GroupLockMode.non_lock;
}
