-- ===== src/Lock.antt =====
-- The lock manager: transaction/concurrency/lock_manager.h and lock_manager.cpp.
-- A call takes the manager and the transaction, and returns both with its outcome: what it returns,
-- or the reason of the exception it throws. The table maps a data item to its request queue; the
-- mutex makes each call one step.
pub mod Modes
pub mod Queues
pub mod Calls
pub mod Safety
mod Tests
use claude_opus.Base.{
  ℕ, ℤ, ℕ_discrete, Bool, true, false, not, ◌&&◌, ◌||◌, if◌then◌else◌, ◌==◌, Option, none, some,
  List, [], ◌∷◌, ◌++◌, ite,
}
use claude_opus.Txn.{
  Rid, Transaction, TransactionState, TransactionState-discrete, LockDataId, LockDataId-discrete,
  table_id, record_id, AbortReason, insert, erase,
}

pub data LockMode : Type 0 where
  shared exlucsive intention_shared intention_exclusive s_ix : LockMode

pub data GroupLockMode : Type 0 where
  non_lock is ix s x six : GroupLockMode

unfoldable pub LockMode-discrete : Discrete LockMode
LockMode-discrete = hlevel

abbrev mode_eq : LockMode → LockMode → Bool
mode_eq a b = ite (LockMode-discrete a b) true false

abbrev state_eq : TransactionState → TransactionState → Bool
state_eq a b = ite (TransactionState-discrete a b) true false

pub is_compatible : LockMode → LockMode → Bool
unfolding LockMode-discrete
is_compatible req held =
    if mode_eq req LockMode.intention_shared
    then not (mode_eq held LockMode.exlucsive)
    else if mode_eq req LockMode.intention_exclusive
    then mode_eq held LockMode.intention_shared || mode_eq held LockMode.intention_exclusive
    else if mode_eq req LockMode.shared
    then mode_eq held LockMode.intention_shared || mode_eq held LockMode.shared
    else if mode_eq req LockMode.s_ix
    then mode_eq held LockMode.intention_shared
    else false

pub is_stronger : LockMode → LockMode → Bool
unfolding LockMode-discrete
is_stronger held req =
    if mode_eq held LockMode.exlucsive
    then true
    else if mode_eq held req
    then true
    else if mode_eq held LockMode.s_ix
    then mode_eq req LockMode.shared
      || mode_eq req LockMode.intention_shared
      || mode_eq req LockMode.intention_exclusive
    else if mode_eq held LockMode.shared
    then mode_eq req LockMode.intention_shared
    else if mode_eq held LockMode.intention_exclusive
    then mode_eq req LockMode.intention_shared
    else false

pub record LockRequest : Type 0 where
  pub txn_id : ℕ
  pub lock_mode : LockMode
  pub granted : Bool

pub record LockRequestQueue : Type 0 where
  pub request_queue : List LockRequest
  pub group_lock_mode : GroupLockMode

abbrev pub empty_queue : LockRequestQueue
empty_queue = record { request_queue = []; group_lock_mode = GroupLockMode.non_lock }

pub record LockManager : Type 0 where
  pub lock_table : LockDataId → Option LockRequestQueue

-- The five flags of `update_group_lock_mode`.
pub record Flags : Type 0 where
  pub has_x : Bool
  pub has_six : Bool
  pub has_s : Bool
  pub has_ix : Bool
  pub has_is : Bool

abbrev no_flags : Flags
no_flags = record { has_x = false; has_six = false; has_s = false; has_ix = false; has_is = false }

pub note : Flags → LockMode → Flags
note f LockMode.exlucsive = record f { has_x = true }
note f LockMode.s_ix = record f { has_six = true }
note f LockMode.shared = record f { has_s = true }
note f LockMode.intention_exclusive = record f { has_ix = true }
note f LockMode.intention_shared = record f { has_is = true }

pub flags : Flags → List LockRequest → Flags
flags f [] = f
flags f (r ∷ rs) = flags (note f r.lock_mode) rs

pub choose : Flags → GroupLockMode → GroupLockMode
choose f old =
    if f.has_x
    then GroupLockMode.x
    else if f.has_six
    then GroupLockMode.six
    else if f.has_s
    then GroupLockMode.s
    else if f.has_ix
    then GroupLockMode.ix
    else if f.has_is
    then GroupLockMode.is
    else old

pub update_group_lock_mode : LockRequestQueue → LockRequestQueue
update_group_lock_mode q = elim q.request_queue [
  | [] ↦ record q { group_lock_mode = GroupLockMode.non_lock }
  | r ∷ rs ↦ record q { group_lock_mode = choose (flags no_flags (r ∷ rs)) q.group_lock_mode }
]

-- The mode of the transaction's first request in the queue.
unfoldable pub held_mode : ℕ → List LockRequest → Option LockMode
held_mode t [] = none
held_mode t (r ∷ rs) = ite (ℕ_discrete r.txn_id t) (some r.lock_mode) (held_mode t rs)

-- `held_req->lock_mode_ = lock_mode`.
pub set_mode : ℕ → LockMode → List LockRequest → List LockRequest
set_mode t mode [] = []
set_mode t mode (r ∷ rs) =
    ite (ℕ_discrete r.txn_id t) (record r { lock_mode = mode } ∷ rs) (r ∷ set_mode t mode rs)

-- Some request of another transaction is not compatible with the mode.
unfoldable pub conflicts : ℕ → LockMode → List LockRequest → Bool
conflicts t mode [] = false
conflicts t mode (r ∷ rs) =
    ite (ℕ_discrete r.txn_id t) (conflicts t mode rs)
      (if is_compatible mode r.lock_mode then conflicts t mode rs else true)

-- `request_queue_.erase(req_it)` at the transaction's first request.
pub remove_request : ℕ → List LockRequest → List LockRequest
remove_request t [] = []
remove_request t (r ∷ rs) = ite (ℕ_discrete r.txn_id t) rs (r ∷ remove_request t rs)

-- `lock_table_[id]`, which makes an empty queue where there is none.
abbrev pub or_empty : Option LockRequestQueue → LockRequestQueue
or_empty none = empty_queue
or_empty (some q) = q

abbrev pub queue_at : LockManager → LockDataId → LockRequestQueue
queue_at m id = or_empty (m.lock_table id)

pub put : LockManager → LockDataId → Option LockRequestQueue → LockManager
put m id q = record { lock_table = λ j. ite (LockDataId-discrete j id) q (m.lock_table j) }

pub data Outcome : Type 0 where
  granted : Bool → Outcome
  abort : AbortReason → Outcome

pub record Call : Type 0 where
  pub manager : LockManager
  pub txn : Transaction
  pub outcome : Outcome

-- The first half of `acquire_lock`, up to the table: a `DEFAULT` transaction begins to grow.
pub start_growing : Transaction → Transaction
unfolding TransactionState-discrete
start_growing txn =
    if state_eq txn.state TransactionState.default
    then record txn { state = TransactionState.growing }
    else txn

pub upgrade : LockManager → Transaction → LockDataId → LockMode → LockMode → Call
upgrade m txn id mode held =
    let q = queue_at m id in
    let opened = put m id (some q) in
    if is_stronger held mode
    then record { manager = opened; txn = txn; outcome = Outcome.granted true }
    else if conflicts txn.txn_id mode q.request_queue
    then record { manager = opened; txn = txn; outcome = abort AbortReason.deadlock_prevention }
    else record {
      manager = put m id (
          some (
            update_group_lock_mode
              (record q { request_queue = set_mode txn.txn_id mode q.request_queue })));
      txn = txn;
      outcome = Outcome.granted true;
    }

pub new_request : LockManager → Transaction → LockDataId → LockMode → Call
new_request m txn id mode =
    let q = queue_at m id in
    if conflicts txn.txn_id mode q.request_queue
    then record {
      manager = put m id (some q);
      txn = txn;
      outcome = abort AbortReason.deadlock_prevention;
    }
    else record {
      manager = put m id (
          some (
            update_group_lock_mode (record q {
              request_queue =
                  q.request_queue
                  ++ record { txn_id = txn.txn_id; lock_mode = mode; granted = true } ∷ [];
            })));
      txn = record txn { lock_set = insert id txn.lock_set };
      outcome = Outcome.granted true;
    }

pub acquire_lock : LockManager → Transaction → LockDataId → LockMode → Call
unfolding TransactionState-discrete start_growing
acquire_lock m txn id mode =
    if state_eq txn.state TransactionState.shrinking
    then record { manager = m; txn = txn; outcome = abort AbortReason.lock_on_shirinking }
    else elim (held_mode txn.txn_id (queue_at m id).request_queue) [
      | some held ↦ upgrade m (start_growing txn) id mode held
      | none ↦ new_request m (start_growing txn) id mode
    ]

pub lock_shared_on_record : LockManager → Transaction → Rid → ℤ → Call
lock_shared_on_record m txn rid fd = acquire_lock m txn (record_id fd rid) LockMode.shared

pub lock_exclusive_on_record : LockManager → Transaction → Rid → ℤ → Call
lock_exclusive_on_record m txn rid fd = acquire_lock m txn (record_id fd rid) LockMode.exlucsive

pub lock_shared_on_table : LockManager → Transaction → ℤ → Call
lock_shared_on_table m txn fd = acquire_lock m txn (table_id fd) LockMode.shared

pub lock_exclusive_on_table : LockManager → Transaction → ℤ → Call
lock_exclusive_on_table m txn fd = acquire_lock m txn (table_id fd) LockMode.exlucsive

pub lock_is_on_table : LockManager → Transaction → ℤ → Call
lock_is_on_table m txn fd = acquire_lock m txn (table_id fd) LockMode.intention_shared

pub lock_ix_on_table : LockManager → Transaction → ℤ → Call
lock_ix_on_table m txn fd = acquire_lock m txn (table_id fd) LockMode.intention_exclusive

-- The state change at the head of `unlock`.
unfoldable pub start_shrinking : Transaction → Transaction
unfolding TransactionState-discrete
start_shrinking txn =
    if state_eq txn.state TransactionState.committed || state_eq txn.state TransactionState.aborted
    then txn
    else record txn { state = TransactionState.shrinking }

-- The queue after a request left it: it is updated, and dropped if it is empty.
pub shrink : LockRequestQueue → Option LockRequestQueue
shrink q = elim q.request_queue [ [] ↦ none | _ ↦ some (update_group_lock_mode q) ]

unfoldable pub unlock_in : LockManager → Transaction → LockDataId → Option LockRequestQueue → Call
unlock_in m txn id none = record { manager = m; txn = txn; outcome = Outcome.granted false }
unlock_in m txn id (some q) = elim (held_mode txn.txn_id q.request_queue) [
  | none ↦ record { manager = m; txn = txn; outcome = Outcome.granted false }
  | some _ ↦ record {
    manager =
        put m id (shrink (record q { request_queue = remove_request txn.txn_id q.request_queue }));
    txn = record txn { lock_set = erase id txn.lock_set };
    outcome = Outcome.granted true;
  }
]

unfoldable pub unlock : LockManager → Transaction → LockDataId → Call
unfolding start_shrinking unlock_in
unlock m txn id = unlock_in m (start_shrinking txn) id (m.lock_table id)
