-- ===== src/Lock/Calls.antt =====
-- What `acquire_lock` and `unlock` do to the table and to the transaction, branch by branch.
use claude_opus.Base.{
  ℕ, ◌≡◌, ◌≢◌, ◌⊎◌, Bool, true, false, Option, none, some, List, [], ◌∷◌, ◌++◌, arith, ite,
}
use claude_opus.Txn.{
  Transaction, TransactionState, TransactionState-discrete, LockDataId, LockDataId-discrete,
  AbortReason, insert, erase,
}
use claude_opus.Lock.{
  LockMode, is_stronger, LockRequest, LockRequestQueue, LockManager, queue_at, or_empty, held_mode,
  set_mode, conflicts, remove_request, update_group_lock_mode, put, Outcome, start_growing, upgrade,
  new_request, acquire_lock, start_shrinking, shrink, unlock,
}
use claude_opus.Lock.Modes.{is_stronger_refl}
use claude_opus.Lock.Queues.{
  Compatible, Compatible-set, Compatible-append, held-set_self, held-append_self, held-set_ne,
  held-append_ne, held-remove_self, held-remove_ne, remove_absent,
}

-- The requests on an item: none where the table has no queue.
abbrev pub requests : LockManager → LockDataId → List LockRequest
requests m id = (queue_at m id).request_queue

request_queue-update :
    (q : LockRequestQueue) → (update_group_lock_mode q).request_queue ≡ q.request_queue
unfolding update_group_lock_mode
request_queue-update q = ground arith

request_queue-shrink :
    (q : LockRequestQueue) → (or_empty (shrink q)).request_queue ≡ q.request_queue
unfolding shrink
request_queue-shrink q = ground (arith, request_queue-update q)

-- The queue of the item that a successful or failing `acquire_lock` leaves.
unfoldable pub after_acquire : Transaction → LockMode → List LockRequest → List LockRequest
unfolding TransactionState-discrete
after_acquire txn mode rs =
    ite (TransactionState-discrete txn.state TransactionState.shrinking) rs
      (elim (conflicts txn.txn_id mode rs) [
        | true ↦ rs
        | false ↦ elim (held_mode txn.txn_id rs) [
          | some held ↦ elim (is_stronger held mode) [
            | true ↦ rs
            | false ↦ set_mode txn.txn_id mode rs
          ]
          | none ↦ rs ++ record { txn_id = txn.txn_id; lock_mode = mode; granted = true } ∷ []
        ]
      ])

-- `acquire_lock` changes the queue of its own item only.
pub requests-acquire :
    (m : LockManager) (txn : Transaction) (id j : LockDataId) (mode : LockMode)
    → requests (acquire_lock m txn id mode).manager j
      ≡ ite (LockDataId-discrete j id) (after_acquire txn mode (requests m id)) (requests m j)
unfolding acquire_lock upgrade new_request put after_acquire
requests-acquire m txn id j mode = ground (
  arith,
  request_queue-update
      (record (queue_at m id) { request_queue = set_mode txn.txn_id mode (requests m id) }),
  request_queue-update (record (queue_at m id) {
    request_queue =
        requests m id ++ record { txn_id = txn.txn_id; lock_mode = mode; granted = true } ∷ [];
  }),
)

pub after_acquire-Compatible :
    (txn : Transaction) (mode : LockMode) (rs : List LockRequest)
    → Compatible rs
    → Compatible (after_acquire txn mode rs)
unfolding after_acquire
after_acquire-Compatible txn mode rs c =
    ground (arith, Compatible-set txn.txn_id mode rs, Compatible-append txn.txn_id mode true rs)

-- The mode that a granted request leaves the transaction with.
abbrev granted_mode : LockMode → Option LockMode → LockMode
granted_mode mode none = mode
granted_mode mode (some held) = elim (is_stronger held mode) [ true ↦ held | false ↦ mode ]

granted_held :
    (m : LockManager) (txn : Transaction) (id : LockDataId) (mode : LockMode) (b : Bool)
    → (acquire_lock m txn id mode).outcome ≡ Outcome.granted b
    → held_mode txn.txn_id (requests (acquire_lock m txn id mode).manager id)
      ≡ some (granted_mode mode (held_mode txn.txn_id (requests m id)))
unfolding acquire_lock upgrade new_request put
granted_held m txn id mode b h = ground (
  arith,
  request_queue-update
      (record (queue_at m id) { request_queue = set_mode txn.txn_id mode (requests m id) }),
  request_queue-update (record (queue_at m id) {
    request_queue =
        requests m id ++ record { txn_id = txn.txn_id; lock_mode = mode; granted = true } ∷ [];
  }),
  held-set_self txn.txn_id mode (requests m id),
  held-append_self txn.txn_id mode true (requests m id),
)

granted_mode-stronger :
    (mode : LockMode) (o : Option LockMode) → is_stronger (granted_mode mode o) mode ≡ true
granted_mode-stronger mode o = ground (arith, is_stronger_refl mode)

-- A request that is granted returns true and leaves the transaction with a lock on the item that is
-- at least as strong as the mode it asked for.
pub acquire-grants :
    (m : LockManager) (txn : Transaction) (id : LockDataId) (mode : LockMode) (b : Bool)
    → (acquire_lock m txn id mode).outcome ≡ Outcome.granted b
    → (b ≡ true)
      × ((held : LockMode) × (held_mode txn.txn_id
              (requests (acquire_lock m txn id mode).manager id)
            ≡ some held)
          × (is_stronger held mode ≡ true))
unfolding acquire_lock upgrade new_request
acquire-grants m txn id mode b h =
    let got = granted_mode mode (held_mode txn.txn_id (requests m id)) in
    (ground arith, (got, granted_held m txn id mode b h, granted_mode-stronger mode _))

-- No request, granted or refused, changes what another transaction holds on any item.
pub acquire-others :
    (m : LockManager) (txn : Transaction) (id j : LockDataId) (mode : LockMode) (u : ℕ)
    → u ≢ txn.txn_id
    → held_mode u (requests (acquire_lock m txn id mode).manager j) ≡ held_mode u (requests m j)
unfolding after_acquire
acquire-others m txn id j mode u h = ground (
  arith,
  requests-acquire m txn id j mode,
  held-set_ne txn.txn_id u mode (requests m id),
  held-append_ne txn.txn_id u mode true (requests m id),
)

-- A request that is refused changes no queue and no lock set. It is refused because the transaction
-- is shrinking, or because another transaction holds an incompatible lock.
pub acquire-aborts :
    (m : LockManager) (txn : Transaction) (id : LockDataId) (mode : LockMode) (r : AbortReason)
    → (acquire_lock m txn id mode).outcome ≡ Outcome.abort r
    → ((j : LockDataId) → requests (acquire_lock m txn id mode).manager j ≡ requests m j)
      × ((acquire_lock m txn id mode).txn.lock_set ≡ txn.lock_set)
      × (((txn.state ≡ TransactionState.shrinking) × (r ≡ AbortReason.lock_on_shirinking))
          ⊎ ((conflicts txn.txn_id mode (requests m id) ≡ true)
              × (r ≡ AbortReason.deadlock_prevention)))
unfolding acquire_lock upgrade new_request put start_growing
acquire-aborts m txn id mode r h = (λ j. ground arith, ground arith, ground arith)

-- Two-phase locking: once a running transaction has released a lock, it gets no other.
pub unlock-then_acquire :
    (m m' : LockManager) (txn : Transaction) (id j : LockDataId) (mode : LockMode)
    → txn.state ≢ TransactionState.committed
    → txn.state ≢ TransactionState.aborted
    → let after = acquire_lock m' (unlock m txn id).txn j mode in
      (after.outcome ≡ Outcome.abort AbortReason.lock_on_shirinking) × (after.manager ≡ m')
unfolding acquire_lock unlock
unlock-then_acquire m m' txn id j mode h k = ground arith

pub requests-unlock :
    (m : LockManager) (txn : Transaction) (id j : LockDataId)
    → requests (unlock m txn id).manager j
      ≡ ite (LockDataId-discrete j id) (remove_request txn.txn_id (requests m id)) (requests m j)
unfolding unlock put remove_request
requests-unlock m txn id j = ground (
  arith,
  remove_absent txn.txn_id (requests m id),
  request_queue-shrink
      (record (queue_at m id) { request_queue = remove_request txn.txn_id (requests m id) }),
)

unlock-outcome :
    (m : LockManager) (txn : Transaction) (id : LockDataId)
    → (unlock m txn id).outcome
      ≡ Outcome.granted
          (elim (held_mode txn.txn_id (requests m id)) [ none ↦ false | some _ ↦ true ])
unfolding unlock held_mode
unlock-outcome m txn id = ground arith

-- `unlock` says whether the transaction held a lock on the item; either way it holds none
-- afterwards, and no other transaction's lock on any item changes.
pub unlock-releases :
    (m : LockManager) (txn : Transaction) (id : LockDataId)
    → Compatible (requests m id)
    → ((unlock m txn id).outcome
        ≡ Outcome.granted
            (elim (held_mode txn.txn_id (requests m id)) [ none ↦ false | some _ ↦ true ]))
      × (held_mode txn.txn_id (requests (unlock m txn id).manager id) ≡ none)
unlock-releases m txn id c = (
  unlock-outcome m txn id,
  ground (arith, requests-unlock m txn id id, held-remove_self txn.txn_id (requests m id)),
)

pub unlock-others :
    (m : LockManager) (txn : Transaction) (id j : LockDataId) (u : ℕ)
    → u ≢ txn.txn_id
    → held_mode u (requests (unlock m txn id).manager j) ≡ held_mode u (requests m j)
unlock-others m txn id j u h =
    ground (arith, requests-unlock m txn id j, held-remove_ne txn.txn_id u (requests m id))

-- The lock set of the transaction afterwards.
pub lock_set-acquire :
    (m : LockManager) (txn : Transaction) (id : LockDataId) (mode : LockMode)
    → (acquire_lock m txn id mode).txn.lock_set ≡ (elim (held_mode txn.txn_id (requests m id)) [
      | some _ ↦ txn.lock_set
      | none ↦ elim (held_mode txn.txn_id (requests (acquire_lock m txn id mode).manager id)) [
        | some _ ↦ insert id txn.lock_set
        | none ↦ txn.lock_set
      ]
    ])
unfolding acquire_lock upgrade new_request put start_growing
lock_set-acquire m txn id mode = ground (
  arith,
  request_queue-update (record (queue_at m id) {
    request_queue =
        requests m id ++ record { txn_id = txn.txn_id; lock_mode = mode; granted = true } ∷ [];
  }),
  held-append_self txn.txn_id mode true (requests m id),
)

pub lock_set-unlock :
    (m : LockManager) (txn : Transaction) (id : LockDataId)
    → (unlock m txn id).txn.lock_set ≡ (elim (held_mode txn.txn_id (requests m id)) [
      | some _ ↦ erase id txn.lock_set
      | none ↦ txn.lock_set
    ])
unfolding unlock start_shrinking held_mode
lock_set-unlock m txn id = ground arith

-- A transaction that has a lock on the item has one after any request for it.
pub keeps_holding :
    (m : LockManager) (txn : Transaction) (id : LockDataId) (mode : LockMode)
    → held_mode txn.txn_id (requests m id) ≢ none
    → held_mode txn.txn_id (requests (acquire_lock m txn id mode).manager id) ≢ none
unfolding after_acquire
keeps_holding m txn id mode h =
    ground (arith, requests-acquire m txn id id mode, held-set_self txn.txn_id mode (requests m id))
