-- ===== src/TransactionManager/Commit.antt =====
-- What `commit` leaves when it returns.
use claude_opus.Base.{
  ℕ, ◌≡◌, ◌≢◌, refl, sym, ap, ◌∙◌, pos, Option, none, some, ◌++◌, arith, ite, if_pos, if_neg,
  ℕ_discrete,
}
use claude_opus.Errors.{ok}
use claude_opus.Txn.{Transaction, TransactionState, LockDataId, contains}
use claude_opus.Lock.{held_mode}
use claude_opus.Lock.Queues.{Compatible}
use claude_opus.Lock.Calls.{requests}
use claude_opus.Lock.Safety.{holds}
use claude_opus.LogRecord.{serialize, commit_log}
use claude_opus.LogManager.{LogManager, add_log_to_buffer}
use claude_opus.LogManager.Buffer.{stream, Fits, add_log_to_buffer-Added, add_log_to_buffer-Fits}
use claude_opus.BufferPool.{Setup}
use claude_opus.TransactionManager.{
  TransactionManager, control_with, with_prev, end_with, end, commit, unlock_all,
}
use claude_opus.TransactionManager.Release.{unlock_all-Released, ended, unlock_all-ended}
use claude_opus.TransactionManager.Ending.{
  last_lsn, commit_record_of, Ended, chain, chain-some, chain-none, done, commit-chain,
  commit_IsSized, commit_small,
}

module _ (E : Setup) where
  open E use {os}
  open os use {log_bytes}

  -- The transaction `x` has committed.
  pub record Committed (s : TransactionManager E) (x : Transaction) (s' : TransactionManager E)
      : Type 0 where
    pub txn :
        (u : ℕ)
        → s'.txn_map u
          ≡ ite
              (ℕ_discrete u x.txn_id)
              (some (
                ended TransactionState.committed
                  (record x { prev_lsn = last_lsn E s.pool.log_manager x.prev_lsn })))
              (s.txn_map u)
    pub released : (j : LockDataId) → held_mode x.txn_id (requests s'.lock_manager j) ≡ none
    pub others :
        (u : ℕ) (j : LockDataId)
        → u ≢ x.txn_id
        → held_mode u (requests s'.lock_manager j) ≡ held_mode u (requests s.lock_manager j)
    pub durable :
        (lm : LogManager)
        → s.pool.log_manager ≡ some lm
        → log_bytes s'.pool.disk_manager.world
          ≡ stream os lm s.pool.disk_manager ++ serialize (commit_record_of E lm x)

  -- The locks, and the transaction's entry, after the last part.
  end-Committed :
      (s s' : TransactionManager E) (x : Transaction)
      → ((j : LockDataId) → Compatible (requests s.lock_manager j))
      → ((j : LockDataId)
          → contains j x.lock_set ≡ holds (held_mode x.txn_id (requests s.lock_manager j)))
      → Ended E s x s'
      → Committed s x (end E TransactionState.committed x.txn_id s')
  unfolding end end_with
  end-Committed s s' x c agree e =
      let x' = record x { prev_lsn = last_lsn E s.pool.log_manager x.prev_lsn } in
      let here : s'.txn_map x.txn_id ≡ some x' =
        e.txn x.txn_id
        ∙ if_pos (ℕ_discrete x.txn_id x.txn_id) refl (some x') (s.txn_map x.txn_id) in
      let r = unlock_all-Released x.lock_set s.lock_manager x' c in
      rw (here, e.locks)
        (record {
          txn = λ u.
              let y = (unlock_all x.lock_set s.lock_manager x').1 in
              let same : ended TransactionState.committed y ≡ ended TransactionState.committed x' =
                unlock_all-ended TransactionState.committed x.lock_set s.lock_manager x' in
              elim (ℕ_discrete u x.txn_id) [
                | yes d ↦
                    if_pos (ℕ_discrete u x.txn_id) d (some (ended TransactionState.committed y))
                      (s'.txn_map u)
                    ∙ ap some same
                    ∙ sym (
                        if_pos (ℕ_discrete u x.txn_id) d
                          (some (ended TransactionState.committed x')) (s.txn_map u))
                | no d ↦
                    if_neg (ℕ_discrete u x.txn_id) d (some (ended TransactionState.committed y))
                      (s'.txn_map u)
                    ∙ e.txn u
                    ∙ if_neg (ℕ_discrete u x.txn_id) d (some x') (s.txn_map u)
                    ∙ sym (
                        if_neg (ℕ_discrete u x.txn_id) d
                          (some (ended TransactionState.committed x')) (s.txn_map u))
              ];
          released = λ j. ground (arith, r.own j, agree j);
          others = r.others;
          durable = e.durable;
        })

  chain-Committed :
      (s : TransactionManager E) (x : Transaction) (o : Option LogManager)
      → s.txn_map x.txn_id ≡ some x
      → s.pool.log_manager ≡ o
      → ((j : LockDataId) → Compatible (requests s.lock_manager j))
      → ((j : LockDataId)
          → contains j x.lock_set ≡ holds (held_mode x.txn_id (requests s.lock_manager j)))
      → ((lm : LogManager) → o ≡ some lm → Fits os lm)
      → (chain E (done E x) (control_with E x (commit_log (pos x.txn_id)) o s)).1 ≡ ok tt
      → Committed s x (chain E (done E x) (control_with E x (commit_log (pos x.txn_id)) o s)).0
  unfolding control_with
  chain-Committed s x none found p c agree fits h =
      let (s', e, q) = chain-none E (done E x) s x p found in rw q (end-Committed s s' x c agree e)
  chain-Committed s x (some lm) found p c agree fits h =
      let r = with_prev E x (commit_log (pos x.txn_id)) in
      let y = add_log_to_buffer os lm s.pool.disk_manager r in
      let (s', e, q) =
        chain-some E (done E x) s x lm y p
          (λ n k.
            let a = add_log_to_buffer-Added os lm s.pool.disk_manager r n k in
            (let b = a.number in cc, a.bytes))
          (add_log_to_buffer-Fits os lm s.pool.disk_manager r (fits lm refl) (commit_IsSized E lm x)
            (commit_small E x))
          h in
      rw q (end-Committed s s' x c agree e)

  -- A transaction that commits, when `commit` returns: it has the state COMMITTED, with no locks and
  -- nothing to undo; it holds no lock on any item, and no other transaction's locks or entries have
  -- changed; and, where there is a log, all records before and then its commit record are on disk.
  -- Before, its lock set lists the items that it has a lock on, the locks on an item are
  -- compatible, and the log buffer is as full as its offset says.
  pub commit-Committed :
      (s : TransactionManager E) (x : Transaction)
      → s.txn_map x.txn_id ≡ some x
      → ((j : LockDataId) → Compatible (requests s.lock_manager j))
      → ((j : LockDataId)
          → contains j x.lock_set ≡ holds (held_mode x.txn_id (requests s.lock_manager j)))
      → ((lm : LogManager) → s.pool.log_manager ≡ some lm → Fits os lm)
      → (commit E (some x.txn_id) s).1 ≡ ok tt
      → Committed s x (commit E (some x.txn_id) s).0
  commit-Committed s x found c agree fits h =
      let e = commit-chain E s x s.pool.log_manager found refl in
      rw e
        (chain-Committed s x s.pool.log_manager found refl c agree fits (sym (ap (λ r. r.1) e) ∙ h))
