-- ===== src/TransactionManager/Ending.antt =====
-- The part of `commit` before the locks are released: its record is logged and flushed.
use claude_opus.Base.{
  ℕ, ◌≤◌, ◌≡◌, refl, sym, ap, ◌∙◌, ℤ, pos, Option, none, some, ◌++◌, arith, ite, if_pos, if_neg,
  ℕ_discrete,
}
use claude_opus.Errors.{Result, ok, throw}
use claude_opus.Txn.{Transaction, TransactionState}
use claude_opus.LogRecord.{LogRecord, LogType, header, serialize, commit_log}
use claude_opus.LogRecord.Size.{IsSized, length-serialize_header}
use claude_opus.LogManager.{log_buffer_size, LogManager, Logged, flush_log_to_disk}
use claude_opus.LogManager.Buffer.{stream, numbered, Fits, flushed-bytes}
use claude_opus.BufferPool.{Setup}
use claude_opus.TransactionManager.{
  TransactionManager, bind, control_with, log_control, remember, with_log, put_txn, with_prev,
  flush_of, flush_log, end, commit_found, commit,
}

module _ (E : Setup) where
  open E use {os}
  open os use {log_bytes}

  -- The last record's number after logging, with a log manager or without.
  abbrev pub last_lsn : Option LogManager → ℤ → ℤ
  last_lsn none lsn = lsn
  last_lsn (some lm) lsn = lm.global_lsn

  -- The record that `commit` logs, as it enters the log.
  abbrev pub commit_record_of : LogManager → Transaction → LogRecord
  commit_record_of lm x = numbered os lm (with_prev E x (commit_log (pos x.txn_id)))

  pub commit_IsSized :
      (lm : LogManager) (x : Transaction) → IsSized (with_prev E x (commit_log (pos x.txn_id)))
  unfolding commit_log serialize
  commit_IsSized lm x =
      length-serialize_header LogType.commit (header (with_prev E x (commit_log (pos x.txn_id))))

  pub commit_small :
      (x : Transaction)
      → (header (with_prev E x (commit_log (pos x.txn_id)))).log_tot_len ≤ log_buffer_size
  unfolding commit_log
  commit_small x = omega arith

  -- Logging the end and flushing.
  pub record Ended (s : TransactionManager E) (x : Transaction) (s' : TransactionManager E)
      : Type 0 where
    pub txn :
        (u : ℕ)
        → s'.txn_map u
          ≡ ite
              (ℕ_discrete u x.txn_id)
              (some (record x { prev_lsn = last_lsn s.pool.log_manager x.prev_lsn }))
              (s.txn_map u)
    pub locks : s'.lock_manager ≡ s.lock_manager
    pub durable :
        (lm : LogManager)
        → s.pool.log_manager ≡ some lm
        → log_bytes s'.pool.disk_manager.world
          ≡ stream os lm s.pool.disk_manager ++ serialize (commit_record_of lm x)

  -- The three parts of `commit`, from the log's answer on.
  abbrev pub chain :
      (TransactionManager E → TransactionManager E)
      → TransactionManager E × Result (Unit {0})
      → TransactionManager E × Result (Unit {0})
  chain f r = bind E r (λ _ s. bind E (flush_log E s) (λ _ s'. (f s', ok tt)))

  bind-ok :
      (f : TransactionManager E → TransactionManager E) (s : TransactionManager E)
      (r : Result (Unit {0}))
      → (bind E (s, r) (λ _ s'. (f s', ok tt))).1 ≡ ok tt
      → (r ≡ ok tt) × ((bind E (s, r) (λ _ s'. (f s', ok tt))).0 ≡ f s)
  bind-ok f s (ok tt) h = (refl, refl)
  bind-ok f s (throw e) h = cc

  pub same_log :
      (lm lm' : LogManager) (s : TransactionManager E)
      → s.pool.log_manager ≡ some lm
      → s.pool.log_manager ≡ some lm'
      → lm' ≡ lm
  same_log lm lm' s p q = cc

  pub chain-some :
      (f : TransactionManager E → TransactionManager E) (s : TransactionManager E) (x : Transaction)
      (lm : LogManager) (y : Logged os ℤ)
      → s.pool.log_manager ≡ some lm
      → ((n : ℤ)
          → y.2 ≡ ok n
          → (n ≡ lm.global_lsn)
            × (stream os y.0 y.1
                ≡ stream os lm s.pool.disk_manager ++ serialize (commit_record_of lm x)))
      → Fits os y.0
      → (chain f (remember E x y s)).1 ≡ ok tt
      → (s' : TransactionManager E) × Ended s x s' × ((chain f (remember E x y s)).0 ≡ f s')
  unfolding remember flush_log flush_of
  chain-some f s x lm (lm1, dm1, throw e) p added fits h = cc
  chain-some f s x lm (lm1, dm1, ok n) p added fits h =
      let s1 = put_txn E x.txn_id (record x { prev_lsn = n }) (with_log E lm1 dm1 s) in
      let w = flush_log_to_disk os lm1 dm1 in
      let (done, e) = bind-ok f (with_log E w.0 w.1 s1) w.2 h in
      let (number, bytes) = added n refl in
      (
        with_log E w.0 w.1 s1,
        record {
          txn = λ u. rw (p, number) refl;
          locks = refl;
          durable =
              λ lm' q. rw (same_log lm lm' s p q) (flushed-bytes os lm1 dm1 fits done ∙ bytes);
        },
        e,
      )

  pub chain-none :
      (f : TransactionManager E → TransactionManager E) (s : TransactionManager E) (x : Transaction)
      → s.pool.log_manager ≡ none
      → s.txn_map x.txn_id ≡ some x
      → (s' : TransactionManager E) × Ended s x s' × ((chain f (s, ok tt)).0 ≡ f s')
  unfolding flush_log flush_of
  chain-none f s x p q = (
    s,
    record {
      txn = λ u. elim (ℕ_discrete u x.txn_id) [
        | yes d ↦ rw (d, q, p) (sym (if_pos (ℕ_discrete x.txn_id x.txn_id) refl (some x) (some x)))
        | no d ↦ sym (if_neg (ℕ_discrete u x.txn_id) d _ (s.txn_map u))
      ];
      locks = refl;
      durable = λ lm e. cc;
    },
    rw p refl,
  )

  abbrev pub done : Transaction → TransactionManager E → TransactionManager E
  done x = end E TransactionState.committed x.txn_id

  pub commit-chain :
      (s : TransactionManager E) (x : Transaction) (o : Option LogManager)
      → s.txn_map x.txn_id ≡ some x
      → s.pool.log_manager ≡ o
      → commit E (some x.txn_id) s
        ≡ chain (done x) (control_with E x (commit_log (pos x.txn_id)) o s)
  unfolding commit commit_found log_control
  commit-chain s x o found p =
      ap (λ (y : Option Transaction). commit_found E x.txn_id y s) found
      ∙ ap
          (λ (l : Option LogManager).
            chain (done x) (control_with E x (commit_log (pos x.txn_id)) l s))
          p
