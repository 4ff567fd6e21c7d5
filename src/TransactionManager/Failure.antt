-- ===== src/TransactionManager/Failure.antt =====
-- What `commit` leaves when it throws.
use claude_opus.Base.{
  ℕ, ◌≡◌, ◌≢◌, refl, sym, ap, ◌∙◌, ℤ, pos, Option, none, some, ite, if_pos, if_neg, ℕ_discrete,
}
use claude_opus.Errors.{Error, Result, ok, throw}
use claude_opus.Txn.{Transaction}
use claude_opus.LogRecord.{commit_log}
use claude_opus.LogManager.{LogManager, Logged, add_log_to_buffer, flush_log_to_disk}
use claude_opus.BufferPool.{Setup}
use claude_opus.TransactionManager.{
  TransactionManager, bind, control_with, remember, with_log, put_txn, with_prev, flush_of,
  flush_log, commit,
}
use claude_opus.TransactionManager.Ending.{chain, done, commit-chain}

module _ (E : Setup) where
  open E use {os}

  -- The transaction goes on: at most the number of its last record has changed.
  pub record Failed (s : TransactionManager E) (x : Transaction) (s' : TransactionManager E)
      : Type 0 where
    pub logs : s.pool.log_manager ≢ none
    pub locks : s'.lock_manager ≡ s.lock_manager
    pub txn :
        (n : ℤ) × ((u : ℕ)
          → s'.txn_map u
            ≡ ite (ℕ_discrete u x.txn_id) (some (record x { prev_lsn = n })) (s.txn_map u))

  unchanged :
      (s : TransactionManager E) (x : Transaction) (u : ℕ)
      → s.txn_map x.txn_id ≡ some x
      → s.txn_map u ≡ ite (ℕ_discrete u x.txn_id) (some x) (s.txn_map u)
  unchanged s x u q = elim (ℕ_discrete u x.txn_id) [
    | yes d ↦ rw (d, q) (sym (if_pos (ℕ_discrete x.txn_id x.txn_id) refl (some x) (some x)))
    | no d ↦ sym (if_neg (ℕ_discrete u x.txn_id) d (some x) (s.txn_map u))
  ]

  flush-Failed :
      (f : TransactionManager E → TransactionManager E) (s s1 : TransactionManager E)
      (x : Transaction) (lm : LogManager) (n : ℤ) (e : Error) (w : Result (Unit {0}))
      → s.pool.log_manager ≡ some lm
      → s1.lock_manager ≡ s.lock_manager
      → ((u : ℕ)
          → s1.txn_map u
            ≡ ite (ℕ_discrete u x.txn_id) (some (record x { prev_lsn = n })) (s.txn_map u))
      → (bind E (s1, w) (λ _ s'. (f s', ok tt))).1 ≡ throw e
      → Failed s x (bind E (s1, w) (λ _ s'. (f s', ok tt))).0
  flush-Failed f s s1 x lm n e (ok tt) p l t h = cc
  flush-Failed f s s1 x lm n e (throw e') p l t h = record {
    logs = λ q. cc;
    locks = l;
    txn = (n, t);
  }

  remember-Failed :
      (f : TransactionManager E → TransactionManager E) (s : TransactionManager E) (x : Transaction)
      (lm : LogManager) (y : Logged os ℤ) (e : Error)
      → s.pool.log_manager ≡ some lm
      → s.txn_map x.txn_id ≡ some x
      → (chain E f (remember E x y s)).1 ≡ throw e
      → Failed s x (chain E f (remember E x y s)).0
  unfolding remember flush_log flush_of
  remember-Failed f s x lm (lm1, dm1, throw e') e p q h = record {
    logs = λ r. cc;
    locks = refl;
    txn = (x.prev_lsn, λ u. unchanged s x u q);
  }
  remember-Failed f s x lm (lm1, dm1, ok n) e p q h =
      let s1 = put_txn E x.txn_id (record x { prev_lsn = n }) (with_log E lm1 dm1 s) in
      let w = flush_log_to_disk os lm1 dm1 in
      flush-Failed f s (with_log E w.0 w.1 s1) x lm n e w.2 p refl (λ u. refl) h

  none-returns :
      (f : TransactionManager E → TransactionManager E) (s : TransactionManager E)
      → s.pool.log_manager ≡ none
      → (chain E f (s, ok tt)).1 ≡ ok tt
  unfolding flush_log flush_of
  none-returns f s p = rw p refl

  chain-Failed :
      (s : TransactionManager E) (x : Transaction) (o : Option LogManager) (e : Error)
      → s.txn_map x.txn_id ≡ some x
      → s.pool.log_manager ≡ o
      → (chain E (done E x) (control_with E x (commit_log (pos x.txn_id)) o s)).1 ≡ throw e
      → Failed s x (chain E (done E x) (control_with E x (commit_log (pos x.txn_id)) o s)).0
  unfolding control_with flush_log flush_of
  chain-Failed s x none e q p h = let k = none-returns (done E x) s p in cc
  chain-Failed s x (some lm) e q p h =
      remember-Failed (done E x) s x lm
        (add_log_to_buffer os lm s.pool.disk_manager (with_prev E x (commit_log (pos x.txn_id)))) e
        p q h

  -- When `commit` of a transaction throws, there is a log, and the transaction has not ended: no lock
  -- is released and no other transaction changes, and it keeps its state, its lock set and its write
  -- set. Without a log `commit` never throws.
  pub commit-Failed :
      (s : TransactionManager E) (x : Transaction) (e : Error)
      → s.txn_map x.txn_id ≡ some x
      → (commit E (some x.txn_id) s).1 ≡ throw e
      → Failed s x (commit E (some x.txn_id) s).0
  commit-Failed s x e q h =
      let c = commit-chain E s x s.pool.log_manager q refl in
      rw c (chain-Failed s x s.pool.log_manager e q refl (sym (ap (λ r. r.1) c) ∙ h))
