-- ===== src/TransactionManager/Begin.antt =====
-- What `begin` makes.
use claude_opus.Base.{
  ℕ, suc, ◌≤◌, ◌≡◌, refl, ◌∙◌, ℤ, pos, Option, none, some, ◌++◌, arith, ite, if_neg, ℕ_discrete,
}
use claude_opus.Errors.{Result, ok, throw}
use claude_opus.Txn.{Transaction, new_transaction}
use claude_opus.LogRecord.{LogRecord, serialize, begin_log}
use claude_opus.LogManager.{LogManager, Logged, add_log_to_buffer}
use claude_opus.LogManager.Buffer.{stream, numbered, Added, add_log_to_buffer-Added}
use claude_opus.BufferPool.{Setup}
use claude_opus.TransactionManager.{
  TransactionManager, bind, control_with, log_control, remember, put_txn, with_prev, start, begin,
}
use claude_opus.TransactionManager.Ending.{last_lsn, same_log}

twice :
    {A : Type 0} (u t : ℕ) (a b c : A)
    → ite (ℕ_discrete u t) a (ite (ℕ_discrete u t) b c) ≡ ite (ℕ_discrete u t) a c
twice u t a b c = ground arith

module _ (E : Setup) where
  open E use {os}

  -- Every number from the next one on is free.
  abbrev pub IsFresh : TransactionManager E → Type 0
  IsFresh s = (u : ℕ) → s.next_txn_id ≤ u → s.txn_map u ≡ none

  abbrev begin_record_of : LogManager → Transaction → LogRecord
  begin_record_of lm x = numbered os lm (with_prev E x (begin_log (pos x.txn_id)))

  -- The transaction is in the table, and the others are as before; its record is in the log.
  pub record Started (s : TransactionManager E) (x : Transaction) (s' : TransactionManager E)
      : Type 0 where
    pub txn :
        (u : ℕ)
        → s'.txn_map u
          ≡ ite
              (ℕ_discrete u x.txn_id)
              (some (record x { prev_lsn = last_lsn E s.pool.log_manager x.prev_lsn }))
              (s.txn_map u)
    pub next : s'.next_txn_id ≡ s.next_txn_id
    pub locks : s'.lock_manager ≡ s.lock_manager
    pub in_log :
        (lm : LogManager)
        → s.pool.log_manager ≡ some lm
        → (lm' : LogManager) × (s'.pool.log_manager ≡ some lm')
          × (stream os lm' s'.pool.disk_manager
              ≡ stream os lm s.pool.disk_manager ++ serialize (begin_record_of lm x))

  -- The rest of `start`, from the log's answer on.
  abbrev rest : ℕ → TransactionManager E × Result (Unit {0}) → TransactionManager E × Result ℕ
  rest t r = bind E r (λ _ s. (s, ok t))

  remember-Started :
      (s : TransactionManager E) (x : Transaction) (lm : LogManager) (y : Logged os ℤ) (t : ℕ)
      → s.pool.log_manager ≡ some lm
      → ((n : ℤ)
          → y.2 ≡ ok n
          → Added os lm s.pool.disk_manager (with_prev E x (begin_log (pos x.txn_id))) y)
      → (rest x.txn_id (remember E x y (put_txn E x.txn_id x s))).1 ≡ ok t
      → (t ≡ x.txn_id) × Started s x (rest x.txn_id (remember E x y (put_txn E x.txn_id x s))).0
  unfolding remember
  remember-Started s x lm (lm1, dm1, throw e) t p added h = cc
  remember-Started s x lm (lm1, dm1, ok n) t p added h =
      let a = added n refl in
      let number : n ≡ lm.global_lsn = (let b = a.number in cc) in
      (
        cc,
        record {
          txn = λ u.
              rw (p, number)
                (twice u x.txn_id (some (record x { prev_lsn = lm.global_lsn })) (some x)
                  (s.txn_map u));
          next = refl;
          locks = refl;
          in_log = λ lm' q. (lm1, refl, rw (same_log E lm lm' s p q) a.bytes);
        },
      )

  started :
      (s : TransactionManager E) (x : Transaction) (o : Option LogManager) (t : ℕ)
      → s.pool.log_manager ≡ o
      → (rest x.txn_id (control_with E x (begin_log (pos x.txn_id)) o (put_txn E x.txn_id x s))).1
        ≡ ok t
      → (t ≡ x.txn_id)
        × Started s x
            (rest x.txn_id
              (control_with E x (begin_log (pos x.txn_id)) o (put_txn E x.txn_id x s))).0
  unfolding control_with
  started s x none t p h =
      (cc, record { txn = λ u. rw p refl; next = refl; locks = refl; in_log = λ lm q. cc })
  started s x (some lm) t p h =
      remember-Started s x lm
        (add_log_to_buffer os lm s.pool.disk_manager (with_prev E x (begin_log (pos x.txn_id)))) t p
        (λ n k.
          add_log_to_buffer-Added os lm s.pool.disk_manager
            (with_prev E x (begin_log (pos x.txn_id))) n k)
        h

  -- `begin` with no transaction, when it returns and every number from the next one on was free: it
  -- gives the next number, under which there is now a transaction in the state DEFAULT with no locks
  -- and nothing to undo; all other transactions are as before, the locks too, and again every
  -- number from the next one on is free. Where there is a log, the begin record follows all records
  -- before.
  pub begin-Started :
      (s : TransactionManager E) (t : ℕ)
      → IsFresh s
      → (begin E none s).1 ≡ ok t
      → (t ≡ s.next_txn_id)
        × Started
            (record s { next_txn_id = suc s.next_txn_id; next_timestamp = suc s.next_timestamp })
            (new_transaction s.next_txn_id s.next_timestamp)
            (begin E none s).0
        × IsFresh (begin E none s).0
        × (s.txn_map t ≡ none)
  unfolding begin start log_control
  begin-Started s t fresh h =
      let s1 = record s {
        next_txn_id = suc s.next_txn_id;
        next_timestamp = suc s.next_timestamp;
      } in
      let x = new_transaction s.next_txn_id s.next_timestamp in
      let (e, b) = started s1 x s.pool.log_manager t refl h in
      (
        e,
        b,
        λ u l.
            (let k = b.next in
              b.txn u
              ∙ if_neg (ℕ_discrete u s.next_txn_id) (λ d. omega arith) _ _
              ∙ fresh u (omega arith)),
        rw e (fresh s.next_txn_id (omega arith)),
      )
