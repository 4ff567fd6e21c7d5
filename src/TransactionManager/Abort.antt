-- ===== src/TransactionManager/Abort.antt =====
-- `TransactionManager::abort` in transaction_manager.cpp as a whole: the abort record, the loop that
-- undoes the write set, the locks and the state. The tables and indexes, with the row locks that their
-- calls ask for, stand beside the manager; a loop that throws leaves the rest of the write set.
use claude_opus.Base.{
  ℕ, ◌≡◌, ◌≢◌, refl, ap, ◌∙◌, ℤ, pos, Option, none, some, List, [], ◌∷◌, ◌++◌, arith, if_pos,
  ℕ_discrete,
}
use claude_opus.Errors.{Error, Result, ok, throw}
use claude_opus.Txn.{Transaction, TransactionState, LockDataId, contains, WriteRecord}
use claude_opus.Lock.{held_mode}
use claude_opus.Lock.Queues.{Compatible}
use claude_opus.Lock.Calls.{requests}
use claude_opus.Lock.Safety.{holds}
use claude_opus.LogRecord.{LogRecord, abort_log}
use claude_opus.LogManager.{LogManager, Logged, add_log_to_buffer}
use claude_opus.BufferPool.{Setup}
use claude_opus.Tables.{IndexMeta, Storage, Session, on_db, with_db}
use claude_opus.TransactionManager.{
  TransactionManager, bind, control_with, log_control, remember, put_txn, with_prev, flush_of,
  flush_log, end_with, end,
}
use claude_opus.TransactionManager.Release.{unlock_all-Released, ended, unlock_all-ended}
use claude_opus.TransactionManager.Rollback.{undo_write, undo_writes}

module _ (E : Setup) where
  open E use {os}

  -- The abort record goes to disk.
  unfoldable pub log_abort :
      ℕ → Transaction → TransactionManager E → TransactionManager E × Result (Unit {0})
  unfolding log_control flush_log
  log_abort t x s = bind E (log_control E x (abort_log (pos t)) s) (λ _ s'. flush_log E s')

  unfoldable pub left_to_undo :
      ℕ → List WriteRecord → Option Transaction → TransactionManager E → TransactionManager E
  left_to_undo t ws none s = s
  left_to_undo t ws (some x) s = put_txn E t (record x { write_set = ws }) s

  module _ {W : Type 0} (D : Storage W) (tabs : List ℕ → List IndexMeta) where
    abbrev pub Both : Type 0
    Both = TransactionManager E × W

    -- Behind the loop: the locks go and the state is set.
    pub undone :
        ℕ
        → TransactionManager E
        → Option (Session W × Result (Unit {0}))
        → Option (Both × Result (Unit {0}))
    unfolding end left_to_undo
    undone t s none = none
    undone t s (some (v, ok _)) = some ((end E TransactionState.aborted t s, v.db), ok tt)
    undone t s (some (v, throw e)) =
        some ((left_to_undo t v.write_set (s.txn_map t) s, v.db), throw e)

    pub abort_logged :
        ℕ
        → List WriteRecord
        → W
        → TransactionManager E × Result (Unit {0})
        → Option (Both × Result (Unit {0}))
    unfolding undo_writes undone
    abort_logged t ws w (s, throw e) = some ((s, w), throw e)
    abort_logged t ws w (s, ok _) =
        undone t s (undo_writes D tabs ws (record { db = w; write_set = ws }))

    pub abort_found : ℕ → Option Transaction → Both → Option (Both × Result (Unit {0}))
    unfolding log_abort abort_logged
    abort_found t none b = some (b, ok tt)
    abort_found t (some x) b = abort_logged t x.write_set b.1 (log_abort t x b.0)

    unfoldable pub abort : Option ℕ → Both → Option (Both × Result (Unit {0}))
    unfolding abort_found
    abort none b = some (b, ok tt)
    abort (some t) b = abort_found t (b.0.txn_map t) b

  -- Logging changes no lock, and of the transactions only the number of this one's last record.
  record Logs (s : TransactionManager E) (x : Transaction) (s' : TransactionManager E)
      : Type 0 where
    locks : s'.lock_manager ≡ s.lock_manager
    lsn : ℤ
    here : s'.txn_map x.txn_id ≡ some (record x { prev_lsn = lsn })

  flush-Logs :
      (s : TransactionManager E) (x : Transaction) (s1 : TransactionManager E)
      (o : Option LogManager)
      → Logs s x s1
      → Logs s x (flush_of E o s1).0
  unfolding flush_of
  flush-Logs s x s1 none l = l
  flush-Logs s x s1 (some lm) l = record { locks = l.locks; lsn = l.lsn; here = l.here }

  bind-Logs :
      (s : TransactionManager E) (x : Transaction) (r : TransactionManager E × Result (Unit {0}))
      → Logs s x r.0
      → Logs s x (bind E r (λ _ s'. flush_log E s')).0
  unfolding flush_log
  bind-Logs s x (s1, ok tt) l = flush-Logs s x s1 s1.pool.log_manager l
  bind-Logs s x (s1, throw e) l = l

  remember-Logs :
      (s : TransactionManager E) (x : Transaction) (y : Logged os ℤ)
      → s.txn_map x.txn_id ≡ some x
      → Logs s x (remember E x y s).0
  unfolding remember
  remember-Logs s x (lm, dm, ok n) h = record {
    locks = refl;
    lsn = n;
    here = if_pos (ℕ_discrete x.txn_id x.txn_id) refl (some (record x { prev_lsn = n })) _;
  }
  remember-Logs s x (lm, dm, throw e) h = record { locks = refl; lsn = x.prev_lsn; here = h }

  control-Logs :
      (s : TransactionManager E) (x : Transaction) (r : LogRecord) (o : Option LogManager)
      → s.txn_map x.txn_id ≡ some x
      → Logs s x (control_with E x r o s).0
  unfolding control_with
  control-Logs s x r none h = record { locks = refl; lsn = x.prev_lsn; here = h }
  control-Logs s x r (some lm) h =
      remember-Logs s x (add_log_to_buffer os lm s.pool.disk_manager (with_prev E x r)) h

  log_abort-Logs :
      (s : TransactionManager E) (x : Transaction)
      → s.txn_map x.txn_id ≡ some x
      → Logs s x (log_abort x.txn_id x s).0
  unfolding log_abort log_control
  log_abort-Logs s x h =
      bind-Logs s x _ (control-Logs s x (abort_log (pos x.txn_id)) s.pool.log_manager h)

  -- The transaction `x` has been rolled back.
  pub record Aborted (s : TransactionManager E) (x : Transaction) (s' : TransactionManager E)
      : Type 0 where
    pub txn :
        (n : ℤ) × (s'.txn_map x.txn_id
          ≡ some (ended TransactionState.aborted (record x { prev_lsn = n })))
    pub released : (j : LockDataId) → held_mode x.txn_id (requests s'.lock_manager j) ≡ none
    pub others :
        (u : ℕ) (j : LockDataId)
        → u ≢ x.txn_id
        → held_mode u (requests s'.lock_manager j) ≡ held_mode u (requests s.lock_manager j)

  end-Aborted :
      (s s' : TransactionManager E) (x : Transaction)
      → ((j : LockDataId) → Compatible (requests s.lock_manager j))
      → ((j : LockDataId)
          → contains j x.lock_set ≡ holds (held_mode x.txn_id (requests s.lock_manager j)))
      → Logs s x s'
      → Aborted s x (end E TransactionState.aborted x.txn_id s')
  unfolding end end_with
  end-Aborted s s' x c agree l =
      let x' = record x { prev_lsn = l.lsn } in
      let r = unlock_all-Released x.lock_set s.lock_manager x' c in
      rw (l.here, l.locks)
        (record {
          txn = (
            l.lsn,
            if_pos (ℕ_discrete x.txn_id x.txn_id) refl _ _
                ∙ ap some (unlock_all-ended TransactionState.aborted x.lock_set s.lock_manager x'),
          );
          released = λ j. ground (arith, r.own j, agree j);
          others = r.others;
        })

  -- The transaction goes on, with so much left to undo: at most the number of its last record and its
  -- write set have changed.
  pub record Stays (s : TransactionManager E) (x : Transaction) (ws : List WriteRecord)
      (s' : TransactionManager E) : Type 0 where
    pub locks : s'.lock_manager ≡ s.lock_manager
    pub txn : (n : ℤ) × (s'.txn_map x.txn_id ≡ some (record x { prev_lsn = n; write_set = ws }))

  left-Stays :
      (s s' : TransactionManager E) (x : Transaction) (ws : List WriteRecord)
      → Logs s x s'
      → Stays s x ws (left_to_undo x.txn_id ws (s'.txn_map x.txn_id) s')
  unfolding left_to_undo
  left-Stays s s' x ws l =
      rw l.here
        (record { locks = l.locks; txn = (l.lsn, if_pos (ℕ_discrete x.txn_id x.txn_id) refl _ _) })

  module _ {W : Type 0} (D : Storage W) (tabs : List ℕ → List IndexMeta) where
    -- Writes that can be undone one behind another, the last one first, from a state to another.
    pub data Undone : List WriteRecord → W → W → Type 0 where
      nothing : {w : W} → Undone [] w w
      one :
          {r : WriteRecord} {rs : List WriteRecord} {w u v : W}
          → undo_write D tabs r w ≡ some (u, ok tt)
          → Undone rs u v
          → Undone (r ∷ rs) w v

    undo_writes-ok :
        (rs : List WriteRecord) (w v : W)
        → Undone rs w v
        → undo_writes D tabs rs (record { db = w; write_set = rs })
          ≡ some (record { db = v; write_set = [] }, ok tt)
    unfolding undo_writes on_db with_db
    undo_writes-ok [] w v nothing = refl
    undo_writes-ok (r ∷ rs) w v (one {u} e h) = rw e (undo_writes-ok rs u v h)

    undo_writes-throw :
        (done : List WriteRecord) (r : WriteRecord) (rs : List WriteRecord) (w v u : W) (e : Error)
        → Undone done w v
        → undo_write D tabs r v ≡ some (u, throw e)
        → undo_writes D tabs (done ++ r ∷ rs) (record { db = w; write_set = done ++ r ∷ rs })
          ≡ some (record { db = u; write_set = r ∷ rs }, throw e)
    unfolding undo_writes on_db with_db
    undo_writes-throw [] r rs w v u e nothing h = rw h refl
    undo_writes-throw (q ∷ done) r rs w v u e (one {u = x} k n) h =
        rw k (undo_writes-throw done r rs x v u e n h)

    logged-ok :
        (t : ℕ) (ws : List WriteRecord) (w v : W) (l : TransactionManager E × Result (Unit {0}))
        → l.1 ≡ ok tt
        → Undone ws w v
        → abort_logged D tabs t ws w l ≡ some ((end E TransactionState.aborted t l.0, v), ok tt)
    unfolding abort_logged undone
    logged-ok t ws w v (s, throw e) h u = cc
    logged-ok t ws w v (s, ok tt) h u = rw (undo_writes-ok ws w v u) refl

    logged-throw :
        (t : ℕ) (done : List WriteRecord) (r : WriteRecord) (rs : List WriteRecord) (w v u : W)
        (e : Error) (l : TransactionManager E × Result (Unit {0}))
        → l.1 ≡ ok tt
        → Undone done w v
        → undo_write D tabs r v ≡ some (u, throw e)
        → abort_logged D tabs t (done ++ r ∷ rs) w l
          ≡ some ((left_to_undo t (r ∷ rs) (l.0.txn_map t) l.0, u), throw e)
    unfolding abort_logged undone
    logged-throw t done r rs w v u e (s, throw e') h n k = cc
    logged-throw t done r rs w v u e (s, ok tt) h n k =
        rw (undo_writes-throw done r rs w v u e n k) refl

    -- A transaction whose abort record could be logged and whose writes can be undone, the last one
    -- first: `abort` returns, in the state that undoing them leads to. The transaction has the state
    -- ABORTED, with no locks and nothing to undo, it holds no lock on any item, and no other
    -- transaction's locks have changed. Before, its lock set lists the items that it has a lock on, and
    -- the locks on an item are compatible.
    pub abort-Aborted :
        (s : TransactionManager E) (x : Transaction) (w v : W)
        → s.txn_map x.txn_id ≡ some x
        → ((j : LockDataId) → Compatible (requests s.lock_manager j))
        → ((j : LockDataId)
            → contains j x.lock_set ≡ holds (held_mode x.txn_id (requests s.lock_manager j)))
        → (log_abort x.txn_id x s).1 ≡ ok tt
        → Undone x.write_set w v
        → (s' : TransactionManager E) × (abort D tabs (some x.txn_id) (s, w)
            ≡ some ((s', v), ok tt))
          × Aborted s x s'
    unfolding abort abort_found
    abort-Aborted s x w v found c agree l u = (
      end E TransactionState.aborted x.txn_id (log_abort x.txn_id x s).0,
      ap (λ (o : Option Transaction). abort_found D tabs x.txn_id o (s, w)) found
          ∙ logged-ok x.txn_id x.write_set w v (log_abort x.txn_id x s) l u,
      end-Aborted s (log_abort x.txn_id x s).0 x c agree (log_abort-Logs s x found),
    )

    -- A transaction whose abort record could be logged, where undoing one of its writes throws after
    -- those behind it were undone: `abort` throws the same, in the state that this leads to. The
    -- transaction has not ended: it keeps its state, its lock set and what is left of its write set,
    -- from that write on, and no lock is released.
    pub abort-Stays :
        (s : TransactionManager E) (x : Transaction) (done : List WriteRecord) (r : WriteRecord)
        (rs : List WriteRecord) (w v u : W) (e : Error)
        → s.txn_map x.txn_id ≡ some x
        → x.write_set ≡ done ++ r ∷ rs
        → (log_abort x.txn_id x s).1 ≡ ok tt
        → Undone done w v
        → undo_write D tabs r v ≡ some (u, throw e)
        → (s' : TransactionManager E) × (abort D tabs (some x.txn_id) (s, w)
            ≡ some ((s', u), throw e))
          × Stays s x (r ∷ rs) s'
    unfolding abort abort_found
    abort-Stays s x done r rs w v u e found parts l n k =
        let logged = log_abort x.txn_id x s in
        (
          left_to_undo x.txn_id (r ∷ rs) (logged.0.txn_map x.txn_id) logged.0,
          ap (λ (o : Option Transaction). abort_found D tabs x.txn_id o (s, w)) found
              ∙ ap (λ ws. abort_logged D tabs x.txn_id ws w logged) parts
              ∙ logged-throw x.txn_id done r rs w v u e logged l n k,
          left-Stays s logged.0 x (r ∷ rs) (log_abort-Logs s x found),
        )
