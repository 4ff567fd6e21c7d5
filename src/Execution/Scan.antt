-- ===== src/Execution/Scan.antt =====
-- `SeqScanExecutor` of execution/executor_seq_scan.h, and what `IndexScanExecutor` of
-- executor_index_scan.h shares with it: the records at the positions of a scan that fulfil all
-- conditions. The scan (`RecScan` of defs.h) is an interface, as are the lock and the table's records.
use Prim.Native.Nat.{Ordering}
use claude_opus.Base.{ℕ, zero, suc, Bool, true, false, none, List}
use claude_opus.Errors.{Result, ok, throw}
use claude_opus.Calls.{M, bind, ◌>>=◌, ◌>>◌, return, modify, raise}
use claude_opus.Txn.{Rid}
use claude_opus.Common.{ColMeta, Condition}
use claude_opus.Execution.{Executor, on_child}
use claude_opus.Execution.Conditions.{eval_conds}

-- `RecScan`, over a state `C` of its own.
pub record RecScan (W C : Type 0) : Type 0 where
  pub next : M (W × C) (Unit {0})
  pub is_end : W × C → Bool
  pub rid : M (W × C) Rid

-- The calls of the table: its lock, the construction of a scan, and `get_record`.
pub record Scanned (W C : Type 0) : Type 0 where
  pub lock_shared_on_table : M (W × C) (Unit {0})
  pub make_scan : M (W × C) (Unit {0})
  pub get_record : Rid → M (W × C) (List ℕ)

pub record ScanState (C : Type 0) : Type 0 where
  pub scan : C
  pub rid : Rid

abbrev put_scan : {C : Type 0} → C → ScanState C → ScanState C
put_scan c t = record t { scan = c }

module _ {W C : Type 0} (R : RecScan W C) (T : Scanned W C)
    (compare_float : List ℕ → List ℕ → Ordering) (cols : List ColMeta) (len : ℕ)
    (fed_conds : List Condition) (fuel : ℕ) where
  abbrev on_scan : {A : Type 0} → M (W × C) A → M (W × ScanState C) A
  on_scan = on_child (λ t. t.scan) put_scan

  -- `rid_ = scan_->rid()`.
  abbrev set_rid : Rid → M (W × ScanState C) (Unit {0})
  set_rid rid = modify (λ ws. (ws.0, record ws.1 { rid = rid }))

  pub checked : Result Bool → M (W × ScanState C) Bool
  checked (ok b) = return b
  checked (throw e) = raise e

  -- The body of the loop, and whether it returns.
  unfoldable pub try_record : M (W × ScanState C) Bool
  unfolding checked eval_conds
  try_record = do
    rid ← on_scan R.rid
    set_rid rid
    rec ← on_scan (T.get_record rid)
    checked (eval_conds compare_float cols fed_conds rec)

  unfoldable pub find_next_valid : ℕ → M (W × ScanState C) (Unit {0})
  unfolding try_record
  find_next_valid zero ws = none
  find_next_valid (suc n) ws = elim (R.is_end (ws.0, ws.1.scan)) [
    | true ↦ return tt ws
    | false ↦
        (do
          found ← try_record
          λ ws'. elim found [
            | true ↦ return tt ws'
            | false ↦ bind (on_scan R.next ws') (λ _ ws''. find_next_valid n ws'')
          ])
          ws
  ]

  begin_tuple : M (W × ScanState C) (Unit {0})
  begin_tuple = do on_scan T.lock_shared_on_table; on_scan T.make_scan; find_next_valid fuel

  next_tuple : M (W × ScanState C) (Unit {0})
  next_tuple = do on_scan R.next; find_next_valid fuel

  is_end : W × ScanState C → Bool
  is_end ws = R.is_end (ws.0, ws.1.scan)

  next : M (W × ScanState C) (List ℕ)
  next ws = on_scan (T.get_record ws.1.rid) ws

  unfoldable pub scan_executor : Executor W (ScanState C)
  unfolding begin_tuple next_tuple is_end next
  scan_executor = record {
    cols = cols;
    tuple_len = len;
    begin_tuple = begin_tuple;
    next_tuple = next_tuple;
    is_end = is_end;
    next = next;
  }
