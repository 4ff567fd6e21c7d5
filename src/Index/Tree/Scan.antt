-- ===== src/Index/Tree/Scan.antt =====
-- The scan of the leaves: index/ix_scan.h and ix_scan.cpp. A step never releases the page that it
-- fetches.
use claude_opus.Base.{ℕ, suc, ℤ-discrete, Bool, false, ◌&&◌, ◌==◌, ltb, if◌then◌else◌, ite, some}
use claude_opus.Errors.{Error, throw, ok}
use claude_opus.Txn.{Rid}
use claude_opus.Calls.{M, ◌>>=◌}
use claude_opus.Index.Tree.{IxSetup, IxIndexHandle, node_at, fetch_node}
use claude_opus.Index.Tree.Find.{Iid, get_rid}

pub record IxScan : Type 0 where
  pub iid : Iid
  pub end : Iid

-- `operator==` of `Iid`.
unfoldable pub iid_eq : Iid → Iid → Bool
unfolding ℤ-discrete
iid_eq x y = ite (ℤ-discrete x.page_no y.page_no) (x.slot_no == y.slot_no) false

unfoldable pub is_end : IxScan → Bool
unfolding iid_eq
is_end c = iid_eq c.iid c.end

module _ (I : IxSetup) where
  open I use {order}

  -- Behind an entry stands the next one of its leaf, or the first one of the next leaf, if the leaf
  -- is not the last.
  unfoldable pub following : IxIndexHandle I → ℕ → Iid → Iid
  unfolding ℤ-discrete
  following s f iid =
      ite (ℤ-discrete iid.page_no s.file_hdr.last_leaf) (record iid { slot_no = suc iid.slot_no })
        (if suc iid.slot_no == (node_at I s f).num_key
          then record { page_no = (node_at I s f).next_leaf; slot_no = 0 }
          else record iid { slot_no = suc iid.slot_no })

  unfoldable pub next : IxScan → M (IxIndexHandle I) IxScan
  unfolding is_end fetch_node following
  next c s =
      if is_end c
      then some (s, throw Error.assertion_failed)
      else (do
        f ← fetch_node I c.iid.page_no
        λ s'.
            if (node_at I s' f).is_leaf && ltb c.iid.slot_no (node_at I s' f).num_key
            then some (s', ok (record c { iid = following s' f c.iid }))
            else some (s', throw Error.assertion_failed))
          s

  unfoldable pub rid : IxScan → M (IxIndexHandle I) Rid
  unfolding get_rid
  rid c = get_rid I c.iid
