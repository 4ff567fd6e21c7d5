-- ===== src/Index/Tree/Halves.antt =====
-- The two halves that `split` makes of a leaf have the leaf's entries.
use claude_opus.Base.{ℕ, ◌/◌}
use claude_opus.BufferPool.{Page}
use claude_opus.Index.Node.{IxNode}
use claude_opus.Index.Tree.{IxSetup, IxIndexHandle, node_at, change_node}
use claude_opus.Index.Tree.Insert.{right_half}

module _ (I : IxSetup) where
  open I use {order, setup, view, store}
  open order use {Key, ix_compare, compare_flip, compare_same, compare_trans}

  -- The key that `split` hands up.
  abbrev pub separator : IxNode order → Key
  separator n = n.keys (n.num_key / 2)

  -- What a page is read as when the node `n` has been stored in it.
  abbrev pub stored : IxNode order → setup.format.Data → IxNode order
  stored n d = view (store n d)

  abbrev as_node : Page setup → IxNode order
  as_node q = view q.content

  abbrev after : (IxNode order → IxNode order) → Page setup → IxNode order
  after h q = stored (h (as_node q)) q.content

  abbrev written : (IxNode order → IxNode order) → Page setup → Page setup
  written h q = record q { content = store (h (as_node q)) q.content }

  abbrev filled : ℕ → ℕ → IxIndexHandle I → IxIndexHandle I
  filled f g s = change_node I g (right_half I (node_at I s f)) s
