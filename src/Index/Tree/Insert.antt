-- ===== src/Index/Tree/Insert.antt =====
-- Insertion into the tree: a leaf that is full is split, and so are its ancestors, as far up as they
-- are full.
use claude_opus.Base.{
  ℕ, zero, suc, ◌+◌, ◌-◌, ◌/◌, ℤ, negsuc, ℤ-discrete, true, false, ite, ltb, leb, ◌==◌,
  if◌then◌else◌, none, some,
}
use claude_opus.Errors.{ok}
use claude_opus.Txn.{Rid}
use claude_opus.Calls.{M, ◌>>=◌, ◌>>◌, return, modify, asks}
use claude_opus.Index.Node.{IxNode, ix_no_page, insert, insert_pair, insert_pairs}
use claude_opus.Index.Tree.{
  IxSetup, IxIndexHandle, node_at, page_no_at, change_node, unpin_node, fetch_node, create_node,
  get_max_size, is_root_page, update_root_page_no, set_parent_page_no, set_prev_leaf, set_next_leaf,
  with_node, maintain_children, find_entry,
}
use claude_opus.Index.Tree.Find.{find_leaf_page}

module _ (I : IxSetup) where
  open I use {order}
  open order use {Key}

  -- The right half of a node, as a new node whose header says what the old one's says.
  unfoldable pub right_half : IxNode order → IxNode order → IxNode order
  unfolding insert_pairs
  right_half n fresh =
      let i = n.num_key / 2 in
      insert_pairs order
        (record fresh {
          is_leaf = n.is_leaf;
          num_key = 0;
          parent = n.parent;
          next_free_page_no = ix_no_page;
        })
        0 (λ j. n.keys (i + j)) (λ j. n.rids (i + j)) (n.num_key - i)

  unfoldable pub left_half : IxNode order → IxNode order
  left_half n = record n { num_key = n.num_key / 2 }

  -- A new leaf goes into the list of leaves behind the old one.
  unfoldable pub link_leaf : ℕ → ℕ → M (IxIndexHandle I) (Unit {0})
  unfolding fetch_node unpin_node
  link_leaf f g = do
    here ← asks (λ s. page_no_at I s f)
    new_page ← asks (λ s. page_no_at I s g)
    next ← asks (λ s. (node_at I s f).next_leaf)
    modify (change_node I g (λ n. set_next_leaf I next (set_prev_leaf I here n)))
    with_node I next (set_prev_leaf I new_page)
    modify (change_node I f (set_next_leaf I new_page))

  -- `split` moves the right half of the node in the frame `f` into the new one in `g`.
  unfoldable pub move_right_half : ℕ → ℕ → IxIndexHandle I → IxIndexHandle I
  unfolding right_half left_half
  move_right_half f g s = change_node I f left_half (change_node I g (right_half (node_at I s f)) s)

  unfoldable pub split : ℕ → M (IxIndexHandle I) ℕ
  unfolding create_node move_right_half link_leaf maintain_children
  split f = do
    g ← create_node I
    modify (move_right_half f g)
    λ s.
        if (node_at I s f).is_leaf
        then link_leaf f g s
        else maintain_children I g 0 (node_at I s g).num_key s
    return g

  abbrev pub entry_for : ℤ → Rid
  entry_for page_no = record { page_no = page_no; slot_no = negsuc 0 }

  -- The root was split: a new one takes both halves.
  unfoldable pub new_root_over : ℕ → Key → ℕ → M (IxIndexHandle I) (Unit {0})
  unfolding create_node insert_pair unpin_node
  new_root_over old key new = do
    r ← create_node I
    modify (λ s.
        change_node I r
          (λ n.
            insert_pair order
              (insert_pair order
                (record n {
                  is_leaf = false;
                  num_key = 0;
                  parent = ix_no_page;
                  next_free_page_no = ix_no_page;
                })
                0 ((node_at I s old).keys 0) (entry_for (page_no_at I s old)))
              1 key (entry_for (page_no_at I s new)))
          s)
    root ← asks (λ s. page_no_at I s r)
    modify (update_root_page_no I root)
    modify (change_node I old (set_parent_page_no I root))
    modify (change_node I new (set_parent_page_no I root))
    unpin_node I r true

  -- `insert_into_parent`, by the levels above the node.
  unfoldable pub insert_into_parent : ℕ → ℕ → Key → ℕ → M (IxIndexHandle I) (Unit {0})
  unfolding new_root_over is_root_page fetch_node find_entry insert_pair split get_max_size
      unpin_node
  insert_into_parent zero old key new s = none
  insert_into_parent (suc n) old key new s = elim (is_root_page I (node_at I s old)) [
    | true ↦ new_root_over old key new s
    | false ↦
        (do
          p ← fetch_node I (node_at I s old).parent
          i ← find_entry I p old
          new_page ← asks (λ s'. page_no_at I s' new)
          modify (change_node I p (λ m. insert_pair order m (i + 1) key (entry_for new_page)))
          parent_page ← asks (λ s'. page_no_at I s' p)
          modify (change_node I new (set_parent_page_no I parent_page))
          λ s'. elim (leb (get_max_size I s') (node_at I s' p).num_key) [
            | false ↦ some (s', ok tt)
            | true ↦
                (do
                  q ← split p
                  k ← asks (λ t. (node_at I t q).keys 0)
                  insert_into_parent n p k q
                  unpin_node I q true)
                  s'
          ]
          unpin_node I p true)
          s
  ]

  -- A full leaf is split, and the new one entered above.
  unfoldable pub split_full : ℕ → ℕ → M (IxIndexHandle I) (Unit {0})
  unfolding ℤ-discrete split insert_into_parent get_max_size unpin_node
  split_full height f s =
      if ltb (node_at I s f).num_key (get_max_size I s)
      then some (s, ok tt)
      else (do
        g ← split f
        modify (λ s'. record s' {
          file_hdr = record s'.file_hdr {
            last_leaf =
                ite (ℤ-discrete s'.file_hdr.last_leaf (page_no_at I s' f)) (page_no_at I s' g)
                  s'.file_hdr.last_leaf;
          };
        })
        k ← asks (λ s'. (node_at I s' g).keys 0)
        insert_into_parent height f k g
        unpin_node I g true)
          s

  unfoldable pub insert_entry : ℕ → Key → Rid → M (IxIndexHandle I) ℤ
  unfolding find_leaf_page insert split_full unpin_node
  insert_entry height key value = do
    f ← find_leaf_page I height key false
    size_before ← asks (λ s. (node_at I s f).num_key)
    modify (change_node I f (λ n. insert order n key value))
    size_after ← asks (λ s. (node_at I s f).num_key)
    leaf_page_no ← asks (λ s. page_no_at I s f)
    if size_after == size_before
        then unpin_node I f false
        else split_full height f >> unpin_node I f true
    return leaf_page_no
