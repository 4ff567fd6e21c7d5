-- ===== src/Index/Tree/Delete.antt =====
-- Deletion from the tree: a node that is too small takes an entry from a neighbour or is merged into
-- it. Leaves and ancestors are followed as far as the given number of levels.
use claude_opus.Base.{
  ℕ, zero, suc, ◌+◌, ◌-◌, ℤ, ℤ-discrete, Bool, true, false, not, ◌&&◌, ite, ltb, leb, ◌==◌,
  if◌then◌else◌, none, some,
}
use claude_opus.Errors.{Error, ok, throw}
use claude_opus.BufferPool.{unpin_page}
use claude_opus.Calls.{M, ◌>>=◌, ◌>>◌, return, modify, asks, raise}
use claude_opus.Index.Node.{
  ix_no_page, value_at, remove, insert_pair, insert_pairs, erase_pair, set_key,
}
use claude_opus.Index.Tree.{
  IxSetup, IxFileHdr, IxIndexHandle, node_at, page_no_at, change_node, on_pool, unpin_node,
  fetch_node, drop_node, get_min_size, is_root_page, update_root_page_no, set_parent_page_no,
  set_prev_leaf, set_next_leaf, maintain_child, maintain_children, release_node_handle, find_entry,
}
use claude_opus.Index.Tree.Find.{find_leaf_page}

module _ (I : IxSetup) where
  open I use {order, setup, key_discrete}
  open order use {Key}

  abbrev pub size : ℕ → M (IxIndexHandle I) ℕ
  size f = asks (λ s. (node_at I s f).num_key)

  -- `assert(unpin_page(...))`.
  unfoldable pub unpin_asserted : ℕ → M (IxIndexHandle I) (Unit {0})
  unpin_asserted f s =
      (do
        released ← on_pool I (unpin_page setup (s.pool.pages f).id true)
        if released then return tt else raise Error.assertion_failed)
        s

  -- The loop of `maintain_parent`. The parent is released before the next round reads it.
  unfoldable pub maintain_parent : ℕ → ℕ → M (IxIndexHandle I) (Unit {0})
  unfolding ℤ-discrete fetch_node find_entry set_key unpin_asserted
  maintain_parent zero curr s = none
  maintain_parent (suc n) curr s = elim (ℤ-discrete (node_at I s curr).parent ix_no_page) [
    | yes _ ↦ some (s, ok tt)
    | no _ ↦
        (do
          p ← fetch_node I (node_at I s curr).parent
          rank ← find_entry I p curr
          λ s'. elim (key_discrete ((node_at I s' p).keys rank) ((node_at I s' curr).keys 0)) [
            | yes _ ↦ unpin_asserted p s'
            | no _ ↦
                (do
                  modify (change_node I p (λ m. set_key order m rank ((node_at I s' curr).keys 0)))
                  unpin_asserted p
                  maintain_parent n p)
                  s'
          ])
          s
  ]

  unfoldable pub erase_leaf : ℕ → M (IxIndexHandle I) (Unit {0})
  unfolding fetch_node unpin_node
  erase_leaf f s =
      if not (node_at I s f).is_leaf
      then some (s, throw Error.assertion_failed)
      else (do
        prev ← fetch_node I (node_at I s f).prev_leaf
        modify (λ s'. change_node I prev (set_next_leaf I (node_at I s' f).next_leaf) s')
        unpin_node I prev true
        next_no ← asks (λ s'. (node_at I s' f).next_leaf)
        next ← fetch_node I next_no
        modify (λ s'. change_node I next (set_prev_leaf I (node_at I s' f).prev_leaf) s')
        unpin_node I next true)
          s

  -- `remove_and_return_only_child`, with its first assertion.
  unfoldable pub remove_and_return_only_child : ℕ → M (IxIndexHandle I) ℤ
  unfolding value_at erase_pair
  remove_and_return_only_child f s =
      if (node_at I s f).num_key == 1
      then some
          (change_node I f (λ n. erase_pair order n 0) s, ok (value_at order (node_at I s f) 0))
      else some (s, throw Error.assertion_failed)

  unfoldable pub adjust_root : ℕ → M (IxIndexHandle I) Bool
  unfolding remove_and_return_only_child fetch_node unpin_node release_node_handle
  adjust_root f s =
      if not (node_at I s f).is_leaf && ((node_at I s f).num_key == 1)
      then (do
        child ← remove_and_return_only_child f
        r ← fetch_node I child
        modify (change_node I r (set_parent_page_no I ix_no_page))
        modify (update_root_page_no I child)
        unpin_node I r true
        modify (release_node_handle I)
        return true)
          s
      else some (s, ok false)

  -- An entry moves from the neighbour on the right to the end of the node.
  unfoldable pub take_from_right : ℕ → ℕ → ℕ → M (IxIndexHandle I) (Unit {0})
  unfolding insert_pair erase_pair maintain_child find_entry set_key
  take_from_right neighbor f parent = do
    modify (λ s.
        change_node I f
          (λ n.
            insert_pair order n n.num_key ((node_at I s neighbor).keys 0)
              ((node_at I s neighbor).rids 0))
          s)
    modify (change_node I neighbor (λ n. erase_pair order n 0))
    n ← size f
    maintain_child I f (n - 1)
    i ← find_entry I parent neighbor
    modify (λ s. change_node I parent (λ m. set_key order m i ((node_at I s neighbor).keys 0)) s)

  -- The last entry of the neighbour on the left moves to the front of the node.
  unfoldable pub take_from_left : ℕ → ℕ → ℕ → ℕ → M (IxIndexHandle I) (Unit {0})
  unfolding insert_pair erase_pair maintain_child set_key
  take_from_left neighbor f parent index = do
    n ← size neighbor
    modify (λ s.
        change_node I f
          (λ m.
            insert_pair order m 0 ((node_at I s neighbor).keys (n - 1))
              ((node_at I s neighbor).rids (n - 1)))
          s)
    modify (change_node I neighbor (λ m. erase_pair order m (n - 1)))
    maintain_child I f 0
    modify (λ s. change_node I parent (λ m. set_key order m index ((node_at I s f).keys 0)) s)

  unfoldable pub redistribute : ℕ → ℕ → ℕ → ℕ → M (IxIndexHandle I) (Unit {0})
  unfolding take_from_right take_from_left
  redistribute neighbor f parent index =
      if index == 0
      then take_from_right neighbor f parent
      else take_from_left neighbor f parent index

  -- All entries of the node go into the neighbour, from position `i` on; the children follow, or the
  -- leaf leaves the list of leaves, of which the neighbour may become an end.
  unfoldable pub merge :
      ℕ → ℕ → ℕ → (ℤ → ℤ → IxFileHdr → IxFileHdr) → M (IxIndexHandle I) (Unit {0})
  unfolding insert_pairs maintain_children erase_leaf
  merge neighbor f i move_end = do
    count ← size f
    modify (λ s.
        change_node I neighbor
          (λ n. insert_pairs order n i (node_at I s f).keys (node_at I s f).rids count) s)
    λ s.
        if not (node_at I s neighbor).is_leaf
        then maintain_children I neighbor i count s
        else (do
          erase_leaf f
          modify (λ s'. record s' {
            file_hdr = move_end (page_no_at I s' f) (page_no_at I s' neighbor) s'.file_hdr;
          }))
            s

  abbrev pub move_first : ℤ → ℤ → IxFileHdr → IxFileHdr
  move_first old new h = record h {
    first_leaf = ite (ℤ-discrete h.first_leaf old) new h.first_leaf;
  }

  abbrev pub move_last : ℤ → ℤ → IxFileHdr → IxFileHdr
  move_last old new h = record h { last_leaf = ite (ℤ-discrete h.last_leaf old) new h.last_leaf }

  -- The two cases of `coalesce`, up to the call for the parent.
  unfoldable pub merge_nodes : ℕ → ℕ → ℕ → ℕ → M (IxIndexHandle I) (Unit {0})
  unfolding merge erase_pair set_key ℤ-discrete
  merge_nodes neighbor f parent index =
      if index == 0
      then (do
        merge neighbor f 0 move_first
        modify (λ s.
            change_node I parent
              (λ m. set_key order (erase_pair order m 0) 0 ((node_at I s neighbor).keys 0)) s))
      else (do
        n ← size neighbor
        merge neighbor f n move_last
        modify (change_node I parent (λ m. erase_pair order m index)))

  -- `coalesce`, given what is done about the parent.
  unfoldable pub coalesce :
      (ℕ → M (IxIndexHandle I) Bool) → ℕ → ℕ → ℕ → ℕ → M (IxIndexHandle I) Bool
  unfolding merge_nodes release_node_handle
  coalesce above neighbor f parent index = do
    merge_nodes neighbor f parent index
    modify (release_node_handle I)
    above parent

  -- A neighbour has entries to spare, or else the two nodes are merged.
  unfoldable pub with_neighbor :
      (ℕ → M (IxIndexHandle I) Bool) → ℕ → ℕ → ℕ → ℕ → M (IxIndexHandle I) Bool
  unfolding redistribute coalesce unpin_node drop_node get_min_size
  with_neighbor above f parent index neighbor s =
      if leb (get_min_size I s + get_min_size I s)
        ((node_at I s f).num_key + (node_at I s neighbor).num_key)
      then (do
        redistribute neighbor f parent index
        unpin_node I parent true
        unpin_node I neighbor true
        return false)
          s
      else (do
        parent_should_delete ← coalesce above neighbor f parent index
        unpin_node I parent true
        if parent_should_delete then drop_node I parent else return tt
        unpin_node I neighbor true
        return true)
          s

  -- `coalesce_or_redistribute`, by the levels above the node.
  unfoldable pub coalesce_or_redistribute : ℕ → ℕ → M (IxIndexHandle I) Bool
  unfolding is_root_page adjust_root get_min_size fetch_node find_entry value_at with_neighbor
  coalesce_or_redistribute zero f s = none
  coalesce_or_redistribute (suc n) f s = elim (is_root_page I (node_at I s f)) [
    | true ↦ adjust_root f s
    | false ↦ elim (leb (get_min_size I s) (node_at I s f).num_key) [
      | true ↦ some (s, ok false)
      | false ↦
          (do
            parent ← fetch_node I (node_at I s f).parent
            index ← find_entry I parent f
            sibling ←
                asks
                  (λ s'. value_at order (node_at I s' parent) (if index == 0 then 1 else index - 1))
            neighbor ← fetch_node I sibling
            with_neighbor (coalesce_or_redistribute n) f parent index neighbor)
            s
    ]
  ]

  -- What follows the removal from a leaf, if nothing was removed and if something was.
  unfoldable pub after_removal : ℕ → ℕ → Bool → M (IxIndexHandle I) Bool
  unfolding maintain_parent coalesce_or_redistribute unpin_node drop_node
  after_removal height f true = do unpin_node I f false; return false
  after_removal height f false = do
    λ s. if ltb 0 (node_at I s f).num_key then maintain_parent height f s else some (s, ok tt)
    leaf_should_delete ← coalesce_or_redistribute height f
    unpin_node I f true
    if leaf_should_delete then drop_node I f else return tt
    return true

  unfoldable pub delete_entry : ℕ → Key → M (IxIndexHandle I) Bool
  unfolding find_leaf_page remove after_removal unpin_node
  delete_entry height key = do
    f ← find_leaf_page I height key false
    size_before ← size f
    modify (change_node I f (λ n. remove order n key))
    size_after ← size f
    after_removal height f (size_after == size_before)
