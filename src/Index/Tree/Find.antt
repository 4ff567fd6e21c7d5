-- ===== src/Index/Tree/Find.antt =====
-- Searches in the tree. A descent takes as many rounds as it is given; a tree that is deeper is not
-- searched to its end.
use claude_opus.Base.{
  ℕ, zero, suc, ℤ, ℤ-discrete, Bool, true, false, ite, leb, if◌then◌else◌, Option, none, some,
}
use claude_opus.Errors.{Error, ok, throw}
use claude_opus.Txn.{Rid}
use claude_opus.Calls.{M, ◌>>=◌, ◌>>◌, return, asks}
use claude_opus.Index.Node.{
  IxNode, lower_bound as node_lower_bound, internal_lookup, value_at, leaf_lookup, holds,
}
use claude_opus.Index.Tree.{IxSetup, IxIndexHandle, node_at, page_no_at, unpin_node, fetch_node}

-- `Iid` of index/ix_defs.h.
pub record Iid : Type 0 where
  pub page_no : ℤ
  pub slot_no : ℕ

module _ (I : IxSetup) where
  open I use {order}
  open order use {Key}

  -- The loop of `find_leaf_page`.
  unfoldable pub descend : ℕ → Key → Bool → ℕ → M (IxIndexHandle I) ℕ
  unfolding unpin_node fetch_node value_at internal_lookup
  descend zero key find_first f s = none
  descend (suc n) key find_first f s = elim (node_at I s f).is_leaf [
    | true ↦ some (s, ok f)
    | false ↦
        (do
          child ← asks (λ s'.
              if find_first
              then value_at order (node_at I s' f) 0
              else internal_lookup order (node_at I s' f) key)
          unpin_node I f false
          g ← fetch_node I child
          descend n key find_first g)
          s
  ]

  unfoldable pub find_leaf_page : ℕ → Key → Bool → M (IxIndexHandle I) ℕ
  unfolding descend
  find_leaf_page height key find_first s =
      (do f ← fetch_node I s.file_hdr.root_page; descend height key find_first f) s

  -- Whether the key was found, and the identifier that `result` gets.
  unfoldable pub get_value : ℕ → Key → M (IxIndexHandle I) (Option Rid)
  unfolding find_leaf_page leaf_lookup unpin_node
  get_value height key = do
    f ← find_leaf_page height key false
    found ← asks (λ s. leaf_lookup order (node_at I s f) key)
    unpin_node I f false
    return found

  unfoldable pub get_rid : Iid → M (IxIndexHandle I) Rid
  unfolding fetch_node unpin_node
  get_rid iid = do
    f ← fetch_node I iid.page_no
    λ s.
        if leb (node_at I s f).num_key iid.slot_no
        then some (s, throw Error.index_entry_not_found_error)
        else (do
          rid ← asks (λ s'. (node_at I s' f).rids iid.slot_no)
          unpin_node I f false
          return rid)
            s

  -- Behind a leaf's last entry stands the first one of the next leaf, if there is one.
  unfoldable pub iid_at : IxIndexHandle I → ℕ → ℕ → Iid
  unfolding ℤ-discrete
  iid_at s f i =
      if leb (node_at I s f).num_key i
      then ite (ℤ-discrete (page_no_at I s f) s.file_hdr.last_leaf)
          (record { page_no = page_no_at I s f; slot_no = i })
          (record { page_no = (node_at I s f).next_leaf; slot_no = 0 })
      else record { page_no = page_no_at I s f; slot_no = i }

  unfoldable pub lower_bound : ℕ → Key → M (IxIndexHandle I) Iid
  unfolding find_leaf_page node_lower_bound iid_at unpin_node
  lower_bound height key = do
    f ← find_leaf_page height key false
    iid ← asks (λ s. iid_at s f (node_lower_bound order (node_at I s f) key))
    unpin_node I f false
    return iid

  -- The first position whose key is above, in a node.
  unfoldable pub position_above : IxNode order → Key → ℕ
  unfolding node_lower_bound
  position_above n key =
      let i = node_lower_bound order n key in if holds order n i key then suc i else i

  unfoldable pub upper_bound : ℕ → Key → M (IxIndexHandle I) Iid
  unfolding find_leaf_page position_above iid_at unpin_node
  upper_bound height key = do
    f ← find_leaf_page height key false
    iid ← asks (λ s. iid_at s f (position_above (node_at I s f) key))
    unpin_node I f false
    return iid

  unfoldable pub leaf_end : M (IxIndexHandle I) Iid
  unfolding fetch_node unpin_node
  leaf_end s =
      (do
        f ← fetch_node I s.file_hdr.last_leaf
        iid ←
            asks
              (λ s'. record { page_no = s.file_hdr.last_leaf; slot_no = (node_at I s' f).num_key })
        unpin_node I f false
        return iid)
        s

  unfoldable pub leaf_begin : IxIndexHandle I → Iid
  leaf_begin s = record { page_no = s.file_hdr.first_leaf; slot_no = 0 }
