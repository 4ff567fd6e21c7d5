-- ===== src/Index/Tree.antt =====
-- The B+ tree: `IxIndexHandle` of index/ix_index_handle.h and ix_index_handle.cpp, over the buffer
-- pool, and `IxFileHdr` of index/ix_defs.h. A node handle is the frame that its page is in. The latch
-- on the root makes each call one step. Where a page is missing the code reads through a null
-- pointer: an assertion that fails.
use claude_opus.Base.{
  ℕ, zero, suc, ◌+◌, ◌/◌, ◌≡◌, ℤ, pos, negsuc, suc_ℤ, ℤ-discrete, Bool, true, false, ite, ltb,
  if◌then◌else◌, Option, none, some,
}
use claude_opus.Errors.{Error, Result, ok, throw}
use claude_opus.Disk.{PageId}
use claude_opus.Txn.{Rid}
use claude_opus.BufferPool.{Setup, Pool, fetch_page, unpin_page, new_page, delete_page, set_page}
use claude_opus.Index.Keys.{KeyOrder}
use claude_opus.Index.Node.{IxNode, ix_no_page, value_at, find_child}
use claude_opus.Calls.{M, bind, ◌>>=◌, ◌>>◌, return, modify, asks, raise}
pub mod Find
pub mod Insert
pub mod Delete
pub mod Halves
pub mod Scan
mod Tests

-- What the tree is built over: the keys, the pool, and how a page's bytes are read as a
-- node; two keys are the same for `memcmp` if they are equal.
pub record IxSetup : Type 1 where
  pub order : KeyOrder
  pub setup : Setup
  pub view : setup.format.Data → IxNode order
  pub store : IxNode order → setup.format.Data → setup.format.Data
  pub key_discrete : Discrete order.Key

-- The fields that the tree reads; those on the columns are behind the order of the keys.
pub record IxFileHdr : Type 0 where
  pub num_pages : ℤ
  pub root_page : ℤ
  pub btree_order : ℕ
  pub first_leaf : ℤ
  pub last_leaf : ℤ

abbrev pub pred_ℤ : ℤ → ℤ
pred_ℤ (pos zero) = negsuc 0
pred_ℤ (pos (suc n)) = pos n
pred_ℤ (negsuc n) = negsuc (suc n)

module _ (I : IxSetup) where
  open I use {order, setup, view, store}

  pub record IxIndexHandle : Type 0 where
    pub fd : ℤ
    pub file_hdr : IxFileHdr
    pub pool : Pool setup

  abbrev pub node_at : IxIndexHandle → ℕ → IxNode order
  node_at s f = view (s.pool.pages f).content

  abbrev pub page_no_at : IxIndexHandle → ℕ → ℤ
  page_no_at s f = (s.pool.pages f).id.page_no

  abbrev pub change_node : ℕ → (IxNode order → IxNode order) → IxIndexHandle → IxIndexHandle
  change_node f g s = record s {
    pool =
        set_page setup f (λ p. record p { content = store (g (view p.content)) p.content }) s.pool;
  }

  abbrev pub on_pool : {A : Type 0} → (Pool setup → Pool setup × Result A) → M IxIndexHandle A
  on_pool m s = let (p, r) = m s.pool in some (record s { pool = p }, r)

  -- `unpin_page(node->get_page_id(), is_dirty)`, whose result is not looked at.
  unfoldable pub unpin_node : ℕ → Bool → M IxIndexHandle (Unit {0})
  unpin_node f is_dirty s =
      (do _ ← on_pool (unpin_page setup (s.pool.pages f).id is_dirty); return tt) s

  abbrev pub found_node : Option ℕ → M IxIndexHandle ℕ
  found_node none = raise Error.assertion_failed
  found_node (some f) = return f

  unfoldable pub fetch_node : ℤ → M IxIndexHandle ℕ
  fetch_node page_no s =
      (on_pool (fetch_page setup (record { fd = s.fd; page_no = page_no })) >>= found_node) s

  abbrev pub made_node : Option (PageId × ℕ) → M IxIndexHandle ℕ
  made_node none = raise Error.assertion_failed
  made_node (some (id, f)) = return f

  unfoldable pub create_node : M IxIndexHandle ℕ
  create_node s =
      (on_pool (new_page setup s.fd) >>= made_node)
        (record s { file_hdr = record s.file_hdr { num_pages = suc_ℤ s.file_hdr.num_pages } })

  -- `delete_page`, whose result is not looked at.
  unfoldable pub drop_node : ℕ → M IxIndexHandle (Unit {0})
  drop_node f s = (do _ ← on_pool (delete_page setup (s.pool.pages f).id); return tt) s

  unfoldable pub get_max_size : IxIndexHandle → ℕ
  get_max_size s = s.file_hdr.btree_order + 1

  unfoldable pub get_min_size : IxIndexHandle → ℕ
  unfolding get_max_size
  get_min_size s = get_max_size s / 2

  unfoldable pub is_root_page : IxNode order → Bool
  unfolding ℤ-discrete
  is_root_page n = ite (ℤ-discrete n.parent (negsuc 0)) true false

  abbrev pub update_root_page_no : ℤ → IxIndexHandle → IxIndexHandle
  update_root_page_no root s = record s { file_hdr = record s.file_hdr { root_page = root } }

  abbrev pub set_parent_page_no : ℤ → IxNode order → IxNode order
  set_parent_page_no p n = record n { parent = p }

  abbrev pub set_prev_leaf : ℤ → IxNode order → IxNode order
  set_prev_leaf p n = record n { prev_leaf = p }

  abbrev pub set_next_leaf : ℤ → IxNode order → IxNode order
  set_next_leaf p n = record n { next_leaf = p }

  -- A page is fetched, its node changed, and it is released dirty.
  abbrev pub with_node : ℤ → (IxNode order → IxNode order) → M IxIndexHandle (Unit {0})
  with_node page_no g = do f ← fetch_node page_no; modify (change_node f g); unpin_node f true

  unfoldable pub maintain_child : ℕ → ℕ → M IxIndexHandle (Unit {0})
  unfolding fetch_node unpin_node value_at
  maintain_child f child_idx s =
      if (node_at s f).is_leaf
      then some (s, ok tt)
      else (do
        c ← fetch_node (value_at order (node_at s f) child_idx)
        p ← asks (λ s'. page_no_at s' f)
        modify (change_node c (set_parent_page_no p))
        unpin_node c true)
          s

  -- `maintain_child` for the `count` children from `i` on.
  unfoldable pub maintain_children : ℕ → ℕ → ℕ → M IxIndexHandle (Unit {0})
  unfolding maintain_child
  maintain_children f i zero = return tt
  maintain_children f i (suc count) = do maintain_child f i; maintain_children f (suc i) count

  unfoldable pub release_node_handle : IxIndexHandle → IxIndexHandle
  release_node_handle s = record s {
    file_hdr = record s.file_hdr { num_pages = pred_ℤ s.file_hdr.num_pages };
  }

  -- The position of the child's entry, or a failed assertion.
  unfoldable pub find_entry : ℕ → ℕ → M IxIndexHandle ℕ
  unfolding find_child
  find_entry parent child s = elim (find_child order (node_at s parent) (page_no_at s child)) [
    | none ↦ some (s, throw Error.assertion_failed)
    | some i ↦ some (s, ok i)
  ]
