-- ===== src/Index/Tree/Tests.antt =====
-- A tree whose pages are nodes with numbers as keys: entries go in until the root splits.
use claude_opus.Base.{ℕ, refl, pos, some, none, List, [], ◌++◌, ite, ℕ_discrete, Option}
use claude_opus.Errors.{Result}
use claude_opus.Disk.{PageId, PageId-discrete, Os, Transfer, whole}
use claude_opus.Txn.{Rid}
use claude_opus.Replacer.Lru.{init}
use claude_opus.Replacer.Lru.Policy.{lru}
use claude_opus.BufferPool.{new_pool}
use claude_opus.Index.Node.{IxNode}
use claude_opus.Calls.{M, ◌>>=◌}
use claude_opus.Index.Tests.{numbers, three_keys}
use claude_opus.Index.Tree.{IxSetup, IxIndexHandle, change_node}
use claude_opus.Index.Tree.Find.{get_value}
use claude_opus.Index.Tree.Insert.{insert_entry}
use claude_opus.Index.Tree.Delete.{delete_entry}

record Memory : Type 0 where
  pages : PageId → Transfer (IxNode numbers)
  log : List ℕ

abbrev memory : Os (IxNode numbers)
memory = record {
  World = Memory;
  read = λ w id. w.pages id;
  write = λ w id d.
      (record w { pages = λ j. ite (PageId-discrete j id) (whole d) (w.pages j) }, whole tt);
  append_log = λ w bs. (record w { log = w.log ++ bs }, whole tt);
  log_bytes = λ w. w.log;
  read-write = λ w id j d h. refl;
  log_bytes-write = λ w id d. refl;
  read-append_log = λ w bs j. refl;
  log_bytes-append_log = λ w bs h. refl;
}

-- An empty leaf that is the root, and the only one in the list of leaves behind its header page.
abbrev empty_leaf : IxNode numbers
empty_leaf = record three_keys {
  num_key = 0;
  keys = λ _. 0;
  rids = λ _. record { page_no = pos 0; slot_no = pos 0 };
}

abbrev numbered_pages : IxSetup
numbered_pages = record {
  order = numbers;
  setup = record {
    format = record { Data = IxNode numbers; zeroed = empty_leaf; page_lsn = λ _. pos 0 };
    os = memory;
    policy = lru;
  };
  view = λ d. d;
  store = λ n d. n;
  key_discrete = ℕ_discrete;
}

abbrev tree : IxIndexHandle numbered_pages
tree = record {
  fd = pos 0;
  file_hdr = record {
    num_pages = pos 3;
    root_page = pos 2;
    btree_order = 2;
    first_leaf = pos 2;
    last_leaf = pos 2;
  };
  pool =
      new_pool numbered_pages.setup 5
        (record {
          world = record { pages = λ _. whole empty_leaf; log = [] };
          fd2pageno = λ _. pos 3;
        })
        (init 5) (pos 3);
}

abbrev rid_of : ℕ → Rid
rid_of k = record { page_no = pos k; slot_no = pos 0 }

-- Five insertions and a deletion, and then a search.
abbrev run : M (IxIndexHandle numbered_pages) (Option Rid)
run = do
  _ ← insert_entry numbered_pages 3 10 (rid_of 10)
  _ ← insert_entry numbered_pages 3 30 (rid_of 30)
  _ ← insert_entry numbered_pages 3 20 (rid_of 20)
  _ ← insert_entry numbered_pages 3 25 (rid_of 25)
  _ ← insert_entry numbered_pages 3 5 (rid_of 5)
  _ ← delete_entry numbered_pages 3 30
  get_value numbered_pages 3 25

abbrev answer {ℓ} : {S A : Type ℓ} → Option (S × Result A) → Option (Result A)
answer none = none
answer (some (s, r)) = some r

outcome : Option (Result (Option Rid))
outcome = answer (run tree)

-- Frame 0 has a leaf with three keys, and frame 1 the new node.
abbrev full_tree : IxIndexHandle numbered_pages
full_tree = change_node numbered_pages 0 (λ _. three_keys) tree
