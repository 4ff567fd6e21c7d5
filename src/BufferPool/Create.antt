-- ===== src/BufferPool/Create.antt =====
-- `new_page`: a page number that was not in use, and a zeroed frame for it.
use claude_opus.Base.{
  ℕ, ◌<◌, ◌≡◌, refl, sym, ap, ◌∙◌, ◌≢◌, ℤ, Bool, false, Option, none, some, arith, mem, subst,
  suc_ℤ,
}
use claude_opus.Errors.{Result, ok}
use claude_opus.Disk.{PageId, DiskManager, allocate_page}
use claude_opus.BufferPool.{
  Setup, Pool, Page, bind, invalid_page_id, find_victim_page, install, update_page,
  write_back_dirty, create, allocate, pin_once, new_page,
}
use claude_opus.BufferPool.WriteBack.{Written, write_back_dirty-Written, bind-ok}
use claude_opus.BufferPool.Invariant.{Inv, content, content-same}
use claude_opus.BufferPool.Victim.{find_victim_page-Taken}
use claude_opus.BufferPool.Loaded.{Loaded, Loaded-Inv, Loaded-content}
use claude_opus.BufferPool.Load.{update_page-ok}

module _ (E : Setup) where
  open E use {os, policy as R, format.{zeroed}}
  open R use {frames-unpin}

  abbrev with_disk : Pool E → DiskManager os → Pool E
  with_disk s dm = record s { disk_manager = dm }

  -- The page that the next `new_page` on a file makes.
  abbrev pub next_id : Pool E → ℤ → PageId
  next_id s fd = record { fd = fd; page_no = s.disk_manager.fd2pageno fd }

  -- What a successful `new_page` has done.
  pub record Created (id : PageId) (f : ℕ) (s t : Pool E) : Type 0 where
    pub inv : Inv E t
    pub entered : t.page_table id ≡ some f
    pub own : t.pages f ≡ record { id = id; content = zeroed; is_dirty = false; pin_count = 1 }
    pub same : (j : PageId) → j ≢ id → content E t j ≡ content E s j
    pub next : t.disk_manager.fd2pageno id.fd ≡ suc_ℤ id.page_no

  allocate-ok :
      (s : Pool E) (fd n : ℤ)
      → (allocate E fd s).1 ≡ ok n
      → (n ≡ s.disk_manager.fd2pageno fd)
        × ((allocate E fd s).0.disk_manager.world ≡ s.disk_manager.world)
        × ((allocate E fd s).0.disk_manager.fd2pageno fd ≡ suc_ℤ n)
        × ((allocate E fd s).0 ≡ with_disk s (allocate E fd s).0.disk_manager)
  unfolding allocate allocate_page
  allocate-ok s fd n h = (ground arith, ground arith, ground arith, refl)

  with_disk-Inv :
      (s : Pool E) (dm : DiskManager os)
      → dm.world ≡ s.disk_manager.world
      → Inv E s
      → Inv E (with_disk s dm)
  with_disk-Inv s dm w v = record {
    mapped = v.mapped;
    resident = v.resident;
    dirty_valid = v.dirty_valid;
    free_distinct = v.free_distinct;
    free_idle = v.free_idle;
    policy_valid = v.policy_valid;
    policy_idle = v.policy_idle;
    coherent = λ j g h p c. ground (arith, v.coherent j g);
  }

  installed-Loaded :
      (b : Bool) (f : ℕ) (id : PageId) (s t : Pool E)
      → id.page_no ≢ invalid_page_id
      → Written E b f s t
      → b ≡ (s.pages f).is_dirty
      → Loaded E f id zeroed s (pin_once E f (install E f id t))
  unfolding install
  installed-Loaded b f id s t valid w e = record {
    size = ground (arith, w.size);
    own = ground (arith, w.dirty f, w.pins f);
    others = λ g h. ground (arith, w.dirty g, w.pins g, w.ids g, w.contents g);
    table = λ j. ground (arith, w.ids f, w.table);
    free = ground (arith, w.free);
    policy = ground (arith, w.policy);
    reads = λ j. ground (arith, w.reads j);
  }

  abbrev after_update : PageId → ℕ → Unit {0} → Pool E → Pool E × Result (Option (PageId × ℕ))
  after_update id f _ t = (pin_once E f t, ok (some (id, f)))

  abbrev after_allocate : ℤ → ℕ → ℤ → Pool E → Pool E × Result (Option (PageId × ℕ))
  after_allocate fd f n t =
      bind E (update_page E f (record { fd = fd; page_no = n }) t)
        (after_update (record { fd = fd; page_no = n }) f)

  create-final :
      (s : Pool E) (fd : ℤ) (f : ℕ) (o : Option (PageId × ℕ))
      → (create E fd (some f) s).1 ≡ ok o
      → (n : ℤ) × ((allocate E fd s).1 ≡ ok n)
        × ((write_back_dirty E f (allocate E fd s).0).1 ≡ ok tt)
        × (create E fd (some f) s ≡ (
          pin_once E f (
              install E f
                (record { fd = fd; page_no = n })
                (write_back_dirty E f (allocate E fd s).0).0),
          ok (some (record { fd = fd; page_no = n }, f)),
        ))
  unfolding create
  create-final s fd f o h =
      let (n, e, q) = bind-ok E (allocate E fd s) (after_allocate fd f) o h in
      let id : PageId = record { fd = fd; page_no = n } in
      let t = (allocate E fd s).0 in
      let k : (bind E (update_page E f id t) (after_update id f)).1 ≡ ok o =
        sym (ap (λ (x : Pool E × Result (Option (PageId × ℕ))). x.1) q) ∙ h in
      let (_, e2, q2) = bind-ok E (update_page E f id t) (after_update id f) o k in
      let (written, u) = update_page-ok E f id t e2 in
      (n, e, written, q ∙ q2 ∙ ap (λ (x : Pool E × Result (Unit {0})). after_update id f tt x.0) u)

  fd2pageno-created :
      (f : ℕ) (id : PageId) (t : Pool E)
      → (pin_once E f (install E f id t)).disk_manager ≡ t.disk_manager
  unfolding install
  fd2pageno-created f id t = ground arith

  created_result :
      {a b : PageId × ℕ}
      → (let x : Result (Option (PageId × ℕ)) = ok (some a) in x) ≡ ok (some b)
      → a ≡ b
  created_result h = ground arith

  create-Created :
      (s : Pool E) (fd : ℤ) (f g : ℕ) (id : PageId)
      → Inv E s
      → s.page_table (next_id s fd) ≡ none
      → s.disk_manager.fd2pageno fd ≢ invalid_page_id
      → f < s.pool_size
      → (s.pages f).pin_count ≡ 0
      → mem f s.free_list ≡ false
      → (create E fd (some f) s).1 ≡ ok (some (id, g))
      → (id ≡ next_id s fd) × Created id g s (create E fd (some f) s).0
  create-Created s fd f g id v fresh valid small unpinned idle h =
      let (n, e, written, q) = create-final s fd f (some (id, g)) h in
      let (n_is, world, next, q_a) = allocate-ok s fd n e in
      let a = (allocate E fd s).0 in
      let new : PageId = record { fd = fd; page_no = n } in
      let w = write_back_dirty-Written E f a written in
      let v_a : Inv E a = subst (Inv E) (sym q_a) (with_disk-Inv s a.disk_manager world v) in
      let l = installed-Loaded (a.pages f).is_dirty f new a _ (ground (arith, n_is)) w refl in
      let u = pin_once E f (install E f new (write_back_dirty E f a).0) in
      let pages : a.pages ≡ s.pages = ap (λ (x : Pool E). x.pages) q_a in
      let table : a.page_table ≡ s.page_table = ap (λ (x : Pool E). x.page_table) q_a in
      let free : a.free_list ≡ s.free_list = ap (λ (x : Pool E). x.free_list) q_a in
      let size : a.pool_size ≡ s.pool_size = ap (λ (x : Pool E). x.pool_size) q_a in
      let absent : a.page_table new ≡ none = ground (arith, table, n_is) in
      let no_pin : (a.pages f).pin_count ≡ 0 = ground (arith, pages) in
      let same : (new, f) ≡ (id, g) =
        created_result (sym (ap (λ (x : Pool E × Result (Option (PageId × ℕ))). x.1) q) ∙ h) in
      let made : Created new f s u = record {
        inv =
            Loaded-Inv E f new zeroed a u v_a l (ground (arith, n_is)) absent (ground (arith, size))
              no_pin (ground (arith, free));
        entered = ground (arith, l.table new);
        own = l.own;
        same = λ j d.
            Loaded-content E f new zeroed a u v_a l absent no_pin j (λ p. absurd (d p))
            ∙ content-same E s a j (ap (λ (t : PageId → Option ℕ). t j) table)
                (ap (λ (x : os.World). os.read x j) world)
                (λ k. ap (λ (t : ℕ → Page E). (t k).content) pages);
        next =
            ground (arith, fd2pageno-created f new (write_back_dirty E f a).0, w.fd2pageno, next);
      } in
      (
        ground (arith, same, n_is),
        subst (λ (x : PageId × ℕ). Created x.0 x.1 s (create E fd (some f) s).0) same (rw q made),
      )

  create-none : (s : Pool E) (fd : ℤ) (x : PageId × ℕ) → (create E fd none s).1 ≢ ok (some x)
  unfolding create
  create-none s fd x h = cc

  -- A page that `new_page` returns has the next number of its file, which moves on by one. It stands
  -- zeroed in the frame, pinned once; no other page looks different, evicted pages included; and the
  -- pool stays consistent. This needs the next number to be valid and not in use in the pool.
  pub new_page-Created :
      (s : Pool E) (fd : ℤ) (id : PageId) (f : ℕ)
      → Inv E s
      → s.page_table (next_id s fd) ≡ none
      → s.disk_manager.fd2pageno fd ≢ invalid_page_id
      → (new_page E fd s).1 ≡ ok (some (id, f))
      → (id ≡ next_id s fd) × Created id f s (new_page E fd s).0
  unfolding new_page
  new_page-Created s fd id f v fresh valid h =
      let (o, p, q) = bind-ok E (find_victim_page E s) (create E fd) (some (id, f)) h in
      rw q (making o p (sym (ap (λ (x : Pool E × Result (Option (PageId × ℕ))). x.1) q) ∙ h))
    where
      making :
          (o : Option ℕ)
          → (find_victim_page E s).1 ≡ ok o
          → (create E fd o (find_victim_page E s).0).1 ≡ ok (some (id, f))
          → (id ≡ next_id s fd) × Created id f s (create E fd o (find_victim_page E s).0).0
      making none p k = absurd (create-none (find_victim_page E s).0 fd (id, f) k)
      making (some g) p k =
          let t = (find_victim_page E s).0 in
          let taken = find_victim_page-Taken E s g v p in
          let (named, c) =
            create-Created t fd g f id taken.inv (ground (arith, taken.table, taken.disk))
              (ground (arith, taken.disk)) (ground (arith, taken.size, taken.in_pool))
              (ground (arith, taken.pages, taken.unpinned)) taken.not_free k in
          (
            ground (arith, named, taken.disk),
            record {
              inv = c.inv;
              entered = c.entered;
              own = c.own;
              same = λ j d.
                  c.same j d
                  ∙ content-same E s t j (ground (arith, taken.table)) (ground (arith, taken.disk))
                      (λ n. ground (arith, taken.pages));
              next = c.next;
            },
          )
