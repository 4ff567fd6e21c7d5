-- ===== src/BufferPool/Load.antt =====
-- `update_page` and the read that follows it load a page into a taken frame.
use claude_opus.Base.{ℕ, ◌≡◌, refl, sym, ap, ◌∙◌, ◌≢◌, ite, ℕ_discrete, Bool, Option, some, arith}
use claude_opus.Errors.{Result, ok}
use claude_opus.Disk.{PageId, whole, checked, read_page}
use claude_opus.BufferPool.{
  Setup, Pool, bind, invalid_page_id, install, update_page, write_back_dirty, place, read_frame,
  load, pin_once,
}
use claude_opus.BufferPool.WriteBack.{read_at, Written, write_back_dirty-Written, bind-ok}
use claude_opus.BufferPool.Loaded.{Loaded, place-ok, checked-ok}

module _ (E : Setup) where
  open E use {os, policy as R}
  open R use {victim_none, victim_some, frames-pin, frames-Distinct}

  abbrev with_content : ℕ → E.format.Data → Pool E → Pool E
  with_content f d s = record s {
    pages = λ k. ite (ℕ_discrete k f) (record (s.pages k) { content = d }) (s.pages k);
  }

  abbrev after_write : ℕ → PageId → Unit {0} → Pool E → Pool E × Result (Unit {0})
  after_write f id _ t = (install E f id t, ok tt)

  pub update_page-ok :
      (f : ℕ) (id : PageId) (s : Pool E)
      → (update_page E f id s).1 ≡ ok tt
      → ((write_back_dirty E f s).1 ≡ ok tt)
        × (update_page E f id s ≡ (install E f id (write_back_dirty E f s).0, ok tt))
  unfolding update_page
  update_page-ok f id s h =
      let (_, e, q) = bind-ok E (write_back_dirty E f s) (after_write f id) tt h in (e, q)

  -- The state that a successful `load` leaves, from the state after the write-back.
  abbrev loaded : ℕ → PageId → E.format.Data → Pool E → Pool E
  loaded f id d t = pin_once E f (with_content f d (install E f id t))

  abbrev after_read : ℕ → Unit {0} → Pool E → Pool E × Result (Option ℕ)
  after_read f _ t = (pin_once E f t, ok (some f))

  abbrev after_update : ℕ → PageId → Unit {0} → Pool E → Pool E × Result (Option ℕ)
  after_update f id _ t =
      bind E (place E f (checked os (os.read t.disk_manager.world id)) t) (after_read f)

  load-final :
      (s : Pool E) (id : PageId) (f : ℕ) (o : Option ℕ)
      → (load E id (some f) s).1 ≡ ok o
      → ((write_back_dirty E f s).1 ≡ ok tt)
        × ((d : E.format.Data) × (read_at E (install E f id (write_back_dirty E f s).0) id
              ≡ whole d)
            × (load E id (some f) s ≡ (loaded f id d (write_back_dirty E f s).0, ok (some f))))
  unfolding load read_frame read_page
  load-final s id f o h =
      let (_, e, q) = bind-ok E (update_page E f id s) (after_update f id) o h in
      let (written, u) = update_page-ok f id s e in
      let t = install E f id (write_back_dirty E f s).0 in
      let q' = q ∙ ap (λ (x : Pool E × Result (Unit {0})). after_update f id tt x.0) u in
      let (_, e2, q2) =
        bind-ok E (place E f (checked os (os.read t.disk_manager.world id)) t) (after_read f) o
          (sym (ap (λ (x : Pool E × Result (Option ℕ)). x.1) q') ∙ h) in
      let (d, got, p) = place-ok E f (checked os (os.read t.disk_manager.world id)) t e2 in
      (written, (d, checked-ok E _ d got, q' ∙ q2 ∙ ap (after_read f tt) p))

  loaded-Loaded :
      (b : Bool) (f : ℕ) (id : PageId) (d : E.format.Data) (s t : Pool E)
      → id.page_no ≢ invalid_page_id
      → Written E b f s t
      → b ≡ (s.pages f).is_dirty
      → Loaded E f id d s (loaded f id d t)
  unfolding install
  loaded-Loaded b f id d s t valid w e = record {
    size = ground (arith, w.size);
    own = ground (arith, w.dirty f, w.pins f);
    others = λ g h. ground (arith, w.dirty g, w.pins g, w.ids g, w.contents g);
    table = λ j. ground (arith, w.ids f, w.table);
    free = ground (arith, w.free);
    policy = ground (arith, w.policy);
    reads = λ j. ground (arith, w.reads j);
  }

  pub load-Loaded :
      (s : Pool E) (id : PageId) (f : ℕ) (o : Option ℕ)
      → id.page_no ≢ invalid_page_id
      → (load E id (some f) s).1 ≡ ok o
      → (o ≡ some f)
        × ((d : E.format.Data) × Loaded E f id d s (load E id (some f) s).0
            × (read_at E (load E id (some f) s).0 id ≡ whole d))
  load-Loaded s id f o valid h =
      let (written, (d, got, q)) = load-final s id f o h in
      let w = write_back_dirty-Written E f s written in
      (ground (arith, q), rw q (d, loaded-Loaded _ f id d s _ valid w refl, got))
