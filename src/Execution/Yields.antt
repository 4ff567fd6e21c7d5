-- ===== src/Execution/Yields.antt =====
-- What a client may rely on: an executor yields a list of records. The database keeps a property `I`
-- (its tables hold what they hold) in all calls.
use claude_opus.Base.{
  ◌≡◌, refl, ◌∙◌, ap, ℕ, zero, suc, ◌<◌, arith, true, false, Option, some, List, [], ◌∷◌, length,
}
use claude_opus.Errors.{Result, ok}
use claude_opus.Calls.{M, bind}
use claude_opus.Execution.{Executor, returned, on_child, drain, collect}

-- A call returns `a`; the database keeps `I`, and the executor's state gets the property `Q`.
pub record Returns {W S A : Type 0} (I : W → Type 0) (Q : S → Type 0) (a : A)
    (o : Option ((W × S) × Result A)) : Type 0 where
  pub world : W
  pub own : S
  pub result : o ≡ some ((world, own), ok a)
  pub kept : I world
  pub holds : Q own

module _ {W : Type 0} (I : W → Type 0) where
  pub Returns-bind :
      {S A B : Type 0} {Q R : S → Type 0} {a : A} {b : B} {o : Option ((W × S) × Result A)}
      (k : A → M (W × S) B)
      → Returns I Q a o
      → ((w : W) (s : S) → I w → Q s → Returns I R b (k a (w, s)))
      → Returns I R b (bind o k)
  Returns-bind k m f =
      let n = f m.world m.own m.kept m.holds in
      record {
        world = n.world;
        own = n.own;
        result = ap (λ x. bind x k) m.result ∙ n.result;
        kept = n.kept;
        holds = n.holds;
      }

  -- The same behind a call that leaves the executor's state alone.
  pub Returns-bind_same :
      {S A B : Type 0} {s : S} {R : S → Type 0} {a : A} {b : B} {o : Option ((W × S) × Result A)}
      (k : A → M (W × S) B)
      → Returns I (λ s'. s' ≡ s) a o
      → ((w : W) → I w → Returns I R b (k a (w, s)))
      → Returns I R b (bind o k)
  Returns-bind_same k m f = Returns-bind k m (λ w s' i q. rw q (f w i))

  pub Returns-return :
      {S A : Type 0} {Q : S → Type 0} {a : A} (w : W) (s : S)
      → I w
      → Q s
      → Returns I Q a (some ((w, s), ok a))
  Returns-return w s i q = record { world = w; own = s; result = refl; kept = i; holds = q }

  pub Returns-weaken :
      {S A : Type 0} {Q R : S → Type 0} {a : A} {o : Option ((W × S) × Result A)}
      → Returns I Q a o
      → ((s : S) → Q s → R s)
      → Returns I R a o
  Returns-weaken m f = record {
    world = m.world;
    own = m.own;
    result = m.result;
    kept = m.kept;
    holds = f m.own m.holds;
  }

  -- What a child's call does to its parent.
  pub Returns-on_child :
      {S T A : Type 0} {Q : S → Type 0} {R : T → Type 0} {a : A} (get : T → S) (put : S → T → T)
      (m : M (W × S) A) (w : W) (t : T)
      → Returns I Q a (m (w, get t))
      → ((s : S) → Q s → R (put s t))
      → Returns I R a (on_child get put m (w, t))
  unfolding on_child returned
  Returns-on_child get put m w t c f = record {
    world = c.world;
    own = put c.own t;
    result = ap (returned get put t) c.result;
    kept = c.kept;
    holds = f c.own c.holds;
  }

  module _ {S : Type 0} (e : Executor W S) where
    -- From a state on, exactly these records come, in this order. `Next` can be called any number of
    -- times, or not at all.
    abbrev pub Yields : List (List ℕ) → S → Type 0
    Yields [] s = (w : W) → I w → e.is_end (w, s) ≡ true
    Yields (r ∷ rs) s =
        ((w : W) → I w → e.is_end (w, s) ≡ false)
        × ((w : W) → I w → Returns I (λ s'. s' ≡ s) r (e.next (w, s)))
        × ((w : W) → I w → Returns I (Yields rs) tt (e.next_tuple (w, s)))

    -- A run from any state yields the records.
    abbrev pub Produces : List (List ℕ) → Type 0
    Produces rs = (w : W) (s : S) → I w → Returns I (Yields rs) tt (e.begin_tuple (w, s))

    -- The loop over an executor that yields records returns them, if it may test for the end once
    -- more than there are records.
    pub drain-Yields :
        (rs : List (List ℕ)) (fuel : ℕ) (w : W) (s : S)
        → length rs < fuel
        → I w
        → Yields rs s
        → Returns I (Yields []) rs (drain e fuel (w, s))
    unfolding drain
    drain-Yields rs zero w s h i y = ground arith
    drain-Yields [] (suc fuel) w s h i y = rw (y w i, drain) (Returns-return w s i y)
    drain-Yields (r ∷ rs) (suc fuel) w s h i y =
        rw (y.0 w i, drain)
          (Returns-bind_same _ (y.1 w i) (λ w' i'. Returns-bind _ (y.2 w' i') (λ w'' s'' i'' y'.
            Returns-bind _ (drain-Yields rs fuel w'' s'' (omega arith) i'' y')
              (λ w3 s3 i3 q3. Returns-return w3 s3 i3 q3))))

    pub collect-Produces :
        (rs : List (List ℕ)) (fuel : ℕ) (w : W) (s : S)
        → Produces rs
        → length rs < fuel
        → I w
        → Returns I (Yields []) rs (collect e fuel (w, s))
    unfolding collect
    collect-Produces rs fuel w s p h i =
        Returns-bind _ (p w s i) (λ w' s' i' y. drain-Yields rs fuel w' s' h i' y)
