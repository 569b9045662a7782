-- ===== src/Deps/Search/Correct.antt =====
-- The search ends, and it visits exactly what can be reached (ribosome-deps/src/graph.rs).
use lysine_os.Base.{
  ℕ, zero, suc, ◌+◌, ◌≤◌, ◌<◌, Bool, true, false, ◌||◌, ◌&&◌, not, some, List, [], ◌∷◌, ◌++◌, ◌≡◌,
  refl, sym, ◌∙◌, subst, ◌⊎◌, inl, inr, ◌↔◌, arith, length, length-append, List-cases, ◌==◌,
  if◌then◌else◌, Bool-cases, ap,
}
use lysine_os.Deps.Search.{is_member, Frontier, push, offer_all, loop, search, search_unmarked}

pub is_member-append :
    (xs ys : List ℕ) (i : ℕ) → is_member (xs ++ ys) i ≡ (is_member xs i || is_member ys i)
unfolding is_member
is_member-append [] ys i = refl
is_member-append (x ∷ xs) ys i = ground (arith, is_member-append xs ys i)

pub is_member-one : (j i : ℕ) → is_member (j ∷ []) i ≡ true → i ≡ j
unfolding is_member
is_member-one j i m = ground arith

-- How many numbers below `n` are not visited.
abbrev unseen : ℕ → List ℕ → ℕ
unseen zero vs = 0
unseen (suc n) vs = (if is_member vs n then 0 else 1) + unseen n vs

unseen-above : (n i : ℕ) (vs : List ℕ) → n ≤ i → unseen n (i ∷ vs) ≡ unseen n vs
unfolding is_member
unseen-above zero i vs h = refl
unseen-above (suc n) i vs h = ground (arith, unseen-above n i vs)

unseen-cons :
    (n i : ℕ) (vs : List ℕ) → i < n → is_member vs i ≡ false → unseen n (i ∷ vs) + 1 ≡ unseen n vs
unfolding is_member
unseen-cons zero i vs h e = absurd (omega arith)
unseen-cons (suc n) i vs h e = ground (arith, unseen-cons n i vs, unseen-above n i vs)

unseen-le : (n : ℕ) (vs : List ℕ) → unseen n vs ≤ n
unseen-le zero vs = omega arith
unseen-le (suc n) vs = ground (arith, unseen-le n vs)

-- What one round adds: a node is visited afterwards if it was, or if it was offered, and new nodes
-- are queued.
offer_all-visited :
    (s : Frontier) (vs : List ℕ) (i : ℕ)
    → is_member (offer_all s vs).visited i ≡ (is_member s.visited i || is_member vs i)
unfolding offer_all is_member
offer_all-visited s [] i = ground arith
offer_all-visited s (v ∷ vs) i =
    ground (arith, offer_all-visited (push s v) vs i, offer_all-visited s vs i)

offer_all-queue :
    (s : Frontier) (vs : List ℕ) (i : ℕ)
    → is_member (offer_all s vs).queue i
      ≡ (is_member s.queue i || (is_member vs i && not (is_member s.visited i)))
unfolding offer_all is_member
offer_all-queue s [] i = ground arith
offer_all-queue s (v ∷ vs) i = ground (
  arith,
  offer_all-queue (push s v) vs i,
  offer_all-queue s vs i,
  is_member-append s.queue (v ∷ []) i,
)

offer_all-work :
    (n : ℕ) (s : Frontier) (vs : List ℕ)
    → ((i : ℕ) → is_member vs i ≡ true → i < n)
    → unseen n (offer_all s vs).visited + length (offer_all s vs).queue
      ≡ unseen n s.visited + length s.queue
unfolding offer_all is_member
offer_all-work n s [] h = refl
offer_all-work n s (v ∷ vs) h = elim (Bool-cases (is_member s.visited v)) [
  | inl e ↦ ground (arith, offer_all-work n s vs later)
  | inr e ↦ ground (
    arith,
    offer_all-work n (push s v) vs later,
    unseen-cons n v s.visited (h v first),
    length-append s.queue (v ∷ []),
  )
]
  where
    first : is_member (v ∷ vs) v ≡ true
    first = ground arith

    later : (i : ℕ) → is_member vs i ≡ true → i < n
    later i m = h i (ground arith)

abbrev nothing : Frontier
nothing = record { visited = []; queue = [] }

-- What the steps of `next` lead to.
pub data Reach (next : ℕ → List ℕ) (seeds : List ℕ) : ℕ → Type 0 where
  here : {v : ℕ} → is_member seeds v ≡ true → Reach next seeds v
  step : {u v : ℕ} → Reach next seeds u → is_member (next u) v ≡ true → Reach next seeds v

module _ (next : ℕ → List ℕ) (seeds : List ℕ) where
  record Inv (s : Frontier) : Type 0 where
    source : (v : ℕ) → is_member seeds v ≡ true → is_member s.visited v ≡ true
    queued : (v : ℕ) → is_member s.queue v ≡ true → is_member s.visited v ≡ true
    sound : (v : ℕ) → is_member s.visited v ≡ true → Reach next seeds v
    closed :
        (u v : ℕ)
        → is_member s.visited u ≡ true
        → is_member (next u) v ≡ true
        → (is_member s.queue u ≡ true) ⊎ (is_member s.visited v ≡ true)

  abbrev expand : Frontier → ℕ → List ℕ → Frontier
  expand s u rest = offer_all (record s { queue = rest }) (next u)

  Inv-expand :
      (s : Frontier) (u : ℕ) (rest : List ℕ) → s.queue ≡ u ∷ rest → Inv s → Inv (expand s u rest)
  Inv-expand s u rest e h =
      let s' = record s { queue = rest } in
      let seen = λ (i : ℕ). offer_all-visited s' (next u) i in
      let waits = λ (i : ℕ). offer_all-queue s' (next u) i in
      let at = λ (i : ℕ). queue-cons i in
      let to_u = h.sound u (h.queued u ((at u) ∙ eq_self u rest)) in
      record {
        source = λ v m. ground (arith, seen v, h.source v);
        queued = λ v q. ground (arith, seen v, waits v, h.queued v, at v);
        sound = λ v m. reached to_u v (h.sound v) (seen v) m;
        closed = λ x v m edge. ground (arith, seen v, seen x, waits x, h.closed x v, at x);
      }
    where
      queue-cons : (i : ℕ) → is_member s.queue i ≡ (i == u || is_member rest i)
      queue-cons i = rw e (unfold is_member in refl)

      eq_self : (u : ℕ) (rest : List ℕ) → (u == u || is_member rest u) ≡ true
      eq_self u rest = ground arith

      reached :
          {b c : Bool}
          → Reach next seeds u
          → (v : ℕ) → (b ≡ true → Reach next seeds v)
          → c ≡ (b || is_member (next u) v)
          → c ≡ true
          → Reach next seeds v
      reached {b = true} r v old e m = old refl
      reached {b = false} r v old e m = step r (ground arith)

  -- With an empty queue the visited nodes are closed under `next`.
  complete :
      (s : Frontier)
      → Inv s
      → s.queue ≡ []
      → {v : ℕ} → Reach next seeds v
      → is_member s.visited v ≡ true
  complete s h e (here {v} m) = h.source v m
  complete s h e (step {u} {v} r edge) = elim (h.closed u v (complete s h e r) edge) [
    | inl waiting ↦ absurd (not_queued (rw e at waiting))
    | inr m ↦ m
  ]
    where
      not_queued : is_member [] u ≡ true → ⊥
      not_queued w = unfold is_member in cc

  module _ (n : ℕ) (bounded : (u i : ℕ) → is_member (next u) i ≡ true → i < n) where
    -- A round takes one node from the queue, and queues only nodes that it marks as visited.
    loop_ends :
        (fuel : ℕ) (s : Frontier)
        → Inv s
        → unseen n s.visited + length s.queue ≤ fuel
        → (t : Frontier) × (loop next fuel s ≡ some t.visited) × Inv t × (t.queue ≡ [])
    loop_ends zero s h room = (s, done (List-cases s.queue), h, empty (List-cases s.queue))
      where
        Cases : Type 0
        Cases = (s.queue ≡ []) ⊎ ((u : ℕ) × (rest : List ℕ) × (s.queue ≡ u ∷ rest))

        empty : Cases → s.queue ≡ []
        empty (inl e) = e
        empty (inr (u, rest, e)) = absurd (omega (arith, ap length e))

        done : Cases → loop next zero s ≡ some s.visited
        done c = unfold loop in rw (empty c, loop)
    loop_ends (suc fuel) s h room = elim (List-cases s.queue) [
      | inl e ↦ (s, (unfold loop in rw (e, loop)), h, e)
      | inr (u, rest, e) ↦
          let s' = record s { queue = rest } in
          let (t, ends, inv, empty) =
            loop_ends fuel (expand s u rest) (Inv-expand s u rest e h)
              (omega (arith, offer_all-work n s' (next u) (bounded u), ap length e)) in
          (t, one_round u rest t.visited e ends, inv, empty)
    ]
      where
        one_round :
            (u : ℕ) (rest vs : List ℕ)
            → s.queue ≡ u ∷ rest
            → loop next fuel (expand s u rest) ≡ some vs
            → loop next (suc fuel) s ≡ some vs
        one_round u rest vs e ends = unfold loop in rw (e, loop) ends

    -- From the seeds the search ends within the fuel, and it has then visited exactly what can be
    -- reached from them.
    from_seeds :
        ((i : ℕ) → is_member seeds i ≡ true → i < n)
        → (vs : List ℕ) × (loop next n (offer_all nothing seeds) ≡ some vs)
          × ((v : ℕ) → (is_member vs v ≡ true) ↔ Reach next seeds v)
    from_seeds h =
        let (t, ends, inv, empty) =
          loop_ends n (offer_all nothing seeds) Inv-first
            (omega (arith, offer_all-work n nothing seeds h, unseen-le n [])) in
        (t.visited, ends, λ v. (inv.sound v, complete t inv empty))
      where
        seen : (v : ℕ) → is_member (offer_all nothing seeds).visited v ≡ is_member seeds v
        seen v = offer_all-visited nothing seeds v ∙ unfold is_member in refl

        waits : (v : ℕ) → is_member (offer_all nothing seeds).queue v ≡ is_member seeds v
        waits v = offer_all-queue nothing seeds v ∙ unfold is_member in ground arith

        Inv-first : Inv (offer_all nothing seeds)
        Inv-first = record {
          source = λ v m. seen v ∙ m;
          queued = λ v q. seen v ∙ sym (waits v) ∙ q;
          sound = λ v m. here (sym (seen v) ∙ m);
          closed = λ u v m edge. inl (waits u ∙ sym (seen u) ∙ m);
        }

module _ (next : ℕ → List ℕ) (start n : ℕ)
    (bounded : (u i : ℕ) → is_member (next u) i ≡ true → i < n) where
  -- From a node below the bound the search ends within the fuel, and it has then visited exactly
  -- the nodes that can be reached.
  pub search_correct :
      start < n
      → (vs : List ℕ) × (search next n start ≡ some vs)
        × ((v : ℕ) → (is_member vs v ≡ true) ↔ Reach next (start ∷ []) v)
  search_correct h =
      let (vs, ends, exact) = from_seeds next (start ∷ []) n bounded below in
      (vs, (unfold search offer_all is_member in ends), exact)
    where
      below : (i : ℕ) → is_member (start ∷ []) i ≡ true → i < n
      below i m = subst (λ k. k < n) (sym (is_member-one start i m)) h

  -- The search that does not mark its start ends within one round more, and it has then visited
  -- exactly the nodes that can be reached in at least one step.
  pub search_unmarked_correct :
      (vs : List ℕ) × (search_unmarked next (suc n) start ≡ some vs)
      × ((v : ℕ) → (is_member vs v ≡ true) ↔ Reach next (next start) v)
  search_unmarked_correct =
      let (vs, ends, exact) = from_seeds next (next start) n bounded (bounded start) in
      (vs, (unfold search_unmarked loop in ends), exact)
