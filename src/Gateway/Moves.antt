-- ===== src/Gateway/Moves.antt =====
-- What any goroutine of the gateway does to the shared components (internal/gateway/gateway.go), one
-- access at a time: the handlers and callbacks of chat.go, the accounting, and the labeler's workers.
use semblance.Budget.{charge}
use semblance.Cache.Nearest.{Visits}
use semblance.Cache.Shard
use semblance.Cache.Shard.{Entries, Match, StoredResponse, insert_entry}
use semblance.Cache.Store
use semblance.Cache.Store.{MemoryStore, shard_for}
use semblance.Double.{Double, Single}
use semblance.Gateway.Branches.{IsHost}
use semblance.Gateway.Ready.{IsReady, nearest-Held, insert-Held, submit-Held}
use semblance.Gateway.Run.{Held}
use semblance.Gateway.World.{Env, Server, Update}
use semblance.Judge.Labeler.{Job, Labeler, submit, receive, finish}
use semblance.Policy.Decide.{decide}
use semblance.Policy.Logistic.{Observation, nought}
use semblance.Prelude.{
  length, get_elem?, Option-cases, inl, inr, false, ◌∙◌, ℕ, suc, ◌+◌, ◌≡◌, refl, Bool, true, List,
  ◌∷◌, ◌++◌, Option, none, some, arith, length-set,
}
use semblance.Text.{Text}

module _ {F S R : Type 0} ⦃d : Double F⦄ ⦃f : Single F S⦄ (float64 : R → F × R) where
  -- One access to the shared components, under the lock of the one that it is to.
  pub data Move : Server F S R → Server F S R → Type 0 where
    find :
        (s : Server F S R) (range : Entries → Entries) (b : Text) (vec : List S)
        (m : MemoryStore F S) (found : Option (Match F))
        → Visits range
        → Store.nearest range s.store b vec ≡ some (m, found)
        → Move s (record s { store = m })
    observe :
        (s : Server F S R) (draw : ℕ → ℕ) (b i : Text) (sim : F) (c done : Bool)
        (m : MemoryStore F S)
        → Store.observe draw s.store b i sim c ≡ some (m, done)
        → Move s (record s { store = m })
    insert :
        (s : Server F S R) (b : Text) (vec : List S) (resp : StoredResponse) (id : Text)
        (m : MemoryStore F S)
        → Store.insert s.store b vec resp ≡ some (m, id)
        → Move s (record s { store = m })
    choose :
        (s : Server F S R) (obs : List (Observation F)) (sim : F)
        → Move s (record s { policy = (decide float64 s.policy obs sim).1 })
    pay :
        (s : Server F S R) (key : Text) (cost : F)
        → d.lt nought cost ≡ true
        → Move s (record s { budget = charge s.budget key (d.mul cost (d.of_ℕ 100)) })
    bypass : (s : Server F S R) → Move s (record s { bypass_total = s.bypass_total + 1 })
    offer :
        (s : Server F S R) (job : Job (Update F S)) (l : Labeler (Update F S)) (taken : Bool)
        → submit s.labeler job ≡ some (l, taken)
        → Move s (record s { labeler = l })
    start :
        (s : Server F S R) (job : Job (Update F S)) (l : Labeler (Update F S))
        → receive s.labeler ≡ some (l, job)
        → Move s (record s { labeler = l })
    end :
        (s : Server F S R) (job : Job (Update F S)) (before after : List (Job (Update F S)))
        → s.labeler.running ≡ before ++ (job ∷ after)
        → Move s (record s { labeler = finish s.labeler before after })

  pub data Moves (s : Server F S R) : Server F S R → Type 0 where
    here : Moves s s
    next : {t u : Server F S R} → Moves s t → Move t u → Moves s u

  unfoldable pub accesses : {s t : Server F S R} → Moves s t → ℕ
  accesses here = 0
  accesses (next ms m) = suc (accesses ms)

  pub Moves-trans : {s t u : Server F S R} → Moves s t → Moves t u → Moves s u
  Moves-trans ms here = ms
  Moves-trans ms (next ns m) = next (Moves-trans ms ns) m

module _ {F S R : Type 0} ⦃d : Double F⦄ ⦃f : Single F S⦄ (float64 : R → F × R) where
  nearest-length :
      (range : Entries → Entries) (m : MemoryStore F S) (b : Text) (vec : List S)
      {m' : MemoryStore F S} {found : Option (Match F)}
      → Store.nearest range m b vec ≡ some (m', found)
      → length m' ≡ length m
  unfolding Store.nearest
  nearest-length range m b vec h = elim (Option-cases (get_elem? m (shard_for m b))) [
    | inl gone ↦ absurd (ground arith)
    | inr (sh, found) ↦
        ground (arith, length-set m (shard_for m b) (Shard.nearest range sh b vec).0)
  ]

  insert-length :
      (m : MemoryStore F S) (b : Text) (vec : List S) (resp : StoredResponse) {m' : MemoryStore F S}
      {id : Text}
      → Store.insert m b vec resp ≡ some (m', id)
      → length m' ≡ length m
  unfolding Store.insert
  insert-length m b vec resp h = elim (Option-cases (get_elem? m (shard_for m b))) [
    | inl gone ↦ absurd (ground arith)
    | inr (sh, found) ↦ ground (arith, length-set m (shard_for m b) (insert_entry sh b vec resp).0)
  ]

  observe-length :
      (draw : ℕ → ℕ) (m : MemoryStore F S) (b i : Text) (sim : F) (c : Bool) {m' : MemoryStore F S}
      {done : Bool}
      → Store.observe draw m b i sim c ≡ some (m', done)
      → length m' ≡ length m
  unfolding Store.observe
  observe-length draw m b i sim c {m'} h = elim (Option-cases (get_elem? m (shard_for m b))) [
    | inl gone ↦ absurd (ground arith)
    | inr (sh, found) ↦ (elim (Option-cases (Shard.observe draw sh b i sim c)) [
      | inl panic ↦ absurd (ground arith)
      | inr ((sh', _), did) ↦ ground (arith, length-set m (shard_for m b) sh')
    ])
  ]

  same_length-IsReady :
      (s : Server F S R) {m : MemoryStore F S}
      → length m ≡ length s.store
      → IsReady s
      → IsReady (record s { store = m })
  same_length-IsReady s e r = record { stored = omega (arith, e, r.stored); opened = r.opened }

  submit-opened :
      (l : Labeler (Update F S)) (job : Job (Update F S)) {l' : Labeler (Update F S)} {taken : Bool}
      → submit l job ≡ some (l', taken)
      → l'.closed ≡ false
  unfolding submit
  submit-opened l job h = ground arith

  pub receive-closed :
      (l : Labeler (Update F S)) {l' : Labeler (Update F S)} {job : Job (Update F S)}
      → receive l ≡ some (l', job)
      → l'.closed ≡ l.closed
  unfolding receive
  receive-closed l h = ground arith

  pub Move-IsReady : {s t : Server F S R} → Move float64 s t → IsReady s → IsReady t
  Move-IsReady (find s range b vec m found _ h) r =
      same_length-IsReady s (nearest-length range s.store b vec h) r
  Move-IsReady (observe s draw b i sim c done m h) r =
      same_length-IsReady s (observe-length draw s.store b i sim c h) r
  Move-IsReady (insert s b vec resp id m h) r =
      same_length-IsReady s (insert-length s.store b vec resp h) r
  Move-IsReady (choose s obs sim) r = record { stored = r.stored; opened = r.opened }
  Move-IsReady (pay s key cost h) r = record { stored = r.stored; opened = r.opened }
  Move-IsReady (bypass s) r = record { stored = r.stored; opened = r.opened }
  Move-IsReady (offer s job l taken h) r = record {
    stored = r.stored;
    opened = submit-opened s.labeler job h;
  }
  Move-IsReady (start s job l h) r = record {
    stored = r.stored;
    opened = receive-closed s.labeler h ∙ r.opened;
  }
  Move-IsReady (end s job before after h) r = record { stored = r.stored; opened = r.opened }

  -- Whatever the goroutines do, a server that can serve still can.
  pub Moves-IsReady : {s t : Server F S R} → Moves float64 s t → IsReady s → IsReady t
  Moves-IsReady here r = r
  Moves-IsReady (next ms m) r = Move-IsReady m (Moves-IsReady ms r)

  -- The server that a run started from could serve, and it has been accessed since.
  abbrev pub Since : Server F S R → Server F S R → Type 0
  Since s t = IsReady s × Moves float64 s t

Held-by :
    {A : Type 0} (Q Q' : A → Type 0) (r : Option A)
    → Held ⊥ Q r
    → ((a : A) → r ≡ some a → Q' a)
    → Held ⊥ Q' r
Held-by Q Q' none h k = h
Held-by Q Q' (some a) h k = k a refl

module _ {F S R : Type 0} ⦃d : Double F⦄ ⦃f : Single F S⦄ where
  -- The handler's own accesses are such moves, if those of the others are.
  pub Since-IsHost :
      (env : Env F S R) (s0 : Server F S R)
      → ((n : ℕ) → Visits (env.range n))
      → ((n : ℕ) (s : Server F S R) → Moves env.float64 s (env.others n s))
      → IsHost ⊥ (Since env.float64 s0) env
  Since-IsHost env s0 visits others = record {
    calm = record {
      others = λ n s (r, ms). (r, Moves-trans env.float64 ms (others n s));
      budget = λ s key cost h (r, ms). (r, next ms (pay s key cost h));
      bypass_total = λ s (r, ms). (r, next ms (bypass s));
      policy = λ s obs sim (r, ms). (r, next ms (choose s obs sim));
    };
    nearest = λ n s b vec (r, ms).
        let put : MemoryStore F S → Server F S R = λ m. record s { store = m } in
        Held-by (λ q. IsReady (put q.0)) (λ q. Since env.float64 s0 (put q.0))
          (Store.nearest (env.range n) s.store b vec)
          (nearest-Held (env.range n) s b vec (Moves-IsReady env.float64 ms r))
          (λ q h. (r, next ms (find s (env.range n) b vec q.0 q.1 (visits n) h)));
    insert = λ s b vec resp (r, ms).
        let put : MemoryStore F S → Server F S R = λ m. record s { store = m } in
        Held-by (λ q. IsReady (put q.0)) (λ q. Since env.float64 s0 (put q.0))
          (Store.insert s.store b vec resp)
          (insert-Held s b vec resp (Moves-IsReady env.float64 ms r))
          (λ q h. (r, next ms (insert s b vec resp q.1 q.0 h)));
    submit = λ s job (r, ms).
        let put : Labeler (Update F S) → Server F S R = λ l. record s { labeler = l } in
        Held-by (λ q. IsReady (put q.0)) (λ q. Since env.float64 s0 (put q.0))
          (submit s.labeler job) (submit-Held s job (Moves-IsReady env.float64 ms r))
          (λ q h. (r, next ms (offer s job q.0 q.1 h)));
  }
