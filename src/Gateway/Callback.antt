-- ===== src/Gateway/Callback.antt =====
-- The callback of a labeling job (`OnResult` in internal/gateway/chat.go) among the other goroutines.
use semblance.Cache.Store
use semblance.Cache.Store.{MemoryStore}
use semblance.Double.{Double, Single}
use semblance.Gateway.Chat.{learn, on_result}
use semblance.Gateway.Moves.{Moves, here, next, observe, insert, Moves-trans}
use semblance.Gateway.World.{
  Env, World, Server, Update, Action, ◌>>=◌, continue, shared, give_back, pure, count, explores_c0,
}
use semblance.Prelude.{
  arith, ℕ, ◌+◌, ◌≡◌, refl, subst, Bool, true, false, not, Option, none, some, if◌then◌else◌,
}
use semblance.Text.{Text}

module _ {F S R : Type 0} ⦃d : Double F⦄ ⦃f : Single F S⦄ where
  -- The run does no more than such accesses, also if it panics.
  record Reaches (env : Env F S R) {A : Type 0} (m : Action F S R A) : Type 0 where
    pub reached : (w : World F S R) → Moves env.float64 w.server (m w).1.server

  bind-Reaches :
      (env : Env F S R) {A B : Type 0} (m : Action F S R A) (g : A → Action F S R B)
      → Reaches env m
      → ((a : A) → Reaches env (g a))
      → Reaches env (m >>= g)
  unfolding ◌>>=◌
  bind-Reaches env {A} m g x y = record { reached = λ w. go w (m w) (x.reached w) }
    where
      go :
          (w : World F S R) (r : Option A × World F S R)
          → Moves env.float64 w.server r.1.server
          → Moves env.float64 w.server (continue r g).1.server
      go w (none, w') ms = ms
      go w (some a, w') ms = Moves-trans env.float64 ms ((y a).reached w')

  store-Reaches :
      (env : Env F S R)
      → ((n : ℕ) (s : Server F S R) → Moves env.float64 s (env.others n s))
      → {Y : Type 0} (op : ℕ → Server F S R → Option (MemoryStore F S × Y))
      → ((n : ℕ) (s : Server F S R) (m : MemoryStore F S) (y : Y)
          → op n s ≡ some (m, y)
          → Moves env.float64 s (record s { store = m }))
      → Reaches env (shared env (λ n s. give_back (λ m. record s { store = m }) (λ y. tt) (op n s)))
  unfolding shared
  store-Reaches env others {Y} op moved = record {
    reached = λ w. go w (env.others w.clock w.server) (others w.clock w.server) _ refl;
  }
    where
      go :
          (w : World F S R) (s : Server F S R)
          → Moves env.float64 w.server s
          → (q : Option (MemoryStore F S × Y)) → op w.clock s ≡ q
          → Moves env.float64 w.server
              (elim (give_back (λ m. record s { store = m }) (λ y. tt) q)
                as (λ _. Option (Unit {0}) × World F S R) [
                  | none ↦ (none, record w { server = s; clock = w.clock + 1 })
                  | some (a, s') ↦ (some a, record w { server = s'; clock = w.clock + 1 })
                ]).1.server
      go w s ms none h = ms
      go w s ms (some (m, y)) h = Moves-trans env.float64 ms (moved w.clock s m y h)

  guarded_insert-Moves :
      (float64 : R → F × R) (s : Server F S R) (u : Update F S) (c : Bool) (m : MemoryStore F S)
      (y : Option Text)
      → Store.guarded_insert s.store u.bucket u.qvec u.new_resp c ≡ some (m, y)
      → Moves float64 s (record s { store = m })
  unfolding Store.guarded_insert
  guarded_insert-Moves float64 s u true m y h =
      let same : s.store ≡ m = ground arith in
      subst (λ (m : MemoryStore F S). Moves float64 s (record s { store = m })) same here
  guarded_insert-Moves float64 s u false m y h =
      added (Store.insert s.store u.bucket u.qvec u.new_resp) refl h
    where
      added :
          (q : Option (MemoryStore F S × Text))
          → Store.insert s.store u.bucket u.qvec u.new_resp ≡ q
          → ◌≡◌ {A = Option (MemoryStore F S × Option Text)}
              (elim q [ none ↦ none | some (m', id) ↦ some (m', some id) ])
              (some (m, y))
          → Moves float64 s (record s { store = m })
      added none e g = absurd (cc)
      added (some (m', id)) e g =
          next here (insert s u.bucket u.qvec u.new_resp id m (ground (arith, e)))

  -- While the other goroutines only access the shared components as handlers, callbacks and workers
  -- do, so does the callback of a labeling job, also if it panics.
  pub on_result-Moves :
      (env : Env F S R) (u : Update F S) (equivalent : Bool) (w : World F S R)
      → ((n : ℕ) (s : Server F S R) → Moves env.float64 s (env.others n s))
      → Moves env.float64 w.server (on_result env u equivalent w).1.server
  unfolding on_result learn count pure
  on_result-Moves env u equivalent w others =
      (bind-Reaches env _ _ (record { reached = λ w. here })
          λ _. bind-Reaches env _ _ (counted equivalent) λ _.
            bind-Reaches env _ _
              (store-Reaches env others
                (λ n s. Store.observe (env.draw n) s.store u.bucket u.entry_id u.sim equivalent)
                (λ n s m done h.
                  next here (observe s (env.draw n) u.bucket u.entry_id u.sim equivalent done m h)))
              λ _.
                store-Reaches env others
                  (λ n s. Store.guarded_insert s.store u.bucket u.qvec u.new_resp equivalent)
                  (λ n s m id h. guarded_insert-Moves env.float64 s u equivalent m id h)).reached
        w
    where
      counted : (c : Bool) → Reaches env (if not c then count explores_c0 else pure tt)
      counted true = record { reached = λ w. here }
      counted false = record { reached = λ w. here }
