-- ===== src/Gateway/Spent.antt =====
-- Budgets in a server of internal/gateway that many goroutines share: what the accounting of
-- accounting.go and the check of middleware.go do together.
use semblance.Budget.{Tracker, enabled, over_budget, charge}
use semblance.Budget.Laws.{
  IsAdditive, IsCharged, charge_all, charge_all-IsCharged, over_budget-charge_all,
}
use semblance.Double.{Double, Single, IsOrdered}
use semblance.Gateway.Access.{authenticate}
use semblance.Gateway.Handler.{
  header_request_id, logged, recovered, HttpRequest, Muxes, v1, serve, serve_route, serve_v1,
  auth_middleware, budget_middleware, access_log_middleware, recover_middleware,
  request_id_middleware,
}
use semblance.Gateway.Moves.{
  Move, Moves, here, next, find, observe, insert, choose, pay, bypass, offer, start, end,
}
use semblance.Gateway.Upstream.{fail}
use semblance.Gateway.World.{Env, World, Server, Action, ◌>>=◌, respond_by, shared}
use semblance.Gateway.Writer.{
  new_request_id, set_header, request_id, write_error, write, write_header, outcome_for_status,
}
use semblance.Policy.Logistic.{nought}
use semblance.Prelude.{
  ℕ, ◌+◌, ◌≡◌, refl, Bool, true, false, [], ◌∷◌, Option, none, some, ap, ◌∙◌, arith,
}
use semblance.Text.{Text, codes}

-- A positive cost in dollars is no negative number of cents.
pub record IsPriced (F : Type 0) ⦃d : Double F⦄ : Type 0 where
  pub cents_nonneg : (c : F) → d.lt nought c ≡ true → d.le nought (d.mul c (d.of_ℕ 100)) ≡ true

-- Every recorded spend is a nonnegative number, and the key is over budget.
pub record IsSpent {F : Type 0} ⦃d : Double F⦄ (t : Tracker F) (key : Text) : Type 0 where
  pub charged : IsCharged t
  pub over : over_budget t key ≡ true

module _ {F : Type 0} ⦃d : Double F⦄ (laws : IsOrdered F) (sums : IsAdditive F) (key : Text) where
  charge-IsSpent :
      (t : Tracker F) (k : Text) (cents : F)
      → d.le nought cents ≡ true
      → IsSpent t key
      → IsSpent (charge t k cents) key
  unfolding charge_all
  charge-IsSpent t k cents h x = record {
    charged = charge_all-IsCharged laws sums t ((k, cents) ∷ []) x.charged (h, tt);
    over = over_budget-charge_all laws sums t ((k, cents) ∷ []) key x.charged (h, tt) x.over;
  }

module _ {F S R : Type 0} ⦃d : Double F⦄ ⦃f : Single F S⦄ (laws : IsOrdered F) (sums : IsAdditive F)
    (prices : IsPriced F) {float64 : R → F × R} (key : Text) where
  Move-IsSpent :
      {s t : Server F S R} → Move float64 s t → IsSpent s.budget key → IsSpent t.budget key
  Move-IsSpent (find s range b vec m' found visits h) x = x
  Move-IsSpent (observe s draw b i sim c done m' h) x = x
  Move-IsSpent (insert s b vec resp id m' h) x = x
  Move-IsSpent (choose s obs sim) x = x
  Move-IsSpent (pay s k cost h) x =
      charge-IsSpent laws sums key s.budget k _ (prices.cents_nonneg cost h) x
  Move-IsSpent (bypass s) x = x
  Move-IsSpent (offer s job l taken h) x = x
  Move-IsSpent (start s job l h) x = x
  Move-IsSpent (end s job before after h) x = x

  pub Moves-IsSpent :
      {s t : Server F S R} → Moves float64 s t → IsSpent s.budget key → IsSpent t.budget key
  Moves-IsSpent here x = x
  Moves-IsSpent (next ms m) x = Move-IsSpent m (Moves-IsSpent ms x)

over_budget-enabled :
    {F : Type 0} ⦃d : Double F⦄ (t : Tracker F) (key : Text)
    → over_budget t key ≡ true
    → enabled t ≡ true
unfolding over_budget
over_budget-enabled t key h = ground arith

module _ {F S R : Type 0} ⦃d : Double F⦄ ⦃f : Single F S⦄ where
  auth_middleware-valid :
      (env : Env F S R) (r : HttpRequest) {key : Text}
      → authenticate env.equal_fold env.trim env.cfg.api_keys r.authorization ≡ some key
      → (inner : Text → Action F S R (Unit {0})) → auth_middleware env r inner ≡ inner key
  unfolding auth_middleware
  auth_middleware-valid env r valid inner = rw (auth_middleware, valid) refl

  -- The check makes two accesses, and the budget is enabled and exhausted at them.
  budget_middleware-refused :
      (env : Env F S R) (key : Text) (inner : Text → Action F S R (Unit {0})) (w : World F S R)
      → let s1 = env.others w.clock w.server in
        let s2 = env.others (w.clock + 1) s1 in
        enabled s1.budget ≡ true
        → over_budget s2.budget key ≡ true
        → budget_middleware env key inner w
          ≡ fail env 429
              (codes "insufficient_quota")
              (codes "spend limit exceeded for this API key")
              (record w { server = s2; clock = w.clock + 1 + 1 })
  unfolding budget_middleware ◌>>=◌ shared
  budget_middleware-refused env key inner w on over = rw (on, over) refl

  -- The world once the inner handler has answered and the request is logged.
  abbrev finished : Env F S R → HttpRequest → Option (Unit {0}) × World F S R → World F S R
  finished env r q =
      recovered env (elim q.0 [ none ↦ (none, q.1) | some _ ↦ (some tt, logged r q.1) ])

  abbrev begun : Env F S R → HttpRequest → World F S R → World F S R
  begun env r w = record w {
    writer =
        set_header header_request_id
          (request_id env.trim (new_request_id env.encode_hex env.random_bytes) r.request_id)
          w.writer;
  }

  serve-finished :
      (env : Env F S R) (muxes : Muxes) (r : HttpRequest) (w : World F S R)
      → serve env muxes r w
        ≡ finished env r (serve_route env muxes r (muxes.route r.method r.path) (begun env r w))
  unfolding serve recover_middleware request_id_middleware access_log_middleware respond_by ◌>>=◌
  serve-finished env muxes r w = refl

  -- While the other goroutines only access the shared components as handlers, callbacks and workers
  -- do, a request under /v1/ with a valid key that is over budget, to a response that is not begun,
  -- gets a 429 and is logged with it: it stays over budget until its check. Nothing is sent to the
  -- backend and no metric counts it.
  pub serve-over_budget :
      (laws : IsOrdered F) (sums : IsAdditive F) (prices : IsPriced F) (env : Env F S R)
      (muxes : Muxes) (r : HttpRequest) (has : Bool) (key : Text) (w : World F S R)
      → ((n : ℕ) (s : Server F S R) → Moves env.float64 s (env.others n s))
      → muxes.route r.method r.path ≡ v1 has
      → authenticate env.equal_fold env.trim env.cfg.api_keys r.authorization ≡ some key
      → w.writer.wrote_header ≡ false
      → IsSpent w.server.budget key
      → let w' = serve env muxes r w in
        (w'.writer.status ≡ 429)
        × (w'.fetched ≡ w.fetched)
        × (w'.calls ≡ w.calls)
        × (w'.log
            ≡ record {
              method = r.method;
              path = r.path;
              status = 429;
              outcome = codes "client_error";
            }
              ∷ w.log)
        × IsSpent w'.server.budget key
  unfolding fail respond_by write_error write write_header outcome_for_status
  serve-over_budget laws sums prices env muxes r has key w others route valid fresh spent =
      let s1 = env.others w.clock w.server in
      let x1 = Moves-IsSpent laws sums prices key (others w.clock w.server) spent in
      let on = over_budget-enabled s1.budget key x1.over in
      let x2 = Moves-IsSpent laws sums prices key (others (w.clock + 1) s1) x1 in
      let refused =
        ap (λ (m : Action F S R (Unit {0})). m (begun env r w))
          (ap (serve_route env muxes r) route ∙ auth_middleware-valid env r valid _)
        ∙ budget_middleware-refused env key (serve_v1 env muxes r has) (begun env r w) on x2.over in
      rw (serve-finished env muxes r w ∙ ap (finished env r) refused, fresh)
        (refl, refl, refl, refl, x2)
