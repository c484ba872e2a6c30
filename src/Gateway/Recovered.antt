-- ===== src/Gateway/Recovered.antt =====
-- The chain of handlers of internal/gateway/middleware.go: an answer on every path, panics included,
-- and no effect of a request that is not admitted.
use semblance.Cache.Store.{nearest, insert}
use semblance.Double.{Double, Single}
use semblance.Gateway.Access.{authenticate}
use semblance.Gateway.Answers.{handle-Does}
use semblance.Gateway.Branches.{IsHost}
use semblance.Gateway.Chat.{invalid_request}
use semblance.Gateway.Handler.{
  HttpRequest, Muxes, Route, healthz, metrics, unrouted, v1, serve, serve_route, serve_v1,
  auth_middleware, budget_middleware, access_log_middleware, recover_middleware, recovered,
  request_id_middleware, handle_healthz, logged,
}
use semblance.Gateway.Run.{Held, Does, Ends}
use semblance.Gateway.Upstream.{fail}
use semblance.Gateway.World.{Env, World, Action, ◌>>=◌, respond_by, continue}
use semblance.Gateway.Writer.{Writer, write_error, write, write_header, outcome_for_status}
use semblance.Gateway.Written.{write-wrote, write_error-wrote}
use semblance.Judge.Labeler.{submit}
use semblance.Prelude.{
  ℕ, ◌≡◌, refl, Bool, true, false, ◌∷◌, Option, none, some, Bool-cases, inl, inr, if◌then◌else◌,
}
use semblance.Text.{Text, codes}

module _ {F S R : Type 0} where
  -- If the run returns, the client has an answer.
  abbrev Wrote : Option (Unit {0}) × World F S R → Type 0
  Wrote r = elim r.0 [ none ↦ Unit {0} | some _ ↦ r.1.writer.wrote_header ≡ true ]

  record IsAnswered (m : Action F S R (Unit {0})) : Type 0 where
    pub wrote : (w : World F S R) → Wrote (m w)

  bind-IsAnswered :
      {A : Type 0} (m : Action F S R A) (g : A → Action F S R (Unit {0}))
      → ((a : A) → IsAnswered (g a))
      → IsAnswered (m >>= g)
  unfolding ◌>>=◌
  bind-IsAnswered {A} m g h = record { wrote = λ w. go (m w) }
    where
      go : (r : Option A × World F S R) → Wrote (continue r g)
      go (none, w') = tt
      go (some a, w') = (h a).wrote w'

  respond-IsAnswered :
      (g : Writer → Writer) → ((w : Writer) → (g w).wrote_header ≡ true) → IsAnswered (respond_by g)
  unfolding respond_by
  respond-IsAnswered g h = record { wrote = λ w. h w.writer }

  if-IsAnswered :
      (t : Bool) {m m' : Action F S R (Unit {0})}
      → IsAnswered m
      → IsAnswered m'
      → IsAnswered (if t then m else m')
  if-IsAnswered true x y = x
  if-IsAnswered false x y = y

  log-IsAnswered :
      (r : HttpRequest) {m : Action F S R (Unit {0})}
      → IsAnswered m
      → IsAnswered (access_log_middleware r m)
  unfolding access_log_middleware
  log-IsAnswered r {m} h = record { wrote = λ w. go (m w) (h.wrote w) }
    where
      go :
          (q : Option (Unit {0}) × World F S R)
          → Wrote q
          → Wrote (elim q.0 [ none ↦ (none, q.1) | some _ ↦ (some tt, logged r q.1) ])
      go (none, w') x = tt
      go (some a, w') x = x

  Does-IsAnswered :
      {body : Text} {j n : ℕ} {m : Action F S R (Unit {0})}
      → Does (Unit {0}) (λ s. Unit {0}) body j n true m
      → IsAnswered m
  Does-IsAnswered {body} {j} {n} {m} x = record { wrote = λ w. go w (m w) (x.ends w tt) }
    where
      go :
          (w : World F S R) (q : Option (Unit {0}) × World F S R)
          → Ends (Unit {0}) (λ s. Unit {0}) body j n true w q
          → Wrote q
      go w (none, w') x = tt
      go w (some a, w') x = x.answered refl

module _ {F S R : Type 0} ⦃d : Double F⦄ ⦃f : Single F S⦄ where
  -- Nothing is asked of the server, and a panic shows nothing.
  any-IsHost : (env : Env F S R) → IsHost (Unit {0}) (λ s. Unit {0}) env
  any-IsHost env = record {
    calm = record {
      others = λ n s i. tt;
      budget = λ s key cost h i. tt;
      bypass_total = λ s i. tt;
      policy = λ s obs sim i. tt;
    };
    nearest = λ n s b vec i. any (nearest (env.range n) s.store b vec);
    insert = λ s b vec resp i. any (insert s.store b vec resp);
    submit = λ s job i. any (submit s.labeler job);
  }
    where
      any : {A : Type 0} (r : Option A) → Held (Unit {0}) (λ q. Unit {0}) r
      any none = tt
      any (some a) = tt

  fail-IsAnswered :
      (env : Env F S R) (status : ℕ) (type message : Text)
      → IsAnswered (fail env status type message)
  unfolding fail
  fail-IsAnswered env status type message =
      respond-IsAnswered _ (write_error-wrote env.encode_error status type message)

  module _ (env : Env F S R) (muxes : Muxes) (r : HttpRequest)
      (reject : (x : Writer) → (muxes.reject r x).wrote_header ≡ true)
      (scrape : (x : Writer) → (muxes.scrape x).wrote_header ≡ true) where
    budget_middleware-IsAnswered :
        (has : Bool) (key : Text)
        → IsAnswered (budget_middleware env key (serve_v1 env muxes r has))
    unfolding budget_middleware
    budget_middleware-IsAnswered has key =
        let next : IsAnswered (serve_v1 env muxes r has key) =
          if-IsAnswered has (Does-IsAnswered (handle-Does (any-IsHost env) r.body r.readable key))
            (respond-IsAnswered _ reject) in
        bind-IsAnswered _ _ λ on.
          if-IsAnswered _ next
            (bind-IsAnswered _ _ λ over. if-IsAnswered over (fail-IsAnswered env _ _ _) next)

    auth_middleware-IsAnswered :
        (has : Bool)
        → IsAnswered
            (auth_middleware env r (λ key. budget_middleware env key (serve_v1 env muxes r has)))
    unfolding auth_middleware
    auth_middleware-IsAnswered has =
        cases (authenticate env.equal_fold env.trim env.cfg.api_keys r.authorization)
      where
        cases :
            (a : Option Text)
            → IsAnswered (elim a [
              | none ↦ fail env 401 invalid_request (codes "invalid or missing API key")
              | some key ↦ budget_middleware env key (serve_v1 env muxes r has)
            ])
        cases none = fail-IsAnswered env _ _ _
        cases (some key) = budget_middleware-IsAnswered has key

    serve_route-IsAnswered : (route : Route) → IsAnswered (serve_route env muxes r route)
    unfolding handle_healthz
    serve_route-IsAnswered healthz = respond-IsAnswered _ (λ x. write-wrote _ _)
    serve_route-IsAnswered metrics = respond-IsAnswered _ scrape
    serve_route-IsAnswered unrouted = respond-IsAnswered _ reject
    serve_route-IsAnswered (v1 has) = auth_middleware-IsAnswered has

  -- Whatever the other goroutines, the backend and the client do, and wherever the handler panics,
  -- the client of any request has an answer at the end, if the muxes and the metrics handler answer
  -- what is theirs to answer.
  pub serve-answers :
      (env : Env F S R) (muxes : Muxes) (r : HttpRequest) (w : World F S R)
      → ((x : Writer) → (muxes.reject r x).wrote_header ≡ true)
      → ((x : Writer) → (muxes.scrape x).wrote_header ≡ true)
      → (serve env muxes r w).writer.wrote_header ≡ true
  unfolding serve recover_middleware request_id_middleware
  serve-answers env muxes r w reject scrape =
      let m = bind-IsAnswered _ _ λ _.
        log-IsAnswered r
          (serve_route-IsAnswered env muxes r reject scrape (muxes.route r.method r.path)) in
      cases _ (m.wrote w)
    where
      cases :
          (q : Option (Unit {0}) × World F S R)
          → Wrote q
          → (recovered env q).writer.wrote_header ≡ true
      cases (some a, w') x = x
      cases (none, w') x = elim (Bool-cases w'.writer.wrote_header) [
        | inl began ↦ rw began refl
        | inr fresh ↦ simp fresh (write_error-wrote env.encode_error 500 _ _ w'.writer)
      ]

  auth_middleware-denied :
      (env : Env F S R) (r : HttpRequest)
      → authenticate env.equal_fold env.trim env.cfg.api_keys r.authorization ≡ none
      → (next : Text → Action F S R (Unit {0}))
      → auth_middleware env r next
        ≡ fail env 401 invalid_request (codes "invalid or missing API key")
  unfolding auth_middleware
  auth_middleware-denied env r denied next = rw (auth_middleware, denied) refl

  -- A request under /v1/ without a valid key, to a response that is not begun, gets a 401 and is
  -- logged with it. It reaches neither the shared components nor the backend, and no metric counts it.
  pub serve-unauthorized :
      (env : Env F S R) (muxes : Muxes) (r : HttpRequest) (has : Bool) (w : World F S R)
      → muxes.route r.method r.path ≡ v1 has
      → authenticate env.equal_fold env.trim env.cfg.api_keys r.authorization ≡ none
      → w.writer.wrote_header ≡ false
      → let w' = serve env muxes r w in
        (w'.writer.status ≡ 401)
        × (w'.server ≡ w.server)
        × (w'.fetched ≡ w.fetched)
        × (w'.calls ≡ w.calls)
        × (w'.log
            ≡ record {
              method = r.method;
              path = r.path;
              status = 401;
              outcome = codes "client_error";
            }
              ∷ w.log)
  unfolding serve recover_middleware request_id_middleware access_log_middleware fail respond_by
      ◌>>=◌ write_error write write_header outcome_for_status
  serve-unauthorized env muxes r has w route denied fresh =
      rw (route, auth_middleware-denied env r denied _, fresh) (refl, refl, refl, refl, refl)
