-- ===== src/Gateway/Served.antt =====
-- Requests among requests (internal/gateway): what the chain of handlers and the callback of a labeling
-- job do to the shared components, while the other goroutines do the same to them.
use semblance.Cache.Nearest.{Visits}
use semblance.Double.{Double, Single}
use semblance.Gateway.Access.{authenticate}
use semblance.Gateway.Answers.{handle-Does}
use semblance.Gateway.Chat.{invalid_request}
use semblance.Gateway.Effects.{look-Does, fail-Does}
use semblance.Gateway.Handler.{
  HttpRequest, Muxes, Route, healthz, metrics, unrouted, v1, serve, serve_route, serve_v1,
  auth_middleware, budget_middleware, access_log_middleware, recover_middleware, recovered,
  request_id_middleware, handle_healthz, logged,
}
use semblance.Gateway.Branches.{IsHost}
use semblance.Gateway.Moves.{Moves, here, Moves-IsReady, Since-IsHost}
use semblance.Gateway.Ready.{IsReady}
use semblance.Gateway.Recovered.{serve-answers}
use semblance.Gateway.Run.{Does, Ends}
use semblance.Gateway.Upstream.{fail}
use semblance.Gateway.World.{Env, World, Server, Action, ◌>>=◌, respond_by, continue}
use semblance.Gateway.Writer.{Writer}
use semblance.Prelude.{ℕ, ◌≡◌, Bool, true, false, Option, none, some, if◌then◌else◌}
use semblance.Text.{Text, codes}

-- The run returns, and the server is as `I` says.
module _ {F S R : Type 0} (I : Server F S R → Type 0) where
  abbrev Kept : {A : Type 0} → Option A × World F S R → Type 0
  Kept r = elim r.0 [ none ↦ ⊥ | some _ ↦ I r.1.server ]

  record Keeps {A : Type 0} (m : Action F S R A) : Type 0 where
    pub kept : (w : World F S R) → I w.server → Kept (m w)

  bind-Keeps :
      {A B : Type 0} (m : Action F S R A) (g : A → Action F S R B)
      → Keeps m
      → ((a : A) → Keeps (g a))
      → Keeps (m >>= g)
  unfolding ◌>>=◌
  bind-Keeps {A} m g x y = record { kept = λ w i. go (m w) (x.kept w i) }
    where
      go : (r : Option A × World F S R) → Kept r → Kept (continue r g)
      go (none, w') h = elim h [ ]
      go (some a, w') h = (y a).kept w' h

  if-Keeps :
      {A : Type 0} (t : Bool) {m m' : Action F S R A}
      → Keeps m
      → Keeps m'
      → Keeps (if t then m else m')
  if-Keeps true x y = x
  if-Keeps false x y = y

  respond-Keeps : (g : Writer → Writer) → Keeps (respond_by g)
  unfolding respond_by
  respond-Keeps g = record { kept = λ w i. i }

  log-Keeps :
      (r : HttpRequest) {m : Action F S R (Unit {0})} → Keeps m → Keeps (access_log_middleware r m)
  unfolding access_log_middleware
  log-Keeps r {m} x = record { kept = λ w i. go (m w) (x.kept w i) }
    where
      go :
          (q : Option (Unit {0}) × World F S R)
          → Kept q
          → Kept {A = Unit {0}} (elim q.0 [ none ↦ (none, q.1) | some _ ↦ (some tt, logged r q.1) ])
      go (none, w') h = elim h [ ]
      go (some a, w') h = h

  Does-Keeps :
      {body : Text} {j n : ℕ} {b : Bool} {A : Type 0} {m : Action F S R A}
      → Does ⊥ I body j n b m
      → Keeps m
  Does-Keeps {body} {j} {n} {b} {A} {m} x = record { kept = λ w i. go w (m w) (x.ends w i) }
    where
      go : (w : World F S R) (q : Option A × World F S R) → Ends ⊥ I body j n b w q → Kept q
      go w (none, w') h = elim h [ ]
      go w (some a, w') h = h.kept

module _ {F S R : Type 0} ⦃d : Double F⦄ ⦃f : Single F S⦄ {I : Server F S R → Type 0}
    {env : Env F S R} (host : IsHost ⊥ I env) (muxes : Muxes) (r : HttpRequest) where
  fail-Keeps : (status : ℕ) (type message : Text) → Keeps I (fail env status type message)
  fail-Keeps status type message = Does-Keeps I (fail-Does host.calm r.body status type message)

  budget_middleware-Keeps :
      (has : Bool) (key : Text) → Keeps I (budget_middleware env key (serve_v1 env muxes r has))
  unfolding budget_middleware
  budget_middleware-Keeps has key =
      let next : Keeps I (serve_v1 env muxes r has key) =
        if-Keeps I has (Does-Keeps I (handle-Does host r.body r.readable key))
          (respond-Keeps I _) in
      bind-Keeps I _ _ (Does-Keeps I (look-Does host.calm r.body _)) λ on. if-Keeps I _ next (
        bind-Keeps I _ _ (Does-Keeps I (look-Does host.calm r.body _))
          λ over. if-Keeps I over (fail-Keeps _ _ _) next)

  auth_middleware-Keeps :
      (has : Bool)
      → Keeps I
          (auth_middleware env r (λ key. budget_middleware env key (serve_v1 env muxes r has)))
  unfolding auth_middleware
  auth_middleware-Keeps has =
      cases (authenticate env.equal_fold env.trim env.cfg.api_keys r.authorization)
    where
      cases :
          (a : Option Text)
          → Keeps I (elim a [
            | none ↦ fail env 401 invalid_request (codes "invalid or missing API key")
            | some key ↦ budget_middleware env key (serve_v1 env muxes r has)
          ])
      cases none = fail-Keeps _ _ _
      cases (some key) = budget_middleware-Keeps has key

  serve_route-Keeps : (route : Route) → Keeps I (serve_route env muxes r route)
  unfolding handle_healthz
  serve_route-Keeps healthz = respond-Keeps I _
  serve_route-Keeps metrics = respond-Keeps I _
  serve_route-Keeps unrouted = respond-Keeps I _
  serve_route-Keeps (v1 has) = auth_middleware-Keeps has

  serve-kept : (w : World F S R) → I w.server → I (serve env muxes r w).server
  unfolding serve recover_middleware request_id_middleware
  serve-kept w i =
      let m =
        bind-Keeps I _ _ (respond-Keeps I _)
          λ _. log-Keeps I r (serve_route-Keeps (muxes.route r.method r.path)) in
      go _ (m.kept w i)
    where
      go : (q : Option (Unit {0}) × World F S R) → Kept I q → I (recovered env q).server
      go (none, w') h = elim h [ ]
      go (some a, w') h = h

module _ {F S R : Type 0} ⦃d : Double F⦄ ⦃f : Single F S⦄ where
  -- While the other goroutines only access the shared components as handlers, callbacks and workers
  -- do, whatever they interleave, a request to a server that can serve does no more than that
  -- either, and leaves a server that can serve. Its client has an answer, if the muxes and the
  -- metrics handler answer what is theirs to answer.
  pub serve-Moves :
      (env : Env F S R) (muxes : Muxes) (r : HttpRequest) (w : World F S R)
      → ((n : ℕ) → Visits (env.range n))
      → ((n : ℕ) (s : Server F S R) → Moves env.float64 s (env.others n s))
      → ((x : Writer) → (muxes.reject r x).wrote_header ≡ true)
      → ((x : Writer) → (muxes.scrape x).wrote_header ≡ true)
      → IsReady w.server
      → let w' = serve env muxes r w in
        Moves env.float64 w.server w'.server × IsReady w'.server × (w'.writer.wrote_header ≡ true)
  serve-Moves env muxes r w visits others reject scrape ready =
      let (_, ms) = serve-kept (Since-IsHost env w.server visits others) muxes r w (ready, here) in
      (ms, Moves-IsReady env.float64 ms ready, serve-answers env muxes r w reject scrape)
