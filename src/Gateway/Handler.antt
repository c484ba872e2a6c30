-- ===== src/Gateway/Handler.antt =====
-- internal/gateway/middleware.go and gateway.go: the chain of handlers around the two muxes. What
-- `http.ServeMux` answers by itself, and its choice of a route, are arguments.
use semblance.Budget.{enabled, over_budget}
use semblance.Double.{Double, Single}
use semblance.Gateway.Access.{authenticate}
use semblance.Gateway.Chat.{handle_chat_completions, invalid_request}
use semblance.Gateway.Upstream.{fail}
use semblance.Gateway.World.{Env, World, Action, ◌>>=◌, ◌>>◌, respond_by, look}
use semblance.Gateway.Writer.{
  Writer, set_header, write_header, write, write_error, content_type, json_type, outcome_for_status,
  request_id, new_request_id,
}
use semblance.Prelude.{Bool, not, ◌∷◌, Option, none, some, if◌then◌else◌}
use semblance.Text.{Text, codes}

-- `readable` is whether the body can be read to the end.
pub record HttpRequest : Type 0 where
  pub method : Text
  pub path : Text
  pub authorization : Text
  pub request_id : Text
  pub body : Text
  pub readable : Bool

-- The handlers of the root mux; `v1` holds whether the inner mux has a handler for the request.
pub data Route : Type 0 where
  healthz metrics unrouted : Route
  v1 : Bool → Route

-- The muxes' choice and their own answers, and the answer of the metrics handler.
pub record Muxes : Type 0 where
  pub route : Text → Text → Route
  pub reject : HttpRequest → Writer → Writer
  pub scrape : Writer → Writer

abbrev pub header_request_id : Text
header_request_id = codes "X-Request-Id"

-- `logged` adds the line of a request that has been served.
abbrev pub logged : {F S R : Type 0} → HttpRequest → World F S R → World F S R
logged r w = record w {
  log =
      record {
        method = r.method;
        path = r.path;
        status = w.writer.status;
        outcome = outcome_for_status w.writer.status;
      }
      ∷ w.log;
}

module _ {F S R : Type 0} where
  -- After a panic nothing is logged.
  unfoldable pub access_log_middleware :
      HttpRequest → Action F S R (Unit {0}) → Action F S R (Unit {0})
  access_log_middleware r next w =
      let (a, w') = next w in elim a [ none ↦ (none, w') | some _ ↦ (some tt, logged r w') ]

  unfoldable pub handle_healthz : Action F S R (Unit {0})
  handle_healthz = respond_by (λ w.
      write (codes "{\"status\":\"ok\"}") (write_header 200 (set_header content_type json_type w)))

module _ {F S R : Type 0} (env : Env F S R) where
  -- The client gets a 500, if nothing has been written.
  abbrev pub answer_panic : World F S R → World F S R
  answer_panic w = if w.writer.wrote_header then w else record w {
    writer =
        write_error env.encode_error 500 (codes "internal_error") (codes "internal server error")
          w.writer;
  }

  abbrev pub recovered : Option (Unit {0}) × World F S R → World F S R
  recovered (some _, w) = w
  recovered (none, w) = answer_panic w

  unfoldable pub recover_middleware : Action F S R (Unit {0}) → World F S R → World F S R
  recover_middleware next w = recovered (next w)

  unfoldable pub request_id_middleware :
      HttpRequest → Action F S R (Unit {0}) → Action F S R (Unit {0})
  request_id_middleware r next = do
    let fresh = new_request_id env.encode_hex env.random_bytes
    respond_by (set_header header_request_id (request_id env.trim fresh r.request_id))
    next

  -- The handler behind it gets the key of the context.
  unfoldable pub auth_middleware :
      HttpRequest → (Text → Action F S R (Unit {0})) → Action F S R (Unit {0})
  auth_middleware r next =
      elim (authenticate env.equal_fold env.trim env.cfg.api_keys r.authorization) [
        | none ↦ fail env 401 invalid_request (codes "invalid or missing API key")
        | some key ↦ next key
      ]

module _ {F S R : Type 0} ⦃d : Double F⦄ (env : Env F S R) where
  unfoldable pub budget_middleware :
      Text → (Text → Action F S R (Unit {0})) → Action F S R (Unit {0})
  budget_middleware key next = do
    on ← look env (λ s. enabled s.budget)
    if not on then next key else do
      over ← look env (λ s. over_budget s.budget key)
      if over
          then fail env 429 (codes "insufficient_quota")
              (codes "spend limit exceeded for this API key")
          else next key

module _ {F S R : Type 0} ⦃d : Double F⦄ ⦃f : Single F S⦄ (env : Env F S R) (muxes : Muxes) where
  -- The inner mux and its handler.
  abbrev pub serve_v1 : HttpRequest → Bool → Text → Action F S R (Unit {0})
  serve_v1 r has key =
      if has then handle_chat_completions env r.readable r.body key else respond_by (muxes.reject r)

  abbrev pub serve_route : HttpRequest → Route → Action F S R (Unit {0})
  serve_route r healthz = handle_healthz
  serve_route r metrics = respond_by muxes.scrape
  serve_route r unrouted = respond_by (muxes.reject r)
  serve_route r (v1 has) = auth_middleware env r (λ key. budget_middleware env key (serve_v1 r has))

  -- `Handler().ServeHTTP`.
  unfoldable pub serve : HttpRequest → World F S R → World F S R
  serve r = recover_middleware env (
      request_id_middleware env r
        (access_log_middleware r (serve_route r (muxes.route r.method r.path))))
