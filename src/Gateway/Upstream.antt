-- ===== src/Gateway/Upstream.antt =====
-- internal/gateway/chat.go: the calls of the backend. `accepts i` says that the client takes the
-- `i`-th chunk of a body that is copied; of a chunk that it does not take, nothing is sent.
use semblance.Gateway.Request.{is_empty}
use semblance.Gateway.World.{Env, Response, Action, pure, ◌>>=◌, respond_by}
use semblance.Gateway.Writer.{Writer, set_header, write_header, write, write_error, content_type}
use semblance.OpenAi.{ChatCompletionRequest}
use semblance.Prelude.{
  ℕ, ◌+◌, Bool, true, false, not, ◌&&◌, List, [], ◌∷◌, ◌++◌, Option, none, some, if◌then◌else◌, ltb,
  leb,
}
use semblance.Text.{Text, codes}

pub record UpstreamResult : Type 0 where
  pub status : ℕ
  pub content_type : Text
  pub body : Text

unfoldable pub cacheable : UpstreamResult → Bool
cacheable u = leb 200 u.status && ltb u.status 300 && not (is_empty u.body)

-- What `io.ReadAll` has read at the end of the body.
unfoldable pub concat : List Text → Text
concat [] = []
concat (chunk ∷ chunks) = chunk ++ concat chunks

-- A `Content-Type` that is not empty is passed on.
abbrev pub relay_type : Text → Writer → Writer
relay_type ct w = if is_empty ct then w else set_header content_type ct w

-- The loop of `relayStream`, and that of `io.Copy`, from the `i`-th write on. A read can be empty; a
-- write that the client does not take ends the loop.
unfoldable pub relay_stream : (ℕ → Bool) → ℕ → List Text → Writer → Writer
relay_stream accepts i [] w = w
relay_stream accepts i (chunk ∷ chunks) w = elim (is_empty chunk) [
  | true ↦ relay_stream accepts i chunks w
  | false ↦ elim (accepts i) [
    | true ↦ relay_stream accepts (i + 1) chunks (write chunk w)
    | false ↦ w
  ]
]

module _ {F S R : Type 0} (env : Env F S R) where
  abbrev pub upstream_url : Text
  upstream_url = env.cfg.backend_base_url ++ codes "/chat/completions"

  -- `s.client.Do` on a request with this body.
  unfoldable pub send : Text → Action F S R (Option Response)
  send body w = (some (env.respond body), record w { fetched = body ∷ w.fetched })

  -- `none` is an error: in the URL, in the call, or in the middle of the response's body.
  unfoldable pub fetch_upstream_buffered : Text → Action F S R (Option UpstreamResult)
  unfolding concat
  fetch_upstream_buffered body = if not (env.can_build upstream_url) then pure none else do
    answer ← send body
    pure (elim answer [
      | none ↦ none
      | some resp ↦
          if resp.complete
          then some (record {
            status = resp.status;
            content_type = resp.content_type;
            body = concat resp.chunks;
          })
          else none
    ])

  unfoldable pub write_buffered : UpstreamResult → Action F S R (Unit {0})
  write_buffered res =
      respond_by (λ w. write res.body (write_header res.status (relay_type res.content_type w)))

  unfoldable pub is_event_stream : Text → Bool
  is_event_stream ct = env.contains (env.to_lower ct) (codes "text/event-stream")

  unfoldable pub fail : ℕ → Text → Text → Action F S R (Unit {0})
  fail status type message = respond_by (write_error env.encode_error status type message)

  abbrev pub unreachable : Action F S R (Unit {0})
  unreachable = fail 502 (codes "upstream_error") (codes "failed to reach the model backend")

  -- A stream is flushed after each chunk, and copied as any other body is.
  unfoldable pub proxy_passthrough : Text → ChatCompletionRequest F → Action F S R (Unit {0})
  unfolding relay_stream
  proxy_passthrough body req =
      if not (env.can_build upstream_url)
      then fail 500 (codes "internal_error") (codes "failed to build upstream request")
      else do
        answer ← send body
        elim answer [
          | none ↦ unreachable
          | some resp ↦ respond_by (λ w.
              relay_stream env.accepts 0 resp.chunks
                (write_header resp.status (relay_type resp.content_type w)))
        ]
