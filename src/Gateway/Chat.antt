-- ===== src/Gateway/Chat.antt =====
-- internal/gateway/chat.go: the handler of POST /v1/chat/completions. A request's body is its bytes,
-- `readable` says that they can be read to the end; the time of the refit is not modelled.
use semblance.Cache.Shard.{Match, StoredResponse}
use semblance.Cache.Store
use semblance.Double.{Double, Single}
use semblance.Gateway.Accounting.{record_embed_usage, record_backend_usage, record_saved_cost}
use semblance.Gateway.Request.{
  Bypass, no_embedder, embed_error, is_empty, bypass_reason, final_user_text,
  bucket_key_for_request, extract_content,
}
use semblance.Gateway.Upstream.{
  UpstreamResult, cacheable, fetch_upstream_buffered, write_buffered, proxy_passthrough, fail,
  unreachable,
}
use semblance.Gateway.World.{
  Env, Update, Action, pure, ◌>>=◌, ◌>>◌, respond_by, count, shared, change, give_back, exploit,
  explore, bypass, requests_total, bypass_reason_count, similarity, entry_obs, tau, explores_label,
  explores_c0,
}
use semblance.Gateway.Writer.{set_header, write_header, write, content_type, json_type}
use semblance.Judge.Labeler.{Job, submit}
use semblance.OpenAi.{ChatCompletionRequest}
use semblance.Policy.Decide.{decide}
use semblance.Prelude.{
  ℤ, ℕ, ◌+◌, Bool, true, false, not, ◌||◌, List, Option, none, some, if◌then◌else◌, ltb, ◌*◌, ◌^◌,
  length,
}
use semblance.Text.{Text, codes}

abbrev pub max_request_bytes : ℕ
max_request_bytes = 10 * 2 ^ 20

abbrev pub header_cache : Text
header_cache = codes "X-Semblance-Cache"

abbrev pub header_similarity : Text
header_similarity = codes "X-Semblance-Similarity"

abbrev pub header_tau : Text
header_tau = codes "X-Semblance-Tau"

abbrev pub cache_hit : Text
cache_hit = codes "hit"

abbrev pub cache_miss : Text
cache_miss = codes "miss"

abbrev pub cache_bypass : Text
cache_bypass = codes "bypass"

abbrev pub invalid_request : Text
invalid_request = codes "invalid_request_error"

module _ {F S R : Type 0} (env : Env F S R) where
  unfoldable pub count_bypass : Bypass → Action F S R (Unit {0})
  count_bypass reason = do
    change env (λ s. record s { bypass_total = s.bypass_total + 1 })
    count (bypass_reason_count reason)
    count (requests_total bypass)

  -- The answer to a request that is not cached.
  unfoldable pub skip : Bypass → Text → Text → ChatCompletionRequest F → Action F S R (Unit {0})
  skip reason header body req = do
    count_bypass reason
    respond_by (set_header header_cache header)
    proxy_passthrough env body req

  -- What is stored of a backend's response.
  abbrev pub to_stored : UpstreamResult → StoredResponse
  to_stored res = record {
    body = res.body;
    content_type = res.content_type;
    content = extract_content env.decode_string env.decode_response res.body;
  }

  -- A full queue drops the job.
  unfoldable pub submit_job : Job (Update F S) → Action F S R (Unit {0})
  submit_job job =
      shared env
        λ n s. give_back (λ l. record s { labeler = l }) (λ taken. tt) (submit s.labeler job)

module _ {F S R : Type 0} ⦃d : Double F⦄ ⦃f : Single F S⦄ (env : Env F S R) where
  unfoldable pub serve_hit : Match F → Text → Action F S R (Unit {0})
  serve_hit found model = do
    respond_by (set_header header_cache cache_hit)
    respond_by (
        set_header content_type
          (if is_empty found.response.content_type then json_type else found.response.content_type))
    respond_by (write_header 200)
    respond_by (write found.response.body)
    record_saved_cost env model found.response.body

  unfoldable pub insert_response : Text → List S → StoredResponse → Action F S R (Unit {0})
  insert_response bucket qvec resp = shared env λ n s.
      give_back (λ m. record s { store = m }) (λ id. tt) (Store.insert s.store bucket qvec resp)

  unfoldable pub explore_cold_miss : Text → Text → List S → Text → Text → Action F S R (Unit {0})
  explore_cold_miss body bucket qvec model key = do
    respond_by (set_header header_cache cache_miss)
    respond_by (set_header header_tau (codes "1"))
    fetched ← fetch_upstream_buffered env body
    elim fetched [
      | none ↦ unreachable env
      | some res ↦ do
        write_buffered env res
        if not (cacheable res) then pure tt else do
          record_backend_usage env model key res.body
          insert_response bucket qvec (to_stored env res)
    ]

  unfoldable pub explore_with_neighbor :
      Text → Text → List S → Match F → Text → Text → Action F S R (Unit {0})
  explore_with_neighbor body bucket qvec found model key = do
    respond_by (set_header header_cache cache_miss)
    fetched ← fetch_upstream_buffered env body
    elim fetched [
      | none ↦ unreachable env
      | some res ↦ do
        write_buffered env res
        if not (cacheable res) then pure tt else do
          record_backend_usage env model key res.body
          let new_resp = to_stored env res
          submit_job env (record {
            reference = found.response.content;
            candidate = new_resp.content;
            on_result = record {
              bucket = bucket;
              entry_id = found.entry_id;
              sim = found.similarity;
              qvec = qvec;
              new_resp = new_resp;
            };
          })
    ]

  -- What the closure does to the store.
  unfoldable pub learn : Update F S → Bool → Action F S R (Unit {0})
  learn u equivalent = do
    shared env λ n s.
        give_back (λ m. record s { store = m }) (λ done. tt)
          (Store.observe (env.draw n) s.store u.bucket u.entry_id u.sim equivalent)
    shared env λ n s.
        give_back (λ m. record s { store = m }) (λ id. tt)
          (Store.guarded_insert s.store u.bucket u.qvec u.new_resp equivalent)

  -- The closure `OnResult` of a job, which a worker of the labeler runs.
  unfoldable pub on_result : Update F S → Bool → Action F S R (Unit {0})
  on_result u equivalent = do
    count explores_label
    if not equivalent then count explores_c0 else pure tt
    learn u equivalent

  unfoldable pub nearest : Text → List S → Action F S R (Option (Match F))
  nearest bucket qvec = shared env λ n s.
      give_back (λ m. record s { store = m }) (λ found. found)
        (Store.nearest (env.range n) s.store bucket qvec)

  -- The lines after the decision.
  unfoldable pub with_decision :
      Bool → Text → Text → List S → Match F → Text → Text → Action F S R (Unit {0})
  with_decision true body bucket qvec found model key = do
    count (requests_total explore)
    explore_with_neighbor body bucket qvec found model key
  with_decision false body bucket qvec found model key = do
    count (requests_total exploit)
    serve_hit found model

  -- The lines after the neighbour is found.
  unfoldable pub with_neighbor :
      Text → Text → List S → Match F → Text → Text → Action F S R (Unit {0})
  with_neighbor body bucket qvec found model key = do
    count (similarity found.similarity)
    count (entry_obs (length found.observations))
    decision ← shared env λ n s.
        let (x, p) = decide env.float64 s.policy found.observations found.similarity in
        some (x, record s { policy = p })
    count (tau decision.tau)
    respond_by (set_header header_similarity (env.format_float found.similarity))
    respond_by (set_header header_tau (env.format_float decision.tau))
    with_decision decision.explore body bucket qvec found model key

  -- The lines after the embedding.
  unfoldable pub with_embedding :
      Text → ChatCompletionRequest F → Text → List S → ℤ → Action F S R (Unit {0})
  with_embedding body req key qvec tokens = do
    let bucket = bucket_key_for_request env.digest env.decode_string env.format_float req
    record_embed_usage env req.model key tokens
    found ← nearest bucket qvec
    elim found [
      | none ↦ do count (requests_total explore); explore_cold_miss body bucket qvec req.model key
      | some found ↦ with_neighbor body bucket qvec found req.model key
    ]

  -- The lines after the decoding.
  unfoldable pub with_request : Text → ChatCompletionRequest F → Text → Action F S R (Unit {0})
  with_request body req key = elim env.embedder [
    | none ↦ skip env no_embedder cache_bypass body req
    | some embed ↦ elim (bypass_reason env.decode_string env.cfg.temperature_ceiling req) [
      | some reason ↦ skip env reason cache_bypass body req
      | none ↦ elim (embed (final_user_text env.decode_string req).0) [
        | none ↦ skip env embed_error cache_miss body req
        | some (qvec, tokens) ↦ with_embedding body req key qvec tokens
      ]
    ]
  ]

  unfoldable pub handle_chat_completions : Bool → Text → Text → Action F S R (Unit {0})
  handle_chat_completions readable body key =
      if not readable || ltb max_request_bytes (length body)
      then fail env 400 invalid_request (codes "could not read request body")
      else if not (env.valid body)
      then fail env 400 invalid_request (codes "request body is not valid JSON")
      else with_request body (env.decode_request body) key
