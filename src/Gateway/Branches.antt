-- ===== src/Gateway/Branches.antt =====
-- What the branches of `handleChatCompletions` of internal/gateway/chat.go do on every path.
use semblance.Cache.Shard.{Match, StoredResponse}
use semblance.Cache.Store
use semblance.Cache.Store.{MemoryStore}
use semblance.Double.{Double, Single}
use semblance.Gateway.Accounting.{record_backend_usage}
use semblance.Gateway.Chat.{
  count_bypass, skip, to_stored, submit_job, serve_hit, insert_response, explore_cold_miss,
  explore_with_neighbor, nearest,
}
use semblance.Gateway.Effects.{
  IsCalm, Quiet, Quiet-call, Quiet-pure, if-Does, change-Does, record_backend_usage-Does,
  record_saved_cost-Does, answer-Does, header-Does, fail-Does, sent_next,
  fetch_upstream_buffered-Does, write_buffered-Does, proxy_passthrough-Does,
}
use semblance.Gateway.Request.{Bypass}
use semblance.Gateway.Run.{Held, Does, ◌next◌, Held-give_back, bind-Does, count-Does, shared-Does}
use semblance.Gateway.Upstream.{UpstreamResult, cacheable, write_buffered, unreachable}
use semblance.Gateway.World.{Env, Server, Update, Action, pure, ◌>>=◌, ◌>>◌}
use semblance.Gateway.Written.{write_header-wrote, write-wrote}
use semblance.Judge.Labeler.{Job, submit}
use semblance.OpenAi.{ChatCompletionRequest}
use semblance.Prelude.{
  ℕ, refl, subst, Bool, true, false, not, List, Option, none, some, arith, if◌then◌else◌,
}
use semblance.Text.{Text}

-- The store and the labeler keep `I` too, and panic only where `P` shows it.
pub record IsHost {F S R : Type 0} ⦃d : Double F⦄ ⦃f : Single F S⦄ (P : Type 0)
    (I : Server F S R → Type 0) (env : Env F S R) : Type 0 where
  pub calm : IsCalm P I env
  pub nearest :
      (n : ℕ) (s : Server F S R) (b : Text) (vec : List S)
      → I s
      → Held P (λ q. I (record s { store = q.0 })) (Store.nearest (env.range n) s.store b vec)
  pub insert :
      (s : Server F S R) (b : Text) (vec : List S) (resp : StoredResponse)
      → I s
      → Held P (λ q. I (record s { store = q.0 })) (Store.insert s.store b vec resp)
  pub submit :
      (s : Server F S R) (job : Job (Update F S))
      → I s
      → Held P (λ q. I (record s { labeler = q.0 })) (submit s.labeler job)

module _ {F S R : Type 0} ⦃d : Double F⦄ ⦃f : Single F S⦄ {P : Type 0} {I : Server F S R → Type 0}
    {env : Env F S R} (host : IsHost P I env) (body : Text) where
  -- The request is counted, and then the rest runs.
  pub counted_next :
      {n : ℕ} {b : Bool} {A B : Type 0} {m : Action F S R A} {g : A → Action F S R B}
      → Does P I body 1 0 false m
      → ((a : A) → Does P I body 0 n b (g a))
      → Does P I body 1 n b (m >>= g)
  counted_next {n} {b} {m = m} {g = g} x y =
      subst (λ (i : ℕ). Does P I body 1 i b (m >>= g)) (omega arith) (bind-Does P I body x y)

  infixr 1 ◌ending◌
  -- The client has its answer, and the rest keeps it.
  ◌ending◌ :
      {A B : Type 0} {m : Action F S R A} {g : A → Action F S R B}
      → Does P I body 0 0 true m
      → ((a : A) → Does P I body 0 0 false (g a))
      → Does P I body 0 0 true (m >>= g)
  ◌ending◌ x y = bind-Does P I body x y

  -- The answer of the backend reaches the client; what is worth keeping is learned from.
  answered-Does :
      (learn : UpstreamResult → Action F S R (Unit {0}))
      → ((res : UpstreamResult) → Quiet host.calm body (learn res))
      → (fetched : Option UpstreamResult)
      → Does P I body 0 0 true (elim fetched [
        | none ↦ unreachable env
        | some res ↦ (do write_buffered env res; if not (cacheable res) then pure tt else learn res)
      ])
  answered-Does learn h none = fail-Does host.calm body _ _ _
  answered-Does learn h (some res) = write_buffered-Does host.calm body res ending λ _.
      if-Does host.calm body _ (Quiet-pure host.calm body tt) (h res)

  count_bypass-Does : (reason : Bypass) → Does P I body 1 0 false (count_bypass env reason)
  unfolding count_bypass
  count_bypass-Does reason =
      change-Does host.calm body _ (λ s i. host.calm.bypass_total s i) next λ _.
      Quiet-call host.calm body _ refl next λ _. count-Does P I body _

  pub skip-Does :
      (reason : Bypass) (header : Text) (req : ChatCompletionRequest F)
      → Does P I body 1 1 true (skip env reason header body req)
  unfolding skip
  skip-Does reason header req = counted_next (count_bypass-Does reason) λ _.
      header-Does host.calm body _ (λ w h. h) next λ _. proxy_passthrough-Does host.calm body req

  submit_job-Does : (job : Job (Update F S)) → Quiet host.calm body (submit_job env job)
  unfolding submit_job
  submit_job-Does job =
      shared-Does P I body env host.calm.others _
        (λ n s i. Held-give_back P I body _ _ _ (host.submit s job i))

  insert_response-Does :
      (bucket : Text) (qvec : List S) (resp : StoredResponse)
      → Quiet host.calm body (insert_response env bucket qvec resp)
  unfolding insert_response
  insert_response-Does bucket qvec resp =
      shared-Does P I body env host.calm.others _
        (λ n s i. Held-give_back P I body _ _ _ (host.insert s bucket qvec resp i))

  pub nearest-Does :
      (bucket : Text) (qvec : List S) → Quiet host.calm body (nearest env bucket qvec)
  unfolding nearest
  nearest-Does bucket qvec =
      shared-Does P I body env host.calm.others _
        (λ n s i. Held-give_back P I body _ _ _ (host.nearest n s bucket qvec i))

  pub serve_hit-Does :
      (found : Match F) (model : Text) → Does P I body 0 0 true (serve_hit env found model)
  unfolding serve_hit
  serve_hit-Does found model = header-Does host.calm body _ (λ w h. h) next λ _.
      header-Does host.calm body _ (λ w h. h) next λ _.
      answer-Does host.calm body _ (write_header-wrote 200) ending λ _.
      header-Does host.calm body _ (λ w h. write-wrote _ w) next λ _.
      record_saved_cost-Does host.calm body model _

  pub explore_cold_miss-Does :
      (bucket : Text) (qvec : List S) (model key : Text)
      → Does P I body 0 1 true (explore_cold_miss env body bucket qvec model key)
  unfolding explore_cold_miss
  explore_cold_miss-Does bucket qvec model key = header-Does host.calm body _ (λ w h. h) next λ _.
      header-Does host.calm body _ (λ w h. h) next λ _.
      sent_next host.calm body (fetch_upstream_buffered-Does host.calm body)
        (answered-Does _ stored)
    where
      stored :
          (res : UpstreamResult)
          → Quiet host.calm body (do
            record_backend_usage env model key res.body
            insert_response env bucket qvec (to_stored env res))
      stored res =
          record_backend_usage-Does host.calm body _ _ _ next λ _. insert_response-Does _ _ _

  pub explore_with_neighbor-Does :
      (bucket : Text) (qvec : List S) (found : Match F) (model key : Text)
      → Does P I body 0 1 true (explore_with_neighbor env body bucket qvec found model key)
  unfolding explore_with_neighbor
  explore_with_neighbor-Does bucket qvec found model key =
      header-Does host.calm body _ (λ w h. h) next λ _.
      sent_next host.calm body (fetch_upstream_buffered-Does host.calm body) (
        answered-Does _
          λ res. record_backend_usage-Does host.calm body _ _ _ next λ _. submit_job-Does _)
