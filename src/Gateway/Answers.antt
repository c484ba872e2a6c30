-- ===== src/Gateway/Answers.antt =====
-- What `handleChatCompletions` of internal/gateway/chat.go does on every path.
use semblance.Cache.Shard.{Match}
use semblance.Double.{Double, Single}
use semblance.Gateway.Chat.{
  skip, explore_cold_miss, with_decision, with_neighbor, with_embedding, with_request,
  handle_chat_completions, max_request_bytes, invalid_request, cache_bypass, cache_miss,
}
use semblance.Gateway.Effects.{Quiet-call, weaken, record_embed_usage-Does, header-Does, fail-Does}
use semblance.Gateway.Request.{
  Bypass, no_embedder, embed_error, bypass_reason, final_user_text, bucket_key_for_request,
}
use semblance.Gateway.Run.{Does, ◌next◌, count-Does, shared-Does}
use semblance.Gateway.Upstream.{fail}
use semblance.Gateway.World.{Env, Server, count, ◌>>◌, requests_total, explore}
use semblance.OpenAi.{ChatCompletionRequest}
use semblance.Prelude.{
  ℤ, ℕ, refl, ◌||◌, Bool, true, false, not, List, Option, none, some, if◌then◌else◌, ltb, ◌&&◌,
  length,
}
use semblance.Text.{Text, codes}
use semblance.Gateway.Branches.{
  IsHost, counted_next, skip-Does, nearest-Does, serve_hit-Does, explore_cold_miss-Does,
  explore_with_neighbor-Does,
}

abbrev pub once : Bool → ℕ
once t = if t then 1 else 0

-- The body is read, and is JSON.
abbrev pub is_valid : {F S R : Type 0} → Env F S R → Text → Bool → Bool
is_valid env body readable = readable && not (ltb max_request_bytes (length body)) && env.valid body

module _ {F S R : Type 0} ⦃d : Double F⦄ ⦃f : Single F S⦄ {P : Type 0} {I : Server F S R → Type 0}
    {env : Env F S R} (host : IsHost P I env) (body : Text) where
  with_decision-Does :
      (explored : Bool) (bucket : Text) (qvec : List S) (found : Match F) (model key : Text)
      → Does P I body 1 1 true (with_decision env explored body bucket qvec found model key)
  unfolding with_decision
  with_decision-Does true bucket qvec found model key =
      counted_next host body (count-Does P I body _)
        λ _. explore_with_neighbor-Does host body bucket qvec found model key
  with_decision-Does false bucket qvec found model key =
      counted_next host body (count-Does P I body _)
        λ _. weaken host.calm body (serve_hit-Does host body found model)

  with_neighbor-Does :
      (bucket : Text) (qvec : List S) (found : Match F) (model key : Text)
      → Does P I body 1 1 true (with_neighbor env body bucket qvec found model key)
  unfolding with_neighbor
  with_neighbor-Does bucket qvec found model key = Quiet-call host.calm body _ refl next λ _.
      Quiet-call host.calm body _ refl next λ _.
      shared-Does P I body env host.calm.others _ (λ n s i. host.calm.policy s _ _ i)
      next λ decision. Quiet-call host.calm body _ refl next λ _.
          header-Does host.calm body _ (λ w h. h) next λ _.
          header-Does host.calm body _ (λ w h. h) next λ _.
          with_decision-Does decision.explore bucket qvec found model key

  with_embedding-Does :
      (req : ChatCompletionRequest F) (key : Text) (qvec : List S) (tokens : ℤ)
      → Does P I body 1 1 true (with_embedding env body req key qvec tokens)
  unfolding with_embedding
  with_embedding-Does req key qvec tokens =
      record_embed_usage-Does host.calm body _ _ _ next λ _. nearest-Does host body _ _ next looked
    where
      looked :
          (found : Option (Match F))
          → Does P I body 1 1 true (elim found [
            | none ↦ (do
              count (requests_total explore)
              explore_cold_miss env body
                  (bucket_key_for_request env.digest env.decode_string env.format_float req)
                  qvec
                  req.model
                  key)
            | some found ↦
                with_neighbor env body
                  (bucket_key_for_request env.digest env.decode_string env.format_float req)
                  qvec
                  found
                  req.model
                  key
          ])
      looked none =
          counted_next host body (count-Does P I body _)
            λ _. explore_cold_miss-Does host body _ qvec req.model key
      looked (some found) = with_neighbor-Does _ qvec found req.model key

  with_request-Does :
      (req : ChatCompletionRequest F) (key : Text)
      → Does P I body 1 1 true (with_request env body req key)
  unfolding with_request
  with_request-Does req key = embedding env.embedder
    where
      embedded :
          (r : Option (List S × ℤ))
          → Does P I body 1 1 true (elim r [
            | none ↦ skip env embed_error cache_miss body req
            | some (qvec, tokens) ↦ with_embedding env body req key qvec tokens
          ])
      embedded none = skip-Does host body _ _ req
      embedded (some (qvec, tokens)) = with_embedding-Does req key qvec tokens

      bypassed :
          (embed : Text → Option (List S × ℤ)) (r : Option Bypass)
          → Does P I body 1 1 true (elim r [
            | some reason ↦ skip env reason cache_bypass body req
            | none ↦ elim (embed (final_user_text env.decode_string req).0) [
              | none ↦ skip env embed_error cache_miss body req
              | some (qvec, tokens) ↦ with_embedding env body req key qvec tokens
            ]
          ])
      bypassed embed (some reason) = skip-Does host body _ _ req
      bypassed embed none = embedded (embed (final_user_text env.decode_string req).0)

      embedding :
          (r : Option (Text → Option (List S × ℤ)))
          → Does P I body 1 1 true (elim r [
            | none ↦ skip env no_embedder cache_bypass body req
            | some embed ↦ elim (bypass_reason env.decode_string env.cfg.temperature_ceiling req) [
              | some reason ↦ skip env reason cache_bypass body req
              | none ↦ elim (embed (final_user_text env.decode_string req).0) [
                | none ↦ skip env embed_error cache_miss body req
                | some (qvec, tokens) ↦ with_embedding env body req key qvec tokens
              ]
            ]
          ])
      embedding none = skip-Does host body _ _ req
      embedding (some embed) =
          bypassed embed (bypass_reason env.decode_string env.cfg.temperature_ceiling req)

  pub handle-Does :
      (readable : Bool) (key : Text)
      → let n = once (is_valid env body readable) in
        Does P I body n n true (handle_chat_completions env readable body key)
  unfolding handle_chat_completions
  handle-Does readable key = cases readable (ltb max_request_bytes (length body)) (env.valid body)
    where
      cases :
          (t u v : Bool)
          → let n = once (t && not u && v) in
            Does P I body n n true (
              if not t || u
              then fail env 400 invalid_request (codes "could not read request body")
              else if not v
              then fail env 400 invalid_request (codes "request body is not valid JSON")
              else with_request env body (env.decode_request body) key)
      cases false u v = fail-Does host.calm body _ _ _
      cases true true v = fail-Does host.calm body _ _ _
      cases true false false = fail-Does host.calm body _ _ _
      cases true false true = with_request-Does (env.decode_request body) key
