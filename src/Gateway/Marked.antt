-- ===== src/Gateway/Marked.antt =====
-- `handleChatCompletions` of internal/gateway/chat.go, for a response that is marked as a hit.
use semblance.Double.{Double, Single}
use semblance.Gateway.Chat.{
  with_embedding, with_request, handle_chat_completions, max_request_bytes, cache_bypass, skip,
}
use semblance.Gateway.Effects.{IsCalm}
use semblance.Gateway.Request.{Bypass, no_embedder, embed_error, bypass_reason, final_user_text}
use semblance.Gateway.Unhit.{IsMarkedHit, IsUnhit, fail-IsUnhit, skip-IsUnhit}
use semblance.Gateway.World.{Env, World, Server, Action}
use semblance.OpenAi.{ChatCompletionRequest}
use semblance.Prelude.{
  ℤ, ℕ, ◌≡◌, refl, Bool, true, false, not, ◌||◌, List, Option, none, some, if◌then◌else◌, ltb,
  length,
}
use semblance.Text.{Text, text_Eq}
use semblance.Gateway.Hit.{IsFresh, IsHit, with_embedding-IsFound}
use semblance.Gateway.Upstream.{fail}
use semblance.Text.{codes}
use semblance.Gateway.Chat.{cache_miss, invalid_request}
use semblance.Cache.Nearest.{Visits}
use semblance.Cache.Valid.{All, IsValid}
use semblance.Double.{IsOrdered}
use semblance.Gateway.Reuse.{IsReuse, hit-IsReuse}

module _ {F S R : Type 0} ⦃d : Double F⦄ ⦃f : Single F S⦄ {I : Server F S R → Type 0}
    {env : Env F S R} (calm : IsCalm (Unit {0}) I env) (body : Text) (key : Text) (w : World F S R)
    (fresh : IsFresh w) (i : I w.server) where
  -- A step that does not mark a hit is not what marked it.
  not_by : {B : Type 0} {m : Action F S R (Unit {0})} → IsUnhit m → IsMarkedHit (m w).1.writer → B
  not_by x h = absurd (fresh.unmarked (x.unhit w h))

  with_request-IsHit :
      (req : ChatCompletionRequest F)
      → IsMarkedHit (with_request env body req key w).1.writer
      → IsHit I env req key w (with_request env body req key w).1
  unfolding with_request
  with_request-IsHit req = embedding env.embedder refl
    where
      embedded :
          (embed : Text → Option (List S × ℤ)) (q : Option (List S × ℤ))
          → env.embedder ≡ some embed
          → bypass_reason env.decode_string env.cfg.temperature_ceiling req ≡ none
          → embed (final_user_text env.decode_string req).0 ≡ q
          → let m : Action F S R (Unit {0}) = elim q [
            | none ↦ skip env embed_error cache_miss body req
            | some (qvec, tokens) ↦ with_embedding env body req key qvec tokens
          ] in
            IsMarkedHit (m w).1.writer → IsHit I env req key w (m w).1
      embedded embed none e p q h = not_by (skip-IsUnhit env embed_error cache_miss body req refl) h
      embedded embed (some (qvec, tokens)) e p q h = record {
        embed = embed;
        qvec = qvec;
        tokens = tokens;
        embedder = e;
        plain = p;
        embedded = q;
        neighbor = with_embedding-IsFound calm body req key qvec w fresh tokens i h;
      }

      bypassed :
          (embed : Text → Option (List S × ℤ)) (b : Option Bypass)
          → env.embedder ≡ some embed
          → bypass_reason env.decode_string env.cfg.temperature_ceiling req ≡ b
          → let m : Action F S R (Unit {0}) = elim b [
            | some reason ↦ skip env reason cache_bypass body req
            | none ↦ elim (embed (final_user_text env.decode_string req).0) [
              | none ↦ skip env embed_error cache_miss body req
              | some (qvec, tokens) ↦ with_embedding env body req key qvec tokens
            ]
          ] in
            IsMarkedHit (m w).1.writer → IsHit I env req key w (m w).1
      bypassed embed (some reason) e p h =
          not_by (skip-IsUnhit env reason cache_bypass body req refl) h
      bypassed embed none e p h =
          embedded embed (embed (final_user_text env.decode_string req).0) e p refl h

      embedding :
          (r : Option (Text → Option (List S × ℤ)))
          → env.embedder ≡ r
          → let m : Action F S R (Unit {0}) = elim r [
            | none ↦ skip env no_embedder cache_bypass body req
            | some embed ↦ elim (bypass_reason env.decode_string env.cfg.temperature_ceiling req) [
              | some reason ↦ skip env reason cache_bypass body req
              | none ↦ elim (embed (final_user_text env.decode_string req).0) [
                | none ↦ skip env embed_error cache_miss body req
                | some (qvec, tokens) ↦ with_embedding env body req key qvec tokens
              ]
            ]
          ] in
            IsMarkedHit (m w).1.writer → IsHit I env req key w (m w).1
      embedding none e h = not_by (skip-IsUnhit env no_embedder cache_bypass body req refl) h
      embedding (some embed) e h =
          bypassed embed (bypass_reason env.decode_string env.cfg.temperature_ceiling req) e refl h

  handle-IsHit :
      (readable : Bool)
      → IsMarkedHit (handle_chat_completions env readable body key w).1.writer
      → IsHit I env
          (env.decode_request body)
          key
          w
          (handle_chat_completions env readable body key w).1
  unfolding handle_chat_completions
  handle-IsHit readable =
      cases (not readable || ltb max_request_bytes (length body)) (not (env.valid body))
    where
      cases :
          (t u : Bool)
          → let m : Action F S R (Unit {0}) =
              if t
              then fail env 400 invalid_request (codes "could not read request body")
              else if u
              then fail env 400 invalid_request (codes "request body is not valid JSON")
              else with_request env body (env.decode_request body) key in
            IsMarkedHit (m w).1.writer → IsHit I env (env.decode_request body) key w (m w).1
      cases true u h = not_by (fail-IsUnhit env _ _ _) h
      cases false true h = not_by (fail-IsUnhit env _ _ _) h
      cases false false h = with_request-IsHit (env.decode_request body) h

module _ {F S R : Type 0} ⦃d : Double F⦄ ⦃f : Single F S⦄ where
  -- A response to a fresh writer that the handler marks as a hit, while every shard is valid, the
  -- others keep it so, and a range over a map visits each entry: the request can be cached, and the
  -- embedder gave its text a vector. The answer is a 200 with the stored body of an entry: once the
  -- embedding is paid for, that entry stands in the shard of the server's store that the request's own
  -- bucket belongs to, it is of that bucket, and no comparable entry there is more similar to the
  -- vector. The server's policy, as it is after the lookup, chose to exploit it, and nothing was sent
  -- to the backend.
  pub handle-hit :
      (laws : IsOrdered F) (env : Env F S R) (readable : Bool) (body key : Text) (w : World F S R)
      → ((n : ℕ) → Visits (env.range n))
      → ((n : ℕ) (s : Server F S R) → All IsValid s.store → All IsValid (env.others n s).store)
      → All IsValid w.server.store
      → IsFresh w
      → IsMarkedHit (handle_chat_completions env readable body key w).1.writer
      → let req = env.decode_request body in
        (bypass_reason env.decode_string env.cfg.temperature_ceiling req ≡ none)
        × IsReuse laws env req key w (handle_chat_completions env readable body key w).1
  handle-hit laws env readable body key w visits others v fresh h =
      let calm : IsCalm (Unit {0}) (λ (s : Server F S R). All IsValid s.store) env = record {
        others = others;
        budget = λ s key cost h x. x;
        bypass_total = λ s x. x;
        policy = λ s obs sim x. x;
      } in
      let hit = handle-IsHit calm body key w fresh v readable h in
      (hit.plain, hit-IsReuse laws env (env.decode_request body) key w _ visits hit)
