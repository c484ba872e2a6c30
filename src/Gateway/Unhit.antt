-- ===== src/Gateway/Unhit.antt =====
-- The paths of internal/gateway/chat.go on which the response is never marked as a hit.
use semblance.Assoc.{lookup, lookup-insert_ne, lookup-insert_self, beq_refl}
use semblance.Cache.Shard.{Match}
use semblance.Double.{Double, Single}
use semblance.Gateway.Chat.{
  skip, insert_response, explore_cold_miss, explore_with_neighbor, header_cache, header_tau,
  cache_hit, cache_miss,
}
use semblance.Gateway.Request.{Bypass}
use semblance.Gateway.Silent.{
  IsSilent, pure-IsSilent, shared-IsSilent, bind-IsSilent, submit_job-IsSilent,
  count_bypass-IsSilent, record_backend_usage-IsSilent,
}
use semblance.Gateway.Upstream.{
  UpstreamResult, fetch_upstream_buffered, write_buffered, proxy_passthrough, relay_stream,
  relay_type, fail, send, unreachable, cacheable,
}
use semblance.Gateway.World.{Env, World, Response, Action, pure, ◌>>=◌, ◌>>◌, respond_by, continue}
use semblance.Gateway.Writer.{Writer, set_header, write, write_header, write_error, content_type}
use semblance.Gateway.Written.{
  write-header, write_header-header, relay_stream-IsRelayed, write_header-wrote,
}
use semblance.OpenAi.{ChatCompletionRequest}
use semblance.Prelude.{
  ℕ, ◌≡◌, refl, sym, ap, ◌∙◌, Bool, true, false, not, List, [], ◌∷◌, Option, none, some, arith,
  if◌then◌else◌,
}
use semblance.Text.{Text, text_Eq}

-- What the response says of the cache.
abbrev pub mark : Writer → Option Text
mark w = lookup header_cache w.header

abbrev pub IsMarkedHit : Writer → Type 0
IsMarkedHit w = mark w ≡ some cache_hit

pub write-mark : (bytes : Text) (w : Writer) → mark (write bytes w) ≡ mark w
write-mark bytes w = ap (lookup header_cache) (write-header bytes w)

pub write_header-mark : (code : ℕ) (w : Writer) → mark (write_header code w) ≡ mark w
write_header-mark code w = ap (lookup header_cache) (write_header-header code w)

pub set_header-mark :
    (key value : Text) (w : Writer)
    → text_Eq.beq header_cache key ≡ false
    → mark (set_header key value w) ≡ mark w
set_header-mark key value w other = lookup-insert_ne key header_cache value w.header other

relay_type-mark : (ct : Text) (w : Writer) → mark (relay_type ct w) ≡ mark w
relay_type-mark [] w = refl
relay_type-mark (c ∷ cs) w = set_header-mark content_type (c ∷ cs) w refl

module _ {F S R : Type 0} where
  -- The step does not mark the response as a hit.
  pub record IsUnhit {A : Type 0} (m : Action F S R A) : Type 0 where
    pub unhit : (w : World F S R) → IsMarkedHit (m w).1.writer → IsMarkedHit w.writer

  silent-IsUnhit : {A : Type 0} {m : Action F S R A} → IsSilent m → IsUnhit m
  silent-IsUnhit x = record { unhit = λ w h. rw (← x.writer w) h }

  bind-IsUnhit :
      {A B : Type 0} {m : Action F S R A} {g : A → Action F S R B}
      → IsUnhit m
      → ((a : A) → IsUnhit (g a))
      → IsUnhit (m >>= g)
  unfolding ◌>>=◌
  bind-IsUnhit {A} {B} {m} {g} x y = record { unhit = λ w h. go w (m w) (x.unhit w) h }
    where
      go :
          (w : World F S R) (r : Option A × World F S R)
          → (IsMarkedHit r.1.writer → IsMarkedHit w.writer)
          → IsMarkedHit (continue r g).1.writer
          → IsMarkedHit w.writer
      go w (none, w') k h = k h
      go w (some a, w') k h = k ((y a).unhit w' h)

  if-IsUnhit :
      {A : Type 0} (t : Bool) {m m' : Action F S R A}
      → IsUnhit m
      → IsUnhit m'
      → IsUnhit (if t then m else m')
  if-IsUnhit true x y = x
  if-IsUnhit false x y = y

  -- A write that leaves the mark, and a mark that is no hit.
  leave-IsUnhit :
      (g : Writer → Writer) → ((x : Writer) → mark (g x) ≡ mark x) → IsUnhit (respond_by g)
  unfolding respond_by
  leave-IsUnhit g e = record { unhit = λ w h. sym (e w.writer) ∙ h }

  mark-IsUnhit :
      (value : Text)
      → text_Eq.beq value cache_hit ≡ false
      → IsUnhit (respond_by (set_header header_cache value))
  unfolding respond_by
  mark-IsUnhit value other = record {
    unhit = λ w h.
        let same : value ≡ cache_hit =
          ground (arith, h, lookup-insert_self header_cache value w.writer.header) in
        absurd (ground (arith, same, other, beq_refl cache_hit));
  }

  send-IsUnhit : (env : Env F S R) (body : Text) → IsUnhit (send env body)
  unfolding send
  send-IsUnhit env body = record { unhit = λ w h. h }

  pub fail-IsUnhit :
      (env : Env F S R) (status : ℕ) (type message : Text) → IsUnhit (fail env status type message)
  unfolding fail write_error
  fail-IsUnhit env status type message =
      leave-IsUnhit _
        λ x. write-mark _ _ ∙ write_header-mark status _ ∙ set_header-mark content_type _ x refl

  fetch_upstream_buffered-IsUnhit :
      (env : Env F S R) (body : Text) → IsUnhit (fetch_upstream_buffered env body)
  unfolding fetch_upstream_buffered
  fetch_upstream_buffered-IsUnhit env body =
      if-IsUnhit _ (silent-IsUnhit (pure-IsSilent none))
        (bind-IsUnhit (send-IsUnhit env body) (λ answer. silent-IsUnhit (pure-IsSilent _)))

  write_buffered-IsUnhit :
      (env : Env F S R) (res : UpstreamResult) → IsUnhit (write_buffered env res)
  unfolding write_buffered
  write_buffered-IsUnhit env res = leave-IsUnhit _ λ x.
      write-mark res.body _ ∙ write_header-mark res.status _ ∙ relay_type-mark res.content_type x

  proxy_passthrough-IsUnhit :
      (env : Env F S R) (body : Text) (req : ChatCompletionRequest F)
      → IsUnhit (proxy_passthrough env body req)
  unfolding proxy_passthrough
  proxy_passthrough-IsUnhit env body req =
      if-IsUnhit _ (fail-IsUnhit env _ _ _) (bind-IsUnhit (send-IsUnhit env body) answered)
    where
      answered :
          (answer : Option Response)
          → IsUnhit (elim answer [
            | none ↦ unreachable env
            | some resp ↦ respond_by (λ w.
                relay_stream env.accepts 0 resp.chunks
                  (write_header resp.status (relay_type resp.content_type w)))
          ])
      answered none = fail-IsUnhit env _ _ _
      answered (some resp) = leave-IsUnhit _ λ x.
          ap (lookup header_cache)
            (relay_stream-IsRelayed env.accepts 0 resp.chunks _
              (write_header-wrote resp.status _)).header
          ∙ write_header-mark resp.status _
          ∙ relay_type-mark resp.content_type x

  pub skip-IsUnhit :
      (env : Env F S R) (reason : Bypass) (header body : Text) (req : ChatCompletionRequest F)
      → text_Eq.beq header cache_hit ≡ false
      → IsUnhit (skip env reason header body req)
  unfolding skip
  skip-IsUnhit env reason header body req other =
      bind-IsUnhit (silent-IsUnhit (count_bypass-IsSilent env reason))
        λ _. bind-IsUnhit (mark-IsUnhit header other) (λ _. proxy_passthrough-IsUnhit env body req)

  answered-IsUnhit :
      (env : Env F S R) (learn : UpstreamResult → Action F S R (Unit {0}))
      → ((res : UpstreamResult) → IsSilent (learn res))
      → (fetched : Option UpstreamResult)
      → IsUnhit (elim fetched [
        | none ↦ unreachable env
        | some res ↦ (do write_buffered env res; if not (cacheable res) then pure tt else learn res)
      ])
  answered-IsUnhit env learn h none = fail-IsUnhit env _ _ _
  answered-IsUnhit env learn h (some res) =
      bind-IsUnhit (write_buffered-IsUnhit env res)
        λ _. if-IsUnhit _ (silent-IsUnhit (pure-IsSilent tt)) (silent-IsUnhit (h res))

module _ {F S R : Type 0} ⦃d : Double F⦄ ⦃f : Single F S⦄ (env : Env F S R) (body : Text) where
  pub explore_cold_miss-IsUnhit :
      (bucket : Text) (qvec : List S) (model key : Text)
      → IsUnhit (explore_cold_miss env body bucket qvec model key)
  unfolding explore_cold_miss insert_response
  explore_cold_miss-IsUnhit bucket qvec model key = bind-IsUnhit (mark-IsUnhit cache_miss refl) λ _.
      bind-IsUnhit (leave-IsUnhit _ (λ x. set_header-mark header_tau _ x refl)) λ _.
        bind-IsUnhit (fetch_upstream_buffered-IsUnhit env body) (
          answered-IsUnhit env _ λ res.
            bind-IsSilent (record_backend_usage-IsSilent env _ _ _) (λ _. shared-IsSilent env _))

  pub explore_with_neighbor-IsUnhit :
      (bucket : Text) (qvec : List S) (found : Match F) (model key : Text)
      → IsUnhit (explore_with_neighbor env body bucket qvec found model key)
  unfolding explore_with_neighbor
  explore_with_neighbor-IsUnhit bucket qvec found model key =
      bind-IsUnhit (mark-IsUnhit cache_miss refl) λ _.
        bind-IsUnhit (fetch_upstream_buffered-IsUnhit env body) (
          answered-IsUnhit env _ λ res.
            bind-IsSilent (record_backend_usage-IsSilent env _ _ _)
              (λ _. submit_job-IsSilent env _))
