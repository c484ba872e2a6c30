-- ===== src/Gateway/Hit.antt =====
-- A response of internal/gateway/chat.go that is marked as a hit.
use semblance.Cache.Shard.{Match}
use semblance.Cache.Store
use semblance.Cache.Store.{MemoryStore}
use semblance.Double.{Double, Single}
use semblance.Gateway.Accounting.{record_embed_usage}
use semblance.Gateway.Chat.{
  serve_hit, nearest, with_decision, with_neighbor, header_tau, header_similarity, with_embedding,
  explore_cold_miss,
}
use semblance.Gateway.Effects.{IsCalm, record_embed_usage-Does}
use semblance.Gateway.Request.{bypass_reason, final_user_text, bucket_key_for_request}
use semblance.Gateway.Run.{Ends}
use semblance.Gateway.Silent.{
  nearest-IsSilent, record_embed_usage-IsSilent, record_saved_cost-IsSilent,
}
use semblance.Gateway.Unhit.{
  mark, IsMarkedHit, explore_cold_miss-IsUnhit, explore_with_neighbor-IsUnhit, set_header-mark,
}
use semblance.Gateway.World.{
  Env, World, Server, Action, ◌>>=◌, ◌>>◌, respond_by, continue, count, shared, requests_total,
  explore,
}
use semblance.Gateway.Writer.{Writer, set_header, write, write_header}
use semblance.OpenAi.{ChatCompletionRequest}
use semblance.Policy.Decide.{decide}
use semblance.Prelude.{
  ℤ, ◌≡◌, refl, sym, ap, ◌∙◌, ◌⊎◌, inl, inr, Bool, true, false, List, ◌++◌, Option, none, some,
  arith, Option-cases,
}
use semblance.Text.{Text, text_Eq}

-- The client's bytes and the calls of the backend are those of a served hit.
pub record IsServed {F S R : Type 0} (found : Match F) (w w' : World F S R) : Type 0 where
  pub status : w'.writer.status ≡ 200
  pub body : w'.writer.body ≡ w.writer.body ++ found.response.body
  pub fetched : w'.fetched ≡ w.fetched

-- A response that nothing has been written to, and that no handler has marked.
pub record IsFresh {F S R : Type 0} (w : World F S R) : Type 0 where
  pub unwritten : w.writer.wrote_header ≡ false
  pub unmarked : ¬ IsMarkedHit w.writer

module _ {F S R : Type 0} ⦃d : Double F⦄ ⦃f : Single F S⦄ (env : Env F S R)
    (req : ChatCompletionRequest F) (key : Text) where
  -- The world in which the embedding's tokens are paid for.
  abbrev pub paid_world : ℤ → World F S R → World F S R
  paid_world tokens w = (record_embed_usage env req.model key tokens w).1

  -- The world after the lookup.
  abbrev pub looked_world : List S → ℤ → World F S R → World F S R
  looked_world qvec tokens w =
      (nearest env (bucket_key_for_request env.digest env.decode_string env.format_float req) qvec
        (paid_world tokens w)).1

module _ {F S R : Type 0} ⦃d : Double F⦄ ⦃f : Single F S⦄ (I : Server F S R → Type 0)
    (env : Env F S R) where
  -- The neighbour that the lookup in the world `w1` found in the server's store, under the invariant,
  -- and the decision of the server's policy to use it, in the world `w2` after the lookup; the client
  -- gets the neighbour's answer.
  pub record IsFound (bucket : Text) (qvec : List S) (w1 w2 w w' : World F S R) : Type 0 where
    pub found : Match F
    pub store : MemoryStore F S
    pub kept : I (env.others w1.clock w1.server)
    pub looked :
        Store.nearest (env.range w1.clock) (env.others w1.clock w1.server).store bucket qvec
        ≡ some (store, some found)
    pub decided :
        (decide env.float64
          (env.others w2.clock w2.server).policy
          found.observations
          found.similarity).0.explore
        ≡ false
    pub served : IsServed found w w'

  -- What led to a hit: the request can be cached, its text has an embedding, and once that is paid for
  -- the lookup for it found a neighbour.
  pub record IsHit (req : ChatCompletionRequest F) (key : Text) (w w' : World F S R) : Type 0 where
    pub embed : Text → Option (List S × ℤ)
    pub qvec : List S
    pub tokens : ℤ
    pub embedder : env.embedder ≡ some embed
    pub plain : bypass_reason env.decode_string env.cfg.temperature_ceiling req ≡ none
    pub embedded : embed (final_user_text env.decode_string req).0 ≡ some (qvec, tokens)
    pub neighbor :
        IsFound
          (bucket_key_for_request env.digest env.decode_string env.format_float req)
          qvec
          (paid_world env req key tokens w)
          (looked_world env req key qvec tokens w)
          w
          w'

module _ {F S R : Type 0} ⦃d : Double F⦄ ⦃f : Single F S⦄ (env : Env F S R) where
  serve_hit-IsServed :
      (found : Match F) (model : Text) (w : World F S R)
      → w.writer.wrote_header ≡ false
      → IsServed found w (serve_hit env found model w).1
  unfolding serve_hit respond_by ◌>>=◌ write_header write
  serve_hit-IsServed found model w fresh =
      let saved = record_saved_cost-IsSilent env model found.response.body in
      record {
        status = ap (λ (x : Writer). x.status) (saved.writer _) ∙ ground (arith, fresh);
        body = ap (λ (x : Writer). x.body) (saved.writer _) ∙ ground (arith, fresh);
        fetched = saved.fetched _;
      }

  with_decision-hit :
      (explored : Bool) (body bucket : Text) (qvec : List S) (found : Match F) (model key : Text)
      (w : World F S R)
      → IsFresh w
      → IsMarkedHit (with_decision env explored body bucket qvec found model key w).1.writer
      → (explored ≡ false)
        × IsServed found w (with_decision env explored body bucket qvec found model key w).1
  unfolding with_decision ◌>>=◌ count
  with_decision-hit true body bucket qvec found model key w fresh h = absurd (
      fresh.unmarked
        ((explore_with_neighbor-IsUnhit env body bucket qvec found model key).unhit _ h))
  with_decision-hit false body bucket qvec found model key w fresh h =
      let served = serve_hit-IsServed found model _ fresh.unwritten in
      (refl, record { status = served.status; body = served.body; fetched = served.fetched })

  with_neighbor-hit :
      (body bucket : Text) (qvec : List S) (found : Match F) (model key : Text) (w : World F S R)
      → IsFresh w
      → IsMarkedHit (with_neighbor env body bucket qvec found model key w).1.writer
      → ((decide env.float64
            (env.others w.clock w.server).policy
            found.observations
            found.similarity).0.explore
          ≡ false)
        × IsServed found w (with_neighbor env body bucket qvec found model key w).1
  unfolding with_neighbor ◌>>=◌ count shared respond_by
  with_neighbor-hit body bucket qvec found model key w fresh h =
      let p = (env.others w.clock w.server).policy in
      let decision = (decide env.float64 p found.observations found.similarity).0 in
      let marks : (x : Writer)
          → mark (
              set_header header_tau (env.format_float decision.tau)
                (set_header header_similarity (env.format_float found.similarity) x))
            ≡ mark x =
        λ x.
          set_header-mark header_tau (env.format_float decision.tau)
            (set_header header_similarity (env.format_float found.similarity) x) refl
          ∙ set_header-mark header_similarity (env.format_float found.similarity) x refl in
      let (chosen, served) =
        with_decision-hit decision.explore body bucket qvec found model key _
          (record {
            unwritten = fresh.unwritten;
            unmarked = λ m. fresh.unmarked (sym (marks w.writer) ∙ m);
          })
          h in
      (chosen, record { status = served.status; body = served.body; fetched = served.fetched })

  -- What the lookup gave, at its moment.
  nearest_world :
      (bucket : Text) (qvec : List S) (w : World F S R)
      → ((nearest env bucket qvec w).0 ≡ none)
        ⊎ ((found : Option (Match F)) × (m : MemoryStore F S) × (Store.nearest
                (env.range w.clock)
                (env.others w.clock w.server).store
                bucket
                qvec
              ≡ some (m, found))
            × ((nearest env bucket qvec w).0 ≡ some found))
  unfolding nearest shared
  nearest_world bucket qvec w =
      elim (Option-cases
        (Store.nearest (env.range w.clock) (env.others w.clock w.server).store bucket qvec)) [
          | inl gone ↦ inl (rw (nearest, shared, gone) refl)
          | inr ((m, found), here) ↦ inr (found, m, here, rw (nearest, shared, here) refl)
        ]

module _ {F S R : Type 0} ⦃d : Double F⦄ ⦃f : Single F S⦄ {I : Server F S R → Type 0}
    {env : Env F S R} (calm : IsCalm (Unit {0}) I env) (body : Text) where
  -- The world after a silent step.
  record Same (w w' : World F S R) : Type 0 where
    pub writer : w'.writer ≡ w.writer
    pub fetched : w'.fetched ≡ w.fetched

  module _ (req : ChatCompletionRequest F) (key : Text) (qvec : List S) (w : World F S R)
      (fresh : IsFresh w) where
    abbrev bucket : Text
    bucket = bucket_key_for_request env.digest env.decode_string env.format_float req

    abbrev after : Option (Match F) → Action F S R (Unit {0})
    after found = elim found [
      | none ↦ do
        count (requests_total explore)
        explore_cold_miss env body bucket qvec req.model key
      | some found ↦ with_neighbor env body bucket qvec found req.model key
    ]

    Same-IsFresh : (w' : World F S R) → Same w w' → IsFresh w'
    Same-IsFresh w' e = record {
      unwritten = ap (λ (x : Writer). x.wrote_header) e.writer ∙ fresh.unwritten;
      unmarked = λ m. fresh.unmarked (rw (← e.writer) m);
    }

    looked-IsFound :
        (w1 : World F S R) (r : Option (Option (Match F)) × World F S R)
        → I (env.others w1.clock w1.server)
        → (r.0 ≡ none)
          ⊎ ((found : Option (Match F)) × (m : MemoryStore F S) × (Store.nearest
                  (env.range w1.clock)
                  (env.others w1.clock w1.server).store
                  bucket
                  qvec
                ≡ some (m, found))
              × (r.0 ≡ some found))
        → Same w r.1
        → IsMarkedHit (continue r after).1.writer
        → IsFound I env bucket qvec w1 r.1 w (continue r after).1
    unfolding ◌>>=◌ count
    looked-IsFound w1 (none, w2) i looked e h = absurd ((Same-IsFresh w2 e).unmarked h)
    looked-IsFound w1 (some none, w2) i looked e h = absurd (
        (Same-IsFresh w2 e).unmarked
          ((explore_cold_miss-IsUnhit env body bucket qvec req.model key).unhit _ h))
    looked-IsFound w1 (some (some found), w2) i (inl gone) e h = absurd (cc)
    looked-IsFound w1 (some (some found), w2) i (inr (other, m, here, eq)) e h =
        let same : other ≡ some found = cc in
        let (decided, served) =
          with_neighbor-hit env body bucket qvec found req.model key w2 (Same-IsFresh w2 e) h in
        record {
          found = found;
          store = m;
          kept = i;
          looked = rw (← same) here;
          decided = decided;
          served = record {
            status = served.status;
            body = served.body ∙ ap (λ (x : Writer). x.body ++ found.response.body) e.writer;
            fetched = served.fetched ∙ e.fetched;
          };
        }

    billed-IsFound :
        (r : Option (Unit {0}) × World F S R)
        → Ends (Unit {0}) I body 0 0 false w r
        → Same w r.1
        → IsMarkedHit (continue r (λ _. nearest env bucket qvec >>= after)).1.writer
        → IsFound I env bucket qvec r.1
            (nearest env bucket qvec r.1).1
            w
            (continue r (λ _. nearest env bucket qvec >>= after)).1
    unfolding ◌>>=◌
    billed-IsFound (none, w1) ran e h = absurd ((Same-IsFresh w1 e).unmarked h)
    billed-IsFound (some a, w1) ran e h =
        let silent = nearest-IsSilent env bucket qvec in
        looked-IsFound w1 (nearest env bucket qvec w1) (calm.others w1.clock w1.server ran.kept)
          (nearest_world env bucket qvec w1)
          (record { writer = silent.writer w1 ∙ e.writer; fetched = silent.fetched w1 ∙ e.fetched })
          h

    pub with_embedding-IsFound :
        (tokens : ℤ)
        → I w.server
        → IsMarkedHit (with_embedding env body req key qvec tokens w).1.writer
        → IsFound I env bucket qvec
            (paid_world env req key tokens w)
            (looked_world env req key qvec tokens w)
            w
            (with_embedding env body req key qvec tokens w).1
    unfolding with_embedding ◌>>=◌
    with_embedding-IsFound tokens i h =
        let silent = record_embed_usage-IsSilent env req.model key tokens in
        billed-IsFound (record_embed_usage env req.model key tokens w)
          ((record_embed_usage-Does calm body req.model key tokens).ends w i)
          (record { writer = silent.writer w; fetched = silent.fetched w }) h
