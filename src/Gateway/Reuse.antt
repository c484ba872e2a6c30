-- ===== src/Gateway/Reuse.antt =====
-- The entry that a hit of internal/gateway/chat.go reuses.
use semblance.Cache.Shard.{Match}
use semblance.Cache.Store
use semblance.Cache.Store.{MemoryStore}
use semblance.Double.{Double, Single}
use semblance.Gateway.Request.{final_user_text, bucket_key_for_request}
use semblance.Gateway.World.{Env, World}
use semblance.OpenAi.{ChatCompletionRequest}
use semblance.Policy.Decide.{decide}
use semblance.Prelude.{
  ℤ, ℕ, ◌≡◌, ap, subst, ◌∙◌, inl, inr, false, List, ◌++◌, Option, some, arith, Option-cases,
  get_elem?,
}
use semblance.Text.{Text, text_Eq}
use semblance.Gateway.Hit.{IsHit, paid_world, looked_world}
use semblance.Cache.Shard
use semblance.Cache.Shard.{Entry, Shard, Entries}
use semblance.Cache.Steps.{All-get}
use semblance.Cache.Vector.{normalize, dot}
use semblance.Cache.Nearest.{Visits, IsComparable, match_of, nearest_lem}
use semblance.Cache.Valid.{In, All, entries, IsValid}
use semblance.Double.{IsOrdered}

module _ {F S R : Type 0} ⦃d : Double F⦄ ⦃f : Single F S⦄ where
  -- The entry that a hit reuses, in worlds of the run. The embedder gave the request's text the vector
  -- and the tokens. Once the tokens are paid for, the entry stands in the shard of the server's store
  -- that the request's bucket belongs to; it is of that bucket, as long as the query, and at least as
  -- similar to it as every other comparable entry. After the lookup the server's policy chose not to
  -- explore on its observations; and the client got its response.
  pub record IsReuse (laws : IsOrdered F) (env : Env F S R) (req : ChatCompletionRequest F)
      (key : Text) (w w' : World F S R) : Type 0 where
    pub embed : Text → Option (List S × ℤ)
    pub qvec : List S
    pub tokens : ℤ
    pub embedder : env.embedder ≡ some embed
    pub embedded : embed (final_user_text env.decode_string req).0 ≡ some (qvec, tokens)
    pub shard : Shard F S
    pub entry : Entry F S
    pub there :
        let w1 = paid_world env req key tokens w in
        let store = (env.others w1.clock w1.server).store in
        get_elem? store (
          Store.shard_for store
            (bucket_key_for_request env.digest env.decode_string env.format_float req))
        ≡ some shard
    pub member : In entry (entries shard)
    pub comparable :
        IsComparable laws
          (bucket_key_for_request env.digest env.decode_string env.format_float req)
          qvec
          entry
    pub best :
        (e : Entry F S)
        → In e (entries shard)
        → IsComparable laws
            (bucket_key_for_request env.digest env.decode_string env.format_float req)
            qvec
            e
        → d.lt (dot (normalize F qvec) entry.vec) (dot (normalize F qvec) e.vec) ≡ false
    pub decided :
        let w2 = looked_world env req key qvec tokens w in
        (decide env.float64
          (env.others w2.clock w2.server).policy
          entry.obs
          (dot (normalize F qvec) entry.vec)).0.explore
        ≡ false
    pub status : w'.writer.status ≡ 200
    pub body : w'.writer.body ≡ w.writer.body ++ entry.resp.body
    pub fetched : w'.fetched ≡ w.fetched

  pub hit-IsReuse :
      (laws : IsOrdered F) (env : Env F S R) (req : ChatCompletionRequest F) (key : Text)
      (w w' : World F S R)
      → ((n : ℕ) → Visits (env.range n))
      → IsHit (λ s. All IsValid s.store) env req key w w'
      → IsReuse laws env req key w w'
  unfolding Store.nearest
  hit-IsReuse laws env req key w w' visits hit =
      let b = bucket_key_for_request env.digest env.decode_string env.format_float req in
      let qvec = hit.qvec in
      let x = hit.neighbor in
      let w1 = paid_world env req key hit.tokens w in
      let w2 = looked_world env req key qvec hit.tokens w in
      let store = (env.others w1.clock w1.server).store in
      elim (Option-cases (get_elem? store (Store.shard_for store b))) [
        | inl gone ↦ absurd (ground (arith, gone, x.looked))
        | inr (sh, here) ↦
            let v = All-get IsValid store (Store.shard_for store b) x.kept here in
            let looked : (Shard.nearest (env.range w1.clock) sh b qvec).1 ≡ some x.found =
              ground (arith, here, x.looked) in
            elim (nearest_lem laws (env.range w1.clock) sh b qvec (visits w1.clock) v) [
              | inl (nothing, _) ↦ absurd (ground (arith, nothing, looked))
              | inr (e, sh', same, member, comparable, best, _, _) ↦
                  let eq : x.found ≡ match_of laws e (dot (normalize F qvec) e.vec) =
                    ground (arith, same, looked) in
                  record {
                    embed = hit.embed;
                    qvec = qvec;
                    tokens = hit.tokens;
                    embedder = hit.embedder;
                    embedded = hit.embedded;
                    shard = sh;
                    entry = e;
                    there = here;
                    member = member;
                    comparable = comparable;
                    best = best;
                    decided =
                        subst
                          (λ (m : Match F).
                            (decide env.float64 (env.others w2.clock w2.server).policy
                              m.observations m.similarity).0.explore
                            ≡ false)
                          eq x.decided;
                    status = x.served.status;
                    body =
                        x.served.body ∙ ap (λ (m : Match F). w.writer.body ++ m.response.body) eq;
                    fetched = x.served.fetched;
                  }
            ]
      ]
