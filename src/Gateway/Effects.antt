-- ===== src/Gateway/Effects.antt =====
-- What the handler of internal/gateway/chat.go does on every path, for an invariant of the server
-- that the store, the labeler and the other goroutines keep.
use semblance.Budget.{charge}
use semblance.Double.{Double}
use semblance.Gateway.Accounting.{
  in_cents, bill, update_budget_gauge, record_embed_usage, record_backend_usage, record_saved_cost,
}
use semblance.Gateway.Run.{
  is_request, ◌next◌, Does, bind-Does, weaken-Does, pure-Does, count-Does, respond-Does,
  shared-Does,
}
use semblance.Gateway.Upstream.{
  UpstreamResult, fetch_upstream_buffered, write_buffered, proxy_passthrough, relay_stream, fail,
  send, unreachable, relay_type,
}
use semblance.Gateway.World.{
  Env, Server, Action, Cost, Call, count, look, change, pure, ◌>>=◌, respond_by, Response,
}
use semblance.Gateway.Writer.{Writer, write_header}
use semblance.Gateway.Written.{
  write_header-wrote, write-wrote, write_error-wrote, relay_stream-wrote,
}
use semblance.OpenAi.{ChatCompletionRequest}
use semblance.Policy.Decide.{decide}
use semblance.Policy.Logistic.{Observation, nought}
use semblance.Prelude.{
  ℤ, ℕ, ◌+◌, List, Bool-cases, inl, inr, ◌≡◌, refl, subst, Bool, true, false, [], ◌∷◌, Option, none,
  some, arith, if◌then◌else◌,
}
use semblance.Text.{Text}

-- The other goroutines, and this handler's accesses beside those to the store and the labeler, keep
-- `I`.
pub record IsCalm {F S R : Type 0} ⦃d : Double F⦄ (P : Type 0) (I : Server F S R → Type 0)
    (env : Env F S R) : Type 0 where
  pub others : (n : ℕ) (s : Server F S R) → I s → I (env.others n s)
  pub budget :
      (s : Server F S R) (key : Text) (cost : F)
      → d.lt nought cost ≡ true
      → I s
      → I (record s { budget = charge s.budget key (in_cents env cost) })
  pub bypass_total : (s : Server F S R) → I s → I (record s { bypass_total = s.bypass_total + 1 })
  pub policy :
      (s : Server F S R) (obs : List (Observation F)) (sim : F)
      → I s
      → I (record s { policy = (decide env.float64 s.policy obs sim).1 })

module _ {F S R : Type 0} ⦃d : Double F⦄ {P : Type 0} {I : Server F S R → Type 0} {env : Env F S R}
    (calm : IsCalm P I env) (body : Text) where
  abbrev pub Quiet : {A : Type 0} → Action F S R A → Type 0
  Quiet m = Does P I body 0 0 false m

  pub look-Does : {A : Type 0} (g : Server F S R → A) → Quiet (look env g)
  look-Does g = shared-Does P I body env calm.others (λ n s. some (g s, s)) (λ n s i. i)

  pub change-Does :
      (g : Server F S R → Server F S R)
      → ((s : Server F S R) → I s → I (g s))
      → Quiet (change env g)
  change-Does g h = shared-Does P I body env calm.others (λ n s. some (tt, g s)) (λ n s i. h s i)

  pub if-Does :
      {j n : ℕ} {b : Bool} {A : Type 0} (t : Bool) {m m' : Action F S R A}
      → Does P I body j n b m
      → Does P I body j n b m'
      → Does P I body j n b (if t then m else m')
  if-Does true x y = x
  if-Does false x y = y

  pub Quiet-call : (c : Call F) → is_request c ≡ 0 → Quiet (count c)
  Quiet-call c h = subst (λ (j : ℕ). Does P I body j 0 false (count c)) h (count-Does P I body c)

  pub Quiet-pure : {A : Type 0} (a : A) → Quiet (pure a)
  Quiet-pure a = pure-Does P I body a

  pub update_budget_gauge-Does : (key : Text) → Quiet (update_budget_gauge env key)
  unfolding update_budget_gauge
  update_budget_gauge-Does key =
      look-Does _ next λ on. if-Does _ (Quiet-pure tt) (look-Does _ next λ left. Quiet-call _ refl)

  pub bill-Does : (kind : Cost) (key : Text) (cost : F) → Quiet (bill env kind key cost)
  unfolding bill
  bill-Does kind key cost = elim (Bool-cases (d.lt nought cost)) [
    | inl some_cost ↦
        rw (some_cost, bill)
          (Quiet-call _ refl next λ _. change-Does _ (λ s i. calm.budget s key cost some_cost i))
    | inr free ↦ rw (free, bill) (Quiet-pure tt)
  ]

  pub record_embed_usage-Does :
      (model key : Text) (tokens : ℤ) → Quiet (record_embed_usage env model key tokens)
  unfolding record_embed_usage
  record_embed_usage-Does model key tokens = if-Does _ (Quiet-call _ refl) (Quiet-pure tt) next λ _.
      bill-Does _ _ _ next λ _. update_budget_gauge-Does key

  pub record_backend_usage-Does :
      (model key bytes : Text) → Quiet (record_backend_usage env model key bytes)
  unfolding record_backend_usage
  record_backend_usage-Does model key bytes =
      if-Does _ (Quiet-call _ refl) (Quiet-pure tt) next λ _.
      if-Does _ (Quiet-call _ refl) (Quiet-pure tt) next λ _.
      bill-Does _ _ _ next λ _. update_budget_gauge-Does key

  pub record_saved_cost-Does : (model bytes : Text) → Quiet (record_saved_cost env model bytes)
  unfolding record_saved_cost
  record_saved_cost-Does model bytes = if-Does _ (Quiet-call _ refl) (Quiet-pure tt)

  -- A write to the response that answers, and one that does not.
  pub answer-Does :
      (g : Writer → Writer)
      → ((w : Writer) → (g w).wrote_header ≡ true)
      → Does P I body 0 0 true (respond_by g)
  answer-Does g h = respond-Does P I body true g (λ w _. h w)

  pub header-Does :
      (g : Writer → Writer)
      → ((w : Writer) → w.wrote_header ≡ true → (g w).wrote_header ≡ true)
      → Quiet (respond_by g)
  header-Does g h = respond-Does P I body false g h

  pub fail-Does :
      (status : ℕ) (type message : Text) → Does P I body 0 0 true (fail env status type message)
  unfolding fail
  fail-Does status type message =
      answer-Does _ (write_error-wrote env.encode_error status type message)

  pub weaken :
      {j n : ℕ} {b : Bool} {A : Type 0} {m : Action F S R A}
      → Does P I body j 0 b m
      → Does P I body j n b m
  weaken x = weaken-Does P I body (omega arith) (λ h. h) x

  pub send-Does : Does P I body 0 1 false (send env body)
  unfolding send
  send-Does = record {
    ends = λ w i. record {
      kept = i;
      counted = omega arith;
      sent = (body ∷ [], refl, (refl, tt), omega arith);
      answered = λ h. h;
    };
  }

  -- After the backend was called, it is not called again.
  pub sent_next :
      {b : Bool} {A B : Type 0} {m : Action F S R A} {g : A → Action F S R B}
      → Does P I body 0 1 false m
      → ((a : A) → Does P I body 0 0 b (g a))
      → Does P I body 0 1 b (m >>= g)
  sent_next x y = bind-Does P I body x y

  pub fetch_upstream_buffered-Does : Does P I body 0 1 false (fetch_upstream_buffered env body)
  unfolding fetch_upstream_buffered
  fetch_upstream_buffered-Does =
      if-Does _ (weaken (Quiet-pure none)) (sent_next send-Does (λ answer. Quiet-pure _))

  pub write_buffered-Does : (res : UpstreamResult) → Does P I body 0 0 true (write_buffered env res)
  unfolding write_buffered
  write_buffered-Does res = answer-Does _ (λ w. write-wrote res.body _)

  pub proxy_passthrough-Does :
      (req : ChatCompletionRequest F) → Does P I body 0 1 true (proxy_passthrough env body req)
  unfolding proxy_passthrough
  proxy_passthrough-Does req = if-Does _ (weaken (fail-Does _ _ _)) (sent_next send-Does answered)
    where
      answered :
          (answer : Option Response)
          → Does P I body 0 0 true (elim answer [
            | none ↦ unreachable env
            | some resp ↦ respond_by (λ w.
                relay_stream env.accepts 0 resp.chunks
                  (write_header resp.status (relay_type resp.content_type w)))
          ])
      answered none = fail-Does _ _ _
      answered (some resp) =
          answer-Does _
            (λ w. relay_stream-wrote env.accepts 0 resp.chunks _ (write_header-wrote resp.status _))
