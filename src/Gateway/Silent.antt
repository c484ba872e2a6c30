-- ===== src/Gateway/Silent.antt =====
-- The steps of internal/gateway/chat.go and accounting.go that neither write to the client nor call
-- the backend, and those that never say "hit".
use semblance.Double.{Double, Single}
use semblance.Gateway.Accounting.{
  bill, update_budget_gauge, record_embed_usage, record_backend_usage, record_saved_cost,
}
use semblance.Gateway.Chat.{count_bypass, submit_job, nearest}
use semblance.Gateway.Request.{Bypass}
use semblance.Gateway.World.{
  Env, World, Server, Update, Action, Cost, Call, pure, ◌>>=◌, continue, count, shared,
}
use semblance.Judge.Labeler.{Job}
use semblance.Prelude.{
  ℤ, ℕ, ◌≡◌, refl, ◌∙◌, Bool, true, false, List, Option, none, some, arith, if◌then◌else◌,
}
use semblance.Text.{Text, text_Eq}

module _ {F S R : Type 0} where
  pub record IsSilent {A : Type 0} (m : Action F S R A) : Type 0 where
    pub writer : (w : World F S R) → (m w).1.writer ≡ w.writer
    pub fetched : (w : World F S R) → (m w).1.fetched ≡ w.fetched

  pub pure-IsSilent : {A : Type 0} (a : A) → IsSilent (pure a)
  unfolding pure
  pure-IsSilent a = record { writer = λ w. refl; fetched = λ w. refl }

  pub count-IsSilent : (c : Call F) → IsSilent (count c)
  unfolding count
  count-IsSilent c = record { writer = λ w. refl; fetched = λ w. refl }

  pub shared-IsSilent :
      (env : Env F S R) {A : Type 0} (op : ℕ → Server F S R → Option (A × Server F S R))
      → IsSilent (shared env op)
  unfolding shared
  shared-IsSilent env op = record { writer = λ w. ground arith; fetched = λ w. ground arith }

  pub bind-IsSilent :
      {A B : Type 0} {m : Action F S R A} {g : A → Action F S R B}
      → IsSilent m
      → ((a : A) → IsSilent (g a))
      → IsSilent (m >>= g)
  unfolding ◌>>=◌
  bind-IsSilent {A} {B} {m} {g} x y = record {
    writer = λ w. at_writer w (m w) (x.writer w);
    fetched = λ w. at_fetched w (m w) (x.fetched w);
  }
    where
      at_writer :
          (w : World F S R) (r : Option A × World F S R)
          → r.1.writer ≡ w.writer
          → (continue r g).1.writer ≡ w.writer
      at_writer w (none, w') e = e
      at_writer w (some a, w') e = (y a).writer w' ∙ e

      at_fetched :
          (w : World F S R) (r : Option A × World F S R)
          → r.1.fetched ≡ w.fetched
          → (continue r g).1.fetched ≡ w.fetched
      at_fetched w (none, w') e = e
      at_fetched w (some a, w') e = (y a).fetched w' ∙ e

  pub if-IsSilent :
      {A : Type 0} (t : Bool) {m m' : Action F S R A}
      → IsSilent m
      → IsSilent m'
      → IsSilent (if t then m else m')
  if-IsSilent true x y = x
  if-IsSilent false x y = y

  pub submit_job-IsSilent :
      (env : Env F S R) (job : Job (Update F S)) → IsSilent (submit_job env job)
  unfolding submit_job
  submit_job-IsSilent env job = shared-IsSilent env _

  pub count_bypass-IsSilent :
      (env : Env F S R) (reason : Bypass) → IsSilent (count_bypass env reason)
  unfolding count_bypass
  count_bypass-IsSilent env reason =
      bind-IsSilent (shared-IsSilent env _)
        (λ _. bind-IsSilent (count-IsSilent _) (λ _. count-IsSilent _))

module _ {F S R : Type 0} ⦃d : Double F⦄ (env : Env F S R) where
  update_budget_gauge-IsSilent : (key : Text) → IsSilent (update_budget_gauge env key)
  unfolding update_budget_gauge
  update_budget_gauge-IsSilent key = bind-IsSilent (shared-IsSilent env _) λ on.
      if-IsSilent _ (pure-IsSilent tt)
        (bind-IsSilent (shared-IsSilent env _) (λ left. count-IsSilent _))

  bill-IsSilent : (kind : Cost) (key : Text) (cost : F) → IsSilent (bill env kind key cost)
  unfolding bill
  bill-IsSilent kind key cost =
      if-IsSilent _ (pure-IsSilent tt)
        (bind-IsSilent (count-IsSilent _) (λ _. shared-IsSilent env _))

  pub record_embed_usage-IsSilent :
      (model key : Text) (tokens : ℤ) → IsSilent (record_embed_usage env model key tokens)
  unfolding record_embed_usage
  record_embed_usage-IsSilent model key tokens =
      bind-IsSilent (if-IsSilent _ (count-IsSilent _) (pure-IsSilent tt))
        λ _. bind-IsSilent (bill-IsSilent _ _ _) (λ _. update_budget_gauge-IsSilent key)

  pub record_backend_usage-IsSilent :
      (model key bytes : Text) → IsSilent (record_backend_usage env model key bytes)
  unfolding record_backend_usage
  record_backend_usage-IsSilent model key bytes =
      bind-IsSilent (if-IsSilent _ (count-IsSilent _) (pure-IsSilent tt)) λ _.
        bind-IsSilent (if-IsSilent _ (count-IsSilent _) (pure-IsSilent tt))
          λ _. bind-IsSilent (bill-IsSilent _ _ _) (λ _. update_budget_gauge-IsSilent key)

  pub record_saved_cost-IsSilent :
      (model bytes : Text) → IsSilent (record_saved_cost env model bytes)
  unfolding record_saved_cost
  record_saved_cost-IsSilent model bytes = if-IsSilent _ (count-IsSilent _) (pure-IsSilent tt)

module _ {F S R : Type 0} ⦃d : Double F⦄ ⦃f : Single F S⦄ (env : Env F S R) where
  pub nearest-IsSilent : (bucket : Text) (qvec : List S) → IsSilent (nearest env bucket qvec)
  unfolding nearest
  nearest-IsSilent bucket qvec = shared-IsSilent env _
