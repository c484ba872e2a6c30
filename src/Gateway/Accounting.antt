-- ===== src/Gateway/Accounting.antt =====
-- internal/gateway/accounting.go: tokens, costs and bills.
use semblance.Budget.{charge, enabled, remaining_cents}
use semblance.Double.{Double}
use semblance.Gateway.World.{
  Env, Action, Cost, pure, ◌>>=◌, ◌>>◌, count, look, change, embed_tokens, backend_tokens, cost_usd,
  budget_cents, prompt, completion, spent, embedding, saved,
}
use semblance.OpenAi.{Usage}
use semblance.Policy.Logistic.{nought}
use semblance.Prelude.{ℤ, pos, negsuc, Bool, false, not, if◌then◌else◌, ltb}
use semblance.Pricing.{embed_cost, chat_cost}
use semblance.Text.{Text}

abbrev pub is_positive : ℤ → Bool
is_positive (pos n) = ltb 0 n
is_positive (negsuc n) = false

module _ {F S R : Type 0} ⦃d : Double F⦄ (env : Env F S R) where
  open d use {lt, mul, of_ℕ}

  abbrev pub in_cents : F → F
  in_cents cost = mul cost (of_ℕ 100)

  abbrev pub parse_usage : Text → Usage
  parse_usage body = (env.decode_response body).0.usage

  unfoldable pub update_budget_gauge : Text → Action F S R (Unit {0})
  update_budget_gauge key = do
    on ← look env (λ s. enabled s.budget)
    if not on
        then pure tt
        else do left ← look env (λ s. remaining_cents s.budget key); count (budget_cents key left)

  -- A positive cost is counted and billed.
  unfoldable pub bill : Cost → Text → F → Action F S R (Unit {0})
  bill kind key cost = if not (lt nought cost) then pure tt else do
    count (cost_usd kind cost)
    change env (λ s. record s { budget = charge s.budget key (in_cents cost) })

  unfoldable pub record_embed_usage : Text → Text → ℤ → Action F S R (Unit {0})
  record_embed_usage model key tokens = do
    if is_positive tokens then count (embed_tokens tokens) else pure tt
    bill embedding key (embed_cost env.prices model tokens)
    update_budget_gauge key

  unfoldable pub record_backend_usage : Text → Text → Text → Action F S R (Unit {0})
  record_backend_usage model key body = do
    let u = parse_usage body
    if is_positive u.prompt_tokens then count (backend_tokens prompt u.prompt_tokens) else pure tt
    if is_positive u.completion_tokens
        then count (backend_tokens completion u.completion_tokens)
        else pure tt
    bill spent key (chat_cost env.prices model u.prompt_tokens u.completion_tokens)
    update_budget_gauge key

  unfoldable pub record_saved_cost : Text → Text → Action F S R (Unit {0})
  record_saved_cost model body =
      let u = parse_usage body in
      let cost = chat_cost env.prices model u.prompt_tokens u.completion_tokens in
      if lt nought cost then count (cost_usd saved cost) else pure tt
