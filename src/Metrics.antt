-- ===== src/Metrics.antt =====
-- internal/metrics/metrics.go: the collectors and their registration. The Prometheus registry is an
-- argument; what is registered is described by the options that the code passes. A gauge that is a
-- function reads the server at each scrape.
pub mod Startup
use semblance.Double.{Double}
use semblance.Gateway.World.{Server}
use semblance.Cache.Store.{len}
use semblance.Judge.Labeler.{queue_depth}
use semblance.Policy.Logistic.{nought}
use semblance.Prelude.{
  ℕ, ◌≡◌, Bool, true, false, not, ◌&&◌, ◌||◌, List, [], ◌∷◌, ◌++◌, Option, none, some,
  if◌then◌else◌,
}
use semblance.Text.{Text, codes, text_eq}

-- `ExponentialBuckets(start, factor, count)` and `LinearBuckets(start, width, count)`.
pub data Buckets (F : Type 0) : Type 0 where
  exponential : F → F → ℕ → Buckets F
  linear : F → F → ℕ → Buckets F

-- A collector's kind, with its labels.
pub data Kind (F S R : Type 0) : Type 0 where
  counter gauge : List Text → Kind F S R
  histogram : Buckets F → Kind F S R
  gauge_func : (Server F S R → F) → Kind F S R

pub record Collector (F S R : Type 0) : Type 0 where
  pub namespace : Text
  pub name : Text
  pub help : Text
  pub kind : Kind F S R

-- The fully qualified name.
abbrev pub full_name : {F S R : Type 0} → Collector F S R → Text
full_name c = c.namespace ++ (codes "_" ++ c.name)

abbrev pub is_taken : {F S R : Type 0} → Text → List (Collector F S R) → Bool
is_taken n [] = false
is_taken n (c ∷ cs) = if text_eq n (full_name c) then true else is_taken n cs

abbrev pub without : {F S R : Type 0} → Text → List (Collector F S R) → List (Collector F S R)
without n [] = []
without n (c ∷ cs) = if text_eq n (full_name c) then without n cs else c ∷ without n cs

-- The names of the labels.
abbrev pub labels : {F S R : Type 0} → Kind F S R → List Text
labels (counter ls) = ls
labels (gauge ls) = ls
labels (histogram bs) = []
labels (gauge_func fn) = []

abbrev texts_eq : List Text → List Text → Bool
texts_eq [] [] = true
texts_eq (t ∷ ts) (u ∷ us) = text_eq t u && texts_eq ts us
texts_eq _ _ = false

-- A collector has the help and the labels of each one of its name.
abbrev pub is_consistent : {F S R : Type 0} → Collector F S R → List (Collector F S R) → Bool
is_consistent c [] = true
is_consistent c (x ∷ xs) =
    (not (text_eq (full_name c) (full_name x))
      || (text_eq c.help x.help && texts_eq (labels c.kind) (labels x.kind)))
    && is_consistent c xs

-- `prometheus.Registry`: a name can be registered once, and what has it can be removed again. The
-- help and the labels that a name was ever registered with stay: removed or not, it is accepted with
-- no others. `none` is the panic of `MustRegister`.
pub record Registry (F S R : Type 0) : Type 1 where
  pub Reg : Type 0
  pub fresh : Reg
  pub must_register : Collector F S R → Reg → Option Reg
  pub unregister : Collector F S R → Reg → Reg
  pub registered : Reg → List (Collector F S R)
  pub described : Reg → List (Collector F S R)
  pub registered-fresh : registered fresh ≡ []
  pub described-fresh : described fresh ≡ []
  pub register_free :
      (c : Collector F S R) (r : Reg)
      → is_taken (full_name c) (registered r) ≡ false
      → is_consistent c (described r) ≡ true
      → (r' : Reg) × (must_register c r ≡ some r')
        × (registered r' ≡ c ∷ registered r)
        × (described r' ≡ c ∷ described r)
  pub register_taken :
      (c : Collector F S R) (r : Reg)
      → is_taken (full_name c) (registered r) ≡ true
      → must_register c r ≡ none
  pub register_inconsistent :
      (c : Collector F S R) (r : Reg)
      → is_consistent c (described r) ≡ false
      → must_register c r ≡ none
  pub registered-unregister :
      (c : Collector F S R) (r : Reg)
      → registered (unregister c r) ≡ without (full_name c) (registered r)
  pub described-unregister :
      (c : Collector F S R) (r : Reg) → described (unregister c r) ≡ described r

module _ {F S R : Type 0} where
  abbrev pub collector : Text → Text → Kind F S R → Collector F S R
  collector name help kind = record {
    namespace = codes "semblance";
    name = name;
    help = help;
    kind = kind;
  }

  abbrev pub requests_total : Collector F S R
  requests_total =
      collector (codes "requests_total") (codes "Chat-completion requests by cache outcome.")
        (counter (codes "outcome" ∷ []))

  abbrev pub bypass_total : Collector F S R
  bypass_total =
      collector (codes "bypass_total") (codes "Requests that bypassed the cache, by reason.")
        (counter (codes "reason" ∷ []))

  abbrev pub cache_entries : Kind F S R → Collector F S R
  cache_entries kind =
      collector (codes "cache_entries") (codes "Current number of cache entries.") kind

  abbrev pub judge_queue : Kind F S R → Collector F S R
  judge_queue kind =
      collector (codes "judge_queue_depth") (codes "Pending jobs in the async labeling queue.") kind

  abbrev pub backend_tokens : Collector F S R
  backend_tokens =
      collector (codes "backend_tokens_total") (codes "Tokens billed by the backend, by direction.")
        (counter (codes "direction" ∷ []))

  abbrev pub embed_tokens : Collector F S R
  embed_tokens =
      collector (codes "embed_tokens_total") (codes "Tokens billed by the embedding provider.")
        (counter [])

  abbrev pub cost_usd : Collector F S R
  cost_usd =
      collector (codes "cost_usd_total")
        (codes "USD cost by kind: spent (explores), embedding, saved (modeled, on hits).")
        (counter (codes "kind" ∷ []))

  abbrev pub budget_cents : Collector F S R
  budget_cents =
      collector (codes "budget_remaining_cents") (codes "Remaining per-key budget in cents.")
        (gauge (codes "key" ∷ []))

  abbrev pub delta_target : Collector F S R
  delta_target =
      collector (codes "policy_delta_target")
        (codes "Configured error budget delta (the TARGET; realized error is not observable live).")
        (gauge [])

  abbrev pub explores_label : Collector F S R
  explores_label =
      collector (codes "explores_labeled_total")
        (codes "Explores that received an equivalence label from the judge.") (counter [])

  abbrev pub explores_c0 : Collector F S R
  explores_c0 =
      collector (codes "explores_incorrect_total")
        (codes
          "Labeled explores where the neighbor's answer would have been wrong (c=0). Proxy, not FP/n.")
        (counter [])

module _ {F S R : Type 0} ⦃d : Double F⦄ where
  open d use {of_ℕ, lit}

  abbrev pub entry_obs : Collector F S R
  entry_obs =
      collector (codes "entry_observations")
        (codes "Observation-set size of the matched entry at decision time.")
        (histogram (exponential (of_ℕ 1) (of_ℕ 2) 12))

  abbrev pub tau : Collector F S R
  tau =
      collector (codes "tau") (codes "Exploration probability tau at decision time.")
        (histogram (linear nought (lit 1 1) 11))

  abbrev pub similarity : Collector F S R
  similarity =
      collector (codes "similarity")
        (codes "Cosine similarity to nearest neighbor (hits and misses).")
        (histogram (linear nought (lit 5 2) 21))

  abbrev pub refit_seconds : Collector F S R
  refit_seconds =
      collector (codes "policy_refit_seconds")
        (codes "Time to fit the logistic model and compute tau.")
        (histogram (exponential (lit 1 5) (of_ℕ 3) 10))

  -- The arguments of `MustRegister` in `New`, in order.
  abbrev pub collectors : List (Collector F S R)
  collectors =
      requests_total
      ∷ bypass_total
      ∷ cache_entries (gauge [])
      ∷ entry_obs
      ∷ tau
      ∷ similarity
      ∷ refit_seconds
      ∷ judge_queue (gauge [])
      ∷ backend_tokens
      ∷ embed_tokens
      ∷ cost_usd
      ∷ budget_cents
      ∷ delta_target
      ∷ explores_label
      ∷ explores_c0
      ∷ []

-- The registry, and the value of the gauge of the target.
pub record Metrics {F S R : Type 0} (prom : Registry F S R) : Type 0 where
  pub reg : Registry.Reg prom
  pub delta : F

module _ {F S R : Type 0} (prom : Registry F S R) where
  open prom use {Reg, fresh, must_register, unregister}

  unfoldable pub register_all : List (Collector F S R) → Reg → Option Reg
  register_all [] r = some r
  register_all (c ∷ cs) r = elim (must_register c r) [ none ↦ none | some r' ↦ register_all cs r' ]

  -- `RegisterCacheEntriesFunc`, `RegisterJudgeQueueFunc`: the plain gauge makes room for the function.
  unfoldable pub register_cache_entries_func : (Server F S R → F) → Reg → Option Reg
  register_cache_entries_func fn r =
      must_register (cache_entries (gauge_func fn)) (unregister (cache_entries (gauge [])) r)

  unfoldable pub register_judge_queue_func : (Server F S R → F) → Reg → Option Reg
  register_judge_queue_func fn r =
      must_register (judge_queue (gauge_func fn)) (unregister (judge_queue (gauge [])) r)

module _ {F S R : Type 0} ⦃d : Double F⦄ (prom : Registry F S R) where
  open d use {of_ℕ}
  open prom use {fresh}

  unfoldable pub new : Option (Metrics prom)
  new = elim (register_all prom collectors fresh) [
    | none ↦ none
    | some r ↦ some (record { reg = r; delta = nought })
  ]

  -- What `New` of internal/gateway/gateway.go does with the metrics: the target and the two functions.
  unfoldable pub observe_server : F → Metrics prom → Option (Metrics prom)
  observe_server delta m = elim (register_cache_entries_func prom (λ s. of_ℕ (len s.store)) m.reg) [
    | none ↦ none
    | some r ↦ elim (register_judge_queue_func prom (λ s. of_ℕ (queue_depth s.labeler)) r) [
      | none ↦ none
      | some r' ↦ some (record m { reg = r'; delta = delta })
    ]
  ]
