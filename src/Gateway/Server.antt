-- ===== src/Gateway/Server.antt =====
-- internal/gateway/gateway.go: how a server is built and closed. The file of prices and its JSON are
-- behind `load_prices`, the function of internal/pricing; the metrics' registration is not modelled.
use semblance.Budget
use semblance.Cache.Steps.{new_shards-IsStore}
use semblance.Cache.Store.{MemoryStore, new_memory_store, new_shards, at_least_one}
use semblance.Cache.Valid.{All, IsValid}
use semblance.Config.Load.{Config}
use semblance.Double.{Double}
use semblance.Embed.OpenAi.{OpenAi, new_open_ai}
use semblance.Gateway.Ready.{IsReady}
use semblance.Gateway.Request.{is_empty}
use semblance.Gateway.World.{Server, Update}
use semblance.Judge.Labeler
use semblance.Judge.Labeler.{Labeler, new_labeler}
use semblance.Policy.Decide.{Policy, new_policy}
use semblance.Prelude.{
  pos, ℕ, zero, suc, ◌+◌, ◌<◌, ◌≡◌, refl, ◌/◌, [], Option, none, some, if◌then◌else◌, ltb, arith,
  length,
}
use semblance.Pricing.{Table, Loaded, ok, err, empty}
use semblance.Text.{Text}

-- The parts that are injected; the embedder is of the handler's environment.
pub record Options (F S R : Type 0) : Type 0 where
  pub store : Option (MemoryStore F S)
  pub policy : Option (Policy F R)
  pub labeler : Option (Labeler (Update F S))
  pub prices : Option (Table F)

-- The embedder that the command injects: none without an API key.
unfoldable pub embedder_option : {F : Type 0} → Config F → Option OpenAi
embedder_option cfg =
    if is_empty cfg.openai_api_key
    then none
    else some (
        new_open_ai cfg.embed_base_url cfg.openai_api_key cfg.embed_model
          (pos cfg.embed_dimensions))

module _ {F : Type 0} where
  -- A table that cannot be loaded is the empty one.
  unfoldable pub prices_of : (Text → Loaded F) → Config F → Option (Table F) → Table F
  prices_of load_prices cfg (some p) = p
  prices_of load_prices cfg none = elim (load_prices cfg.price_table_path) [
    | ok p ↦ p
    | err e ↦ empty
  ]

-- The default policy, with the configured floor if it is positive.
unfoldable pub default_policy : {F R : Type 0} → ⦃d : Double F⦄ → R → Config F → Policy F R
default_policy rand cfg =
    let p = new_policy cfg.delta rand in
    if ltb 0 cfg.n_min then record p { n_min = cfg.n_min } else p

module _ {F S R : Type 0} ⦃d : Double F⦄ where
  unfoldable pub new_server : R → Config F → Options F S R → Server F S R
  unfolding default_policy
  new_server rand cfg opts = record {
    store = elim opts.store [
      | some m ↦ m
      | none ↦ new_memory_store cfg.cache_capacity cfg.max_observations cfg.cache_shards
    ];
    policy = elim opts.policy [ some p ↦ p | none ↦ default_policy rand cfg ];
    labeler = elim opts.labeler [
      | some l ↦ l
      | none ↦ new_labeler cfg.judge_queue_size cfg.judge_workers
    ];
    budget = Budget.new cfg.budget_cents;
    bypass_total = 0;
  }

module _ {F S R : Type 0} where
  unfoldable pub close : Server F S R → Server F S R
  close s = record s { labeler = Labeler.close s.labeler }

at_least_one-pos : (n : ℕ) → 0 < at_least_one n
at_least_one-pos n = ground arith

length-new_shards :
    (F S : Type 0) (left i capacity max_obs : ℕ)
    → length (new_shards {F = F} {S = S} left i capacity max_obs) ≡ left
unfolding new_shards
length-new_shards F S zero i capacity max_obs = refl
length-new_shards F S (suc left) i capacity max_obs =
    omega (arith, length-new_shards F S left (i + 1) capacity max_obs)

new_memory_store-fresh :
    (F S : Type 0) (total max_obs shards : ℕ)
    → (0 < length (new_memory_store {F = F} {S = S} total max_obs shards))
      × All IsValid (new_memory_store {F = F} {S = S} total max_obs shards)
unfolding new_memory_store
new_memory_store-fresh F S total max_obs shards =
    let n = at_least_one shards in
    let c = at_least_one (total / n) in
    (
      omega (arith, length-new_shards F S n 0 c (at_least_one max_obs), at_least_one-pos shards),
      (new_shards-IsStore n 0 c (at_least_one max_obs) (at_least_one-pos (total / n))).shards,
    )

module _ {F S R : Type 0} ⦃d : Double F⦄ where
  -- A server that is built without a store and a labeler of its own can serve: its store has a shard,
  -- every shard is valid, and its labeler is open with an empty queue. Once closed it cannot.
  pub new_server-IsReady :
      (rand : R) (cfg : Config F) (opts : Options F S R)
      → opts.store ≡ none
      → opts.labeler ≡ none
      → IsReady (new_server rand cfg opts)
        × All IsValid (new_server rand cfg opts).store
        × ((new_server rand cfg opts).labeler.queue ≡ [])
        × (¬ IsReady (close (new_server rand cfg opts)))
  unfolding new_server new_labeler close Labeler.close
  new_server-IsReady rand cfg opts store labeler =
      let (some_shard, valid) =
        new_memory_store-fresh F S cfg.cache_capacity cfg.max_observations cfg.cache_shards in
      (
        record { stored = rw store some_shard; opened = rw labeler refl },
        rw store valid,
        rw labeler refl,
        λ r. absurd (cc (r.opened)),
      )
