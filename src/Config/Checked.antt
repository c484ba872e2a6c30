-- ===== src/Config/Checked.antt =====
-- internal/config/config.go: what a configuration that `Load` returns satisfies.
use semblance.Config.Load.{Config, base_url, load_config}
use semblance.Config.Parse.{
  Library, ConfigError, Result, ok, err, ◌>>=◌, refuse, or_malformed, is_empty, getenv, positive,
  parse_positive_int, keep_keys, parse_keys, validate_http_url,
}
use semblance.Double.{Double}
use semblance.Policy.Logistic.{nought, one}
use semblance.Prelude.{
  ℤ, pos, negsuc, ℕ, zero, suc, ◌<◌, ◌≡◌, ◌⊎◌, inl, inr, refl, Bool, true, false, List, [], ◌∷◌,
  Option, none, some, arith, Bool-cases, Option-cases, subst,
}
use semblance.Text.{Text, codes, text_eq_iff}

bind_ok :
    {A B : Type 0} (r : Result A) (f : A → Result B) {b : B}
    → (r >>= f) ≡ ok b
    → (a : A) × (r ≡ ok a) × (f a ≡ ok b)
bind_ok (ok a) f h = (a, refl, h)
bind_ok (err e) f h = absurd (cc)

refuse_ok : (t : Bool) (e : ConfigError) {u : Unit {0}} → refuse t e ≡ ok u → t ≡ false
refuse_ok true e h = absurd (cc)
refuse_ok false e h = refl

module _ {F : Type 0} (lib : Library F) where
  positive_ok : (key : Text) (v : ℤ) {n : ℕ} → positive lib key v ≡ ok n → 0 < n
  positive_ok key (pos zero) h = absurd (cc)
  positive_ok key (pos (suc m)) h = ground arith
  positive_ok key (negsuc m) h = absurd (cc)

  parse_positive_int_ok :
      (key fallback : Text) {n : ℕ} → parse_positive_int lib key fallback ≡ ok n → 0 < n
  unfolding parse_positive_int
  parse_positive_int_ok key fallback h =
      let (v, _, p) =
        bind_ok (or_malformed key (lib.atoi (getenv lib key fallback))) (positive lib key) h in
      positive_ok key v p

  -- An absolute URL over HTTP or HTTPS with a host.
  pub record IsHttpUrl (raw : Text) : Type 0 where
    pub scheme : Text
    pub host : Text
    pub parsed : lib.parse_url raw ≡ some (scheme, host)
    pub http : (scheme ≡ codes "http") ⊎ (scheme ≡ codes "https")
    pub hosted : is_empty host ≡ false

  or_malformed_ok :
      {A : Type 0} (key : Text) (o : Option A) {a : A} → or_malformed key o ≡ ok a → o ≡ some a
  or_malformed_ok key none h = absurd (cc)
  or_malformed_ok key (some a) h = ground arith

  validate_http_url_ok :
      (key raw : Text) {u : Unit {0}} → validate_http_url lib key raw ≡ ok u → IsHttpUrl raw
  unfolding validate_http_url
  validate_http_url_ok key raw h = elim (Option-cases (lib.parse_url raw)) [
    | inl bad ↦ absurd (ground arith)
    | inr ((scheme, host), parsed) ↦ record {
      scheme = scheme;
      host = host;
      parsed = parsed;
      http = ground (arith, text_eq_iff scheme (codes "http"), text_eq_iff scheme (codes "https"));
      hosted = ground arith;
    }
  ]

  -- No key is empty.
  abbrev pub AreKeys : List Text → Type 0
  AreKeys [] = Unit
  AreKeys (k ∷ ks) = (is_empty k ≡ false) × AreKeys ks

  keep_keys-AreKeys : (ks : List Text) → AreKeys (keep_keys lib ks)
  unfolding keep_keys
  keep_keys-AreKeys [] = tt
  keep_keys-AreKeys (k ∷ ks) = elim (Bool-cases (is_empty (lib.trim_space k))) [
    | inl empty ↦ rw empty (keep_keys-AreKeys ks)
    | inr full ↦ rw full (full, keep_keys-AreKeys ks)
  ]

module _ {F : Type 0} ⦃d : Double F⦄ (lib : Library F) where
  open d use {lt, le, is_nan}

  -- The tests that a configuration has passed. A NaN passes those of the three numbers.
  pub record IsConfig (cfg : Config F) : Type 0 where
    pub delta_range : (le cfg.delta nought ≡ false) × (le one cfg.delta ≡ false)
    pub ceiling_range : lt cfg.temperature_ceiling nought ≡ false
    pub budget_range : lt cfg.budget_cents nought ≡ false
    pub url : IsHttpUrl lib cfg.backend_base_url
    pub keys : AreKeys lib cfg.api_keys
    pub n_min_pos : 0 < cfg.n_min
    pub capacity_pos : 0 < cfg.cache_capacity
    pub observations_pos : 0 < cfg.max_observations
    pub shards_pos : 0 < cfg.cache_shards
    pub queue_pos : 0 < cfg.judge_queue_size
    pub workers_pos : 0 < cfg.judge_workers
    pub dimensions_pos : 0 < cfg.embed_dimensions

  -- A configuration that loads has a delta that is neither at most 0 nor at least 1 and no negative
  -- temperature ceiling or budget, each possibly NaN; a backend URL over HTTP or HTTPS with a host;
  -- no empty API key; and positive counts, capacities and sizes.
  pub load_config-IsConfig : {cfg : Config F} → load_config lib ≡ ok cfg → IsConfig cfg
  unfolding load_config parse_keys
  load_config-IsConfig {cfg} h = record {
    delta_range = ground arith;
    ceiling_range = ground arith;
    budget_range = ground arith;
    url =
        subst (λ (x : Text). IsHttpUrl lib x) backend
          (validate_http_url_ok lib (codes "SEMBLANCE_BACKEND_URL")
            (base_url lib (codes "SEMBLANCE_BACKEND_URL") (codes "http://localhost:11434/v1"))
            {u = tt} (ground arith));
    keys =
        subst (λ (ks : List Text). AreKeys lib ks) keys_eq
          (keep_keys-AreKeys lib
            (lib.split (getenv lib (codes "SEMBLANCE_API_KEYS") (codes "")) (codes ",")));
    n_min_pos = parse_positive_int_ok lib (codes "SEMBLANCE_NMIN") (codes "5") (ground arith);
    capacity_pos =
        parse_positive_int_ok lib (codes "SEMBLANCE_CACHE_CAPACITY") (codes "10000") (ground arith);
    observations_pos =
        parse_positive_int_ok lib (codes "SEMBLANCE_MAX_OBSERVATIONS") (codes "200") (ground arith);
    shards_pos =
        parse_positive_int_ok lib (codes "SEMBLANCE_CACHE_SHARDS") (codes "16") (ground arith);
    queue_pos =
        parse_positive_int_ok lib (codes "SEMBLANCE_JUDGE_QUEUE") (codes "1000") (ground arith);
    workers_pos =
        parse_positive_int_ok lib (codes "SEMBLANCE_JUDGE_WORKERS") (codes "4") (ground arith);
    dimensions_pos =
        parse_positive_int_ok lib (codes "SEMBLANCE_EMBED_DIMENSIONS") (codes "1536")
          (ground arith);
  }
    where
      backend :
          base_url lib (codes "SEMBLANCE_BACKEND_URL") (codes "http://localhost:11434/v1")
          ≡ cfg.backend_base_url
      backend = ground arith

      keys_eq : parse_keys lib (getenv lib (codes "SEMBLANCE_API_KEYS") (codes "")) ≡ cfg.api_keys
      keys_eq = ground arith
