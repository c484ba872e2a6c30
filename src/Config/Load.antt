-- ===== src/Config/Load.antt =====
-- internal/config/config.go: `Config` and `Load`.
use semblance.Config.Parse.{
  Library, Level, Result, ok, out_of_range, ◌>>=◌, ◌>>◌, refuse, or_malformed, getenv, parse_float,
  parse_positive_int, parse_keys, validate_http_url, parse_log_level,
}
use semblance.Double.{Double}
use semblance.Policy.Logistic.{nought, one}
use semblance.Prelude.{ℤ, ℕ, ◌||◌, List}
use semblance.Text.{Text, codes}

pub record Config (F : Type 0) : Type 0 where
  pub listen_addr : Text
  pub log_level : Level
  pub shutdown_timeout : ℤ
  pub backend_base_url : Text
  pub backend_timeout : ℤ
  pub api_keys : List Text
  pub delta : F
  pub n_min : ℕ
  pub temperature_ceiling : F
  pub cache_capacity : ℕ
  pub max_observations : ℕ
  pub cache_shards : ℕ
  pub judge_queue_size : ℕ
  pub judge_workers : ℕ
  pub openai_api_key : Text
  pub embed_base_url : Text
  pub embed_model : Text
  pub embed_dimensions : ℕ
  pub price_table_path : Text
  pub budget_cents : F

module _ {F : Type 0} ⦃d : Double F⦄ (lib : Library F) where
  open d use {le, lt}

  -- `strings.TrimRight(getenv(key, fallback), "/")`.
  abbrev pub base_url : Text → Text → Text
  base_url key fallback = lib.trim_right (getenv lib key fallback) (codes "/")

  unfoldable pub load_config : Result (Config F)
  load_config = do
    log_level ← parse_log_level lib (getenv lib (codes "SEMBLANCE_LOG_LEVEL") (codes "info"))
    shutdown_timeout ←
        or_malformed (codes "SEMBLANCE_SHUTDOWN_TIMEOUT")
          (lib.parse_duration (getenv lib (codes "SEMBLANCE_SHUTDOWN_TIMEOUT") (codes "15s")))
    let backend = base_url (codes "SEMBLANCE_BACKEND_URL") (codes "http://localhost:11434/v1")
    validate_http_url lib (codes "SEMBLANCE_BACKEND_URL") backend
    backend_timeout ←
        or_malformed (codes "SEMBLANCE_BACKEND_TIMEOUT")
          (lib.parse_duration (getenv lib (codes "SEMBLANCE_BACKEND_TIMEOUT") (codes "120s")))
    delta ← parse_float lib (codes "SEMBLANCE_DELTA") (codes "0.02")
    refuse (le delta nought || le one delta) (out_of_range (codes "SEMBLANCE_DELTA"))
    n_min ← parse_positive_int lib (codes "SEMBLANCE_NMIN") (codes "5")
    temperature_ceiling ← parse_float lib (codes "SEMBLANCE_TEMPERATURE_CEILING") (codes "0.3")
    refuse (lt temperature_ceiling nought) (out_of_range (codes "SEMBLANCE_TEMPERATURE_CEILING"))
    cache_capacity ← parse_positive_int lib (codes "SEMBLANCE_CACHE_CAPACITY") (codes "10000")
    max_observations ← parse_positive_int lib (codes "SEMBLANCE_MAX_OBSERVATIONS") (codes "200")
    cache_shards ← parse_positive_int lib (codes "SEMBLANCE_CACHE_SHARDS") (codes "16")
    judge_queue_size ← parse_positive_int lib (codes "SEMBLANCE_JUDGE_QUEUE") (codes "1000")
    judge_workers ← parse_positive_int lib (codes "SEMBLANCE_JUDGE_WORKERS") (codes "4")
    embed_dimensions ← parse_positive_int lib (codes "SEMBLANCE_EMBED_DIMENSIONS") (codes "1536")
    budget_cents ← parse_float lib (codes "SEMBLANCE_BUDGET_CENTS") (codes "0")
    refuse (lt budget_cents nought) (out_of_range (codes "SEMBLANCE_BUDGET_CENTS"))
    ok (record {
      listen_addr = getenv lib (codes "SEMBLANCE_LISTEN_ADDR") (codes ":8080");
      log_level = log_level;
      shutdown_timeout = shutdown_timeout;
      backend_base_url = backend;
      backend_timeout = backend_timeout;
      api_keys = parse_keys lib (getenv lib (codes "SEMBLANCE_API_KEYS") (codes ""));
      delta = delta;
      n_min = n_min;
      temperature_ceiling = temperature_ceiling;
      cache_capacity = cache_capacity;
      max_observations = max_observations;
      cache_shards = cache_shards;
      judge_queue_size = judge_queue_size;
      judge_workers = judge_workers;
      openai_api_key = lib.getenv (codes "OPENAI_API_KEY");
      embed_base_url = base_url (codes "SEMBLANCE_EMBED_URL") (codes "https://api.openai.com/v1");
      embed_model = getenv lib (codes "SEMBLANCE_EMBED_MODEL") (codes "text-embedding-3-small");
      embed_dimensions = embed_dimensions;
      price_table_path = getenv lib (codes "SEMBLANCE_PRICE_TABLE") (codes "config/prices.json");
      budget_cents = budget_cents;
    })
