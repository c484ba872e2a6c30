-- ===== src/Examples/Settings.antt =====
-- Configurations of internal/config/config.go.
use semblance.Config.Checked.{IsConfig, load_config-IsConfig}
use semblance.Config.Load.{Config, load_config}
use semblance.Config.Parse.{
  Library, Level, ok, err, getenv, parse_float, parse_positive_int, keep_keys, parse_keys,
  validate_http_url, parse_log_level,
}
use semblance.Examples.Fixed.{Fixed, nan, num, fixed}
use semblance.Prelude.{
  pos, ◌-◌, ◌*◌, ◌+◌, ◌≡◌, refl, Bool, true, false, [], ◌∷◌, foldl, some, if◌then◌else◌,
}
use semblance.Text.{Text, text_eq, codes}

-- An environment in which one variable is set, and parsers for the texts that occur.
abbrev library : Text → Text → Library Fixed
library key value = record {
  getenv = λ k. if text_eq k key then value else codes "";
  parse_float = λ s. some (
      if text_eq s (codes "NaN")
      then nan
      else if text_eq s (codes "0.02")
      then num 1000000020
      else if text_eq s (codes "0.3")
      then num 1000000300
      else num 1000000000);
  atoi = λ s. some (pos (foldl (λ n c. n * 10 + (c - 48)) 0 s));
  parse_duration = λ s. some (pos 15);
  parse_url = λ s. some (codes "http", codes "localhost:11434");
  trim_space = λ s. s;
  trim_right = λ s cut. s;
  to_lower = λ s. s;
  split = λ s sep. s ∷ [];
}

abbrev defaults : Library Fixed
defaults = library (codes "") (codes "")

abbrev pub config : Config Fixed
config = record {
  listen_addr = codes ":8080";
  log_level = Level.info;
  shutdown_timeout = pos 15;
  backend_base_url = codes "http://localhost:11434/v1";
  backend_timeout = pos 15;
  api_keys = [];
  delta = num 1000000020;
  n_min = 5;
  temperature_ceiling = num 1000000300;
  cache_capacity = 10000;
  max_observations = 200;
  cache_shards = 16;
  judge_queue_size = 1000;
  judge_workers = 4;
  openai_api_key = [];
  embed_base_url = codes "https://api.openai.com/v1";
  embed_model = codes "text-embedding-3-small";
  embed_dimensions = 1536;
  price_table_path = codes "config/prices.json";
  budget_cents = num 1000000000;
}

-- An empty environment gives the defaults.
defaults_load : load_config defaults ≡ ok config
unfolding load_config getenv parse_float parse_positive_int keep_keys parse_keys validate_http_url
    parse_log_level
defaults_load = refl

load_config-IsConfig_example : IsConfig defaults config
load_config-IsConfig_example = load_config-IsConfig defaults defaults_load

loads : Library Fixed → Bool
loads lib = elim (load_config lib) [ ok c ↦ true | err e ↦ false ]

-- A delta of NaN is accepted.
nan_test : loads (library (codes "SEMBLANCE_DELTA") (codes "NaN")) ≡ true
unfolding loads load_config getenv parse_float parse_positive_int keep_keys parse_keys
    validate_http_url parse_log_level
nan_test = refl

-- A capacity of 0 is not.
capacity_test : loads (library (codes "SEMBLANCE_CACHE_CAPACITY") (codes "0")) ≡ false
unfolding loads load_config getenv parse_float parse_positive_int keep_keys parse_keys
    validate_http_url parse_log_level
capacity_test = refl
