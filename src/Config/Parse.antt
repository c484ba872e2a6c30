-- ===== src/Config/Parse.antt =====
-- internal/config/config.go: the helpers of `Load`. What they call of the standard library is a
-- record of functions; the messages of errors are left out, the variables that they name are not.
use semblance.Prelude.{
  ℤ, pos, negsuc, ℕ, zero, suc, Bool, true, false, not, ◌||◌, ◌&&◌, List, [], ◌∷◌, Option, none,
  some, if◌then◌else◌, ◌==◌, length,
}
use semblance.Text.{Text, text_eq, codes}

-- `getenv` is `os.Getenv`: a variable that is not set reads as the empty text. A duration is in
-- nanoseconds, and a URL is its scheme and its host.
pub record Library (F : Type 0) : Type 0 where
  pub getenv : Text → Text
  pub parse_float : Text → Option F
  pub atoi : Text → Option ℤ
  pub parse_duration : Text → Option ℤ
  pub parse_url : Text → Option (Text × Text)
  pub trim_space : Text → Text
  pub trim_right : Text → Text → Text
  pub to_lower : Text → Text
  pub split : Text → Text → List Text

pub data Level : Type 0 where
  debug info warn error : Level

-- What is wrong, and with which variable.
pub data ConfigError : Type 0 where
  unknown_level : ConfigError
  malformed : Text → ConfigError
  out_of_range : Text → ConfigError
  bad_scheme : Text → ConfigError
  no_host : Text → ConfigError

pub data Result {ℓ} (A : Type ℓ) : Type ℓ where
  ok : A → Result A
  err : ConfigError → Result A

infixl 1 ◌>>=◌
infixl 1 ◌>>◌
abbrev pub ◌>>=◌ {ℓ κ} : {A : Type ℓ} {B : Type κ} → Result A → (A → Result B) → Result B
ok a >>= f = f a
err e >>= f = err e

abbrev pub ◌>>◌ {ℓ κ} : {A : Type ℓ} {B : Type κ} → Result A → Result B → Result B
r >> r' = r >>= λ _. r'

-- An error if the test holds.
abbrev pub refuse : Bool → ConfigError → Result (Unit {0})
refuse true e = err e
refuse false e = ok tt

abbrev pub or_malformed {ℓ} : {A : Type ℓ} → Text → Option A → Result A
or_malformed key none = err (malformed key)
or_malformed key (some a) = ok a

abbrev pub is_empty : Text → Bool
is_empty s = length s == 0

module _ {F : Type 0} (lib : Library F) where
  unfoldable pub getenv : Text → Text → Text
  getenv key fallback = let v = lib.getenv key in if is_empty v then fallback else v

  unfoldable pub parse_float : Text → Text → Result F
  parse_float key fallback = or_malformed key (lib.parse_float (getenv key fallback))

  abbrev pub positive : Text → ℤ → Result ℕ
  positive key (pos zero) = err (out_of_range key)
  positive key (pos (suc n)) = ok (suc n)
  positive key (negsuc n) = err (out_of_range key)

  unfoldable pub parse_positive_int : Text → Text → Result ℕ
  parse_positive_int key fallback = do
    v ← or_malformed key (lib.atoi (getenv key fallback))
    positive key v

  unfoldable pub keep_keys : List Text → List Text
  keep_keys [] = []
  keep_keys (k ∷ ks) =
      let k' = lib.trim_space k in
      let rest = keep_keys ks in if is_empty k' then rest else k' ∷ rest

  unfoldable pub parse_keys : Text → List Text
  unfolding keep_keys
  parse_keys raw = keep_keys (lib.split raw (codes ","))

  unfoldable pub validate_http_url : Text → Text → Result (Unit {0})
  validate_http_url key raw = do
    (scheme, host) ← or_malformed key (lib.parse_url raw)
    refuse (not (text_eq scheme (codes "http")) && not (text_eq scheme (codes "https")))
        (bad_scheme key)
    refuse (is_empty host) (no_host key)

  unfoldable pub parse_log_level : Text → Result Level
  parse_log_level s =
      let t = lib.to_lower (lib.trim_space s) in
      if text_eq t (codes "debug")
      then ok debug
      else if text_eq t (codes "info")
      then ok info
      else if text_eq t (codes "warn") || text_eq t (codes "warning")
      then ok warn
      else if text_eq t (codes "error")
      then ok error
      else err unknown_level
