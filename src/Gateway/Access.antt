-- ===== src/Gateway/Access.antt =====
-- internal/gateway/middleware.go: authentication and the budget check in front of a handler.
-- `strings.EqualFold` and `strings.TrimSpace` are arguments.
use semblance.Budget.{Tracker, enabled, over_budget}
use semblance.Double.{Double}
use semblance.Prelude.{
  Bool, true, false, not, ◌||◌, List, [], ◌∷◌, foldl, Option, none, some, if◌then◌else◌, leb, ◌==◌,
  length, take, drop,
}
use semblance.Text.{Text, text_eq, codes}

abbrev pub anonymous_key : Text
anonymous_key = codes "anonymous"

abbrev prefix : Text
prefix = codes "Bearer "

unfoldable pub bearer_token : (Text → Text → Bool) → (Text → Text) → Text → Option Text
bearer_token equal_fold trim header =
    let token = trim (drop (length prefix) header) in
    if leb (length header) (length prefix) || not (equal_fold (take (length prefix) header) prefix)
    then none
    else if length token == 0
    then none
    else some token

-- `subtle.ConstantTimeCompare` is equality; every key is compared.
unfoldable pub key_allowed : List Text → Text → Bool
key_allowed keys presented =
    foldl (λ found k. if text_eq k presented then true else found) false keys

-- The key that `authMiddleware` leaves on the context; `none` is a 401.
unfoldable pub authenticate : (Text → Text → Bool) → (Text → Text) → List Text → Text → Option Text
authenticate equal_fold trim [] header = some anonymous_key
authenticate equal_fold trim (k ∷ keys) header = elim (bearer_token equal_fold trim header) [
  | none ↦ none
  | some token ↦ if key_allowed (k ∷ keys) token then some token else none
]

module _ {F : Type 0} ⦃d : Double F⦄ where
  -- `budgetMiddleware` lets the request through.
  unfoldable pub within_budget : Tracker F → Text → Bool
  within_budget t key = if enabled t then not (over_budget t key) else true

-- What the client gets: 401, 429, or the handler's answer for a key.
pub data Admission : Type 0 where
  unauthorized : Admission
  insufficient_quota : Admission
  served : Text → Admission

module _ {F : Type 0} ⦃d : Double F⦄ where
  unfoldable pub admit :
      (Text → Text → Bool) → (Text → Text) → List Text → Tracker F → Text → Admission
  unfolding authenticate within_budget
  admit equal_fold trim keys t header = elim (authenticate equal_fold trim keys header) [
    | none ↦ unauthorized
    | some key ↦ if within_budget t key then served key else insufficient_quota
  ]
