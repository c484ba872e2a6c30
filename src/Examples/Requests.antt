-- ===== src/Examples/Requests.antt =====
-- Requests to the gateway of internal/gateway.
use semblance.Budget.{Tracker, new, charge, enabled, over_budget, spent_by}
use semblance.Examples.Fixed.{Fixed, num, fixed}
use semblance.Gateway.Access.{
  served, unauthorized, insufficient_quota, admit, authenticate, bearer_token, key_allowed,
  within_budget,
}
use semblance.Gateway.Admitted.{IsKnown, admit-served}
use semblance.Prelude.{◌≡◌, ◌↔◌, refl, false, List, [], ◌∷◌}
use semblance.Text.{Text, text_eq, codes}

abbrev keys : List Text
keys = codes "k1" ∷ codes "k2" ∷ []

abbrev header : Text
header = codes "Bearer k2"

abbrev trim : Text → Text
trim s = s

abbrev tracker : Tracker Fixed
tracker = new (num 1000005000)

admit-served_example :
    (admit text_eq trim keys tracker header ≡ served (codes "k2"))
    ↔ ((over_budget tracker (codes "k2") ≡ false) × IsKnown text_eq trim keys header (codes "k2"))
admit-served_example = admit-served text_eq trim keys tracker header (codes "k2")

served_test : admit text_eq trim keys tracker header ≡ served (codes "k2")
unfolding admit authenticate bearer_token key_allowed within_budget enabled over_budget spent_by
served_test = refl

unauthorized_test : admit text_eq trim keys tracker (codes "Bearer k3") ≡ unauthorized
unfolding admit authenticate bearer_token key_allowed
unauthorized_test = refl

quota_test :
    admit text_eq trim keys (charge tracker (codes "k2") (num 1000005000)) header
    ≡ insufficient_quota
unfolding admit authenticate bearer_token key_allowed within_budget enabled over_budget spent_by
    charge
quota_test = refl
