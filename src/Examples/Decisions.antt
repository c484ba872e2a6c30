-- ===== src/Examples/Decisions.antt =====
-- Decisions of internal/policy/decide.go on some observations.
use semblance.Examples.Fixed.{Fixed, num, fixed, fixed-IsOrdered}
use semblance.Policy.Decide.{Policy, Decision, grid_tau, tau_hat, decide}
use semblance.Policy.Logistic.{
  Observation, Model, FitState, fit_start, fit, finish, fit_loop, gradient, add_observation,
  sigmoid, is_finite, nought, one,
}
use semblance.Policy.Newton.{Ended, fit-Ended}
use semblance.Policy.Rule.{decide_forced, decide_exploit}
use semblance.Policy.Tau.{tau_hat_bounds, tau_hat_lt}
use semblance.Prelude.{ℕ, ◌+◌, ◌<◌, ◌≤◌, ◌≡◌, ◌↔◌, ◌⊎◌, refl, true, false, List, [], ◌∷◌, length}

-- A source that always draws 0.5.
abbrev pub half : ℕ → Fixed × ℕ
half n = (num 1000000500, n + 1)

abbrev pub policy : Policy Fixed ℕ
policy = record {
  delta = num 1000000100;
  n_min = 2;
  lambda = num 1000000010;
  grid_size = 5;
  rand = 0;
}

abbrev pub observations : List (Observation Fixed)
observations =
    record { s = num 1000000900; c = true }
    ∷ record { s = num 1000000950; c = true }
    ∷ record { s = num 1000000300; c = false }
    ∷ []

abbrev similar : Fixed
similar = num 1000000980

abbrev model : Model Fixed
model = fit observations policy.lambda

abbrev decision : Decision Fixed × Policy Fixed ℕ
decision = decide half policy observations similar

decide_exploit_example : (decision.0.explore ≡ false) ↔ (
    (policy.n_min ≤ length observations)
    × (model.usable ≡ true)
    × (fixed.lt nought (half policy.rand).0 ≡ true)
    × ((k : ℕ) × (k < policy.grid_size)
        × (fixed.lt (grid_tau policy.delta policy.grid_size model similar k) (half policy.rand).0
            ≡ true)))
decide_exploit_example =
    decide_exploit fixed-IsOrdered half policy observations similar refl refl refl

decide_forced_example :
    let (r, p') = decision in
    ((r.forced ≡ true)
      × ((length observations < policy.n_min) ⊎ (model.usable ≡ false))
      × (r.explore ≡ true)
      × (r.tau ≡ one)
      × (p' ≡ policy))
    ⊎ ((r.forced ≡ false)
        × (policy.n_min ≤ length observations)
        × (model.usable ≡ true)
        × (r.model ≡ model)
        × (p' ≡ record policy { rand = (half policy.rand).1 }))
decide_forced_example = decide_forced fixed-IsOrdered half policy observations similar

tau_hat_bounds_test :
    (fixed.le nought (tau_hat policy model similar) ≡ true)
    × (fixed.le (tau_hat policy model similar) one ≡ true)
tau_hat_bounds_test = tau_hat_bounds fixed-IsOrdered policy model similar

tau_hat_lt_example : (fixed.lt (tau_hat policy model similar) (num 1000000500) ≡ true) ↔ (
    (fixed.lt nought (num 1000000500) ≡ true)
    × ((k : ℕ) × (k < policy.grid_size)
        × (fixed.lt (grid_tau policy.delta policy.grid_size model similar k) (num 1000000500)
            ≡ true)))
tau_hat_lt_example = tau_hat_lt fixed-IsOrdered policy model similar (num 1000000500) refl refl refl

model-usable : model.usable ≡ true
unfolding fit finish fit_loop gradient add_observation sigmoid is_finite
model-usable = refl

fit-Ended_example :
    (st : FitState Fixed) × Ended observations policy.lambda 50 fit_start st
    × (fit observations policy.lambda ≡ finish 3 st)
fit-Ended_example =
    fit-Ended (record { s = num 1000000900; c = true })
      (record { s = num 1000000950; c = true } ∷ record { s = num 1000000300; c = false } ∷ [])
      policy.lambda
