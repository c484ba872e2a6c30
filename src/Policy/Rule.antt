-- ===== src/Policy/Rule.antt =====
-- When the decision rule of internal/policy/decide.go serves from the cache.
use semblance.Double.{Double, IsOrdered}
use semblance.Policy.Decide.{Policy, grid_tau, tau_hat, decide}
use semblance.Policy.Logistic.{Observation, Model, nought, one, fit}
use semblance.Policy.Tau.{lt_asymm, tau_hat_bounds, tau_hat_num, tau_hat_lt}
use semblance.Prelude.{ℕ, ◌<◌, ◌≤◌, ◌≡◌, ◌↔◌, ◌⊎◌, true, false, not, List, length, arith}

module _ {F : Type 0} ⦃d : Double F⦄ (laws : IsOrdered F) where
  open d use {lt, le}
  open laws use {le-eq-not-lt, of_ℕ_num, zero_lt_one, lt_irrefl}

  one_bounds : (le nought one ≡ true) × (le one one ≡ true)
  one_bounds = ground (
    arith,
    le-eq-not-lt nought one (of_ℕ_num 0) (of_ℕ_num 1),
    le-eq-not-lt one one (of_ℕ_num 1) (of_ℕ_num 1),
    lt_irrefl one,
    lt_asymm laws nought one zero_lt_one,
  )

module _ {F R : Type 0} ⦃d : Double F⦄ (laws : IsOrdered F) where
  open d use {lt, le, is_nan}
  open laws use {le-eq-not-lt, of_ℕ_num, zero_lt_one, lt_irrefl}

  module _ (float64 : R → F × R) (p : Policy F R) (obs : List (Observation F)) (s : F) where
    -- Whatever the observations are, the reported exploration probability lies in [0, 1].
    pub decide_tau_bounds :
        let tau = (decide float64 p obs s).0.tau in (le nought tau ≡ true) × (le tau one ≡ true)
    unfolding decide
    decide_tau_bounds = ground (arith, tau_hat_bounds laws p (fit obs p.lambda) s, one_bounds laws)

    -- Either there are fewer observations than the floor or the fit is not usable: then the decision
    -- is forced, explores with probability 1 and draws nothing, so the policy is unchanged. Or there
    -- are enough and the fit is usable: then it is not forced, reports the fitted model, advances the
    -- source by one draw and changes nothing else of the policy.
    pub decide_forced :
        let (r, p') = decide float64 p obs s in
        let m = fit obs p.lambda in
        ((r.forced ≡ true)
          × ((length obs < p.n_min) ⊎ (m.usable ≡ false))
          × (r.explore ≡ true)
          × (r.tau ≡ one)
          × (p' ≡ p))
        ⊎ ((r.forced ≡ false)
            × (p.n_min ≤ length obs)
            × (m.usable ≡ true)
            × (r.model ≡ m)
            × (p' ≡ record p { rand = (float64 p.rand).1 }))
    unfolding decide
    decide_forced = ground (arith, tau_hat_num laws p (fit obs p.lambda) s)

    -- With a draw 0 <= u < 1 the rule serves from the cache exactly when there are enough
    -- observations, the fit is usable, u is positive, and at some confidence level of the grid the
    -- pessimistic exploration probability is below u.
    pub decide_exploit :
        let u = (float64 p.rand).0 in
        let m = fit obs p.lambda in
        is_nan u ≡ false
        → lt u nought ≡ false
        → lt u one ≡ true
        → ((decide float64 p obs s).0.explore ≡ false) ↔ (
            (p.n_min ≤ length obs)
            × (m.usable ≡ true)
            × (lt nought u ≡ true)
            × ((k : ℕ) × (k < p.grid_size) × (lt (grid_tau p.delta p.grid_size m s k) u ≡ true)))
    unfolding decide
    decide_exploit num low high = (
      λ h.
          let (enough, usable, below) : (p.n_min ≤ length obs)
              × ((fit obs p.lambda).usable ≡ true)
              × (lt tau u ≡ true) =
            ground (arith, tau_hat_num laws p m s, le_lt) in
          let (pos, hit) = (tau_hat_lt laws p m s u num low high).0 below in
          (enough, usable, pos, hit),
      λ (enough, usable, pos, hit).
          let below : lt tau u ≡ true = (tau_hat_lt laws p m s u num low high).1 (pos, hit) in
          ground (arith, tau_hat_num laws p m s, le_lt),
    )
      where
        u : F
        u = (float64 p.rand).0

        m : Model F
        m = fit obs p.lambda

        tau : F
        tau = tau_hat p m s

        le_lt : le u tau ≡ not (lt tau u)
        le_lt = le-eq-not-lt u tau num (tau_hat_num laws p m s)
