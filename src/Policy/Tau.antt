-- ===== src/Policy/Tau.antt =====
-- The exploration probability of internal/policy/decide.go, as a clamped minimum over the grid.
use semblance.Double.{Double, IsOrdered}
use semblance.Policy.Decide.{Policy, clamp, grid_tau, grid_min, tau_hat}
use semblance.Policy.Logistic.{Model, nought, one}
use semblance.Prelude.{
  ℕ, zero, suc, ◌+◌, ◌≤◌, ◌<◌, ◌≡◌, ◌↔◌, ◌⊎◌, inl, inr, true, false, if◌then◌else◌, arith,
  Bool-cases, le_cases,
}

module _ {F : Type 0} ⦃d : Double F⦄ (laws : IsOrdered F) where
  open d use {lt, le, is_nan, inf}
  open laws use {
    lt_num, lt_irrefl, lt_trans, lt_cotrans, le-eq-not-lt, of_ℕ_num, zero_lt_one, inf_num,
  }

  -- `a < b` is false both ways round.
  pub lt_asymm : (a b : F) → lt a b ≡ true → lt b a ≡ false
  lt_asymm a b h = ground (arith, lt_trans a b a h, lt_irrefl a)

  pub clamp_bounds :
      (x : F)
      → is_nan x ≡ false
      → (le nought (clamp x nought one) ≡ true) × (le (clamp x nought one) one ≡ true)
  unfolding clamp
  clamp_bounds x num = ground (
    arith,
    le-eq-not-lt nought nought (of_ℕ_num 0) (of_ℕ_num 0),
    le-eq-not-lt nought one (of_ℕ_num 0) (of_ℕ_num 1),
    le-eq-not-lt one one (of_ℕ_num 1) (of_ℕ_num 1),
    le-eq-not-lt nought x (of_ℕ_num 0) num,
    le-eq-not-lt x one num (of_ℕ_num 1),
    lt_irrefl nought,
    lt_irrefl one,
    lt_asymm nought one zero_lt_one,
  )

  min_lt :
      (a best x : F)
      → is_nan best ≡ false
      → lt a x ≡ true
      → lt (if lt a best then a else best) x ≡ true
  min_lt a best x num h = ground (arith, lt_cotrans a best x num h)

  module _ (tau_at : ℕ → F) where
    -- The minimum is a number: a grid value that is NaN is passed over.
    grid_min_num :
        (left k : ℕ) (best : F) → is_nan best ≡ false → is_nan (grid_min tau_at left k best) ≡ false
    unfolding grid_min
    grid_min_num zero k best num = num
    grid_min_num (suc left) k best num =
        grid_min_num left (k + 1) _ (ground (arith, lt_num (tau_at k) best))

    -- Nothing is below the minimum that was not below the start.
    grid_min-le_start :
        (left k : ℕ) (best x : F) → lt best x ≡ true → lt (grid_min tau_at left k best) x ≡ true
    unfolding grid_min
    grid_min-le_start zero k best x h = h
    grid_min-le_start (suc left) k best x h =
        grid_min-le_start left (k + 1) _ x (ground (arith, lt_trans (tau_at k) best x))

    -- A bound above some grid value is above the minimum.
    grid_min_lt :
        (left k : ℕ) (best x : F) (j : ℕ)
        → is_nan best ≡ false
        → k ≤ j
        → j < k + left
        → lt (tau_at j) x ≡ true
        → lt (grid_min tau_at left k best) x ≡ true
    unfolding grid_min
    grid_min_lt zero k best x j num lo hi h = absurd (omega arith)
    grid_min_lt (suc left) k best x j num lo hi h = elim (le_cases k j lo) [
      | inl here ↦
          grid_min-le_start left (k + 1) _ x (min_lt (tau_at k) best x num (rw (← here) at h))
      | inr later ↦
          grid_min_lt left (k + 1) _ x j (ground (arith, lt_num (tau_at k) best)) later
            (omega arith) h
    ]

    -- A bound above the minimum is above the start or some grid value.
    grid_min_attained :
        (left k : ℕ) (best x : F)
        → lt (grid_min tau_at left k best) x ≡ true
        → (lt best x ≡ true) ⊎ ((j : ℕ) × (j < k + left) × (lt (tau_at j) x ≡ true))
    unfolding grid_min
    grid_min_attained zero k best x h = inl h
    grid_min_attained (suc left) k best x h = elim (Bool-cases (lt (tau_at k) best)) [
      | inl smaller ↦
          (elim (grid_min_attained left (k + 1) (tau_at k) x (rw (smaller, grid_min) at h)) [
            | inl here ↦ inr (k, omega arith, here)
            | inr (j, below, hit) ↦ inr (j, omega arith, hit)
          ])
      | inr not_smaller ↦
          (elim (grid_min_attained left (k + 1) best x (rw (not_smaller, grid_min) at h)) [
            | inl here ↦ inl here
            | inr (j, below, hit) ↦ inr (j, omega arith, hit)
          ])
    ]

module _ {F R : Type 0} ⦃d : Double F⦄ (laws : IsOrdered F) where
  open d use {lt, le, is_nan, inf}
  open laws use {lt_num, lt_trans, lt_cotrans, le_num, of_ℕ_num, zero_lt_one, inf_num, not-inf_lt}

  module _ (p : Policy F R) (m : Model F) (s : F) where
    abbrev pub least : F
    least = grid_min (grid_tau p.delta p.grid_size m s) p.grid_size 0 inf

    least_num : is_nan least ≡ false
    least_num = grid_min_num laws _ p.grid_size 0 inf inf_num

    -- The exploration probability lies between 0 and 1 whatever the model is, NaN fields included.
    pub tau_hat_bounds : (le nought (tau_hat p m s) ≡ true) × (le (tau_hat p m s) one ≡ true)
    unfolding tau_hat
    tau_hat_bounds = clamp_bounds laws least least_num

    -- The exploration probability is never NaN: grid points where it is NaN are passed over.
    pub tau_hat_num : is_nan (tau_hat p m s) ≡ false
    tau_hat_num = (le_num _ _ tau_hat_bounds.0).1

    clamp_lt :
        (x u : F)
        → is_nan u ≡ false
        → lt u nought ≡ false
        → lt u one ≡ true
        → (lt (clamp x nought one) u ≡ true) ↔ ((lt nought u ≡ true) × (lt x u ≡ true))
    unfolding clamp
    clamp_lt x u num low high = (
      λ h. ground (
        arith,
        lt_cotrans x nought u (of_ℕ_num 0),
        lt_trans x nought u,
        lt_asymm laws u one high,
      ),
      λ h. ground (arith, lt_trans one x u, lt_asymm laws u one high),
    )

    -- For 0 <= u < 1 the exploration probability is below u exactly when u is positive and some
    -- grid point's probability is below u.
    pub tau_hat_lt :
        (u : F)
        → is_nan u ≡ false
        → lt u nought ≡ false
        → lt u one ≡ true
        → (lt (tau_hat p m s) u ≡ true) ↔ (
            (lt nought u ≡ true)
            × ((k : ℕ) × (k < p.grid_size) × (lt (grid_tau p.delta p.grid_size m s k) u ≡ true)))
    unfolding tau_hat
    tau_hat_lt u num low high = (
      λ h.
          let (pos, below) = (clamp_lt least u num low high).0 h in
          (pos, hit (grid_min_attained laws _ p.grid_size 0 inf u below)),
      λ h. (clamp_lt least u num low high).1 (
        h.0,
        grid_min_lt laws _ p.grid_size 0 inf u h.1.0 inf_num (omega arith) (omega arith) h.1.2,
      ),
    )
      where
        hit :
            (lt inf u ≡ true)
              ⊎ ((j : ℕ) × (j < 0 + p.grid_size)
                  × (lt (grid_tau p.delta p.grid_size m s j) u ≡ true))
            → (k : ℕ) × (k < p.grid_size) × (lt (grid_tau p.delta p.grid_size m s k) u ≡ true)
        hit (inl bad) = absurd (ground (arith, not-inf_lt u))
        hit (inr (j, below, h)) = (j, omega arith, h)
