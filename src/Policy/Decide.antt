-- ===== src/Policy/Decide.antt =====
-- internal/policy/decide.go: the decision rule. The randomness source is its state `R` and the
-- function `float64` that draws; a decision returns the policy with the source advanced.
use semblance.Double.{Double}
use semblance.Policy.Band.{se_t, normal_quantile}
use semblance.Policy.Logistic.{Observation, Model, nought, one, l, unfitted, fit}
use semblance.Prelude.{ℕ, zero, suc, ◌+◌, Bool, true, false, List, if◌then◌else◌, length, ltb}

pub record Policy (F R : Type 0) : Type 0 where
  pub delta : F
  pub n_min : ℕ
  pub lambda : F
  pub grid_size : ℕ
  pub rand : R

pub record Decision (F : Type 0) : Type 0 where
  pub explore : Bool
  pub tau : F
  pub s : F
  pub model : Model F
  pub forced : Bool

module _ {F R : Type 0} ⦃d : Double F⦄ where
  open d use {lit}

  unfoldable pub new_policy : F → R → Policy F R
  new_policy delta r = record {
    delta = delta;
    n_min = 5;
    lambda = lit 1 2;
    grid_size = 50;
    rand = r;
  }

module _ {F : Type 0} ⦃d : Double F⦄ where
  open d use {add, sub, mul, div, lt, inf, of_ℕ, lit}

  unfoldable pub clamp : F → F → F → F
  clamp x lo hi = if lt x lo then lo else if lt hi x then hi else x

  -- The exploration probability at the grid point k: the body of the loop.
  unfoldable pub grid_tau : F → ℕ → Model F → F → ℕ → F
  unfolding l se_t normal_quantile
  grid_tau delta grid_size m s k =
      let eps = div (add (of_ℕ k) (lit 5 1)) (of_ℕ grid_size) in
      let z = normal_quantile (sub one eps) in
      let t' = add m.t (mul z (se_t m)) in
      let alpha = mul (sub one eps) (l s t' m.gamma) in sub one (div delta (sub one alpha))

  -- `left` rounds of the loop, from the counter `k`, over the grid's values.
  unfoldable pub grid_min : (ℕ → F) → ℕ → ℕ → F → F
  grid_min tau_at zero k best = best
  grid_min tau_at (suc left) k best =
      let tau = tau_at k in grid_min tau_at left (k + 1) (if lt tau best then tau else best)

module _ {F R : Type 0} ⦃d : Double F⦄ where
  open d use {inf}

  unfoldable pub tau_hat : Policy F R → Model F → F → F
  unfolding clamp grid_min grid_tau
  tau_hat p m s = clamp (grid_min (grid_tau p.delta p.grid_size m s) p.grid_size 0 inf) nought one

module _ {F R : Type 0} ⦃d : Double F⦄ (float64 : R → F × R) where
  open d use {le, is_nan, of_ℕ}

  abbrev forced_explore : F → Model F → Decision F
  forced_explore s m = record { explore = true; tau = one; s = s; model = m; forced = true }

  -- The zero model of a decision that was forced before any fit.
  abbrev no_model : Model F
  no_model = unfitted 0

  unfoldable pub decide : Policy F R → List (Observation F) → F → Decision F × Policy F R
  decide p obs s =
      let m = fit obs p.lambda in
      let tau = tau_hat p m s in
      let (u, rand) = float64 p.rand in
      if ltb (length obs) p.n_min
      then (forced_explore s no_model, p)
      else if m.usable
      then (if is_nan tau then (forced_explore s m, p) else (
        record { explore = le u tau; tau = tau; s = s; model = m; forced = false },
        record p { rand = rand },
      ))
      else (forced_explore s m, p)
