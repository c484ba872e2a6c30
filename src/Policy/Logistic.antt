-- ===== src/Policy/Logistic.antt =====
-- internal/policy/logistic.go: the logistic curve and its regularised fit.
use semblance.Double.{Double}
use semblance.Prelude.{
  ℕ, zero, suc, Bool, false, not, ◌&&◌, List, [], ◌∷◌, foldl, if◌then◌else◌, length,
}

pub record Observation (F : Type 0) : Type 0 where
  pub s : F
  pub c : Bool

-- `Cov` is the matrix ((cov_ww, cov_wb), (cov_bw, cov_bb)).
pub record Model (F : Type 0) : Type 0 where
  pub w : F
  pub b : F
  pub gamma : F
  pub t : F
  pub cov_ww : F
  pub cov_wb : F
  pub cov_bw : F
  pub cov_bb : F
  pub n : ℕ
  pub usable : Bool

-- The variables of the Newton loop: the parameters and the last Hessian.
pub record FitState (F : Type 0) : Type 0 where
  pub w : F
  pub b : F
  pub h00 : F
  pub h01 : F
  pub h11 : F

-- The gradient and the Hessian that one round accumulates.
pub record Sums (F : Type 0) : Type 0 where
  pub g0 : F
  pub g1 : F
  pub h00 : F
  pub h01 : F
  pub h11 : F

abbrev pub max_iter : ℕ
max_iter = 50

module _ {F : Type 0} ⦃d : Double F⦄ where
  open d use {add, sub, mul, div, neg, abs, exp, lt, le, feq, is_nan, is_inf, of_ℕ, lit}

  abbrev pub nought : F
  nought = of_ℕ 0

  abbrev pub one : F
  one = of_ℕ 1

  unfoldable pub sigmoid : F → F
  sigmoid x =
      if le nought x
      then div one (add one (exp (neg x)))
      else (let ex = exp x in div ex (add one ex))

  unfoldable pub l : F → F → F → F
  l s t gamma = sigmoid (mul gamma (sub s t))

  unfoldable pub is_finite : F → Bool
  is_finite x = not (is_nan x) && not (is_inf x)

  -- One observation's part of the gradient and the Hessian at (w, b).
  unfoldable pub add_observation : F → F → Sums F → Observation F → Sums F
  add_observation w b acc o =
      let y = if o.c then one else nought in
      let p = sigmoid (add (mul w o.s) b) in
      let r = sub y p in
      let wt = mul p (sub one p) in
      record {
        g0 = add acc.g0 (mul (neg r) o.s);
        g1 = add acc.g1 (neg r);
        h00 = add acc.h00 (mul (mul wt o.s) o.s);
        h01 = add acc.h01 (mul wt o.s);
        h11 = add acc.h11 wt;
      }

  abbrev pub no_sums : Sums F
  no_sums = record { g0 = nought; g1 = nought; h00 = nought; h01 = nought; h11 = nought }

  -- The sums over all observations, with the ridge terms.
  unfoldable pub gradient : List (Observation F) → F → F → F → Sums F
  unfolding add_observation
  gradient obs lambda w b =
      let acc = foldl (add_observation w b) no_sums obs in
      let bias_ridge = lit 1 6 in
      record acc {
        g0 = add acc.g0 (mul lambda w);
        g1 = add acc.g1 (mul bias_ridge b);
        h00 = add acc.h00 lambda;
        h11 = add acc.h11 bias_ridge;
      }

  -- The rounds that are left of the Newton loop.
  unfoldable pub fit_loop : ℕ → List (Observation F) → F → FitState F → FitState F
  unfolding gradient
  fit_loop zero obs lambda st = st
  fit_loop (suc n) obs lambda st =
      let g = gradient obs lambda st.w st.b in
      let det = sub (mul g.h00 g.h11) (mul g.h01 g.h01) in
      let s0 = div (sub (mul g.h11 g.g0) (mul g.h01 g.g1)) det in
      let s1 = div (add (mul (neg g.h01) g.g0) (mul g.h00 g.g1)) det in
      let stay : FitState F = record {
        w = st.w;
        b = st.b;
        h00 = g.h00;
        h01 = g.h01;
        h11 = g.h11;
      } in
      let moved : FitState F = record stay { w = sub st.w s0; b = sub st.b s1 } in
      let rest = fit_loop n obs lambda moved in
      if lt (abs det) (lit 1 18)
      then stay
      else (if lt (add (abs s0) (abs s1)) (lit 1 9) then moved else rest)

  abbrev pub unfitted : ℕ → Model F
  unfitted n = record {
    w = nought;
    b = nought;
    gamma = nought;
    t = nought;
    cov_ww = nought;
    cov_wb = nought;
    cov_bw = nought;
    cov_bb = nought;
    n = n;
    usable = false;
  }

  -- The model from the loop's last state: parameters, covariance, and whether it is usable.
  unfoldable pub finish : ℕ → FitState F → Model F
  unfolding is_finite
  finish n st =
      let det = sub (mul st.h00 st.h11) (mul st.h01 st.h01) in
      let invertible = lt nought det && lt (lit 1 18) (abs det) in
      let t = if feq st.w nought then nought else div (neg st.b) st.w in
      let cov_ww = if invertible then div st.h11 det else nought in
      let cov_wb = if invertible then div (neg st.h01) det else nought in
      let cov_bb = if invertible then div st.h00 det else nought in
      record {
        w = st.w;
        b = st.b;
        gamma = st.w;
        t = t;
        cov_ww = cov_ww;
        cov_wb = cov_wb;
        cov_bw = cov_wb;
        cov_bb = cov_bb;
        n = n;
        usable =
            lt (lit 1 6) st.w
            && (is_finite t
                && (is_finite st.w
                    && (is_finite cov_ww && (is_finite cov_bb && is_finite cov_wb))));
      }

  -- The parameters start at zero.
  abbrev pub fit_start : FitState F
  fit_start = record { w = nought; b = nought; h00 = nought; h01 = nought; h11 = nought }

  unfoldable pub fit : List (Observation F) → F → Model F
  unfolding fit_loop finish
  fit [] lambda = unfitted 0
  fit (o ∷ obs) lambda = finish (length (o ∷ obs)) (fit_loop max_iter (o ∷ obs) lambda fit_start)
