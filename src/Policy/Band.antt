-- ===== src/Policy/Band.antt =====
-- internal/policy/band.go: the standard error of the threshold, and the normal quantile.
use semblance.Double.{Double}
use semblance.Policy.Logistic.{Model, nought, one}
use semblance.Prelude.{List, [], ◌∷◌, foldl, if◌then◌else◌}

module _ {F : Type 0} ⦃d : Double F⦄ where
  open d use {add, sub, mul, div, neg, sqrt, log, lt, le, feq, inf, neg_inf, of_ℕ, lit}

  unfoldable pub se_t : Model F → F
  se_t m =
      let dtdw = div m.b (mul m.w m.w) in
      let dtdb = div (neg one) m.w in
      let var_t =
        add (add (mul (mul dtdw dtdw) m.cov_ww) (mul (mul (mul (of_ℕ 2) dtdw) dtdb) m.cov_wb))
          (mul (mul dtdb dtdb) m.cov_bb) in
      if feq m.w nought then inf else sqrt (if lt var_t nought then nought else var_t)

  -- (((c0 * x + c1) * x + …) * x + cn)
  abbrev pub horner : F → F → List F → F
  horner x c cs = foldl (λ acc k. add (mul acc x) k) c cs

  -- The tails: the rational function of q = sqrt (-2 ln p).
  abbrev tail_numerator : F → F
  tail_numerator q = horner q (neg (lit 7784894002430293 18)) (
      neg (lit 3223964580411365 16)
      ∷ neg (lit 2400758277161838 15)
      ∷ neg (lit 2549732539343734 15)
      ∷ lit 4374664141464968 15
      ∷ lit 2938163982698783 15
      ∷ [])

  abbrev tail_denominator : F → F
  tail_denominator q =
      horner q (lit 7784695709041462 18)
        (lit 3224671290700398 16 ∷ lit 2445134137142996 15 ∷ lit 3754408661907416 15 ∷ one ∷ [])

  abbrev central_numerator : F → F
  central_numerator r = horner r (neg (lit 3969683028665376 14)) (
      lit 2209460984245205 13
      ∷ neg (lit 2759285104469687 13)
      ∷ lit 1383577518672690 13
      ∷ neg (lit 3066479806614716 14)
      ∷ lit 2506628277459239 15
      ∷ [])

  abbrev central_denominator : F → F
  central_denominator r = horner r (neg (lit 5447609879822406 14)) (
      lit 1615858368580409 13
      ∷ neg (lit 1556989798598866 13)
      ∷ lit 6680131188771972 14
      ∷ neg (lit 1328068155288572 14)
      ∷ one
      ∷ [])

  -- `-2 * math.Log(p)` under the root.
  abbrev tail_q : F → F
  tail_q p = sqrt (mul (neg (of_ℕ 2)) (log p))

  unfoldable pub normal_quantile : F → F
  normal_quantile p =
      if le p nought
      then neg_inf
      else if le one p
      then inf
      else if lt p (lit 2425 5)
      then (let q = tail_q p in div (tail_numerator q) (tail_denominator q))
      else if le p (lit 97575 5)
      then (let q = sub p (lit 5 1) in
          let r = mul q q in div (mul (central_numerator r) q) (central_denominator r))
      else (let q = tail_q (sub one p) in div (neg (tail_numerator q)) (tail_denominator q))
