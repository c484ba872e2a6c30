-- ===== src/Policy/Newton.antt =====
-- When the Newton iteration of `Fit` (internal/policy/logistic.go) ends.
use semblance.Double.{Double}
use semblance.Policy.Logistic.{Observation, FitState, gradient, fit_loop, fit_start, finish, fit}
use semblance.Prelude.{
  ℕ, zero, suc, ◌<◌, ◌≡◌, ◌⊎◌, inl, inr, refl, Bool, true, false, List, ◌∷◌, length, arith,
  Bool-cases,
}

module _ {F : Type 0} ⦃d : Double F⦄ (obs : List (Observation F)) (lambda : F) where
  open d use {add, sub, mul, div, neg, abs, lt, lit}

  -- The Hessian at a point.
  abbrev pub with_hessian : FitState F → FitState F
  with_hessian st =
      let g = gradient obs lambda st.w st.b in
      record { w = st.w; b = st.b; h00 = g.h00; h01 = g.h01; h11 = g.h11 }

  abbrev pub det : FitState F → F
  det st = let g = gradient obs lambda st.w st.b in sub (mul g.h00 g.h11) (mul g.h01 g.h01)

  -- The two components of the inverse of the Hessian times the gradient.
  abbrev pub step_w : FitState F → F
  step_w st =
      let g = gradient obs lambda st.w st.b in div (sub (mul g.h11 g.g0) (mul g.h01 g.g1)) (det st)

  abbrev pub step_b : FitState F → F
  step_b st =
      let g = gradient obs lambda st.w st.b in
      div (add (mul (neg g.h01) g.g0) (mul g.h00 g.g1)) (det st)

  -- The determinant is next to 0; the step is.
  abbrev pub is_singular : FitState F → Bool
  is_singular st = lt (abs (det st)) (lit 1 18)

  abbrev pub is_small : FitState F → Bool
  is_small st = lt (add (abs (step_w st)) (abs (step_b st))) (lit 1 9)

  abbrev pub newton : FitState F → FitState F
  newton st = record (with_hessian st) { w = sub st.w (step_w st); b = sub st.b (step_b st) }

  -- The points of the iteration, with the Hessian of the point before.
  abbrev pub point : FitState F → ℕ → FitState F
  point st zero = st
  point st (suc k) = point (newton st) k

  -- How a run from a point ends: after `k` full rounds, none of them from a singular point or with a
  -- small step; then at a singular point, or with a small step, or with no rounds left.
  pub record Ended (rounds : ℕ) (st result : FitState F) : Type 0 where
    pub k : ℕ
    pub full :
        (j : ℕ) → j < k → (is_singular (point st j) ≡ false) × (is_small (point st j) ≡ false)
    pub last :
        ((k < rounds) × (is_singular (point st k) ≡ true) × (result ≡ with_hessian (point st k)))
        ⊎ (((k < rounds)
              × (is_singular (point st k) ≡ false)
              × (is_small (point st k) ≡ true)
              × (result ≡ point st (suc k)))
            ⊎ ((k ≡ rounds) × (result ≡ point st rounds)))

  no_rounds :
      (st : FitState F) (j : ℕ)
      → j < 0
      → (is_singular (point st j) ≡ false) × (is_small (point st j) ≡ false)
  no_rounds st j h = absurd (omega arith)

  one_more :
      (rounds : ℕ) (st result : FitState F)
      → is_singular st ≡ false
      → is_small st ≡ false
      → Ended rounds (newton st) result
      → Ended (suc rounds) st result
  one_more rounds st result regular large x = record {
    k = suc x.k;
    full = full;
    last = elim x.last [
      | inl (below, singular, eq) ↦ inl (omega arith, singular, eq)
      | inr (inl (below, sound, small, eq)) ↦ inr (inl (omega arith, sound, small, eq))
      | inr (inr (all, eq)) ↦ inr (inr (omega arith, eq))
    ];
  }
    where
      full :
          (j : ℕ)
          → j < suc x.k
          → (is_singular (point st j) ≡ false) × (is_small (point st j) ≡ false)
      full zero h = (regular, large)
      full (suc j) h = x.full j (omega arith)

  fit_loop-Ended : (rounds : ℕ) (st : FitState F) → Ended rounds st (fit_loop rounds obs lambda st)
  unfolding fit_loop
  fit_loop-Ended zero st = record { k = 0; full = no_rounds st; last = inr (inr (refl, refl)) }
  fit_loop-Ended (suc n) st = elim (Bool-cases (is_singular st)) [
    | inl singular ↦
        rw (fit_loop, singular)
          (record { k = 0; full = no_rounds st; last = inl (omega arith, singular, refl) })
    | inr regular ↦ elim (Bool-cases (is_small st)) [
      | inl small ↦
          rw (fit_loop, regular)
            (rw small (record {
              k = 0;
              full = no_rounds st;
              last = inr (inl (omega arith, regular, small, refl));
            }))
      | inr large ↦
          rw (fit_loop, regular)
            (rw large (one_more n st _ regular large (fit_loop-Ended n (newton st))))
    ]
  ]

module _ {F : Type 0} ⦃d : Double F⦄ where
  -- The fit of one or more observations is what `finish` makes of the state in which Newton's iteration
  -- from (0, 0) ends. It makes full rounds, at most 50, none from a point where the Hessian's
  -- determinant is below 1e-18 and none with a step below 1e-9, in absolute values. Either all 50 are
  -- made, or the next point has such a determinant, and it stays with the Hessian there; or the
  -- determinant there is not so small and the step is, and this step is made, with the Hessian of the
  -- point before it.
  pub fit-Ended :
      (o : Observation F) (obs : List (Observation F)) (lambda : F)
      → (st : FitState F) × Ended (o ∷ obs) lambda 50 fit_start st
        × (fit (o ∷ obs) lambda ≡ finish (length (o ∷ obs)) st)
  unfolding fit
  fit-Ended o obs lambda =
      (fit_loop 50 (o ∷ obs) lambda fit_start, fit_loop-Ended (o ∷ obs) lambda 50 fit_start, refl)
