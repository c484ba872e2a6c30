-- ===== src/Bench/Serial.antt =====
-- bench/replay.go: `nearestRange`, and the entry that it finds.
use semblance.Bench.Scan.{Best, no_best, range_loop, nearest_range}
use semblance.Double.{Double, IsOrdered}
use semblance.Prelude.{
  ℕ, zero, suc, ◌+◌, ◌-◌, ◌<◌, ◌≡◌, refl, inl, inr, true, false, none, some, arith, if◌then◌else◌,
  ltb, Bool-cases, subst,
}

module _ {F : Type 0} ⦃d : Double F⦄ (sim_at : ℕ → F) where
  open d use {lt, neg_inf, is_nan}

  -- `i` is the first of the indices below `n` with the largest similarity `s`.
  pub record IsFirst (n i : ℕ) (s : F) : Type 0 where
    pub below : i < n
    pub value : s ≡ sim_at i
    pub num : is_nan s ≡ false
    pub upper : (j : ℕ) → j < n → lt s (sim_at j) ≡ false
    pub first : (j : ℕ) → j < i → is_nan (sim_at j) ≡ false → lt (sim_at j) s ≡ true

  -- No index is found exactly where no similarity is above -Inf.
  unfoldable pub IsNearest : ℕ → Best F → Type 0
  IsNearest n (none, s) = (s ≡ neg_inf) × ((j : ℕ) → j < n → lt neg_inf (sim_at j) ≡ false)
  IsNearest n (some i, s) = IsFirst n i s

module _ {F : Type 0} ⦃d : Double F⦄ (laws : IsOrdered F) (sim_at : ℕ → F) where
  open d use {lt, neg_inf, is_nan}
  open laws use {lt_num, lt_irrefl, lt_trans, lt_cotrans}

  upper_next : (P : ℕ → Type 0) (k : ℕ) → ((j : ℕ) → j < k → P j) → P k → (j : ℕ) → j < k + 1 → P j
  upper_next P k h last j j_lt = elim (Bool-cases (ltb j k)) [
    | inl less ↦ h j (ground arith)
    | inr same ↦ let eq : k ≡ j = ground arith in subst (λ (x : ℕ). P x) eq last
  ]

  -- An index whose similarity is above a bound of those before it.
  higher-IsFirst :
      (k : ℕ) (s : F)
      → ((j : ℕ) → j < k → lt s (sim_at j) ≡ false)
      → lt s (sim_at k) ≡ true
      → IsFirst sim_at (k + 1) k (sim_at k)
  higher-IsFirst k s upper more = record {
    below = omega arith;
    value = refl;
    num = (lt_num s (sim_at k) more).1;
    upper =
        upper_next (λ j. lt (sim_at k) (sim_at j) ≡ false) k
          (λ j j_lt. ground (arith, upper j j_lt, lt_trans s (sim_at k) (sim_at j) more))
          (lt_irrefl (sim_at k));
    first =
        λ j j_lt j_num. ground (arith, upper j j_lt, lt_cotrans s (sim_at j) (sim_at k) j_num more);
  }

  round-IsNearest :
      (k : ℕ) (best : Best F)
      → IsNearest sim_at k best
      → IsNearest sim_at (k + 1) (if lt best.1 (sim_at k) then (some k, sim_at k) else best)
  unfolding IsNearest
  round-IsNearest k (none, s) (low, upper) = elim (Bool-cases (lt s (sim_at k))) [
    | inl more ↦ rw more (higher-IsFirst k s (rw low upper) more)
    | inr less ↦
        rw less (low, upper_next (λ j. lt neg_inf (sim_at j) ≡ false) k upper (rw low at less))
  ]
  round-IsNearest k (some i, s) h = elim (Bool-cases (lt s (sim_at k))) [
    | inl more ↦ rw more (higher-IsFirst k s h.upper more)
    | inr less ↦
        let i_lt : i < k = h.below in
        rw less (record {
          below = omega arith;
          value = h.value;
          num = h.num;
          upper = upper_next (λ j. lt s (sim_at j) ≡ false) k h.upper less;
          first = h.first;
        })
  ]

  range_loop-IsNearest :
      (left k : ℕ) (best : Best F)
      → IsNearest sim_at k best
      → IsNearest sim_at (k + left) (range_loop sim_at left k best)
  unfolding range_loop
  range_loop-IsNearest zero k best h =
      let same : k ≡ k + 0 = omega arith in subst (λ (x : ℕ). IsNearest sim_at x best) same h
  range_loop-IsNearest (suc left) k best h =
      let best' : Best F = if lt best.1 (sim_at k) then (some k, sim_at k) else best in
      let shift : k + 1 + left ≡ k + suc left = omega arith in
      subst (λ (x : ℕ). IsNearest sim_at x (range_loop sim_at left (k + 1) best')) shift
        (range_loop-IsNearest left (k + 1) best' (round-IsNearest k best h))

  -- A scan of the first `n` entries finds the first entry of the largest similarity, and none only
  -- where every similarity is NaN or -Inf.
  pub nearest_range-IsNearest : (n : ℕ) → IsNearest sim_at n (nearest_range sim_at 0 n)
  unfolding nearest_range IsNearest
  nearest_range-IsNearest n =
      let empty : (j : ℕ) → j < 0 → lt neg_inf (sim_at j) ≡ false =
        λ j j_lt. absurd (omega arith) in
      let all : IsNearest sim_at (0 + (n - 0)) (nearest_range sim_at 0 n) =
        range_loop-IsNearest (n - 0) 0 no_best (refl, empty) in
      let same : 0 + (n - 0) ≡ n = omega arith in
      subst (λ (x : ℕ). IsNearest sim_at x (nearest_range sim_at 0 n)) same all
