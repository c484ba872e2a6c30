-- ===== src/Double.antt =====
-- float64 and float32, as the type of their values and the operations that the program applies to
-- them. Nothing is assumed of rounding: the laws below are facts of IEEE 754 comparison, with NaN.
use semblance.Prelude.{ℕ, ◌≡◌, ◌⊎◌, Bool, true, false, not}

pub record Double (F : Type 0) : Type 0 where
  pub add : F → F → F
  pub sub : F → F → F
  pub mul : F → F → F
  pub div : F → F → F
  pub neg : F → F
  pub abs : F → F
  pub sqrt : F → F
  pub exp : F → F
  pub log : F → F
  -- `a < b`, `a <= b` and `a == b`: false where an operand is NaN.
  pub lt : F → F → Bool
  pub le : F → F → Bool
  pub feq : F → F → Bool
  pub is_nan : F → Bool
  pub is_inf : F → Bool
  pub inf : F
  pub neg_inf : F
  -- `float64(n)`.
  pub of_ℕ : ℕ → F
  -- `lit m e` is the constant m * 10 ^ -e.
  pub lit : ℕ → ℕ → F

-- float32 beside float64: the conversions and the one product that the program computes in float32.
pub record Single (F S : Type 0) : Type 0 where
  pub to_64 : S → F
  pub to_32 : F → S
  pub mul_32 : S → S → S
  pub zero_32 : S

-- IEEE 754 comparison.
pub record IsOrdered (F : Type 0) ⦃d : Double F⦄ : Type 0 where
  pub lt_num : (a b : F) → d.lt a b ≡ true → (d.is_nan a ≡ false) × (d.is_nan b ≡ false)
  pub lt_irrefl : (a : F) → d.lt a a ≡ false
  pub lt_trans : (a b c : F) → d.lt a b ≡ true → d.lt b c ≡ true → d.lt a c ≡ true
  pub lt_cotrans :
      (a b c : F) → d.is_nan b ≡ false → d.lt a c ≡ true → (d.lt a b ≡ true) ⊎ (d.lt b c ≡ true)
  pub le_num : (a b : F) → d.le a b ≡ true → (d.is_nan a ≡ false) × (d.is_nan b ≡ false)
  pub le-eq-not-lt : (a b : F) → d.is_nan a ≡ false → d.is_nan b ≡ false → d.le a b ≡ not (d.lt b a)
  pub of_ℕ_num : (n : ℕ) → d.is_nan (d.of_ℕ n) ≡ false
  pub zero_lt_one : d.lt (d.of_ℕ 0) (d.of_ℕ 1) ≡ true
  pub inf_num : d.is_nan d.inf ≡ false
  pub not-inf_lt : (a : F) → d.lt d.inf a ≡ false
  pub neg_inf_num : d.is_nan d.neg_inf ≡ false
  pub not-lt_neg_inf : (a : F) → d.lt a d.neg_inf ≡ false
  pub neg_inf_lt : (a b : F) → d.lt a b ≡ true → d.lt d.neg_inf b ≡ true
