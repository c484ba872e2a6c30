-- ===== src/Examples/Fixed.antt =====
-- An arithmetic in which the examples run: fixed point with three decimals, saturating at two
-- infinities, and NaN. It has the laws of comparison and of sums that the theorems ask for; `exp` and
-- `log` are crude. float32 is taken to be the same.
use semblance.Budget.Laws.{IsAdditive}
use semblance.Double.{Double, Single, IsOrdered}
use semblance.Prelude.{
  ℕ, zero, suc, ◌+◌, ◌-◌, ◌*◌, ◌/◌, ◌^◌, ◌≡◌, refl, ◌⊎◌, Bool, true, false, not, ◌&&◌, ◌||◌, arith,
  if◌then◌else◌, ltb, leb, ◌==◌,
}

-- `num k` is (k - 10 ^ 9) / 1000; the least and the greatest are the infinities.
pub data Fixed : Type 0 where
  nan : Fixed
  num : ℕ → Fixed

abbrev bias : ℕ
bias = 1000000000

abbrev top : ℕ
top = 2000000000

abbrev rank : ℕ → ℕ
rank k = if ltb top k then top else k

abbrev lt : Fixed → Fixed → Bool
lt nan b = false
lt (num a) nan = false
lt (num a) (num b) = ltb (rank a) (rank b)

abbrev le : Fixed → Fixed → Bool
le nan b = false
le (num a) nan = false
le (num a) (num b) = leb (rank a) (rank b)

abbrev feq : Fixed → Fixed → Bool
feq nan b = false
feq (num a) nan = false
feq (num a) (num b) = rank a == rank b

abbrev is_nan : Fixed → Bool
is_nan nan = true
is_nan (num a) = false

abbrev is_inf : Fixed → Bool
is_inf nan = false
is_inf (num a) = (a == 0) || leb top a

abbrev neg : Fixed → Fixed
neg nan = nan
neg (num a) = num (top - a)

abbrev abs : Fixed → Fixed
abs nan = nan
abs (num a) = if ltb a bias then num (top - a) else num a

abbrev sum : ℕ → ℕ → Fixed
sum a b =
    if (a == 0) && (b == top) || (a == top) && (b == 0)
    then nan
    else if (a == 0) || (b == 0)
    then num 0
    else if (a == top) || (b == top)
    then num top
    else num (a + b - bias)

abbrev add : Fixed → Fixed → Fixed
add nan b = nan
add (num a) nan = nan
add (num a) (num b) = sum (rank a) (rank b)

abbrev sub : Fixed → Fixed → Fixed
sub nan b = nan
sub (num a) nan = nan
sub (num a) (num b) = sum (rank a) (top - b)

-- The magnitude, and a number of a sign and a magnitude.
abbrev size : ℕ → ℕ
size a = if ltb a bias then bias - a else a - bias

abbrev signed : Bool → ℕ → Fixed
signed false m = num (bias + m)
signed true m = num (bias - m)

abbrev mul : Fixed → Fixed → Fixed
mul nan b = nan
mul (num a) nan = nan
mul (num a) (num b) =
    signed (if ltb a bias then leb bias b else ltb b bias) (size a * size b / 1000)

abbrev div : Fixed → Fixed → Fixed
div nan b = nan
div (num a) nan = nan
div (num a) (num b) =
    if b == bias
    then (if a == bias then nan else num (if ltb a bias then 0 else top))
    else signed (if ltb a bias then leb bias b else ltb b bias) (size a * 1000 / size b)

abbrev sqrt_loop : ℕ → ℕ → ℕ → ℕ
sqrt_loop zero r n = r
sqrt_loop (suc i) r n = sqrt_loop i (if leb ((r + 2 ^ i) * (r + 2 ^ i)) n then r + 2 ^ i else r) n

abbrev sqrt : Fixed → Fixed
sqrt nan = nan
sqrt (num a) = if ltb a bias then nan else num (bias + sqrt_loop 24 0 ((a - bias) * 1000))

abbrev unit : Fixed
unit = num (bias + 1000)

abbrev square : ℕ → Fixed → Fixed
square zero a = a
square (suc n) a = square n (mul a a)

-- (1 + a / 64) ^ 64.
abbrev exp : Fixed → Fixed
exp a =
    let b = add unit (div a (num (bias + 64000))) in
    if lt b (num bias) then num bias else square 6 b

-- 2 (a - 1) / (a + 1).
abbrev log : Fixed → Fixed
log a = let r = div (sub a unit) (add a unit) in add r r

instance abbrev pub fixed : Double Fixed
fixed = record {
  add = add;
  sub = sub;
  mul = mul;
  div = div;
  neg = neg;
  abs = abs;
  sqrt = sqrt;
  exp = exp;
  log = log;
  lt = lt;
  le = le;
  feq = feq;
  is_nan = is_nan;
  is_inf = is_inf;
  inf = num top;
  neg_inf = num 0;
  of_ℕ = λ n. num (bias + 1000 * n);
  lit = λ m e. num (bias + 1000 * m / 10 ^ e);
}

instance abbrev pub single_fixed : Single Fixed Fixed
single_fixed = record { to_64 = λ a. a; to_32 = λ a. a; mul_32 = mul; zero_32 = num bias }

lt_num : (a b : Fixed) → lt a b ≡ true → (is_nan a ≡ false) × (is_nan b ≡ false)
lt_num nan b h = absurd (cc)
lt_num (num a) nan h = absurd (cc)
lt_num (num a) (num b) h = (refl, refl)

lt_irrefl : (a : Fixed) → lt a a ≡ false
lt_irrefl nan = refl
lt_irrefl (num a) = ground arith

lt_trans : (a b c : Fixed) → lt a b ≡ true → lt b c ≡ true → lt a c ≡ true
lt_trans nan b c h k = absurd (cc)
lt_trans (num a) nan c h k = absurd (cc)
lt_trans (num a) (num b) nan h k = absurd (cc)
lt_trans (num a) (num b) (num c) h k = ground arith

lt_cotrans : (a b c : Fixed) → is_nan b ≡ false → lt a c ≡ true → (lt a b ≡ true) ⊎ (lt b c ≡ true)
lt_cotrans nan b c n h = absurd (cc)
lt_cotrans (num a) nan c n h = absurd (cc)
lt_cotrans (num a) (num b) nan n h = absurd (cc)
lt_cotrans (num a) (num b) (num c) n h = ground arith

le_num : (a b : Fixed) → le a b ≡ true → (is_nan a ≡ false) × (is_nan b ≡ false)
le_num nan b h = absurd (cc)
le_num (num a) nan h = absurd (cc)
le_num (num a) (num b) h = (refl, refl)

le-eq-not-lt : (a b : Fixed) → is_nan a ≡ false → is_nan b ≡ false → le a b ≡ not (lt b a)
le-eq-not-lt nan b n m = absurd (cc)
le-eq-not-lt (num a) nan n m = absurd (cc)
le-eq-not-lt (num a) (num b) n m = ground arith

not-inf_lt : (a : Fixed) → lt (num top) a ≡ false
not-inf_lt nan = refl
not-inf_lt (num a) = ground arith

not-lt_neg_inf : (a : Fixed) → lt a (num 0) ≡ false
not-lt_neg_inf nan = refl
not-lt_neg_inf (num a) = ground arith

neg_inf_lt : (a b : Fixed) → lt a b ≡ true → lt (num 0) b ≡ true
neg_inf_lt nan b h = absurd (cc)
neg_inf_lt (num a) nan h = absurd (cc)
neg_inf_lt (num a) (num b) h = ground arith

pub fixed-IsOrdered : IsOrdered Fixed
fixed-IsOrdered = record {
  lt_num = lt_num;
  lt_irrefl = lt_irrefl;
  lt_trans = lt_trans;
  lt_cotrans = lt_cotrans;
  le_num = le_num;
  le-eq-not-lt = le-eq-not-lt;
  of_ℕ_num = λ n. refl;
  zero_lt_one = refl;
  inf_num = refl;
  not-inf_lt = not-inf_lt;
  neg_inf_num = refl;
  not-lt_neg_inf = not-lt_neg_inf;
  neg_inf_lt = neg_inf_lt;
}

sub_pos : (a b : Fixed) → lt (num bias) (sub a b) ≡ lt b a
sub_pos nan nan = refl
sub_pos nan (num b) = refl
sub_pos (num a) nan = refl
sub_pos (num a) (num b) = ground arith

le-add : (a b : Fixed) → le (num bias) a ≡ true → le (num bias) b ≡ true → le a (add a b) ≡ true
le-add nan b h k = absurd (cc)
le-add (num a) nan h k = absurd (cc)
le-add (num a) (num b) h k = ground arith

pub fixed-IsAdditive : IsAdditive Fixed
fixed-IsAdditive = record { sub_pos = sub_pos; le-add = le-add }
