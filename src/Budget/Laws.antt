-- ===== src/Budget/Laws.antt =====
-- What a budget promises (internal/budget/budget.go).
use semblance.Assoc.{lookup-insert_self, lookup-insert_ne}
use semblance.Budget.{Tracker, spent_by, enabled, over_budget, charge, remaining_cents}
use semblance.Double.{Double, IsOrdered}
use semblance.Policy.Logistic.{nought}
use semblance.Policy.Tau.{lt_asymm}
use semblance.Prelude.{◌≡◌, true, false, not, ◌&&◌, List, [], ◌∷◌, arith, if◌then◌else◌}
use semblance.Text.{Text, text_eq, text_eq_iff, text_Eq}

-- IEEE 754 addition and subtraction: a difference is positive exactly when the operands are in that
-- order (there is gradual underflow), and rounding never takes a sum of nonnegatives below an operand.
pub record IsAdditive (F : Type 0) ⦃d : Double F⦄ : Type 0 where
  pub sub_pos : (a b : F) → d.lt nought (d.sub a b) ≡ d.lt b a
  pub le-add : (a b : F) → d.le nought a ≡ true → d.le nought b ≡ true → d.le a (d.add a b) ≡ true

module _ {F : Type 0} ⦃d : Double F⦄ where
  open d use {add, lt, le, feq, is_nan}

  -- With budgets disabled no key is over budget, nothing is reported as remaining, and a charge
  -- changes nothing.
  pub remaining-disabled :
      (t : Tracker F) (key : Text) (cents : F)
      → enabled t ≡ false
      → (over_budget t key ≡ false) × (remaining_cents t key ≡ nought) × (charge t key cents ≡ t)
  unfolding over_budget remaining_cents charge
  remaining-disabled t key cents off = ground arith

  -- A charge adds to the key's spend if budgets are enabled and it is not zero, and changes no other
  -- key's spend and never the ceiling.
  pub spent_by-charge :
      (t : Tracker F) (key j : Text) (cents : F)
      → let t' = charge t key cents in
        (spent_by t' j ≡ (
          if enabled t && (not (feq cents nought) && text_eq j key)
          then add (spent_by t key) cents
          else spent_by t j))
        × (t'.ceiling_cents ≡ t.ceiling_cents)
  unfolding spent_by charge
  spent_by-charge t key j cents =
      let total = add (spent_by t key) cents in
      ground (
        arith,
        text_eq_iff j key,
        lookup-insert_self key total t.spent,
        lookup-insert_ne key j total t.spent,
      )

  -- Every recorded spend is a nonnegative number.
  abbrev pub IsCharged : Tracker F → Type 0
  IsCharged t = (key : Text) → le nought (spent_by t key) ≡ true

  unfoldable pub charge_all : Tracker F → List (Text × F) → Tracker F
  charge_all t [] = t
  charge_all t ((key, cents) ∷ bills) = charge_all (charge t key cents) bills

  abbrev pub AreNonneg : List (Text × F) → Type 0
  AreNonneg [] = Unit
  AreNonneg ((key, cents) ∷ bills) = (le nought cents ≡ true) × AreNonneg bills

  module _ (laws : IsOrdered F) (sums : IsAdditive F) where
    open laws use {le_num, le-eq-not-lt, lt_cotrans, lt_irrefl}
    open sums use {sub_pos, le-add}

    le_trans : (a b c : F) → le a b ≡ true → le b c ≡ true → le a c ≡ true
    le_trans a b c h k =
        let (na, nb) = le_num a b h in
        let (_, nc) = le_num b c k in
        ground (
          arith,
          le-eq-not-lt a b na nb,
          le-eq-not-lt b c nb nc,
          le-eq-not-lt a c na nc,
          lt_cotrans c b a nb,
        )

    -- With budgets enabled and numbers recorded, money remains exactly when the key is not over
    -- budget.
    pub remaining-over_budget :
        (t : Tracker F) (key : Text)
        → is_nan t.ceiling_cents ≡ false
        → is_nan (spent_by t key) ≡ false
        → enabled t ≡ true
        → lt nought (remaining_cents t key) ≡ not (over_budget t key)
    unfolding over_budget remaining_cents
    remaining-over_budget t key nc ns on = ground (
      arith,
      sub_pos t.ceiling_cents (spent_by t key),
      le-eq-not-lt t.ceiling_cents (spent_by t key) nc ns,
      lt_asymm laws (d.sub t.ceiling_cents (spent_by t key)) nought,
      lt_irrefl nought,
    )

    charge-grows :
        (t : Tracker F) (key : Text) (cents : F) (j : Text)
        → le nought cents ≡ true
        → IsCharged t
        → le (spent_by t j) (spent_by (charge t key cents) j) ≡ true
    charge-grows t key cents j h v = ground (
      arith,
      (spent_by-charge t key j cents).0,
      text_eq_iff j key,
      le-add (spent_by t j) cents (v j) h,
      le_self (spent_by t j) (v j),
    )
      where
        le_self : (a : F) → le nought a ≡ true → le a a ≡ true
        le_self a p =
            let (_, n) = le_num nought a p in ground (arith, le-eq-not-lt a a n n, lt_irrefl a)

    over_budget-charge :
        (t : Tracker F) (k : Text) (cents : F) (key : Text)
        → le (spent_by t key) (spent_by (charge t k cents) key) ≡ true
        → over_budget t key ≡ true
        → over_budget (charge t k cents) key ≡ true
    unfolding over_budget enabled
    over_budget-charge t k cents key grows h = ground (
      arith,
      (spent_by-charge t k key cents).1,
      le_trans t.ceiling_cents (spent_by t key) (spent_by (charge t k cents) key),
    )

    charge_all_both :
        (t : Tracker F) (bills : List (Text × F)) (key : Text)
        → IsCharged t
        → AreNonneg bills
        → IsCharged (charge_all t bills)
          × (over_budget t key ≡ true → over_budget (charge_all t bills) key ≡ true)
    unfolding charge_all
    charge_all_both t [] key v n = (v, λ h. h)
    charge_all_both t ((k, cents) ∷ bills) key v (n, ns) =
        let t' = charge t k cents in
        let v' : IsCharged t' = λ j.
          le_trans nought (spent_by t j) (spent_by t' j) (v j) (charge-grows t k cents j n v) in
        let (charged, stays) = charge_all_both t' bills key v' ns in
        (charged, λ h. stays (over_budget-charge t k cents key (charge-grows t k cents key n v) h))

    -- Where every recorded spend is a nonnegative number, charges that are not negative keep it so.
    pub charge_all-IsCharged :
        (t : Tracker F) (bills : List (Text × F))
        → IsCharged t
        → AreNonneg bills
        → IsCharged (charge_all t bills)
    charge_all-IsCharged t bills v n = (charge_all_both t bills [] v n).0

    -- Where every recorded spend is a nonnegative number, charges that are not negative never bring a
    -- key that is over budget back under it.
    pub over_budget-charge_all :
        (t : Tracker F) (bills : List (Text × F)) (key : Text)
        → IsCharged t
        → AreNonneg bills
        → over_budget t key ≡ true
        → over_budget (charge_all t bills) key ≡ true
    over_budget-charge_all t bills key v n = (charge_all_both t bills key v n).1
