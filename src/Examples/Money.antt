-- ===== src/Examples/Money.antt =====
-- Budgets of internal/budget/budget.go in cents.
use semblance.Budget.{Tracker, new, charge, enabled, over_budget, remaining_cents, spent_by}
use semblance.Budget.Laws.{
  IsCharged, charge_all, remaining-over_budget, remaining-disabled, charge_all-IsCharged,
  over_budget-charge_all,
}
use semblance.Examples.Fixed.{Fixed, num, fixed, fixed-IsOrdered, fixed-IsAdditive}
use semblance.Policy.Logistic.{nought}
use semblance.Prelude.{◌≡◌, refl, true, false, not, List, [], ◌∷◌}
use semblance.Text.{Text, codes}

abbrev tracker : Tracker Fixed
tracker = new (num 1000005000)

abbrev bills : List (Text × Fixed)
bills = (codes "a", num 1000003000) ∷ (codes "b", num 1000001000) ∷ (codes "a", num 1000004000) ∷ []

remaining-over_budget_test :
    fixed.lt nought (remaining_cents tracker (codes "a")) ≡ not (over_budget tracker (codes "a"))
unfolding spent_by enabled
remaining-over_budget_test =
    remaining-over_budget fixed-IsOrdered fixed-IsAdditive tracker (codes "a") refl refl refl

-- No ceiling.
abbrev unlimited : Tracker Fixed
unlimited = new (num 1000000000)

unlimited_test :
    (over_budget unlimited (codes "a") ≡ false)
    × (remaining_cents unlimited (codes "a") ≡ nought)
    × (charge unlimited (codes "a") (num 1000003000) ≡ unlimited)
unfolding enabled
unlimited_test = remaining-disabled unlimited (codes "a") (num 1000003000) refl

tracker-IsCharged : IsCharged tracker
unfolding spent_by
tracker-IsCharged key = refl

-- After the bills the key is over budget.
abbrev spent_out : Tracker Fixed
spent_out = charge_all tracker bills

spent_out-over : over_budget spent_out (codes "a") ≡ true
unfolding over_budget charge_all charge spent_by enabled
spent_out-over = refl

over_budget-charge_all_test : over_budget (charge_all spent_out bills) (codes "a") ≡ true
over_budget-charge_all_test =
    over_budget-charge_all fixed-IsOrdered fixed-IsAdditive spent_out bills (codes "a")
      (charge_all-IsCharged fixed-IsOrdered fixed-IsAdditive tracker bills tracker-IsCharged
        (refl, (refl, (refl, tt))))
      (refl, (refl, (refl, tt))) spent_out-over
