-- ===== src/Budget.antt =====
-- internal/budget/budget.go: the spend of each API key against one ceiling, in cents. The methods
-- lock the tracker, so a call is one step.
pub mod Laws
use semblance.Assoc.{lookup, insert}
use semblance.Double.{Double}
use semblance.Policy.Logistic.{nought}
use semblance.Prelude.{
  Bool, true, false, not, ◌&&◌, ◌||◌, List, [], map, Option, none, some, if◌then◌else◌,
}
use semblance.Text.{Text, text_Eq}

pub record Tracker (F : Type 0) : Type 0 where
  pub ceiling_cents : F
  pub spent : List (Text × F)

abbrev pub new : {F : Type 0} → F → Tracker F
new ceiling = record { ceiling_cents = ceiling; spent = [] }

module _ {F : Type 0} ⦃d : Double F⦄ where
  open d use {add, sub, lt, le, feq}

  -- `t.spent[key]`: a missing key reads as zero.
  unfoldable pub spent_by : Tracker F → Text → F
  spent_by t key = elim (lookup key t.spent) [ none ↦ nought | some cents ↦ cents ]

  unfoldable pub enabled : Tracker F → Bool
  enabled t = lt nought t.ceiling_cents

  unfoldable pub over_budget : Tracker F → Text → Bool
  over_budget t key = if not (enabled t) then false else le t.ceiling_cents (spent_by t key)

  unfoldable pub charge : Tracker F → Text → F → Tracker F
  charge t key cents =
      if not (enabled t) || feq cents nought
      then t
      else record t { spent = insert key (add (spent_by t key) cents) t.spent }

  unfoldable pub remaining_cents : Tracker F → Text → F
  remaining_cents t key =
      if not (enabled t)
      then nought
      else (let r = sub t.ceiling_cents (spent_by t key) in if lt r nought then nought else r)

  -- The keys seen so far, in the order in which Go ranges over the map.
  unfoldable pub keys : Tracker F → List Text
  keys t = map (λ e. e.0) t.spent
