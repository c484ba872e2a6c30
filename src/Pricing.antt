-- ===== src/Pricing.antt =====
-- internal/pricing/pricing.go: the price table and costs in dollars. Reading the file and decoding
-- its JSON are arguments.
use semblance.Assoc.{lookup}
use semblance.Double.{Double}
use semblance.Policy.Logistic.{nought}
use semblance.Prelude.{
  ℤ, pos, negsuc, suc, ◌≡◌, Bool, true, false, List, [], Option, none, some, arith,
}
use semblance.Text.{Text, text_Eq}

pub record ModelPrice (F : Type 0) : Type 0 where
  pub prompt_per_1m : F
  pub completion_per_1m : F
  pub embed_per_1m : F

-- `models` is `none` for a nil map.
pub record RawTable (F : Type 0) : Type 0 where
  pub retrieved_date : Text
  pub currency : Text
  pub models : Option (List (Text × ModelPrice F))

pub record Table (F : Type 0) : Type 0 where
  pub retrieved_date : Text
  pub currency : Text
  pub models : List (Text × ModelPrice F)

pub data LoadError : Type 0 where
  read_error parse_error : LoadError

pub data Loaded (F : Type 0) : Type 0 where
  ok : Table F → Loaded F
  err : LoadError → Loaded F

module _ {F : Type 0} where
  unfoldable pub with_models : RawTable F → Table F
  with_models t = record {
    retrieved_date = t.retrieved_date;
    currency = t.currency;
    models = elim t.models [ none ↦ [] | some m ↦ m ];
  }

  unfoldable pub load : (Text → Option Text) → (Text → Option (RawTable F)) → Text → Loaded F
  unfolding with_models
  load read_file unmarshal path = elim (read_file path) [
    | none ↦ err read_error
    | some b ↦ elim (unmarshal b) [ none ↦ err parse_error | some t ↦ ok (with_models t) ]
  ]

  abbrev pub empty : Table F
  empty = record { retrieved_date = []; currency = []; models = [] }

  unfoldable pub known : Table F → Text → Bool
  known t model = elim (lookup model t.models) [ none ↦ false | some p ↦ true ]

module _ {F : Type 0} ⦃d : Double F⦄ where
  open d use {add, mul, div, of_ℕ}

  -- `float64(n)` of an int.
  abbrev pub of_ℤ : ℤ → F
  of_ℤ (pos n) = of_ℕ n
  of_ℤ (negsuc n) = d.neg (of_ℕ (suc n))

  unfoldable pub chat_cost : Table F → Text → ℤ → ℤ → F
  chat_cost t model prompt_tokens completion_tokens = elim (lookup model t.models) [
    | none ↦ nought
    | some p ↦
        add (mul (div (of_ℤ prompt_tokens) (of_ℕ 1000000)) p.prompt_per_1m)
          (mul (div (of_ℤ completion_tokens) (of_ℕ 1000000)) p.completion_per_1m)
  ]

  unfoldable pub embed_cost : Table F → Text → ℤ → F
  embed_cost t model tokens = elim (lookup model t.models) [
    | none ↦ nought
    | some p ↦ mul (div (of_ℤ tokens) (of_ℕ 1000000)) p.embed_per_1m
  ]

  -- A model that the table does not know costs nothing, whatever the counts are; a table that was
  -- not loaded knows no model.
  pub cost-unknown :
      (t : Table F) (model : Text) (prompt completion tokens : ℤ)
      → known t model ≡ false
      → (chat_cost t model prompt completion ≡ nought) × (embed_cost t model tokens ≡ nought)
  unfolding known chat_cost embed_cost
  cost-unknown t model prompt completion tokens h = ground arith
