-- ===== src/Controller/Conditions.antt =====
-- internal/controller/helpers.go: `setCondition`.
use token_control.Common.{Bool, List}
use token_control.Common.Int.{ℤ}
use token_control.Text.{Text}
use token_control.Api.Condition.{Condition}

-- `meta.SetStatusCondition`, by its effect on the conditions: a parameter.
pub record Conditions : Type 0 where
  pub set : List Condition → Condition → List Condition

abbrev pub set_condition : Conditions → Text → Bool → Text → ℤ → List Condition → List Condition
set_condition C kind holds reason generation conds =
    C.set conds
      (record { kind = kind; holds = holds; reason = reason; observed_generation = generation })
