-- ===== src/Api/Condition.antt =====
-- metav1.Condition as the reconcilers set it: the type, the status and the reason, without the message
-- and the time of the transition.
use token_control.Common.{Bool}
use token_control.Common.Int.{ℤ}
use token_control.Text.{Text}

pub record Condition : Type 0 where
  pub kind : Text
  pub holds : Bool
  pub reason : Text
  pub observed_generation : ℤ
