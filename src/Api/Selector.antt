-- ===== src/Api/Selector.antt =====
-- Label maps and selectors. LabelSelector is the Kubernetes type; its conversion and its matching
-- are not code of the repository and enter as the parameter `LabelSelectors`.
use token_control.Common.{
  Bool, true, false, ◌&&◌, List, [], ◌∷◌, Option, none, some, is_nil, if◌then◌else◌,
}
use token_control.Common.Result.{Result}
use token_control.Text.{Text, ◌==◌}

-- map[string]string, in the order in which it is listed.
abbrev pub Labels : Type 0
Labels = List (Text × Text)

-- `m[key]` with the answer whether the key is there.
unfoldable pub entry : Labels → Text → Option Text
entry [] key = none
entry (e ∷ rest) key = let later = entry rest key in if e.0 == key then some e.1 else later

pub record LabelSelectorRequirement : Type 0 where
  pub key : Text
  pub operator : Text
  pub values : List Text

pub record LabelSelector : Type 0 where
  pub match_labels : Labels
  pub match_expressions : List LabelSelectorRequirement

-- `metav1.LabelSelectorAsSelector`: the test that the selector stands for, or an error.
pub record LabelSelectors : Type 0 where
  pub as_selector : LabelSelector → Result Text (Labels → Bool)

pub record WorkloadSelector : Type 0 where
  pub pod_selector : Option LabelSelector
  pub service_accounts : List Text

-- `(*WorkloadSelector).IsEmpty`
unfoldable pub is_empty : Option WorkloadSelector → Bool
is_empty none = true
is_empty (some w) =
    if is_nil w.service_accounts
    then elim w.pod_selector [
      | none ↦ true
      | some s ↦ is_nil s.match_labels && is_nil s.match_expressions
    ]
    else false
