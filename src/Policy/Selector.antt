-- ===== src/Policy/Selector.antt =====
-- `selectorMatches` (NamespaceSelectorMatches) and `workloadMatches` (WorkloadSelectorMatches).
use token_control.Common.{Bool, true, false, List, [], ◌∷◌, Option, none, some, any, if◌then◌else◌}
use token_control.Common.Result.{Result, ok, ◌>>=◌}
use token_control.Text.{Text, ◌==◌}
use token_control.Api.Selector.{Labels, LabelSelector, LabelSelectors, WorkloadSelector}

module _ (K : LabelSelectors) where
  unfoldable pub selector_matches : Option LabelSelector → Labels → Result Text Bool
  selector_matches none lbls = ok true
  selector_matches (some sel) lbls = do s ← K.as_selector sel; ok (s lbls)

  -- The loop over ServiceAccounts, for a list that is not empty.
  abbrev pub account_matches : List Text → Text → Bool
  account_matches [] sa = true
  account_matches (want ∷ wants) sa = any (λ w. w == sa) (want ∷ wants)

  unfoldable pub workload_matches : Option WorkloadSelector → Labels → Text → Result Text Bool
  unfolding selector_matches ◌==◌
  workload_matches none pod_labels sa = ok true
  workload_matches (some sel) pod_labels sa =
      if account_matches sel.service_accounts sa
      then selector_matches sel.pod_selector pod_labels
      else ok false
