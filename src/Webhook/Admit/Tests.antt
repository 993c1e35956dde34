-- ===== src/Webhook/Admit/Tests.antt =====
-- The theorems on the validating webhooks at concrete policies.
use mathlib.Core.List.{Permᴰ}
use token_control.Common.{◌≡◌, refl, [], ◌∷◌, some, filterb, arith}
use token_control.Common.Result.{ok}
use token_control.Text.{◌==◌, codes}
use token_control.Policy.Glob.{valid_glob}
use token_control.Policy.Effective.{Effective}
use token_control.Policy.Samples.{equality_selectors, openai, mistral, team_default, batch_only}
use token_control.Webhook.Admit.{
  rule_problems, validate_model_rules, gateway_problems, selector_problems, workload_problems,
  cluster_policy_problems, token_policy_problems, validate_cluster_policy, validate_token_policy,
}
use token_control.Webhook.Cluster.{Client, namespace_labels, resolve_effective}
use token_control.Webhook.Request.{review_cluster_policy, review_token_policy}
use token_control.Policy.Resolve.{resolve}
use token_control.Webhook.Admit.Writes.{created, updated}
use token_control.Webhook.Admit.History.{
  Reachable, empty, cluster_written, policy_written, resolve_effective-Reachable,
}
use token_control.Webhook.Samples.{team_client}

-- The policies are created one after the other, and one is updated in between.
reached :
    Reachable equality_selectors
      (record { clusters = openai ∷ mistral ∷ []; policies = team_default ∷ batch_only ∷ [] })
unfolding review_cluster_policy review_token_policy validate_cluster_policy validate_token_policy
    cluster_policy_problems token_policy_problems validate_model_rules rule_problems
    gateway_problems selector_problems workload_problems valid_glob
reached =
    policy_written _ _
      (policy_written _ _
        (policy_written _ _
          (cluster_written _ _
            (cluster_written _ _ empty (created mistral [] tt (team_client, refl)))
            (created openai _ (λ e. ground (arith, e), tt) (team_client, refl)))
          (created batch_only [] tt (team_client, refl)))
        (created team_default _ (λ e. ground (arith, e), tt) (team_client, refl)))
      (updated [] (batch_only ∷ []) team_default team_default refl (team_client, refl))

-- The lists come in another order than that of the writes.
abbrev listing : Client
listing = record team_client {
  list_cluster_policies = ok (mistral ∷ openai ∷ []);
  list_policies = λ ns. ok (batch_only ∷ team_default ∷ []);
}

resolve_effective-Reachable_example :
    (e : Effective) × (resolve equality_selectors (record {
      cluster_policies = openai ∷ mistral ∷ [];
      namespace_policies =
          filterb (λ p. p.namespace == codes "team") (team_default ∷ batch_only ∷ []);
      namespace = codes "team";
      namespace_labels = [];
      pod_labels = some [];
      service_account = codes "batch";
    })
      ≡ ok e)
    × (resolve_effective equality_selectors listing (codes "team") (some []) (codes "batch") ≡ ok e)
unfolding namespace_labels ◌==◌
resolve_effective-Reachable_example =
    resolve_effective-Reachable equality_selectors
      (record { clusters = openai ∷ mistral ∷ []; policies = team_default ∷ batch_only ∷ [] })
      listing (codes "team") [] (some []) (codes "batch") (mistral ∷ openai ∷ [])
      (batch_only ∷ team_default ∷ []) reached (Permᴰ.swap refl refl) (Permᴰ.swap refl refl) refl
      refl refl
