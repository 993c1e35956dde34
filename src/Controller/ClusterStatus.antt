-- ===== src/Controller/ClusterStatus.antt =====
-- internal/controller/clustertokenpolicy_controller.go: `Reconcile` of a ClusterTokenPolicy.
mod Tests
pub mod Governed
use token_control.Common.{
  Bool, true, false, List, [], ◌∷◌, length, Option, none, some, if◌then◌else◌,
}
use token_control.Common.Int.{ℤ}
use token_control.Common.Sort.{sort}
use token_control.Common.Result.{Result, ok, err, ◌>>=◌}
use token_control.Text.{Text, before, codes}
use token_control.Api.Selector.{Labels, LabelSelector, LabelSelectors}
use token_control.Api.Policies.{ClusterTokenPolicy, ClusterTokenPolicyStatus}
use token_control.Policy.Selector.{selector_matches}
use token_control.Webhook.Cluster.{Fetch, found, not_found, failed, Client}
use token_control.Controller.Conditions.{Conditions, set_condition}

-- The object that is read: the policy with its generation and its status.
pub record StoredClusterPolicy : Type 0 where
  pub policy : ClusterTokenPolicy
  pub generation : ℤ
  pub status : ClusterTokenPolicyStatus

module _ (K : LabelSelectors) where
  -- The loop over the namespaces that were listed.
  unfoldable pub matched_namespaces :
      Option LabelSelector → List (Text × Labels) → Result Text (List Text)
  matched_namespaces sel [] = ok []
  matched_namespaces sel (n ∷ ns) = do
    match ← selector_matches K sel n.1
    rest ← matched_namespaces sel ns
    ok (if match then n.0 ∷ rest else rest)

  module _ (D : Conditions) where
    unfoldable pub bad_selector_status : ℤ → ClusterTokenPolicyStatus → ClusterTokenPolicyStatus
    bad_selector_status generation st = record st {
      conditions =
          set_condition D (codes "Valid") false (codes "BadSelector") generation st.conditions;
    }

    unfoldable pub applied_status : StoredClusterPolicy → List Text → ClusterTokenPolicyStatus
    applied_status s matched = record {
      observed_generation = s.generation;
      model_count = length s.policy.spec.models;
      applied_namespaces = sort before matched;
      conditions = set_condition D (codes "Ready") true (codes "Reconciled") s.generation (
          set_condition D (codes "Valid") true (codes "Validated") s.generation
            s.status.conditions);
    }

    -- The status that is written for the namespaces that were listed.
    unfoldable pub cluster_status :
        StoredClusterPolicy → List (Text × Labels) → ClusterTokenPolicyStatus
    cluster_status s namespaces =
        elim (matched_namespaces s.policy.spec.namespace_selector namespaces) [
          | err e ↦ bad_selector_status s.generation s.status
          | ok matched ↦ applied_status s matched
        ]

    -- `Reconcile`: none where the policy is gone.
    unfoldable pub reconcile_cluster_policy :
        Client → Fetch StoredClusterPolicy → Result Text (Option ClusterTokenPolicyStatus)
    reconcile_cluster_policy c not_found = ok none
    reconcile_cluster_policy c (failed e) = err e
    reconcile_cluster_policy c (found s) =
        c.list_namespaces >>= λ namespaces. ok (some (cluster_status s namespaces))
