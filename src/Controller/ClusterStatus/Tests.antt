-- ===== src/Controller/ClusterStatus/Tests.antt =====
-- The status of a cluster policy at concrete objects.
use token_control.Common.{◌≡◌, ◌↔◌, refl, true, [], ◌∷◌, some, any}
use token_control.Common.Int.{pos}
use token_control.Common.Result.{ok}
use token_control.Text.{◌==◌, codes}
use token_control.Api.Policies.{ClusterTokenPolicy, ClusterTokenPolicyStatus}
use token_control.Policy.Samples.{openai, equality_selectors}
use token_control.Policy.Selector.{selector_matches}
use token_control.Policy.Resolve.{select_cluster}
use token_control.Webhook.Cluster.{found}
use token_control.Controller.Samples.{prod, namespaces, namespace_named, listing_client, prepend}
use token_control.Controller.ClusterStatus.{
  StoredClusterPolicy, matched_namespaces, reconcile_cluster_policy,
}
use token_control.Controller.ClusterStatus.Governed.{reconcile_cluster_policy-selects}

-- A policy for the namespaces of the production tier.
abbrev prod_policy : ClusterTokenPolicy
prod_policy = record openai {
  spec = record openai.spec {
    namespace_selector = some (record { match_labels = prod; match_expressions = [] });
  };
}

abbrev stored_policy : StoredClusterPolicy
stored_policy = record {
  policy = prod_policy;
  generation = pos 1;
  status = record {
    observed_generation = pos 0;
    model_count = 0;
    applied_namespaces = [];
    conditions = [];
  };
}

matched :
    matched_namespaces equality_selectors prod_policy.spec.namespace_selector namespaces
    ≡ ok (codes "team" ∷ [])
unfolding matched_namespaces selector_matches equality_selectors ◌==◌
matched = refl

reconcile_cluster_policy-selects_example :
    (st : ClusterTokenPolicyStatus) × (reconcile_cluster_policy equality_selectors prepend
        listing_client
        (found stored_policy)
      ≡ ok (some st))
    × ((any (λ k. k == codes "team") st.applied_namespaces ≡ true)
        ↔ (select_cluster equality_selectors prod (prod_policy ∷ []) ≡ ok (prod_policy ∷ [])))
unfolding namespace_named ◌==◌
reconcile_cluster_policy-selects_example =
    reconcile_cluster_policy-selects equality_selectors prepend listing_client stored_policy
      namespaces (codes "team" ∷ []) (codes "team") prod refl (refl, (refl, tt)) matched refl refl
