-- ===== src/Policy/Resolve/Tests.antt =====
-- The theorems on the specific policies at a concrete input.
use token_control.Common.{◌≡◌, inl, inr, refl, [], ◌∷◌, some}
use token_control.Common.Result.{ok}
use token_control.Text.{◌==◌, codes}
use token_control.Api.{EnforcementMode}
use token_control.Api.Selector.{is_empty}
use token_control.Api.Policies.{TokenPolicy}
use token_control.Policy.Samples.{
  equality_selectors, batch_input, openai, mistral, team_default, batch_only,
}
use token_control.Policy.Selector.{selector_matches, workload_matches}
use token_control.Policy.Effective.{Effective}
use token_control.Policy.Resolve.{
  ResolveInput, assemble, select_cluster, select_namespace, classify, resolve, resolve_for_policy,
}
use token_control.Policy.Resolve.Target.{SameDecision, resolve_for_policy-SameDecision}

-- The workload policy only audits.
abbrev batch_audit : TokenPolicy
batch_audit = record batch_only {
  spec = record batch_only.spec { enforcement = EnforcementMode.audit };
}

abbrev audited_input : ResolveInput
audited_input = record batch_input { namespace_policies = batch_audit ∷ team_default ∷ [] }

clusters_selected :
    select_cluster equality_selectors [] (openai ∷ mistral ∷ []) ≡ ok (openai ∷ mistral ∷ [])
unfolding select_cluster selector_matches
clusters_selected = refl

policies_selected :
    select_namespace equality_selectors (some []) (codes "batch") audited_input.namespace_policies
    ≡ ok (record { ns_defaults = team_default ∷ []; wl_matched = batch_audit ∷ [] })
unfolding select_namespace classify workload_matches is_empty
policies_selected = refl

abbrev audited_decision : Effective
audited_decision =
    assemble (openai ∷ mistral ∷ [])
      (record { ns_defaults = team_default ∷ []; wl_matched = batch_audit ∷ [] })

resolve_for_policy-SameDecision_example :
    (a : Effective) × (b : Effective) × (resolve_for_policy equality_selectors
        audited_input.cluster_policies audited_input.namespace_policies [] batch_audit
      ≡ ok a)
    × (resolve equality_selectors audited_input ≡ ok b)
    × SameDecision a b
unfolding is_empty ◌==◌
resolve_for_policy-SameDecision_example =
    resolve_for_policy-SameDecision equality_selectors batch_audit audited_input
      (openai ∷ mistral ∷ []) (team_default ∷ []) refl (inr refl, (inl refl, tt)) clusters_selected
      policies_selected
