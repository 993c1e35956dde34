-- ===== src/Controller/Claim/Tests.antt =====
-- The run on a claim, and the admission of its pod, at a concrete cluster.
use token_control.Common.{◌≡◌, inl, refl, List, [], ◌∷◌, Option, none, some}
use token_control.Common.Result.{Result, ok, err}
use token_control.Common.Sort.{sort}
use token_control.Text.{Text, ◌==◌, before, codes, to_lower, trim_space, split, cut}
use token_control.Api.Selector.{is_empty}
use token_control.Api.Claim.{ModelClaimStatus, bound}
use token_control.Policy.Glob.{glob_match}
use token_control.Policy.Selector.{selector_matches, workload_matches}
use token_control.Policy.Tier.{model_matches, norm_action, first_match, eval_tier}
use token_control.Policy.Effective.{permit}
use token_control.Policy.Apply.{apply_cluster, apply_namespace_tier, apply_each, sort_by_priority}
use token_control.Policy.Resolve.{
  resolve, apply_all, assemble, select_cluster, select_namespace, classify,
}
use token_control.Policy.Samples.{equality_selectors}
use token_control.Webhook.Cluster.{found, namespace_labels}
use token_control.Webhook.Pod.{sa_of, namespace_from, annotation}
use token_control.Webhook.Declared.{
  DeclaredModel, parse_models, merge, add, add_requests, add_claims, add_declared, declared_models,
}
use token_control.Webhook.Validate.{validate}
use token_control.Webhook.Validate.Rejection.{IsForbidden}
use token_control.Webhook.Samples.{team_client, config, batch_pod}
use token_control.Controller.Samples.{prepend, stored_claim}
use token_control.Controller.Claim.{
  ClaimIdentity, Outcome, update, claim_identities, bind_decision, bind_decisions, resolve_request,
  resolve_identities, resolve_claim, distinct_credentials, distinct_allowed_credentials,
  count_actions, count_allowed, resolved_status, conclude, rebind, reconcile_claim,
}
use token_control.Controller.Claim.Admitted.{reconcile_claim-admits}

status_of : Result Text (Option Outcome) → ModelClaimStatus
status_of (ok (some (update st n))) = st
status_of (ok none) = stored_claim.status
status_of (err e) = stored_claim.status

-- `reconcile_claim` with all that it calls.
written : ModelClaimStatus
unfolding status_of reconcile_claim rebind conclude resolved_status resolve_claim resolve_identities
    claim_identities namespace_labels resolve select_cluster selector_matches select_namespace
    classify workload_matches is_empty equality_selectors resolve_request bind_decisions
    bind_decision assemble apply_all apply_each apply_cluster apply_namespace_tier sort_by_priority
    sort permit eval_tier first_match model_matches norm_action glob_match before count_actions
    count_allowed distinct_allowed_credentials distinct_credentials ◌==◌
written = status_of (reconcile_claim equality_selectors prepend team_client (found stored_claim))

claim_written :
    reconcile_claim equality_selectors prepend team_client (found stored_claim)
    ≡ ok (some (update written (some 2)))
unfolding written
claim_written = refl

claim_bound : written.phase ≡ bound
unfolding written
claim_bound = refl

abbrev batch_identity : ClaimIdentity
batch_identity = record { pod_labels = none; sa = codes "batch" }

abbrev declared : List DeclaredModel
declared = record { provider = codes "openai"; model = codes "gpt-4o"; credential = [] } ∷ []

pod_declares :
    declared_models equality_selectors team_client
      (namespace_from none (codes "team"))
      (batch_pod [])
    ≡ ok declared
unfolding declared_models namespace_from workload_matches selector_matches trim_space cut split
    parse_models annotation merge add add_requests add_claims add_declared sort ◌==◌ before to_lower
    sa_of
pod_declares = refl

reconcile_claim-admits_example :
    ¬ IsForbidden (validate equality_selectors team_client config none (batch_pod []))
unfolding namespace_from claim_identities sa_of
reconcile_claim-admits_example =
    reconcile_claim-admits equality_selectors prepend team_client stored_claim written 2 config none
      (batch_pod []) batch_identity declared claim_written claim_bound refl (inl refl) refl refl
      pod_declares (inl (refl, refl), tt)
