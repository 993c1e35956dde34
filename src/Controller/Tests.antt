-- ===== src/Controller/Tests.antt =====
-- The theorems on the reconcilers at concrete objects.
use token_control.Common.{◌≢◌, All, ◌≡◌, ◌↔◌, refl, false, [], ◌∷◌, none, some, arith, List}
use token_control.Common.Int.{pos}
use token_control.Common.Result.{Result, ok, err}
use token_control.Common.Sort.{sort}
use token_control.Text.{before, Text, codes, ◌==◌}
use token_control.Api.{EffectiveModel, PermissionAction}
use token_control.Api.Policies.{TokenPolicy}
use token_control.Api.Claim.{ModelClaimStatus, pending, bound, denied}
use token_control.Api.Selector.{is_empty}
use token_control.Policy.Glob.{glob_match}
use token_control.Policy.Selector.{selector_matches, workload_matches}
use token_control.Policy.Tier.{model_matches, norm_action, first_match, eval_tier}
use token_control.Policy.Effective.{permit}
use token_control.Policy.Apply.{apply_cluster, apply_namespace_tier, apply_each, sort_by_priority}
use token_control.Policy.Resolve.{
  ResolveError, resolve, apply_all, assemble, select_cluster, select_namespace, classify,
}
use token_control.Controller.Samples.{prepend}
use token_control.Controller.Claim.{
  claim_identities, bind_decision, bind_decisions, resolve_request, resolve_identities,
  resolve_claim, distinct_credentials, distinct_allowed_credentials, resolved_status,
}
use token_control.Controller.Claim.Verdict.{IdentityPermits, resolved_status-bound}
use token_control.Webhook.Samples.{batch_claim}
use token_control.Policy.Samples.{
  equality_selectors, batch_only, rule, per_minute, token_policy, openai, mistral, team_default,
}
use token_control.Controller.Capacity.{
  quota_or_empty, add_ptr, over, within_capacity, reconcile_capacity,
}
use token_control.Controller.Capacity.Allocation.{Window, minute_tokens, limit}
use token_control.Controller.Capacity.Planning.{
  Fits, reconcile_capacity-Fits, reconcile_capacity-available, add_ptr-wraps,
}

abbrev key_user : TokenPolicy
key_user =
    token_policy (codes "key-user") (some (record { pod_selector = none; service_accounts = [] }))
      (pos 0)
      (rule PermissionAction.allow (codes "openai") (codes "gpt-4o") (some (codes "key")) ∷ [])
      (some (per_minute (pos 50)))

reconcile_capacity-Fits_example :
    ((reconcile_capacity
        (some (per_minute (pos 1000)))
        (some (per_minute (pos 1050)))).oversubscription
      ≡ within_capacity)
    ↔ ((w : Window)
        → Fits
            (limit w (quota_or_empty (some (per_minute (pos 1050)))))
            (limit w (per_minute (pos 1000))))
reconcile_capacity-Fits_example =
    reconcile_capacity-Fits (per_minute (pos 1000)) (some (per_minute (pos 1050)))

reconcile_capacity-available_example :
    limit minute_tokens (
      quota_or_empty
        (reconcile_capacity (some (per_minute (pos 1000))) (some (per_minute (pos 400)))).available)
    ≡ some (pos 600)
reconcile_capacity-available_example =
    reconcile_capacity-available minute_tokens (per_minute (pos 1000)) (some (per_minute (pos 400)))
      1000 refl (omega arith) tt (omega arith)

overflow_unnoticed :
    over (some (pos 10)) (add_ptr (some (pos 9223372036854775807)) (some (pos 9223372036854775807)))
    ≡ false
overflow_unnoticed =
    add_ptr-wraps 9223372036854775807 9223372036854775807 10 (omega arith) (omega arith)
      (omega arith)

abbrev pending_status : ModelClaimStatus
pending_status = record {
  observed_generation = pos 0;
  phase = pending;
  resolved_models = [];
  bound_credentials = [];
  conditions = [];
}

models_or_nil : Result ResolveError (List EffectiveModel) → List EffectiveModel
models_or_nil (ok ms) = ms
models_or_nil (err e) = []

-- `resolve_claim` with all that it calls.
claimed_models : List EffectiveModel
unfolding models_or_nil resolve_claim resolve_identities claim_identities resolve select_cluster
    selector_matches select_namespace classify workload_matches is_empty equality_selectors
    resolve_request bind_decisions bind_decision assemble apply_all apply_each apply_cluster
    apply_namespace_tier sort_by_priority sort permit eval_tier first_match model_matches
    norm_action glob_match before
claimed_models = models_or_nil (
    resolve_claim equality_selectors batch_claim (openai ∷ mistral ∷ [])
      (team_default ∷ batch_only ∷ []) [])

claim_resolves :
    resolve_claim equality_selectors batch_claim
      (openai ∷ mistral ∷ [])
      (team_default ∷ batch_only ∷ [])
      []
    ≡ ok claimed_models
unfolding claimed_models
claim_resolves = refl

claimed_credentials : distinct_allowed_credentials claimed_models ≡ codes "key" ∷ []
unfolding claimed_models distinct_allowed_credentials distinct_credentials ◌==◌
claimed_credentials = refl

resolved_status-bound_example :
    let phase = (resolved_status prepend (pos 1) claimed_models pending_status).phase in
    ((phase ≡ bound)
      ↔ All
          (λ m.
            All
              (IdentityPermits equality_selectors batch_claim
                (openai ∷ mistral ∷ [])
                (team_default ∷ batch_only ∷ [])
                []
                m)
              (claim_identities batch_claim.spec.selector))
          batch_claim.spec.models)
    × (phase ≢ bound → phase ≡ denied)
resolved_status-bound_example =
    resolved_status-bound equality_selectors batch_claim (openai ∷ mistral ∷ [])
      (team_default ∷ batch_only ∷ []) [] prepend (pos 1) pending_status claimed_models
      claim_resolves
