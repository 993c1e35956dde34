-- ===== src/Webhook/Admit/Dead/Tests.antt =====
-- The warning on rules without effect at concrete policies.
use token_control.Common.{
  ◌≡◌, refl, Bool, true, false, List, [], ◌∷◌, none, some, inl, inr, any, Some,
}
use token_control.Common.Int.{pos}
use token_control.Common.Result.{Result, ok, err}
use token_control.Common.Sort.{sort}
use token_control.Text.{Text, ◌==◌, before, codes, to_lower, trim_space, has_suffix}
use token_control.Api.{PermissionAction}
use token_control.Api.Selector.{is_empty}
use token_control.Api.Policies.{TokenPolicy}
use token_control.Policy.Glob.{glob_match, valid_glob}
use token_control.Policy.Selector.{selector_matches, workload_matches}
use token_control.Policy.Tier.{model_matches, norm_action, first_match, eval_tier}
use token_control.Policy.Effective.{Effective, permit, deny_reason, refusal, combine}
use token_control.Policy.Apply.{apply_cluster, apply_namespace_tier, apply_each, sort_by_priority}
use token_control.Policy.Resolve.{
  resolve, apply_all, assemble, select_cluster, select_namespace, classify,
}
use token_control.Policy.Samples.{
  equality_selectors, rule, token_policy, by_account, team_default, openai, mistral,
}
use token_control.Webhook.Cluster.{Client, ReadError, namespace_labels, resolve_effective}
use token_control.Webhook.Samples.{team_client}
use token_control.Webhook.Admit.{
  Warning, no_effect, rule_problems, validate_model_rules, gateway_problems, selector_problems,
  workload_problems, token_policy_problems, credential_warning, credential_warnings, broader,
  dead_rules, hierarchy_warnings, validate_token_policy,
}
use token_control.Webhook.Admit.Dead.{Written, validate_token_policy-no_effect}

-- A policy for the workloads of one account, with a model that the cluster does not allow.
abbrev old_model : TokenPolicy
old_model =
    token_policy (codes "batch") (by_account (codes "batch")) (pos 1)
      (rule PermissionAction.allow (codes "openai") (codes "gpt-3.5") none ∷ []) none

-- A default of the namespace with a model that the cluster allows.
abbrev turbo : TokenPolicy
turbo =
    token_policy (codes "turbo") none (pos 0)
      (rule PermissionAction.allow (codes "openai") (codes "gpt-4-turbo") none ∷ []) none

abbrev only_gpt4o : TokenPolicy
only_gpt4o =
    token_policy (codes "first") none (pos 0)
      (rule PermissionAction.allow (codes "openai") (codes "gpt-4o") none ∷ []) none

abbrev with_policies : List TokenPolicy → Client
with_policies ps = record team_client { list_policies = λ ns. ok ps }

is_no_effect : Warning → Bool
is_no_effect (no_effect p m r) = true
is_no_effect w = false

warned : Client → TokenPolicy → Bool
unfolding is_no_effect validate_token_policy token_policy_problems validate_model_rules
    rule_problems gateway_problems selector_problems workload_problems credential_warnings
    credential_warning hierarchy_warnings broader dead_rules namespace_labels resolve select_cluster
    selector_matches select_namespace classify workload_matches is_empty equality_selectors sort
    ◌==◌ before to_lower trim_space assemble apply_all apply_each apply_cluster apply_namespace_tier
    sort_by_priority permit eval_tier first_match model_matches norm_action glob_match valid_glob
warned c tp = any is_no_effect (validate_token_policy equality_selectors c tp).warnings

allowed : Result ReadError Effective → Bool
allowed (err e) = false
allowed (ok e) = (permit e (codes "openai") (codes "gpt-4-turbo")).allowed

-- Another default of the namespace has an allowlist: the warning is raised, though the two lists are
-- one tier, which allows the model.
turbo_is_flagged : warned (with_policies (only_gpt4o ∷ [])) turbo ≡ true
unfolding warned
turbo_is_flagged = refl

turbo_is_permitted :
    allowed (
      resolve_effective equality_selectors
        (with_policies (only_gpt4o ∷ turbo ∷ []))
        (codes "team")
        (some [])
        (codes "batch"))
    ≡ true
unfolding allowed resolve_effective namespace_labels resolve select_cluster selector_matches
    select_namespace classify workload_matches is_empty equality_selectors sort ◌==◌ before to_lower
    trim_space assemble apply_all apply_each apply_cluster apply_namespace_tier sort_by_priority
    permit eval_tier first_match model_matches norm_action glob_match
turbo_is_permitted = refl

abbrev reason : Text
reason = codes "openai/gpt-3.5 is not on the cluster allowlist"

old_model_is_flagged :
    Some
      (λ w. w ≡ no_effect (codes "openai") (codes "gpt-3.5") reason)
      (validate_token_policy equality_selectors
        (with_policies (team_default ∷ []))
        old_model).warnings
unfolding warned deny_reason refusal combine has_suffix
old_model_is_flagged = inl refl

abbrev batch_decision : Effective
batch_decision =
    assemble (openai ∷ mistral ∷ [])
      (record { ns_defaults = team_default ∷ []; wl_matched = old_model ∷ [] })

batch_resolves :
    resolve_effective equality_selectors
      (with_policies (team_default ∷ old_model ∷ []))
      (codes "team")
      (some [])
      (codes "batch")
    ≡ ok batch_decision
unfolding resolve_effective namespace_labels resolve select_cluster selector_matches
    select_namespace classify workload_matches is_empty equality_selectors
batch_resolves = refl

old_model-Written :
    Written old_model
      (with_policies (team_default ∷ []))
      (with_policies (team_default ∷ old_model ∷ []))
unfolding ◌==◌ namespace_labels
old_model-Written = (
  refl,
  refl,
  team_default ∷ [],
  team_default ∷ old_model ∷ [],
  refl,
  refl,
  refl,
  (inl refl, (inr refl, tt)),
)

validate_token_policy-no_effect_example :
    (permit batch_decision (codes "openai") (codes "gpt-3.5")).allowed ≡ false
unfolding is_empty
validate_token_policy-no_effect_example =
    validate_token_policy-no_effect equality_selectors (with_policies (team_default ∷ []))
      (with_policies (team_default ∷ old_model ∷ [])) old_model (codes "openai") (codes "gpt-3.5")
      reason (some []) (codes "batch") batch_decision refl old_model-Written old_model_is_flagged
      batch_resolves
