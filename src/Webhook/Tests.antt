-- ===== src/Webhook/Tests.antt =====
-- Runs of the pod webhooks, and their theorems at a concrete cluster.
use token_control.Common.{
  ◌≡◌, ◌↔◌, ◌⊎◌, refl, Bool, true, false, ◌&&◌, ◌||◌, List, [], ◌∷◌, none, some, Some, All, any,
}
use token_control.Common.Result.{Result, ok, err}
use token_control.Common.Sort.{sort, Distinct}
use token_control.Text.{Text, ◌==◌, before, codes, to_lower, trim_space, split, cut}
use token_control.Api.{EnforcementMode}
use token_control.Api.Selector.{is_empty}
use token_control.Policy.Glob.{glob_match}
use token_control.Policy.Selector.{selector_matches, workload_matches}
use token_control.Policy.Tier.{model_matches, norm_action, first_match, eval_tier}
use token_control.Policy.Effective.{Effective, permit}
use token_control.Policy.Apply.{apply_cluster, apply_namespace_tier, apply_each, sort_by_priority}
use token_control.Policy.Resolve.{
  resolve, apply_all, assemble, select_cluster, select_namespace, classify,
}
use token_control.Policy.Samples.{equality_selectors}
use token_control.Webhook.Cluster.{
  exempt, namespace_labels, resolve_effective, credential_authorizes,
}
use token_control.Webhook.Pod.{Pod, sa_of, namespace_from, annotation}
use token_control.Webhook.Declared.{
  DeclaredModel, parse_models, same_model, merge, add, add_requests, selects, add_claims,
  add_declared, declared_models,
}
use token_control.Webhook.Declared.Keys.{OtherModel, requests, request_of, declared_models-requests}
use token_control.Webhook.Validate.{
  Response, admitted, review, review_one, respond, judge, validate,
}
use token_control.Webhook.Validate.Reported.{Reviews, refused_models, answer, validate-answer}
use token_control.Webhook.Validate.Rejection.{IsForbidden, Refuses, validate-IsForbidden}
use token_control.Webhook.Deliver.{
  default_env_name, has_env, apply, apply_both, inject_env, deliver, inject_credential,
}
use token_control.Webhook.Deliver.Again.{inject_credential-again}
use token_control.Webhook.Deliver.Kept.{PodKeeps}
use token_control.Webhook.Inject.{
  Bound, cred_order, bind_one, bind_all, record_decision, untouched, bind_declared, default_pod,
}
use token_control.Webhook.Inject.Authorized.{default_pod-IsAuthorized, default_pod-PodKeeps}
use token_control.Webhook.Inject.Loop.{Asks, IsAuthorized}
use token_control.Webhook.Samples.{
  key_credential, team_claims, credential_named, team_client, config, batch_pod,
}

abbrev pod : Pod
pod = batch_pod (codes " openai/gpt-4o, anthropic/claude")

is_forbidden : Response → Bool
is_forbidden r = elim r.forbidden [ none ↦ false | some t ↦ true ]

-- `validate` with all that it calls.
refuses : Pod → Bool
unfolding is_forbidden validate judge review review_one respond exempt namespace_from
    declared_models resolve_effective namespace_labels resolve select_cluster selector_matches
    select_namespace classify workload_matches is_empty equality_selectors trim_space cut split
    parse_models annotation merge add add_requests add_claims add_declared sort ◌==◌ before to_lower
    sa_of assemble apply_all apply_each apply_cluster apply_namespace_tier sort_by_priority permit
    eval_tier first_match model_matches norm_action glob_match
refuses p = is_forbidden (validate equality_selectors team_client config none p)

pod_refused : refuses pod ≡ true
unfolding refuses
pod_refused = refl

claim_admitted : refuses (batch_pod []) ≡ false
unfolding refuses
claim_admitted = refl

value : Result Text Bound → Bound
value (ok b) = b
value (err e) = untouched pod

-- `default_pod` with all that it calls.
bound_pod : Bound
unfolding value default_pod bind_declared bind_all bind_one cred_order credential_authorizes
    credential_named record_decision inject_credential deliver inject_env apply_both apply has_env
    default_env_name exempt namespace_from declared_models resolve_effective namespace_labels
    resolve select_cluster selector_matches select_namespace classify workload_matches is_empty
    equality_selectors trim_space cut split parse_models annotation merge add add_requests
    add_claims add_declared sort ◌==◌ before to_lower sa_of assemble apply_all apply_each
    apply_cluster apply_namespace_tier sort_by_priority permit eval_tier first_match model_matches
    norm_action glob_match
bound_pod = value (default_pod equality_selectors team_client config none pod)

default_pod-bound_pod : default_pod equality_selectors team_client config none pod ≡ ok bound_pod
unfolding bound_pod
default_pod-bound_pod = refl

bound_names : bound_pod.bound ≡ codes "key" ∷ []
unfolding bound_pod
bound_names = refl

declared_models-requests_example :
    (ds : List DeclaredModel) × (declared_models equality_selectors team_client (codes "team") pod
      ≡ ok ds)
    × Distinct OtherModel ds
    × ((x : DeclaredModel)
        → any (same_model x) ds ≡ (
            any
              (λ cl. selects equality_selectors pod cl && any (requests x) cl.spec.models)
              team_claims
            || any (λ d. requests x (request_of d)) (parse_models pod)))
declared_models-requests_example =
    declared_models-requests equality_selectors team_client (codes "team") pod team_claims refl

validate-IsForbidden_example :
    IsForbidden (validate equality_selectors team_client config none pod) ↔ (
      let namespace = namespace_from none (codes "team") in
      (exempt config namespace ≡ false)
      × (ds : List DeclaredModel) × (declared_models equality_selectors team_client namespace pod
          ≡ ok ds)
      × (e : Effective) × (resolve_effective equality_selectors team_client namespace
            (some [])
            (sa_of pod)
          ≡ ok e)
      × (e.governed ≡ true)
      × (e.enforcement ≡ EnforcementMode.enforce)
      × Some (Refuses e) ds)
validate-IsForbidden_example = validate-IsForbidden equality_selectors team_client config none pod

inject_credential-again_example :
    inject_credential (inject_credential pod key_credential).0 key_credential
    ≡ ((inject_credential pod key_credential).0, false)
inject_credential-again_example = inject_credential-again pod key_credential

default_pod-PodKeeps_example : PodKeeps pod bound_pod.pod
default_pod-PodKeeps_example =
    default_pod-PodKeeps equality_selectors team_client config none pod bound_pod
      default_pod-bound_pod

default_pod-IsAuthorized_example :
    All
      (λ name.
        IsAuthorized equality_selectors team_client (namespace_from none (codes "team")) name
        × (ds : List DeclaredModel) × (declared_models equality_selectors team_client
              (namespace_from none (codes "team"))
              pod
            ≡ ok ds)
        × (e : Effective) × (resolve_effective equality_selectors team_client
              (namespace_from none (codes "team"))
              (some [])
              (sa_of pod)
            ≡ ok e)
        × Some (Asks e name) ds)
      bound_pod.bound
default_pod-IsAuthorized_example =
    default_pod-IsAuthorized equality_selectors team_client config none pod bound_pod
      default_pod-bound_pod

validate-answer_example :
    ((ds : List DeclaredModel) × (e : Effective) × Reviews equality_selectors team_client config
        none pod ds e
      × (validate equality_selectors team_client config none pod
          ≡ answer
              (namespace_from none pod.namespace)
              e
              (refused_models (namespace_from none pod.namespace) e ds)))
    ⊎ (((ds : List DeclaredModel) (e : Effective)
          → ¬ Reviews equality_selectors team_client config none pod ds e)
        × (validate equality_selectors team_client config none pod ≡ admitted))
validate-answer_example = validate-answer equality_selectors team_client config none pod
