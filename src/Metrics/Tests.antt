-- ===== src/Metrics/Tests.antt =====
-- The metrics at concrete reviews.
use token_control.Common.{◌≡◌, ◌≤◌, ◌+◌, refl, List, [], ◌∷◌, none}
use token_control.Common.Sort.{sort}
use token_control.Text.{◌==◌, before, codes, to_lower, trim_space, split, cut}
use token_control.Api.Selector.{is_empty}
use token_control.Policy.Glob.{glob_match}
use token_control.Policy.Selector.{selector_matches, workload_matches}
use token_control.Policy.Tier.{model_matches, norm_action, first_match, eval_tier}
use token_control.Policy.Effective.{permit}
use token_control.Policy.Apply.{apply_cluster, apply_namespace_tier, apply_each, sort_by_priority}
use token_control.Policy.Resolve.{
  resolve, apply_all, assemble, select_cluster, select_namespace, classify,
}
use token_control.Policy.Samples.{equality_selectors}
use token_control.Webhook.Cluster.{exempt, namespace_labels, resolve_effective}
use token_control.Webhook.Pod.{sa_of, namespace_from, annotation}
use token_control.Webhook.Declared.{
  parse_models, merge, add, add_requests, add_claims, add_declared, declared_models,
}
use token_control.Webhook.Validate.{review, review_one, respond, judge, validate}
use token_control.Webhook.Samples.{team_client, config, batch_pod}
use token_control.Metrics.{admission_decisions, model_violations}
use token_control.Metrics.Decisions.{
  PodReview, review_samples, rejected, warned, total, review_samples-denials,
}

-- The first pod declares a model that no policy permits, the second none.
abbrev reviews : List PodReview
reviews =
    record {
      client = team_client;
      request = none;
      pod = batch_pod (codes " openai/gpt-4o, anthropic/claude");
    }
    ∷ record { client = team_client; request = none; pod = batch_pod [] }
    ∷ []

one_rejected : rejected equality_selectors config (codes "team") reviews ≡ 1
unfolding validate judge review review_one respond exempt namespace_from declared_models
    resolve_effective namespace_labels resolve select_cluster selector_matches select_namespace
    classify workload_matches is_empty equality_selectors trim_space cut split parse_models
    annotation merge add add_requests add_claims add_declared sort ◌==◌ before to_lower sa_of
    assemble apply_all apply_each apply_cluster apply_namespace_tier sort_by_priority permit
    eval_tier first_match model_matches norm_action glob_match
one_rejected = refl

review_samples-denials_example :
    (total admission_decisions
        (codes "deny" ∷ codes "team" ∷ [])
        (review_samples equality_selectors config reviews)
      ≡ rejected equality_selectors config (codes "team") reviews)
    × (warned equality_selectors config (codes "team") reviews
          + rejected equality_selectors config (codes "team") reviews
        ≤ total model_violations
            (codes "team" ∷ [])
            (review_samples equality_selectors config reviews))
review_samples-denials_example =
    review_samples-denials equality_selectors config (codes "team") reviews
