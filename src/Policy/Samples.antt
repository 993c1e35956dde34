-- ===== src/Policy/Samples.antt =====
-- Policies for the tests.
use token_control.Common.{
  Bool, true, ◌&&◌, List, [], ◌∷◌, Option, none, some, any, is_nil, if◌then◌else◌,
}
use token_control.Common.Int.{ℤ, pos}
use token_control.Common.Result.{ok, err}
use token_control.Text.{Text, ◌==◌, codes}
use token_control.Api.{EnforcementMode, PermissionAction, TokenQuota, ModelPermission}
use token_control.Api.Selector.{Labels, LabelSelectors, WorkloadSelector}
use token_control.Api.Policies.{ClusterTokenPolicy, TokenPolicy}
use token_control.Policy.Resolve.{ResolveInput}

has_label : Labels → Text × Text → Bool
unfolding ◌==◌
has_label labels (k, v) = any (λ l. l.0 == k && l.1 == v) labels

has_labels : Labels → Labels → Bool
unfolding has_label
has_labels [] labels = true
has_labels (l ∷ ls) labels = has_label labels l && has_labels ls labels

-- Selectors by equality of labels; those with expressions are refused.
unfoldable pub equality_selectors : LabelSelectors
unfolding has_labels
equality_selectors = record {
  as_selector = λ s.
      if is_nil s.match_expressions
      then ok (has_labels s.match_labels)
      else err (codes "expressions are not supported");
}

abbrev pub rule : PermissionAction → Text → Text → Option Text → ModelPermission
rule action provider model none = record {
  provider = provider;
  model = model;
  action = action;
  credential_ref = none;
  quota = none;
}
rule action provider model (some name) = record {
  provider = provider;
  model = model;
  action = action;
  credential_ref = some (record { name = name });
  quota = none;
}

abbrev pub per_minute : ℤ → TokenQuota
per_minute n = record {
  tokens_per_minute = some n;
  requests_per_minute = none;
  tokens_per_day = none;
  tokens_per_month = none;
}

abbrev pub cluster_policy : Text → List ModelPermission → Option TokenQuota → ClusterTokenPolicy
cluster_policy name models quota = record {
  name = name;
  spec = record {
    namespace_selector = none;
    models = models;
    quota = quota;
    enforcement = EnforcementMode.unset;
    default_credential_ref = none;
    gateway = none;
  };
}

abbrev pub token_policy :
    Text → Option WorkloadSelector → ℤ → List ModelPermission → Option TokenQuota → TokenPolicy
token_policy name selector priority models quota = record {
  namespace = codes "team";
  name = name;
  spec = record {
    selector = selector;
    models = models;
    quota = quota;
    enforcement = EnforcementMode.unset;
    priority = priority;
    gateway = none;
  };
}

abbrev pub by_account : Text → Option WorkloadSelector
by_account sa = some (record { pod_selector = none; service_accounts = sa ∷ [] })

abbrev pub openai : ClusterTokenPolicy
openai =
    cluster_policy (codes "base")
      (rule PermissionAction.allow (codes "openai") (codes "gpt-4*") (some (codes "key"))
        ∷ rule PermissionAction.deny (codes "openai") (codes "gpt-4-32k") none
        ∷ [])
      (some (per_minute (pos 1000)))

abbrev pub mistral : ClusterTokenPolicy
mistral =
    cluster_policy (codes "extra")
      (rule PermissionAction.unset (codes "mistral") (codes "*") none ∷ []) none

abbrev pub team_default : TokenPolicy
team_default = token_policy (codes "default") none (pos 0) [] (some (per_minute (pos 600)))

abbrev pub batch_only : TokenPolicy
batch_only =
    token_policy (codes "batch") (by_account (codes "batch")) (pos 1)
      (rule PermissionAction.allow (codes "openai") (codes "gpt-4o") none ∷ [])
      (some (per_minute (pos 50)))

abbrev pub batch_input : ResolveInput
batch_input = record {
  cluster_policies = openai ∷ mistral ∷ [];
  namespace_policies = batch_only ∷ team_default ∷ [];
  namespace = codes "team";
  namespace_labels = [];
  pod_labels = some [];
  service_account = codes "batch";
}
