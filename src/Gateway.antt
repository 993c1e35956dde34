-- ===== src/Gateway.antt =====
-- internal/gateway/gateway.go: the rate-limit objects that are built from a quota.
mod Tests
pub mod Object
pub mod Includes
pub mod Limits
pub mod Selection
pub mod Annotations
use token_control.Common.{
  ◌≡◌, Bool, true, false, ◌&&◌, List, [], ◌∷◌, ◌++◌, Option, none, some, is_nil, if◌then◌else◌,
}
use token_control.Common.Int.{ℤ, pos}
use token_control.Common.Result.{Result, ok, err}
use token_control.Text.{Text, ◌==◌, codes, non_empty}
use token_control.Text.Decimal.{print_int}
use token_control.Api.{
  TokenQuota, GatewayType, unset, envoy_ai_gateway, kuadrant, GatewayTargetRef, GatewayIntegration,
}
use token_control.Api.Selector.{Labels}
use token_control.Api.Policies.{TokenPolicy}
use token_control.Gateway.Object.{
  Value, text, number, object, array, Fields, no_field, with_field, single, pair, to_values,
  get_field,
}

pub record GroupVersionKind : Type 0 where
  pub group : Text
  pub version : Text
  pub kind : Text

abbrev pub envoy_backend_traffic_policy_gvk : GroupVersionKind
envoy_backend_traffic_policy_gvk = record {
  group = codes "gateway.envoyproxy.io";
  version = codes "v1alpha1";
  kind = codes "BackendTrafficPolicy";
}

abbrev pub kuadrant_token_rate_limit_policy_gvk : GroupVersionKind
kuadrant_token_rate_limit_policy_gvk = record {
  group = codes "kuadrant.io";
  version = codes "v1alpha1";
  kind = codes "TokenRateLimitPolicy";
}

-- The unstructured object, with its metadata beside its spec.
pub record Artifact : Type 0 where
  pub gvk : GroupVersionKind
  pub name : Text
  pub namespace : Text
  pub labels : Labels
  pub annotations : Labels
  pub spec : Value

unfoldable pub artifact_name : Text → Text
artifact_name policy_name = codes "tc-" ++ policy_name

-- `baseMeta`; the spec and the annotations are set by the caller.
unfoldable pub base_meta : GroupVersionKind → TokenPolicy → Labels → Value → Artifact
base_meta gvk tp annotations spec = record {
  gvk = gvk;
  name = artifact_name tp.name;
  namespace = tp.namespace;
  labels =
      (codes "app.kubernetes.io/managed-by", codes "token-control")
      ∷ (codes "governance.tokencontrol.io/policy", tp.name)
      ∷ [];
  annotations = annotations;
  spec = spec;
}

-- The fields of `targetRef`.
unfoldable pub target_ref_fields : GatewayTargetRef → Fields
target_ref_fields t = with_field (codes "kind") (text t.kind) (
    with_field (codes "name") (text t.name)
      (if non_empty t.group then with_field (codes "group") (text t.group) no_field else no_field))

-- A key of the annotations, where the limit is set.
abbrev pub annotate : Text → Option ℤ → Labels → Labels
annotate key none rest = rest
annotate key (some limit) rest = (key, print_int limit) ∷ rest

abbrev pub tpm_key : Text
tpm_key = codes "governance.tokencontrol.io/tpm"

abbrev pub per_day_key : Text
per_day_key = codes "governance.tokencontrol.io/tokens-per-day"

abbrev pub per_month_key : Text
per_month_key = codes "governance.tokencontrol.io/tokens-per-month"

-- What `annotateQuota` sets.
unfoldable pub annotate_quota : Option TokenQuota → Labels
annotate_quota none = []
annotate_quota (some q) =
    annotate tpm_key q.tokens_per_minute
      (annotate per_day_key q.tokens_per_day (annotate per_month_key q.tokens_per_month []))

-- A limit, where it is set, as an element of a slice.
abbrev pub each_limit : (ℤ → Value) → Option ℤ → List Value
each_limit make none = []
each_limit make (some limit) = make limit ∷ []

abbrev pub per_minute_limit : ℤ → Value
per_minute_limit requests =
    pair (codes "requests") (number requests) (codes "unit") (text (codes "Minute"))

abbrev pub request_rule : ℤ → Value
request_rule requests = single (codes "limit") (per_minute_limit requests)

abbrev pub token_rule : ℤ → Value
token_rule tokens = pair (codes "limit") (per_minute_limit tokens) (codes "cost") (
    single (codes "response") (
      single (codes "metadata") (
        pair (codes "namespace") (text (codes "io.envoy.ai_gateway")) (codes "key")
          (text (codes "llm_total_token")))))

unfoldable pub envoy_rules : Option TokenQuota → List Value
envoy_rules none = request_rule (pos 0) ∷ []
envoy_rules (some q) =
    let rules =
      each_limit request_rule q.requests_per_minute ++ each_limit token_rule q.tokens_per_minute in
    if is_nil rules then request_rule (pos 0) ∷ [] else rules

unfoldable pub build_envoy : GatewayTargetRef → TokenPolicy → Option TokenQuota → Artifact
build_envoy target tp quota = base_meta envoy_backend_traffic_policy_gvk tp (annotate_quota quota) (
    pair (codes "targetRefs") (array (to_values (object (target_ref_fields target) ∷ [])))
      (codes "rateLimit")
      (pair (codes "type") (text (codes "Global")) (codes "global")
        (single (codes "rules") (array (to_values (envoy_rules quota))))))

abbrev pub rate : Text → ℤ → Value
rate window limit = pair (codes "limit") (number limit) (codes "window") (text window)

unfoldable pub kuadrant_rates : Option TokenQuota → List Value
kuadrant_rates none = rate (codes "1m") (pos 0) ∷ []
kuadrant_rates (some q) =
    let rates =
      each_limit (rate (codes "1m")) q.tokens_per_minute
      ++ each_limit (rate (codes "24h")) q.tokens_per_day in
    if is_nil rates then rate (codes "1m") (pos 0) ∷ [] else rates

-- `tref["group"] = ...`, where the key is missing.
unfoldable pub with_default_group : Fields → Fields
with_default_group fields = elim (get_field fields (codes "group")) [
  | some v ↦ fields
  | none ↦ with_field (codes "group") (text (codes "gateway.networking.k8s.io")) fields
]

unfoldable pub build_kuadrant : GatewayTargetRef → TokenPolicy → Option TokenQuota → Artifact
build_kuadrant target tp quota =
    base_meta kuadrant_token_rate_limit_policy_gvk tp (annotate_quota quota) (
      pair (codes "targetRef") (object (with_default_group (target_ref_fields target)))
        (codes "limits")
        (single (codes "tokens")
          (single (codes "rates") (array (to_values (kuadrant_rates quota))))))

pub data GatewayError : Type 0 where
  target_required : GatewayType → GatewayError
  unsupported : GatewayType → GatewayError

-- The switch on the type.
unfoldable pub build :
    GatewayType
    → GatewayTargetRef
    → TokenPolicy
    → Option TokenQuota
    → Result GatewayError (Option Artifact)
build envoy_ai_gateway target tp quota = ok (some (build_envoy target tp quota))
build kuadrant target tp quota = ok (some (build_kuadrant target tp quota))
build t target tp quota = err (unsupported t)

-- `gw.Type == GatewayNone || gw.Type == ""`
abbrev pub is_disabled : GatewayType → Bool
is_disabled GatewayType.unset = true
is_disabled GatewayType.none = true
is_disabled _ = false

-- `For`
unfoldable pub artifact_for :
    Option GatewayIntegration
    → TokenPolicy
    → Option TokenQuota
    → Result GatewayError (Option Artifact)
artifact_for none tp quota = ok none
artifact_for (some gw) tp quota = if is_disabled gw.type then ok none else elim gw.target_ref [
  | none ↦ err (target_required gw.type)
  | some target ↦ build gw.type target tp quota
]
